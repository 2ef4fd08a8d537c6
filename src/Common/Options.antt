-- ===== src/Common/Options.antt =====
-- common/commandline.go: the options of the command line, which package flag keeps.
use Prim.Native.String.{String}
use optimusprime.Prelude.{Bool, if◌then◌else◌, Option, none, some, List, [], ◌∷◌}
use optimusprime.Prelude.Text.{Bytes}
use optimusprime.Prelude.Map.{lookup, string_eq}

-- The values of the flags that are declared, as text, and those of the command line.
pub record Flags : Type 0 where
  pub values : List (String × Bytes)
  pub given : List (String × Bytes)
  pub parsed : Bool

-- `flag.Parse` sets the values that are given; it is another's code.
unfoldable pub process_options : (Flags → Flags) → Flags → Flags
process_options parse f = if f.parsed then f else parse f

-- What DumpOptions prints: the flags that were given.
unfoldable pub dump_options : (Flags → Flags) → Flags → List (String × Bytes) × Flags
unfolding process_options
dump_options parse f = let f' = process_options parse f in (f'.given, f')

pub data OptionError : Type 0 where
  not_found : OptionError
  is_empty : String → OptionError

unfoldable pub option_value : String → Option Bytes → Bytes × Option OptionError
option_value name none = ([], some not_found)
option_value name (some []) = ([], some (is_empty name))
option_value name (some (b ∷ bs)) = (b ∷ bs, none)

-- It does not parse the command line by itself.
unfoldable pub get_option : String → Flags → Bytes × Option OptionError
unfolding option_value
get_option name f = option_value name (lookup name f.values)
