-- ===== src/Log/Logger/Printed.antt =====
-- log/logext.go and log/api.go: the calls without a format, which print their operands one behind the
-- other, and the calls of the package that end the process or the goroutine.
use optimusprime.Prelude.{Bool, ◌||◌, if◌then◌else◌, List, [], ◌∷◌, ◌++◌}
use optimusprime.Prelude.Text.{Bytes}
use optimusprime.Prelude.Int.{pos, ltb_ℤ}
use optimusprime.Log.Logger.{
  Logger, Clock, Emitted, dropped, output, level_debug, level_info, level_warn, level_error,
  level_fatal, level_panic,
}
use optimusprime.Log.Logger.Levels.{Final, then_exit, then_panic}

-- What fmt prints of an operand, and whether it is a string.
pub record Operand : Type 0 where
  pub text : Bytes
  pub is_string : Bool

-- `fmt.Sprintln`: a space between any two, and a newline.
unfoldable pub sprintln : List Operand → Bytes
sprintln [] = 10 ∷ []
sprintln (v ∷ []) = v.text ++ 10 ∷ []
sprintln (v ∷ w ∷ vs) = v.text ++ 32 ∷ sprintln (w ∷ vs)

-- `fmt.Sprint`: a space between two of which neither is a string.
unfoldable pub sprint : List Operand → Bytes
sprint [] = []
sprint (v ∷ []) = v.text
sprint (v ∷ w ∷ vs) =
    let rest = sprint (w ∷ vs) in
    if v.is_string || w.is_string then v.text ++ rest else v.text ++ 32 ∷ rest

unfoldable pub print : Clock → List Operand → Logger → Emitted
unfolding sprint output
print now vs l = output now [] level_info (sprint vs) l

unfoldable pub println : Clock → List Operand → Logger → Emitted
unfolding sprintln output
println now vs l = output now [] level_info (sprintln vs) l

unfoldable pub debug : Clock → List Operand → Logger → Emitted
unfolding sprintln output
debug now vs l =
    if ltb_ℤ (pos level_debug) l.level then dropped else output now [] level_debug (sprintln vs) l

unfoldable pub info : Clock → List Operand → Logger → Emitted
unfolding sprintln output
info now vs l =
    if ltb_ℤ (pos level_info) l.level then dropped else output now [] level_info (sprintln vs) l

unfoldable pub warn : Clock → List Operand → Logger → Emitted
unfolding sprintln output
warn now vs l = output now [] level_warn (sprintln vs) l

unfoldable pub error : Clock → List Operand → Logger → Emitted
unfolding sprintln output
error now vs l = output now [] level_error (sprintln vs) l

unfoldable pub fatal : Clock → List Operand → Logger → Final
unfolding sprint output then_exit
fatal now vs l = then_exit (output now [] level_fatal (sprint vs) l)

unfoldable pub fatalln : Clock → List Operand → Logger → Final
unfolding sprintln output then_exit
fatalln now vs l = then_exit (output now [] level_fatal (sprintln vs) l)

unfoldable pub panic : Clock → List Operand → Logger → Final
unfolding sprint output then_panic
panic now vs l = then_panic (output now [] level_panic (sprint vs) l)

unfoldable pub panicln : Clock → List Operand → Logger → Final
unfolding sprintln output then_panic
panicln now vs l = then_panic (output now [] level_panic (sprintln vs) l)
