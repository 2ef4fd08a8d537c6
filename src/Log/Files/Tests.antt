-- ===== src/Log/Files/Tests.antt =====
-- A rotation that loses a line.
use mathlib.Core.List.{Perm}
use optimusprime.Prelude.{◌≡◌, refl, arith, false, List, [], ◌∷◌, ◌++◌, ◌&&◌, ◌==◌, not}
use optimusprime.Prelude.Text.{codes}
use optimusprime.Log.Writer.{
  Writer, new_writer, accepts, closes, ends, accept, close, finish, running, draining, stopped,
  accepted, Run,
}
use optimusprime.Log.Writer.Stop.{Explains}
use optimusprime.Log.Files.{
  Files, first_file, Label, picked, does, switched, picks, puts, works, shuts, switches, FilesRun,
  here, next,
}
use optimusprime.Log.Files.Labels.{events_of}
use optimusprime.Log.Files.Held.{picked_for, held_for}
use optimusprime.Log.Files.Places.{is_running}
use optimusprime.Log.Files.Sound.{files_explained}

abbrev held : Files
held = record {
  writers = new_writer ∷ [];
  current = 0;
  rotating = false;
  pending = (0, codes "a") ∷ [];
}

abbrev empty : Writer
empty = record { buf = []; written = []; phase = running }

abbrev closed : Writer
closed = record { buf = []; written = []; phase = draining }

abbrev gone : Writer
gone = record { buf = []; written = []; phase = stopped }

abbrev late : Writer
late = record { buf = codes "a" ∷ []; written = []; phase = stopped }

-- A caller reads the logger, the file is closed and its goroutine returns, the next file comes, and
-- then the line goes to the old buffer.
abbrev lost : Files
lost = record { writers = late ∷ new_writer ∷ []; current = 1; rotating = false; pending = [] }

abbrev labels : List Label
labels =
    picked 0 (codes "a")
    ∷ does 0 closes
    ∷ does 0 ends
    ∷ switched
    ∷ does 0 (accepts (codes "a"))
    ∷ []

run : FilesRun first_file labels lost
unfolding first_file new_writer
run =
    next
      (next
        (next (next (next here (picks (codes "a"))) (shuts empty closed refl refl (close [] [])))
          (works 0 ends closed gone refl tt (finish [])))
        (switches refl))
      (puts [] [] 0 (codes "a") gone late refl refl (accept gone (codes "a") (omega arith)))

files_explained_example :
    (is_running stopped ≡ (0 == 1 && not false))
    × Perm (picked_for 0 labels) (held_for 0 [] ++ accepted (events_of 0 labels))
    × Run new_writer (events_of 0 labels) late
    × Explains stopped (codes "a" ∷ []) (events_of 0 labels)
files_explained_example = files_explained 0 late run refl
