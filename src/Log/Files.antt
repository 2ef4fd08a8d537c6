-- ===== src/Log/Files.antt =====
-- log/logrotate.go: a rotating logger at work, with the callers of Output, the goroutine lorateLog and
-- the goroutines of the files in any order. A caller reads rl.Logger and puts its line in the buffer of
-- that logger later; SetLogf closes the old logger before it stores the new one.
pub mod Labels
pub mod Held
pub mod Places
pub mod Sound
mod Tests
use optimusprime.Prelude.{
  ℕ, zero, suc, ◌≡◌, ◌⊎◌, Bool, true, false, Option, none, some, List, [], ◌∷◌, ◌++◌, length,
  get_elem?, set,
}
use optimusprime.Prelude.Text.{Bytes}
use optimusprime.Log.Writer.{Writer, new_writer, Event, accepts, writes, closes, ends, Step}

-- The writers of all files so far, the number of that behind rl.Logger, whether it was closed for the
-- next one, and the callers that hold a logger and a line.
pub record Files : Type 0 where
  pub writers : List Writer
  pub current : ℕ
  pub rotating : Bool
  pub pending : List (ℕ × Bytes)

unfoldable pub first_file : Files
first_file = record { writers = new_writer ∷ []; current = 0; rotating = false; pending = [] }

-- A step that the goroutine of a file makes by itself.
abbrev pub IsOwn : Event → Type 0
IsOwn (accepts b) = ⊥
IsOwn (writes b) = Unit
IsOwn closes = ⊥
IsOwn ends = Unit

-- What happens at a step: a caller takes the logger of a file for its line, the writer of a file has an
-- event, or the next file comes.
pub data Label : Type 0 where
  picked : ℕ → Bytes → Label
  does : ℕ → Event → Label
  switched : Label

pub data FilesStep (s : Files) : Label → Files → Type 0 where
  -- `rl.Logger.Output`: the logger is read, and the line made.
  picks :
      (b : Bytes)
      → FilesStep s (picked s.current b) (record s { pending = s.pending ++ (s.current, b) ∷ [] })
  -- `l.buf <- []byte(content)`.
  puts :
      (before after : List (ℕ × Bytes)) (i : ℕ) (b : Bytes) (w v : Writer)
      → s.pending ≡ before ++ (i, b) ∷ after
      → get_elem? s.writers i ≡ some w
      → Step w (accepts b) v
      → FilesStep s
          (does i (accepts b))
          (record s { pending = before ++ after; writers = set s.writers i v })
  works :
      (i : ℕ) (e : Event) (w v : Writer)
      → get_elem? s.writers i ≡ some w
      → IsOwn e
      → Step w e v
      → FilesStep s (does i e) (record s { writers = set s.writers i v })
  -- `rl.Logger.isClosed <- true`.
  shuts :
      (w v : Writer)
      → s.rotating ≡ false
      → get_elem? s.writers s.current ≡ some w
      → Step w closes v
      → FilesStep s
          (does s.current closes)
          (record s { writers = set s.writers s.current v; rotating = true })
  -- `rl.Logger = New(rl.logf, "", Ldefault)`.
  switches :
      s.rotating ≡ true
      → FilesStep s switched (record s {
        writers = s.writers ++ new_writer ∷ [];
        current = length s.writers;
        rotating = false;
      })

-- The steps, with what happened at each, the last one outermost.
pub data FilesRun (s : Files) : List Label → Files → Type 0 where
  here : FilesRun s [] s
  next :
      {ls : List Label} {t u : Files} {l : Label}
      → FilesRun s ls t
      → FilesStep t l u
      → FilesRun s (ls ++ l ∷ []) u
