-- ===== src/Log/Writer.antt =====
-- log/logext.go: the goroutine RealWrite, which takes the lines of a logger out of its buffer, and the
-- callers of Output, who put them in. A Write of the file is taken to be done, whatever it returns:
-- the code does not look at it.
pub mod Fifo
pub mod Stop
pub mod Drain
use optimusprime.Prelude.{ℕ, ◌+◌, ◌≤◌, ◌<◌, ◌≡◌, arith, List, [], ◌∷◌, ◌++◌, length, length-append}
use optimusprime.Prelude.Text.{Bytes}

abbrev pub buffer_len : ℕ
buffer_len = 1000

-- Where the goroutine stands: in the outer loop, in the loop after isClosed, and behind its return.
pub data Phase : Type 0 where
  running : Phase
  draining : Phase
  stopped : Phase

-- The lines in the buffer, and those that were written, the oldest first.
pub record Writer : Type 0 where
  pub buf : List Bytes
  pub written : List Bytes
  pub phase : Phase

unfoldable pub new_writer : Writer
new_writer = record { buf = []; written = []; phase = running }

pub data Event : Type 0 where
  accepts : Bytes → Event
  writes : Bytes → Event
  closes : Event
  ends : Event

-- A select takes any case that is ready: a running goroutine may see isClosed before the lines. A line
-- is accepted while there is room, also by a logger whose goroutine has returned.
pub data Step : Writer → Event → Writer → Type 0 where
  accept :
      (w : Writer) (b : Bytes)
      → length w.buf < buffer_len
      → Step w (accepts b) (record w { buf = w.buf ++ b ∷ [] })
  write :
      (b : Bytes) (rest written : List Bytes)
      → Step
          (record { buf = b ∷ rest; written = written; phase = running })
          (writes b)
          (record { buf = rest; written = written ++ b ∷ []; phase = running })
  close :
      (buf written : List Bytes)
      → Step
          (record { buf = buf; written = written; phase = running })
          closes
          (record { buf = buf; written = written; phase = draining })
  drain :
      (b : Bytes) (rest written : List Bytes)
      → Step
          (record { buf = b ∷ rest; written = written; phase = draining })
          (writes b)
          (record { buf = rest; written = written ++ b ∷ []; phase = draining })
  finish :
      (written : List Bytes)
      → Step
          (record { buf = []; written = written; phase = draining })
          ends
          (record { buf = []; written = written; phase = stopped })

-- The steps from a writer, the last one outermost.
pub data Run (w : Writer) : List Event → Writer → Type 0 where
  here : Run w [] w
  next :
      {es : List Event} {u v : Writer} {e : Event}
      → Run w es u
      → Step u e v
      → Run w (es ++ e ∷ []) v

-- The lines that were accepted, and those that were written.
abbrev pub accepted : List Event → List Bytes
accepted [] = []
accepted (accepts b ∷ es) = b ∷ accepted es
accepted (writes b ∷ es) = accepted es
accepted (closes ∷ es) = accepted es
accepted (ends ∷ es) = accepted es

abbrev pub given : List Event → List Bytes
given [] = []
given (accepts b ∷ es) = given es
given (writes b ∷ es) = b ∷ given es
given (closes ∷ es) = given es
given (ends ∷ es) = given es
