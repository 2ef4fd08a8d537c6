-- ===== src/Log/Writer/Fifo.antt =====
-- What the writer promises: a queue that forgets the buffer and the phases of the goroutine.
use mathlib.Core.Path.{subst}
use optimusprime.Prelude.{
  ℕ, ◌+◌, ◌≡◌, refl, ap, sym, ◌∙◌, Bool, true, false, some, List, [], ◌∷◌, ◌++◌, append_assoc,
  append-nil, length, length-append, get_elem?,
}
use optimusprime.Prelude.Text.{Bytes}
use optimusprime.Log.Writer.{
  Writer, Event, accepts, writes, closes, ends, Step, accept, write, close, drain, finish, Run,
  here, next, Phase, running, draining, stopped,
}

-- All lines that were ever accepted, how many of them are written, and whether the queue has ended. It
-- ends once all of its lines are written, and writes nothing more after that.
pub record Fifo : Type 0 where
  pub lines : List Bytes
  pub count : ℕ
  pub ended : Bool

pub data FifoStep (f : Fifo) : Event → Fifo → Type 0 where
  put : (b : Bytes) → FifoStep f (accepts b) (record f { lines = f.lines ++ b ∷ [] })
  get :
      (b : Bytes)
      → f.ended ≡ false
      → get_elem? f.lines f.count ≡ some b
      → FifoStep f (writes b) (record f { count = f.count + 1 })
  shut : f.ended ≡ false → FifoStep f closes f
  end_up : f.ended ≡ false → f.count ≡ length f.lines → FifoStep f ends (record f { ended = true })

pub data FifoRun (f : Fifo) : List Event → Fifo → Type 0 where
  fresh : FifoRun f [] f
  after :
      {es : List Event} {g h : Fifo} {e : Event}
      → FifoRun f es g
      → FifoStep g e h
      → FifoRun f (es ++ e ∷ []) h

abbrev pub is_stopped : Phase → Bool
is_stopped running = false
is_stopped draining = false
is_stopped stopped = true

abbrev pub view : Writer → Fifo
view w = record { lines = w.written ++ w.buf; count = length w.written; ended = is_stopped w.phase }

get_elem?-middle :
    (xs : List Bytes) (b : Bytes) (ys : List Bytes) → get_elem? (xs ++ b ∷ ys) (length xs) ≡ some b
get_elem?-middle [] b ys = refl
get_elem?-middle (x ∷ xs) b ys = get_elem?-middle xs b ys

-- The first line of the buffer is the next one of the queue.
view_writes :
    (b : Bytes) (rest written : List Bytes) (p : Phase)
    → is_stopped p ≡ false
    → FifoStep
        (view (record { buf = b ∷ rest; written = written; phase = p }))
        (writes b)
        (view (record { buf = rest; written = written ++ b ∷ []; phase = p }))
view_writes b rest written p goes =
    subst (FifoStep (view (record { buf = b ∷ rest; written = written; phase = p })) (writes b))
      (ap (λ ls. record { lines = ls; count = length written + 1; ended = is_stopped p })
          (sym (append_assoc written (b ∷ []) rest))
        ∙ ap (λ n. record { lines = (written ++ b ∷ []) ++ rest; count = n; ended = is_stopped p })
            (sym (length-append written (b ∷ []))))
      (get b goes (get_elem?-middle written b rest))

Step-FifoStep : {w v : Writer} {e : Event} → Step w e v → FifoStep (view w) e (view v)
Step-FifoStep (accept w b room) =
    subst (FifoStep (view w) (accepts b))
      (ap (λ ls. record { lines = ls; count = length w.written; ended = is_stopped w.phase })
        (append_assoc w.written w.buf (b ∷ [])))
      (put b)
Step-FifoStep (write b rest written) = view_writes b rest written running refl
Step-FifoStep (close buf written) = shut refl
Step-FifoStep (drain b rest written) = view_writes b rest written draining refl
Step-FifoStep (finish written) = end_up refl (ap length (sym (append-nil written)))

-- The logger's writer is a queue: whatever it does is done by the queue that keeps all lines in the
-- order in which they were accepted, writes the next one of them at each write, and ends only once all
-- that it accepted is written, after which it accepts, but never writes again.
pub Run-FifoRun : {w v : Writer} {es : List Event} → Run w es v → FifoRun (view w) es (view v)
Run-FifoRun here = fresh
Run-FifoRun (next r s) = after (Run-FifoRun r) (Step-FifoStep s)
