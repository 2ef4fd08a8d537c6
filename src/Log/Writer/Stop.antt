-- ===== src/Log/Writer/Stop.antt =====
-- What is lost when the goroutine of a logger stops.
use optimusprime.Prelude.{◌≡◌, refl, ap, sym, ◌∙◌, List, [], ◌∷◌, ◌++◌, append_assoc, append-nil}
use optimusprime.Prelude.Text.{Bytes}
use optimusprime.Log.Writer.{
  Writer, new_writer, Event, accepts, writes, closes, ends, Step, accept, write, close, drain,
  finish, Run, here, next, Phase, running, draining, stopped, accepted, given,
}

pub accepted-append : (xs ys : List Event) → accepted (xs ++ ys) ≡ accepted xs ++ accepted ys
accepted-append [] ys = refl
accepted-append (accepts b ∷ xs) ys = ap (λ l. b ∷ l) (accepted-append xs ys)
accepted-append (writes b ∷ xs) ys = accepted-append xs ys
accepted-append (closes ∷ xs) ys = accepted-append xs ys
accepted-append (ends ∷ xs) ys = accepted-append xs ys

pub given-append : (xs ys : List Event) → given (xs ++ ys) ≡ given xs ++ given ys
given-append [] ys = refl
given-append (accepts b ∷ xs) ys = given-append xs ys
given-append (writes b ∷ xs) ys = ap (λ l. b ∷ l) (given-append xs ys)
given-append (closes ∷ xs) ys = given-append xs ys
given-append (ends ∷ xs) ys = given-append xs ys

-- A run with an end in it: all that was accepted before is written, and all that came after is in the
-- buffer.
pub record IsSplit (buf : List Bytes) (es : List Event) : Type 0 where
  pub before : List Event
  pub after : List Event
  pub parts : es ≡ before ++ ends ∷ after
  pub all_written : given before ≡ accepted before
  pub none_written : given after ≡ []
  pub left : accepted after ≡ buf

abbrev pub Explains : Phase → List Bytes → List Event → Type 0
Explains running buf es = accepted es ≡ given es ++ buf
Explains draining buf es = accepted es ≡ given es ++ buf
Explains stopped buf es = IsSplit buf es

took :
    (es : List Event) (buf : List Bytes) (b : Bytes)
    → accepted es ≡ given es ++ buf
    → accepted (es ++ accepts b ∷ []) ≡ given (es ++ accepts b ∷ []) ++ (buf ++ b ∷ [])
took es buf b h =
    rw
      (
        accepted-append es (accepts b ∷ []),
        given-append es (accepts b ∷ []),
        h,
        append-nil (given es),
      )
      (append_assoc (given es) buf (b ∷ []))

gave :
    (es : List Event) (b : Bytes) (rest : List Bytes)
    → accepted es ≡ given es ++ b ∷ rest
    → accepted (es ++ writes b ∷ []) ≡ given (es ++ writes b ∷ []) ++ rest
gave es b rest h =
    rw
      (
        accepted-append es (writes b ∷ []),
        given-append es (writes b ∷ []),
        append-nil (accepted es),
        h,
      )
      (sym (append_assoc (given es) (b ∷ []) rest))

shuts :
    (es : List Event) (buf : List Bytes)
    → accepted es ≡ given es ++ buf
    → accepted (es ++ closes ∷ []) ≡ given (es ++ closes ∷ []) ++ buf
shuts es buf h =
    rw
      (
        accepted-append es (closes ∷ []),
        given-append es (closes ∷ []),
        append-nil (accepted es),
        append-nil (given es),
      )
      h

took_late :
    (es : List Event) (buf : List Bytes) (b : Bytes)
    → IsSplit buf es
    → IsSplit (buf ++ b ∷ []) (es ++ accepts b ∷ [])
took_late es buf b h = record {
  before = h.before;
  after = h.after ++ accepts b ∷ [];
  parts =
      ap (λ l. l ++ accepts b ∷ []) h.parts
      ∙ append_assoc h.before (ends ∷ h.after) (accepts b ∷ []);
  all_written = h.all_written;
  none_written = given-append h.after (accepts b ∷ []) ∙ ap (λ l. l ++ []) h.none_written;
  left = accepted-append h.after (accepts b ∷ []) ∙ ap (λ l. l ++ b ∷ []) h.left;
}

accept-Explains :
    (p : Phase) (es : List Event) (buf : List Bytes) (b : Bytes)
    → Explains p buf es
    → Explains p (buf ++ b ∷ []) (es ++ accepts b ∷ [])
accept-Explains running es buf b h = took es buf b h
accept-Explains draining es buf b h = took es buf b h
accept-Explains stopped es buf b h = took_late es buf b h

Step-Explains :
    {w v : Writer} {e : Event} (es : List Event)
    → Step w e v
    → Explains w.phase w.buf es
    → Explains v.phase v.buf (es ++ e ∷ [])
Step-Explains es (accept w b room) h = accept-Explains w.phase es w.buf b h
Step-Explains es (write b rest written) h = gave es b rest h
Step-Explains es (close buf written) h = shuts es buf h
Step-Explains es (drain b rest written) h = gave es b rest h
Step-Explains es (finish written) h = record {
  before = es;
  after = [];
  parts = refl;
  all_written = sym (h ∙ append-nil (given es));
  none_written = refl;
  left = refl;
}

-- A logger that has not stopped holds in its buffer just the lines that were accepted and are not
-- written yet. When it has stopped, each line that was accepted before the stop was written, in order,
-- and each line that was accepted after it is in the buffer for good: none of them is written.
pub Run-Explains : {w : Writer} {es : List Event} → Run new_writer es w → Explains w.phase w.buf es
unfolding new_writer
Run-Explains here = refl
Run-Explains (next {es} r s) = Step-Explains es s (Run-Explains r)
