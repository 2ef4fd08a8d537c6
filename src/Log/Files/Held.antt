-- ===== src/Log/Files/Held.antt =====
-- The lines that callers made for a file: they still hold them, or the file has accepted them.
use mathlib.Core.Path.{subst}
use mathlib.Core.List.{Perm, perm_append_comm}
use mathlib.Core.List.Perm
use optimusprime.Prelude.{
  ℕ, ◌≡◌, refl, ap, sym, ◌∙◌, ◌==◌, Bool-cases, inl, inr, if◌then◌else◌, List, [], ◌∷◌, ◌++◌,
  append_assoc, append-nil,
}
use optimusprime.Prelude.Text.{Bytes}
use optimusprime.Log.Writer.{Event, accepts, writes, closes, ends, accepted}
use optimusprime.Log.Writer.Stop.{accepted-append}
use optimusprime.Log.Files.{
  Files, first_file, Label, picked, does, switched, IsOwn, FilesStep, picks, puts, works, shuts,
  switches, FilesRun,
}
use optimusprime.Log.Files
use optimusprime.Log.Files.Labels.{event_of, events_of, events_of-snoc}

-- A line, where it is for file i.
abbrev pub line_for : ℕ → ℕ → Bytes → List Bytes
line_for i j b = if j == i then b ∷ [] else []

-- The lines for which callers took the logger of file i.
abbrev pub picked_for : ℕ → List Label → List Bytes
picked_for i [] = []
picked_for i (picked j b ∷ ls) = line_for i j b ++ picked_for i ls
picked_for i (does j e ∷ ls) = picked_for i ls
picked_for i (switched ∷ ls) = picked_for i ls

-- The lines that callers hold for file i.
abbrev pub held_for : ℕ → List (ℕ × Bytes) → List Bytes
held_for i [] = []
held_for i ((j, b) ∷ ps) = line_for i j b ++ held_for i ps

picked_for-append :
    (i : ℕ) (xs ys : List Label) → picked_for i (xs ++ ys) ≡ picked_for i xs ++ picked_for i ys
picked_for-append i [] ys = refl
picked_for-append i (picked j b ∷ xs) ys =
    ap (λ bs. line_for i j b ++ bs) (picked_for-append i xs ys)
    ∙ sym (append_assoc (line_for i j b) (picked_for i xs) (picked_for i ys))
picked_for-append i (does j e ∷ xs) ys = picked_for-append i xs ys
picked_for-append i (switched ∷ xs) ys = picked_for-append i xs ys

held_for-append :
    (i : ℕ) (xs ys : List (ℕ × Bytes)) → held_for i (xs ++ ys) ≡ held_for i xs ++ held_for i ys
held_for-append i [] ys = refl
held_for-append i ((j, b) ∷ xs) ys =
    ap (λ bs. line_for i j b ++ bs) (held_for-append i xs ys)
    ∙ sym (append_assoc (line_for i j b) (held_for i xs) (held_for i ys))

accepted_line : (i j : ℕ) (b : Bytes) → accepted (event_of i (does j (accepts b))) ≡ line_for i j b
accepted_line i j b = elim (Bool-cases (j == i)) [
  | inl same ↦ rw same refl
  | inr apart ↦ rw apart refl
]

accepted_none :
    (i j : ℕ) (e : Event) → accepted (e ∷ []) ≡ [] → accepted (event_of i (does j e)) ≡ []
accepted_none i j e h = elim (Bool-cases (j == i)) [
  | inl same ↦ rw same h
  | inr apart ↦ rw apart refl
]

own_accepts_none : (e : Event) → IsOwn e → accepted (e ∷ []) ≡ []
own_accepts_none (accepts b) own = absurd own
own_accepts_none (writes b) own = refl
own_accepts_none closes own = absurd own
own_accepts_none ends own = refl

takes : (p h a f : List Bytes) → Perm p (h ++ a) → Perm (p ++ f) ((h ++ f) ++ a)
takes p h a f e = Perm.trans (Perm.append_right f e) (
    subst (λ l. Perm ((h ++ a) ++ f) l) (sym (append_assoc h f a))
      (subst (λ l. Perm l (h ++ (f ++ a))) (sym (append_assoc h a f))
        (Perm.append_left h (perm_append_comm a f))))

gives : (p x y a f : List Bytes) → Perm p ((x ++ (f ++ y)) ++ a) → Perm p ((x ++ y) ++ (a ++ f))
gives p x y a f e = Perm.trans e (
    subst (λ l. Perm ((x ++ (f ++ y)) ++ a) l) (sym (append_assoc x y (a ++ f)))
      (subst (λ l. Perm l (x ++ (y ++ (a ++ f)))) (sym (append_assoc x (f ++ y) a))
        (Perm.append_left x (
          subst (λ l. Perm ((f ++ y) ++ a) l) (append_assoc y a f)
            (subst (λ l. Perm l ((y ++ a) ++ f)) (sym (append_assoc f y a))
              (perm_append_comm f (y ++ a)))))))

-- The lines made for file i are those that callers hold and those that it accepted.
abbrev pub IsHeld : ℕ → List Label → Files → Type 0
IsHeld i ls s = Perm (picked_for i ls) (held_for i s.pending ++ accepted (events_of i ls))

accepted_snoc :
    (i : ℕ) (ls : List Label) (l : Label)
    → accepted (events_of i (ls ++ l ∷ [])) ≡ accepted (events_of i ls) ++ accepted (event_of i l)
accepted_snoc i ls l =
    ap accepted (events_of-snoc i ls l) ∙ accepted-append (events_of i ls) (event_of i l)

-- A step that neither makes a line nor accepts one.
quiet-IsHeld :
    (i : ℕ) (ls : List Label) (l : Label) (s : Files)
    → picked_for i (l ∷ []) ≡ []
    → accepted (event_of i l) ≡ []
    → IsHeld i ls s
    → Perm
        (picked_for i (ls ++ l ∷ []))
        (held_for i s.pending ++ accepted (events_of i (ls ++ l ∷ [])))
quiet-IsHeld i ls l s none_made none_taken h =
    rw
      (
        picked_for-append i ls (l ∷ []),
        none_made,
        append-nil (picked_for i ls),
        accepted_snoc i ls l,
        none_taken,
        append-nil (accepted (events_of i ls)),
      )
      h

picks-IsHeld :
    (i j : ℕ) (ls : List Label) (b : Bytes) (s : Files)
    → IsHeld i ls s
    → Perm
        (picked_for i (ls ++ picked j b ∷ []))
        (held_for i (s.pending ++ (j, b) ∷ []) ++ accepted (events_of i (ls ++ picked j b ∷ [])))
picks-IsHeld i j ls b s h =
    rw
      (
        picked_for-append i ls (picked j b ∷ []),
        held_for-append i s.pending ((j, b) ∷ []),
        append-nil (line_for i j b),
        accepted_snoc i ls (picked j b),
        append-nil (accepted (events_of i ls)),
      )
      (takes (picked_for i ls) (held_for i s.pending) (accepted (events_of i ls)) (line_for i j b)
        h)

puts-IsHeld :
    (i j : ℕ) (ls : List Label) (b : Bytes) (before after : List (ℕ × Bytes)) (s : Files)
    → s.pending ≡ before ++ (j, b) ∷ after
    → IsHeld i ls s
    → Perm
        (picked_for i (ls ++ does j (accepts b) ∷ []))
        (held_for i (before ++ after) ++ accepted (events_of i (ls ++ does j (accepts b) ∷ [])))
puts-IsHeld i j ls b before after s held h =
    rw
      (
        picked_for-append i ls (does j (accepts b) ∷ []),
        append-nil (picked_for i ls),
        held_for-append i before after,
        accepted_snoc i ls (does j (accepts b)),
        accepted_line i j b,
      )
      (gives (picked_for i ls) (held_for i before) (held_for i after) (accepted (events_of i ls))
        (line_for i j b)
        (subst (λ l. Perm (picked_for i ls) (l ++ accepted (events_of i ls)))
          (ap (held_for i) held ∙ held_for-append i before ((j, b) ∷ after)) h))

FilesStep-IsHeld :
    (i : ℕ) (ls : List Label) {s t : Files} {l : Label}
    → FilesStep s l t
    → IsHeld i ls s
    → IsHeld i (ls ++ l ∷ []) t
FilesStep-IsHeld i ls {s} (picks b) h = picks-IsHeld i s.current ls b s h
FilesStep-IsHeld i ls {s} (puts before after j b w v held at st) h =
    puts-IsHeld i j ls b before after s held h
FilesStep-IsHeld i ls {s} (works j e w v at own st) h =
    quiet-IsHeld i ls (does j e) s refl (accepted_none i j e (own_accepts_none e own)) h
FilesStep-IsHeld i ls {s} (shuts w v open_ at st) h =
    quiet-IsHeld i ls (does s.current closes) s refl (accepted_none i s.current closes refl) h
FilesStep-IsHeld i ls {s} (switches rot) h = quiet-IsHeld i ls switched s refl refl h

pub FilesRun-IsHeld :
    (i : ℕ) {ls : List Label} {s : Files} → FilesRun first_file ls s → IsHeld i ls s
unfolding first_file
FilesRun-IsHeld i Files.here = Perm.refl []
FilesRun-IsHeld i (Files.next {ls} r st) = FilesStep-IsHeld i ls st (FilesRun-IsHeld i r)
