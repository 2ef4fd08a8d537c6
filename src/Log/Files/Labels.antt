-- ===== src/Log/Files/Labels.antt =====
-- What happened to one file of a rotating logger in a run.
use optimusprime.Prelude.{
  ℕ, ◌≡◌, ◌≢◌, refl, ap, sym, ◌∙◌, ◌==◌, ==_iff, Bool-cases, inl, inr, if◌then◌else◌, List, [], ◌∷◌,
  ◌++◌, append_assoc, append-nil,
}
use optimusprime.Log.Writer.{Event}
use optimusprime.Log.Files.{Label, picked, does, switched}

-- The events of the writer of file i.
abbrev pub event_of : ℕ → Label → List Event
event_of i (picked j b) = []
event_of i (does j e) = if j == i then e ∷ [] else []
event_of i switched = []

abbrev pub events_of : ℕ → List Label → List Event
events_of i [] = []
events_of i (l ∷ ls) = event_of i l ++ events_of i ls

pub events_of-snoc :
    (i : ℕ) (ls : List Label) (l : Label)
    → events_of i (ls ++ l ∷ []) ≡ events_of i ls ++ event_of i l
events_of-snoc i [] l = append-nil (event_of i l)
events_of-snoc i (x ∷ ls) l =
    ap (λ es. event_of i x ++ es) (events_of-snoc i ls l)
    ∙ sym (append_assoc (event_of i x) (events_of i ls) (event_of i l))

pub event_of_own : (i : ℕ) (e : Event) → event_of i (does i e) ≡ e ∷ []
event_of_own i e = rw ((==_iff i i).1 refl) refl

pub event_of_other : (i j : ℕ) (e : Event) → j ≢ i → event_of j (does i e) ≡ []
event_of_other i j e ne = elim (Bool-cases (i == j)) [
  | inl same ↦ absurd (ne (sym ((==_iff i j).0 same)))
  | inr apart ↦ rw apart refl
]

-- A step that is not of file i leaves its events alone.
pub events_of_rest :
    (i : ℕ) (ls : List Label) (l : Label)
    → event_of i l ≡ []
    → events_of i (ls ++ l ∷ []) ≡ events_of i ls
events_of_rest i ls l e =
    events_of-snoc i ls l ∙ ap (λ es. events_of i ls ++ es) e ∙ append-nil (events_of i ls)

pub events_of_step :
    (i : ℕ) (ls : List Label) (e : Event)
    → events_of i (ls ++ does i e ∷ []) ≡ events_of i ls ++ e ∷ []
events_of_step i ls e =
    events_of-snoc i ls (does i e) ∙ ap (λ es. events_of i ls ++ es) (event_of_own i e)
