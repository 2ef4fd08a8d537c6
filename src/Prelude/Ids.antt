-- ===== src/Prelude/Ids.antt =====
-- Lists of ids: tests and removal.
use optimusprime.Prelude.{
  ℕ, suc, ◌≤◌, ◌<◌, ◌≡◌, refl, arith, Bool, true, false, ◌==◌, ◌||◌, if◌then◌else◌, List, [], ◌∷◌,
  length,
}

unfoldable pub contains : ℕ → List ℕ → Bool
contains i [] = false
contains i (j ∷ js) = j == i || contains i js

-- The list without the first of the ids that is i.
unfoldable pub remove : ℕ → List ℕ → List ℕ
remove i [] = []
remove i (j ∷ js) = if j == i then js else j ∷ remove i js

pub length-remove :
    (i : ℕ) (js : List ℕ) → contains i js ≡ true → suc (length (remove i js)) ≡ length js
unfolding contains remove
length-remove i [] h = ground arith
length-remove i (j ∷ js) h = ground (arith, length-remove i js)

abbrev pub AllBelow : ℕ → List ℕ → Type 0
AllBelow n [] = Unit
AllBelow n (j ∷ js) = (j ≤ n) × AllBelow n js

pub AllBelow-suc : (n : ℕ) (js : List ℕ) → AllBelow n js → AllBelow (suc n) js
AllBelow-suc n [] h = tt
AllBelow-suc n (j ∷ js) (le, h) = (omega arith, AllBelow-suc n js h)

pub remove-AllBelow : (n i : ℕ) (js : List ℕ) → AllBelow n js → AllBelow n (remove i js)
unfolding remove
remove-AllBelow n i [] h = tt
remove-AllBelow n i (j ∷ js) (le, h) = ground (arith, remove-AllBelow n i js h)

-- An id above those of the list is not in it.
pub contains_above : (n i : ℕ) (js : List ℕ) → AllBelow n js → n < i → contains i js ≡ false
unfolding contains
contains_above n i [] h lt = refl
contains_above n i (j ∷ js) (le, h) lt = ground (arith, contains_above n i js h lt)
