-- ===== src/Prelude/Split.antt =====
-- The parts of a text between dots, and the equality of texts.
use optimusprime.Prelude.{
  ℕ, ◌≡◌, ◌≢◌, refl, ap, ◌∙◌, Bool, true, false, Bool-cases, inl, inr, ◌==◌, ◌&&◌, if◌then◌else◌,
  List, [], ◌∷◌, ◌++◌,
}
use optimusprime.Prelude.Text.{Bytes}

unfoldable pub bytes_eq : Bytes → Bytes → Bool
bytes_eq [] [] = true
bytes_eq [] (b ∷ bs) = false
bytes_eq (a ∷ xs) [] = false
bytes_eq (a ∷ xs) (b ∷ bs) = (a == b) && bytes_eq xs bs

abbrev pub dot : ℕ
dot = 46

unfoldable pub put_byte : ℕ → List Bytes → List Bytes
put_byte b [] = (b ∷ []) ∷ []
put_byte b (w ∷ ws) = (b ∷ w) ∷ ws

-- `strings.Split(s, ".")`.
unfoldable pub split : Bytes → List Bytes
unfolding put_byte
split [] = [] ∷ []
split (b ∷ bs) = let ws = split bs in if b == dot then [] ∷ ws else put_byte b ws

abbrev pub NoDot : Bytes → Type 0
NoDot [] = Unit
NoDot (b ∷ bs) = ((b == dot) ≡ false) × NoDot bs

pub split-NoDot : (a : Bytes) → NoDot a → split a ≡ a ∷ []
unfolding split put_byte
split-NoDot [] h = refl
split-NoDot (b ∷ a) (other, h) = rw other (ap (put_byte b) (split-NoDot a h))

pub split-dot : (a r : Bytes) → NoDot a → split (a ++ dot ∷ r) ≡ a ∷ split r
unfolding split put_byte
split-dot [] r h = refl
split-dot (b ∷ a) r (other, h) = rw other (ap (put_byte b) (split-dot a r h))

put_byte-append :
    (b : ℕ) (ws vs : List Bytes) → ws ≢ [] → put_byte b (ws ++ vs) ≡ put_byte b ws ++ vs
unfolding put_byte
put_byte-append b [] vs some_part = elim (some_part refl) [ ]
put_byte-append b (w ∷ ws) vs some_part = refl

put_byte_nonempty : (b : ℕ) (ws : List Bytes) → put_byte b ws ≢ []
unfolding put_byte
put_byte_nonempty b [] e = cc
put_byte_nonempty b (w ∷ ws) e = cc

if_nonempty : (c : Bool) (ws vs : List Bytes) → ws ≢ [] → vs ≢ [] → (if c then ws else vs) ≢ []
if_nonempty true ws vs w v = w
if_nonempty false ws vs w v = v

split_nonempty : (a : Bytes) → split a ≢ []
unfolding split put_byte
split_nonempty [] e = cc
split_nonempty (b ∷ bs) e =
    if_nonempty (b == dot) ([] ∷ split bs) (put_byte b (split bs)) (λ h. cc)
      (put_byte_nonempty b (split bs)) e

-- The parts of two texts with a dot between them are those of the one and then those of the other.
pub split-append : (a r : Bytes) → split (a ++ dot ∷ r) ≡ split a ++ split r
unfolding split
split-append [] r = refl
split-append (b ∷ a) r = elim (Bool-cases (b == dot)) [
  | inl ends ↦ rw ends (ap (λ ws. [] ∷ ws) (split-append a r))
  | inr goes_on ↦ rw goes_on (
      ap (put_byte b) (split-append a r) ∙ put_byte-append b (split a) (split r) (split_nonempty a))
]
