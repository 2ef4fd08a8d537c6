-- ===== src/Prelude/Map.antt =====
-- Go's maps as association lists, over keys that can be compared. A key stands in a map once.
use Prim.Native.String.{String}
use optimusprime.Prelude.{
  ℕ, suc, ◌+◌, ◌≤◌, ◌≡◌, refl, ◌↔◌, ◌⊎◌, inl, inr, Bool, true, false, Bool-cases, Option, none,
  some, List, [], ◌∷◌, arith, if◌then◌else◌, ==_iff, length,
}
use mathlib.Core.Path.{subst}
use optimusprime.Prelude
use optimusprime.Prelude.Text.{str_eq, str_eq_iff}

pub record Eq {ℓ} (A : Type ℓ) : Type ℓ where
  pub beq : A → A → Bool
  pub beq_iff : (a b : A) → (beq a b ≡ true) ↔ (a ≡ b)

abbrev nat_beq : ℕ → ℕ → Bool
nat_beq a b = Prelude.◌==◌ a b

instance abbrev pub nat_eq : Eq ℕ
nat_eq = record { beq = nat_beq; beq_iff = ==_iff }

instance abbrev pub string_eq : Eq String
string_eq = record { beq = str_eq; beq_iff = str_eq_iff }

module _ {ℓ κ} {K : Type ℓ} {V : Type κ} ⦃e : Eq K⦄ where
  unfoldable pub lookup : K → List (K × V) → Option V
  lookup k [] = none
  lookup k ((j, v) ∷ m) = if e.beq j k then some v else lookup k m

  unfoldable pub insert : K → V → List (K × V) → List (K × V)
  insert k v [] = (k, v) ∷ []
  insert k v ((j, w) ∷ m) = if e.beq j k then (k, v) ∷ m else (j, w) ∷ insert k v m

  unfoldable pub delete : K → List (K × V) → List (K × V)
  delete k [] = []
  delete k ((j, w) ∷ m) = if e.beq j k then m else (j, w) ∷ delete k m

  pub lookup-insert :
      (k j : K) (v : V) (m : List (K × V))
      → lookup j (insert k v m) ≡ (if e.beq k j then some v else lookup j m)
  unfolding lookup insert
  lookup-insert k j v [] = refl
  lookup-insert k j v ((i, w) ∷ m) =
      ground (arith, e.beq_iff k j, e.beq_iff i k, e.beq_iff i j, lookup-insert k j v m)

  -- No entry has the key.
  abbrev pub Lacks : K → List (K × V) → Type 0
  Lacks k [] = Unit
  Lacks k ((j, w) ∷ m) = (e.beq j k ≡ false) × Lacks k m

  -- No key stands in the map twice.
  abbrev pub IsMap : List (K × V) → Type 0
  IsMap [] = Unit
  IsMap ((j, w) ∷ m) = Lacks j m × IsMap m

  pub insert-Lacks :
      (i k : K) (v : V) (m : List (K × V)) → e.beq k i ≡ false → Lacks i m → Lacks i (insert k v m)
  unfolding insert
  insert-Lacks i k v [] h l = (h, tt)
  insert-Lacks i k v ((j, w) ∷ m) h (n, l) = ground (arith, insert-Lacks i k v m h l)

  pub delete-Lacks : (i k : K) (m : List (K × V)) → Lacks i m → Lacks i (delete k m)
  unfolding delete
  delete-Lacks i k [] l = tt
  delete-Lacks i k ((j, w) ∷ m) (n, l) = ground (arith, delete-Lacks i k m l)

  pub insert-IsMap : (k : K) (v : V) (m : List (K × V)) → IsMap m → IsMap (insert k v m)
  unfolding insert
  insert-IsMap k v [] h = (tt, tt)
  insert-IsMap k v ((j, w) ∷ m) (l, h) = elim (Bool-cases (e.beq j k)) [
    | inl same ↦ rw same (subst (λ i. Lacks i m) ((e.beq_iff j k).0 same) l, h)
    | inr other ↦
        let apart : e.beq k j ≡ false = ground (arith, e.beq_iff j k, e.beq_iff k j) in
        rw other (insert-Lacks j k v m apart l, insert-IsMap k v m h)
  ]

  pub lookup_of_Lacks : (k : K) (m : List (K × V)) → Lacks k m → lookup k m ≡ none
  unfolding lookup
  lookup_of_Lacks k [] l = refl
  lookup_of_Lacks k ((j, w) ∷ m) (n, l) = rw n (lookup_of_Lacks k m l)

  pub lookup-delete :
      (k j : K) (m : List (K × V))
      → IsMap m
      → lookup j (delete k m) ≡ (if e.beq k j then none else lookup j m)
  unfolding lookup delete
  lookup-delete k j [] h = ground arith
  lookup-delete k j ((i, w) ∷ m) (l, h) = ground (
    arith,
    e.beq_iff k j,
    e.beq_iff i k,
    e.beq_iff i j,
    lookup_of_Lacks i m l,
    lookup-delete k j m h,
  )

  pub delete-IsMap : (k : K) (m : List (K × V)) → IsMap m → IsMap (delete k m)
  unfolding delete
  delete-IsMap k [] h = tt
  delete-IsMap k ((j, w) ∷ m) (l, h) = ground (arith, delete-Lacks j k m l, delete-IsMap k m h)
