-- ===== src/Task/Lookup/Found.antt =====
-- What the search for a task by its goroutine finds.
use optimusprime.Prelude.{
  ℕ, ◌≡◌, refl, ap, ◌∙◌, arith, ◌⊎◌, inl, inr, false, Bool-cases, ◌==◌, ==_iff, Option, none, some,
  [], ◌∷◌,
}
use optimusprime.Task.{Pool}
use optimusprime.Task.Lookup.{get_by_gid}

-- A task stands in a pool.
abbrev pub In : {T : Type 0} → T → Pool T → Type 0
In t [] = ⊥
In t ((_, u) ∷ m) = (t ≡ u) ⊎ In t m

-- What the search returns: a task of the pool with the id, or nothing, where no task has it.
abbrev pub Finds : {T : Type 0} → (T → ℕ) → ℕ → Pool T → Option T → Type 0
Finds gid g m none = (t : _) → In t m → (gid t == g) ≡ false
Finds gid g m (some t) = In t m × (gid t ≡ g)

skip_absent :
    {T : Type 0} (gid : T → ℕ) (g i : ℕ) (u : T) (m : Pool T)
    → (gid u == g) ≡ false
    → Finds gid g m none
    → (t : T) → In t ((i, u) ∷ m)
    → (gid t == g) ≡ false
skip_absent gid g i u m other h t (inl same) = ap (λ v. gid v == g) same ∙ other
skip_absent gid g i u m other h t (inr there) = h t there

skip :
    {T : Type 0} (gid : T → ℕ) (g i : ℕ) (u : T) (m : Pool T) (o : Option T)
    → (gid u == g) ≡ false
    → Finds gid g m o
    → Finds gid g ((i, u) ∷ m) o
skip gid g i u m none other h = skip_absent gid g i u m other h
skip gid g i u m (some t) other (there, same) = (inr there, same)

get_by_gid-Finds :
    {T : Type 0} (gid : T → ℕ) (g : ℕ) (m : Pool T) → Finds gid g m (get_by_gid gid g m)
unfolding get_by_gid
get_by_gid-Finds gid g [] = λ t h. elim h [ ]
get_by_gid-Finds gid g ((i, u) ∷ m) = elim (Bool-cases (gid u == g)) [
  | inl same ↦ rw same (inl refl, (==_iff (gid u) g).0 same)
  | inr other ↦ rw other (skip gid g i u m (get_by_gid gid g m) other (get_by_gid-Finds gid g m))
]

-- No two tasks of the pool have the id g.
abbrev pub IsUnique : {T : Type 0} → (T → ℕ) → ℕ → Pool T → Type 0
IsUnique gid g m = (t u : _) → In t m → In u m → gid t ≡ g → gid u ≡ g → t ≡ u

agree :
    {T : Type 0} (gid : T → ℕ) (g : ℕ) (m m' : Pool T) (o o' : Option T)
    → ((t : T) → In t m → In t m')
    → ((t : T) → In t m' → In t m)
    → IsUnique gid g m
    → Finds gid g m o
    → Finds gid g m' o'
    → o ≡ o'
agree gid g m m' none none to from one h h' = refl
agree gid g m m' none (some t) to from one h (there, same) =
    ground (arith, h t (from t there), ==_iff (gid t) g)
agree gid g m m' (some t) none to from one (there, same) h' =
    ground (arith, h' t (to t there), ==_iff (gid t) g)
agree gid g m m' (some t) (some u) to from one (here, same) (there, same') =
    ap some (one t u here (from u there) same same')

-- The search for a goroutine returns a task of the pool that this goroutine runs, and nothing only
-- where no task of the pool has it. The order in which Go goes through a pool does not matter: two lists
-- of the same tasks give the same result, if no two tasks have the goroutine that is looked for.
pub get_by_gid_any_order :
    {T : Type 0} (gid : T → ℕ) (g : ℕ) (m m' : Pool T)
    → ((t : T) → In t m → In t m')
    → ((t : T) → In t m' → In t m)
    → IsUnique gid g m
    → Finds gid g m (get_by_gid gid g m) × (get_by_gid gid g m ≡ get_by_gid gid g m')
get_by_gid_any_order gid g m m' to from one = (
  get_by_gid-Finds gid g m,
  agree gid g m m' (get_by_gid gid g m) (get_by_gid gid g m') to from one (get_by_gid-Finds gid g m)
      (get_by_gid-Finds gid g m'),
)
