-- ===== src/RateLimiter/Search.antt =====
-- The loop that NewBucketWithRate and NewLeakyBucketWithRate share: one increment after the other is
-- tried until one fits, a nil bucket is used, or the increments leave their range.
use optimusprime.Prelude.{
  ℕ, zero, suc, ◌+◌, ◌^◌, ◌≤◌, ◌<◌, ◌≡◌, Bool, true, arith, Option, none, some, if◌then◌else◌,
  Bool-cases, Option-cases, inl, inr,
}
use mathlib.Core.Path.{subst}
use optimusprime.Prelude.Int.{ℤ, pos}
use optimusprime.RateLimiter.Float.{next_increment, next_increment_grows}

pub data Search {ℓ} (A : Type ℓ) : Type ℓ where
  found : A → Search A
  exhausted : Search A
  nil_pointer : Search A

-- `go_on` is the loop's test; `try` answers `none` where the loop goes on. The result is `none` if
-- the fuel runs out.
unfoldable pub search {ℓ} :
    {A : Type ℓ} → ℕ → (ℤ → Bool) → (ℤ → Option (Search A)) → ℤ → Option (Search A)
search zero go_on try i = none
search {A} (suc fuel) go_on try i =
    let rest = search fuel go_on try (next_increment i) in
    let tried : Option (Search A) = elim (try i) [ none ↦ rest | some r ↦ some r ] in
    if go_on i then tried else some exhausted

-- The range of both loops.
abbrev pub max_increment : ℕ
max_increment = 2 ^ 50

abbrev pub search_fuel : ℕ
search_fuel = 2 ^ 50 + 1

module _ {ℓ} {A : Type ℓ} (go_on : ℤ → Bool) (try : ℤ → Option (Search A)) where
  pub search_total :
      (fuel m : ℕ)
      → ((i : ℕ) → go_on (pos i) ≡ true → i ≤ max_increment)
      → 0 < fuel
      → max_increment + 1 < m + fuel
      → (r : Search A) × (search fuel go_on try (pos m) ≡ some r)
  unfolding search
  search_total zero m range some_fuel enough = elim some_fuel [ ]
  search_total (suc fuel) m range _ enough = elim (Bool-cases (go_on (pos m))) [
    | inr ends ↦ (exhausted, rw ends)
    | inl goes ↦
        let small = range m goes in
        let (m', next, grows, _) = next_increment_grows m (omega arith) in
        elim (Option-cases (try (pos m))) [
          | inr (r, answer) ↦ (r, rw (goes, answer))
          | inl again ↦
              let (r, ih) = search_total fuel m' range (omega arith) (omega arith) in
              (r, rw (goes, again, next) ih)
        ]
  ]

  pub search_sound {κ} :
      (P : Search A → Type κ)
      → ((i : ℤ) (r : Search A) → try i ≡ some r → P r)
      → P exhausted
      → (fuel : ℕ) (i : ℤ) (r : Search A) → search fuel go_on try i ≡ some r
      → P r
  unfolding search
  search_sound P each last zero i r h = cc
  search_sound P each last (suc fuel) i r h = elim (Bool-cases (go_on i)) [
    | inr ends ↦ (let e : exhausted ≡ r = ground arith in subst P e last)
    | inl goes ↦ elim (Option-cases (try i)) [
      | inr (r', answer) ↦ (let e : r' ≡ r = ground arith in subst P e (each i r' answer))
      | inl again ↦ search_sound P each last fuel (next_increment i) r (rw (goes, again) at h)
    ]
  ]
