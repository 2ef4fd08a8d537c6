-- ===== src/Log/Files/Places.antt =====
-- The files of a rotating logger (log/logrotate.go), each by itself, and lists of them.
use mathlib.Core.Path.{subst}
use mathlib.Core.Option.{some-injective}
use optimusprime.Prelude.{
  ℕ, zero, suc, ◌≤◌, ◌<◌, ◌≡◌, ◌≢◌, arith, Bool, true, false, not, ◌&&◌, ◌==◌, some, List, [], ◌∷◌,
  ◌++◌, length, get_elem?, set,
}
use optimusprime.Log.Writer.{Writer, new_writer, Event, Run, Phase, running, draining, stopped}
use optimusprime.Log.Files.{Files, Label}
use optimusprime.Log.Files.Labels.{events_of}

abbrev pub is_running : Phase → Bool
is_running running = true
is_running draining = false
is_running stopped = false

-- A writer that is reached from a new one by the events, and runs just if it is to.
pub record IsFile (es : List Event) (runs : Bool) (w : Writer) : Type 0 where
  pub run : Run new_writer es w
  pub alive : is_running w.phase ≡ runs

-- The file behind rl.Logger is the one that runs, until it is closed.
abbrev pub to_run : Files → ℕ → Bool
to_run s i = i == s.current && not s.rotating

pub record IsSound (ls : List Label) (s : Files) : Type 0 where
  pub last : suc s.current ≡ length s.writers
  pub file :
      (i : ℕ) (w : Writer) → get_elem? s.writers i ≡ some w → IsFile (events_of i ls) (to_run s i) w
  pub unborn : (i : ℕ) → length s.writers ≤ i → events_of i ls ≡ []

pub set_all :
    (P : ℕ → Writer → Type 0) (ws : List Writer) (i : ℕ) (v : Writer)
    → ((j : ℕ) (u : Writer) → j ≢ i → get_elem? ws j ≡ some u → P j u)
    → P i v
    → (j : ℕ) (u : Writer) → get_elem? (set ws i v) j ≡ some u
    → P j u
set_all P [] i v all p j u e = ground arith
set_all P (x ∷ ws) zero v all p zero u e = subst (P 0) (some-injective v u e) p
set_all P (x ∷ ws) zero v all p (suc j) u e = all (suc j) u (λ h. omega arith) e
set_all P (x ∷ ws) (suc i) v all p zero u e = all zero u (λ h. omega arith) e
set_all P (x ∷ ws) (suc i) v all p (suc j) u e =
    set_all (λ n. P (suc n)) ws i v (λ k w ne. all (suc k) w (λ h. ne (omega arith))) p j u e

pub snoc_all :
    (P : ℕ → Writer → Type 0) (ws : List Writer) (v : Writer)
    → ((j : ℕ) (u : Writer) → get_elem? ws j ≡ some u → j < length ws → P j u)
    → P (length ws) v
    → (j : ℕ) (u : Writer) → get_elem? (ws ++ v ∷ []) j ≡ some u
    → P j u
snoc_all P [] v all p zero u e = subst (P 0) (some-injective v u e) p
snoc_all P [] v all p (suc j) u e = ground arith
snoc_all P (x ∷ ws) v all p zero u e = all zero u e (omega arith)
snoc_all P (x ∷ ws) v all p (suc j) u e =
    snoc_all (λ n. P (suc n)) ws v (λ k w at below. all (suc k) w at (omega arith)) p j u e
