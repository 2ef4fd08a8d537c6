-- ===== src/Common/Safe.antt =====
-- common/safe.go: the protection of a call against its panic, which is logged and forgotten.
use optimusprime.Prelude.{Bool, Option, none, some, List, ◌∷◌, ◌++◌, take}
use optimusprime.Prelude.Text.{Bytes, codes}

-- The flag of the package.
abbrev pub Protection : Type 0
Protection = Bool

unfoldable pub init_wrap_panic : Bool → Protection → Protection
init_wrap_panic flag p = flag

unfoldable pub check_wrap_panic : Protection → Bool
check_wrap_panic p = p

-- A call that ends, or panics with a value, at a stack; and the line that is logged for it.
pub data Ended : Type 0 where
  finishes : Ended
  panicked : Bytes → Bytes → Ended

-- The buffer of the stack has 8192 bytes.
unfoldable pub panic_line : Bytes → Bytes → Bytes
panic_line value stack = codes "[PANIC] " ++ (value ++ 10 ∷ take 8192 stack)

unfoldable pub recovered : Ended → Option Bytes
unfolding panic_line
recovered finishes = none
recovered (panicked value stack) = some (panic_line value stack)

-- The four forms differ in what they hand to the call.
unfoldable pub go_safe_tcp {ℓ κ} :
    {C : Type ℓ} {R : Type κ} → C → R → (C → R → Ended) → Option Bytes
unfolding recovered
go_safe_tcp ch req fn = recovered (fn ch req)

unfoldable pub go_safe_http {ℓ κ} :
    {W : Type ℓ} {R : Type κ} → W → R → (W → R → Ended) → Option Bytes
unfolding recovered
go_safe_http writer r fn = recovered (fn writer r)

unfoldable pub go_safe_timer : Ended → Option Bytes
unfolding recovered
go_safe_timer called = recovered called

unfoldable pub go_safe {ℓ} : {A : Type ℓ} → List A → (List A → Ended) → Option Bytes
unfolding recovered
go_safe args fn = recovered (fn args)
