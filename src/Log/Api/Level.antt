-- ===== src/Log/Api/Level.antt =====
-- Which calls give a line: the level that was set last, and where a rotation sets it too late.
use Prim.Native.String.{String}
use optimusprime.Prelude.{ℕ, ◌<◌, ◌≡◌, Option, none, some, List, [], ◌∷◌, length}
use optimusprime.Log.Api.{Logged, Global, Call}
use optimusprime.Log.Api.Filter.{IsFiltered}

-- The logger of the package, if there is one, has its six counters on the open file.
abbrev pub HasCounters : Global → Type 0
HasCounters none = Unit
HasCounters (some f) = length f.rotation.inner.level_stats ≡ 6

-- Every call has a result, which is filtered at k.
abbrev pub AreFiltered : ℕ → List Call → List Logged → Type 0
AreFiltered k [] rs = rs ≡ []
AreFiltered k (c ∷ cs) [] = ⊥
AreFiltered k (c ∷ cs) (r ∷ rs) = IsFiltered k c.level c.message c.disk.seen r × AreFiltered k cs rs

abbrev pub AreBelow : ℕ → List Call → Type 0
AreBelow n [] = Unit
AreBelow n (c ∷ cs) = (c.level < n) × AreBelow n cs
