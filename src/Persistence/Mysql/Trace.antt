-- ===== src/Persistence/Mysql/Trace.antt =====
-- The transactions that are open after the calls of database/sql (persistence/mysql/mysql.go).
use Prim.Native.String.{String}
use optimusprime.Prelude.{
  ℕ, ◌≡◌, refl, arith, true, false, ◌⊎◌, Bool, ◌==◌, ==_iff, Option, none, some, List, [], ◌∷◌,
  ◌++◌,
}
use optimusprime.Prelude.Map.{lookup, insert, delete, string_eq, IsMap}
use optimusprime.Prelude.Ids.{contains, remove}
use optimusprime.Persistence.Mysql.{
  executed, begun, begin_failed, committed, commit_failed, rolled_back, Trace, Driver, MysqlConn,
}

-- The handles of the map, in its order.
abbrev pub handles : List (String × Option ℕ) → List ℕ
handles [] = []
handles ((id, none) ∷ m) = handles m
handles ((id, some h) ∷ m) = h ∷ handles m

-- The transactions that are open after the calls, in the order in which they were begun. A Commit ends
-- its transaction also where it fails.
abbrev pub open_after : Trace → List ℕ
open_after [] = []
open_after (executed on sql ∷ t) = open_after t
open_after (begun h ∷ t) = open_after t ++ h ∷ []
open_after (begin_failed ∷ t) = open_after t
open_after (committed h ∷ t) = remove h (open_after t)
open_after (commit_failed h ∷ t) = remove h (open_after t)
open_after (rolled_back h ∷ t) = remove h (open_after t)

-- The last call was the Commit of h, which failed.
abbrev pub has_failed : ℕ → Trace → Bool
has_failed h [] = false
has_failed h (executed on sql ∷ t) = false
has_failed h (begun g ∷ t) = false
has_failed h (begin_failed ∷ t) = false
has_failed h (committed g ∷ t) = false
has_failed h (commit_failed g ∷ t) = g == h
has_failed h (rolled_back g ∷ t) = false

-- Every call on a transaction came while it was open, but for a Rollback right behind the Commit that
-- failed and so ended it.
abbrev pub IsOrderly : Trace → Type 0
IsOrderly [] = Unit
IsOrderly (executed none sql ∷ t) = IsOrderly t
IsOrderly (executed (some h) sql ∷ t) = (contains h (open_after t) ≡ true) × IsOrderly t
IsOrderly (begun h ∷ t) = IsOrderly t
IsOrderly (begin_failed ∷ t) = IsOrderly t
IsOrderly (committed h ∷ t) = (contains h (open_after t) ≡ true) × IsOrderly t
IsOrderly (commit_failed h ∷ t) = (contains h (open_after t) ≡ true) × IsOrderly t
IsOrderly (rolled_back h ∷ t) =
    ((contains h (open_after t) ≡ true) ⊎ (has_failed h t ≡ true)) × IsOrderly t

abbrev pub AreDistinct : List ℕ → Type 0
AreDistinct [] = Unit
AreDistinct (h ∷ hs) = (contains h hs ≡ false) × AreDistinct hs

-- Begin returns a transaction that is not open already.
abbrev pub IsFresh : Driver → Type 0
IsFresh d = (t : Trace) (h : ℕ) → d.begin t ≡ some h → contains h (open_after t) ≡ false

pub record IsLedger (c : MysqlConn) : Type 0 where
  pub orderly : IsOrderly c.trace
  pub same : handles c.tx_map ≡ open_after c.trace
  pub distinct : AreDistinct (handles c.tx_map)
  pub keys : IsMap c.tx_map

pub contains-handles :
    (id : String) (h : ℕ) (m : List (String × Option ℕ))
    → lookup id m ≡ some (some h)
    → contains h (handles m) ≡ true
unfolding lookup contains
contains-handles id h [] e = ground arith
contains-handles id h ((j, none) ∷ m) e = ground (arith, contains-handles id h m)
contains-handles id h ((j, some g) ∷ m) e = ground (arith, contains-handles id h m)

pub delete-handles :
    (id : String) (h : ℕ) (m : List (String × Option ℕ))
    → lookup id m ≡ some (some h)
    → AreDistinct (handles m)
    → handles (delete id m) ≡ remove h (handles m)
unfolding lookup delete remove
delete-handles id h [] e dist = ground arith
delete-handles id h ((j, none) ∷ m) e dist = ground (arith, delete-handles id h m)
delete-handles id h ((j, some g) ∷ m) e (apart, dist) =
    ground (arith, contains-handles id h m, delete-handles id h m)

pub delete_nil-handles :
    (id : String) (m : List (String × Option ℕ))
    → lookup id m ≡ some none
    → handles (delete id m) ≡ handles m
unfolding lookup delete
delete_nil-handles id [] e = ground arith
delete_nil-handles id ((j, none) ∷ m) e = ground (arith, delete_nil-handles id m)
delete_nil-handles id ((j, some g) ∷ m) e = ground (arith, delete_nil-handles id m)

pub insert-handles :
    (id : String) (h : ℕ) (m : List (String × Option ℕ))
    → lookup id m ≡ none
    → handles (insert id (some h) m) ≡ handles m ++ h ∷ []
unfolding lookup insert
insert-handles id h [] e = refl
insert-handles id h ((j, none) ∷ m) e = ground (arith, insert-handles id h m)
insert-handles id h ((j, some g) ∷ m) e = ground (arith, insert-handles id h m)

pub insert_nil-handles :
    (id : String) (m : List (String × Option ℕ))
    → lookup id m ≡ none
    → handles (insert id none m) ≡ handles m
unfolding lookup insert
insert_nil-handles id [] e = refl
insert_nil-handles id ((j, none) ∷ m) e = ground (arith, insert_nil-handles id m)
insert_nil-handles id ((j, some g) ∷ m) e = ground (arith, insert_nil-handles id m)

contains-remove : (g h : ℕ) (hs : List ℕ) → contains g hs ≡ false → contains g (remove h hs) ≡ false
unfolding contains remove
contains-remove g h [] n = refl
contains-remove g h (j ∷ hs) n = ground (arith, contains-remove g h hs)

remove_absent : (h : ℕ) (hs : List ℕ) → contains h hs ≡ false → remove h hs ≡ hs
unfolding contains remove
remove_absent h [] n = refl
remove_absent h (j ∷ hs) n = ground (arith, remove_absent h hs)

removed : (h : ℕ) (hs : List ℕ) → AreDistinct hs → contains h (remove h hs) ≡ false
unfolding contains remove
removed h [] d = refl
removed h (j ∷ hs) (n, d) = ground (arith, removed h hs, ==_iff h j, ==_iff j h)

pub remove-again : (h : ℕ) (hs : List ℕ) → AreDistinct hs → remove h (remove h hs) ≡ remove h hs
remove-again h hs d = remove_absent h (remove h hs) (removed h hs d)

pub remove-AreDistinct : (h : ℕ) (hs : List ℕ) → AreDistinct hs → AreDistinct (remove h hs)
unfolding remove
remove-AreDistinct h [] d = tt
remove-AreDistinct h (j ∷ hs) (n, d) =
    ground (arith, contains-remove j h hs, remove-AreDistinct h hs)

contains-snoc :
    (g h : ℕ) (hs : List ℕ)
    → contains g hs ≡ false
    → (h == g) ≡ false
    → contains g (hs ++ h ∷ []) ≡ false
unfolding contains
contains-snoc g h [] n ne = ground arith
contains-snoc g h (j ∷ hs) n ne = ground (arith, contains-snoc g h hs)

pub snoc-AreDistinct :
    (h : ℕ) (hs : List ℕ) → contains h hs ≡ false → AreDistinct hs → AreDistinct (hs ++ h ∷ [])
unfolding contains
snoc-AreDistinct h [] n d = (refl, tt)
snoc-AreDistinct h (j ∷ hs) n (m, d) = ground (arith, contains-snoc j h hs, snoc-AreDistinct h hs)
