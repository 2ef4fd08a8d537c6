-- ===== src/Persistence/Tests.antt =====
-- The theorems of the MySQL connection at a concrete driver, and concrete answers.
use mathlib.Core.Path.{subst}
use mathlib.Core.Option.{some-injective}
use optimusprime.Prelude.{ℕ, suc, ◌+◌, ◌≤◌, ◌≡◌, refl, arith, false, none, some, List, [], ◌∷◌}
use optimusprime.Prelude.Text.{codes}
use optimusprime.Prelude.Int.{pos}
use optimusprime.Prelude.Map.{lookup, string_eq}
use optimusprime.Prelude.Ids.{contains}
use optimusprime.Persistence.Mysql.{
  begun, db_error, tx_not_created, exec_done, Driver, MysqlConn, returned, Request, begins, commits,
  rolls_back, inserts, run, new_conn, begin_tx, commit, rollback,
}
use optimusprime.Persistence.Mysql.Trace.{open_after, IsFresh, IsLedger}
use optimusprime.Persistence.Mysql.Ledger.{run-IsLedger}
use optimusprime.Persistence.Mysql.Ended.{IsRefused, IsGone, IsBroken, tx_ends, failed_begin_breaks}
use optimusprime.Persistence.Mysql.Select.{
  Row, scanned, scan_failed, rows, select, AreRows, select_reads,
}
use optimusprime.Persistence.Mysql.Pool.{Pool}

-- A number above all of them.
above : List ℕ → ℕ
above [] = 0
above (h ∷ hs) = suc h + above hs

contains-above : (hs : List ℕ) (n : ℕ) → above hs ≤ n → contains n hs ≡ false
unfolding contains above
contains-above [] n le = refl
contains-above (h ∷ hs) n le = ground (arith, contains-above hs n)

-- Each Begin gives a new number, no Commit works, and every Rollback does.
abbrev driver : Driver
driver = record {
  exec = λ t on sql.
      exec_done (record { last_insert_id = (pos 7, none); rows_affected = (pos 1, none) });
  begin = λ t. some (above (open_after t));
  commit = λ t h. some (db_error (codes "deadlock"));
  rollback = λ t h. none;
}

driver-IsFresh : IsFresh driver
driver-IsFresh t h e =
    subst (λ n. contains n (open_after t) ≡ false) (some-injective (above (open_after t)) h e)
      (contains-above (open_after t) (above (open_after t)) (omega arith))

abbrev requests : List Request
requests =
    begins "a"
    ∷ begins "b"
    ∷ inserts "a" (codes "INSERT")
    ∷ commits "a"
    ∷ rolls_back "b"
    ∷ commits "b"
    ∷ []

new_conn-IsLedger : IsLedger new_conn
unfolding new_conn
new_conn-IsLedger = record { orderly = tt; same = refl; distinct = tt; keys = tt }

run-IsLedger_example : IsLedger (run driver requests new_conn)
run-IsLedger_example = run-IsLedger driver requests new_conn driver-IsFresh new_conn-IsLedger

abbrev conn : MysqlConn
conn = record { tx_map = ("a", some 0) ∷ ("b", some 1) ∷ []; trace = begun 1 ∷ begun 0 ∷ [] }

tx_ends_example :
    (IsRefused driver "b" ((commit driver "b" conn).1)
      × IsGone "b" conn ((commit driver "b" conn).1))
    × ((rollback driver "b" conn).0 ≡ returned tt none)
    × IsRefused driver "b" ((rollback driver "b" conn).1)
    × IsGone "b" conn ((rollback driver "b" conn).1)
unfolding lookup
tx_ends_example = tx_ends driver "b" 1 conn refl ((refl, tt), (tt, tt)) refl

abbrev failing : Driver
failing = record driver { begin = λ t. none }

failed_begin_breaks_example :
    ((begin_tx failing "c" conn).0 ≡ returned "c" (some tx_not_created))
    × IsBroken failing "c" ((begin_tx failing "c" conn).1)
    × IsRefused failing "c" ((commit failing "c" ((begin_tx failing "c" conn).1)).1)
unfolding lookup
failed_begin_breaks_example =
    failed_begin_breaks failing "c" conn refl ((refl, tt), (tt, tt)) refl refl

select_reads_example :
    (results : List Row) × (select (
        rows
          ("id" ∷ "name" ∷ [])
          (scanned (codes "1" ∷ codes "Ann" ∷ []) ∷ scan_failed (db_error []) ∷ [])
          none)
      ≡ (some results, some (db_error [])))
    × AreRows ("id" ∷ "name" ∷ []) ((codes "1" ∷ codes "Ann" ∷ []) ∷ []) results
select_reads_example =
    select_reads ("id" ∷ "name" ∷ [])
      (scanned (codes "1" ∷ codes "Ann" ∷ []) ∷ scan_failed (db_error []) ∷ []) none

abbrev empty_pool : Pool
empty_pool = record { conns = []; opened = 0 }
