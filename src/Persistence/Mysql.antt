-- ===== src/Persistence/Mysql.antt =====
-- persistence/mysql/mysql.go: a connection with its transactions by id. What package database/sql
-- answers is given, at each call, for all the calls before it; the calls are kept in a trace. A method
-- of a nil *sql.Tx panics. The id that BeginTx draws is an argument.
pub mod Trace
pub mod Ledger
pub mod Ended
pub mod Select
pub mod Pool
use Prim.Native.String.{String}
use optimusprime.Prelude.{
  ℕ, zero, suc, Bool, true, false, if◌then◌else◌, Option, none, some, List, [], ◌∷◌,
}
use optimusprime.Prelude.Text.{Bytes, str_eq}
use optimusprime.Prelude.Int.{ℤ, pos}
use optimusprime.Prelude.Map.{lookup, insert, delete, string_eq}

-- A handle is a *sql.Tx that is not nil.
pub data DbCall : Type 0 where
  executed : Option ℕ → Bytes → DbCall
  begun : ℕ → DbCall
  begin_failed : DbCall
  committed : ℕ → DbCall
  commit_failed : ℕ → DbCall
  rolled_back : ℕ → DbCall

-- The calls, the last one first.
abbrev pub Trace : Type 0
Trace = List DbCall

-- The errors of database/sql, and those of this code.
pub data SqlError : Type 0 where
  db_error : Bytes → SqlError
  tx_missing : SqlError
  tx_exists : SqlError
  tx_not_created : SqlError

-- sql.Result: what its two methods return.
pub record SqlResult : Type 0 where
  pub last_insert_id : ℤ × Option SqlError
  pub rows_affected : ℤ × Option SqlError

pub data Executed : Type 0 where
  exec_failed : SqlError → Executed
  exec_done : SqlResult → Executed

pub record Driver : Type 0 where
  -- Exec on the database, or in a transaction.
  pub exec : Trace → Option ℕ → Bytes → Executed
  pub begin : Trace → Option ℕ
  -- The error, if there is one.
  pub commit : Trace → ℕ → Option SqlError
  pub rollback : Trace → ℕ → Option SqlError

-- MysqlConn: the transactions, of which one can be nil, and the calls of its db.
pub record MysqlConn : Type 0 where
  pub tx_map : List (String × Option ℕ)
  pub trace : Trace

pub data Outcome {ℓ} (A : Type ℓ) : Type ℓ where
  returned : A → Option SqlError → Outcome A
  panicked : Outcome A

unfoldable pub do_exec : Driver → Option ℕ → Bytes → MysqlConn → Executed × MysqlConn
do_exec d on sql c = (d.exec c.trace on sql, record c { trace = executed on sql ∷ c.trace })

-- `return res.LastInsertId()` and `return res.RowsAffected()`, behind the test of the error.
unfoldable pub last_insert_id_of : Executed → Outcome ℤ
last_insert_id_of (exec_failed err) = returned (pos 0) (some err)
last_insert_id_of (exec_done res) = returned res.last_insert_id.0 res.last_insert_id.1

unfoldable pub rows_affected_of : Executed → Outcome ℤ
rows_affected_of (exec_failed err) = returned (pos 0) (some err)
rows_affected_of (exec_done res) = returned res.rows_affected.0 res.rows_affected.1

unfoldable pub on_db : Driver → (Executed → Outcome ℤ) → Bytes → MysqlConn → Outcome ℤ × MysqlConn
unfolding do_exec
on_db d read sql c = let (r, c') = do_exec d none sql c in (read r, c')

unfoldable pub insert_row : Driver → Bytes → MysqlConn → Outcome ℤ × MysqlConn
unfolding on_db last_insert_id_of
insert_row d sql c = on_db d last_insert_id_of sql c

unfoldable pub update_rows : Driver → Bytes → MysqlConn → Outcome ℤ × MysqlConn
unfolding on_db rows_affected_of
update_rows d sql c = on_db d rows_affected_of sql c

unfoldable pub delete_rows : Driver → Bytes → MysqlConn → Outcome ℤ × MysqlConn
unfolding on_db rows_affected_of
delete_rows d sql c = on_db d rows_affected_of sql c

-- The transaction of an id that was looked up: none, a nil, or a handle.
unfoldable pub in_tx :
    Driver → (Executed → Outcome ℤ) → Bytes → Option (Option ℕ) → MysqlConn → Outcome ℤ × MysqlConn
unfolding do_exec
in_tx d read sql none c = (returned (pos 0) (some tx_missing), c)
in_tx d read sql (some none) c = (panicked, c)
in_tx d read sql (some (some h)) c = let (r, c') = do_exec d (some h) sql c in (read r, c')

-- The empty id is NON_TRANSACTION.
unfoldable pub tx_insert : Driver → String → Bytes → MysqlConn → Outcome ℤ × MysqlConn
unfolding insert_row in_tx last_insert_id_of
tx_insert d id sql c =
    if str_eq id ""
    then insert_row d sql c
    else in_tx d last_insert_id_of sql (lookup id c.tx_map) c

unfoldable pub tx_update : Driver → String → Bytes → MysqlConn → Outcome ℤ × MysqlConn
unfolding update_rows in_tx rows_affected_of
tx_update d id sql c =
    if str_eq id ""
    then update_rows d sql c
    else in_tx d rows_affected_of sql (lookup id c.tx_map) c

unfoldable pub tx_delete : Driver → String → Bytes → MysqlConn → Outcome ℤ × MysqlConn
unfolding delete_rows in_tx rows_affected_of
tx_delete d id sql c =
    if str_eq id ""
    then delete_rows d sql c
    else in_tx d rows_affected_of sql (lookup id c.tx_map) c

-- What Begin returns is stored before its error is looked at; with an error it is nil.
unfoldable pub store_tx : String → Option ℕ → MysqlConn → Outcome String × MysqlConn
store_tx id (some h) c =
    (returned id none, record { tx_map = insert id (some h) c.tx_map; trace = begun h ∷ c.trace })
store_tx id none c = (
  returned id (some tx_not_created),
  record { tx_map = insert id none c.tx_map; trace = begin_failed ∷ c.trace },
)

unfoldable pub begin_new :
    Driver → String → Option (Option ℕ) → MysqlConn → Outcome String × MysqlConn
unfolding store_tx
begin_new d id none c = store_tx id (d.begin c.trace) c
begin_new d id (some tx) c = (returned id (some tx_exists), c)

unfoldable pub begin_tx : Driver → String → MysqlConn → Outcome String × MysqlConn
unfolding begin_new
begin_tx d id c = begin_new d id (lookup id c.tx_map) c

-- Both delete the id from the map. Commit does it also when it panics, by its `defer`.
unfoldable pub end_commit : String → ℕ → Option SqlError → MysqlConn → Outcome {0} Unit × MysqlConn
end_commit id h none c =
    (returned tt none, record { tx_map = delete id c.tx_map; trace = committed h ∷ c.trace })
end_commit id h (some err) c = (
  returned tt (some err),
  record { tx_map = delete id c.tx_map; trace = rolled_back h ∷ commit_failed h ∷ c.trace },
)

unfoldable pub commit_on :
    Driver → String → Option (Option ℕ) → MysqlConn → Outcome {0} Unit × MysqlConn
unfolding end_commit
commit_on d id none c = (returned tt (some tx_missing), c)
commit_on d id (some none) c = (panicked, record c { tx_map = delete id c.tx_map })
commit_on d id (some (some h)) c = end_commit id h (d.commit c.trace h) c

unfoldable pub commit : Driver → String → MysqlConn → Outcome {0} Unit × MysqlConn
unfolding commit_on
commit d id c = commit_on d id (lookup id c.tx_map) c

unfoldable pub rollback_on :
    Driver → String → Option (Option ℕ) → MysqlConn → Outcome {0} Unit × MysqlConn
rollback_on d id none c = (returned tt (some tx_missing), c)
rollback_on d id (some none) c = (panicked, c)
rollback_on d id (some (some h)) c = (
  returned tt (d.rollback c.trace h),
  record { tx_map = delete id c.tx_map; trace = rolled_back h ∷ c.trace },
)

unfoldable pub rollback : Driver → String → MysqlConn → Outcome {0} Unit × MysqlConn
unfolding rollback_on
rollback d id c = rollback_on d id (lookup id c.tx_map) c

-- What the callers of a connection ask, one after the other; a panic ends a call, not the connection.
pub data Request : Type 0 where
  begins : String → Request
  commits : String → Request
  rolls_back : String → Request
  inserts : String → Bytes → Request
  updates : String → Bytes → Request
  deletes : String → Bytes → Request

unfoldable pub after_request : Driver → Request → MysqlConn → MysqlConn
unfolding begin_tx commit rollback tx_insert tx_update tx_delete
after_request d (begins id) c = (begin_tx d id c).1
after_request d (commits id) c = (commit d id c).1
after_request d (rolls_back id) c = (rollback d id c).1
after_request d (inserts id sql) c = (tx_insert d id sql c).1
after_request d (updates id sql) c = (tx_update d id sql c).1
after_request d (deletes id sql) c = (tx_delete d id sql c).1

unfoldable pub run : Driver → List Request → MysqlConn → MysqlConn
unfolding after_request
run d [] c = c
run d (r ∷ rs) c = run d rs (after_request d r c)

unfoldable pub new_conn : MysqlConn
new_conn = record { tx_map = []; trace = [] }
