-- ===== src/Persistence/Mysql/Ledger.antt =====
-- The transactions of a connection against the calls of database/sql that it made.
use Prim.Native.String.{String}
use mathlib.Core.Path.{subst}
use optimusprime.Prelude.{
  ℕ, ◌≡◌, refl, ap, sym, ◌∙◌, true, false, Bool-cases, Option-cases, inl, inr, ==_iff,
  if◌then◌else◌, Option, none, some, List, [], ◌∷◌, ◌++◌,
}
use optimusprime.Prelude.Text.{Bytes, str_eq}
use optimusprime.Prelude.Int.{ℤ}
use optimusprime.Prelude.Map.{lookup, delete, string_eq, insert-IsMap, delete-IsMap}
use optimusprime.Prelude.Ids.{contains, remove}
use optimusprime.Persistence.Mysql.{
  committed, commit_failed, rolled_back, Trace, SqlError, Driver, MysqlConn, Outcome, Executed,
  Request, begins, commits, rolls_back, inserts, updates, deletes, after_request, run, in_tx,
  do_exec, on_db, tx_insert, tx_update, tx_delete, insert_row, update_rows, delete_rows,
  last_insert_id_of, rows_affected_of, begin_tx, begin_new, store_tx, commit, commit_on, end_commit,
  rollback, rollback_on,
}
use optimusprime.Persistence.Mysql.Trace.{
  handles, open_after, IsOrderly, AreDistinct, IsFresh, IsLedger, contains-handles, delete-handles,
  delete_nil-handles, insert-handles, insert_nil-handles, remove-again, remove-AreDistinct,
  snoc-AreDistinct,
}

store_tx-IsLedger :
    (id : String) (c : MysqlConn)
    → IsLedger c
    → lookup id c.tx_map ≡ none
    → (tx : Option ℕ) → ((h : ℕ) → tx ≡ some h → contains h (open_after c.trace) ≡ false)
    → IsLedger ((store_tx id tx c).1)
unfolding store_tx
store_tx-IsLedger id c l free none fresh = record {
  orderly = l.orderly;
  same = insert_nil-handles id c.tx_map free ∙ l.same;
  distinct = subst AreDistinct (sym (insert_nil-handles id c.tx_map free)) l.distinct;
  keys = insert-IsMap id none c.tx_map l.keys;
}
store_tx-IsLedger id c l free (some h) fresh = record {
  orderly = l.orderly;
  same = insert-handles id h c.tx_map free ∙ ap (λ hs. hs ++ h ∷ []) l.same;
  distinct = subst AreDistinct (sym (insert-handles id h c.tx_map free)) (
      snoc-AreDistinct h (handles c.tx_map)
        (subst (λ hs. contains h hs ≡ false) (sym l.same) (fresh h refl)) l.distinct);
  keys = insert-IsMap id (some h) c.tx_map l.keys;
}

-- What each operation asks of the driver's answer.
begin_tx-IsLedger :
    (d : Driver) (id : String) (c : MysqlConn)
    → IsFresh d
    → IsLedger c
    → IsLedger ((begin_tx d id c).1)
unfolding begin_tx begin_new
begin_tx-IsLedger d id c fresh l = elim (Option-cases (lookup id c.tx_map)) [
  | inl free ↦ rw free (store_tx-IsLedger id c l free (d.begin c.trace) (fresh c.trace))
  | inr (tx, held) ↦ rw held l
]

-- The handle of an id is open.
held-open :
    (id : String) (h : ℕ) (c : MysqlConn)
    → IsLedger c
    → lookup id c.tx_map ≡ some (some h)
    → contains h (open_after c.trace) ≡ true
held-open id h c l e = subst (λ hs. contains h hs ≡ true) l.same (contains-handles id h c.tx_map e)

-- The end of an open transaction, whatever calls it took.
delete-IsLedger :
    (id : String) (h : ℕ) (c : MysqlConn) (t : Trace)
    → IsLedger c
    → lookup id c.tx_map ≡ some (some h)
    → IsOrderly t
    → open_after t ≡ remove h (open_after c.trace)
    → IsLedger (record { tx_map = delete id c.tx_map; trace = t })
delete-IsLedger id h c t l e orderly after =
    let gone = delete-handles id h c.tx_map e l.distinct in
    record {
      orderly = orderly;
      same = gone ∙ ap (remove h) l.same ∙ sym after;
      distinct = subst AreDistinct (sym gone) (remove-AreDistinct h (handles c.tx_map) l.distinct);
      keys = delete-IsMap id c.tx_map l.keys;
    }

end_commit-IsLedger :
    (id : String) (h : ℕ) (c : MysqlConn) (err : Option SqlError)
    → IsLedger c
    → lookup id c.tx_map ≡ some (some h)
    → IsLedger ((end_commit id h err c).1)
unfolding end_commit
end_commit-IsLedger id h c none l e =
    delete-IsLedger id h c (committed h ∷ c.trace) l e (held-open id h c l e, l.orderly) refl
end_commit-IsLedger id h c (some err) l e =
    delete-IsLedger id h c (rolled_back h ∷ commit_failed h ∷ c.trace) l e
      (inr ((==_iff h h).1 refl), (held-open id h c l e, l.orderly))
      (remove-again h (open_after c.trace) (subst AreDistinct l.same l.distinct))

delete_nil-IsLedger :
    (id : String) (c : MysqlConn)
    → IsLedger c
    → lookup id c.tx_map ≡ some none
    → IsLedger (record c { tx_map = delete id c.tx_map })
delete_nil-IsLedger id c l e =
    let kept = delete_nil-handles id c.tx_map e in
    record {
      orderly = l.orderly;
      same = kept ∙ l.same;
      distinct = subst AreDistinct (sym kept) l.distinct;
      keys = delete-IsMap id c.tx_map l.keys;
    }

commit_on-IsLedger :
    (d : Driver) (id : String) (c : MysqlConn) (tx : Option (Option ℕ))
    → IsLedger c
    → lookup id c.tx_map ≡ tx
    → IsLedger ((commit_on d id tx c).1)
unfolding commit_on
commit_on-IsLedger d id c none l e = l
commit_on-IsLedger d id c (some none) l e = delete_nil-IsLedger id c l e
commit_on-IsLedger d id c (some (some h)) l e = end_commit-IsLedger id h c (d.commit c.trace h) l e

rollback_on-IsLedger :
    (d : Driver) (id : String) (c : MysqlConn) (tx : Option (Option ℕ))
    → IsLedger c
    → lookup id c.tx_map ≡ tx
    → IsLedger ((rollback_on d id tx c).1)
unfolding rollback_on
rollback_on-IsLedger d id c none l e = l
rollback_on-IsLedger d id c (some none) l e = l
rollback_on-IsLedger d id c (some (some h)) l e =
    delete-IsLedger id h c (rolled_back h ∷ c.trace) l e (inl (held-open id h c l e), l.orderly)
      refl

in_tx-IsLedger :
    (d : Driver) (read : Executed → Outcome ℤ) (id : String) (sql : Bytes) (c : MysqlConn)
    (tx : Option (Option ℕ))
    → IsLedger c
    → lookup id c.tx_map ≡ tx
    → IsLedger ((in_tx d read sql tx c).1)
unfolding in_tx do_exec
in_tx-IsLedger d read id sql c none l e = l
in_tx-IsLedger d read id sql c (some none) l e = l
in_tx-IsLedger d read id sql c (some (some h)) l e = record {
  orderly = (held-open id h c l e, l.orderly);
  same = l.same;
  distinct = l.distinct;
  keys = l.keys;
}

on_db-IsLedger :
    (d : Driver) (read : Executed → Outcome ℤ) (sql : Bytes) (c : MysqlConn)
    → IsLedger c
    → IsLedger ((on_db d read sql c).1)
unfolding on_db do_exec
on_db-IsLedger d read sql c l = record {
  orderly = l.orderly;
  same = l.same;
  distinct = l.distinct;
  keys = l.keys;
}

exec-IsLedger :
    (d : Driver) (read : Executed → Outcome ℤ) (id : String) (sql : Bytes) (c : MysqlConn)
    → IsLedger c
    → IsLedger
        ((if str_eq id "" then on_db d read sql c else in_tx d read sql (lookup id c.tx_map) c).1)
exec-IsLedger d read id sql c l = elim (Bool-cases (str_eq id "")) [
  | inl direct ↦ rw direct (on_db-IsLedger d read sql c l)
  | inr tx ↦ rw tx (in_tx-IsLedger d read id sql c (lookup id c.tx_map) l refl)
]

after_request-IsLedger :
    (d : Driver) (r : Request) (c : MysqlConn)
    → IsFresh d
    → IsLedger c
    → IsLedger (after_request d r c)
unfolding after_request commit rollback tx_insert tx_update tx_delete insert_row update_rows
    delete_rows
after_request-IsLedger d (begins id) c fresh l = begin_tx-IsLedger d id c fresh l
after_request-IsLedger d (commits id) c fresh l =
    commit_on-IsLedger d id c (lookup id c.tx_map) l refl
after_request-IsLedger d (rolls_back id) c fresh l =
    rollback_on-IsLedger d id c (lookup id c.tx_map) l refl
after_request-IsLedger d (inserts id sql) c fresh l = exec-IsLedger d last_insert_id_of id sql c l
after_request-IsLedger d (updates id sql) c fresh l = exec-IsLedger d rows_affected_of id sql c l
after_request-IsLedger d (deletes id sql) c fresh l = exec-IsLedger d rows_affected_of id sql c l

-- Whatever the callers of a connection ask and the database answers, the transactions of the
-- connection that are not nil are just those that it began and that no Commit, failed or not, and no
-- Rollback has ended, in the order of their beginning, and no two are the same. No call went to a
-- transaction that was not open, but for the Rollback of Commit right behind the Commit that failed.
-- Begin returns transactions that are not open.
pub run-IsLedger :
    (d : Driver) (rs : List Request) (c : MysqlConn)
    → IsFresh d
    → IsLedger c
    → IsLedger (run d rs c)
unfolding run
run-IsLedger d [] c fresh l = l
run-IsLedger d (r ∷ rs) c fresh l =
    run-IsLedger d rs (after_request d r c) fresh (after_request-IsLedger d r c fresh l)
