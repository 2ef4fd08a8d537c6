-- ===== src/Persistence/Mysql/Ended.antt =====
-- The ids of transactions: those that are ended, and those whose Begin failed.
use Prim.Native.String.{String}
use optimusprime.Prelude.{
  ℕ, ◌≡◌, refl, ap, ◌∙◌, true, false, if◌then◌else◌, Option, none, some, ◌∷◌,
}
use optimusprime.Prelude.Text.{Bytes, str_eq, str_eq_iff}
use optimusprime.Prelude.Int.{pos}
use optimusprime.Prelude.Map.{
  lookup, insert, delete, string_eq, IsMap, lookup-delete, lookup-insert, insert-IsMap,
}
use optimusprime.Persistence.Mysql.{
  rolled_back, begin_failed, SqlError, tx_missing, tx_not_created, Driver, MysqlConn, returned,
  panicked, tx_insert, tx_update, tx_delete, in_tx, begin_tx, begin_new, store_tx, commit,
  commit_on, end_commit, rollback, rollback_on,
}

-- Every call for the id is refused with an error and reaches neither the database nor the map.
pub record IsRefused (d : Driver) (id : String) (c : MysqlConn) : Type 0 where
  pub on_commit : commit d id c ≡ (returned tt (some tx_missing), c)
  pub on_rollback : rollback d id c ≡ (returned tt (some tx_missing), c)
  pub on_insert : (sql : Bytes) → tx_insert d id sql c ≡ (returned (pos 0) (some tx_missing), c)
  pub on_update : (sql : Bytes) → tx_update d id sql c ≡ (returned (pos 0) (some tx_missing), c)
  pub on_delete : (sql : Bytes) → tx_delete d id sql c ≡ (returned (pos 0) (some tx_missing), c)

-- The id is not in the map any more, and the others are as they were.
abbrev pub IsGone : String → MysqlConn → MysqlConn → Type 0
IsGone id c c' =
    (j : String) → lookup j c'.tx_map ≡ (if str_eq id j then none else lookup j c.tx_map)

refused :
    (d : Driver) (id : String) (c : MysqlConn)
    → str_eq id "" ≡ false
    → lookup id c.tx_map ≡ none
    → IsRefused d id c
unfolding commit commit_on rollback rollback_on tx_insert tx_update tx_delete in_tx
refused d id c named free = record {
  on_commit = rw free refl;
  on_rollback = rw free refl;
  on_insert = λ sql. rw (named, free) refl;
  on_update = λ sql. rw (named, free) refl;
  on_delete = λ sql. rw (named, free) refl;
}

str_eq_refl : (s : String) → str_eq s s ≡ true
str_eq_refl s = (str_eq_iff s s).1 refl

IsGone-IsRefused :
    (d : Driver) (id : String) (c c' : MysqlConn)
    → str_eq id "" ≡ false
    → IsGone id c c'
    → IsRefused d id c' × IsGone id c c'
IsGone-IsRefused d id c c' named gone = (
  refused d id c' named
      (gone id ∙ ap (λ b. if b then none else lookup id c.tx_map) (str_eq_refl id)),
  gone,
)

end_commit-IsGone :
    (id : String) (h : ℕ) (err : Option SqlError) (c : MysqlConn)
    → IsMap c.tx_map
    → IsGone id c ((end_commit id h err c).1)
unfolding end_commit
end_commit-IsGone id h none c m j = lookup-delete id j c.tx_map m
end_commit-IsGone id h (some err) c m j = lookup-delete id j c.tx_map m

-- Commit and Rollback of an open transaction end it, whatever the database answers, and Rollback
-- returns that answer: the id is unknown from then on, so every later call for it is refused without a
-- call of the database, and the other transactions stay. The id is not the empty one, and the keys of
-- the map are distinct.
pub tx_ends :
    (d : Driver) (id : String) (h : ℕ) (c : MysqlConn)
    → str_eq id "" ≡ false
    → IsMap c.tx_map
    → lookup id c.tx_map ≡ some (some h)
    → (IsRefused d id ((commit d id c).1) × IsGone id c ((commit d id c).1))
      × ((rollback d id c).0 ≡ returned tt (d.rollback c.trace h))
      × IsRefused d id ((rollback d id c).1)
      × IsGone id c ((rollback d id c).1)
unfolding commit commit_on rollback rollback_on
tx_ends d id h c named m held =
    let c' : MysqlConn = record { tx_map = delete id c.tx_map; trace = rolled_back h ∷ c.trace } in
    let (refuses, others) = IsGone-IsRefused d id c c' named (λ j. lookup-delete id j c.tx_map m) in
    rw held (
      IsGone-IsRefused d id c ((end_commit id h (d.commit c.trace h) c).1) named
          (end_commit-IsGone id h (d.commit c.trace h) c m),
      refl,
      refuses,
      others,
    )

-- All calls for the id panic.
pub record IsBroken (d : Driver) (id : String) (c : MysqlConn) : Type 0 where
  pub on_commit : (commit d id c).0 ≡ panicked
  pub on_rollback : (rollback d id c).0 ≡ panicked
  pub on_insert : (sql : Bytes) → (tx_insert d id sql c).0 ≡ panicked
  pub on_update : (sql : Bytes) → (tx_update d id sql c).0 ≡ panicked
  pub on_delete : (sql : Bytes) → (tx_delete d id sql c).0 ≡ panicked

broken :
    (d : Driver) (id : String) (c : MysqlConn)
    → str_eq id "" ≡ false
    → lookup id c.tx_map ≡ some none
    → IsBroken d id c
unfolding commit commit_on rollback rollback_on tx_insert tx_update tx_delete in_tx
broken d id c named nil = record {
  on_commit = rw nil refl;
  on_rollback = rw nil refl;
  on_insert = λ sql. rw (named, nil) refl;
  on_update = λ sql. rw (named, nil) refl;
  on_delete = λ sql. rw (named, nil) refl;
}

begins_nil :
    (d : Driver) (id : String) (c : MysqlConn)
    → lookup id c.tx_map ≡ none
    → d.begin c.trace ≡ none
    → begin_tx d id c ≡ (
      returned id (some tx_not_created),
      record { tx_map = insert id none c.tx_map; trace = begin_failed ∷ c.trace },
    )
unfolding begin_tx begin_new store_tx
begins_nil d id c free fails = rw (free, fails) refl

-- The Commit that panics deletes the nil.
commits_nil :
    (d : Driver) (id : String) (c : MysqlConn)
    → str_eq id "" ≡ false
    → IsMap c.tx_map
    → lookup id c.tx_map ≡ some none
    → IsRefused d id ((commit d id c).1)
unfolding commit commit_on
commits_nil d id c named m nil = rw nil (
    (IsGone-IsRefused d id c (record c { tx_map = delete id c.tx_map }) named
      (λ j. lookup-delete id j c.tx_map m)).0)

-- A BeginTx whose Begin fails returns the new id with an error, and leaves the id in the map with a
-- nil: the next call for this id panics, whichever of the five it is. Where it is a Commit, the id is
-- gone after the panic, and every call for it is refused, until it is begun again. The id is not the
-- empty one, it is new, and the keys of the map are distinct.
pub failed_begin_breaks :
    (d : Driver) (id : String) (c : MysqlConn)
    → str_eq id "" ≡ false
    → IsMap c.tx_map
    → lookup id c.tx_map ≡ none
    → d.begin c.trace ≡ none
    → ((begin_tx d id c).0 ≡ returned id (some tx_not_created))
      × IsBroken d id ((begin_tx d id c).1)
      × IsRefused d id ((commit d id ((begin_tx d id c).1)).1)
failed_begin_breaks d id c named m free fails =
    let c' : MysqlConn = record {
      tx_map = insert id none c.tx_map;
      trace = begin_failed ∷ c.trace;
    } in
    let begun : begin_tx d id c ≡ (returned id (some tx_not_created), c') =
      begins_nil d id c free fails in
    let nil : lookup id c'.tx_map ≡ some none =
      lookup-insert id id none c.tx_map
      ∙ ap (λ b. if b then some none else lookup id c.tx_map) (str_eq_refl id) in
    rw begun (
      refl,
      broken d id c' named nil,
      commits_nil d id c' named (insert-IsMap id none c.tx_map m) nil,
    )
