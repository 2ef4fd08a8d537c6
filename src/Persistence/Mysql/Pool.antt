-- ===== src/Persistence/Mysql/Pool.antt =====
-- persistence/mysql/mysql.go: the connections by their strings. What sql.Open and Ping return is given.
use Prim.Native.String.{String}
use optimusprime.Prelude.{
  ℕ, ◌+◌, ◌≡◌, refl, ap, ◌∙◌, arith, Option-cases, inl, inr, if◌then◌else◌, Option, none, some,
  List, [], ◌∷◌,
}
use optimusprime.Prelude.Text.{str_eq_iff}
use optimusprime.Prelude.Map.{lookup, insert, string_eq, lookup-insert}
use optimusprime.Persistence.Mysql.{SqlError}

pub data Opening : Type 0 where
  open_failed : SqlError → Opening
  ping_failed : SqlError → Opening
  connected : Opening

-- The pool, with a number for each MysqlConn, and the number of *sql.DB that were opened; a MysqlConn
-- has the number of its own. None is ever closed.
pub record Pool : Type 0 where
  pub conns : List (String × ℕ)
  pub opened : ℕ

unfoldable pub init_mysql_conn : Opening → String → Pool → (Option ℕ × Option SqlError) × Pool
init_mysql_conn (open_failed err) conn_str p = ((none, some err), p)
init_mysql_conn (ping_failed err) conn_str p =
    ((none, some err), record p { opened = p.opened + 1 })
init_mysql_conn connected conn_str p = (
  (some p.opened, none),
  record { conns = insert conn_str p.opened p.conns; opened = p.opened + 1 },
)

unfoldable pub or_init : Opening → String → Option ℕ → Pool → (Option ℕ × Option SqlError) × Pool
unfolding init_mysql_conn
or_init o conn_str (some conn) p = ((some conn, none), p)
or_init o conn_str none p = init_mysql_conn o conn_str p

-- With no other caller between the test of the pool and the opening.
unfoldable pub get_mysql_instance : Opening → String → Pool → (Option ℕ × Option SqlError) × Pool
unfolding or_init
get_mysql_instance o conn_str p = or_init o conn_str (lookup conn_str p.conns) p

-- Calls of GetMysqlInstance, one after the other.
unfoldable pub get_all : List (Opening × String) → Pool → Pool
unfolding get_mysql_instance
get_all [] p = p
get_all ((o, s) ∷ gets) p = get_all gets (get_mysql_instance o s p).1

init_keeps :
    (o : Opening) (s t : String) (conn : ℕ) (p : Pool)
    → lookup t p.conns ≡ none
    → lookup s p.conns ≡ some conn
    → lookup s ((init_mysql_conn o t p).1).conns ≡ some conn
unfolding init_mysql_conn
init_keeps (open_failed err) s t conn p free held = held
init_keeps (ping_failed err) s t conn p free held = held
init_keeps connected s t conn p free held =
    ground (arith, str_eq_iff t s, lookup-insert t s p.opened p.conns)

get_keeps :
    (o : Opening) (s t : String) (conn : ℕ) (p : Pool)
    → lookup s p.conns ≡ some conn
    → lookup s ((get_mysql_instance o t p).1).conns ≡ some conn
unfolding get_mysql_instance or_init
get_keeps o s t conn p held = elim (Option-cases (lookup t p.conns)) [
  | inl free ↦ rw free (init_keeps o s t conn p free held)
  | inr (other, found) ↦ rw found held
]

get_all_keep :
    (gets : List (Opening × String)) (s : String) (conn : ℕ) (p : Pool)
    → lookup s p.conns ≡ some conn
    → lookup s (get_all gets p).conns ≡ some conn
unfolding get_all
get_all_keep [] s conn p held = held
get_all_keep ((o, t) ∷ gets) s conn p held =
    get_all_keep gets s conn (get_mysql_instance o t p).1 (get_keeps o s t conn p held)

stored :
    (o : Opening) (s : String) (conn : ℕ) (tx : Option ℕ) (p : Pool)
    → lookup s p.conns ≡ tx
    → ((or_init o s tx p).0).0 ≡ some conn
    → lookup s ((or_init o s tx p).1).conns ≡ some conn
unfolding or_init init_mysql_conn
stored o s conn (some c) p e got = e ∙ got
stored (open_failed err) s conn none p e got = ground arith
stored (ping_failed err) s conn none p e got = ground arith
stored connected s conn none p e got =
    lookup-insert s s p.opened p.conns
    ∙ ap (λ b. if b then some p.opened else lookup s p.conns) ((str_eq_iff s s).1 refl)
    ∙ got

-- A string that has got a connection gets the same one again, after any other calls for any strings,
-- and nothing is opened for it, when the calls come one after the other.
pub get_again :
    (o o' : Opening) (s : String) (gets : List (Opening × String)) (conn : ℕ) (p : Pool)
    → ((get_mysql_instance o s p).0).0 ≡ some conn
    → get_mysql_instance o' s (get_all gets ((get_mysql_instance o s p).1))
      ≡ ((some conn, none), get_all gets ((get_mysql_instance o s p).1))
unfolding get_mysql_instance or_init
get_again o o' s gets conn p got =
    let p' = (get_mysql_instance o s p).1 in
    ap (λ tx. or_init o' s tx (get_all gets p'))
      (get_all_keep gets s conn p' (stored o s conn (lookup s p.conns) p refl got))
