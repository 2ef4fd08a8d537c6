-- ===== src/Net/Api.antt =====
-- net/api.go: the servers that the package starts and the limits of its readers, and net/http_server.go.
-- Whether a listener can be made, and what ends a server, is given.
pub mod Twice
mod Tests
use Prim.Native.String.{String}
use optimusprime.Prelude.{
  ℕ, Bool, true, false, ◌||◌, ◌==◌, if◌then◌else◌, Option, none, some, List, [], ◌∷◌, ◌++◌,
}
use optimusprime.Prelude.Text.{Bytes, codes}
use optimusprime.Prelude.Split.{bytes_eq}
use optimusprime.Prelude.Int.{ℤ, pos, leb_ℤ}
use optimusprime.RateLimiter.Float.{Float32}
use optimusprime.RateLimiter.Front.{Built, new_rate_limit}
use optimusprime.Net.Address.{Host, AddressError, Found, address, fails, parse_listen_addr}

-- `net.JoinHostPort`, of an address and the text of a port: brackets stand round an address with a
-- colon or a percent sign.
unfoldable pub has_colon : Bytes → Bool
has_colon [] = false
has_colon (b ∷ bs) = (b == 58 || b == 37) || has_colon bs

unfoldable pub join_host_port : Bytes → Bytes → Bytes
unfolding has_colon
join_host_port ip port = if has_colon ip then 91 ∷ (ip ++ 93 ∷ 58 ∷ port) else ip ++ 58 ∷ port

-- What a server comes to: the address is refused, or it was served until an error, if there is one.
pub data Served : Type 0 where
  refused : AddressError → Served
  not_listening : Bytes → Served
  served : Bytes → Option Bytes → Served
  panics : Served

-- The error of serve is dropped.
unfoldable pub serve_tcp : Bool → Bytes → Served
serve_tcp listens at = if listens then served at none else not_listening at

unfoldable pub on_tcp : (Bytes → Bool) → Bytes → Found → Served
unfolding serve_tcp join_host_port
on_tcp listens port (fails e) = refused e
on_tcp listens port (address ip) =
    serve_tcp (listens (join_host_port ip port)) (join_host_port ip port)

unfoldable pub listen_and_serve_tcp : Host → (Bytes → Bool) → Bytes → Bytes → Served
unfolding on_tcp
listen_and_serve_tcp host listens listen_addr port =
    on_tcp listens port (parse_listen_addr host listen_addr)

-- A handler by the path that it is for.
pub data Serves : Type 0 where
  route_http : Serves
  route_ws : Serves

abbrev pub Mux : Type 0
Mux = List (Bytes × Serves)

unfoldable pub has_path : Bytes → Mux → Bool
has_path path [] = false
has_path path ((p, h) ∷ mux) = bytes_eq p path || has_path path mux

-- The registrations so far: all of them done, or a panic, which keeps those before it.
pub data Registered : Type 0 where
  all_done : Mux → Registered
  path_taken : Mux → Registered

-- http.HandleFunc and http.Handle, on the multiplexer of the process: a path that has a handler panics.
unfoldable pub handle : Bytes → Serves → Registered → Registered
unfolding has_path
handle path h (path_taken mux) = path_taken mux
handle path h (all_done mux) =
    if has_path path mux then path_taken mux else all_done ((path, h) ∷ mux)

-- http.ListenAndServe and its like, which return an error at the end, behind the registration.
unfoldable pub serve_registered : (Mux → Bytes → Option Bytes) → Bytes → Registered → Served × Mux
serve_registered serves at (path_taken mux) = (panics, mux)
serve_registered serves at (all_done mux) = (served at (serves mux at), mux)

unfoldable pub serve_http : (Mux → Bytes → Option Bytes) → Bytes → Mux → Served × Mux
unfolding serve_registered handle
serve_http serves at mux =
    serve_registered serves at
      (handle (codes "/ws") route_ws (handle (codes "/") route_http (all_done mux)))

-- There are no websockets over HTTPS.
unfoldable pub serve_https : (Mux → Bytes → Option Bytes) → Bytes → Mux → Served × Mux
unfolding serve_registered handle
serve_https serves at mux =
    serve_registered serves at (handle (codes "/") route_http (all_done mux))

unfoldable pub on_http : (Bytes → Mux → Served × Mux) → Bytes → Found → Mux → Served × Mux
unfolding join_host_port
on_http serve port (fails e) mux = (refused e, mux)
on_http serve port (address ip) mux = serve (join_host_port ip port) mux

unfoldable pub listen_and_serve_http :
    Host → (Mux → Bytes → Option Bytes) → Bytes → Bytes → Mux → Served × Mux
unfolding on_http serve_http
listen_and_serve_http host serves listen_addr port mux =
    on_http (serve_http serves) port (parse_listen_addr host listen_addr) mux

unfoldable pub listen_and_serve_https :
    Host → (Mux → Bytes → Option Bytes) → Bytes → Bytes → Mux → Served × Mux
unfolding on_http serve_https
listen_and_serve_https host serves listen_addr port mux =
    on_http (serve_https serves) port (parse_listen_addr host listen_addr) mux

-- A multiplexer of the caller leaves that of the process alone.
unfoldable pub listen_and_serve_http_mux :
    Host → (Mux → Bytes → Option Bytes) → Bytes → Bytes → Mux → Mux → Served × Mux
unfolding on_http
listen_and_serve_http_mux host serves listen_addr port own mux =
    on_http (λ at m. (served at (serves own at), m)) port (parse_listen_addr host listen_addr) mux

module _ (F : Float32) where
  open F use {Float}

  -- The defaults of the package.
  pub record Defaults : Type 0 where
    pub strategy : String
    pub rate : Float
    pub capacity : ℤ

  unfoldable pub initial : Defaults
  initial = record { strategy = "token"; rate = F.zero_float; capacity = pos 0 }

  -- Whether the values are taken; with an error they are not.
  unfoldable pub init_rate_limit : String → Float → ℤ → Defaults → Bool × Defaults
  init_rate_limit strategy rate capacity d =
      if F.le rate F.zero_float || leb_ℤ capacity (pos 0)
      then (false, d)
      else (true, record { strategy = strategy; rate = rate; capacity = capacity })
