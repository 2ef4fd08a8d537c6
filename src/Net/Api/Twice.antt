-- ===== src/Net/Api/Twice.antt =====
-- Two servers in one process.
use mathlib.Core.Path.{subst}
use optimusprime.Prelude.{◌≡◌, refl, ap, ◌∙◌, true, false, Option, Bool-cases, inl, inr}
use optimusprime.Prelude.Text.{Bytes, codes}
use optimusprime.Prelude.Split.{bytes_eq}
use optimusprime.Net.Address.{Host, Found, address, fails, parse_listen_addr}
use optimusprime.Net.Api.{
  Served, served, not_listening, panics, refused, Mux, has_path, handle, serve_registered,
  serve_http, serve_https, on_http, join_host_port, listen_and_serve_http, listen_and_serve_https,
}

-- A call of ListenAndServeHTTP or ListenAndServeHTTPS.
pub data Kind : Type 0 where
  over_http over_https : Kind

unfoldable pub serve_kind : Kind → (Mux → Bytes → Option Bytes) → Bytes → Mux → Served × Mux
unfolding serve_http serve_https
serve_kind over_http = serve_http
serve_kind over_https = serve_https

unfoldable pub listen :
    Kind → Host → (Mux → Bytes → Option Bytes) → Bytes → Bytes → Mux → Served × Mux
unfolding listen_and_serve_http listen_and_serve_https
listen over_http = listen_and_serve_http
listen over_https = listen_and_serve_https

listen_serves :
    (k : Kind) (host : Host) (serves : Mux → Bytes → Option Bytes) (addr port : Bytes) (mux : Mux)
    → listen k host serves addr port mux
      ≡ on_http (serve_kind k serves) port (parse_listen_addr host addr) mux
unfolding listen serve_kind listen_and_serve_http listen_and_serve_https
listen_serves over_http host serves addr port mux = refl
listen_serves over_https host serves addr port mux = refl

-- The server was started, and has returned.
abbrev pub HasServed : Served → Type 0
HasServed (served at e) = Unit
HasServed (refused e) = ⊥
HasServed (not_listening at) = ⊥
HasServed panics = ⊥

root_taken :
    (k : Kind) (serves : Mux → Bytes → Option Bytes) (at : Bytes) (mux : Mux)
    → has_path (codes "/") mux ≡ true
    → (serve_kind k serves at mux).0 ≡ panics
unfolding serve_kind serve_http serve_https handle serve_registered
root_taken over_http serves at mux taken = rw taken refl
root_taken over_https serves at mux taken = rw taken refl

ws_taken :
    (serves : Mux → Bytes → Option Bytes) (at : Bytes) (mux : Mux)
    → has_path (codes "/") mux ≡ false
    → has_path (codes "/ws") mux ≡ true
    → (serve_kind over_http serves at mux).0 ≡ panics
unfolding serve_kind serve_http handle serve_registered has_path bytes_eq
ws_taken serves at mux free taken = rw (free, taken) refl

takes_root :
    (k : Kind) (serves : Mux → Bytes → Option Bytes) (at : Bytes) (mux : Mux)
    → HasServed ((serve_kind k serves at mux).0)
    → has_path (codes "/") ((serve_kind k serves at mux).1) ≡ true
unfolding serve_kind serve_http serve_https handle serve_registered has_path bytes_eq
takes_root over_http serves at mux ok = elim (Bool-cases (has_path (codes "/") mux)) [
  | inl taken ↦ absurd (subst HasServed (root_taken over_http serves at mux taken) ok)
  | inr free ↦ elim (Bool-cases (has_path (codes "/ws") mux)) [
    | inl taken ↦ absurd (subst HasServed (ws_taken serves at mux free taken) ok)
    | inr both ↦ rw (free, both) refl
  ]
]
takes_root over_https serves at mux ok = elim (Bool-cases (has_path (codes "/") mux)) [
  | inl taken ↦ absurd (subst HasServed (root_taken over_https serves at mux taken) ok)
  | inr free ↦ rw free refl
]

listened_root :
    (k : Kind) (serves : Mux → Bytes → Option Bytes) (port : Bytes) (f : Found) (mux : Mux)
    → HasServed ((on_http (serve_kind k serves) port f mux).0)
    → has_path (codes "/") ((on_http (serve_kind k serves) port f mux).1) ≡ true
unfolding on_http
listened_root k serves port (fails e) mux ok = absurd ok
listened_root k serves port (address ip) mux ok =
    takes_root k serves (join_host_port ip port) mux ok

-- Once ListenAndServeHTTP or ListenAndServeHTTPS has served, a second call of either panics for any
-- address that is accepted, since both register the path `/` with the multiplexer of the process.
pub second_server_panics :
    (k k' : Kind) (host : Host) (serves : Mux → Bytes → Option Bytes)
    (addr addr' port port' ip : Bytes) (mux : Mux)
    → HasServed ((listen k host serves addr port mux).0)
    → parse_listen_addr host addr' ≡ address ip
    → (listen k' host serves addr' port' ((listen k host serves addr port mux).1)).0 ≡ panics
unfolding on_http
second_server_panics k k' host serves addr addr' port port' ip mux ok accepted =
    let first = listen_serves k host serves addr port mux in
    let mux' = (listen k host serves addr port mux).1 in
    let taken : has_path (codes "/") mux' ≡ true =
      ap (λ r. has_path (codes "/") r.1) first
      ∙ listened_root k serves port (parse_listen_addr host addr) mux
          (subst (λ r. HasServed r.0) first ok) in
    ap (λ r. r.0) (listen_serves k' host serves addr' port' mux')
    ∙ ap (λ f. (on_http (serve_kind k' serves) port' f mux').0) accepted
    ∙ root_taken k' serves (join_host_port ip port') mux' taken
