-- ===== src/Net/Api/Tests.antt =====
-- Two servers at a concrete host.
use optimusprime.Prelude.{◌≡◌, refl, true, Option, none, some, []}
use optimusprime.Prelude.Text.{Bytes, codes}
use optimusprime.Prelude.Split.{bytes_eq}
use optimusprime.Net.Address.{Host, parse_listen_addr}
use optimusprime.Net.Api.{
  Mux, panics, listen_and_serve_http, on_http, serve_http, serve_registered, handle, has_path,
}
use optimusprime.Net.Api.Twice.{over_http, over_https, listen, second_server_panics}

abbrev host : Host
host = record { interface_by_name = λ n. none; parse_cidr = λ n. none; parse_ip = λ n. true }

abbrev serves : Mux → Bytes → Option Bytes
serves mux at = some (codes "closed")

second_server_panics_example :
    (listen over_https host serves
      (codes "10.0.0.2")
      (codes "443")
      ((listen over_http host serves (codes "10.0.0.1") (codes "80") []).1)).0
    ≡ panics
unfolding listen listen_and_serve_http on_http serve_http serve_registered handle has_path
    parse_listen_addr bytes_eq
second_server_panics_example =
    second_server_panics over_http over_https host serves (codes "10.0.0.1") (codes "10.0.0.2")
      (codes "80") (codes "443") (codes "10.0.0.2") [] tt refl
