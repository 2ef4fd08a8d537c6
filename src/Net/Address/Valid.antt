-- ===== src/Net/Address/Valid.antt =====
-- The addresses that the listen functions get.
use optimusprime.Prelude.{
  ◌≡◌, refl, ◌⊎◌, inl, inr, Bool, true, false, Bool-cases, ◌==◌, if◌then◌else◌, Option, none, some,
  List, [], ◌∷◌,
}
use optimusprime.Prelude.Text.{Bytes, codes}
use optimusprime.Prelude.Split.{bytes_eq}
use optimusprime.Net.Address.{
  Ip, Found, address, fails, Host, is_ipv4, is_ipv6, pick, or_rest, or_bad, scan, of_interface,
  by_fields, split_colon, get_addr_by_net_if, parse_listen_addr,
}

-- An address that one of the tests of the code accepts, or an error.
abbrev pub IsAccepted : Host → Found → Type 0
IsAccepted host (fails e) = Unit
IsAccepted host (address ip) =
    (is_ipv4 ip ≡ true) ⊎ ((is_ipv6 ip ≡ true) ⊎ (host.parse_ip ip ≡ true))

v4_picked :
    (host : Host) (c : Bool) (ip : Bytes) (rest : Found)
    → is_ipv4 ip ≡ c
    → IsAccepted host rest
    → IsAccepted host (or_rest (if c then some ip else none) rest)
unfolding or_rest
v4_picked host true ip rest e h = inl e
v4_picked host false ip rest e h = h

v6_picked :
    (host : Host) (c : Bool) (ip : Bytes) (rest : Found)
    → is_ipv6 ip ≡ c
    → IsAccepted host rest
    → IsAccepted host (or_rest (if c then some ip else none) rest)
unfolding or_rest
v6_picked host true ip rest e h = inr (inl e)
v6_picked host false ip rest e h = h

by_family :
    (host : Host) (four six : Bool) (ip : Ip) (rest : Found)
    → IsAccepted host rest
    → IsAccepted host (
        or_rest
          (if four
            then (if is_ipv4 ip.to4 then some ip.to4 else none)
            else if six
            then (if is_ipv6 ip.to16 then some ip.to16 else none)
            else none)
          rest)
unfolding or_rest
by_family host true six ip rest h = v4_picked host (is_ipv4 ip.to4) ip.to4 rest refl h
by_family host false true ip rest h = v6_picked host (is_ipv6 ip.to16) ip.to16 rest refl h
by_family host false false ip rest h = h

or_bad-IsAccepted :
    (host : Host) (flag : Bytes) (o : Option Ip) (rest : Found)
    → IsAccepted host rest
    → IsAccepted host (or_bad flag o rest)
unfolding or_bad pick
or_bad-IsAccepted host flag none rest h = tt
or_bad-IsAccepted host flag (some ip) rest h =
    by_family host (bytes_eq flag (codes "ipv4")) (bytes_eq flag (codes "ipv6")) ip rest h

scan-IsAccepted :
    (host : Host) (flag : Bytes) (addrs : List Bytes) → IsAccepted host (scan host flag addrs)
unfolding scan
scan-IsAccepted host flag [] = tt
scan-IsAccepted host flag (a ∷ more) =
    or_bad-IsAccepted host flag (host.parse_cidr a) (scan host flag more)
      (scan-IsAccepted host flag more)

of_interface-IsAccepted :
    (host : Host) (flag : Bytes) (o : Option (Option (List Bytes)))
    → IsAccepted host (of_interface host flag o)
unfolding of_interface
of_interface-IsAccepted host flag none = tt
of_interface-IsAccepted host flag (some none) = tt
of_interface-IsAccepted host flag (some (some addrs)) = scan-IsAccepted host flag addrs

by_fields-IsAccepted : (host : Host) (parts : List Bytes) → IsAccepted host (by_fields host parts)
unfolding by_fields
by_fields-IsAccepted host [] = tt
by_fields-IsAccepted host (nic ∷ []) =
    of_interface-IsAccepted host (codes "ipv4") (host.interface_by_name nic)
by_fields-IsAccepted host (nic ∷ flag ∷ more) =
    of_interface-IsAccepted host flag (host.interface_by_name nic)

ip_or_error :
    (host : Host) (c : Bool) (addr : Bytes) (e : _)
    → host.parse_ip addr ≡ c
    → IsAccepted host (if c then address addr else fails e)
ip_or_error host true addr e same = inr (inr same)
ip_or_error host false addr e same = tt

-- Whatever the interfaces of the host are: what parseListenAddr returns is an error, or a text that
-- isIPv4 or isIPv6 accepts or that net.ParseIP reads.
pub parse_listen_addr-IsAccepted :
    (host : Host) (addr : Bytes) → IsAccepted host (parse_listen_addr host addr)
unfolding parse_listen_addr get_addr_by_net_if
parse_listen_addr-IsAccepted host [] = tt
parse_listen_addr-IsAccepted host (b ∷ bs) = elim (Bool-cases (b == 64)) [
  | inl by_name ↦ rw by_name (by_fields-IsAccepted host (split_colon bs))
  | inr plain ↦ rw plain (ip_or_error host (host.parse_ip (b ∷ bs)) (b ∷ bs) _ refl)
]
