-- ===== src/Net/Address.antt =====
-- net/tcp_common.go: the address that a server listens on, given as an address or as a network
-- interface behind `@`. The interfaces of the host and what package net reads in a text are given.
pub mod Valid
use optimusprime.Prelude.{
  ℕ, Bool, true, false, ◌&&◌, ◌||◌, ◌==◌, leb, if◌then◌else◌, Option, none, some, List, [], ◌∷◌,
  length,
}
use optimusprime.Prelude.Text.{Bytes, codes}
use optimusprime.Prelude.Split.{split, put_byte, bytes_eq}

-- What net.ParseCIDR finds: the texts of To4 (`<nil>` for an IPv6 address) and of To16.
pub record Ip : Type 0 where
  pub to4 : Bytes
  pub to16 : Bytes

pub data AddressError : Type 0 where
  addr_is_empty no_such_interface no_addrs bad_cidr no_ip not_an_ip : AddressError

pub data Found : Type 0 where
  address : Bytes → Found
  fails : AddressError → Found

-- What package net tells: the addresses of an interface, the address in a CIDR text, and whether a
-- text is an IP address.
pub record Host : Type 0 where
  pub interface_by_name : Bytes → Option (Option (List Bytes))
  pub parse_cidr : Bytes → Option Ip
  pub parse_ip : Bytes → Bool

unfoldable pub is_digit : ℕ → Bool
is_digit b = leb 48 b && leb b 57

unfoldable pub all_digits : Bytes → Bool
unfolding is_digit
all_digits [] = true
all_digits (b ∷ bs) = is_digit b && all_digits bs

-- One to three digits.
unfoldable pub is_group : Bytes → Bool
unfolding all_digits
is_group bs = leb 1 (length bs) && (leb (length bs) 3 && all_digits bs)

-- The regular expression: four groups with dots between them.
unfoldable pub four_groups : List Bytes → Bool
unfolding is_group
four_groups (a ∷ b ∷ c ∷ d ∷ []) = is_group a && (is_group b && (is_group c && is_group d))
four_groups gs = false

unfoldable pub is_ipv4 : Bytes → Bool
unfolding four_groups
is_ipv4 ip = four_groups (split ip)

-- `strings.Contains(ip, ":")`.
unfoldable pub is_ipv6 : Bytes → Bool
is_ipv6 [] = false
is_ipv6 (b ∷ bs) = b == 58 || is_ipv6 bs

-- The address of the family that is asked for, if it is of this family.
unfoldable pub pick : Bytes → Ip → Option Bytes
unfolding bytes_eq
pick flag ip =
    if bytes_eq flag (codes "ipv4")
    then (if is_ipv4 ip.to4 then some ip.to4 else none)
    else if bytes_eq flag (codes "ipv6")
    then (if is_ipv6 ip.to16 then some ip.to16 else none)
    else none

-- The loop over the addresses: what is picked in one of them, or the rest.
unfoldable pub or_rest : Option Bytes → Found → Found
or_rest none rest = rest
or_rest (some ip) rest = address ip

unfoldable pub or_bad : Bytes → Option Ip → Found → Found
unfolding or_rest
or_bad flag none rest = fails bad_cidr
or_bad flag (some ip) rest = or_rest (pick flag ip) rest

unfoldable pub scan : Host → Bytes → List Bytes → Found
unfolding or_bad
scan host flag [] = fails no_ip
scan host flag (a ∷ more) = or_bad flag (host.parse_cidr a) (scan host flag more)

unfoldable pub of_interface : Host → Bytes → Option (Option (List Bytes)) → Found
unfolding scan
of_interface host flag none = fails no_such_interface
of_interface host flag (some none) = fails no_addrs
of_interface host flag (some (some addrs)) = scan host flag addrs

-- The parts around the colons: the interface, and the family, which is ipv4 if it is not given.
unfoldable pub by_fields : Host → List Bytes → Found
unfolding of_interface
by_fields host [] = fails no_such_interface
by_fields host (nic ∷ []) = of_interface host (codes "ipv4") (host.interface_by_name nic)
by_fields host (nic ∷ flag ∷ more) = of_interface host flag (host.interface_by_name nic)

-- `strings.Split(netIf, ":")`.
unfoldable pub split_colon : Bytes → List Bytes
unfolding put_byte
split_colon [] = [] ∷ []
split_colon (b ∷ bs) = let ws = split_colon bs in if b == 58 then [] ∷ ws else put_byte b ws

unfoldable pub get_addr_by_net_if : Host → Bytes → Found
unfolding by_fields split_colon
get_addr_by_net_if host net_if = by_fields host (split_colon net_if)

unfoldable pub parse_listen_addr : Host → Bytes → Found
unfolding get_addr_by_net_if
parse_listen_addr host [] = fails addr_is_empty
parse_listen_addr host (b ∷ bs) =
    if b == 64
    then get_addr_by_net_if host bs
    else if host.parse_ip (b ∷ bs)
    then address (b ∷ bs)
    else fails not_an_ip
