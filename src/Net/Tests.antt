-- ===== src/Net/Tests.antt =====
-- The theorems of net at concrete packets, connections and pools, and tests of its definitions.
use optimusprime.Prelude.{
  Bool, false, if◌then◌else◌, ◌==◌, ℕ, ◌≡◌, refl, arith, none, some, List, [], ◌∷◌, ◌++◌,
  length-replicate,
}
use optimusprime.Prelude.Text.{Bytes}
use optimusprime.Prelude.Int.{pos}
use optimusprime.Net.Stream.{Sink, IoError, eof, put_uint32, write_to}
use optimusprime.Net.Packet.{
  Reader, new_reader, ok, err, read_packet, write_packet, write_body, write_head,
}
use optimusprime.Net.Packet.Framing.{
  IsOpen, read_many, write_many, read_many-write_many, read_packet_truncated,
}
use optimusprime.Net.Packet.Writing.{IsSent, write_packet-IsSent}
use optimusprime.Prelude.Text.{codes}
use optimusprime.Prelude.Split.{split, put_byte, bytes_eq}
use optimusprime.Net.Address.{
  Host, address, parse_listen_addr, get_addr_by_net_if, split_colon, by_fields, of_interface, scan,
  or_bad, pick, or_rest, is_ipv4, four_groups, is_group, all_digits, is_digit, is_ipv6,
}
use optimusprime.Net.Connection.Exchange.{HasReceived, send_all, receive_all, receive_all-send_all}
use optimusprime.Net.Connection.{
  send, sent, TcpConnection, new_tcp_connection, receives, sends, closes_it, run,
}
use optimusprime.Net.Connection.Closing.{IsConsistent, run-IsConsistent}

abbrev empty_sink : Sink
empty_sink = record { written = []; outcomes = [] }

-- A write that fails after one byte.
abbrev broken_sink : Sink
broken_sink = record { written = []; outcomes = some 1 ∷ [] }

abbrev two_packets : List Bytes
two_packets = (7 ∷ 8 ∷ []) ∷ [] ∷ []

abbrev wire : Bytes
wire = 0 ∷ 0 ∷ 0 ∷ 2 ∷ 7 ∷ 8 ∷ 0 ∷ 0 ∷ 0 ∷ 0 ∷ []

written_is_wire : (write_many two_packets empty_sink).written ≡ wire
unfolding write_many write_packet write_body write_head write_to put_uint32
written_is_wire = refl

abbrev reader_of : Bytes → Reader
reader_of bs = new_reader (record { incoming = bs; ends = eof }) none

reader_of-IsOpen : (bs : Bytes) → IsOpen (reader_of bs)
unfolding new_reader
reader_of-IsOpen bs = record { ready = omega (arith, length-replicate {A = ℕ} 4096 0); usable = tt }

read_many-write_many_example :
    (r' : Reader) × (read_many (pos 5) 2 (reader_of (wire ++ 9 ∷ [])) ≡ (ok two_packets, r'))
    × (r'.stream.incoming ≡ 9 ∷ [])
    × IsOpen r'
unfolding write_many write_packet write_body write_head write_to put_uint32 new_reader
read_many-write_many_example =
    read_many-write_many (pos 5) two_packets (9 ∷ []) empty_sink (reader_of (wire ++ 9 ∷ []))
      (omega arith, (omega arith, tt)) refl refl (reader_of-IsOpen (wire ++ 9 ∷ [])) refl

-- The connection ends inside the body.
read_packet_truncated_example :
    (x : IoError) × ((read_packet (pos 5) (reader_of (0 ∷ 0 ∷ 0 ∷ 2 ∷ 7 ∷ []))).0 ≡ err x)
unfolding put_uint32 new_reader
read_packet_truncated_example =
    read_packet_truncated (pos 5) (7 ∷ 8 ∷ []) 5 (reader_of (0 ∷ 0 ∷ 0 ∷ 2 ∷ 7 ∷ [])) (omega arith)
      (omega arith) refl (reader_of-IsOpen (0 ∷ 0 ∷ 0 ∷ 2 ∷ 7 ∷ []))

write_packet-IsSent_example : IsSent (7 ∷ []) broken_sink (write_packet (7 ∷ []) broken_sink)
write_packet-IsSent_example = write_packet-IsSent (7 ∷ []) broken_sink (omega arith)

abbrev connection_on : Bytes → Sink → TcpConnection
connection_on bs w = (new_tcp_connection 0 (record { incoming = bs; ends = eof }) w none).1

abbrev sender : TcpConnection
sender = connection_on [] empty_sink

abbrev receiver : TcpConnection
receiver = connection_on (wire ++ 9 ∷ []) empty_sink

receive_all-send_all_example :
    HasReceived two_packets (9 ∷ []) receiver (receive_all (pos 5) 2 receiver)
    × ((send_all two_packets sender).data_out ≡ two_packets)
    × ((send_all two_packets sender).close_flag ≡ 0)
unfolding new_tcp_connection send_all send sent write_packet write_body write_head write_to
    put_uint32
receive_all-send_all_example =
    receive_all-send_all (pos 5) two_packets (9 ∷ []) sender receiver
      (omega arith, (omega arith, tt)) refl refl (reader_of-IsOpen (wire ++ 9 ∷ [])) refl

run-IsConsistent_example : IsConsistent (
    run
      (receives (pos 5) ∷ closes_it ∷ sends (7 ∷ []) ∷ closes_it ∷ [])
      (connection_on wire broken_sink))
unfolding new_tcp_connection
run-IsConsistent_example =
    run-IsConsistent (receives (pos 5) ∷ closes_it ∷ sends (7 ∷ []) ∷ closes_it ∷ [])
      (connection_on wire broken_sink)
      (record { bit = omega arith; closed_once = refl; told_once = refl })

abbrev a_is_zero : Bytes → Bool
a_is_zero [] = false
a_is_zero (b ∷ bs) = b == 0

-- One interface, with an IPv6 address and then an IPv4 address.
abbrev one_interface : Host
one_interface = record {
  interface_by_name = λ nic. some (some ((0 ∷ []) ∷ (1 ∷ []) ∷ []));
  parse_cidr = λ (a : Bytes).
      if a_is_zero a
      then some (record { to4 = codes "<nil>"; to16 = codes "fe80::1" })
      else some (record { to4 = codes "10.0.0.1"; to16 = codes "10.0.0.1" });
  parse_ip = λ a. false;
}

first_ipv4 : parse_listen_addr one_interface (codes "@eth0") ≡ address (codes "10.0.0.1")
unfolding parse_listen_addr get_addr_by_net_if split_colon by_fields of_interface scan or_bad pick
    or_rest bytes_eq is_ipv4 four_groups is_group all_digits is_digit split put_byte is_ipv6
first_ipv4 = refl
