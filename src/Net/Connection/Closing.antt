-- ===== src/Net/Connection/Closing.antt =====
-- When a connection is closed, and how often its hooks run.
use optimusprime.Prelude.{ℕ, ◌≤◌, ◌≡◌, refl, arith, true, Option, none, some, List, [], ◌∷◌, ◌++◌}
use optimusprime.Prelude.Text.{Bytes}
use optimusprime.Prelude.Int.{ℤ}
use optimusprime.Net.Stream.{IoError}
use optimusprime.Net.Packet.{ok, err, panic, read_packet, write_packet}
use optimusprime.Net.Connection.{
  TcpConnection, Op, receives, sends, closes_it, close, received, receive, sent, send, step, run,
  is_closed, Outcome, Reader, Sink,
}

-- The flag is a bit, and tells how often the connection was closed and the hook was told.
pub record IsConsistent (c : TcpConnection) : Type 0 where
  pub bit : c.close_flag ≤ 1
  pub closed_once : c.closes ≡ c.close_flag
  pub told_once : c.disconnects ≡ c.close_flag

close-IsConsistent : (c : TcpConnection) → IsConsistent c → IsConsistent (close c)
unfolding close
close-IsConsistent c v = ground arith

received-IsConsistent :
    (c : TcpConnection) (o : Outcome Bytes × Reader)
    → IsConsistent c
    → IsConsistent (received c o).1
unfolding received
received-IsConsistent c (ok p, r) v = ground arith
received-IsConsistent c (err e, r) v = ground arith
received-IsConsistent c (panic, r) v = ground arith

sent-IsConsistent :
    (msg : Bytes) (c : TcpConnection) (w : ℕ × Option IoError × Sink)
    → IsConsistent c
    → IsConsistent (sent msg c w).2
unfolding sent
sent-IsConsistent msg c (n, none, w) v = ground arith
sent-IsConsistent msg c (n, some e, w) v = ground arith

step-IsConsistent : (o : Op) (c : TcpConnection) → IsConsistent c → IsConsistent (step o c)
unfolding step
step-IsConsistent (receives now) c v = received-IsConsistent c (read_packet now c.reader) v
step-IsConsistent (sends msg) c v = sent-IsConsistent msg c (write_packet msg c.writer) v
step-IsConsistent closes_it c v = close-IsConsistent c v

-- After any calls of Receive, Send and Close the operating system was asked to close the connection,
-- and the hook OnDisconnect was called, once if the connection is closed and never if it is not.
pub run-IsConsistent : (os : List Op) (c : TcpConnection) → IsConsistent c → IsConsistent (run os c)
unfolding run
run-IsConsistent [] c v = v
run-IsConsistent (o ∷ os) c v = run-IsConsistent os (step o c) (step-IsConsistent o c v)

-- A closed connection stays closed.
abbrev IsClosed : TcpConnection → Type 0
IsClosed c = is_closed c ≡ true

received_error_closes :
    (c : TcpConnection) (o : Outcome Bytes × Reader) {e : IoError}
    → (received c o).0 ≡ err e
    → is_closed (received c o).1 ≡ true
unfolding received is_closed
received_error_closes c (ok p, r) h = cc
received_error_closes c (err x, r) h = ground arith
received_error_closes c (panic, r) h = cc

sent_error_closes :
    (msg : Bytes) (c : TcpConnection) (w : ℕ × Option IoError × Sink) {e : IoError}
    → (sent msg c w).1 ≡ some e
    → is_closed (sent msg c w).2 ≡ true
unfolding sent is_closed
sent_error_closes msg c (n, none, w) h = cc
sent_error_closes msg c (n, some x, w) h = ground arith

sent-data_out :
    (msg : Bytes) (c : TcpConnection) (w : ℕ × Option IoError × Sink)
    → (sent msg c w).2.data_out ≡ c.data_out ++ msg ∷ []
unfolding sent
sent-data_out msg c (n, none, w) = refl
sent-data_out msg c (n, some e, w) = ground arith

-- A call of Receive that returns an error leaves the connection closed.
pub receive_error_closes :
    (now : ℤ) (c : TcpConnection) (e : IoError)
    → (receive now c).0 ≡ err e
    → is_closed (receive now c).1 ≡ true
unfolding receive
receive_error_closes now c e h = received_error_closes c (read_packet now c.reader) h

-- A call of Send that fails leaves the connection closed, and still calls OnDataOut with the message,
-- as one that succeeds does.
pub send_error_reports :
    (msg : Bytes) (c : TcpConnection) (e : IoError)
    → (send msg c).1 ≡ some e
    → (is_closed (send msg c).2 ≡ true) × ((send msg c).2.data_out ≡ c.data_out ++ msg ∷ [])
unfolding send
send_error_reports msg c e h = (
  sent_error_closes msg c (write_packet msg c.writer) h,
  sent-data_out msg c (write_packet msg c.writer),
)
