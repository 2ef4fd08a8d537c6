-- ===== src/Net/Connection.antt =====
-- net/tcp_connection.go: a connection with its reader, its writer and its close flag. Receive and Send
-- each hold a mutex of their own, so a call is one step of the state. The calls of the hooks and of
-- the operating system's Close are kept as a record of what happened.
pub mod Closing
pub mod Deadlines
pub mod Exchange
use optimusprime.Prelude.{
  ℕ, suc, ◌+◌, ◌%◌, ◌^◌, Bool, not, if◌then◌else◌, ◌==◌, Option, none, some, List, [], ◌∷◌, ◌++◌,
}
use optimusprime.Prelude.Text.{Bytes}
use optimusprime.Prelude.Int.{ℤ}
use optimusprime.RateLimiter.Front.{RateLimit}
use optimusprime.Net.Stream.{IoError, Stream, Sink}
use optimusprime.Net.Packet.{Reader, Outcome, ok, err, panic, new_reader, read_packet, write_packet}

pub record TcpConnection : Type 0 where
  pub id : ℕ
  pub reader : Reader
  pub writer : Sink
  pub close_flag : ℕ
  -- Calls of conn.Close, of OnDisconnect and of OnDataOut.
  pub closes : ℕ
  pub disconnects : ℕ
  pub data_out : List Bytes

-- `newTcpConnection`: the new value of the global counter, which is a uint64, and the connection.
unfoldable pub new_tcp_connection : ℕ → Stream → Sink → Option RateLimit → ℕ × TcpConnection
unfolding new_reader
new_tcp_connection counter s w limit =
    let next = (counter + 1) % 2 ^ 64 in
    (
      next,
      record {
        id = next;
        reader = new_reader s limit;
        writer = w;
        close_flag = 0;
        closes = 0;
        disconnects = 0;
        data_out = [];
      },
    )

unfoldable pub is_closed : TcpConnection → Bool
is_closed c = not (c.close_flag == 0)

-- The compare-and-swap lets one call through.
unfoldable pub close : TcpConnection → TcpConnection
close c =
    if c.close_flag == 0
    then record c { close_flag = 1; closes = suc c.closes; disconnects = suc c.disconnects }
    else c

-- What `Receive` makes of the outcome of readPacket.
unfoldable pub received : TcpConnection → Outcome Bytes × Reader → Outcome Bytes × TcpConnection
unfolding close
received c (ok p, r) = (ok p, record c { reader = r })
received c (err e, r) = (err e, close (record c { reader = r }))
received c (panic, r) = (panic, record c { reader = r })

unfoldable pub receive : ℤ → TcpConnection → Outcome Bytes × TcpConnection
unfolding received
receive now c = received c (read_packet now c.reader)

-- What `Send` makes of the result of writePacket; the hook OnDataOut runs on both branches.
unfoldable pub sent :
    Bytes → TcpConnection → ℕ × Option IoError × Sink → ℕ × Option IoError × TcpConnection
unfolding close
sent msg c (n, none, w) = (n, none, record c { writer = w; data_out = c.data_out ++ msg ∷ [] })
sent msg c (n, some e, w) =
    let c' = close (record c { writer = w }) in
    (n, some e, record c' { data_out = c'.data_out ++ msg ∷ [] })

unfoldable pub send : Bytes → TcpConnection → ℕ × Option IoError × TcpConnection
unfolding sent
send msg c = sent msg c (write_packet msg c.writer)

pub data Op : Type 0 where
  receives : ℤ → Op
  sends : Bytes → Op
  closes_it : Op

unfoldable pub step : Op → TcpConnection → TcpConnection
unfolding receive send close
step (receives now) c = (receive now c).1
step (sends msg) c = (send msg c).2
step closes_it c = close c

-- Any calls, in the order in which they take effect.
unfoldable pub run : List Op → TcpConnection → TcpConnection
run [] c = c
run (o ∷ os) c = run os (step o c)
