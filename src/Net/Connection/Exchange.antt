-- ===== src/Net/Connection/Exchange.antt =====
-- Two connections, each at one end: what Send of the one and Receive of the other make of messages.
use mathlib.Core.Path.{subst}
use optimusprime.Prelude.{
  ℕ, zero, suc, ◌<◌, ◌^◌, ◌≡◌, refl, ap, sym, ◌∙◌, List, [], ◌∷◌, ◌++◌, append_assoc, append-nil,
  length,
}
use optimusprime.Prelude.Text.{Bytes}
use optimusprime.Prelude.Int.{ℤ}
use optimusprime.Net.Stream.{put_uint32}
use optimusprime.Net.Packet.{Outcome, ok, err, panic}
use optimusprime.Net.Packet.Framing.{IsOpen, AllFit, frames, read_packet_frame, write_packet_lem}
use optimusprime.Net.Connection.{TcpConnection, receive, received, send, sent}

-- Calls of Send, and calls of Receive until one fails.
unfoldable pub send_all : List Bytes → TcpConnection → TcpConnection
unfolding send
send_all [] c = c
send_all (p ∷ ps) c = send_all ps (send p c).2

abbrev cons_outcome :
    Bytes → Outcome (List Bytes) × TcpConnection → Outcome (List Bytes) × TcpConnection
cons_outcome p (ok ps, c) = (ok (p ∷ ps), c)
cons_outcome p (err e, c) = (err e, c)
cons_outcome p (panic, c) = (panic, c)

abbrev on_received :
    (TcpConnection → Outcome (List Bytes) × TcpConnection)
    → Outcome Bytes × TcpConnection
    → Outcome (List Bytes) × TcpConnection
on_received more (ok p, c) = cons_outcome p (more c)
on_received more (err e, c) = (err e, c)
on_received more (panic, c) = (panic, c)

unfoldable pub receive_all : ℤ → ℕ → TcpConnection → Outcome (List Bytes) × TcpConnection
unfolding receive
receive_all now zero c = (ok [], c)
receive_all now (suc n) c = on_received (receive_all now n) (receive now c)

-- A connection whose writes succeed after it has sent messages.
pub record HasSent (ps : List Bytes) (c c' : TcpConnection) : Type 0 where
  pub out : c'.writer.written ≡ c.writer.written ++ frames ps
  pub hooked : c'.data_out ≡ c.data_out ++ ps
  pub open_still : c'.close_flag ≡ c.close_flag
  pub writes_on : c'.writer.outcomes ≡ []

send_lem :
    (p : Bytes) (c : TcpConnection)
    → length p < 2 ^ 32
    → c.writer.outcomes ≡ []
    → (send p c).2 ≡ record c {
      writer = record c.writer { written = c.writer.written ++ put_uint32 (length p) ++ p };
      data_out = c.data_out ++ p ∷ [];
    }
unfolding send sent
send_lem p c small well = ap (λ r. (sent p c r).2) (write_packet_lem p c.writer small well)

send_all-HasSent :
    (ps : List Bytes) (c : TcpConnection)
    → AllFit ps
    → c.writer.outcomes ≡ []
    → HasSent ps c (send_all ps c)
unfolding send_all
send_all-HasSent [] c fit well = record {
  out = sym (append-nil c.writer.written);
  hooked = sym (append-nil c.data_out);
  open_still = refl;
  writes_on = well;
}
send_all-HasSent (p ∷ ps) c (small, fit) well =
    let c1 : TcpConnection = record c {
      writer = record c.writer { written = c.writer.written ++ put_uint32 (length p) ++ p };
      data_out = c.data_out ++ p ∷ [];
    } in
    let h = send_all-HasSent ps c1 fit well in
    subst (λ (d : TcpConnection). HasSent (p ∷ ps) c (send_all ps d))
      (sym (send_lem p c small well))
      (record {
        out = h.out ∙ simp append_assoc;
        hooked = h.hooked ∙ append_assoc c.data_out (p ∷ []) ps;
        open_still = h.open_still;
        writes_on = h.writes_on;
      })

-- A connection after it has received messages, with more in front of it.
pub record HasReceived (ps : List Bytes) (rest : Bytes) (c : TcpConnection)
    (r : Outcome (List Bytes) × TcpConnection) : Type 0 where
  pub after : TcpConnection
  pub gives : r ≡ (ok ps, after)
  pub left : after.reader.stream.incoming ≡ rest
  pub usable : IsOpen after.reader
  pub open_still : after.close_flag ≡ c.close_flag

receive_all-HasReceived :
    (now : ℤ) (ps : List Bytes) (rest : Bytes) (c : TcpConnection)
    → AllFit ps
    → c.reader.stream.incoming ≡ frames ps ++ rest
    → IsOpen c.reader
    → HasReceived ps rest c (receive_all now (length ps) c)
unfolding receive_all receive received
receive_all-HasReceived now [] rest c fit e o = record {
  after = c;
  gives = refl;
  left = e;
  usable = o;
  open_still = refl;
}
receive_all-HasReceived now (p ∷ ps) rest c (small, fit) e o =
    let (r1, one, left, o1) =
      read_packet_frame now p (frames ps ++ rest) c.reader small (e ∙ simp append_assoc) o in
    let c1 : TcpConnection = record c { reader = r1 } in
    let h = receive_all-HasReceived now ps rest c1 fit (ap (λ s. s.incoming) left) o1 in
    record {
      after = h.after;
      gives =
          ap (λ r. on_received (receive_all now (length ps)) (received c r)) one
          ∙ ap (cons_outcome p) h.gives;
      left = h.left;
      usable = h.usable;
      open_still = h.open_still;
    }

-- Messages that one connection sends one after the other, over writes that succeed, are received at the
-- other end, the same and in order; what came behind them is left. Both connections stay as open as
-- they were, and the sender has run OnDataOut once for each message, in order. No message is as long as
-- 2 ^ 32 bytes, and the reader is between two packets.
pub receive_all-send_all :
    (now : ℤ) (ps : List Bytes) (rest : Bytes) (c d : TcpConnection)
    → AllFit ps
    → c.writer.outcomes ≡ []
    → c.writer.written ≡ []
    → IsOpen d.reader
    → d.reader.stream.incoming ≡ (send_all ps c).writer.written ++ rest
    → HasReceived ps rest d (receive_all now (length ps) d)
      × ((send_all ps c).data_out ≡ c.data_out ++ ps)
      × ((send_all ps c).close_flag ≡ c.close_flag)
receive_all-send_all now ps rest c d fit well fresh o e =
    let h = send_all-HasSent ps c fit well in
    (
      receive_all-HasReceived now ps rest d fit
          (e ∙ ap (λ w. w ++ rest) (h.out ∙ ap (λ w. w ++ frames ps) fresh)) o,
      h.hooked,
      h.open_still,
    )
