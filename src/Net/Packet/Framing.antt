-- ===== src/Net/Packet/Framing.antt =====
-- The two sides of the protocol together: what writePacket puts on the wire, readPacket takes off.
use optimusprime.Prelude.{
  ℕ, zero, suc, ◌-◌, ◌%◌, ◌^◌, ◌<◌, ◌≡◌, refl, arith, none, List, [], ◌∷◌, ◌++◌, length, take, drop,
  ap, ◌∙◌, sym, length-append, length-take, length-drop, append_assoc, append-nil,
}
use native.Mathlib.Decide.{dec_lt}
use optimusprime.Prelude.Text.{Bytes}
use optimusprime.Prelude.Int.{ℤ}
use optimusprime.Net.Stream.{
  Stream, Sink, IoError, short_error, put_uint32, length-put_uint32, write_to, write_to_lem,
}
use optimusprime.Net.Packet.{
  Reader, M, ok, err, ◌>>=◌, ◌>>◌, fill, head_value, read_head, throttle, read_body, copy_packet,
  read_packet, grow, write_packet, write_head, write_body, WriteResult,
}
use optimusprime.Net.Packet.Limit.{IsUsable, throttle_lem}
use optimusprime.Net.Packet.Reading.{
  IsReady, bind_ok, bind_err, read_head_lem, read_body_lem, copy_packet_lem, fill_short, grow_lem,
}

-- A packet behind its head.
abbrev pub frame : Bytes → Bytes
frame p = put_uint32 (length p) ++ p

-- What holds of a reader between two packets.
pub record IsOpen (r : Reader) : Type 0 where
  pub ready : IsReady r
  pub usable : IsUsable r.limit

pub read_packet_frame :
    (now : ℤ) (p rest : Bytes) (r : Reader)
    → length p < 2 ^ 32
    → r.stream.incoming ≡ put_uint32 (length p) ++ (p ++ rest)
    → IsOpen r
    → (r' : Reader) × (read_packet now r ≡ (ok p, r'))
      × (r'.stream ≡ record r.stream { incoming = rest })
      × IsOpen r'
unfolding read_packet
read_packet_frame now p rest r small e open_r =
    let n = length p in
    let r1 : Reader = record r {
      stream = record r.stream { incoming = p ++ rest };
      buf = put_uint32 n ++ drop 4 r.buf;
    } in
    let head = read_head_lem n (p ++ rest) r small e open_r.ready in
    let ready1 : IsReady r1 = omega (
      arith,
      length-append (put_uint32 n) (drop 4 r.buf),
      length-put_uint32 n,
      length-drop 4 r.buf,
      open_r.ready,
    ) in
    let (l, throttled, usable) = throttle_lem now n r1 r1.limit refl open_r.usable in
    let r2 : Reader = record r1 { limit = l } in
    let (b, body, ready) = read_body_lem p rest r2 refl ready1 in
    let r3 : Reader = record r2 { stream = record r.stream { incoming = rest }; buf = p ++ b } in
    (
      r3,
      bind_ok read_head (λ m. do throttle now m; read_body m; copy_packet m) r head
          ∙ bind_ok (throttle now n) (λ _. do read_body n; copy_packet n) r1 throttled
          ∙ bind_ok (read_body n) (λ _. copy_packet n) r2 body
          ∙ copy_packet_lem p b r3 refl,
      refl,
      record { ready = ready; usable = usable },
    )

pub write_packet_lem :
    (p : Bytes) (s : Sink)
    → length p < 2 ^ 32
    → s.outcomes ≡ []
    → write_packet p s
      ≡ (length p, none, record s { written = s.written ++ put_uint32 (length p) ++ p })
unfolding write_packet write_head write_body
write_packet_lem p s small all_well =
    let e : length p % 2 ^ 32 ≡ length p = omega arith in
    ap (λ v. write_body p (write_to (put_uint32 v) s)) e
    ∙ ap (write_body p) (write_to_lem (put_uint32 (length p)) s all_well)
    ∙ write_to_lem p (record s { written = s.written ++ put_uint32 (length p) }) all_well

-- Packets one after the other: on the way out, and on the way in.
unfoldable pub write_many : List Bytes → Sink → Sink
write_many [] s = s
write_many (p ∷ ps) s = write_many ps (write_packet p s).2

return_packets : List Bytes → M (List Bytes)
return_packets ps r = (ok ps, r)

unfoldable pub read_many : ℤ → ℕ → M (List Bytes)
unfolding return_packets
read_many now zero = return_packets []
read_many now (suc n) = do p ← read_packet now; ps ← read_many now n; return_packets (p ∷ ps)

abbrev pub AllFit : List Bytes → Type 0
AllFit [] = Unit
AllFit (p ∷ ps) = (length p < 2 ^ 32) × AllFit ps

abbrev pub frames : List Bytes → Bytes
frames [] = []
frames (p ∷ ps) = put_uint32 (length p) ++ (p ++ frames ps)

write_many-frames :
    (ps : List Bytes) (s : Sink)
    → AllFit ps
    → s.outcomes ≡ []
    → (write_many ps s).written ≡ s.written ++ frames ps
unfolding write_many
write_many-frames [] s fit all_well = sym (append-nil s.written)
write_many-frames (p ∷ ps) s (small, fit) all_well =
    let sent : Sink = record s { written = s.written ++ put_uint32 (length p) ++ p } in
    ap (λ (w : WriteResult). (write_many ps w.2).written) (write_packet_lem p s small all_well)
    ∙ write_many-frames ps sent fit all_well
    ∙ simp append_assoc

read_many-frames :
    (now : ℤ) (ps : List Bytes) (rest : Bytes) (r : Reader)
    → AllFit ps
    → r.stream.incoming ≡ frames ps ++ rest
    → IsOpen r
    → (r' : Reader) × (read_many now (length ps) r ≡ (ok ps, r'))
      × (r'.stream ≡ record r.stream { incoming = rest })
      × IsOpen r'
unfolding read_many
read_many-frames now [] rest r fit e o =
    (r, refl, ap (λ (i : Bytes). record r.stream { incoming = i }) e, o)
read_many-frames now (p ∷ ps) rest r (small, fit) e o =
    let (r1, one, left, o1) =
      read_packet_frame now p (frames ps ++ rest) r small (e ∙ simp append_assoc) o in
    let (r2, more, left2, o2) =
      read_many-frames now ps rest r1 fit (ap (λ s. s.incoming) left) o1 in
    (
      r2,
      bind_ok (read_packet now) (λ q. do qs ← read_many now (length ps); return_packets (q ∷ qs)) r
            one
          ∙ bind_ok (read_many now (length ps)) (λ qs. return_packets (p ∷ qs)) r1 more,
      left2 ∙ ap (λ (s : Stream). record s { incoming = rest }) left,
      o2,
    )

-- Packets that writePacket sends one after the other over a connection whose writes succeed come out
-- of as many calls of readPacket at the other end, the same and in order, and what stands behind
-- them is left to be read. No packet is as long as 2 ^ 32 bytes, and the reader is as newReader
-- makes it with a limiter that has a bucket, or as an earlier call left it.
pub read_many-write_many :
    (now : ℤ) (ps : List Bytes) (rest : Bytes) (s : Sink) (r : Reader)
    → AllFit ps
    → s.outcomes ≡ []
    → s.written ≡ []
    → IsOpen r
    → r.stream.incoming ≡ (write_many ps s).written ++ rest
    → (r' : Reader) × (read_many now (length ps) r ≡ (ok ps, r'))
      × (r'.stream.incoming ≡ rest)
      × IsOpen r'
read_many-write_many now ps rest s r fit all_well fresh o e =
    let sent : (write_many ps s).written ≡ frames ps =
      write_many-frames ps s fit all_well ∙ ap (λ w. w ++ frames ps) fresh in
    let (r', read, left, o') =
      read_many-frames now ps rest r fit (e ∙ ap (λ w. w ++ rest) sent) o in
    (r', read, ap (λ t. t.incoming) left, o')

read_packet_no_head :
    (now : ℤ) (r : Reader)
    → length r.stream.incoming < 4
    → IsOpen r
    → (x : IoError) × ((read_packet now r).0 ≡ err x)
unfolding read_packet read_head
read_packet_no_head now r short o = (
  short_error r.stream.incoming r.stream.ends,
  bind_err read_head (λ m. do throttle now m; read_body m; copy_packet m) r
      (bind_err (fill 4) (λ _. head_value) r (fill_short 4 r short (omega (arith, o.ready)))),
)

read_packet_no_body :
    (now : ℤ) (v : ℕ) (body : Bytes) (r : Reader)
    → v < 2 ^ 32
    → length body < v
    → r.stream.incoming ≡ put_uint32 v ++ body
    → IsOpen r
    → (x : IoError) × ((read_packet now r).0 ≡ err x)
unfolding read_packet read_body
read_packet_no_body now v body r small short e o =
    let r1 : Reader = record r {
      stream = record r.stream { incoming = body };
      buf = put_uint32 v ++ drop 4 r.buf;
    } in
    let head = read_head_lem v body r small e o.ready in
    let ready1 : IsReady r1 = omega (
      arith,
      length-append (put_uint32 v) (drop 4 r.buf),
      length-put_uint32 v,
      length-drop 4 r.buf,
      o.ready,
    ) in
    let (l, throttled, _) = throttle_lem now v r1 r1.limit refl o.usable in
    let r2 : Reader = record r1 { limit = l } in
    let (b, grown, room, _) = grow_lem v r2 ready1 in
    let r3 : Reader = record r2 { buf = b } in
    (
      short_error body r.stream.ends,
      ap (λ t. t.0)
            (bind_ok read_head (λ m. do throttle now m; read_body m; copy_packet m) r head
              ∙ bind_ok (throttle now v) (λ _. do read_body v; copy_packet v) r1 throttled)
          ∙ bind_err (read_body v) (λ _. copy_packet v) r2
              (ap (λ t. t.0) (bind_ok (grow v) (λ _. fill v) r2 grown)
                ∙ fill_short v r3 short room),
    )

pub take-frame :
    (j : ℕ) (p : Bytes)
    → take (suc (suc (suc (suc j)))) (frame p) ≡ put_uint32 (length p) ++ take j p
unfolding put_uint32
take-frame j p = refl

-- A connection that ends inside a packet, after any number k of the bytes of its frame: readPacket
-- returns an error, and neither a packet nor a panic. The packet is shorter than 2 ^ 32 bytes, and the
-- reader is as newReader makes it with a limiter that has a bucket, or as an earlier call left it.
pub read_packet_truncated :
    (now : ℤ) (p : Bytes) (k : ℕ) (r : Reader)
    → length p < 2 ^ 32
    → k < length (frame p)
    → r.stream.incoming ≡ take k (frame p)
    → IsOpen r
    → (x : IoError) × ((read_packet now r).0 ≡ err x)
read_packet_truncated now p k r small cut e o = elim (dec_lt k 4) [
  | yes few ↦ read_packet_no_head now r (rw e (omega (arith, length-take k (frame p)))) o
  | no many ↦
      read_packet_no_body now (length p) (take (k - 4) p) r small
        (omega (
          arith,
          length-take (k - 4) p,
          length-append (put_uint32 (length p)) p,
          length-put_uint32 (length p),
        ))
        (e
          ∙ ap (λ i. take i (frame p)) {y = suc (suc (suc (suc (k - 4))))} (omega arith)
          ∙ take-frame (k - 4) p)
        o
]
