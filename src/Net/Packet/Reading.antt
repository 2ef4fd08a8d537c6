-- ===== src/Net/Packet/Reading.antt =====
-- What one call of readPacket does with the bytes that come in.
use optimusprime.Prelude.{
  ℕ, ◌^◌, ◌≤◌, ◌<◌, ◌≡◌, refl, arith, leb, ltb, [], ◌++◌, length, take, drop, ap, ◌∙◌,
  length-append, length-replicate, replicate, true, Bool-cases, inl, inr, length-drop,
}
use optimusprime.Prelude.Text.{Bytes}
use optimusprime.Net.Stream.{
  IoError, read_full_enough, read_full_short, short_error, put_uint32, uint32, uint32-put_uint32,
  take-append_length, length-put_uint32,
}
use optimusprime.Net.Packet.{
  Reader, M, ok, err, ◌>>=◌, fill, head_value, read_head, grow, read_body, copy_packet,
  default_packet_size,
}

-- A buffer that takes the head and every packet of up to default_packet_size bytes.
abbrev pub IsReady : Reader → Type 0
IsReady r = default_packet_size ≤ length r.buf

-- A step of a method that succeeds, or that ends with an error.
pub bind_ok :
    {A B : Type 0} (m : M A) (f : A → M B) (r : Reader) {a : A} {r' : Reader}
    → m r ≡ (ok a, r')
    → (m >>= f) r ≡ f a r'
bind_ok m f r {a} e = rw (e, ◌>>=◌) (ap (λ t. f a t.1) e)

pub bind_err :
    {A B : Type 0} (m : M A) (f : A → M B) (r : Reader) {x : IoError}
    → (m r).0 ≡ err x
    → ((m >>= f) r).0 ≡ err x
bind_err m f r e = rw (e, ◌>>=◌)

-- A call of `fill` that the incoming bytes suffice for.
pub fill_enough :
    (n : ℕ) (bs rest : Bytes) (r : Reader)
    → r.stream.incoming ≡ bs ++ rest
    → length bs ≡ n
    → n ≤ length r.buf
    → fill n r
      ≡ (ok tt, record r { stream = record r.stream { incoming = rest }; buf = bs ++ drop n r.buf })
unfolding fill
fill_enough n bs rest r e h room =
    let fits : leb n (length r.buf) ≡ true = ground arith in
    let got = read_full_enough n bs rest r.stream e h in rw (fits, got) (rw got (rw h))

pub fill_short :
    (n : ℕ) (r : Reader)
    → length r.stream.incoming < n
    → n ≤ length r.buf
    → (fill n r).0 ≡ err (short_error r.stream.incoming r.stream.ends)
unfolding fill
fill_short n r h room =
    let fits : leb n (length r.buf) ≡ true = ground arith in rw (fits, read_full_short n r.stream h)

head_bytes : (v : ℕ) (bs : Bytes) → v < 2 ^ 32 → uint32 (take 4 (put_uint32 v ++ bs)) ≡ v
unfolding put_uint32
head_bytes v bs h = uint32-put_uint32 v [] h

pub read_head_lem :
    (v : ℕ) (rest : Bytes) (r : Reader)
    → v < 2 ^ 32
    → r.stream.incoming ≡ put_uint32 v ++ rest
    → IsReady r
    → read_head r ≡ (
      ok v,
      record r { stream = record r.stream { incoming = rest }; buf = put_uint32 v ++ drop 4 r.buf },
    )
unfolding read_head
read_head_lem v rest r small e ready =
    bind_ok (fill 4) (λ _. head_value) r
      (fill_enough 4 (put_uint32 v) rest r e (length-put_uint32 v) (omega arith))
    ∙ (unfold head_value in rw (head_bytes v (drop 4 r.buf) small))

pub grow_lem :
    (n : ℕ) (r : Reader)
    → IsReady r
    → (b : Bytes) × (grow n r ≡ (ok tt, record r { buf = b }))
      × (n ≤ length b)
      × (default_packet_size ≤ length b)
unfolding grow
grow_lem n r ready = elim (Bool-cases (ltb default_packet_size n)) [
  | inl large ↦ (
    replicate n 0,
    rw large,
    omega (arith, length-replicate n (let z : ℕ = 0 in z)),
    ground (arith, length-replicate n (let z : ℕ = 0 in z)),
  )
  | inr small ↦ (r.buf, rw small, ground arith, ready)
]

pub read_body_lem :
    (p rest : Bytes) (r : Reader)
    → r.stream.incoming ≡ p ++ rest
    → IsReady r
    → (b : Bytes) × (read_body (length p) r
        ≡ (ok tt, record r { stream = record r.stream { incoming = rest }; buf = p ++ b }))
      × (default_packet_size ≤ length (p ++ b))
unfolding read_body
read_body_lem p rest r e ready =
    let (b, grown, room, still) = grow_lem (length p) r ready in
    (
      drop (length p) b,
      bind_ok (grow (length p)) (λ _. fill (length p)) r grown
          ∙ fill_enough (length p) p rest (record r { buf = b }) e refl room,
      omega (arith, length-append p (drop (length p) b), length-drop (length p) b),
    )

pub copy_packet_lem :
    (p b : Bytes) (r : Reader) → r.buf ≡ p ++ b → copy_packet (length p) r ≡ (ok p, r)
unfolding copy_packet
copy_packet_lem p b r e =
    let fits : leb (length p) (length r.buf) ≡ true = rw e (ground (arith, length-append p b)) in
    rw (fits, e, take-append_length p b)
