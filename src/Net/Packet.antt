-- ===== src/Net/Packet.antt =====
-- net/tcp_reader.go and net/tcp_writer.go: packets behind a head of four bytes that holds their
-- length. A run-time panic (a slice bound out of range, a nil limiter) is an outcome.
pub mod Limit
pub mod Reading
pub mod Framing
pub mod Writing
use optimusprime.Prelude.{
  ℕ, ◌+◌, ◌*◌, ◌%◌, ◌^◌, Bool, if◌then◌else◌, leb, ltb, Option, none, some, List, [], ◌∷◌, ◌++◌,
  length, take, drop, replicate,
}
use optimusprime.Prelude.Text.{Bytes}
use optimusprime.Prelude.Int.{ℤ, pos}
use optimusprime.RateLimiter.Front.{RateLimit, stop}
use optimusprime.Net.Stream.{IoError, Stream, Sink, read_full, write_to, put_uint32, uint32}

abbrev pub default_head_size : ℕ
default_head_size = 4

abbrev pub default_packet_size : ℕ
default_packet_size = 4 * 1024

pub data Outcome {ℓ} (A : Type ℓ) : Type ℓ where
  ok : A → Outcome A
  err : IoError → Outcome A
  panic : Outcome A

pub record Reader : Type 0 where
  pub stream : Stream
  pub buf : Bytes
  pub limit : Option RateLimit

-- A method of the reader.
abbrev pub M : Type 0 → Type 0
M A = Reader → Outcome A × Reader

infixl 5 ◌>>=◌ ◌>>◌
abbrev pub ◌>>=◌ : {A B : Type 0} → M A → (A → M B) → M B
◌>>=◌ m f r = elim (m r).0 [
  | ok a ↦ f a (m r).1
  | err e ↦ (err e, (m r).1)
  | panic ↦ (panic, (m r).1)
]

abbrev pub ◌>>◌ : {B : Type 0} → M (Unit {0}) → M B → M B
m >> k = m >>= λ _. k

-- `newReader`; the limiter is nil, or what NewRateLimit returned.
unfoldable pub new_reader : Stream → Option RateLimit → Reader
new_reader s limit = record { stream = s; buf = replicate default_packet_size 0; limit = limit }

-- io.ReadFull(r.r, r.buf[:n]): the n bytes stand at the front of the buffer after it.
unfoldable pub fill : ℕ → M (Unit {0})
fill n r =
    let (bs, e, s) = read_full n r.stream in
    let r' : Reader = record r { stream = s; buf = bs ++ drop (length bs) r.buf } in
    if leb n (length r.buf)
    then elim e [ none ↦ (ok tt, r') | some x ↦ (err x, r') ]
    else (panic, r)

unfoldable pub head_value : M ℕ
head_value r = (ok (uint32 (take default_head_size r.buf)), r)

unfoldable pub read_head : M ℕ
read_head = do fill default_head_size; head_value

-- `r.ratelimit.Stop(int64(n))`, if there is a limiter. `now` is the instant of the call.
unfoldable pub throttle : ℤ → ℕ → M (Unit {0})
throttle now n r = elim r.limit [
  | none ↦ (ok tt, r)
  | some rl ↦ elim (stop now (pos n) rl) [
    | none ↦ (panic, r)
    | some (rl', _) ↦ (ok tt, record r { limit = some rl' })
  ]
]

-- The buffer that `readBody` reads into.
unfoldable pub grow : ℕ → M (Unit {0})
grow n r = (ok tt, if ltb default_packet_size n then record r { buf = replicate n 0 } else r)

unfoldable pub read_body : ℕ → M (Unit {0})
read_body n = do grow n; fill n

-- `append(packet, r.buf[:n]...)`.
unfoldable pub copy_packet : ℕ → M Bytes
copy_packet n r = if leb n (length r.buf) then (ok (take n r.buf), r) else (panic, r)

unfoldable pub read_packet : ℤ → M Bytes
read_packet now = do n ← read_head; throttle now n; read_body n; copy_packet n

-- The number of bytes written, the error, and the connection after the call.
abbrev pub WriteResult : Type 0
WriteResult = ℕ × Option IoError × Sink

-- `writeHead`: the length is cut to 32 bits.
unfoldable pub write_head : ℕ → Sink → WriteResult
write_head plen s = write_to (put_uint32 (plen % 2 ^ 32)) s

-- `writeBody`, unless the head failed.
unfoldable pub write_body : Bytes → WriteResult → WriteResult
write_body packet (n, some x, s) = (0, some x, s)
write_body packet (n, none, s) = write_to packet s

unfoldable pub write_packet : Bytes → Sink → WriteResult
write_packet packet s = write_body packet (write_head (length packet) s)
