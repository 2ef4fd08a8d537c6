-- ===== src/Net/Stream.antt =====
-- The two ends of a connection as package net hands them to the code (io.Reader, io.Writer), and
-- io.ReadFull and encoding/binary over them. What the peer sends, and which writes fail, is given.
use optimusprime.Prelude.{
  ℕ, ◌+◌, ◌*◌, ◌/◌, ◌%◌, ◌^◌, ◌<◌, ◌≡◌, refl, arith, leb, if◌then◌else◌, Option, none, some, List,
  [], ◌∷◌, ◌++◌, length, take, drop, ap, length-append, true, false,
}
use optimusprime.Prelude.Text.{Bytes}

pub data IoError : Type 0 where
  eof unexpected_eof : IoError
  failed : ℕ → IoError

-- The bytes that are still to come, and the error that stands behind them.
pub record Stream : Type 0 where
  pub incoming : Bytes
  pub ends : IoError

-- io.ReadFull reports an end of file as unexpected where it has read something.
unfoldable pub short_error : Bytes → IoError → IoError
short_error (b ∷ bs) eof = unexpected_eof
short_error [] eof = eof
short_error bs unexpected_eof = unexpected_eof
short_error bs (failed e) = failed e

-- io.ReadFull into a buffer of n bytes: the bytes read, and the error.
unfoldable pub read_full : ℕ → Stream → Bytes × Option IoError × Stream
unfolding short_error
read_full n s =
    if leb n (length s.incoming)
    then (take n s.incoming, none, record s { incoming = drop n s.incoming })
    else (s.incoming, some (short_error s.incoming s.ends), record s { incoming = [] })

-- What was written so far, and the outcomes of the writes to come: `none` is a write that succeeds,
-- `some k` one that fails after k bytes. Behind the list every write succeeds.
pub record Sink : Type 0 where
  pub written : Bytes
  pub outcomes : List (Option ℕ)

abbrev pub write_error : IoError
write_error = failed 0

-- One call of Write: the number of bytes written, and the error.
unfoldable pub write_to : Bytes → Sink → ℕ × Option IoError × Sink
write_to bs s = elim s.outcomes [
  | [] ↦ (length bs, none, record s { written = s.written ++ bs })
  | o ∷ os ↦ elim o [
    | none ↦ (length bs, none, record { written = s.written ++ bs; outcomes = os })
    | some k ↦ (
      length (take k bs),
      some write_error,
      record { written = s.written ++ take k bs; outcomes = os },
    )
  ]
]

pub write_to_lem :
    (bs : Bytes) (s : Sink)
    → s.outcomes ≡ []
    → write_to bs s ≡ (length bs, none, record s { written = s.written ++ bs })
unfolding write_to
write_to_lem bs s h = ground arith

-- binary.BigEndian.PutUint32.
unfoldable pub put_uint32 : ℕ → Bytes
put_uint32 v = (v / 2 ^ 24 % 256) ∷ (v / 2 ^ 16 % 256) ∷ (v / 2 ^ 8 % 256) ∷ (v % 256) ∷ []

-- binary.BigEndian.Uint32, on the first four bytes.
unfoldable pub uint32 : Bytes → ℕ
uint32 (a ∷ b ∷ c ∷ d ∷ bs) = a * 2 ^ 24 + b * 2 ^ 16 + c * 2 ^ 8 + d
uint32 bs = 0

pub uint32-put_uint32 : (v : ℕ) (rest : Bytes) → v < 2 ^ 32 → uint32 (put_uint32 v ++ rest) ≡ v
unfolding uint32 put_uint32
uint32-put_uint32 v rest h = omega arith

pub length-put_uint32 : (v : ℕ) → length (put_uint32 v) ≡ 4
unfolding put_uint32
length-put_uint32 v = refl

-- A list of four bytes is what its value is written as.
pub put_uint32-uint32 :
    (a b c d : ℕ)
    → a < 256
    → b < 256
    → c < 256
    → d < 256
    → put_uint32 (uint32 (a ∷ b ∷ c ∷ d ∷ [])) ≡ a ∷ b ∷ c ∷ d ∷ []
unfolding put_uint32 uint32
put_uint32-uint32 a b c d ha hb hc hd = ground arith

module _ {ℓ} {A : Type ℓ} where
  pub take-append_length : (xs ys : List A) → take (length xs) (xs ++ ys) ≡ xs
  take-append_length [] ys = refl
  take-append_length (x ∷ xs) ys = ap (λ r. x ∷ r) (take-append_length xs ys)

  pub drop-append_length : (xs ys : List A) → drop (length xs) (xs ++ ys) ≡ ys
  drop-append_length [] ys = refl
  drop-append_length (x ∷ xs) ys = drop-append_length xs ys

-- The bytes are there.
pub read_full_enough :
    (n : ℕ) (bs rest : Bytes) (s : Stream)
    → s.incoming ≡ bs ++ rest
    → length bs ≡ n
    → read_full n s ≡ (bs, none, record s { incoming = rest })
unfolding read_full
read_full_enough n bs rest s e h =
    let enough : leb n (length (bs ++ rest)) ≡ true = ground (arith, length-append bs rest) in
    rw (e, enough, ← h, take-append_length bs rest, drop-append_length bs rest)

-- They are not.
pub read_full_short :
    (n : ℕ) (s : Stream)
    → length s.incoming < n
    → read_full n s ≡ (s.incoming, some (short_error s.incoming s.ends), record s { incoming = [] })
unfolding read_full
read_full_short n s h = let short : leb n (length s.incoming) ≡ false = ground arith in rw short
