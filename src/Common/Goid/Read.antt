-- ===== src/Common/Goid/Read.antt =====
-- GetGID reads the number that stands in the stack.
use optimusprime.Prelude.{
  ℕ, zero, suc, ◌^◌, ◌≤◌, ◌<◌, ◌≡◌, refl, ap, sym, ◌∙◌, arith, true, false, ltb, ◌==◌, ==_iff, some,
  [], ◌∷◌, ◌++◌, append_assoc, length, length-append, take,
}
use optimusprime.Prelude.Text.{Bytes, codes}
use optimusprime.Prelude.Digits.{AllDigits, value, only_digits-true}
use optimusprime.Common.Goid.{
  strip, or_whole, trim_prefix, put_byte, before_space, parse_uint, parse_some, get_gid,
}

strip_self : (ps bs : Bytes) → strip ps (ps ++ bs) ≡ some bs
unfolding strip
strip_self [] bs = refl
strip_self (p ∷ ps) bs =
    let same : (p == p) ≡ true = (==_iff p p).1 refl in rw same (strip_self ps bs)

before_space_digits : (ds rest : Bytes) → AllDigits ds → before_space (ds ++ 32 ∷ rest) ≡ some ds
unfolding before_space put_byte
before_space_digits [] rest d = refl
before_space_digits (b ∷ ds) rest (lo, hi, d) =
    let more : (b == 32) ≡ false = ground arith in rw (more, before_space_digits ds rest d) refl

parse_uint_digits :
    (ds : Bytes) → AllDigits ds → 0 < length ds → value 0 ds < 2 ^ 64 → parse_uint ds ≡ value 0 ds
unfolding parse_uint value
parse_uint_digits [] d full small = absurd (omega arith)
parse_uint_digits (b ∷ ds) d full small =
    let small_enough : ltb (value 0 (b ∷ ds)) (2 ^ 64) ≡ true = ground arith in
    rw (only_digits-true (b ∷ ds) d, small_enough) refl

take_long : (n : ℕ) (xs ys : Bytes) → length xs ≤ n → (zs : Bytes) × (take n (xs ++ ys) ≡ xs ++ zs)
take_long n [] ys fits = (take n ys, refl)
take_long zero (x ∷ xs) ys fits = absurd (omega arith)
take_long (suc n) (x ∷ xs) ys fits =
    let (zs, e) = take_long n xs ys (omega arith) in (zs, ap (λ l. x ∷ l) e)

-- The stack of a goroutine, which begins with its number between "goroutine " and a space, gives back
-- that number, if it is a uint64 of at most 53 digits.
pub get_gid_reads :
    (ds rest : Bytes)
    → AllDigits ds
    → 0 < length ds
    → length ds ≤ 53
    → value 0 ds < 2 ^ 64
    → get_gid (codes "goroutine " ++ (ds ++ 32 ∷ rest)) ≡ some (value 0 ds)
unfolding get_gid trim_prefix or_whole parse_some
get_gid_reads ds rest d full fits small =
    let front = codes "goroutine " ++ (ds ++ 32 ∷ []) in
    let (zs, cut) = take_long 64 front rest (omega (arith, length-append ds (32 ∷ []))) in
    let whole : codes "goroutine " ++ (ds ++ 32 ∷ rest) ≡ front ++ rest =
      ap (λ l. codes "goroutine " ++ l) (sym (append_assoc ds (32 ∷ []) rest)) in
    let seen : take 64 (codes "goroutine " ++ (ds ++ 32 ∷ rest))
        ≡ codes "goroutine " ++ (ds ++ 32 ∷ zs) =
      ap (take 64) whole ∙ cut ∙ ap (λ l. codes "goroutine " ++ l) (append_assoc ds (32 ∷ []) zs) in
    ap (λ l. parse_some (before_space (trim_prefix (codes "goroutine ") l))) seen
    ∙ ap (λ o. parse_some (before_space (or_whole (codes "goroutine " ++ (ds ++ 32 ∷ zs)) o)))
        (strip_self (codes "goroutine ") (ds ++ 32 ∷ zs))
    ∙ ap parse_some (before_space_digits ds zs d)
    ∙ ap some (parse_uint_digits ds d full small)
