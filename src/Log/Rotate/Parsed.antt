-- ===== src/Log/Rotate/Parsed.antt =====
-- ParseIdx reads what LogName writes.
use mathlib.Core.Path.{subst}
use optimusprime.Prelude.{
  ℕ, zero, suc, ◌+◌, ◌^◌, ◌≤◌, ◌<◌, ◌≡◌, refl, ap, sym, ◌∙◌, arith, Bool, true, false, inl, inr,
  ◌&&◌, ◌||◌, leb, ◌==◌, ==_iff, if◌then◌else◌, none, some, [], ◌∷◌, ◌++◌, append-nil, length,
  length-append, drop,
}
use optimusprime.Prelude.Text.{Bytes}
use optimusprime.Prelude.Int.{pos}
use optimusprime.Log.Logger.{Clock}
use optimusprime.Log.Decimal.{sprint_decimal}
use optimusprime.Prelude.Digits.{AllDigits, value, only_digits-true}
use optimusprime.Log.Decimal.Width.{IsDecimal, sprint-IsDecimal, length-sprint_decimal}
use optimusprime.Log.Rotate.Names.{
  day_text, log_name, after_pattern, is_some, starts_with, has_within, after_digits, or_here,
  put_front, capture, from_digits, from_prefix, or_later, find_idx, parse_unsigned, in_range,
  parse_int, parsed, read_idx, from_match, without_dir, in_name, parse_idx,
}

after_pattern_self : (ps text : Bytes) → after_pattern ps (ps ++ text) ≡ some text
unfolding after_pattern
after_pattern_self [] text = refl
after_pattern_self (p ∷ ps) text =
    let same : (p == p) ≡ true = (==_iff p p).1 refl in rw same (after_pattern_self ps text)

after_pattern_short : (ps text : Bytes) → length text < length ps → after_pattern ps text ≡ none
unfolding after_pattern
after_pattern_short [] text short = absurd (omega arith)
after_pattern_short (p ∷ ps) [] short = refl
after_pattern_short (p ∷ ps) (b ∷ bs) short =
    ground (arith, after_pattern_short ps bs (omega arith))

capture_short : (suffix text : Bytes) → length text < length suffix → capture suffix text ≡ none
unfolding capture or_here put_front is_some
capture_short suffix [] short = rw (after_pattern_short suffix [] short) refl
capture_short suffix (b ∷ bs) short =
    rw (after_pattern_short suffix (b ∷ bs) short, capture_short suffix bs (omega arith))
      (ground arith)

here_only : (s : ℕ) → or_here true (if s == 10 then none else put_front s none) ≡ some []
unfolding or_here put_front
here_only s = ground arith

capture_self : (suffix : Bytes) → capture suffix suffix ≡ some []
unfolding capture is_some
capture_self [] = ap (λ o. or_here (is_some o) none) (after_pattern_self [] [])
capture_self (s ∷ ss) =
    let whole : after_pattern (s ∷ ss) (s ∷ ss) ≡ some [] =
      ap (after_pattern (s ∷ ss)) (sym (append-nil (s ∷ ss))) ∙ after_pattern_self (s ∷ ss) [] in
    rw (whole, capture_short (s ∷ ss) ss (omega arith)) (here_only s)

capture_digits : (xs suffix : Bytes) → AllDigits xs → capture suffix (xs ++ suffix) ≡ some xs
unfolding capture or_here put_front
capture_digits [] suffix d = capture_self suffix
capture_digits (x ∷ xs) suffix (lo, hi, d) =
    let other : (x == 10) ≡ false = ground arith in rw (other, capture_digits xs suffix d) refl

after_digits_all :
    (n : ℕ) (xs text : Bytes)
    → AllDigits xs
    → length xs ≡ n
    → after_digits n (xs ++ text) ≡ some text
unfolding after_digits
after_digits_all zero [] text d e = refl
after_digits_all zero (x ∷ xs) text d e = absurd (omega arith)
after_digits_all (suc n) [] text d e = absurd (omega arith)
after_digits_all (suc n) (x ∷ xs) text (lo, hi, d) e =
    let digit : (leb 48 x && leb x 57) ≡ true = ground arith in
    rw digit (after_digits_all n xs text d (omega arith))

starts_with_self : (ps text : Bytes) → starts_with ps (ps ++ text) ≡ true
unfolding starts_with
starts_with_self [] text = refl
starts_with_self (p ∷ ps) text =
    let same : (p == p) ≡ true = (==_iff p p).1 refl in rw same (starts_with_self ps text)

drop_dir : (dir : Bytes) (b : ℕ) (text : Bytes) → drop (length dir + 1) (dir ++ b ∷ text) ≡ text
drop_dir [] b text = refl
drop_dir (d ∷ dir) b text =
    subst (λ n. drop n (d ∷ dir ++ b ∷ text) ≡ text) {x = suc (length dir + 1)} (omega arith)
      (drop_dir dir b text)

without_dir_self :
    (dir : Bytes) (b : ℕ) (text : Bytes) → without_dir dir (dir ++ b ∷ text) ≡ some text
unfolding without_dir
without_dir_self dir b text =
    let long : leb (length dir + 1) (length (dir ++ b ∷ text)) ≡ true =
      ground (arith, length-append dir (b ∷ text)) in
    rw long (ap some (drop_dir dir b text))

find_first :
    (prefix suffix text c : Bytes)
    → from_prefix suffix (after_pattern prefix text) ≡ some c
    → find_idx prefix suffix text ≡ some c
unfolding find_idx or_later
find_first prefix suffix [] c e = e
find_first prefix suffix (b ∷ bs) c e = rw e refl

parse_int_digits :
    (bs : Bytes) (i : ℕ) → IsDecimal i bs → 0 < length bs → i < 2 ^ 31 → parse_int bs ≡ some (pos i)
unfolding parse_int parse_unsigned in_range
parse_int_digits [] i is full small = absurd (omega arith)
parse_int_digits (b ∷ bs) i is full small =
    ground (arith, only_digits-true bs is.digits.2, is.number)

append-AllDigits : (xs ys : Bytes) → AllDigits xs → AllDigits ys → AllDigits (xs ++ ys)
append-AllDigits [] ys dx dy = dy
append-AllDigits (x ∷ xs) ys (lo, hi, dx) dy = (lo, hi, append-AllDigits xs ys dx dy)

-- A day whose year has four digits.
pub record IsDay (t : Clock) : Type 0 where
  pub year_from : 1000 ≤ t.year
  pub year_to : t.year < 10000
  pub month_to : t.month < 100
  pub day_to : t.day < 100

below_32 : (i : ℕ) → i < 2 ^ 31 → i < 10 ^ 32
below_32 i small = omega arith

day_text-AllDigits : (t : Clock) → IsDay t → AllDigits (day_text t)
unfolding day_text
day_text-AllDigits t h =
    append-AllDigits (sprint_decimal 0 t.year) (sprint_decimal 2 t.month ++ sprint_decimal 2 t.day)
      ((sprint-IsDecimal 0 t.year (omega (arith, h.year_to)) (omega arith)).digits)
      (append-AllDigits (sprint_decimal 2 t.month) (sprint_decimal 2 t.day)
        ((sprint-IsDecimal 2 t.month (omega (arith, h.month_to)) (omega arith)).digits)
        ((sprint-IsDecimal 2 t.day (omega (arith, h.day_to)) (omega arith)).digits))

length-day_text : (t : Clock) → IsDay t → length (day_text t) ≡ 8
unfolding day_text
length-day_text t h =
    let year =
      length-sprint_decimal 0 t.year 3 (omega (arith, h.year_to)) (omega arith) (omega arith)
        (inl (omega (arith, h.year_from))) in
    let month =
      length-sprint_decimal 2 t.month 1 (omega (arith, h.month_to)) (omega arith) (omega arith)
        (inr refl) in
    let day =
      length-sprint_decimal 2 t.day 1 (omega (arith, h.day_to)) (omega arith) (omega arith)
        (inr refl) in
    length-append (sprint_decimal 0 t.year) (sprint_decimal 2 t.month ++ sprint_decimal 2 t.day)
    ∙ ap (λ n. length (sprint_decimal 0 t.year) + n)
        (length-append (sprint_decimal 2 t.month) (sprint_decimal 2 t.day))
    ∙ omega (arith, year, month, day)

nonempty : (i : ℕ) (out : Bytes) → IsDecimal i out → 0 < i → 0 < length out
unfolding value
nonempty i [] is large = absurd (omega (arith, is.number))
nonempty i (b ∷ bs) is large = omega arith

length-sprint_idx : (idx : ℕ) → idx < 2 ^ 31 → 0 < length (sprint_decimal 0 idx)
unfolding sprint_decimal
length-sprint_idx zero small = omega arith
length-sprint_idx (suc n) small =
    nonempty (suc n) (sprint_decimal 0 (suc n))
      (sprint-IsDecimal 0 (suc n) (below_32 (suc n) small) (omega arith)) (omega arith)

find_name :
    (prefix suffix : Bytes) (t : Clock) (idx : ℕ)
    → IsDay t
    → idx < 2 ^ 31
    → find_idx prefix suffix (prefix ++ (day_text t ++ (sprint_decimal 0 idx ++ suffix)))
      ≡ some (sprint_decimal 0 idx)
unfolding from_prefix from_digits
find_name prefix suffix t idx h small =
    let rest = sprint_decimal 0 idx ++ suffix in
    find_first prefix suffix (prefix ++ (day_text t ++ rest)) (sprint_decimal 0 idx) (
      ap (from_prefix suffix) (after_pattern_self prefix (day_text t ++ rest))
      ∙ ap (from_digits suffix)
          (after_digits_all 8 (day_text t) rest (day_text-AllDigits t h) (length-day_text t h))
      ∙ capture_digits (sprint_decimal 0 idx) suffix
          ((sprint-IsDecimal 0 idx (below_32 idx small) (omega arith)).digits))

within_self : (dir text : Bytes) → has_within dir (dir ++ text) ≡ true
unfolding has_within
within_self [] [] = starts_with_self [] []
within_self [] (b ∷ bs) = rw (starts_with_self [] (b ∷ bs)) refl
within_self (d ∷ ds) text = rw (starts_with_self (d ∷ ds) text) refl

-- The bytes `$()*+?[\\]^{|}`.
abbrev pub is_special : ℕ → Bool
is_special b =
    b == 36
    || (b == 40
        || (b == 41
            || (b == 42
                || (b == 43
                    || (b == 63
                        || (b == 91
                            || (b == 92
                                || (b == 93
                                    || (b == 94 || (b == 123 || (b == 124 || b == 125)))))))))))

-- No byte but the dot is special to package regexp.
abbrev pub IsPlain : Bytes → Type 0
IsPlain [] = Unit
IsPlain (b ∷ bs) = (is_special b ≡ false) × IsPlain bs

-- ParseIdx finds in a name that LogName made the index that it was made with: for a directory that is
-- not empty, a year of four digits, an index that fits in an int32, and a prefix and a suffix without
-- bytes that are special to regexp, but for dots.
pub parse_idx-log_name :
    (d : ℕ) (ds prefix suffix : Bytes) (t : Clock) (idx : ℕ)
    → IsPlain prefix
    → IsPlain suffix
    → IsDay t
    → idx < 2 ^ 31
    → parse_idx (log_name (d ∷ ds) prefix suffix t idx) (d ∷ ds) prefix suffix ≡ parsed (pos idx)
unfolding parse_idx log_name in_name from_match
parse_idx-log_name d ds prefix suffix t idx plain plain' h small =
    let name = prefix ++ (day_text t ++ (sprint_decimal 0 idx ++ suffix)) in
    let number =
      parse_int_digits (sprint_decimal 0 idx) idx
        (sprint-IsDecimal 0 idx (below_32 idx small) (omega arith)) (length-sprint_idx idx small)
        small in
    rw (within_self (d ∷ ds) (47 ∷ name)) (
      ap (in_name prefix suffix) (without_dir_self (d ∷ ds) 47 name)
      ∙ ap from_match (find_name prefix suffix t idx h small)
      ∙ ap read_idx number)
