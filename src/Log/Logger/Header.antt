-- ===== src/Log/Logger/Header.antt =====
-- The header of `formatHeader`, which writes into a buffer by `itoa`, and `moduleOf`.
use optimusprime.Prelude.{
  ℕ, suc, ◌+◌, ◌/◌, Bool, true, false, ◌||◌, ◌&&◌, ◌==◌, if◌then◌else◌, Option, none, some, [], ◌∷◌,
  ◌++◌, take, drop,
}
use optimusprime.Prelude.Text.{Bytes, codes}
use optimusprime.Log.Decimal.{itoa}
use optimusprime.Log.Logger.{
  Logger, Clock, has_flag, flag_date, flag_time, flag_microseconds, flag_level, level_text,
  req_text, with_level,
}

infixl 5 ◌>>=◌
abbrev ◌>>=◌ : {A B : Type 0} → Option A → (A → Option B) → Option B
o >>= f = elim o [ none ↦ none | some a ↦ f a ]

unfoldable pub date_parts : Clock → Bytes → Option Bytes
unfolding itoa
date_parts t buf = do
  b ← itoa (buf ++ 91 ∷ []) t.year 4
  c ← itoa (b ++ 45 ∷ []) t.month 2
  d ← itoa (c ++ 45 ∷ []) t.day 2
  some (d ++ 32 ∷ [])

unfoldable pub write_date : Clock → ℕ → Bytes → Option Bytes
unfolding date_parts
write_date t flag buf = if has_flag flag flag_date then date_parts t buf else some buf

unfoldable pub write_fraction : Clock → ℕ → Bytes → Option Bytes
unfolding itoa
write_fraction t flag buf =
    if has_flag flag flag_microseconds
    then itoa (buf ++ 46 ∷ []) (t.nanosecond / 1000) 6
    else some buf

unfoldable pub time_parts : Clock → ℕ → Bytes → Option Bytes
unfolding itoa write_fraction
time_parts t flag buf = do
  h ← itoa buf t.hour 2
  m ← itoa (h ++ 58 ∷ []) t.minute 2
  s ← itoa (m ++ 58 ∷ []) t.second 2
  f ← write_fraction t flag s
  some (f ++ 93 ∷ 32 ∷ [])

unfoldable pub write_time : Clock → ℕ → Bytes → Option Bytes
unfolding time_parts
write_time t flag buf =
    if has_flag flag flag_time || has_flag flag flag_microseconds
    then time_parts t flag buf
    else some buf

unfoldable pub write_level : ℕ → ℕ → Bytes → Option Bytes
unfolding level_text with_level
write_level lvl flag buf =
    if has_flag flag flag_level
    then (elim (with_level buf (level_text lvl flag)) [
      | none ↦ none
      | some b ↦ some (b ++ 32 ∷ [])
    ])
    else some buf

unfoldable pub format_header : Clock → ℕ → Bytes → Logger → Option Bytes
unfolding write_date write_time write_level req_text
format_header t lvl req_id l = do
  b ← write_date t l.flag l.prefix
  c ← write_time t l.flag b
  write_level lvl l.flag (c ++ req_text req_id)

-- strings.LastIndex: where the last occurrence of a text begins.
unfoldable pub has_prefix : Bytes → Bytes → Bool
has_prefix [] s = true
has_prefix (p ∷ ps) [] = false
has_prefix (p ∷ ps) (b ∷ bs) = p == b && has_prefix ps bs

unfoldable pub last_index : Bytes → Bytes → Option ℕ
unfolding has_prefix
last_index p [] = if has_prefix p [] then some 0 else none
last_index p (b ∷ bs) = elim (last_index p bs) [
  | some i ↦ some (suc i)
  | none ↦ if has_prefix p (b ∷ bs) then some 0 else none
]

-- The path of the package below the last `/src/`.
unfoldable pub below_src : Bytes → ℕ → Option ℕ → Bytes
below_src file pos none = codes "UNKNOWN"
below_src file pos (some pos1) = drop (pos1 + 5) (take pos file)

unfoldable pub of_directory : Bytes → Option ℕ → Bytes
unfolding below_src last_index
of_directory file none = codes "UNKNOWN"
of_directory file (some pos) = below_src file pos (last_index (codes "/src/") (take pos file))

unfoldable pub module_of : Bytes → Bytes
unfolding of_directory
module_of file = of_directory file (last_index (codes "/") file)
