-- ===== src/Log/Logger/Line.antt =====
-- What a call of Output makes of a message.
use optimusprime.Prelude.{
  ℕ, zero, suc, ◌≤◌, ◌<◌, ◌≡◌, ◌≢◌, refl, ap, ◌∙◌, arith, ◌⊎◌, inl, inr, false, Bool-cases, ◌==◌,
  ==_iff, none, some, List, [], ◌∷◌, ◌++◌, length, get_elem?,
}
use optimusprime.Prelude.Text.{Bytes}
use optimusprime.Prelude.Int.{ℤ, pos, ltb_ℤ}
use optimusprime.Prelude.Word.{add64}
use optimusprime.Log.Logger.{
  Logger, Clock, Emitted, line, panics, output, make_line, count_in, with_newline, format_header2,
  with_level, date_text, clock_text, req_text, level_text, level_names, has_flag, flag_level,
  level_fatal,
}

-- The counters with one of them raised.
pub record IsCounted (lvl : ℕ) (before after : List ℤ) : Type 0 where
  pub same_length : length after ≡ length before
  pub raised :
      (n : ℤ) × (get_elem? before lvl ≡ some n) × (get_elem? after lvl ≡ some (add64 n (pos 1)))
  pub others : (i : ℕ) → i ≢ lvl → get_elem? after i ≡ get_elem? before i

-- Counting at an index of the array, and above it.
record Counts (lvl : ℕ) (stats : List ℤ) : Type 0 where
  after : List ℤ
  returns : count_in lvl stats ≡ some after
  counted : IsCounted lvl stats after

counts_others_zero :
    (n m : ℤ) (stats : List ℤ) (i : ℕ) → i ≢ 0 → get_elem? (m ∷ stats) i ≡ get_elem? (n ∷ stats) i
counts_others_zero n m stats zero h = absurd (h refl)
counts_others_zero n m stats (suc i) h = refl

counts_others_suc :
    (lvl : ℕ) (n : ℤ) (stats after : List ℤ)
    → ((i : ℕ) → i ≢ lvl → get_elem? after i ≡ get_elem? stats i)
    → (i : ℕ) → i ≢ suc lvl
    → get_elem? (n ∷ after) i ≡ get_elem? (n ∷ stats) i
counts_others_suc lvl n stats after h zero ne = refl
counts_others_suc lvl n stats after h (suc i) ne = h i (λ e. ne (ap suc e))

count_in-Counts : (lvl : ℕ) (stats : List ℤ) → lvl < length stats → Counts lvl stats
unfolding count_in
count_in-Counts lvl [] small = absurd (omega arith)
count_in-Counts zero (n ∷ stats) small = record {
  after = add64 n (pos 1) ∷ stats;
  returns = refl;
  counted = record {
    same_length = refl;
    raised = (n, refl, refl);
    others = counts_others_zero n (add64 n (pos 1)) stats;
  };
}
count_in-Counts (suc lvl) (n ∷ stats) small =
    let c = count_in-Counts lvl stats (omega arith) in
    record {
      after = n ∷ c.after;
      returns = rw c.returns refl;
      counted = record {
        same_length = ap suc c.counted.same_length;
        raised = c.counted.raised;
        others = counts_others_suc lvl n stats c.after c.counted.others;
      };
    }

count_in_over : (lvl : ℕ) (stats : List ℤ) → length stats ≤ lvl → count_in lvl stats ≡ none
unfolding count_in
count_in_over lvl [] large = refl
count_in_over zero (n ∷ stats) large = absurd (omega arith)
count_in_over (suc lvl) (n ∷ stats) large = rw (count_in_over lvl stats (omega arith)) refl

at_index : (xs : List Bytes) (i : ℕ) → i < length xs → (x : Bytes) × (get_elem? xs i ≡ some x)
at_index [] i small = absurd (omega arith)
at_index (x ∷ xs) zero small = (x, refl)
at_index (x ∷ xs) (suc i) small = at_index xs i (omega arith)

level_text_known : (lvl flag : ℕ) → lvl < 7 → (t : Bytes) × (level_text lvl flag ≡ some t)
unfolding level_text level_names
level_text_known lvl flag small = elim (Bool-cases (has_flag flag flag_level)) [
  | inl on ↦ let (t, at) = at_index level_names lvl (omega arith) in (t, rw on at)
  | inr off ↦ ([], rw off refl)
]

header_known :
    (t : Clock) (lvl : ℕ) (req_id : Bytes) (l : Logger)
    → lvl < 7
    → (hd : Bytes) × (format_header2 t lvl req_id l ≡ some hd)
unfolding format_header2 with_level
header_known t lvl req_id l small =
    let (name, at) = level_text_known lvl l.flag small in
    let front = l.prefix ++ (date_text t l.flag ++ (clock_text t l.flag ++ req_text req_id)) in
    (front ++ name, ap (with_level front) at)

-- A message on a line: as it is, or with a newline behind it; the line of a message that is not empty
-- ends in a newline.
abbrev pub IsEnded : Bytes → Bytes → Type 0
IsEnded [] out = out ≡ []
IsEnded (b ∷ bs) out =
    ((out ≡ b ∷ bs) ⊎ (out ≡ b ∷ bs ++ 10 ∷ [])) × ((front : Bytes) × (out ≡ front ++ 10 ∷ []))

IsEnded-cons : (b c : ℕ) (bs out : Bytes) → IsEnded (c ∷ bs) out → IsEnded (b ∷ c ∷ bs) (b ∷ out)
IsEnded-cons b c bs out (inl same, (front, ends)) =
    (inl (ap (λ t. b ∷ t) same), (b ∷ front, ap (λ t. b ∷ t) ends))
IsEnded-cons b c bs out (inr more, (front, ends)) =
    (inr (ap (λ t. b ∷ t) more), (b ∷ front, ap (λ t. b ∷ t) ends))

with_newline-IsEnded : (s : Bytes) → IsEnded s (with_newline s)
unfolding with_newline
with_newline-IsEnded [] = refl
with_newline-IsEnded (b ∷ []) = elim (Bool-cases (b == 10)) [
  | inl e ↦ rw e (inl refl, ([], ap (λ n. n ∷ []) ((==_iff b 10).0 e)))
  | inr e ↦ rw e (inr refl, (b ∷ [], refl))
]
with_newline-IsEnded (b ∷ c ∷ bs) =
    IsEnded-cons b c bs (with_newline (c ∷ bs)) (with_newline-IsEnded (c ∷ bs))

-- A line for the writer that was made of a message, and the logger after it.
pub record IsLine (lvl : ℕ) (s : Bytes) (l : Logger) (e : Emitted) : Type 0 where
  pub header : Bytes
  pub body : Bytes
  pub stats : List ℤ
  pub emits : e ≡ line (header ++ body) (record l { level_stats = stats })
  pub ended : IsEnded s body
  pub counted : IsCounted lvl l.level_stats stats

-- A message of a level from DEBUG to PANIC that is not below the level of the logger becomes one line,
-- which holds the message, ends in a newline unless the message is empty, and is counted once, under
-- its level; nothing else of the logger changes. The logger has its six counters.
pub output-IsLine :
    (now : Clock) (req_id : Bytes) (lvl : ℕ) (s : Bytes) (l : Logger)
    → lvl < 6
    → length l.level_stats ≡ 6
    → ltb_ℤ (pos lvl) l.level ≡ false
    → IsLine lvl s l (output now req_id lvl s l)
unfolding output make_line
output-IsLine now req_id lvl s l small six loud =
    let c = count_in-Counts lvl l.level_stats (omega (arith, six)) in
    let (hd, at) = header_known now lvl req_id l (omega arith) in
    record {
      header = hd;
      body = with_newline s;
      stats = c.after;
      emits = rw loud (
          ap (λ o. make_line s l o (format_header2 now lvl req_id l)) c.returns
          ∙ ap (make_line s l (some c.after)) at);
      ended = with_newline-IsEnded s;
      counted = c.counted;
    }

-- A message of the level FATAL that is not below the level of the logger makes Output panic: the
-- level has a name, but none of the six counters.
pub output_fatal_panics :
    (now : Clock) (req_id s : Bytes) (l : Logger)
    → length l.level_stats ≡ 6
    → ltb_ℤ (pos level_fatal) l.level ≡ false
    → output now req_id level_fatal s l ≡ panics
unfolding output make_line
output_fatal_panics now req_id s l six loud = rw loud (
    ap (λ o. make_line s l o (format_header2 now level_fatal req_id l))
      (count_in_over level_fatal l.level_stats (omega (arith, six))))
