-- ===== src/Common/Table/Print.antt =====
-- The lines of dashes of a table, and what Print hands to the log.
use Prim.Native.String.{String}
use optimusprime.Prelude.{
  ℕ, ◌+◌, ◌-◌, leb, if◌then◌else◌, Option, none, some, List, [], ◌∷◌, ◌++◌, replicate,
}
use optimusprime.Prelude.Text.{Bytes}
use optimusprime.Prelude.Map.{insert, string_eq}
use optimusprime.Common.Table.{Table, Row, size_of, calculate_sizes, row_string, get_head}

unfoldable pub sum_sizes : List (String × ℕ) → ℕ
sum_sizes [] = 0
sum_sizes ((_, l) ∷ m) = l + 1 + sum_sizes m

unfoldable pub line_length : Table → ℕ
unfolding sum_sizes
line_length t = sum_sizes t.field_sizes + 1

unfoldable pub print_dash : Table → Bytes
unfolding line_length
print_dash t = 124 ∷ (replicate (line_length t - 2) 45 ++ 124 ∷ 10 ∷ [])

-- `strings.Repeat` panics (`none`) for a negative count, so for a column without a width.
unfoldable pub dash_row : List String → Table → Row → Option Row
dash_row [] t made = some made
dash_row (k ∷ ks) t made =
    let n = size_of k t.field_sizes in
    let rest = dash_row ks t (insert k (replicate (n - 2) 45) made) in
    if leb 2 n then rest else none

abbrev pub then_line : Option Bytes → Option Bytes → Option Bytes
then_line none rest = none
then_line (some s) none = none
then_line (some s) (some rest) = some (s ++ 10 ∷ rest)

module _ (string_width : Bytes → ℕ) where
  unfoldable pub markdown_line : Table → Option Row → Option Bytes
  markdown_line t none = none
  markdown_line t (some r) = some (row_string string_width t r ++ 10 ∷ [])

  unfoldable pub print_markdown_dash : Table → Option Bytes
  unfolding markdown_line dash_row
  print_markdown_dash t = markdown_line t (dash_row t.fields t [])

  unfoldable pub print_table_dash : Table → Option Bytes
  unfolding print_markdown_dash print_dash
  print_table_dash t = if t.markdown then print_markdown_dash t else some (print_dash t)

  unfoldable pub footer_lines : Table → Option Row → Option Bytes
  unfolding print_table_dash
  footer_lines t none = some []
  footer_lines t (some footer) = then_line (print_table_dash t) (
      then_line (some (row_string string_width t footer))
        (if t.markdown then some [] else then_line (print_table_dash t) (some [])))

  unfoldable pub row_lines : Table → List Row → Option Bytes → Option Bytes
  unfolding print_dash
  row_lines t [] rest = rest
  row_lines t (r ∷ rows) rest =
      let more = row_lines t rows rest in
      then_line (some (row_string string_width t r))
        (if t.markdown then more else then_line (some (print_dash t)) more)

  unfoldable pub head_lines : (Bytes → Bytes) → Table → Option Bytes → Option Bytes
  unfolding print_table_dash
  head_lines title t rest =
      if t.hide_head
      then rest
      else then_line (some (get_head string_width title t)) (then_line (print_table_dash t) rest)

  unfoldable pub table_lines : (Bytes → Bytes) → Table → Option Bytes
  unfolding head_lines row_lines footer_lines print_dash
  table_lines title t =
      let rest = head_lines title t (row_lines t t.rows (footer_lines t t.footer)) in
      then_line (some []) (if t.markdown then rest else then_line (some (print_dash t)) rest)

  -- The sizes of the footer are counted in; a table without rows and footer prints nothing.
  unfoldable pub print_sized :
      (Bytes → Bytes) → Table → List Row → Option Row → Option (Option Bytes)
  unfolding table_lines
  print_sized title t [] none = some none
  print_sized title t (r ∷ rows) none = elim (table_lines title t) [
    | none ↦ none
    | some s ↦ some (some s)
  ]
  print_sized title t rows (some footer) =
      let t' : Table = record t {
        field_sizes = calculate_sizes string_width t.fields footer t.field_sizes;
      } in
      elim (table_lines title t') [ none ↦ none | some s ↦ some (some s) ]

  -- What is logged, if anything; `none` is a panic.
  unfoldable pub print : (Bytes → Bytes) → Table → Option (Option Bytes)
  unfolding print_sized
  print title t = print_sized title t t.rows t.footer
