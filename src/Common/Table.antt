-- ===== src/Common/Table.antt =====
-- common/table.go: a table with columns, printed as text. The width of a text on the screen
-- (`stringWidth`) and strings.Title are given.
pub mod Widths
pub mod Aligned
pub mod Print
pub mod Shortcuts
use Prim.Native.String.{String}
use optimusprime.Prelude.{
  ℕ, ◌+◌, ◌-◌, Bool, true, false, ltb, if◌then◌else◌, Option, none, some, List, [], ◌∷◌, ◌++◌,
  replicate,
}
use optimusprime.Prelude.Text.{Bytes, codes}
use optimusprime.Prelude.Map.{lookup, insert, string_eq}

-- The text under each key.
abbrev pub Row : Type 0
Row = List (String × Bytes)

pub record Table : Type 0 where
  pub fields : List String
  pub footer : Option Row
  pub rows : List Row
  pub hide_head : Bool
  pub markdown : Bool
  pub field_sizes : List (String × ℕ)

unfoldable pub new_table : List String → Table
new_table fields = record {
  fields = fields;
  footer = none;
  rows = [];
  hide_head = false;
  markdown = false;
  field_sizes = [];
}

-- A map gives the zero value for a key that it does not have.
unfoldable pub size_or_zero : Option ℕ → ℕ
size_or_zero none = 0
size_or_zero (some n) = n

unfoldable pub size_of : String → List (String × ℕ) → ℕ
unfolding size_or_zero
size_of k sizes = size_or_zero (lookup k sizes)

unfoldable pub text_or_empty : Option Bytes → Bytes
text_or_empty none = []
text_or_empty (some v) = v

unfoldable pub text_of : String → Row → Bytes
unfolding text_or_empty
text_of k row = text_or_empty (lookup k row)

-- The row that AddRow makes: a value that is nil or missing is the empty text. `row` gives the values
-- as `%v` prints them.
unfoldable pub new_row : List String → Row → Row → Row
unfolding text_of
new_row [] row made = made
new_row (k ∷ ks) row made = new_row ks row (insert k (text_of k row) made)

unfoldable pub add_footer : Row → Table → Table
add_footer footer t = record t { footer = some footer }

module _ (string_width : Bytes → ℕ) where
  -- The width that a text needs in its column: at least that of the name, and two spaces.
  unfoldable pub needed : String → Bytes → ℕ
  needed k v =
      (if ltb (string_width v) (string_width (codes k))
        then string_width (codes k)
        else string_width v)
      + 2

  unfoldable pub grow_size : String → Option Bytes → List (String × ℕ) → List (String × ℕ)
  unfolding size_of needed
  grow_size k none sizes = sizes
  grow_size k (some v) sizes =
      if ltb (size_of k sizes) (needed k v) then insert k (needed k v) sizes else sizes

  unfoldable pub calculate_sizes : List String → Row → List (String × ℕ) → List (String × ℕ)
  unfolding grow_size
  calculate_sizes [] row sizes = sizes
  calculate_sizes (k ∷ ks) row sizes = calculate_sizes ks row (grow_size k (lookup k row) sizes)

  unfoldable pub add_if_any : Row → List Row → List Row
  add_if_any [] rows = rows
  add_if_any (cell ∷ cells) rows = rows ++ (cell ∷ cells) ∷ []

  unfoldable pub add_row : Row → Table → Table
  unfolding new_row calculate_sizes add_if_any
  add_row row t =
      let made = new_row t.fields row [] in
      record t {
        field_sizes = calculate_sizes t.fields made t.field_sizes;
        rows = add_if_any made t.rows;
      }

  -- A cell, with the spaces that it lacks of its column's width.
  unfoldable pub field_string : Table → String → Bytes → Bytes
  unfolding size_of
  field_string t name value =
      let padded = 32 ∷ (value ++ 32 ∷ []) in
      padded ++ replicate (size_of name t.field_sizes - string_width padded) 32

  unfoldable pub cells_string : Table → List String → Row → Bytes
  unfolding field_string text_of
  cells_string t [] row = []
  cells_string t (k ∷ ks) row = field_string t k (text_of k row) ++ 124 ∷ cells_string t ks row

  unfoldable pub row_string : Table → Row → Bytes
  unfolding cells_string
  row_string t row = 124 ∷ cells_string t t.fields row

  unfoldable pub head_cells : (Bytes → Bytes) → Table → List String → Bytes
  unfolding field_string
  head_cells title t [] = []
  head_cells title t (k ∷ ks) = field_string t k (title (codes k)) ++ 124 ∷ head_cells title t ks

  unfoldable pub get_head : (Bytes → Bytes) → Table → Bytes
  unfolding head_cells
  get_head title t = 124 ∷ head_cells title t t.fields
