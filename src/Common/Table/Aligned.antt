-- ===== src/Common/Table/Aligned.antt =====
-- The lines of a table are aligned: in each row, the cell of a column is as wide as the column.
use Prim.Native.String.{String}
use optimusprime.Prelude.{
  ℕ, suc, zero, ◌+◌, ◌-◌, ◌≤◌, ◌≡◌, refl, ◌∙◌, arith, Bool-cases, inl, inr, some, List, [], ◌∷◌,
  ◌++◌, replicate,
}
use optimusprime.Prelude.Text.{Bytes, str_eq}
use optimusprime.Prelude.Map.{lookup, insert, string_eq, lookup-insert}
use optimusprime.Common.Table.{
  Table, Row, size_of, text_of, calculate_sizes, add_row, add_if_any, new_row, new_table,
  field_string,
}
use optimusprime.Common.Table.Widths.{Fits, HasAll, calculate_sizes-Fits, sizes-le}

-- What the width of a text is relied on for: it adds up, and a space has the width 1.
pub record IsWidth (string_width : Bytes → ℕ) : Type 0 where
  pub nothing : string_width [] ≡ 0
  pub adds : (a b : Bytes) → string_width (a ++ b) ≡ string_width a + string_width b
  pub space : string_width (32 ∷ []) ≡ 1

-- A text under a name stays, or is replaced by another.
insert_has :
    (j k : String) (v w : Bytes) (made : Row)
    → lookup j made ≡ some v
    → (u : Bytes) × (lookup j (insert k w made) ≡ some u)
insert_has j k v w made at = elim (Bool-cases (str_eq k j)) [
  | inl same ↦ (w, lookup-insert k j w made ∙ rw same refl)
  | inr other ↦ (v, lookup-insert k j w made ∙ rw other at)
]

new_row_has :
    (ks : List String) (j : String) (v : Bytes) (row made : Row)
    → lookup j made ≡ some v
    → (u : Bytes) × (lookup j (new_row ks row made) ≡ some u)
unfolding new_row
new_row_has [] j v row made at = (v, at)
new_row_has (k ∷ ks) j v row made at =
    let (u, still) = insert_has j k v (text_of k row) made at in
    new_row_has ks j u row (insert k (text_of k row) made) still

new_row-HasAll :
    (string_width : Bytes → ℕ) (ks : List String) (row made : Row)
    → HasAll string_width ks (new_row ks row made)
unfolding new_row
new_row-HasAll w [] row made = tt
new_row-HasAll w (k ∷ ks) row made = (
  new_row_has ks k (text_of k row) row (insert k (text_of k row) made)
      (lookup-insert k k (text_of k row) made ∙ rw ((string_eq.beq_iff k k).1 refl) refl),
  new_row-HasAll w ks row (insert k (text_of k row) made),
)

module _ (string_width : Bytes → ℕ) where
  Fits-le :
      (ks : List String) (row : Row) (s s' : List (String × ℕ))
      → ((j : String) → size_of j s ≤ size_of j s')
      → Fits string_width ks row s
      → Fits string_width ks row s'
  Fits-le [] row s s' le h = tt
  Fits-le (k ∷ ks) row s s' le (fits, h) = (omega (arith, fits, le k), Fits-le ks row s s' le h)

  -- The texts of each row fit their columns.
  abbrev AllFit : List String → List Row → List (String × ℕ) → Type 0
  AllFit ks [] s = Unit
  AllFit ks (row ∷ rows) s = Fits string_width ks row s × AllFit ks rows s

  AllFit-le :
      (ks : List String) (rows : List Row) (s s' : List (String × ℕ))
      → ((j : String) → size_of j s ≤ size_of j s')
      → AllFit ks rows s
      → AllFit ks rows s'
  AllFit-le ks [] s s' le h = tt
  AllFit-le ks (row ∷ rows) s s' le (fits, h) =
      (Fits-le ks row s s' le fits, AllFit-le ks rows s s' le h)

  AllFit-append :
      (ks : List String) (rows : List Row) (row : Row) (s : List (String × ℕ))
      → AllFit ks rows s
      → Fits string_width ks row s
      → AllFit ks (rows ++ row ∷ []) s
  AllFit-append ks [] row s h fits = (fits, tt)
  AllFit-append ks (r ∷ rows) row s (here, h) fits = (here, AllFit-append ks rows row s h fits)

  add_if_any-AllFit :
      (ks : List String) (made : Row) (rows : List Row) (s : List (String × ℕ))
      → AllFit ks rows s
      → Fits string_width ks made s
      → AllFit ks (add_if_any string_width made rows) s
  unfolding add_if_any
  add_if_any-AllFit ks [] rows s h fits = h
  add_if_any-AllFit ks (cell ∷ cells) rows s h fits = AllFit-append ks rows (cell ∷ cells) s h fits

  add_row-AllFit :
      (row : Row) (t : Table)
      → AllFit t.fields t.rows t.field_sizes
      → AllFit t.fields (add_row string_width row t).rows (add_row string_width row t).field_sizes
  unfolding add_row
  add_row-AllFit row t h =
      let made = new_row t.fields row [] in
      let sizes = calculate_sizes string_width t.fields made t.field_sizes in
      add_if_any-AllFit t.fields made t.rows sizes
        (AllFit-le t.fields t.rows t.field_sizes sizes
          (λ j. sizes-le string_width t.fields j made t.field_sizes) h)
        (calculate_sizes-Fits string_width t.fields made t.field_sizes
          (new_row-HasAll string_width t.fields row []))

  unfoldable pub add_rows : List Row → Table → Table
  add_rows [] t = t
  add_rows (row ∷ rows) t = add_rows rows (add_row string_width row t)

  spaces_width : IsWidth string_width → (n : ℕ) → string_width (replicate n 32) ≡ n
  spaces_width w zero = w.nothing
  spaces_width w (suc n) =
      omega (arith, w.adds (32 ∷ []) (replicate n 32), w.space, spaces_width w n)

  padded_width :
      IsWidth string_width → (v : Bytes) → string_width (32 ∷ (v ++ 32 ∷ [])) ≡ string_width v + 2
  padded_width w v = omega (arith, w.adds (32 ∷ []) (v ++ 32 ∷ []), w.adds v (32 ∷ []), w.space)

  field_string_width :
      (t : Table) (k : String) (v : Bytes)
      → IsWidth string_width
      → string_width v + 2 ≤ size_of k t.field_sizes
      → string_width (field_string string_width t k v) ≡ size_of k t.field_sizes
  unfolding field_string
  field_string_width t k v w fits =
      let padded = 32 ∷ (v ++ 32 ∷ []) in
      let n = size_of k t.field_sizes - string_width padded in
      omega (arith, fits, w.adds padded (replicate n 32), spaces_width w n, padded_width w v)

  -- The cell of each column in a row is as wide as the column.
  abbrev pub IsAligned : Table → List String → Row → Type 0
  IsAligned t [] row = Unit
  IsAligned t (k ∷ ks) row =
      (string_width (field_string string_width t k (text_of k row)) ≡ size_of k t.field_sizes)
      × IsAligned t ks row

  abbrev pub AllAligned : Table → List Row → Type 0
  AllAligned t [] = Unit
  AllAligned t (row ∷ rows) = IsAligned t t.fields row × AllAligned t rows

  aligned :
      (t : Table) (ks : List String) (row : Row)
      → IsWidth string_width
      → Fits string_width ks row t.field_sizes
      → IsAligned t ks row
  aligned t [] row w h = tt
  aligned t (k ∷ ks) row w (fits, h) =
      (field_string_width t k (text_of k row) w fits, aligned t ks row w h)

  all_aligned :
      (t : Table) (rows : List Row)
      → IsWidth string_width
      → AllFit t.fields rows t.field_sizes
      → AllAligned t rows
  all_aligned t [] w h = tt
  all_aligned t (row ∷ rows) w (fits, h) = (aligned t t.fields row w fits, all_aligned t rows w h)

  add_rows-AllFit :
      (rows : List Row) (t : Table)
      → AllFit t.fields t.rows t.field_sizes
      → AllFit (add_rows rows t).fields (add_rows rows t).rows (add_rows rows t).field_sizes
  unfolding add_rows add_row
  add_rows-AllFit [] t h = h
  add_rows-AllFit (row ∷ rows) t h =
      add_rows-AllFit rows (add_row string_width row t) (add_row-AllFit row t h)

  -- However many rows are added to a new table, and with whatever values: in each of its rows the cell
  -- of a column is as wide as the column, if the width of a text adds up and a space has the width 1.
  pub add_rows-AllAligned :
      (fields : List String) (rows : List Row)
      → IsWidth string_width
      → AllAligned (add_rows rows (new_table fields)) (add_rows rows (new_table fields)).rows
  unfolding new_table
  add_rows-AllAligned fields rows w =
      all_aligned (add_rows rows (new_table fields)) (add_rows rows (new_table fields)).rows w
        (add_rows-AllFit rows (new_table fields) tt)
