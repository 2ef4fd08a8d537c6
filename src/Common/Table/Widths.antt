-- ===== src/Common/Table/Widths.antt =====
-- The cells of a table are as wide as their columns.
use Prim.Native.String.{String}
use optimusprime.Prelude.{
  ℕ, ◌+◌, ◌≤◌, ◌≡◌, refl, ap, ◌∙◌, arith, Bool, true, false, if◌then◌else◌, Option, none, some,
  List, [], ◌∷◌,
}
use optimusprime.Prelude.Text.{Bytes, str_eq}
use optimusprime.Prelude.Map.{lookup, insert, string_eq, lookup-insert}
use optimusprime.Common.Table.{
  Row, size_of, size_or_zero, text_or_empty, text_of, needed, grow_size, calculate_sizes,
}

size_of_if :
    (c : Bool) (n : ℕ) (o : Option ℕ)
    → size_or_zero (if c then some n else o) ≡ (if c then n else size_or_zero o)
unfolding size_or_zero
size_of_if true n o = refl
size_of_if false n o = refl

size_of-insert :
    (k j : String) (n : ℕ) (sizes : List (String × ℕ))
    → size_of j (insert k n sizes) ≡ (if str_eq k j then n else size_of j sizes)
unfolding size_of
size_of-insert k j n sizes =
    ap size_or_zero (lookup-insert k j n sizes) ∙ size_of_if (str_eq k j) n (lookup j sizes)

module _ (string_width : Bytes → ℕ) where
  grow_size-le :
      (k j : String) (o : Option Bytes) (sizes : List (String × ℕ))
      → size_of j sizes ≤ size_of j (grow_size string_width k o sizes)
  unfolding grow_size
  grow_size-le k j none sizes = omega arith
  grow_size-le k j (some v) sizes =
      ground (arith, size_of-insert k j (needed string_width k v) sizes, string_eq.beq_iff k j)

  grow_size_fits :
      (k : String) (v : Bytes) (sizes : List (String × ℕ))
      → string_width v + 2 ≤ size_of k (grow_size string_width k (some v) sizes)
  unfolding grow_size needed
  grow_size_fits k v sizes =
      ground (arith, size_of-insert k k (needed string_width k v) sizes, string_eq.beq_iff k k)

  pub sizes-le :
      (ks : List String) (j : String) (row : Row) (sizes : List (String × ℕ))
      → size_of j sizes ≤ size_of j (calculate_sizes string_width ks row sizes)
  unfolding calculate_sizes
  sizes-le [] j row sizes = omega arith
  sizes-le (k ∷ ks) j row sizes = omega (
    arith,
    grow_size-le k j (lookup k row) sizes,
    sizes-le ks j row (grow_size string_width k (lookup k row) sizes),
  )

  cell_fits :
      (k : String) (v : Bytes) (ks : List String) (row : Row) (sizes : List (String × ℕ))
      → lookup k row ≡ some v
      → string_width (text_of k row) + 2
        ≤ size_of k
            (calculate_sizes string_width ks row (grow_size string_width k (lookup k row) sizes))
  unfolding text_of text_or_empty
  cell_fits k v ks row sizes at = rw at (
      omega (
        arith,
        grow_size_fits k v sizes,
        sizes-le ks k row (grow_size string_width k (some v) sizes),
      ))

  -- Every text of the row under one of the names fits its column, with its two spaces.
  abbrev pub Fits : List String → Row → List (String × ℕ) → Type 0
  Fits [] row sizes = Unit
  Fits (k ∷ ks) row sizes = (string_width (text_of k row) + 2 ≤ size_of k sizes) × Fits ks row sizes

  -- Every name of the list has a text in the row.
  abbrev pub HasAll : List String → Row → Type 0
  HasAll [] row = Unit
  HasAll (k ∷ ks) row = ((v : Bytes) × (lookup k row ≡ some v)) × HasAll ks row

  pub calculate_sizes-Fits :
      (ks : List String) (row : Row) (sizes : List (String × ℕ))
      → HasAll ks row
      → Fits ks row (calculate_sizes string_width ks row sizes)
  unfolding calculate_sizes
  calculate_sizes-Fits [] row sizes h = tt
  calculate_sizes-Fits (k ∷ ks) row sizes ((v, at), h) = (
    cell_fits k v ks row sizes at,
    calculate_sizes-Fits ks row (grow_size string_width k (lookup k row) sizes) h,
  )
