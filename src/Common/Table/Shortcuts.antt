-- ===== src/Common/Table/Shortcuts.antt =====
-- common/table.go: the functions that make a table and print it at once.
use Prim.Native.String.{String}
use optimusprime.Prelude.{ℕ, true, Option, List, [], ◌∷◌}
use optimusprime.Prelude.Text.{Bytes, codes}
use optimusprime.Common.Table.{Row, Table, new_table, add_row}
use optimusprime.Common.Table.Print.{print}

-- A row for each entry of a map, with its key as a title.
unfoldable pub map_to_rows : (Bytes → Bytes) → Row → List Row
map_to_rows title [] = []
map_to_rows title ((k, v) ∷ m) =
    (("Key", title (codes k)) ∷ ("Value", v) ∷ []) ∷ map_to_rows title m

module _ (string_width : Bytes → ℕ) where
  unfoldable pub add_all : List Row → Table → Table
  unfolding add_row
  add_all [] t = t
  add_all (r ∷ rows) t = add_all rows (add_row string_width r t)

  unfoldable pub print_table : (Bytes → Bytes) → List String → List Row → Option (Option Bytes)
  unfolding add_all new_table print
  print_table title fields rows = print string_width title (add_all rows (new_table fields))

  unfoldable pub print_horizontal : (Bytes → Bytes) → Row → Option (Option Bytes)
  unfolding add_all new_table print map_to_rows
  print_horizontal title m =
      let t = add_all (map_to_rows title m) (new_table ("Key" ∷ "Value" ∷ [])) in
      print string_width title (record t { hide_head = true })

  unfoldable pub print_row : (Bytes → Bytes) → List String → Row → Option (Option Bytes)
  unfolding add_row new_table print
  print_row title fields row =
      print string_width title (add_row string_width row (new_table fields))
