-- ===== src/Persistence/Mysql/Select.antt =====
-- persistence/mysql/mysql.go: Select, which reads all rows of an answer into maps.
use Prim.Native.String.{String}
use optimusprime.Prelude.{
  ◌≡◌, refl, ap, sym, ◌∙◌, if◌then◌else◌, Option, none, some, List, [], ◌∷◌, ◌++◌, append_assoc,
  append-nil,
}
use optimusprime.Prelude.Text.{Bytes, str_eq}
use optimusprime.Prelude.Map.{lookup, insert, string_eq, lookup-insert}
use optimusprime.Persistence.Mysql.{SqlError}

-- One row of the answer: Scan fills the values, one for each column, or fails. A NULL is the empty
-- value.
pub data Fetch : Type 0 where
  scanned : List Bytes → Fetch
  scan_failed : SqlError → Fetch

-- The answer of Query: an error, or the columns with the rows and the error, if there is one, that
-- ended them before they were all read.
pub data Answer : Type 0 where
  query_failed : SqlError → Answer
  rows : List String → List Fetch → Option SqlError → Answer

abbrev pub Row : Type 0
Row = List (String × Bytes)

-- `row[columns[k]] = string(v)`, for the columns in turn.
unfoldable pub fill_row : List String → List Bytes → Row → Row
fill_row [] vs row = row
fill_row (c ∷ cs) [] row = row
fill_row (c ∷ cs) (v ∷ vs) row = fill_row cs vs (insert c v row)

-- `for rows.Next()`: the results so far, and the error of a Scan.
unfoldable pub read_rows : List String → List Fetch → List Row → List Row × Option SqlError
unfolding fill_row
read_rows cs [] results = (results, none)
read_rows cs (scanned vs ∷ fs) results = read_rows cs fs (results ++ fill_row cs vs [] ∷ [])
read_rows cs (scan_failed err ∷ fs) results = (results, some err)

-- The loop does not ask for the error that ended the rows. The results are nil, here none, if Query
-- fails.
unfoldable pub select : Answer → Option (List Row) × Option SqlError
unfolding read_rows
select (query_failed err) = (none, some err)
select (rows cs fs ended) = let (results, err) = read_rows cs fs [] in (some results, err)

-- The value of the last column with a name.
abbrev pub last_value : String → List String → List Bytes → Option Bytes → Option Bytes
last_value name [] vs before = before
last_value name (c ∷ cs) [] before = before
last_value name (c ∷ cs) (v ∷ vs) before =
    last_value name cs vs (if str_eq c name then some v else before)

lookup-fill_row :
    (name : String) (cs : List String) (vs : List Bytes) (row : Row)
    → lookup name (fill_row cs vs row) ≡ last_value name cs vs (lookup name row)
unfolding fill_row
lookup-fill_row name [] vs row = refl
lookup-fill_row name (c ∷ cs) [] row = refl
lookup-fill_row name (c ∷ cs) (v ∷ vs) row =
    lookup-fill_row name cs vs (insert c v row)
    ∙ ap (last_value name cs vs) (lookup-insert c name v row)

-- The rows before the first Scan that failed, and its error.
abbrev pub good_rows : List Fetch → List (List Bytes)
good_rows [] = []
good_rows (scanned vs ∷ fs) = vs ∷ good_rows fs
good_rows (scan_failed err ∷ fs) = []

abbrev pub first_error : List Fetch → Option SqlError
first_error [] = none
first_error (scanned vs ∷ fs) = first_error fs
first_error (scan_failed err ∷ fs) = some err

-- A result for each row, in order, with the value of the last column of each name.
abbrev pub AreRows : List String → List (List Bytes) → List Row → Type 0
AreRows cs [] results = results ≡ []
AreRows cs (vs ∷ vss) [] = ⊥
AreRows cs (vs ∷ vss) (row ∷ results) =
    ((name : String) → lookup name row ≡ last_value name cs vs none) × AreRows cs vss results

read_rows_all :
    (cs : List String) (fs : List Fetch) (before : List Row)
    → (results : List Row) × (read_rows cs fs before ≡ (before ++ results, first_error fs))
      × AreRows cs (good_rows fs) results
unfolding read_rows lookup
read_rows_all cs [] before = ([], ap (λ r. (r, none)) (sym (append-nil before)), refl)
read_rows_all cs (scanned vs ∷ fs) before =
    let (results, reads, are) = read_rows_all cs fs (before ++ fill_row cs vs [] ∷ []) in
    (
      fill_row cs vs [] ∷ results,
      reads ∙ ap (λ r. (r, first_error fs)) (append_assoc before (fill_row cs vs [] ∷ []) results),
      ((λ name. lookup-fill_row name cs vs []), are),
    )
read_rows_all cs (scan_failed err ∷ fs) before =
    ([], ap (λ r. (r, some err)) (sym (append-nil before)), refl)

-- Select of an answer with rows returns a map for each row before the first Scan that failed, in their
-- order, in which each name of a column has the value of the last column of that name and no other name
-- has a value, together with the error of that Scan. An error that ended the rows early is not
-- returned.
pub select_reads :
    (cs : List String) (fs : List Fetch) (ended : Option SqlError)
    → (results : List Row) × (select (rows cs fs ended) ≡ (some results, first_error fs))
      × AreRows cs (good_rows fs) results
unfolding select
select_reads cs fs ended =
    let (results, reads, are) = read_rows_all cs fs [] in
    (results, ap (λ r. (some r.0, r.1)) reads, are)
