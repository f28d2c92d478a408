-- ===== src/Explain/Runs/Table.antt =====
-- How `analyzeMySQL` of explain/explain.go reads the rows: by the names of their columns.
use sqlguard.Analyzer.Settings.{or_default}
use sqlguard.Prelude.{
  codes, get_elem?, subst, ℕ, suc, ◌≡◌, refl, sym, ap, ◌∙◌, ◌≢◌, ◌↔◌, Bool, true, false, List, [],
  ◌∷◌, ◌++◌, Option, none, some, Bytes, Map, All, lookup, insert, lookup-insert, equal,
  Option-cases, inl, inr, if◌then◌else◌, map, append_assoc, append_nil, arith,
}
use sqlguard.Analyzer.Types.{Result}
use sqlguard.Analyzer.Registry.{Registry}
use sqlguard.Analyzer.Lexer.Cases.{to_lower}
use sqlguard.Explain.Plans.{mysql_row_issues}
use sqlguard.Explain.Policy.{rows_failed}
use sqlguard.Explain.Runs.{
  Report, Rows, index_columns, first_missing, wanted, cell, cell_at, read_rows, read_table,
}

-- The issues of the rows, in their order, where `col` reads the cells of a row by name.
unfoldable pub rows_issues :
    Registry → Bytes → (List Bytes → Bytes → Bytes) → List (List Bytes) → List Result
unfolding mysql_row_issues
rows_issues registry query col [] = []
rows_issues registry query col (cells ∷ rows) =
    mysql_row_issues registry query (col cells) ++ rows_issues registry query col rows

-- The position of the last column of that name, letter case aside, counted from `i`.
unfoldable pub last_position : Bytes → ℕ → List Bytes → Option ℕ
unfolding to_lower equal
last_position name i [] = none
last_position name i (c ∷ cols) =
    let here = if equal (to_lower c) name then some i else none in
    elim (last_position name (suc i) cols) [ none ↦ here | some j ↦ some j ]

abbrev or_else : Option ℕ → Option ℕ → Option ℕ
or_else none o = o
or_else (some j) o = some j

lookup-index_columns :
    (name : Bytes) (i : ℕ) (cols : List Bytes) (index : Map ℕ)
    → lookup name (index_columns i cols index)
      ≡ or_else (last_position name i cols) (lookup name index)
unfolding index_columns last_position
lookup-index_columns name i [] index = refl
lookup-index_columns name i (c ∷ cols) index = ground (
  arith,
  lookup-index_columns name (suc i) cols (insert (to_lower c) i index),
  lookup-insert (to_lower c) name i index,
)

lookup-last_position :
    (name : Bytes) (cols : List Bytes)
    → lookup name (index_columns 0 cols []) ≡ last_position name 0 cols
unfolding lookup
lookup-last_position name cols = ground (arith, lookup-index_columns name 0 cols [])

-- Each column is there, by its name.
abbrev pub HasColumns : List Bytes → List Bytes → Type 0
HasColumns cols wants = All (λ want. last_position want 0 cols ≢ none) wants

first_missing-HasColumns :
    (cols wants : List Bytes)
    → (first_missing (index_columns 0 cols []) wants ≡ none) ↔ HasColumns cols wants
unfolding first_missing
first_missing-HasColumns cols [] = ground arith
first_missing-HasColumns cols (want ∷ wants) =
    ground (arith, first_missing-HasColumns cols wants, lookup-last_position want cols)

read_rows-rows_issues :
    (registry : Registry) (query : Bytes) (index : Map ℕ) (fails : Bool) (rows : List (List Bytes))
    (issues : List Result)
    → read_rows registry query index fails (map some rows) issues ≡ (
      issues ++ rows_issues registry query (cell index) rows,
      if fails then some rows_failed else none,
    )
unfolding read_rows rows_issues
read_rows-rows_issues registry query index fails [] issues = rw (append_nil issues) refl
read_rows-rows_issues registry query index fails (cells ∷ rows) issues =
    let own = mysql_row_issues registry query (cell index cells) in
    rw (sym (append_assoc issues own (rows_issues registry query (cell index) rows)))
      (read_rows-rows_issues registry query index fails rows (issues ++ own))

-- Every row was read, and the list of them ended without an error.
abbrev pub IsRead : Rows → List (List Bytes) → Type 0
IsRead rows all = (rows.cells ≡ map some all) × (rows.fails ≡ false)

abbrev Whole : List (Option (List Bytes)) → Bool → Type 0
Whole cells fails = (all : List (List Bytes)) × ((cells ≡ map some all) × (fails ≡ false))

read_rows-Whole :
    (registry : Registry) (query : Bytes) (index : Map ℕ) (fails : Bool)
    (cells : List (Option (List Bytes))) (issues : List Result)
    → (read_rows registry query index fails cells issues).1 ≡ none
    → Whole cells fails
unfolding read_rows
read_rows-Whole registry query index false [] issues e = ([], (refl, refl))
read_rows-Whole registry query index true [] issues e = ground (arith, e)
read_rows-Whole registry query index fails (none ∷ cells) issues e = ground (arith, e)
read_rows-Whole registry query index fails (some row ∷ cells) issues e =
    let on = issues ++ mysql_row_issues registry query (cell index row) in
    let (all, (same, ended)) = read_rows-Whole registry query index fails cells on e in
    (row ∷ all, (ap (◌∷◌ (some row)) same, ended))

-- A result with the issues of every row.
abbrev pub IsComplete :
    Registry
    → Bytes
    → Rows
    → (List Bytes → Bytes → Bytes)
    → Option Report
    → List (List Bytes)
    → Type 0
IsComplete registry query rows col res all =
    IsRead rows all
    × (res
        ≡ some
            (record { query = query; raw_plan = []; issues = rows_issues registry query col all }))

read_table-IsRead :
    (registry : Registry) (query : Bytes) (rows : Rows) (index : Map ℕ) (all : List (List Bytes))
    → first_missing index wanted ≡ none
    → IsRead rows all
    → read_table registry query rows index ≡ (
      some (record {
        query = query;
        raw_plan = [];
        issues = rows_issues registry query (cell index) all;
      }),
      none,
    )
unfolding read_table
read_table-IsRead registry query rows index all h (same, ended) =
    rw (read_table, h, same, ended, read_rows-rows_issues registry query index false all []) refl

read_table-first_missing :
    (registry : Registry) (query : Bytes) (rows : Rows) (index : Map ℕ)
    → (read_table registry query rows index).1 ≡ none
    → (first_missing index wanted ≡ none) × Whole rows.cells rows.fails
unfolding read_table
read_table-first_missing registry query rows index =
    elim (Option-cases (first_missing index wanted)) [
      | inl all ↦
          rw (read_table, all)
            (λ e. (refl, read_rows-Whole registry query index rows.fails rows.cells [] e))
      | inr (want, missing) ↦ rw (read_table, missing) (λ e. ground (arith, e))
    ]

read_table_indexed :
    (registry : Registry) (query : Bytes) (rows : Rows) (cols : List Bytes) (res : Option Report)
    → (read_table registry query rows (index_columns 0 cols []) ≡ (res, none)) ↔ (
        HasColumns cols wanted
        × ((all : List (List Bytes)) × IsComplete registry query rows
              (cell (index_columns 0 cols []))
              res
              all))
read_table_indexed registry query rows cols res =
    let index = index_columns 0 cols [] in
    (
      λ e.
          let (columns, (all, read)) =
            read_table-first_missing registry query rows index (ap (λ p. p.1) e) in
          (
            (first_missing-HasColumns cols wanted).0 columns,
            (
              all,
              (
                read,
                sym (ap (λ p. p.0) e)
                    ∙ ap (λ p. p.0) (read_table-IsRead registry query rows index all columns read),
              ),
            ),
          ),
      λ (columns, (all, (read, whole))). rw whole (
          read_table-IsRead registry query rows index all
            ((first_missing-HasColumns cols wanted).1 columns) read),
    )

-- The columns that the rules need.
abbrev pub needed : List Bytes
needed = codes "table" ∷ codes "type" ∷ codes "key" ∷ codes "possible_keys" ∷ codes "extra" ∷ []

-- The cell of a row at that position, empty where the row is shorter, and at the last column of that
-- name, empty where there is none.
abbrev cell_from : List Bytes → Option ℕ → Bytes
cell_from cells none = []
cell_from cells (some i) = elim (get_elem? cells i) [ none ↦ [] | some c ↦ c ]

abbrev pub cell_of : List Bytes → List Bytes → Bytes → Bytes
cell_of cols cells name = cell_from cells (last_position name 0 cols)

cell-cell_of :
    (cols cells : List Bytes) (name : Bytes)
    → cell (index_columns 0 cols []) cells name ≡ cell_of cols cells name
unfolding cell or_default
cell-cell_of cols cells name = rw (lookup-last_position name cols) (go (last_position name 0 cols))
  where
    go : (o : Option ℕ) → cell_at cells o ≡ cell_from cells o
    go none = refl
    go (some i) = here (get_elem? cells i)
      where
        here : (c : Option Bytes) → or_default c [] ≡ elim c [ none ↦ [] | some c ↦ c ]
        here none = refl
        here (some c) = refl

-- The rows of a MySQL plan give a result without an error exactly if every column that the rules
-- need is among the columns, letter case aside, every row scans and reading them ends without an
-- error; and then the issues are those of each row, in the order of the rows, where a cell is read
-- at the last column of its name.
pub read_table_lem :
    (registry : Registry) (query : Bytes) (rows : Rows) (cols : List Bytes) (res : Option Report)
    → (read_table registry query rows (index_columns 0 cols []) ≡ (res, none)) ↔ (
        HasColumns cols needed
        × ((all : List (List Bytes)) × IsComplete registry query rows (cell_of cols) res all))
read_table_lem registry query rows cols res =
    subst
      (λ col. (read_table registry query rows (index_columns 0 cols []) ≡ (res, none)) ↔ (
        HasColumns cols wanted
        × ((all : List (List Bytes)) × IsComplete registry query rows col res all)))
      (λ i cells name. cell-cell_of cols cells name i)
      (read_table_indexed registry query rows cols res)
