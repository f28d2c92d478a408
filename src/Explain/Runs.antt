-- ===== src/Explain/Runs.antt =====
-- The runs of `EXPLAIN` of explain/explain.go. The database is a parameter: what it replies to each
-- call. A run gives the calls in their order, with the deferred ones, beside its result and error.
pub mod Sessions
pub mod Table
pub mod Findings
use sqlguard.Prelude.{
  ℕ, suc, Bool, true, false, not, List, [], ◌∷◌, ◌++◌, Option, none, some, Bytes, codes, Map,
  lookup, insert, get_elem?, equal, if◌then◌else◌, ◌⊎◌, inl, inr,
}
use sqlguard.Analyzer.Types.{StmtKind, Dialect, Result}
use sqlguard.Analyzer.Registry.{Registry}
use sqlguard.Analyzer.Settings.{or_default}
use sqlguard.Analyzer.Lexer.Cases.{to_lower}
use sqlguard.Analyzer.Lexer.Fingerprint.{fingerprint}
use sqlguard.Explain.Plans.{PgPlanNode, walk_pg_plan, mysql_row_issues}
use sqlguard.Explain.Policy.{
  PlanAnalyzer, PlanError, unsupported_dialect, no_transaction, explain_failed, bad_json,
  no_columns, scan_failed, rows_failed, missing_column, is_postgres, is_mysql, is_dml, validate,
  apply_profile, set_fingerprint,
}

-- A call of the database.
pub data Event : Type 0 where
  begin_tx : Bool → Event
  run_query : Bytes → Event
  close_rows rollback : Event

-- The `Result` of the package.
pub record Report : Type 0 where
  pub query : Bytes
  pub raw_plan : Bytes
  pub issues : List Result

-- The calls, the result where it is not nil, and the error where it is not nil.
abbrev pub PlanRun : Type 0
PlanRun = List Event × Option Report × Option PlanError

-- The rows of a reply: the names of the columns, the cells of each row up to the first that does
-- not scan, which is none, and whether reading them ends in an error. A NULL is an empty cell.
pub record Rows : Type 0 where
  pub columns : Option (List Bytes)
  pub cells : List (Option (List Bytes))
  pub fails : Bool

pub record Database : Type 0 where
  pub begins : Bool → Bool
  pub query_row : Bytes → Option Bytes
  pub query_rows : Bytes → Option Rows
  pub decode_plans : Bytes → Option (List PgPlanNode)

abbrev failed : List Event → PlanError → PlanRun
failed events err = (events, none, some err)

abbrev plan_report : Bytes → Bytes → List Result → Report
plan_report query plan issues = record { query = query; raw_plan = plan; issues = issues }

abbrev pub plan_issues : Registry → Bytes → List PgPlanNode → List Result
plan_issues registry query [] = []
plan_issues registry query (plan ∷ _) = walk_pg_plan registry plan query []

-- What `analyzePostgres` makes of the plan's text.
unfoldable pub read_plan :
    Registry → Bytes → Bytes → Option (List PgPlanNode) → Option Report × Option PlanError
unfolding walk_pg_plan
read_plan registry query raw none = (some (plan_report query raw []), some bad_json)
read_plan registry query raw (some plans) =
    (some (plan_report query raw (plan_issues registry query plans)), none)

unfoldable pub analyze_postgres : Registry → Database → Bytes → PlanRun
unfolding read_plan
analyze_postgres registry db query =
    let sql = codes "EXPLAIN (FORMAT JSON) " ++ query in
    let events = begin_tx true ∷ run_query sql ∷ rollback ∷ [] in
    if not (db.begins true)
    then failed (begin_tx true ∷ []) no_transaction
    else elim (db.query_row sql) [
      | none ↦ failed events explain_failed
      | some raw ↦
          let (res, err) = read_plan registry query raw (db.decode_plans raw) in (events, res, err)
    ]

-- The position of each column, by its name in lower case: of equal names the last.
unfoldable pub index_columns : ℕ → List Bytes → Map ℕ → Map ℕ
unfolding insert to_lower
index_columns i [] index = index
index_columns i (c ∷ cols) index = index_columns (suc i) cols (insert (to_lower c) i index)

abbrev pub wanted : List Bytes
wanted = codes "table" ∷ codes "type" ∷ codes "key" ∷ codes "possible_keys" ∷ codes "extra" ∷ []

unfoldable pub first_missing : Map ℕ → List Bytes → Option Bytes
unfolding lookup
first_missing index [] = none
first_missing index (want ∷ wants) = elim (lookup want index) [
  | none ↦ some want
  | some _ ↦ first_missing index wants
]

abbrev pub cell_at : List Bytes → Option ℕ → Bytes
cell_at cells none = []
cell_at cells (some i) = or_default (get_elem? cells i) []

-- The closure `col`.
unfoldable pub cell : Map ℕ → List Bytes → Bytes → Bytes
unfolding lookup or_default
cell index cells name = cell_at cells (lookup name index)

-- The loop over the rows, and the error that ends it.
unfoldable pub read_rows :
    Registry
    → Bytes
    → Map ℕ
    → Bool
    → List (Option (List Bytes))
    → List Result
    → List Result × Option PlanError
unfolding cell mysql_row_issues
read_rows registry query index fails [] issues = (issues, if fails then some rows_failed else none)
read_rows registry query index fails (none ∷ rows) issues = (issues, some scan_failed)
read_rows registry query index fails (some cells ∷ rows) issues =
    read_rows registry query index fails rows
      (issues ++ mysql_row_issues registry query (cell index cells))

-- What `analyzeMySQL` makes of the rows, behind their columns.
unfoldable pub read_table : Registry → Bytes → Rows → Map ℕ → Option Report × Option PlanError
unfolding first_missing read_rows
read_table registry query rows index = elim (first_missing index wanted) [
  | some want ↦ (none, some (missing_column want))
  | none ↦
      let (issues, err) = read_rows registry query index rows.fails rows.cells [] in
      (some (plan_report query [] issues), err)
]

abbrev pub read_columns :
    Registry → Bytes → Rows → Option (List Bytes) → Option Report × Option PlanError
read_columns registry query rows none = (none, some no_columns)
read_columns registry query rows (some cols) =
    read_table registry query rows (index_columns 0 cols [])

unfoldable pub analyze_mysql : Registry → Database → Bytes → Bool → PlanRun
unfolding read_table index_columns
analyze_mysql registry db query dml =
    let sql = codes "EXPLAIN FORMAT=TRADITIONAL " ++ query in
    let read_only = not dml in
    if not (db.begins read_only)
    then failed (begin_tx read_only ∷ []) no_transaction
    else elim (db.query_rows sql) [
      | none ↦ failed (begin_tx read_only ∷ run_query sql ∷ rollback ∷ []) explain_failed
      | some rows ↦
          let (res, err) = read_columns registry query rows rows.columns in
          (begin_tx read_only ∷ run_query sql ∷ close_rows ∷ rollback ∷ [], res, err)
    ]

-- The end of `Analyze`: the profile and the fingerprint.
unfoldable pub complete : PlanAnalyzer → Bytes → Option Report → Option Report
unfolding apply_profile set_fingerprint fingerprint
complete p query none = none
complete p query (some res) = some (record res {
  issues = set_fingerprint (fingerprint query p.literals) (apply_profile p res.issues);
})

abbrev pub completed : PlanAnalyzer → Bytes → PlanRun → PlanRun
completed p query (events, res, err) = (events, complete p query res, err)

-- The switch of `Analyze` over the dialect.
abbrev pub run_dialect : Registry → Database → PlanAnalyzer → Bytes → Bytes × StmtKind → PlanRun
run_dialect registry db p query (safe, kind) =
    if is_postgres p.dialect
    then completed p query (analyze_postgres registry db safe)
    else if is_mysql p.dialect
    then completed p query (analyze_mysql registry db safe (is_dml kind))
    else failed [] unsupported_dialect

unfoldable pub analyze_plan : Registry → Database → PlanAnalyzer → Bytes → PlanRun
unfolding validate analyze_postgres analyze_mysql equal complete is_dml
analyze_plan registry db p query = elim (validate p query) [
  | inl err ↦ failed [] err
  | inr accepted ↦ run_dialect registry db p query accepted
]
