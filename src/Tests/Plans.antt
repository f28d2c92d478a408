-- ===== src/Tests/Plans.antt =====
-- The analysis of plans at concrete replies of a database: explain/explain.go.
use sqlguard.Prelude.{
  false, ◌≡◌, refl, ◌↔◌, true, List, [], ◌∷◌, ◌++◌, none, some, Bytes, codes, pos,
}
use sqlguard.Analyzer.Types.{Float, dialect_mysql, dialect_postgres}
use sqlguard.Analyzer.Registry.{builtin}
use sqlguard.Explain.Plans.{PgPlanNode, node, leaf, branch, walk_pg_plan, parse_int}
use sqlguard.Explain.Plans.Preorder.{nodes_of, issues_of, walk_pg_plan_lem}
use sqlguard.Explain.Policy.{PlanAnalyzer}
use sqlguard.Explain.Runs.{
  begin_tx, run_query, close_rows, rollback, Database, Rows, analyze_plan, read_table,
  index_columns,
}
use sqlguard.Explain.Runs.Sessions.{IsSafe, analyze_plan-IsSafe}
use sqlguard.Explain.Runs.Table.{needed, cell_of, HasColumns, IsComplete, read_table_lem}

abbrev cost : Float
cost = record { negative = false; mantissa = 20001; exponent = pos 0 }

abbrev plan : PgPlanNode
plan =
    node (codes "Limit") cost (pos 1) (branch (node (codes "Seq Scan") cost (pos 2000) leaf) leaf)

abbrev columns : List Bytes
columns =
    codes "Table"
    ∷ codes "type"
    ∷ codes "KEY"
    ∷ codes "possible_keys"
    ∷ codes "Extra"
    ∷ codes "rows"
    ∷ []

abbrev cells : List Bytes
cells =
    codes "users" ∷ codes "ALL" ∷ [] ∷ [] ∷ codes "Using where; Using filesort" ∷ codes "12" ∷ []

abbrev rows : Rows
rows = record { columns = some columns; cells = some cells ∷ []; fails = false }

abbrev db : Database
db = record {
  begins = λ _. true;
  query_row = λ _. some (codes "[]");
  query_rows = λ _. some rows;
  decode_plans = λ _. some (plan ∷ []);
}

abbrev postgres : PlanAnalyzer
postgres = record {
  dialect = codes "postgres";
  allow_dml = false;
  rules = none;
  literals = dialect_postgres;
}

abbrev mysql : PlanAnalyzer
mysql = record { dialect = codes "mysql"; allow_dml = true; rules = none; literals = dialect_mysql }

abbrev query : Bytes
query = codes "SELECT a FROM users -- ;\n;"

deleted :
    (analyze_plan builtin db mysql (codes "DELETE FROM t")).0
    ≡ begin_tx false
      ∷ run_query (codes "EXPLAIN FORMAT=TRADITIONAL DELETE FROM t")
      ∷ close_rows
      ∷ rollback
      ∷ []
unfolding analyze_plan
deleted = refl

refused : (analyze_plan builtin db postgres (codes "DELETE FROM t")).0 ≡ []
unfolding analyze_plan
refused = refl

parsed : parse_int (codes "-12") ≡ parse_int (codes "-0012")
unfolding parse_int
parsed = refl

overflowed : parse_int (codes "99999999999999999999x") ≡ pos 9223372036854775807
unfolding parse_int
overflowed = refl

walk_pg_plan_lem_example :
    walk_pg_plan builtin plan query [] ≡ [] ++ issues_of builtin query (nodes_of plan)
walk_pg_plan_lem_example = walk_pg_plan_lem builtin plan query []

analyze_plan-IsSafe_example : IsSafe db postgres query (analyze_plan builtin db postgres query).0
analyze_plan-IsSafe_example = analyze_plan-IsSafe builtin db postgres query

read_table_lem_example :
    (read_table builtin query rows (index_columns 0 columns []) ≡ (none, none)) ↔ (
      HasColumns columns needed
      × ((all : List (List Bytes)) × IsComplete builtin query rows (cell_of columns) none all))
read_table_lem_example = read_table_lem builtin query rows columns none
