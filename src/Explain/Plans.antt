-- ===== src/Explain/Plans.antt =====
-- The plan rules of explain/explain.go, over what the database reports of a plan.
pub mod Preorder
use sqlguard.Prelude.{
  ℕ, zero, suc, ◌+◌, ◌-◌, ◌*◌, ◌^◌, Bool, true, false, not, ◌&&◌, ◌||◌, List, [], ◌∷◌, ◌++◌, Option,
  none, some, Bytes, codes, ℤ, pos, negsuc, ltb, leb, equal, if◌then◌else◌,
}
use sqlguard.Analyzer.Types.{
  Severity, warning, max_severity, Float, Message, seq_scan_message, high_cost_message,
  table_scan_message, table_message, Result,
}
use sqlguard.Analyzer.Lexer.Scan.{index_of}
use sqlguard.Analyzer.Registry.{Registry, rule_default_severity_or}

-- `planSeverity`.
unfoldable pub plan_severity : Registry → Bytes → Severity
unfolding rule_default_severity_or
plan_severity registry name = rule_default_severity_or registry name warning

-- `x > n`.
unfoldable pub float_exceeds : ℕ → Float → Bool
float_exceeds n x = not x.negative && elim (x.exponent) [
  | pos k ↦ ltb n (x.mantissa * 2 ^ k)
  | negsuc k ↦ ltb (n * 2 ^ suc k) x.mantissa
]

abbrev int_exceeds : ℕ → ℤ → Bool
int_exceeds n (pos k) = ltb n k
int_exceeds n (negsuc k) = false

abbrev issue : Bytes → Severity → Bytes → Message → Bytes → Result
issue rule severity query message suggestion = record {
  rule_name = rule;
  severity = severity;
  query = query;
  fingerprint = [];
  message = message;
  suggestion = suggestion;
  file = [];
  line = 0;
}

-- `pgPlanNode`: the type, the total cost, the rows and the children.
mutual
  pub data PgPlanNode : Type 0 where
    node : Bytes → Float → ℤ → PgPlanNodes → PgPlanNode

  pub data PgPlanNodes : Type 0 where
    leaf : PgPlanNodes
    branch : PgPlanNode → PgPlanNodes → PgPlanNodes

abbrev pub seq_scan_issue : Registry → Bytes → Float → ℤ → Result
seq_scan_issue registry query cost rows =
    let severity = plan_severity registry (codes "seq-scan") in
    issue (codes "seq-scan")
      (if int_exceeds 1000 rows then max_severity severity warning else severity) query
      (seq_scan_message rows cost) (codes "Consider adding an index to avoid full table scan.")

abbrev pub high_cost_issue : Registry → Bytes → Bytes → Float → Result
high_cost_issue registry query kind cost =
    issue (codes "high-cost") (plan_severity registry (codes "high-cost")) query
      (high_cost_message kind cost) (codes "Review query plan and consider optimization.")

-- What one node adds, in front of what its children add.
unfoldable pub node_issues : Registry → Bytes → Bytes → Float → ℤ → List Result
unfolding plan_severity float_exceeds equal
node_issues registry query kind cost rows =
    (if equal kind (codes "Seq Scan") then seq_scan_issue registry query cost rows ∷ [] else [])
    ++ (if float_exceeds 10000 cost then high_cost_issue registry query kind cost ∷ [] else [])

-- `walkPgPlan`, which appends to the issues found so far.
unfoldable mutual
  unfolding node_issues

  pub walk_pg_plan : Registry → PgPlanNode → Bytes → List Result → List Result
  walk_pg_plan registry (node kind cost rows plans) query issues =
      walk_pg_plans registry plans query (issues ++ node_issues registry query kind cost rows)

  pub walk_pg_plans : Registry → PgPlanNodes → Bytes → List Result → List Result
  walk_pg_plans registry leaf query issues = issues
  walk_pg_plans registry (branch plan plans) query issues =
      walk_pg_plans registry plans query (walk_pg_plan registry plan query issues)

-- `strconv.ParseInt(s, 10, 64)` with its error dropped: out of range, the nearest value. Reading
-- ends where the value leaves the 64 bits.
abbrev is_decimal : ℕ → Bool
is_decimal c = leb b'0' c && leb c b'9'

unfoldable pub digits_value : ℕ → Bytes → Option ℕ
digits_value n [] = some n
digits_value n (c ∷ s) =
    let n' = n * 10 + (c - b'0') in
    let on = digits_value n' s in
    if not (is_decimal c) then none else if ltb n' (2 ^ 64) then on else some n'

abbrev clamp_pos : Option ℕ → ℤ
clamp_pos none = pos 0
clamp_pos (some n) = if ltb n (2 ^ 63) then pos n else pos (2 ^ 63 - 1)

abbrev clamp_neg : Option ℕ → ℤ
clamp_neg none = pos 0
clamp_neg (some zero) = pos 0
clamp_neg (some (suc n)) = if ltb n (2 ^ 63) then negsuc n else negsuc (2 ^ 63 - 1)

abbrev unsigned : Bytes → Option ℕ
unsigned [] = none
unsigned (c ∷ s) = digits_value 0 (c ∷ s)

unfoldable pub parse_int : Bytes → ℤ
unfolding digits_value equal
parse_int [] = pos 0
parse_int (c ∷ s) =
    let positive = clamp_pos (unsigned s) in
    let negative = clamp_neg (unsigned s) in
    let plain = clamp_pos (unsigned (c ∷ s)) in
    elim (equal (c ∷ []) (codes "+")) [
      | true ↦ positive
      | false ↦ elim (equal (c ∷ []) (codes "-")) [ true ↦ negative | false ↦ plain ]
    ]

abbrev contains : Bytes → Bytes → Bool
contains s needle = elim (index_of needle s) [ none ↦ false | some _ ↦ true ]

abbrev opens_angle : Bytes → Bool
opens_angle [] = false
opens_angle (c ∷ _) = equal (c ∷ []) (codes "<")

abbrev is_unset : Bytes → Bool
is_unset s = equal s []

-- `mysqlRowIssues`; `col` gives a cell by its column's name.
unfoldable pub mysql_row_issues : Registry → Bytes → (Bytes → Bytes) → List Result
unfolding plan_severity equal parse_int index_of
mysql_row_issues registry query col =
    let table = col (codes "table") in
    let no_key = is_unset (col (codes "key")) && is_unset (col (codes "possible_keys")) in
    if is_unset table || opens_angle table
    then []
    else (if equal (col (codes "type")) (codes "ALL")
        then issue (codes "full-table-scan") (plan_severity registry (codes "full-table-scan"))
            query (table_scan_message table (parse_int (col (codes "rows"))))
            (codes "Consider adding an index to avoid full table scan.")
          ∷ []
        else [])
      ++ ((if no_key
            then issue (codes "no-index-used") (plan_severity registry (codes "no-index-used"))
                query (table_message (codes "No index used on table ") table)
                (codes "Consider adding an index on the filtered/joined columns.")
              ∷ []
            else [])
          ++ (if contains (col (codes "extra")) (codes "Using filesort")
              then issue (codes "filesort") (plan_severity registry (codes "filesort")) query
                  (table_message (codes "Filesort detected on table ") table)
                  (codes "Consider adding an index that covers the ORDER BY columns.")
                ∷ []
              else []))
