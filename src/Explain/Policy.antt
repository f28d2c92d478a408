-- ===== src/Explain/Policy.antt =====
-- What explain/explain.go explains, and which findings it keeps: the options, `validate` and
-- `applyProfile`.
pub mod Accepted
use sqlguard.Prelude.{
  ℕ, Bool, true, false, ◌||◌, List, [], ◌∷◌, Option, none, some, Bytes, codes, equal, ◌==◌,
  if◌then◌else◌, ◌⊎◌, inl, inr,
}
use sqlguard.Analyzer.Types.{
  Severity, StmtKind, stmt_unknown, stmt_select, stmt_insert, stmt_update, stmt_delete, stmt_other,
  Dialect, dialect_unknown, Result,
}
use sqlguard.Analyzer.Settings.{or_default}
use sqlguard.Analyzer.Dialects.{parse_dialect}
use sqlguard.Analyzer.Lexer.Space.{trim_space}
use sqlguard.Analyzer.Lexer.Cases.{to_lower}
use sqlguard.Analyzer.Lexer.Fingerprint.{trim_right, fingerprint}
use sqlguard.Analyzer.Fallback.{parse}
use sqlguard.Analyzer.Fallback.Blank.{is_multi_statement}
use sqlguard.Analyzer.Engine.{Analyzer, rule_enabled, rule_severity}

-- `PlanAnalyzer`. The database is an argument of the operations that use it, and of the analyzer
-- that fingerprints only the dialect is read.
pub record PlanAnalyzer : Type 0 where
  pub dialect : Bytes
  pub allow_dml : Bool
  pub rules : Option Analyzer
  pub literals : Dialect

-- An `Option` of the package; none is a nil analyzer.
pub data PlanOption : Type 0 where
  with_allow_dml : PlanOption
  with_analyzer : Option Analyzer → PlanOption

unfoldable pub apply_option : PlanAnalyzer → PlanOption → PlanAnalyzer
apply_option p with_allow_dml = record p { allow_dml = true }
apply_option p (with_analyzer a) = record p { rules = a }

unfoldable pub apply_plan_options : PlanAnalyzer → List PlanOption → PlanAnalyzer
unfolding apply_option
apply_plan_options p [] = p
apply_plan_options p (o ∷ options) = apply_plan_options (apply_option p o) options

-- The errors of the package, without those that they wrap.
pub data PlanError : Type 0 where
  nil_database unsupported_dialect : PlanError
  empty_query multi_statement refused_dml refused_statement : PlanError
  no_transaction explain_failed bad_json no_columns scan_failed rows_failed : PlanError
  missing_column : Bytes → PlanError

abbrev pub is_postgres : Bytes → Bool
is_postgres dialect = equal dialect (codes "postgres")

abbrev pub is_mysql : Bytes → Bool
is_mysql dialect = equal dialect (codes "mysql")

-- `New`; the first argument says whether there is a database.
unfoldable pub new_plan_analyzer : Bool → Bytes → List PlanOption → PlanError ⊎ PlanAnalyzer
unfolding to_lower equal parse_dialect or_default apply_plan_options
new_plan_analyzer false name options = inl nil_database
new_plan_analyzer true name options =
    let dialect = to_lower name in
    let p : PlanAnalyzer = record {
      dialect = dialect;
      allow_dml = false;
      rules = none;
      literals = or_default (parse_dialect dialect) dialect_unknown;
    } in
    if is_postgres dialect || is_mysql dialect
    then inr (apply_plan_options p options)
    else inl unsupported_dialect

unfoldable pub is_dml : StmtKind → Bool
is_dml stmt_insert = true
is_dml stmt_update = true
is_dml stmt_delete = true
is_dml _ = false

abbrev pub is_cut : ℕ → Bool
is_cut c = c == b';' || c == b' ' || c == b'\t' || c == b'\r' || c == b'\n'

-- The text that is explained.
unfoldable pub stripped : Bytes → Bytes
unfolding trim_space trim_right
stripped query = trim_right is_cut (trim_space query)

-- The last step of `validate`.
unfoldable pub accept : PlanAnalyzer → Bytes → StmtKind → PlanError ⊎ (Bytes × StmtKind)
accept p q stmt_select = inr (q, stmt_select)
accept p q stmt_insert = if p.allow_dml then inr (q, stmt_insert) else inl refused_dml
accept p q stmt_update = if p.allow_dml then inr (q, stmt_update) else inl refused_dml
accept p q stmt_delete = if p.allow_dml then inr (q, stmt_delete) else inl refused_dml
accept p q stmt_other = inl refused_statement
accept p q stmt_unknown = inl refused_statement

unfoldable pub validate : PlanAnalyzer → Bytes → PlanError ⊎ (Bytes × StmtKind)
unfolding trim_space equal is_multi_statement stripped accept parse
validate p query =
    if equal (trim_space query) []
    then inl empty_query
    else if is_multi_statement (trim_space query)
    then inl multi_statement
    else accept p (stripped query) (parse (stripped query)).kind

abbrev with_severity : Result → Severity → Result
with_severity r severity = record r { severity = severity }

unfoldable pub keep_enabled : Analyzer → List Result → List Result
unfolding rule_enabled rule_severity
keep_enabled a [] = []
keep_enabled a (r ∷ issues) =
    let kept = keep_enabled a issues in
    if rule_enabled a r.rule_name
    then with_severity r (rule_severity a r.rule_name r.severity) ∷ kept
    else kept

unfoldable pub apply_profile : PlanAnalyzer → List Result → List Result
unfolding keep_enabled
apply_profile p issues = elim p.rules [ none ↦ issues | some a ↦ keep_enabled a issues ]

-- The loop that sets the fingerprint.
unfoldable pub set_fingerprint : Bytes → List Result → List Result
set_fingerprint fp [] = []
set_fingerprint fp (r ∷ issues) = record r { fingerprint = fp } ∷ set_fingerprint fp issues
