-- ===== src/Cli/Explain.antt =====
-- `sqlguard explain`: cmd/sqlguard/explain.go and db.go.
pub mod Balance
pub mod Closed
use sqlguard.Prelude.{
  ℕ, Bool, true, false, not, ◌&&◌, List, [], ◌∷◌, ◌++◌, Option, none, some, Bytes, codes, equal,
  length, ℤ, map, if◌then◌else◌, ◌⊎◌, inl, inr,
}
use sqlguard.Analyzer.Types.{Statement, Result}
use sqlguard.Analyzer.Registry.{Registry}
use sqlguard.Analyzer.Engine.{Analyzer}
use sqlguard.Config.Warnings.{Warning}
use sqlguard.Config.Profile.{Config}
use sqlguard.Config.Load.{
  Files, ConfigError, Loaded, Discovery, default_config, load, discover, config_analyzer,
  exclude_matcher,
}
use sqlguard.Explain.Policy.{
  PlanOption, with_analyzer, with_allow_dml, PlanAnalyzer, PlanError, new_plan_analyzer,
}
use sqlguard.Explain.Runs.{Database, Report, PlanRun, analyze_plan}
use sqlguard.Cli.Paths.{PathLib, trim_pattern_suffix, warns_dots_directory}
use sqlguard.Cli.Scan.{Package, Entry, Position, Scanned, scan_via_packages, scan_via_ast}
use sqlguard.Cli.Report.{
  CliError, unknown_format, issues_found, config_error, scan_failed, unresolved_path,
  unsupported_driver, no_connection, plan_error, Output, scan_summary, plan_summary, using_config,
  config_warning, dots_warning, open_database, ping_database, close_database, Reporter,
  new_reporter, report,
}
use sqlguard.Cli.Run.{Run, ◌>>=◌, returning, World, Flags, prepare, resolve_config, ended}

-- The flags of the command.
pub record ExplainFlags : Type 0 where
  pub dsn : Bytes
  pub dialect : Bytes
  pub allow_dml : Bool

abbrev pub driver_name : Bytes → Option Bytes
driver_name dialect =
    if equal dialect (codes "postgres")
    then some (codes "pgx")
    else if equal dialect (codes "mysql")
    then some (codes "mysql")
    else none

-- `openDB`; the database is closed where it cannot be reached.
unfoldable pub open_db : World → Bytes → Bytes → Run Bytes
unfolding equal
open_db w dialect dsn = elim (driver_name dialect) [
  | none ↦ ([], inl (unsupported_driver dialect))
  | some name ↦
      if not (w.opens name dsn)
      then (open_database name ∷ [], inl no_connection)
      else if w.pings name dsn
      then (open_database name ∷ ping_database name ∷ [], inr name)
      else (open_database name ∷ ping_database name ∷ close_database name ∷ [], inl no_connection)
]

abbrev pub explain_options : Bool → Analyzer → List PlanOption
explain_options true a = with_analyzer (some a) ∷ with_allow_dml ∷ []
explain_options false a = with_analyzer (some a) ∷ []

abbrev pub plan_of {ℓ} : {A : Type ℓ} → PlanError ⊎ A → CliError ⊎ A
plan_of (inl err) = inl (plan_error err)
plan_of (inr a) = inr a

-- The issues of a run, or its error.
abbrev pub plan_results : PlanRun → CliError ⊎ List Result
plan_results (events, res, some err) = inl (plan_error err)
plan_results (events, none, none) = inr []
plan_results (events, some res, none) = inr res.issues

abbrev pub report_plan : World → Flags → Reporter → List Result → Run (Unit {0})
report_plan w flags rep issues = ended (
    report w.json_writes rep flags.format issues (plan_summary (length issues) ∷ [])
      (plan_summary 0 ∷ []))

abbrev pub plan_with :
    World → Flags → ExplainFlags → Bytes → Reporter → Bytes → PlanAnalyzer → Run (Unit {0})
plan_with w flags explain query rep name p =
    returning (plan_results (analyze_plan w.registry (w.database name explain.dsn) p query))
    >>= report_plan w flags rep

abbrev pub explain_on :
    World → Flags → ExplainFlags → Bytes → Reporter → Analyzer → Bytes → Run (Unit {0})
explain_on w flags explain query rep a name =
    returning
      (plan_of (new_plan_analyzer true explain.dialect (explain_options explain.allow_dml a)))
    >>= plan_with w flags explain query rep name

-- The database is closed at the end.
abbrev pub closing : Bytes → Run (Unit {0}) → Run (Unit {0})
closing name (outs, a) = (outs ++ close_database name ∷ [], a)

abbrev pub explain_with :
    World → Flags → ExplainFlags → Bytes → Reporter × (Config × Analyzer) → Run (Unit {0})
explain_with w flags explain query (rep, (c, a)) = open_db w explain.dialect explain.dsn >>= λ name.
    closing name (explain_on w flags explain query rep a name)

unfoldable pub run_explain : World → Flags → ExplainFlags → Bytes → Option (Run (Unit {0}))
unfolding resolve_config new_reporter config_analyzer open_db new_plan_analyzer analyze_plan report
run_explain w flags explain query = elim (resolve_config w.files flags (codes ".")) [
  | none ↦ none
  | some found ↦ some (prepare w flags found >>= explain_with w flags explain query)
]
