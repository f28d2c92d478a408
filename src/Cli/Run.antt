-- ===== src/Cli/Run.antt =====
-- The commands of cmd/sqlguard/: `runScan` and `scanDir` of scan.go, root.go and main.go.
-- A value none is a `Discover` that is out of fuel, which it never is.
pub mod Configured
pub mod Exit
use sqlguard.Prelude.{
  ℕ, Bool, true, false, not, ◌&&◌, List, [], ◌∷◌, ◌++◌, Option, none, some, Bytes, codes, equal,
  length, ℤ, map, if◌then◌else◌, ◌⊎◌, inl, inr,
}
use sqlguard.Analyzer.Types.{Statement, Result}
use sqlguard.Analyzer.Registry.{Registry}
use sqlguard.Analyzer.Engine.{Analyzer}
use sqlguard.Config.Warnings.{Warning}
use sqlguard.Config.Profile.{Config}
use sqlguard.Config.Load.{
  Files, ConfigError, Loaded, Discovery, default_config, load, discover, config_analyzer,
  exclude_matcher,
}
use sqlguard.Explain.Policy.{
  PlanOption, with_analyzer, with_allow_dml, PlanAnalyzer, PlanError, new_plan_analyzer,
}
use sqlguard.Explain.Runs.{Database, Report, PlanRun, analyze_plan}
use sqlguard.Cli.Paths.{PathLib, trim_pattern_suffix, warns_dots_directory}
use sqlguard.Cli.Scan.{Package, Entry, Position, Scanned, scan_via_packages, scan_via_ast}
use sqlguard.Cli.Report.{
  CliError, unknown_format, issues_found, config_error, scan_failed, unresolved_path,
  unsupported_driver, no_connection, plan_error, Output, scan_summary, plan_summary, using_config,
  config_warning, dots_warning, open_database, ping_database, close_database, Reporter,
  new_reporter, report,
}

-- What a command printed, and its error or a value.
abbrev pub Run {ℓ} : Type ℓ → Type ℓ
Run A = List Output × (CliError ⊎ A)

abbrev pub resume {ℓ κ} :
    {A : Type ℓ} {B : Type κ} → List Output → CliError ⊎ A → (A → Run B) → Run B
resume outs (inl err) f = (outs, inl err)
resume outs (inr a) f = let (more, b) = f a in (outs ++ more, b)

infixl 5 ◌>>=◌
abbrev pub ◌>>=◌ {ℓ κ} : {A : Type ℓ} {B : Type κ} → Run A → (A → Run B) → Run B
(outs, a) >>= f = resume outs a f

abbrev pub printing : List Output → Run (Unit {0})
printing outs = (outs, inr tt)

abbrev pub returning {ℓ} : {A : Type ℓ} → CliError ⊎ A → Run A
returning a = ([], a)

-- The flags of both commands.
pub record Flags : Type 0 where
  pub config_path : Bytes
  pub no_config : Bool
  pub format : Bytes

-- The rest of the program and its surroundings.
pub record World : Type 0 where
  pub fallback : Bytes → Statement
  pub registry : Registry
  pub paths : PathLib
  pub files : Files
  pub compile : Bytes → Option (Bytes → Bool)
  pub parse_duration : Bytes → Option ℤ
  pub unquote : Bytes → Option Bytes
  pub position : ℕ → Position
  pub load_packages : Bytes → Option (List Package)
  pub tree : Bytes → Entry
  pub json_writes : List Result → List (Option Bytes)
  pub opens : Bytes → Bytes → Bool
  pub pings : Bytes → Bytes → Bool
  pub database : Bytes → Bytes → Database

-- The configuration with its warnings, and what finding it prints.
abbrev pub Found : Type 0
Found = Loaded × List Output

abbrev pub found_config : Option Discovery → Option Found
found_config none = none
found_config (some (inl err, path)) = some (inl err, [])
found_config (some (inr c, [])) = some (inr c, [])
found_config (some (inr c, b ∷ path)) = some (inr c, using_config (b ∷ path) ∷ [])

unfoldable pub resolve_config : Files → Flags → Bytes → Option (Loaded × List Output)
unfolding equal load discover
resolve_config files flags start_dir =
    if flags.no_config
    then some (inr (default_config, []), [])
    else if not (equal flags.config_path [])
    then some (load files flags.config_path, [])
    else found_config (discover files start_dir)

abbrev pub reporter_of : Bytes → Option Reporter → CliError ⊎ Reporter
reporter_of format none = inl (unknown_format format)
reporter_of format (some rep) = inr rep

abbrev pub config_of {ℓ} : {A : Type ℓ} → ConfigError ⊎ A → CliError ⊎ A
config_of (inl err) = inl (config_error err)
config_of (inr a) = inr a

abbrev pub print_config_warnings : List Warning → List Output
print_config_warnings ws = map config_warning ws

-- The analyzer, with the warnings printed behind it.
abbrev pub warned : Config → Analyzer × List Warning → Run (Config × Analyzer)
warned c (a, ws) = (print_config_warnings ws, inr (c, a))

abbrev pub configured : World → Config × List Warning → Run (Config × Analyzer)
configured w (c, ws) =
    returning (config_of (config_analyzer w.parse_duration w.fallback w.registry c ws)) >>= warned c

abbrev pub with_reporter : Reporter → Config × Analyzer → Run (Reporter × (Config × Analyzer))
with_reporter rep ca = returning (inr (rep, ca))

abbrev pub configured_for :
    World → Reporter → Config × List Warning → Run (Reporter × (Config × Analyzer))
configured_for w rep cw = configured w cw >>= with_reporter rep

abbrev pub loaded_for :
    World → Loaded × List Output → Reporter → Run (Reporter × (Config × Analyzer))
loaded_for w (loaded, outs) rep = (outs, config_of loaded) >>= configured_for w rep

-- What both commands do first: the reporter, the configuration and the analyzer.
abbrev pub prepare : World → Flags → Loaded × List Output → Run (Reporter × (Config × Analyzer))
prepare w flags found =
    returning (reporter_of flags.format (new_reporter flags.format)) >>= loaded_for w found

abbrev walked : Bool × Scanned → CliError ⊎ Scanned
walked (true, scanned) = inl scan_failed
walked (false, scanned) = inr scanned

abbrev or_walk : Option Scanned → Bool × Scanned → CliError ⊎ Scanned
or_walk (some scanned) other = inr scanned
or_walk none other = walked other

unfoldable pub scan_dir : World → Bytes → Analyzer → Option (Bytes → Bool) → CliError ⊎ Scanned
unfolding scan_via_packages scan_via_ast
scan_dir w dir a exclude = elim (w.paths.abs dir) [
  | none ↦ inl unresolved_path
  | some abs_dir ↦
      or_walk
        (scan_via_packages w.fallback a w.unquote w.position w.paths abs_dir exclude
          (w.load_packages abs_dir))
        (scan_via_ast w.fallback a w.unquote w.position w.paths abs_dir exclude (w.tree dir))
]

abbrev pub ended : List Output × Option CliError → Run (Unit {0})
ended (outs, none) = (outs, inr tt)
ended (outs, some err) = (outs, inl err)

abbrev pub report_scan : World → Flags → Reporter → Scanned → Run (Unit {0})
report_scan w flags rep (results, total) = ended (
    report w.json_writes rep flags.format results (scan_summary (length results) total ∷ [])
      (scan_summary 0 total ∷ []))

abbrev pub scan_excluding :
    World → Flags → Bytes → Reporter → Analyzer → Option (Bytes → Bool) → Run (Unit {0})
scan_excluding w flags dir rep a exclude =
    returning (scan_dir w dir a exclude) >>= report_scan w flags rep

abbrev pub scan_with : World → Flags → Bytes → Reporter × (Config × Analyzer) → Run (Unit {0})
scan_with w flags dir (rep, (c, a)) =
    returning (config_of (exclude_matcher w.compile c)) >>= scan_excluding w flags dir rep a

abbrev dots : World → Bytes → Bytes → List Output
dots w arg dir = if warns_dots_directory w.paths arg dir then dots_warning arg dir ∷ [] else []

-- The directory to scan, and the warning on it.
abbrev pub scan_target : World → Option Bytes → List Output × Bytes
scan_target w none = ([], codes ".")
scan_target w (some arg) = let dir = trim_pattern_suffix w.paths arg in (dots w arg dir, dir)

abbrev pub scan_from : World → Flags → List Output × Bytes → Option (Run (Unit {0}))
scan_from w flags (outs, dir) = elim (resolve_config w.files flags dir) [
  | none ↦ none
  | some found ↦ some (printing outs >>= λ _. (prepare w flags found >>= scan_with w flags dir))
]

unfoldable pub run_scan : World → Flags → Option Bytes → Option (Run (Unit {0}))
unfolding trim_pattern_suffix warns_dots_directory resolve_config new_reporter config_analyzer
    exclude_matcher scan_dir report
run_scan w flags arg = scan_from w flags (scan_target w arg)

-- `main`: the error to print, which findings are not, and the exit code.
unfoldable pub exit_code : CliError ⊎ Unit {0} → Option CliError × ℕ
exit_code (inr _) = (none, 0)
exit_code (inl issues_found) = (none, 1)
exit_code (inl err) = (some err, 1)
