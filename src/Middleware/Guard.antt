-- ===== src/Middleware/Guard.antt =====
-- The guard of middleware/guard.go over its cache, deduper and tracker. A step gives the new guard
-- and the calls of the reporter, in their order. A guard takes each of its locks in turn: a step
-- here is one caller's.
pub mod Uncached
pub mod Tracking
use sqlguard.Prelude.{
  ℕ, ◌+◌, ◌*◌, ◌/◌, Bool, true, false, not, ◌&&◌, List, [], ◌∷◌, ◌++◌, Option, none, some, Bytes,
  codes, lookup, ℤ, pos, negsuc, is_positive, le_count, if◌then◌else◌,
}
use sqlguard.Analyzer.Types.{Severity, warning, Statement, Result, slow_query_message}
use sqlguard.Analyzer.Settings.{Settings, int_setting, duration_setting}
use sqlguard.Analyzer.Registry.{Registry, rule_default_severity_or}
use sqlguard.Analyzer.Engine.{
  Analyzer, with_parser, rule_enabled, rule_severity, rule_settings, prepare_query, analyze,
}
use sqlguard.Analyzer.Lexer.Fingerprint.{fingerprint}
use sqlguard.Middleware.Cache.{AnalysisCache, new_analysis_cache, get, put}
use sqlguard.Middleware.Dedup.{Deduper, new_deduper, allow}
use sqlguard.Middleware.Tracker.{QueryTracker, new_query_tracker, track_fingerprint, track, reset}
use sqlguard.Middleware.Options.{Options, Setter, default_options, resolve_dialect}

pub record FindingPolicy : Type 0 where
  pub enabled : Bool
  pub severity : Severity

pub record Guard : Type 0 where
  pub opts : Options
  pub tracker : Option QueryTracker
  pub deduper : Deduper
  pub cache : Option AnalysisCache
  pub slow_query : FindingPolicy

unfoldable pub resolve_policy : Registry → Analyzer → Bytes → FindingPolicy
unfolding rule_default_severity_or rule_enabled rule_severity
resolve_policy registry a name = record {
  enabled = rule_enabled a name;
  severity = rule_severity a name (rule_default_severity_or registry name warning);
}

unfoldable pub apply_options : List Setter → Options → Options
apply_options [] o = o
apply_options (opt ∷ opts) o = apply_options opts (opt o)

unfoldable pub apply_parser : (Bytes → Statement) → Options → Options
unfolding with_parser
apply_parser fallback o = elim (o.parser) [
  | none ↦ o
  | some p ↦ record o { analyzer = with_parser fallback o.analyzer (some p) }
]

unfoldable pub apply_slow_threshold : (Bytes → Option ℤ) → Options → Options
apply_slow_threshold parse_duration o =
    if not o.slow_threshold_set
    then record o {
      slow_threshold =
          duration_setting parse_duration (rule_settings o.analyzer (codes "slow-query"))
            (codes "threshold") o.slow_threshold;
    }
    else o

-- The settings of `n-plus-one`, none for nil.
unfoldable pub apply_n1_settings : (Bytes → Option ℤ) → Options → Option Settings → Options
apply_n1_settings parse_duration o none = o
apply_n1_settings parse_duration o (some s) =
    let threshold = int_setting s (codes "threshold") (pos 0) in
    let window = duration_setting parse_duration s (codes "window") (pos 0) in
    if is_positive threshold && is_positive window
    then record o { enable_n1 = true; n1_threshold = threshold; n1_window = window }
    else o

unfoldable pub resolve_options :
    (Bytes → Statement) → (Bytes → Option ℤ) → Registry → List Setter → Options
unfolding apply_options apply_parser resolve_dialect apply_slow_threshold apply_n1_settings lookup
resolve_options fallback parse_duration registry opts =
    let o = apply_options opts (default_options fallback registry) in
    let o = apply_slow_threshold parse_duration (resolve_dialect (apply_parser fallback o)) in
    if not o.n1_set
    then apply_n1_settings parse_duration o (lookup (codes "n-plus-one") o.analyzer.settings)
    else o

abbrev pub new_cache : ℤ → Option AnalysisCache
new_cache (pos n) = if is_positive (pos n) then some (new_analysis_cache n) else none
new_cache (negsuc n) = none

-- `NewGuard`, from the options as resolved.
unfoldable pub guard_of : Registry → Options → Guard
unfolding resolve_policy
guard_of registry o =
    let n1 = resolve_policy registry o.analyzer (codes "n-plus-one") in
    record {
      opts = o;
      deduper = new_deduper o.dedup_window;
      slow_query = resolve_policy registry o.analyzer (codes "slow-query");
      cache = new_cache o.cache_size;
      tracker =
          if o.enable_n1 && n1.enabled
          then some (new_query_tracker o.n1_threshold o.n1_window n1.severity)
          else none;
    }

unfoldable pub new_guard : (Bytes → Statement) → (Bytes → Option ℤ) → Registry → List Setter → Guard
unfolding resolve_options guard_of
new_guard fallback parse_duration registry opts =
    guard_of registry (resolve_options fallback parse_duration registry opts)

-- `analyze` behind the look into the cache: a hit, or a miss that is stored.
pub answer :
    (Bytes → Statement) → Guard → Bytes → AnalysisCache × Option (List Result) → Guard × List Result
answer fallback g query (c, some cached) = (record g { cache = some c }, cached)
answer fallback g query (c, none) =
    let results = analyze fallback g.opts.analyzer query in
    (record g { cache = some (put c query results) }, results)

pub analyze_with : (Bytes → Statement) → Guard → Bytes → Option AnalysisCache → Guard × List Result
unfolding answer
analyze_with fallback g query none = (g, analyze fallback g.opts.analyzer query)
analyze_with fallback g query (some c) = answer fallback g query (get c query)

unfoldable pub guard_analyze : (Bytes → Statement) → Guard → Bytes → Guard × List Result
unfolding analyze_with
guard_analyze fallback g query = analyze_with fallback g query g.cache

-- The loop of `report`.
unfoldable pub pass_dedup : Deduper → ℕ → List Result → Deduper × List Result
unfolding allow
pass_dedup d now [] = (d, [])
pass_dedup d now (r ∷ results) =
    let (d', allowed) = allow d r.fingerprint r.rule_name now in
    let (d'', kept) = pass_dedup d' now results in (d'', if allowed then r ∷ kept else kept)

-- A call of the reporter, where there is something to report.
abbrev pub reported_call : List Result → List (List Result)
reported_call [] = []
reported_call (r ∷ results) = (r ∷ results) ∷ []

unfoldable pub report : Guard → ℕ → List Result → Guard × List (List Result)
unfolding pass_dedup
report g now results =
    let (d, kept) = pass_dedup g.deduper now results in
    (record g { deduper = d }, reported_call kept)

unfoldable pub report_findings : Guard → ℕ → List Result → Guard × List (List Result)
unfolding report
report_findings g now [] = (g, [])
report_findings g now (r ∷ results) = report g now (r ∷ results)

-- The tracker is fed by the fingerprint of a finding, or else by its own.
unfoldable pub track_query :
    Guard → ℕ → Bytes → List Result → QueryTracker → QueryTracker × List Result
unfolding track_fingerprint fingerprint
track_query g now query [] qt = track (λ q. fingerprint q g.opts.analyzer.dialect) qt now query
track_query g now query (r ∷ results) qt = track_fingerprint qt now r.fingerprint

unfoldable pub feed_tracker :
    Guard → ℕ → Bytes → List Result → Option QueryTracker → Guard × List (List Result)
unfolding track_query
feed_tracker g now query results none = (g, [])
feed_tracker g now query results (some qt) =
    let (qt', findings) = track_query g now query results qt in
    (record g { tracker = some qt' }, reported_call findings)

-- `Check`: `now` is the clock as the report reads it, `later` as the tracker does.
unfoldable pub check : (Bytes → Statement) → Guard → ℕ → ℕ → Bytes → Guard × List (List Result)
unfolding guard_analyze report_findings feed_tracker
check fallback g now later query =
    let (g1, results) = guard_analyze fallback g query in
    let (g2, calls) = report_findings g1 now results in
    let (g3, calls') = feed_tracker g2 later query results g2.tracker in (g3, calls ++ calls')

-- `Round(time.Millisecond)` of a duration that is not negative.
abbrev pub round_millisecond : ℕ → ℕ
round_millisecond d = (d + 500000) / 1000000 * 1000000

abbrev pub slow_query_result : Guard → Bytes → ℕ → Result
slow_query_result g query elapsed =
    let prepared = prepare_query g.opts.analyzer query in
    record {
      rule_name = codes "slow-query";
      severity = g.slow_query.severity;
      query = prepared.0;
      fingerprint = prepared.1;
      message = slow_query_message (pos (round_millisecond elapsed)) g.opts.slow_threshold;
      suggestion = codes "Consider adding indexes or optimizing the query.";
      file = [];
      line = 0;
    }

-- `CheckLatency` changes no state; `time.Since` on one clock is not negative.
unfoldable pub check_latency : Guard → Bytes → ℕ → List (List Result)
check_latency g query elapsed =
    if g.slow_query.enabled && le_count g.opts.slow_threshold elapsed
    then reported_call (slow_query_result g query elapsed ∷ [])
    else []

abbrev pub reset_n1 : Guard → Guard
reset_n1 g = elim (g.tracker) [ none ↦ g | some qt ↦ record g { tracker = some (reset qt) } ]
