-- ===== src/Cli/Run/Exit.antt =====
-- How `runScan` of cmd/sqlguard/scan.go ends without an error.
use sqlguard.Prelude.{
  ℕ, Bool, true, false, List, [], ◌∷◌, Option, none, some, Bytes, codes, equal, length, ◌≡◌, refl,
  ap, subst, ◌∙◌, ◌⊎◌, inl, inr,
}
use mathlib.Core.Sum.{inr-injective}
use mathlib.Core.Option.{some_inj}
use sqlguard.Analyzer.Types.{Result}
use sqlguard.Analyzer.Engine.{Analyzer}
use sqlguard.Config.Warnings.{Warning}
use sqlguard.Config.Profile.{Config}
use sqlguard.Config.Load.{Loaded, ConfigError, config_analyzer, exclude_matcher}
use sqlguard.Cli.Report.{Output, Reporter, new_reporter, scan_summary, rendered, checked_verdict}
use sqlguard.Cli.Report.Policy.{policy, report-policy, first_failure}
use sqlguard.Cli.Run.Configured.{IsConfigured, resolve_config-IsConfigured}
use sqlguard.Cli.Run.{
  Run, ◌>>=◌, World, Flags, prepare, warned, configured, configured_for, with_reporter, loaded_for,
  scan_excluding, config_of, reporter_of, scan_dir, scan_with, report_scan, scan_target, ended,
  run_scan, resolve_config, returning, printing,
}

-- The value of a run that ends well.
abbrev pub Yields {ℓ} : {A : Type ℓ} → Run A → A → Type ℓ
Yields m a = m.1 ≡ inr a

-- A run that ends well does so in both of its parts.
pub Yields-bind {ℓ κ} :
    {A : Type ℓ} {B : Type κ} (m : Run A) (f : A → Run B) (b : B)
    → Yields (m >>= f) b
    → (a : A) × (Yields m a × Yields (f a) b)
Yields-bind (outs, inl err) f b h = cc
Yields-bind (outs, inr a) f b h = (a, (refl, h))

-- A policy that ends well has no results.
policy_clean :
    (json_writes : List Result → List (Option Bytes)) (json : Bool) (results : List Result)
    (found clean : List Output)
    → Yields (ended (policy json_writes json results found clean)) tt
    → results ≡ []
policy_clean json_writes json [] found clean h = refl
policy_clean json_writes false (r ∷ rs) found clean h = cc
policy_clean json_writes true (r ∷ rs) found clean h = step (first_failure (json_writes (r ∷ rs))) h
  where
    step :
        (o : Option Bytes)
        → Yields (ended (rendered (r ∷ rs) ∷ [], checked_verdict o (r ∷ rs))) tt
        → r ∷ rs ≡ []
    step none h' = cc
    step (some e) h' = cc

reporter_of-some :
    (format : Bytes) (o : Option Reporter) (rep : Reporter)
    → reporter_of format o ≡ inr rep
    → o ≡ some rep
reporter_of-some format none rep h = cc
reporter_of-some format (some r) rep h = ap some (inr-injective r rep h)

config_of-inr {ℓ} : {A : Type ℓ} (o : ConfigError ⊎ A) (x : A) → config_of o ≡ inr x → o ≡ inr x
config_of-inr (inl err) x h = cc
config_of-inr (inr y) x h = ap inr (inr-injective y x h)

-- What `prepare` yields: the reporter of the format, and an analyzer of the configuration.
pub prepare_lem :
    (w : World) (flags : Flags) (found : Loaded × List Output) (rep : Reporter) (c : Config)
    (a : Analyzer)
    → Yields (prepare w flags found) (rep, (c, a))
    → (ws ws' : List Warning) × ((new_reporter flags.format ≡ some rep)
        × ((found.0 ≡ inr (c, ws))
            × (config_analyzer w.parse_duration w.fallback w.registry c ws ≡ inr (a, ws'))))
prepare_lem w flags (loaded, outs) rep c a h =
    let (rep', (e, h')) =
      Yields-bind (returning (reporter_of flags.format (new_reporter flags.format)))
        (loaded_for w (loaded, outs)) (rep, (c, a)) h in
    let ((c', ws), (l, h'')) =
      Yields-bind (outs, config_of loaded) (configured_for w rep') (rep, (c, a)) h' in
    let (ca, (k, h''')) =
      Yields-bind (configured w (c', ws)) (with_reporter rep') (rep, (c, a)) h'' in
    let ((a', ws'), (g, k')) =
      Yields-bind
        (returning (config_of (config_analyzer w.parse_duration w.fallback w.registry c' ws)))
        (warned c') ca k in
    let same = inr-injective (rep', ca) (rep, (c, a)) h''' in
    let both = inr-injective (c', a') ca k' ∙ ap (λ p. p.1) same in
    (
      ws,
      ws',
      (
        reporter_of-some flags.format (new_reporter flags.format) rep (e ∙ ap (λ p. inr p.0) same),
        subst
            (λ (p : Config × Analyzer).
              (loaded ≡ inr (p.0, ws))
              × (config_analyzer w.parse_duration w.fallback w.registry p.0 ws ≡ inr (p.1, ws')))
            both
            (
              config_of-inr loaded (c', ws) l,
              config_of-inr (config_analyzer w.parse_duration w.fallback w.registry c' ws) (a', ws')
                  g,
            ),
      ),
    )

report_scan_clean :
    (w : World) (flags : Flags) (rep : Reporter) (results : List Result) (total : ℕ)
    → new_reporter flags.format ≡ some rep
    → Yields (report_scan w flags rep (results, total)) tt
    → results ≡ []
report_scan_clean w flags rep results total e h =
    let found = scan_summary (length results) total ∷ [] in
    let clean = scan_summary 0 total ∷ [] in
    policy_clean w.json_writes (equal flags.format (codes "json")) results found clean (
      subst (λ p. Yields (ended p) tt)
        (report-policy w.json_writes flags.format rep results found clean e) h)

-- The scan of a directory that found nothing.
abbrev pub IsClean : World → Bytes → Config → Analyzer → Type 0
IsClean w dir c a =
    (exclude : Option (Bytes → Bool)) × (total : ℕ) × ((exclude_matcher w.compile c ≡ inr exclude)
      × (scan_dir w dir a exclude ≡ inr ([], total)))

scan_with-IsClean :
    (w : World) (flags : Flags) (dir : Bytes) (rep : Reporter) (c : Config) (a : Analyzer)
    → new_reporter flags.format ≡ some rep
    → Yields (scan_with w flags dir (rep, (c, a))) tt
    → IsClean w dir c a
scan_with-IsClean w flags dir rep c a e h =
    let (exclude, (x, h')) =
      Yields-bind (returning (config_of (exclude_matcher w.compile c)))
        (scan_excluding w flags dir rep a) tt h in
    let ((results, total), (s, h'')) =
      Yields-bind (returning (scan_dir w dir a exclude)) (report_scan w flags rep) tt h' in
    (
      exclude,
      total,
      (
        config_of-inr (exclude_matcher w.compile c) exclude x,
        s ∙ ap (λ rs. inr (rs, total)) (report_scan_clean w flags rep results total e h''),
      ),
    )

-- `runScan` ends without an error only if the configuration that the flags and the files give, which
-- is the default one with `--no-config`, that of the file that `--config` names or that which is
-- found from the directory upwards, loaded and built an analyzer, its patterns are good, and the
-- scan of the directory with that analyzer gave no results: with a finding, with a configuration
-- that does not load, or without a scan, the command fails.
pub run_scan-IsClean :
    (w : World) (flags : Flags) (arg : Option Bytes) (outs : List Output)
    → run_scan w flags arg ≡ some (outs, inr tt)
    → (c : Config) × (a : Analyzer) × (ws ws' : List Warning) × (IsConfigured w flags
          (scan_target w arg).1
          c
          ws
        × ((config_analyzer w.parse_duration w.fallback w.registry c ws ≡ inr (a, ws'))
            × IsClean w (scan_target w arg).1 c a))
unfolding run_scan
run_scan-IsClean w flags arg outs h = step (resolve_config w.files flags dir) h refl
  where
    dir : Bytes
    dir = (scan_target w arg).1

    step :
        (o : Option (Loaded × List Output))
        → (elim o [
          | none ↦ none
          | some found ↦ some (
              printing (scan_target w arg).0 >>= λ _.
              (prepare w flags found >>= scan_with w flags dir))
        ])
          ≡ some (outs, inr tt)
        → resolve_config w.files flags dir ≡ o
        → (c : Config) × (a : Analyzer) × (ws ws' : List Warning) × (IsConfigured w flags dir c ws
            × ((config_analyzer w.parse_duration w.fallback w.registry c ws ≡ inr (a, ws'))
                × IsClean w dir c a))
    step none h' r = cc
    step (some found) h' r =
        let ((rep, (c, a)), (p, q)) =
          Yields-bind (prepare w flags found) (scan_with w flags dir) tt
            (ap (λ p. p.1) (some_inj.0 h')) in
        let (ws, ws', (e, (l, k))) = prepare_lem w flags found rep c a p in
        (
          c,
          a,
          ws,
          ws',
          (
            resolve_config-IsConfigured w flags dir found.1 c ws
                (r ∙ ap (λ l. some (l, found.1)) l),
            (k, scan_with-IsClean w flags dir rep c a e q),
          ),
        )
