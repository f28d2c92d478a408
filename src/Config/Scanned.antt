-- ===== src/Config/Scanned.antt =====
-- What `checkScanHasRules` of config/config.go promises of the analyzer that is built.
use sqlguard.Prelude.{
  subst, map, keep_if, ◌≢◌, ◌≡◌, refl, ℤ, ◌⊎◌, Bool, true, false, List, [], ◌∷◌, Option, none, some,
  Bytes, Map, Bool-cases, inl, inr, if◌then◌else◌, arith,
}
use sqlguard.Analyzer.Types.{Dialect}
use sqlguard.Analyzer.Settings.{Value, Settings}
use sqlguard.Analyzer.Registry.{RuleSpec, specs, is_evaluated, skip, Registry, Profile}
use sqlguard.Config.Warnings.{
  only_selects_nothing, nothing_scanned, Warning, Checked, ok, ◌>>=◌, ◌>>◌, warn,
}
use sqlguard.Config.Settings.{check_settings}
use sqlguard.Config.Profile.{
  all_skipped, evaluated_rule_names, name_of, raw_query, RulesConfig, check_name, collect_names,
  apply_severities, check_scan_has_rules, apply_settings, config_dialect, resolve, start,
  resolve_rules, settle, set_settings,
}
use sqlguard.Analyzer.Types.{Statement}
use sqlguard.Analyzer.Rules.{Rule}
use sqlguard.Analyzer.Engine.{bind_factory, bind_specs, default_with_profile}
use sqlguard.Config.Sound.{Holds, Ensures, >>=-Ensures, any}

-- A rule that the profile leaves, of those that run over statements, is bound.
bind_specs-all_skipped :
    (p : Profile) (registry : List RuleSpec)
    → all_skipped p (map name_of (keep_if is_evaluated registry)) ≡ false
    → bind_specs p registry ≢ []
unfolding all_skipped keep_if bind_specs bind_factory
bind_specs-all_skipped p [] h = ground (arith, h)
bind_specs-all_skipped p (spec ∷ registry) h =
    go spec.factory refl (bind_specs-all_skipped p registry)
  where
    go :
        (o : Option (Settings → Rule))
        → spec.factory ≡ o
        → (all_skipped p (map name_of (keep_if is_evaluated registry)) ≡ false
            → bind_specs p registry ≢ [])
        → bind_specs p (spec ∷ registry) ≢ []
    go none e others = ground (arith, others, h, e)
    go (some factory) e others = ground (arith, others, h, e)

-- No list of names was given, or a rule that runs over statements is left.
abbrev pub Scans : Registry → List Bytes → Profile → Type 0
Scans registry configured p =
    (configured ≡ []) ⊎ (all_skipped p (evaluated_rule_names registry) ≡ false)

module _ (registry : Registry) (parse_duration : Bytes → Option ℤ) where
  check_scan_has_rules-Scans :
      (configured : List Bytes) (p : Profile)
      → Ensures
          (λ _. Scans registry configured p)
          (check_scan_has_rules registry parse_duration true configured p)
  unfolding check_scan_has_rules
  check_scan_has_rules-Scans [] p ws = inl refl
  check_scan_has_rules-Scans (name ∷ names) p ws = by_only p.only
    where
      by_only :
          (only : Map Bool)
          → Holds
              (λ _. Scans registry (name ∷ names) p)
              ((elim only as (λ _. Checked (Unit {0})) [
                | [] ↦ warn true only_selects_nothing
                | _ ∷ _ ↦
                    if all_skipped p (evaluated_rule_names registry)
                    then warn true nothing_scanned
                    else ok tt
              ])
                ws)
      by_only [] = tt
      by_only (_ ∷ _) = elim (Bool-cases (all_skipped p (evaluated_rule_names registry))) [
        | inl none_left ↦ rw none_left tt
        | inr left ↦ rw left (inr refl)
      ]

  set_settings-all_skipped :
      (p : Profile) (name : Bytes) (kept : Settings) (names : List Bytes)
      → all_skipped (set_settings p name kept) names ≡ all_skipped p names
  unfolding all_skipped skip
  set_settings-all_skipped p name [] names = refl
  set_settings-all_skipped p name (entry ∷ kept) [] = refl
  set_settings-all_skipped p name (entry ∷ kept) (n ∷ names) =
      rw (set_settings-all_skipped p name (entry ∷ kept) names) refl

  settle-Scans :
      (strict : Bool) (configured : List Bytes) (p : Profile) (name : Bytes) (kv : Map Value)
      (usable : Bool)
      → Scans registry configured p
      → Ensures (Scans registry configured) (settle registry parse_duration strict p name kv usable)
  settle-Scans strict configured p name kv false scans = λ ws. scans
  settle-Scans strict configured p name kv true scans =
      >>=-Ensures (λ _. Unit) (Scans registry configured)
        (check_settings parse_duration strict name kv) (λ kept. ok (set_settings p name kept))
        (any (check_settings parse_duration strict name kv))
        (λ kept _ ws.
          rw (set_settings-all_skipped p name kept (evaluated_rule_names registry)) scans)

  apply_settings-Scans :
      (strict : Bool) (configured : List Bytes) (settings : Map (Map Value)) (p : Profile)
      → Scans registry configured p
      → Ensures
          (Scans registry configured)
          (apply_settings registry parse_duration strict settings p)
  unfolding apply_settings
  apply_settings-Scans strict configured [] p scans = λ ws. scans
  apply_settings-Scans strict configured ((name, kv) ∷ settings) p scans =
      >>=-Ensures (λ _. Unit) (Scans registry configured)
        (check_name registry parse_duration strict name)
        (λ usable.
          settle registry parse_duration strict p name kv usable
          >>= (λ p'. apply_settings registry parse_duration strict settings p'))
        (any (check_name registry parse_duration strict name))
        (λ usable _.
          >>=-Ensures (Scans registry configured) (Scans registry configured)
            (settle registry parse_duration strict p name kv usable)
            (λ p'. apply_settings registry parse_duration strict settings p')
            (settle-Scans strict configured p name kv usable scans)
            (λ p' scans'. apply_settings-Scans strict configured settings p' scans'))

  resolve_rules-Scans :
      (rules : RulesConfig) (p : Profile)
      → Ensures (Scans registry rules.only) (resolve_rules registry parse_duration true rules p)
  unfolding resolve_rules
  resolve_rules-Scans rules p =
      >>=-Ensures (λ _. Unit) (Scans registry rules.only)
        (apply_severities registry parse_duration true rules.severity p)
        (λ p'.
          check_scan_has_rules registry parse_duration true rules.only p'
          >> apply_settings registry parse_duration true rules.settings p')
        (any (apply_severities registry parse_duration true rules.severity p))
        (λ p' _.
          >>=-Ensures (λ _. Scans registry rules.only p') (Scans registry rules.only)
            (check_scan_has_rules registry parse_duration true rules.only p')
            (λ _. apply_settings registry parse_duration true rules.settings p')
            (check_scan_has_rules-Scans rules.only p')
            (λ _ scans. apply_settings-Scans true rules.only rules.settings p' scans))

  resolve-Scans :
      (rules : RulesConfig) (redact : Option Bool) (dialect : Bytes)
      → Ensures
          (Scans registry rules.only)
          (resolve registry parse_duration true rules redact dialect)
  unfolding resolve
  resolve-Scans rules redact dialect =
      >>=-Ensures (λ _. Unit) (Scans registry rules.only)
        (config_dialect registry parse_duration true dialect)
        (λ d. collect_names registry parse_duration true rules.disable [] >>= within_lists d)
        (any (config_dialect registry parse_duration true dialect))
        (λ d _.
          >>=-Ensures (λ _. Unit) (Scans registry rules.only)
            (collect_names registry parse_duration true rules.disable []) (within_lists d)
            (any (collect_names registry parse_duration true rules.disable []))
            (λ disabled _.
              >>=-Ensures (λ _. Unit) (Scans registry rules.only)
                (collect_names registry parse_duration true rules.only [])
                (λ only.
                  resolve_rules registry parse_duration true rules
                    (start (raw_query redact) d disabled only))
                (any (collect_names registry parse_duration true rules.only []))
                (λ only _. resolve_rules-Scans rules (start (raw_query redact) d disabled only))))
    where
      within_lists : Dialect → Map Bool → Checked Profile
      within_lists d disabled = do
        only ← collect_names registry parse_duration true rules.only []
        resolve_rules registry parse_duration true rules (start (raw_query redact) d disabled only)

resolved-Scans :
    (registry : Registry) (fallback : Bytes → Statement) (configured : List Bytes)
    (o : Warning ⊎ (Profile × List Warning)) (p : Profile) (ws : List Warning)
    → configured ≢ []
    → Holds (Scans registry configured) o
    → o ≡ inr (p, ws)
    → (default_with_profile fallback registry p).rules ≢ []
unfolding default_with_profile evaluated_rule_names
resolved-Scans registry fallback configured o p ws some_only h e =
    elim (subst (Holds (Scans registry configured)) e h) [
      | inl nothing ↦ ground (arith, some_only, nothing)
      | inr left ↦ bind_specs-all_skipped p (specs registry) left
    ]

-- When a configuration with a list of rules to run alone passes under `strict`, the analyzer built
-- from its profile has a rule that runs over statements.
pub resolve-default_with_profile :
    (registry : Registry) (parse_duration : Bytes → Option ℤ) (fallback : Bytes → Statement)
    (rules : RulesConfig) (redact : Option Bool) (dialect : Bytes) (ws ws' : List Warning)
    (p : Profile)
    → rules.only ≢ []
    → resolve registry parse_duration true rules redact dialect ws ≡ inr (p, ws')
    → (default_with_profile fallback registry p).rules ≢ []
resolve-default_with_profile registry parse_duration fallback rules redact dialect ws ws' p
      some_only =
    resolved-Scans registry fallback rules.only
      (resolve registry parse_duration true rules redact dialect ws) p ws' some_only
      (resolve-Scans registry parse_duration rules redact dialect ws)
