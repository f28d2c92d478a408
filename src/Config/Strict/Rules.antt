-- ===== src/Config/Strict/Rules.antt =====
-- The checks of names, severities and the dialect in config/config.go under `strict`.
use sqlguard.Prelude.{
  ℤ, Bool, true, false, List, [], ◌∷◌, Option, none, some, Bytes, Map, insert, equal, if◌then◌else◌,
}
use sqlguard.Analyzer.Types.{Dialect, dialect_unknown}
use sqlguard.Analyzer.Dialects.{parse_dialect}
use sqlguard.Analyzer.Settings.{Value}
use sqlguard.Analyzer.Registry.{Registry, Profile}
use sqlguard.Config.Warnings.{
  unknown_rule, invalid_severity, unknown_dialect, only_selects_nothing, nothing_scanned, Checked,
  ok, ◌>>=◌, ◌>>◌, warn,
}
use sqlguard.Config.Settings.{check_settings}
use sqlguard.Config.Profile.{
  all_skipped, evaluated_rule_names, settle, checked_dialect, start, resolve_rules, raw_query,
  set_settings, apply_usable, parse_severity, RulesConfig, Level, at_severity, turned_off, invalid,
  check_name, collect_names, apply_level, apply_severities, check_scan_has_rules, apply_settings,
  config_dialect, resolve, is_registered,
}
use sqlguard.Config.Strict.{Agree, ok-Agree, warn-Agree, >>=-Agree, if-Agree, warned-Agree}
use sqlguard.Config.Strict.Values.{check_settings-Agree}

check_name-Agree :
    (registry : Registry) (parse_duration : Bytes → Option ℤ) (name : Bytes)
    → Agree (λ strict. check_name registry parse_duration strict name)
unfolding check_name
check_name-Agree registry parse_duration name =
    if-Agree (is_registered registry name) (λ strict. ok true)
      (λ strict. warn strict (unknown_rule name) >> ok false) (ok-Agree true)
      (warned-Agree (unknown_rule name) false)

pub collect_names-Agree :
    (registry : Registry) (parse_duration : Bytes → Option ℤ) (names : List Bytes) (into : Map Bool)
    → Agree (λ strict. collect_names registry parse_duration strict names into)
unfolding collect_names
collect_names-Agree registry parse_duration [] into = ok-Agree into
collect_names-Agree registry parse_duration (name ∷ names) into =
    >>=-Agree (λ strict. check_name registry parse_duration strict name)
      (λ strict usable.
        collect_names registry parse_duration strict names
          (if usable then insert name true into else into))
      (check_name-Agree registry parse_duration name)
      (λ usable.
        collect_names-Agree registry parse_duration names
          (if usable then insert name true into else into))

apply_level-Agree :
    (registry : Registry) (parse_duration : Bytes → Option ℤ) (p : Profile) (name text : Bytes)
    (level : Level)
    → Agree (λ strict. apply_level registry parse_duration strict p name text level)
unfolding apply_level
apply_level-Agree registry parse_duration p name text (at_severity severity) = ok-Agree _
apply_level-Agree registry parse_duration p name text turned_off = ok-Agree _
apply_level-Agree registry parse_duration p name text invalid =
    warned-Agree (invalid_severity name text) p

apply_usable-Agree :
    (registry : Registry) (parse_duration : Bytes → Option ℤ) (p : Profile) (name text : Bytes)
    (usable : Bool)
    → Agree (λ strict. apply_usable registry parse_duration strict p name text usable)
apply_usable-Agree registry parse_duration p name text true =
    apply_level-Agree registry parse_duration p name text (parse_severity text)
apply_usable-Agree registry parse_duration p name text false = ok-Agree p

pub apply_severities-Agree :
    (registry : Registry) (parse_duration : Bytes → Option ℤ) (sevs : Map Bytes) (p : Profile)
    → Agree (λ strict. apply_severities registry parse_duration strict sevs p)
unfolding apply_severities
apply_severities-Agree registry parse_duration [] p = ok-Agree p
apply_severities-Agree registry parse_duration ((name, text) ∷ sevs) p =
    >>=-Agree (λ strict. check_name registry parse_duration strict name)
      (λ strict usable.
        apply_usable registry parse_duration strict p name text usable
        >>= (λ p'. apply_severities registry parse_duration strict sevs p'))
      (check_name-Agree registry parse_duration name)
      (λ usable.
        >>=-Agree (λ strict. apply_usable registry parse_duration strict p name text usable)
          (λ strict p'. apply_severities registry parse_duration strict sevs p')
          (apply_usable-Agree registry parse_duration p name text usable)
          (λ p'. apply_severities-Agree registry parse_duration sevs p'))

check_scan_has_rules-Agree :
    (registry : Registry) (parse_duration : Bytes → Option ℤ) (only : List Bytes) (p : Profile)
    → Agree (λ strict. check_scan_has_rules registry parse_duration strict only p)
unfolding check_scan_has_rules
check_scan_has_rules-Agree registry parse_duration [] p = ok-Agree tt
check_scan_has_rules-Agree registry parse_duration (name ∷ names) p = by_only p.only
  where
    by_only :
        (names : Map Bool)
        → Agree (λ strict. elim names [
          | [] ↦ warn strict only_selects_nothing
          | _ ∷ _ ↦
              if all_skipped p (evaluated_rule_names registry)
              then warn strict nothing_scanned
              else ok tt
        ])
    by_only [] = warn-Agree only_selects_nothing
    by_only (_ ∷ _) =
        if-Agree (all_skipped p (evaluated_rule_names registry))
          (λ strict. warn strict nothing_scanned) (λ strict. ok tt) (warn-Agree nothing_scanned)
          (ok-Agree tt)

settle-Agree :
    (registry : Registry) (parse_duration : Bytes → Option ℤ) (p : Profile) (name : Bytes)
    (kv : Map Value) (usable : Bool)
    → Agree (λ strict. settle registry parse_duration strict p name kv usable)
settle-Agree registry parse_duration p name kv false = ok-Agree p
settle-Agree registry parse_duration p name kv true =
    >>=-Agree (λ strict. check_settings parse_duration strict name kv)
      (λ strict kept. ok (set_settings p name kept)) (check_settings-Agree parse_duration name kv)
      (λ kept. ok-Agree (set_settings p name kept))

apply_settings-Agree :
    (registry : Registry) (parse_duration : Bytes → Option ℤ) (settings : Map (Map Value))
    (p : Profile)
    → Agree (λ strict. apply_settings registry parse_duration strict settings p)
unfolding apply_settings
apply_settings-Agree registry parse_duration [] p = ok-Agree p
apply_settings-Agree registry parse_duration ((name, kv) ∷ settings) p =
    >>=-Agree (λ strict. check_name registry parse_duration strict name)
      (λ strict usable.
        settle registry parse_duration strict p name kv usable
        >>= (λ p'. apply_settings registry parse_duration strict settings p'))
      (check_name-Agree registry parse_duration name)
      (λ usable.
        >>=-Agree (λ strict. settle registry parse_duration strict p name kv usable)
          (λ strict p'. apply_settings registry parse_duration strict settings p')
          (settle-Agree registry parse_duration p name kv usable)
          (λ p'. apply_settings-Agree registry parse_duration settings p'))

config_dialect-Agree :
    (registry : Registry) (parse_duration : Bytes → Option ℤ) (text : Bytes)
    → Agree (λ strict. config_dialect registry parse_duration strict text)
unfolding config_dialect
config_dialect-Agree registry parse_duration text =
    if-Agree (equal text []) (λ strict. ok dialect_unknown)
      (λ strict. checked_dialect registry parse_duration strict text (parse_dialect text))
      (ok-Agree dialect_unknown) (checked (parse_dialect text))
  where
    checked :
        (o : Option Dialect)
        → Agree (λ strict. checked_dialect registry parse_duration strict text o)
    checked none = warned-Agree (unknown_dialect text) dialect_unknown
    checked (some d) = ok-Agree d

resolve_rules-Agree :
    (registry : Registry) (parse_duration : Bytes → Option ℤ) (rules : RulesConfig) (p : Profile)
    → Agree (λ strict. resolve_rules registry parse_duration strict rules p)
unfolding resolve_rules
resolve_rules-Agree registry parse_duration rules p =
    >>=-Agree (λ strict. apply_severities registry parse_duration strict rules.severity p)
      (λ strict p'.
        check_scan_has_rules registry parse_duration strict rules.only p'
        >> apply_settings registry parse_duration strict rules.settings p')
      (apply_severities-Agree registry parse_duration rules.severity p)
      (λ p'.
        >>=-Agree (λ strict. check_scan_has_rules registry parse_duration strict rules.only p')
          (λ strict _. apply_settings registry parse_duration strict rules.settings p')
          (check_scan_has_rules-Agree registry parse_duration rules.only p')
          (λ _. apply_settings-Agree registry parse_duration rules.settings p'))

-- Without `strict` a configuration always resolves to a profile; with it, to the same profile if
-- the run without it adds no warning, and otherwise to the first of the warnings it adds as the
-- error. That holds of every order in which the maps are read.
pub resolve_lem :
    (registry : Registry) (parse_duration : Bytes → Option ℤ) (rules : RulesConfig)
    (redact : Option Bool) (dialect : Bytes)
    → Agree (λ strict. resolve registry parse_duration strict rules redact dialect)
unfolding resolve
resolve_lem registry parse_duration rules redact dialect =
    >>=-Agree (λ strict. config_dialect registry parse_duration strict dialect)
      (λ strict d.
        collect_names registry parse_duration strict rules.disable []
        >>= (λ disabled. within strict d disabled))
      (config_dialect-Agree registry parse_duration dialect)
      (λ d.
        >>=-Agree (λ strict. collect_names registry parse_duration strict rules.disable [])
          (λ strict disabled. within strict d disabled)
          (collect_names-Agree registry parse_duration rules.disable [])
          (λ disabled.
            >>=-Agree (λ strict. collect_names registry parse_duration strict rules.only [])
              (λ strict only.
                resolve_rules registry parse_duration strict rules
                  (start (raw_query redact) d disabled only))
              (collect_names-Agree registry parse_duration rules.only [])
              (λ only.
                resolve_rules-Agree registry parse_duration rules
                  (start (raw_query redact) d disabled only))))
  where
    within : Bool → Dialect → Map Bool → Checked Profile
    within strict d disabled = do
      only ← collect_names registry parse_duration strict rules.only []
      resolve_rules registry parse_duration strict rules (start (raw_query redact) d disabled only)
