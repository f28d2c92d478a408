-- ===== src/Config/Profile.antt =====
-- `Profile` of config/config.go. A Go map is given by its entries, in the order in which the
-- program happens to read them.
use sqlguard.Prelude.{
  is_one_of, Bool, true, false, ◌&&◌, List, [], ◌∷◌, Option, none, some, Bytes, codes, ℤ, Map,
  lookup, insert, equal, map, keep_if, if◌then◌else◌,
}
use sqlguard.Analyzer.Types.{Severity, info, warning, critical, Dialect, dialect_unknown}
use sqlguard.Analyzer.Settings.{Value, Settings}
use sqlguard.Analyzer.Registry.{Registry, RuleSpec, Profile, specs, is_evaluated, skip}
use sqlguard.Analyzer.Dialects.{parse_dialect}
use sqlguard.Analyzer.Lexer.Space.{trim_space}
use sqlguard.Analyzer.Lexer.Cases.{to_lower}
use sqlguard.Config.Warnings.{
  Checked, ok, ◌>>=◌, ◌>>◌, warn, unknown_dialect, unknown_rule, only_selects_nothing,
  nothing_scanned, invalid_severity,
}
use sqlguard.Config.Settings.{check_settings}

pub record RulesConfig : Type 0 where
  pub disable : List Bytes
  pub only : List Bytes
  pub severity : Map Bytes
  pub settings : Map (Map Value)

-- What the decoder of YAML fills in. The field `warnings` is the state of the checks.
pub record Config : Type 0 where
  pub version : ℤ
  pub strict : Bool
  pub rules : RulesConfig
  pub dedup_window : Bytes
  pub exclude_paths : List Bytes
  pub redact : Option Bool
  pub dialect : Bytes

-- A word for a severity: one of the severities, a word that turns the rule off, or neither.
pub data Level : Type 0 where
  at_severity : Severity → Level
  turned_off invalid : Level

unfoldable pub parse_severity : Bytes → Level
unfolding to_lower trim_space is_one_of
parse_severity s =
    let word = to_lower (trim_space s) in
    if is_one_of (codes "info" ∷ []) word
    then at_severity info
    else if is_one_of (codes "warning" ∷ codes "warn" ∷ []) word
    then at_severity warning
    else if is_one_of (codes "critical" ∷ codes "error" ∷ []) word
    then at_severity critical
    else if is_one_of (codes "off" ∷ codes "none" ∷ codes "disabled" ∷ []) word
    then turned_off
    else invalid

-- `rawQuery`: only an explicit `redact: false`.
abbrev pub raw_query : Option Bool → Bool
raw_query (some false) = true
raw_query _ = false

abbrev pub is_registered : Registry → Bytes → Bool
is_registered registry name = elim (lookup name registry) [ none ↦ false | some _ ↦ true ]

abbrev pub name_of : RuleSpec → Bytes
name_of spec = spec.name

-- `RuleNames`.
unfoldable pub rule_names : Registry → List Bytes
unfolding specs
rule_names registry = map name_of (specs registry)

-- `EvaluatedRuleNames`.
unfoldable pub evaluated_rule_names : Registry → List Bytes
unfolding specs keep_if
evaluated_rule_names registry = map name_of (keep_if is_evaluated (specs registry))

-- The profile behind the two lists of names.
abbrev pub start : Bool → Dialect → Map Bool → Map Bool → Profile
start raw d disabled only = record {
  disabled = disabled;
  only = only;
  severity = [];
  settings = [];
  raw_query = raw;
  dialect = d;
}

abbrev disable : Profile → Bytes → Profile
disable p name = record p { disabled = insert name true p.disabled }

abbrev set_severity : Profile → Bytes → Severity → Profile
set_severity p name severity = record p { severity = insert name severity p.severity }

abbrev pub set_settings : Profile → Bytes → Settings → Profile
set_settings p name [] = p
set_settings p name (entry ∷ kept) = record p { settings = insert name (entry ∷ kept) p.settings }

abbrev pub add_name : Map Bool → Bytes → Bool → Map Bool
add_name into name usable = if usable then insert name true into else into

unfoldable pub all_skipped : Profile → List Bytes → Bool
unfolding skip
all_skipped p [] = true
all_skipped p (name ∷ names) = skip p name && all_skipped p names

module _ (registry : Registry) (parse_duration : Bytes → Option ℤ) (strict : Bool) where
  -- The closure `checkName`.
  unfoldable pub check_name : Bytes → Checked Bool
  unfolding lookup
  check_name name =
      if is_registered registry name then ok true else do warn strict (unknown_rule name); ok false

  unfoldable pub collect_names : List Bytes → Map Bool → Checked (Map Bool)
  unfolding check_name insert
  collect_names [] into = ok into
  collect_names (name ∷ names) into = do
    usable ← check_name name
    collect_names names (add_name into name usable)

  unfoldable pub apply_level : Profile → Bytes → Bytes → Level → Checked Profile
  unfolding insert
  apply_level p name text (at_severity severity) = ok (set_severity p name severity)
  apply_level p name text turned_off = ok (disable p name)
  apply_level p name text invalid = do warn strict (invalid_severity name text); ok p

  abbrev pub apply_usable : Profile → Bytes → Bytes → Bool → Checked Profile
  apply_usable p name text false = ok p
  apply_usable p name text true = apply_level p name text (parse_severity text)

  unfoldable pub apply_severities : Map Bytes → Profile → Checked Profile
  unfolding check_name apply_level parse_severity
  apply_severities [] p = ok p
  apply_severities ((name, text) ∷ sevs) p = do
    usable ← check_name name
    p' ← apply_usable p name text usable
    apply_severities sevs p'

  unfoldable pub check_scan_has_rules : List Bytes → Profile → Checked (Unit {0})
  unfolding all_skipped evaluated_rule_names
  check_scan_has_rules [] p = ok tt
  check_scan_has_rules (_ ∷ _) p = elim p.only [
    | [] ↦ warn strict only_selects_nothing
    | _ ∷ _ ↦
        if all_skipped p (evaluated_rule_names registry) then warn strict nothing_scanned else ok tt
  ]

  abbrev pub settle : Profile → Bytes → Map Value → Bool → Checked Profile
  settle p name kv false = ok p
  settle p name kv true = do
    kept ← check_settings parse_duration strict name kv
    ok (set_settings p name kept)

  -- The loop over the rules' settings.
  unfoldable pub apply_settings : Map (Map Value) → Profile → Checked Profile
  unfolding check_name check_settings insert
  apply_settings [] p = ok p
  apply_settings ((name, kv) ∷ settings) p = do
    usable ← check_name name
    p' ← settle p name kv usable
    apply_settings settings p'

  abbrev pub checked_dialect : Bytes → Option Dialect → Checked Dialect
  checked_dialect text (some d) = ok d
  checked_dialect text none = do warn strict (unknown_dialect text); ok dialect_unknown

  -- The method `dialect`.
  unfoldable pub config_dialect : Bytes → Checked Dialect
  unfolding parse_dialect equal
  config_dialect text =
      if equal text [] then ok dialect_unknown else checked_dialect text (parse_dialect text)

  -- The rest of `Profile`, behind the two lists of names.
  unfoldable pub resolve_rules : RulesConfig → Profile → Checked Profile
  unfolding apply_severities check_scan_has_rules apply_settings
  resolve_rules rules p = do
    p' ← apply_severities rules.severity p
    check_scan_has_rules rules.only p'
    apply_settings rules.settings p'

  unfoldable pub resolve : RulesConfig → Option Bool → Bytes → Checked Profile
  unfolding config_dialect collect_names resolve_rules
  resolve rules redact dialect = do
    d ← config_dialect dialect
    disabled ← collect_names rules.disable []
    only ← collect_names rules.only []
    resolve_rules rules (start (raw_query redact) d disabled only)

-- The profile of a configuration, and its warnings behind those so far.
unfoldable pub profile : Registry → (Bytes → Option ℤ) → Config → Checked Profile
unfolding resolve
profile registry parse_duration c =
    resolve registry parse_duration c.strict c.rules c.redact c.dialect
