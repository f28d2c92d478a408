-- ===== src/Analyzer/Engine.antt =====
-- The analyzer of analyzer/analyzer.go. The fallback parser, which never fails, is the parameter
-- `fallback`; the theorems hold for whatever statement it returns.
pub mod Reports
pub mod Builtin
use sqlguard.Prelude.{
  Bool, true, false, not, ◌&&◌, List, [], ◌∷◌, Option, none, some, Bytes, Map, lookup, insert, has,
  equal, map, size, if◌then◌else◌,
}
use sqlguard.Analyzer.Types.{
  Severity, info, Statement, Result, Dialect, dialect_unknown, dialect_postgres, dialect_mysql,
}
use sqlguard.Analyzer.Rules.{Rule}
use sqlguard.Analyzer.Settings.{Settings, or_default}
use sqlguard.Analyzer.Registry.{Registry, RuleSpec, Profile, specs, skip}
use sqlguard.Analyzer.Suppress.{Directive, parse_ignore_directive}
use sqlguard.Analyzer.Lexer.Fingerprint.{redact, fold_redacted}

-- A parser: a statement, or none for an error or a nil statement; and the dialect of a parser of
-- one dialect.
pub record Parser : Type 0 where
  pub parse : Bytes → Option Statement
  pub own_dialect : Option Dialect

abbrev pub fallback_parser : (Bytes → Statement) → Parser
fallback_parser fallback = record { parse = λ sql. some (fallback sql); own_dialect = none }

pub record BoundRule : Type 0 where
  pub name : Bytes
  pub check : Rule
  pub severity : Severity
  pub has_severity : Bool

pub record Analyzer : Type 0 where
  pub rules : List BoundRule
  pub parser : Parser
  pub severity : Map Severity
  pub disabled : Map Bool
  pub settings : Map Settings
  pub raw_query : Bool
  pub dialect : Dialect
  pub dialect_set : Bool

abbrev anonymous : Rule → BoundRule
anonymous r = record { name = []; check = r; severity = info; has_severity = false }

unfoldable pub new : (Bytes → Statement) → List Rule → Analyzer
new fallback rules = record {
  rules = map anonymous rules;
  parser = fallback_parser fallback;
  severity = [];
  disabled = [];
  settings = [];
  raw_query = false;
  dialect = dialect_unknown;
  dialect_set = false;
}

-- `WithParser`; none is nil, which stands for the fallback parser.
unfoldable pub with_parser : (Bytes → Statement) → Analyzer → Option Parser → Analyzer
unfolding or_default
with_parser fallback a p =
    let chosen = or_default p (fallback_parser fallback) in
    record a {
      parser = chosen;
      dialect = if a.dialect_set then a.dialect else or_default chosen.own_dialect dialect_unknown;
    }

unfoldable pub with_dialect : Analyzer → Dialect → Analyzer
with_dialect a d = record a { dialect = d; dialect_set = true }

unfoldable pub with_raw_query : Analyzer → Analyzer
with_raw_query a = record a { raw_query = true }

-- The query to show and its fingerprint, from one redaction.
unfoldable pub prepare_query : Analyzer → Bytes → Bytes × Bytes
prepare_query a raw =
    let redacted = redact raw a.dialect in
    (if a.raw_query then raw else redacted, fold_redacted redacted)

abbrev bound : RuleSpec → Rule → BoundRule
bound spec rule = record {
  name = spec.name;
  check = rule;
  severity = spec.default_severity;
  has_severity = true;
}

abbrev pub settings_of : Map Settings → Bytes → Settings
settings_of m name = or_default (lookup name m) []

unfoldable pub bind_factory :
    Profile → RuleSpec → Option (Settings → Rule) → List BoundRule → List BoundRule
bind_factory p spec none others = others
bind_factory p spec (some factory) others =
    bound spec (factory (settings_of p.settings spec.name)) ∷ others

-- The loop of `DefaultWithProfile` that binds the rules.
unfoldable pub bind_specs : Profile → List RuleSpec → List BoundRule
unfolding skip bind_factory
bind_specs p [] = []
bind_specs p (spec ∷ rest) =
    let others = bind_specs p rest in
    if skip p spec.name then others else bind_factory p spec spec.factory others

-- The loop of `DefaultWithProfile` that notes the rules turned off.
unfoldable pub disabled_specs : Profile → List RuleSpec → Map Bool → Map Bool
unfolding has insert
disabled_specs p [] m = m
disabled_specs p (spec ∷ rest) m =
    disabled_specs p rest (if has p.disabled spec.name then insert spec.name true m else m)

abbrev is_known : Dialect → Bool
is_known dialect_unknown = false
is_known _ = true

unfoldable pub default_with_profile : (Bytes → Statement) → Registry → Profile → Analyzer
unfolding bind_specs disabled_specs
default_with_profile fallback registry p = record {
  rules = bind_specs p (specs registry);
  parser = fallback_parser fallback;
  severity = p.severity;
  disabled = disabled_specs p (specs registry) [];
  settings = p.settings;
  raw_query = p.raw_query;
  dialect = p.dialect;
  dialect_set = is_known p.dialect;
}

unfoldable pub rule_enabled : Analyzer → Bytes → Bool
unfolding has
rule_enabled a name = not (has a.disabled name)

unfoldable pub rule_severity : Analyzer → Bytes → Severity → Severity
unfolding or_default lookup
rule_severity a name def = or_default (lookup name a.severity) def

abbrev pub rule_settings : Analyzer → Bytes → Settings
rule_settings a name = settings_of a.settings name

-- What becomes of a result that is not suppressed.
unfoldable pub finish : Analyzer → Bytes → BoundRule → Result → Result
unfolding prepare_query or_default lookup
finish a sql br r =
    let severity = if br.has_severity then br.severity else r.severity in
    record r {
      severity = or_default (lookup r.rule_name a.severity) severity;
      query = (prepare_query a sql).0;
      fingerprint = (prepare_query a sql).1;
    }

abbrev pub is_ignored : Directive → Bytes → Bool
is_ignored d name = not (equal name []) && has d.rules name

-- The body of the loop of `Analyze`, behind the check of the rule.
pub report_one :
    Analyzer → Bytes → Directive → BoundRule → Option Result → List Result → List Result
report_one a sql d br none others = others
report_one a sql d br (some r) others =
    if is_ignored d r.rule_name then others else finish a sql br r ∷ others

unfoldable pub run_rules : Analyzer → Bytes → Statement → Directive → List BoundRule → List Result
unfolding report_one
run_rules a sql stmt d [] = []
run_rules a sql stmt d (br ∷ rules) =
    report_one a sql d br (br.check stmt) (run_rules a sql stmt d rules)

unfoldable pub analyze : (Bytes → Statement) → Analyzer → Bytes → List Result
unfolding run_rules finish has or_default parse_ignore_directive
analyze fallback a sql =
    let stmt = or_default (a.parser.parse sql) (fallback sql) in
    let d = parse_ignore_directive sql in if d.all then [] else run_rules a sql stmt d a.rules
