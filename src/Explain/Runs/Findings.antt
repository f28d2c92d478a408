-- ===== src/Explain/Runs/Findings.antt =====
-- The findings that `Analyze` of explain/explain.go returns, error or not.
use sqlguard.Prelude.{◌≡◌, true, Option, none, some, Bytes, All, lookup}
use sqlguard.Analyzer.Types.{Severity, Result}
use sqlguard.Analyzer.Registry.{Registry}
use sqlguard.Analyzer.Lexer.Fingerprint.{fingerprint}
use sqlguard.Analyzer.Engine.{Analyzer, rule_enabled}
use sqlguard.Explain.Policy.{PlanAnalyzer}
use sqlguard.Explain.Runs.{Report}

-- A rule that the profile leaves on, with the profile's severity if it gives one.
abbrev pub IsEnabled : Analyzer → Result → Type 0
IsEnabled a r =
    (rule_enabled a r.rule_name ≡ true)
    × ((s : Severity) → lookup r.rule_name a.severity ≡ some s → r.severity ≡ s)

abbrev pub IsProfiled : Option Analyzer → Result → Type 0
IsProfiled none r = Unit
IsProfiled (some a) r = IsEnabled a r

abbrev pub IsFinding : PlanAnalyzer → Bytes → Result → Type 0
IsFinding p query r = (r.fingerprint ≡ fingerprint query p.literals) × IsProfiled p.rules r

abbrev pub AreFindings : PlanAnalyzer → Bytes → Option Report → Type 0
AreFindings p query none = Unit
AreFindings p query (some res) = All (IsFinding p query) res.issues
