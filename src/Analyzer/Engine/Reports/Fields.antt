-- ===== src/Analyzer/Engine/Reports/Fields.antt =====
-- How each finding is shown: severity, query and fingerprint (analyzer/analyzer.go).
use sqlguard.Prelude.{
  ◌≡◌, refl, List, [], ◌∷◌, Option, none, some, Bytes, All, lookup, if◌then◌else◌, Bool-cases, inl,
  inr,
}
use sqlguard.Analyzer.Types.{Statement, Result, Severity}
use sqlguard.Analyzer.Settings.{or_default}
use sqlguard.Analyzer.Suppress.{Directive, parse_ignore_directive}
use sqlguard.Analyzer.Lexer.Fingerprint.{redact, fingerprint}
use sqlguard.Analyzer.Engine.{
  Analyzer, BoundRule, is_ignored, finish, report_one, run_rules, analyze,
}

-- The result's query is the raw text only if the analyzer was told so, its fingerprint is that of
-- the query in the analyzer's dialect, and a severity of the profile for its rule wins.
pub record IsPrepared (a : Analyzer) (sql : Bytes) (r : Result) : Type 0 where
  pub shown : r.query ≡ (if a.raw_query then sql else redact sql a.dialect)
  pub identity : r.fingerprint ≡ fingerprint sql a.dialect
  pub override : (s : Severity) → lookup r.rule_name a.severity ≡ some s → r.severity ≡ s

finish-IsPrepared :
    (a : Analyzer) (sql : Bytes) (br : BoundRule) (r : Result)
    → IsPrepared a sql (finish a sql br r)
unfolding finish fingerprint
finish-IsPrepared a sql br r = record { shown = refl; identity = refl; override = λ s e. rw e }

run_rules-IsPrepared :
    (rules : List BoundRule) (a : Analyzer) (sql : Bytes) (stmt : Statement) (d : Directive)
    → All (IsPrepared a sql) (run_rules a sql stmt d rules)
unfolding run_rules
run_rules-IsPrepared [] a sql stmt d = tt
run_rules-IsPrepared (br ∷ rules) a sql stmt d =
    go (br.check stmt) (run_rules a sql stmt d rules) (run_rules-IsPrepared rules a sql stmt d)
  where
    go :
        (o : Option Result) (others : List Result)
        → All (IsPrepared a sql) others
        → All (IsPrepared a sql) (report_one a sql d br o others)
    go none others h = h
    go (some r) others h = elim (Bool-cases (is_ignored d r.rule_name)) [
      | inl out ↦ rw out h
      | inr kept ↦ rw kept (finish-IsPrepared a sql br r, h)
    ]

-- Every finding of any analyzer on any query shows the redacted query, or the raw one if the
-- analyzer was told so, carries the fingerprint of the query in the analyzer's dialect, and has
-- the severity that the profile gives its rule, if it gives one.
pub analyze-IsPrepared :
    (fallback : Bytes → Statement) (a : Analyzer) (sql : Bytes)
    → All (IsPrepared a sql) (analyze fallback a sql)
unfolding analyze
analyze-IsPrepared fallback a sql = elim (Bool-cases (parse_ignore_directive sql).all) [
  | inl all ↦ rw all tt
  | inr rest ↦ rw rest (
      run_rules-IsPrepared a.rules a sql (or_default (a.parser.parse sql) (fallback sql))
        (parse_ignore_directive sql))
]
