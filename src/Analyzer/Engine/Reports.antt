-- ===== src/Analyzer/Engine/Reports.antt =====
-- Which findings the analyzer of a profile reports, and how (analyzer/analyzer.go).
pub mod Fields
use sqlguard.Prelude.{
  ◌≡◌, ◌≢◌, refl, sym, ap, ◌∙◌, Bool, true, false, not, ◌&&◌, ◌||◌, List, [], ◌∷◌, Option, none,
  some, Bytes, arith, All, has, lookup, equal, equal_iff, if◌then◌else◌, Bool-cases, inl, inr,
}
use sqlguard.Analyzer.Types.{Statement, Result}
use sqlguard.Analyzer.Rules.{Rule}
use sqlguard.Analyzer.Settings.{Settings, or_default}
use sqlguard.Analyzer.Registry.{
  Registry, RuleSpec, Profile, specs, insert_sorted, before, skip, is_some,
}
use sqlguard.Analyzer.Suppress.{Directive, parse_ignore_directive}
use sqlguard.Analyzer.Suppress.Intersect.{suppresses}
use sqlguard.Analyzer.Engine.{
  Analyzer, BoundRule, bind_factory, bind_specs, settings_of, is_ignored, finish, report_one,
  run_rules, default_with_profile, analyze,
}

-- One of the results is of the named rule.
unfoldable pub reported : Bytes → List Result → Bool
reported name [] = false
reported name (r ∷ rs) = equal r.rule_name name || reported name rs

-- A spec whose factory, under the profile's settings, makes a rule that fires on the statement.
abbrev pub factory_fires : Profile → Statement → Bytes → Option (Settings → Rule) → Bool
factory_fires p stmt name none = false
factory_fires p stmt name (some factory) = is_some (factory (settings_of p.settings name) stmt)

unfoldable pub some_fires : Profile → Statement → Bytes → List RuleSpec → Bool
some_fires p stmt name [] = false
some_fires p stmt name (spec ∷ rest) =
    (equal spec.name name && factory_fires p stmt spec.name spec.factory)
    || some_fires p stmt name rest

-- The results of a spec's rules carry its name.
abbrev pub FactoryIsNamed : Bytes → Option (Settings → Rule) → Type 0
FactoryIsNamed name none = Unit
FactoryIsNamed name (some factory) =
    (s : Settings) (stmt : Statement) (r : Result) → factory s stmt ≡ some r → r.rule_name ≡ name

abbrev pub IsNamed : RuleSpec → Type 0
IsNamed spec = FactoryIsNamed spec.name spec.factory

reported-report_one :
    (a : Analyzer) (sql : Bytes) (d : Directive) (br : BoundRule) (o : Option Result)
    (others : List Result) (owner name : Bytes)
    → ((r : Result) → o ≡ some r → r.rule_name ≡ owner)
    → reported name (report_one a sql d br o others)
      ≡ ((equal owner name && is_some o && not (is_ignored d owner)) || reported name others)
unfolding reported report_one
reported-report_one a sql d br none others owner name h = ground arith
reported-report_one a sql d br (some r) others owner name h =
    let e : r.rule_name ≡ owner = h r refl in
    elim (Bool-cases (is_ignored d r.rule_name)) [
      | inl ignored ↦ rw ignored (ground (arith, ignored, e))
      | inr counts ↦ rw counts (unfold finish in ground (arith, counts, e))
    ]

reported-bind_factory :
    (a : Analyzer) (sql : Bytes) (stmt : Statement) (d : Directive) (p : Profile) (spec : RuleSpec)
    (o : Option (Settings → Rule)) (others : List BoundRule) (name : Bytes)
    → FactoryIsNamed spec.name o
    → reported name (run_rules a sql stmt d (bind_factory p spec o others)) ≡ (
        (equal spec.name name && factory_fires p stmt spec.name o && not (is_ignored d spec.name))
        || reported name (run_rules a sql stmt d others))
unfolding bind_factory run_rules
reported-bind_factory a sql stmt d p spec none others name h = ground arith
reported-bind_factory a sql stmt d p spec (some factory) others name h =
    reported-report_one a sql d _ (factory (settings_of p.settings spec.name) stmt) _ spec.name name
      (h (settings_of p.settings spec.name) stmt)

reported-run_rules :
    (specs : List RuleSpec) (a : Analyzer) (sql : Bytes) (stmt : Statement) (d : Directive)
    (p : Profile) (name : Bytes)
    → All IsNamed specs
    → reported name (run_rules a sql stmt d (bind_specs p specs))
      ≡ (not (is_ignored d name) && not (skip p name) && some_fires p stmt name specs)
unfolding bind_specs some_fires
reported-run_rules [] a sql stmt d p name h = unfold run_rules reported in ground arith
reported-run_rules (spec ∷ rest) a sql stmt d p name (h, hs) =
    let ih = reported-run_rules rest a sql stmt d p name hs in
    elim (Bool-cases (skip p spec.name)) [
      | inl out ↦ rw (out, ih) (ground (arith, out, equal_iff spec.name name))
      | inr on ↦
          rw
            (
              on,
              reported-bind_factory a sql stmt d p spec spec.factory (bind_specs p rest) name h,
              ih,
            )
            (ground (arith, on, equal_iff spec.name name))
    ]

-- The specs of a registry, in the order of the map.
abbrev pub registered : Registry → List RuleSpec
registered [] = []
registered ((key, spec) ∷ registry) = spec ∷ registered registry

or_swap : (x y z : Bool) → (x || (y || z)) ≡ (y || (x || z))
or_swap x y z = ground arith

insert_sorted-IsNamed :
    (x : RuleSpec) (xs : List RuleSpec)
    → IsNamed x
    → All IsNamed xs
    → All IsNamed (insert_sorted x xs)
unfolding insert_sorted
insert_sorted-IsNamed x [] h hs = (h, tt)
insert_sorted-IsNamed x (y ∷ ys) h (k, hs) = elim (Bool-cases (before y.name x.name)) [
  | inl first ↦ rw first (k, insert_sorted-IsNamed x ys h hs)
  | inr later ↦ rw later (h, (k, hs))
]

specs-IsNamed :
    (registry : Registry) → All IsNamed (registered registry) → All IsNamed (specs registry)
unfolding specs
specs-IsNamed [] h = tt
specs-IsNamed ((key, spec) ∷ registry) (h, hs) =
    insert_sorted-IsNamed spec (specs registry) h (specs-IsNamed registry hs)

some_fires-insert_sorted :
    (p : Profile) (stmt : Statement) (name : Bytes) (x : RuleSpec) (xs : List RuleSpec)
    → some_fires p stmt name (insert_sorted x xs) ≡ some_fires p stmt name (x ∷ xs)
unfolding insert_sorted some_fires
some_fires-insert_sorted p stmt name x [] = refl
some_fires-insert_sorted p stmt name x (y ∷ ys) = elim (Bool-cases (before y.name x.name)) [
  | inl first ↦
      rw (first, some_fires-insert_sorted p stmt name x ys)
        (or_swap (equal y.name name && factory_fires p stmt y.name y.factory)
          (equal x.name name && factory_fires p stmt x.name x.factory) (some_fires p stmt name ys))
  | inr later ↦ rw later
]

-- Sorting by name neither loses nor adds a spec.
some_fires-specs :
    (p : Profile) (stmt : Statement) (name : Bytes) (registry : Registry)
    → some_fires p stmt name (specs registry) ≡ some_fires p stmt name (registered registry)
unfolding specs some_fires
some_fires-specs p stmt name [] = refl
some_fires-specs p stmt name ((key, spec) ∷ registry) =
    some_fires-insert_sorted p stmt name spec (specs registry)
    ∙ ap (λ x. (equal spec.name name && factory_fires p stmt spec.name spec.factory) || x)
        (some_fires-specs p stmt name registry)

-- With the fallback parser, a named rule is reported exactly if no directive in the SQL
-- suppresses it, the profile does not skip it, and a spec of that name makes a rule, under the
-- profile's settings, that fires on the parsed statement. The rules are to report their own names.
pub reported-analyze :
    (fallback : Bytes → Statement) (registry : Registry) (p : Profile) (sql name : Bytes)
    → All IsNamed (registered registry)
    → name ≢ []
    → reported name (analyze fallback (default_with_profile fallback registry p) sql) ≡ (
        not (suppresses (parse_ignore_directive sql) name)
        && not (skip p name)
        && some_fires p (fallback sql) name (registered registry))
unfolding analyze default_with_profile
reported-analyze fallback registry p sql name h ne =
    let d = parse_ignore_directive sql in
    let a = default_with_profile fallback registry p in
    let nonempty : equal name [] ≡ false = ground (arith, equal_iff name []) in
    let run =
      reported-run_rules (specs registry) a sql (fallback sql) d p name
        (specs-IsNamed registry h) in
    elim (Bool-cases d.all) [
      | inl everything ↦ rw everything (unfold reported in refl)
      | inr some_rules ↦
          rw some_rules (run ∙ rw (some_fires-specs p (fallback sql) name registry) (rw nonempty))
    ]
