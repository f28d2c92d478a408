-- ===== src/Analyzer/Registry.antt =====
-- The rule registry and the profile of analyzer/registry.go, and the registrations of
-- analyzer/rules.go. The registry is a value: the lock around it orders its reads and writes.
use sqlguard.Prelude.{
  Bool, true, false, not, ◌&&◌, List, [], ◌∷◌, Option, none, some, Bytes, codes, Map, lookup,
  insert, has, size, ltb, ◌==◌, pos, if◌then◌else◌,
}
use sqlguard.Analyzer.Types.{Severity, info, warning, critical, Dialect}
use sqlguard.Analyzer.Settings.{Settings, int_setting}
use sqlguard.Analyzer.Rules.{
  Rule, check_select_star, check_delete_without_where, check_update_without_where,
  check_insert_without_columns, check_select_without_limit, check_non_sargable_predicate,
  check_add_not_null_without_default, check_select_distinct, check_cartesian_join,
  check_implicit_join, check_order_by_without_limit, leading_wildcard_rule, in_list_rule,
  large_offset_rule,
}

-- A spec with no factory is addressable by name, and is not run over statements.
pub record RuleSpec : Type 0 where
  pub name : Bytes
  pub default_severity : Severity
  pub factory : Option (Settings → Rule)

abbrev pub is_some {ℓ} : {A : Type ℓ} → Option A → Bool
is_some none = false
is_some (some _) = true

abbrev pub is_evaluated : RuleSpec → Bool
is_evaluated s = is_some s.factory

abbrev pub Registry : Type 0
Registry = Map RuleSpec

unfoldable pub register : RuleSpec → Registry → Registry
unfolding insert
register spec registry = insert spec.name spec registry

-- `<` on strings, byte by byte.
unfoldable pub before : Bytes → Bytes → Bool
before [] [] = false
before [] (d ∷ t) = true
before (c ∷ s) [] = false
before (c ∷ s) (d ∷ t) = if c == d then before s t else ltb c d

unfoldable pub insert_sorted : RuleSpec → List RuleSpec → List RuleSpec
insert_sorted x [] = x ∷ []
insert_sorted x (y ∷ ys) = if before y.name x.name then y ∷ insert_sorted x ys else x ∷ y ∷ ys

-- The values of the registry, sorted by name.
unfoldable pub specs : Registry → List RuleSpec
unfolding insert_sorted before
specs [] = []
specs ((name, spec) ∷ registry) = insert_sorted spec (specs registry)

unfoldable pub rule_default_severity : Registry → Bytes → Option Severity
unfolding lookup
rule_default_severity registry name = elim (lookup name registry) [
  | none ↦ none
  | some spec ↦ some spec.default_severity
]

unfoldable pub rule_default_severity_or : Registry → Bytes → Severity → Severity
unfolding rule_default_severity
rule_default_severity_or registry name def = elim (rule_default_severity registry name) [
  | none ↦ def
  | some severity ↦ severity
]

pub record Profile : Type 0 where
  pub disabled : Map Bool
  pub only : Map Bool
  pub severity : Map Severity
  pub settings : Map Settings
  pub raw_query : Bool
  pub dialect : Dialect

unfoldable pub skip : Profile → Bytes → Bool
unfolding has
skip p name = if ltb 0 (size p.only) && not (has p.only name) then true else has p.disabled name

abbrev evaluated : Bytes → Severity → (Settings → Rule) → RuleSpec
evaluated name severity factory = record {
  name = name;
  default_severity = severity;
  factory = some factory;
}

abbrev addressable : Bytes → Severity → RuleSpec
addressable name severity = record { name = name; default_severity = severity; factory = none }

-- The specs that the two `init` functions register, in their order.
unfoldable pub builtin_specs : List RuleSpec
builtin_specs =
    evaluated (codes "select-star") warning (λ s. check_select_star)
    ∷ evaluated (codes "leading-wildcard") warning
        (λ s. leading_wildcard_rule (int_setting s (codes "min-length") (pos 0)))
    ∷ evaluated (codes "delete-without-where") critical (λ s. check_delete_without_where)
    ∷ evaluated (codes "update-without-where") critical (λ s. check_update_without_where)
    ∷ evaluated (codes "insert-without-columns") warning (λ s. check_insert_without_columns)
    ∷ evaluated (codes "select-without-limit") warning (λ s. check_select_without_limit)
    ∷ evaluated (codes "orderby-without-limit") info (λ s. check_order_by_without_limit)
    ∷ evaluated (codes "non-sargable-predicate") warning (λ s. check_non_sargable_predicate)
    ∷ evaluated (codes "add-not-null-without-default") warning
        (λ s. check_add_not_null_without_default)
    ∷ evaluated (codes "implicit-join") warning (λ s. check_implicit_join)
    ∷ evaluated (codes "cartesian-join") warning (λ s. check_cartesian_join)
    ∷ evaluated (codes "in-list-too-large") warning
        (λ s. in_list_rule (int_setting s (codes "max-length") (pos 100)))
    ∷ evaluated (codes "large-offset") warning
        (λ s. large_offset_rule (int_setting s (codes "threshold") (pos 1000)))
    ∷ evaluated (codes "select-distinct") info (λ s. check_select_distinct)
    ∷ addressable (codes "slow-query") warning
    ∷ addressable (codes "n-plus-one") warning
    ∷ addressable (codes "seq-scan") info
    ∷ addressable (codes "high-cost") warning
    ∷ addressable (codes "full-table-scan") warning
    ∷ addressable (codes "no-index-used") warning
    ∷ addressable (codes "filesort") info
    ∷ []

unfoldable pub register_all : List RuleSpec → Registry → Registry
unfolding register
register_all [] registry = registry
register_all (spec ∷ rest) registry = register_all rest (register spec registry)

unfoldable pub builtin : Registry
unfolding register_all builtin_specs
builtin = register_all builtin_specs []
