-- ===== src/Analyzer/Engine/Builtin.antt =====
-- The built-in rules report their own names (analyzer/rules.go).
use sqlguard.Prelude.{
  ◌≡◌, List, [], ◌∷◌, some, Bytes, arith, All, equal, insert, codes, ◌≢◌, not, ◌&&◌, Bool-cases,
  inl, inr, ℤ,
}
use sqlguard.Analyzer.Types.{Statement, Result}
use sqlguard.Analyzer.Rules.{
  Rule, check_select_star, check_delete_without_where, check_update_without_where,
  check_insert_without_columns, check_select_without_limit, check_non_sargable_predicate,
  check_add_not_null_without_default, check_select_distinct, check_cartesian_join,
  check_implicit_join, check_order_by_without_limit, leading_wildcard_rule, in_list_rule,
  large_offset_rule,
}
use sqlguard.Analyzer.Registry.{
  Registry, RuleSpec, Profile, register_all, register, builtin_specs, builtin, skip,
}
use sqlguard.Analyzer.Suppress.{parse_ignore_directive}
use sqlguard.Analyzer.Suppress.Intersect.{suppresses}
use sqlguard.Analyzer.Engine.{default_with_profile, analyze}
use sqlguard.Analyzer.Engine.Reports.{IsNamed, registered, reported, reported-analyze, some_fires}

abbrev RuleIsNamed : Bytes → Rule → Type 0
RuleIsNamed name rule = (stmt : Statement) (r : Result) → rule stmt ≡ some r → r.rule_name ≡ name

check_select_star-RuleIsNamed : RuleIsNamed (codes "select-star") check_select_star
unfolding check_select_star
check_select_star-RuleIsNamed stmt r h = ground arith

check_delete_without_where-RuleIsNamed :
    RuleIsNamed (codes "delete-without-where") check_delete_without_where
unfolding check_delete_without_where
check_delete_without_where-RuleIsNamed stmt r h = ground arith

check_update_without_where-RuleIsNamed :
    RuleIsNamed (codes "update-without-where") check_update_without_where
unfolding check_update_without_where
check_update_without_where-RuleIsNamed stmt r h = ground arith

check_insert_without_columns-RuleIsNamed :
    RuleIsNamed (codes "insert-without-columns") check_insert_without_columns
unfolding check_insert_without_columns
check_insert_without_columns-RuleIsNamed stmt r h = ground arith

check_select_without_limit-RuleIsNamed :
    RuleIsNamed (codes "select-without-limit") check_select_without_limit
unfolding check_select_without_limit
check_select_without_limit-RuleIsNamed stmt r h = ground arith

check_non_sargable_predicate-RuleIsNamed :
    RuleIsNamed (codes "non-sargable-predicate") check_non_sargable_predicate
unfolding check_non_sargable_predicate
check_non_sargable_predicate-RuleIsNamed stmt r h = ground arith

check_add_not_null_without_default-RuleIsNamed :
    RuleIsNamed (codes "add-not-null-without-default") check_add_not_null_without_default
unfolding check_add_not_null_without_default
check_add_not_null_without_default-RuleIsNamed stmt r h = ground arith

check_select_distinct-RuleIsNamed : RuleIsNamed (codes "select-distinct") check_select_distinct
unfolding check_select_distinct
check_select_distinct-RuleIsNamed stmt r h = ground arith

check_cartesian_join-RuleIsNamed : RuleIsNamed (codes "cartesian-join") check_cartesian_join
unfolding check_cartesian_join
check_cartesian_join-RuleIsNamed stmt r h = ground arith

check_implicit_join-RuleIsNamed : RuleIsNamed (codes "implicit-join") check_implicit_join
unfolding check_implicit_join
check_implicit_join-RuleIsNamed stmt r h = ground arith

check_order_by_without_limit-RuleIsNamed :
    RuleIsNamed (codes "orderby-without-limit") check_order_by_without_limit
unfolding check_order_by_without_limit
check_order_by_without_limit-RuleIsNamed stmt r h = ground arith

leading_wildcard_rule-RuleIsNamed :
    (n : ℤ) → RuleIsNamed (codes "leading-wildcard") (leading_wildcard_rule n)
unfolding leading_wildcard_rule
leading_wildcard_rule-RuleIsNamed n stmt r h = ground arith

in_list_rule-RuleIsNamed : (n : ℤ) → RuleIsNamed (codes "in-list-too-large") (in_list_rule n)
unfolding in_list_rule
in_list_rule-RuleIsNamed n stmt r h = ground arith

large_offset_rule-RuleIsNamed : (n : ℤ) → RuleIsNamed (codes "large-offset") (large_offset_rule n)
unfolding large_offset_rule
large_offset_rule-RuleIsNamed n stmt r h = ground arith

builtin_specs-IsNamed : All IsNamed builtin_specs
unfolding builtin_specs
builtin_specs-IsNamed = (
  (λ s. check_select_star-RuleIsNamed),
  (
    (λ s. leading_wildcard_rule-RuleIsNamed _),
    (
      (λ s. check_delete_without_where-RuleIsNamed),
      (
        (λ s. check_update_without_where-RuleIsNamed),
        (
          (λ s. check_insert_without_columns-RuleIsNamed),
          (
            (λ s. check_select_without_limit-RuleIsNamed),
            (
              (λ s. check_order_by_without_limit-RuleIsNamed),
              (
                (λ s. check_non_sargable_predicate-RuleIsNamed),
                (
                  (λ s. check_add_not_null_without_default-RuleIsNamed),
                  (
                    (λ s. check_implicit_join-RuleIsNamed),
                    (
                      (λ s. check_cartesian_join-RuleIsNamed),
                      (
                        (λ s. in_list_rule-RuleIsNamed _),
                        (
                          (λ s. large_offset_rule-RuleIsNamed _),
                          (
                            (λ s. check_select_distinct-RuleIsNamed),
                            (tt, (tt, (tt, (tt, (tt, (tt, (tt, tt))))))),
                          ),
                        ),
                      ),
                    ),
                  ),
                ),
              ),
            ),
          ),
        ),
      ),
    ),
  ),
)

insert-IsNamed :
    (k : Bytes) (spec : RuleSpec) (m : Registry)
    → IsNamed spec
    → All IsNamed (registered m)
    → All IsNamed (registered (insert k spec m))
unfolding insert
insert-IsNamed k spec [] h hs = (h, tt)
insert-IsNamed k spec ((j, old) ∷ m) h (o, hs) = elim (Bool-cases (equal j k)) [
  | inl same ↦ rw same (h, hs)
  | inr other ↦ rw other (o, insert-IsNamed k spec m h hs)
]

register_all-IsNamed :
    (specs : List RuleSpec) (m : Registry)
    → All IsNamed specs
    → All IsNamed (registered m)
    → All IsNamed (registered (register_all specs m))
unfolding register_all
register_all-IsNamed [] m h hs = hs
register_all-IsNamed (spec ∷ specs) m (h, rest) hs =
    register_all-IsNamed specs (register spec m) rest (insert-IsNamed spec.name spec m h hs)

pub builtin-IsNamed : All IsNamed (registered builtin)
unfolding builtin
builtin-IsNamed = register_all-IsNamed builtin_specs [] builtin_specs-IsNamed tt

-- Under the built-in registry, with the fallback parser and any profile: a rule with a name is
-- reported
-- exactly if no directive in the SQL suppresses it, the profile does not skip it, and a built-in
-- of that name fires on the parsed statement under the profile's settings.
pub reported-analyze-builtin :
    (fallback : Bytes → Statement) (p : Profile) (sql name : Bytes)
    → name ≢ []
    → reported name (analyze fallback (default_with_profile fallback builtin p) sql) ≡ (
        not (suppresses (parse_ignore_directive sql) name)
        && not (skip p name)
        && some_fires p (fallback sql) name (registered builtin))
reported-analyze-builtin fallback p sql name =
    reported-analyze fallback builtin p sql name builtin-IsNamed
