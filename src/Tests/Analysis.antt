-- ===== src/Tests/Analysis.antt =====
-- The analyzer at concrete statements: analyzer/analyzer.go and registry.go.
use sqlguard.Prelude.{
  ◌≡◌, refl, true, false, not, ◌&&◌, [], ◌∷◌, Bytes, codes, All, lookup, insert, equal,
}
use sqlguard.Analyzer.Types.{Statement, stmt_delete, dialect_unknown}
use sqlguard.Analyzer.Rules.{
  check_add_not_null_without_default, check_cartesian_join, check_delete_without_where,
}
use sqlguard.Analyzer.Registry.{Profile, skip, specs, builtin}
use sqlguard.Analyzer.Suppress.{parse_ignore_directive}
use sqlguard.Analyzer.Suppress.Intersect.{suppresses}
use sqlguard.Analyzer.Engine.{default_with_profile, analyze}
use sqlguard.Analyzer.Engine.Reports.{reported, registered, some_fires}
use sqlguard.Analyzer.Engine.Reports.Fields.{IsPrepared, analyze-IsPrepared}
use sqlguard.Analyzer.Engine.Builtin.{reported-analyze-builtin}

-- A parser that takes every text for a `DELETE` with no `WHERE`.
abbrev pub delete_all : Bytes → Statement
delete_all sql = record {
  raw = sql;
  kind = stmt_delete;
  has_where = false;
  has_limit = false;
  has_order_by = false;
  has_from = true;
  select_star = false;
  select_distinct = false;
  insert_columns_listed = false;
  leading_wildcard_like = false;
  non_sargable_predicate = false;
  add_not_null_no_default = false;
  implicit_comma_join = false;
  cartesian_join = false;
  max_in_list_len = 0;
  offset_value = 0;
  leading_wildcard_term_len = 0;
  exact = false;
}

abbrev profile : Profile
profile = record {
  disabled = (codes "select-star", true) ∷ [];
  only = [];
  severity = [];
  settings = [];
  raw_query = false;
  dialect = dialect_unknown;
}

abbrev rule : Bytes
rule = codes "delete-without-where"

abbrev pub sql : Bytes
sql = codes "DELETE FROM t"

delete_is_reported :
    reported rule (analyze delete_all (default_with_profile delete_all builtin profile) sql) ≡ true
unfolding analyze default_with_profile builtin specs reported lookup insert equal
    check_add_not_null_without_default check_cartesian_join check_delete_without_where
delete_is_reported = refl

reported-analyze-builtin_example :
    reported rule (analyze delete_all (default_with_profile delete_all builtin profile) sql) ≡ (
      not (suppresses (parse_ignore_directive sql) rule)
      && not (skip profile rule)
      && some_fires profile (delete_all sql) rule (registered builtin))
reported-analyze-builtin_example = reported-analyze-builtin delete_all profile sql rule (λ e. cc)

analyze-IsPrepared_example :
    All
      (IsPrepared (default_with_profile delete_all builtin profile) sql)
      (analyze delete_all (default_with_profile delete_all builtin profile) sql)
analyze-IsPrepared_example =
    analyze-IsPrepared delete_all (default_with_profile delete_all builtin profile) sql
