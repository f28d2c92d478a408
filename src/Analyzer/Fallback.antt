-- ===== src/Analyzer/Fallback.antt =====
-- The fallback parser of analyzer/fallback.go.
pub mod Patterns
pub mod Parens
pub mod Blank
pub mod Regions
pub mod Kinds
pub mod Scope
use sqlguard.Prelude.{Bool, true, false, Bytes, ℕ, if◌then◌else◌}
use sqlguard.Analyzer.Types.{Statement, StmtKind, stmt_insert}
use sqlguard.Analyzer.Lexer.Comments.{strip_comments}
use sqlguard.Analyzer.Pattern.{matches}
use sqlguard.Analyzer.Fallback.Patterns.{
  keyword, all_of, any_of, fb_leading_wildcard_re, fb_from_re, fb_select_star_re,
  fb_select_distinct_re,
}
use sqlguard.Analyzer.Fallback.Blank.{blank_quoted, blank_string_literals}
use sqlguard.Analyzer.Fallback.Regions.{
  has_non_sargable_predicate, has_unsafe_add_not_null, has_implicit_comma_join, has_cartesian_join,
  has_top_level_order_by,
}
use sqlguard.Analyzer.Fallback.Kinds.{
  detect_kind, insert_columns_listed, leading_wildcard_term_len, max_in_list_len, max_offset,
}
use sqlguard.Analyzer.Fallback.Scope.{scoped_bounds}

abbrev is_insert : StmtKind → Bool
is_insert stmt_insert = true
is_insert _ = false

-- `FallbackParser.Parse`, which never fails.
unfoldable pub parse : Bytes → Statement
unfolding strip_comments blank_quoted matches keyword all_of any_of leading_wildcard_term_len
    detect_kind scoped_bounds has_top_level_order_by has_non_sargable_predicate
    has_unsafe_add_not_null has_implicit_comma_join has_cartesian_join max_in_list_len max_offset
    insert_columns_listed
parse sql =
    let no_comments = strip_comments sql in
    let wildcard = matches fb_leading_wildcard_re no_comments in
    let sanitized = blank_string_literals no_comments in
    let kind = detect_kind sanitized in
    let (has_where, has_limit) = scoped_bounds sanitized kind in
    record {
      raw = sql;
      kind = kind;
      has_where = has_where;
      has_limit = has_limit;
      has_order_by = has_top_level_order_by sanitized;
      has_from = matches fb_from_re sanitized;
      select_star = matches fb_select_star_re sanitized;
      select_distinct = matches fb_select_distinct_re sanitized;
      insert_columns_listed = if is_insert kind then insert_columns_listed sanitized else false;
      leading_wildcard_like = wildcard;
      non_sargable_predicate = has_non_sargable_predicate sanitized;
      add_not_null_no_default = has_unsafe_add_not_null sanitized;
      implicit_comma_join = has_implicit_comma_join sanitized;
      cartesian_join = has_cartesian_join sanitized;
      max_in_list_len = max_in_list_len sanitized;
      offset_value = max_offset sanitized;
      leading_wildcard_term_len = if wildcard then leading_wildcard_term_len no_comments else 0;
      exact = false;
    }
