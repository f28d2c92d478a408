-- ===== src/Tests/Parsing.antt =====
-- The fallback parser at concrete statements: analyzer/fallback.go.
use sqlguard.Prelude.{
  ℕ, ◌≤◌, ◌==◌, All, length, keep_if, ◌≡◌, refl, true, false, [], ◌∷◌, Bytes, codes,
}
use sqlguard.Analyzer.Types.{stmt_select, stmt_insert, stmt_delete}
use sqlguard.Analyzer.Fallback.{parse}
use sqlguard.Analyzer.Pattern.{find_all}
use sqlguard.Analyzer.Fallback.Patterns.{fb_from_re, fb_limit_re}
use sqlguard.Analyzer.Fallback.Parens.{
  split_top_level_commas, top_level_matches, paren_depth_before, unwrap_statement_parens,
  unwrap_from,
}
use sqlguard.Analyzer.Fallback.Parens.Split.{
  join_commas, cut_at, is_top_comma, split_top_level_commas_lem,
}
use sqlguard.Analyzer.Fallback.Parens.Levels.{top_level_matches_lem}
use sqlguard.Analyzer.Fallback.Parens.Enclosed.{Encloses}
use sqlguard.Analyzer.Fallback.Parens.Unwrap.{Unwraps, unwrap_statement_parens_lem}
use sqlguard.Analyzer.Fallback.Regions.{from_regions, has_top_level_where, any_top_level}
use sqlguard.Analyzer.Fallback.Regions.Within.{IsSlice, from_regions-IsSlice}
use sqlguard.Analyzer.Fallback.Scope.Outer.{scoped_bounds_lem}
use sqlguard.Analyzer.Fallback.Kinds.{detect_kind, max_offset, max_in_list_len}
use sqlguard.Analyzer.Fallback.Blank.{is_multi_statement}
use sqlguard.Analyzer.Fallback.Regions.{has_cartesian_join, has_non_sargable_predicate}
use sqlguard.Analyzer.Fallback.Scope.{scoped_bounds}

kind_of_replace : detect_kind (codes "REPLACE INTO t VALUES (1)") ≡ stmt_insert
unfolding detect_kind
kind_of_replace = refl

offset_of_limit : max_offset (codes "SELECT a FROM t LIMIT 20, 5 OFFSET 7") ≡ 20
unfolding max_offset
offset_of_limit = refl

in_list : max_in_list_len (codes "x NOT IN (1,2,f(3,4)) OR y IN (SELECT 1,2,3,4)") ≡ 3
unfolding max_in_list_len
in_list = refl

lower_of_column : has_non_sargable_predicate (codes "SELECT 1 FROM t WHERE LOWER(a) = 'x'") ≡ true
unfolding has_non_sargable_predicate
lower_of_column = refl

cross : has_cartesian_join (codes "SELECT 1 FROM a CROSS JOIN b") ≡ true
unfolding has_cartesian_join
cross = refl

bounds : scoped_bounds (codes "(SELECT 1 FROM (SELECT 2 LIMIT 3) q);") stmt_select ≡ (false, true)
unfolding scoped_bounds
bounds = refl

statements : is_multi_statement (codes "SELECT $$'$$; DROP TABLE t") ≡ true
unfolding is_multi_statement
statements = refl

whole : (parse (codes "SELECT * FROM t -- WHERE")).has_where ≡ false
unfolding parse
whole = refl

abbrev text : Bytes
text = codes "f(a,b), (c),d"

split_top_level_commas_lem_example :
    (join_commas (split_top_level_commas text) ≡ text)
    × (All (λ seg. split_top_level_commas seg ≡ seg ∷ []) (split_top_level_commas text)
        × ((i : ℕ) → cut_at i (split_top_level_commas text) ≡ is_top_comma 0 text i))
split_top_level_commas_lem_example = split_top_level_commas_lem text

abbrev nested : Bytes
nested = codes "SELECT (SELECT 1 FROM t) FROM u"

top_level_matches_lem_example :
    top_level_matches nested fb_from_re
    ≡ keep_if (λ m. paren_depth_before nested m.lo == 0) (find_all fb_from_re nested)
top_level_matches_lem_example = top_level_matches_lem nested fb_from_re

abbrev wrapped : Bytes
wrapped = codes " ((SELECT 1) );"

unwrap_statement_parens_lem_example :
    Unwraps wrapped (unwrap_statement_parens wrapped)
    × (((inner : Bytes) → ¬ Encloses (unwrap_statement_parens wrapped) inner)
        × ((fuel : ℕ)
            → length wrapped ≤ fuel
            → unwrap_from fuel wrapped ≡ unwrap_statement_parens wrapped))
unwrap_statement_parens_lem_example = unwrap_statement_parens_lem wrapped

from_regions-IsSlice_example : All (IsSlice (length nested)) (from_regions nested)
from_regions-IsSlice_example = from_regions-IsSlice nested

scoped_bounds_lem_example :
    scoped_bounds (codes "DELETE FROM t WHERE a IN (SELECT 1 LIMIT 2)") stmt_delete ≡ (
      has_top_level_where
          (unwrap_statement_parens (codes "DELETE FROM t WHERE a IN (SELECT 1 LIMIT 2)")),
      any_top_level
          (unwrap_statement_parens (codes "DELETE FROM t WHERE a IN (SELECT 1 LIMIT 2)"))
          (find_all fb_limit_re
            (unwrap_statement_parens (codes "DELETE FROM t WHERE a IN (SELECT 1 LIMIT 2)"))),
    )
scoped_bounds_lem_example =
    scoped_bounds_lem (codes "DELETE FROM t WHERE a IN (SELECT 1 LIMIT 2)") stmt_delete refl
