-- ===== src/Analyzer/Fallback/Regions.antt =====
-- The WHERE and FROM regions of analyzer/fallback.go, and the checks that read them. Their input
-- is free of comments and of the contents of literals.
pub mod Within
use sqlguard.Prelude.{
  is_one_of, ℕ, suc, ◌+◌, Bool, true, false, not, ◌&&◌, ◌||◌, List, [], ◌∷◌, ◌++◌, Option, none,
  some, Bytes, codes, length, take, drop, leb, ltb, ◌==◌, equal, if◌then◌else◌,
}
use sqlguard.Analyzer.Lexer.Cases.{to_lower}
use sqlguard.Analyzer.Lexer.Spans.{Span}
use sqlguard.Analyzer.Pattern.{Pattern, Match, find, find_all, matches, slice, submatch, group_text}
use sqlguard.Analyzer.Fallback.Patterns.{
  keyword, all_of, any_of, fb_where_re, fb_order_by_re, fb_from_re, fb_where_region_end_re,
  fb_func_on_column_re, fb_arg_ident_re, fb_alter_table_re, fb_add_action_re, fb_not_null_re,
  fb_default_re, fb_from_region_end_re, fb_join_re, fb_join_cond_re,
}
use sqlguard.Analyzer.Fallback.Parens.{
  paren_depth_before, split_top_level_commas, unwrap_statement_parens, top_level_matches,
}

abbrev pub fb_non_sargable_skip_funcs : List Bytes
fb_non_sargable_skip_funcs =
    codes "in"
    ∷ codes "exists"
    ∷ codes "any"
    ∷ codes "all"
    ∷ codes "some"
    ∷ codes "and"
    ∷ codes "or"
    ∷ codes "not"
    ∷ []

abbrev pub fb_add_non_column_keywords : List Bytes
fb_add_non_column_keywords =
    codes "constraint"
    ∷ codes "primary"
    ∷ codes "foreign"
    ∷ codes "unique"
    ∷ codes "check"
    ∷ codes "key"
    ∷ codes "index"
    ∷ []

abbrev pub is_empty {ℓ} : {A : Type ℓ} → List A → Bool
is_empty [] = true
is_empty (_ ∷ _) = false

-- The first match at depth zero ends the region.
unfoldable pub cut_region : Bytes → List Match → Bytes
unfolding paren_depth_before
cut_region region [] = region
cut_region region (end ∷ ends) =
    let later = cut_region region ends in
    if paren_depth_before region end.lo == 0 then take end.lo region else later

unfoldable pub where_region : Bytes → Bytes
unfolding cut_region find find_all keyword all_of any_of
where_region sanitized = elim (find fb_where_re sanitized) [
  | none ↦ []
  | some loc ↦
      let region = drop loc.hi sanitized in
      cut_region region (find_all fb_where_region_end_re region)
]

-- The loop of `hasNonSargablePredicate`, over the calls in front of an operator.
unfoldable pub wraps_column : Bytes → List Match → Bool
unfolding is_one_of to_lower matches group_text keyword all_of any_of
wraps_column region [] = false
wraps_column region (m ∷ ms) =
    let later = wraps_column region ms in
    if is_one_of fb_non_sargable_skip_funcs (to_lower (submatch 1 m region))
    then later
    else if not (matches fb_arg_ident_re (submatch 2 m region))
    then later
    else true

unfoldable pub has_non_sargable_predicate : Bytes → Bool
unfolding wraps_column where_region find_all keyword all_of any_of
has_non_sargable_predicate sanitized =
    let region = where_region sanitized in
    if is_empty region then false else wraps_column region (find_all fb_func_on_column_re region)

-- One segment of an ALTER TABLE, by its first ADD action.
unfoldable pub is_unsafe_add : Bytes → Option Match → Bool
unfolding is_one_of to_lower matches group_text keyword all_of any_of
is_unsafe_add seg none = false
is_unsafe_add seg (some m) =
    if is_one_of fb_add_non_column_keywords (to_lower (submatch 1 m seg))
    then false
    else matches fb_not_null_re seg && not (matches fb_default_re seg)

unfoldable pub any_unsafe_add : List Bytes → Bool
unfolding is_unsafe_add find keyword all_of any_of
any_unsafe_add [] = false
any_unsafe_add (seg ∷ segs) = is_unsafe_add seg (find fb_add_action_re seg) || any_unsafe_add segs

unfoldable pub has_unsafe_add_not_null : Bytes → Bool
unfolding any_unsafe_add matches split_top_level_commas keyword all_of any_of
has_unsafe_add_not_null sanitized =
    if not (matches fb_alter_table_re sanitized)
    then false
    else any_unsafe_add (split_top_level_commas sanitized)

-- The start of the first end that is not before `at`, or the text's end.
unfoldable pub region_end : ℕ → List Match → ℕ → ℕ
region_end at [] last = last
region_end at (e ∷ ends) last =
    let later = region_end at ends last in if leb at e.lo then e.lo else later

unfoldable pub regions_of : List Match → ℕ → List Match → List Span
unfolding region_end
regions_of ends last [] = []
regions_of ends last (loc ∷ froms) =
    record { lo = loc.hi; hi = region_end loc.hi ends last } ∷ regions_of ends last froms

unfoldable pub from_regions : Bytes → List Span
unfolding regions_of top_level_matches keyword all_of any_of
from_regions sanitized =
    regions_of (top_level_matches sanitized fb_from_region_end_re) (length sanitized)
      (top_level_matches sanitized fb_from_re)

abbrev first_region : List Span → Span
first_region [] = record { lo = 0; hi = 0 }
first_region (r ∷ _) = r

abbrev pub from_region_bounds : Bytes → Span
from_region_bounds sanitized = first_region (from_regions sanitized)

abbrev pub from_region : Bytes → Bytes
from_region sanitized = let r = from_region_bounds sanitized in slice r.lo r.hi sanitized

abbrev pub has_several : Bytes → Bool
has_several s = ltb 1 (length (split_top_level_commas s))

unfoldable pub has_implicit_comma_join : Bytes → Bool
unfolding from_regions split_top_level_commas
has_implicit_comma_join sanitized =
    let region = from_region sanitized in if is_empty region then false else has_several region

-- The loops that look for a match at depth zero.
unfoldable pub any_top_level : Bytes → List Match → Bool
unfolding paren_depth_before
any_top_level s [] = false
any_top_level s (loc ∷ locs) = paren_depth_before s loc.lo == 0 || any_top_level s locs

unfoldable pub has_top_level_where : Bytes → Bool
unfolding any_top_level find_all keyword all_of
has_top_level_where sanitized = any_top_level sanitized (find_all fb_where_re sanitized)

unfoldable pub has_top_level_join : Bytes → Bool
unfolding any_top_level find_all keyword all_of
has_top_level_join region = any_top_level region (find_all fb_join_re region)

unfoldable pub has_top_level_order_by : Bytes → Bool
unfolding any_top_level find_all unwrap_statement_parens keyword all_of
has_top_level_order_by sanitized =
    let s = unwrap_statement_parens sanitized in any_top_level s (find_all fb_order_by_re s)

unfoldable pub has_cartesian_join : Bytes → Bool
unfolding from_regions split_top_level_commas has_top_level_join has_top_level_where matches keyword
    all_of any_of
has_cartesian_join sanitized =
    let region = from_region sanitized in
    if is_empty region
    then false
    else if not (has_several region || has_top_level_join region)
    then false
    else not (matches fb_join_cond_re region || has_top_level_where sanitized)
