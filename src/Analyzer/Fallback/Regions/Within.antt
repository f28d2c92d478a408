-- ===== src/Analyzer/Fallback/Regions/Within.antt =====
-- The FROM regions of analyzer/fallback.go lie in the text that they are cut from.
use sqlguard.Prelude.{
  ℕ, suc, max, ◌≤◌, sym, subst, Bool, Bool-cases, inl, inr, List, [], ◌∷◌, Bytes, All, length,
  keep_if, arith, ◌==◌,
}
use sqlguard.Analyzer.Lexer.Spans.{Span}
use sqlguard.Analyzer.Pattern.{Pattern, Match, find_all}
use sqlguard.Analyzer.Pattern.Bounds.{Ordered, find_all-Ordered}
use sqlguard.Analyzer.Fallback.Patterns.{fb_from_re, fb_from_region_end_re}
use sqlguard.Analyzer.Fallback.Parens.{top_level_matches, paren_depth_before}
use sqlguard.Analyzer.Fallback.Parens.Levels.{top_level_matches_lem}
use sqlguard.Analyzer.Fallback.Regions.{region_end, regions_of, from_regions}

-- A match of a text that ends at `to`.
abbrev IsMatch : ℕ → Match → Type 0
IsMatch to m = (m.lo ≤ to) × (m.lo ≤ m.hi) × (m.hi ≤ to)

-- A span that can be cut out of a text that ends at `to`.
abbrev pub IsSlice : ℕ → Span → Type 0
IsSlice to r = (r.lo ≤ r.hi) × (r.hi ≤ to)

Ordered-IsMatch : (i to : ℕ) (ms : List Match) → Ordered i to ms → All (IsMatch to) ms
Ordered-IsMatch i to [] h = tt
Ordered-IsMatch i to (m ∷ ms) (from, lo, hi, within, h) =
    ((omega arith, hi, within), Ordered-IsMatch (max (suc m.lo) m.hi) to ms h)

keep_if-All :
    (P : Match → Type 0) (p : Match → Bool) (ms : List Match) → All P ms → All P (keep_if p ms)
unfolding keep_if
keep_if-All P p [] h = tt
keep_if-All P p (m ∷ ms) (h, hs) = elim (Bool-cases (p m)) [
  | inl kept ↦ rw kept (h, keep_if-All P p ms hs)
  | inr out ↦ rw out (keep_if-All P p ms hs)
]

top_level_matches-IsMatch :
    (s : Bytes) (re : Pattern) → All (IsMatch (length s)) (top_level_matches s re)
top_level_matches-IsMatch s re =
    subst (All (IsMatch (length s))) (sym (top_level_matches_lem s re)) (
      keep_if-All (IsMatch (length s)) (λ m. paren_depth_before s m.lo == 0) (find_all re s)
        (Ordered-IsMatch 0 (length s) (find_all re s) (find_all-Ordered re s)))

region_end_bounds :
    (at to : ℕ) (ends : List Match)
    → at ≤ to
    → All (IsMatch to) ends
    → (at ≤ region_end at ends to) × (region_end at ends to ≤ to)
unfolding region_end
region_end_bounds at to [] le h = (le, omega arith)
region_end_bounds at to (e ∷ ends) le (h, hs) = ground (arith, region_end_bounds at to ends le hs)

regions_of-IsSlice :
    (ends : List Match) (to : ℕ) (froms : List Match)
    → All (IsMatch to) ends
    → All (IsMatch to) froms
    → All (IsSlice to) (regions_of ends to froms)
unfolding regions_of
regions_of-IsSlice ends to [] h k = tt
regions_of-IsSlice ends to (m ∷ froms) h ((_, _, within), ks) =
    (region_end_bounds m.hi to ends within h, regions_of-IsSlice ends to froms h ks)

-- Every FROM region starts no later than it ends, and ends within the text, so that cutting it out
-- is never out of range.
pub from_regions-IsSlice : (s : Bytes) → All (IsSlice (length s)) (from_regions s)
unfolding from_regions
from_regions-IsSlice s =
    regions_of-IsSlice (top_level_matches s fb_from_region_end_re) (length s)
      (top_level_matches s fb_from_re) (top_level_matches-IsMatch s fb_from_region_end_re)
      (top_level_matches-IsMatch s fb_from_re)
