-- ===== src/Analyzer/Fallback/Parens/Levels.antt =====
-- `topLevelMatches` of analyzer/fallback.go, which reads the text once, against the depth of each
-- match computed anew.
use sqlguard.Prelude.{
  ℕ, zero, suc, max, ◌+◌, ◌-◌, ◌≡◌, refl, sym, ap, ◌∙◌, Bool, List, [], ◌∷◌, Bytes, length, take,
  drop, keep_if, ◌==◌, arith,
}
use sqlguard.Analyzer.Pattern.{Pattern, Match, find_all}
use sqlguard.Analyzer.Pattern.Bounds.{Ordered, Ordered-weaken, find_all-Ordered}
use sqlguard.Analyzer.Fallback.Parens.{
  depth_step, depth_over, paren_depth_before, top_level_from, top_level_matches,
}

pub take_none : (n : ℕ) → take {A = ℕ} n [] ≡ []
take_none zero = refl
take_none (suc n) = refl

pub drop_none : (n : ℕ) → drop {A = ℕ} n [] ≡ []
drop_none zero = refl
drop_none (suc n) = refl

-- Reading on from a prefix is reading the longer prefix.
pub depth_over-take :
    (d n k : ℕ) (s : Bytes)
    → depth_over (depth_over d (take n s)) (take k (drop n s)) ≡ depth_over d (take (n + k) s)
unfolding depth_over
depth_over-take d zero k s = ap (λ m. depth_over d (take m s)) (omega arith)
depth_over-take d (suc n) k [] = ap (depth_over d) (take_none k ∙ sym (take_none (suc n + k)))
depth_over-take d (suc n) k (c ∷ s) =
    let long : suc (n + k) ≡ suc n + k = omega arith in
    depth_over-take (depth_step d c) n k s ∙ ap (λ m. depth_over d (take m (c ∷ s))) long

pub drop-drop : (n k : ℕ) (s : Bytes) → drop k (drop n s) ≡ drop (n + k) s
drop-drop zero k s = ap (λ m. drop m s) (omega arith)
drop-drop (suc n) k [] = drop_none k ∙ sym (drop_none (suc n + k))
drop-drop (suc n) k (c ∷ s) =
    let long : suc (n + k) ≡ suc n + k = omega arith in
    drop-drop n k s ∙ ap (λ m. drop m (c ∷ s)) long

abbrev is_top_level : Bytes → Match → Bool
is_top_level s m = paren_depth_before s m.lo == 0

top_level_from_lem :
    (s : Bytes) (pos to : ℕ) (ms : List Match)
    → Ordered pos to ms
    → top_level_from (depth_over 0 (take pos s)) pos (drop pos s) ms ≡ keep_if (is_top_level s) ms
unfolding top_level_from paren_depth_before keep_if
top_level_from_lem s pos to [] h = refl
top_level_from_lem s pos to (m ∷ ms) (le, _, _, _, h) =
    let at : pos + (m.lo - pos) ≡ m.lo = omega arith in
    let depth = depth_over-take 0 pos (m.lo - pos) s ∙ ap (λ n. depth_over 0 (take n s)) at in
    let rest = drop-drop pos (m.lo - pos) s ∙ ap (λ n. drop n s) at in
    let ih =
      top_level_from_lem s m.lo to ms
        (Ordered-weaken m.lo (max (suc m.lo) m.hi) to ms (omega arith) h) in
    rw (depth, at, rest, ih) refl

-- The one pass that carries the depth along keeps exactly the matches in front of which the depth,
-- counted from the start of the text, is zero.
pub top_level_matches_lem :
    (s : Bytes) (re : Pattern)
    → top_level_matches s re ≡ keep_if (λ m. paren_depth_before s m.lo == 0) (find_all re s)
unfolding top_level_matches
top_level_matches_lem s re =
    top_level_from_lem s 0 (length s) (find_all re s) (find_all-Ordered re s)
