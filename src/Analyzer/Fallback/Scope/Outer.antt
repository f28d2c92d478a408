-- ===== src/Analyzer/Fallback/Scope/Outer.antt =====
-- `scopedBounds` of analyzer/fallback.go on a statement that is no SELECT, where every parenthesis
-- limits the scope: the one pass against the depth of each match computed anew.
use sqlguard.Prelude.{
  ℕ, suc, max, ◌+◌, ◌-◌, ◌≡◌, refl, sym, ap, ◌∙◌, subst, Bool, true, false, ◌&&◌, ◌||◌, Bool-cases,
  inl, inr, List, [], ◌∷◌, Bytes, All, length, take, drop, ◌==◌, arith,
}
use sqlguard.Analyzer.Types.{StmtKind}
use sqlguard.Analyzer.Lexer.Spans.{Span}
use sqlguard.Analyzer.Pattern.{Match, find_all}
use sqlguard.Analyzer.Pattern.Bounds.{Ordered, Ordered-weaken, find_all-Ordered}
use sqlguard.Analyzer.Fallback.Patterns.{fb_where_re, fb_limit_re}
use sqlguard.Analyzer.Fallback.Parens.{
  depth_step, depth_over, paren_depth_before, unwrap_statement_parens,
}
use sqlguard.Analyzer.Fallback.Parens.Levels.{depth_over-take, drop-drop}
use sqlguard.Analyzer.Fallback.Regions.{any_top_level, has_top_level_where, is_empty}
use sqlguard.Analyzer.Fallback.Scope.{
  RowScope, pop_opened, advance, is_select, scope_step, bounds_from, no_scope, scoped_bounds,
}

-- As many parentheses are open as the depth says, and none is a row source.
abbrev Deep : RowScope → ℕ → Type 0
Deep sc depth = (sc.non_row ≡ depth) × (length sc.opened ≡ depth) × All (λ b. b ≡ true) sc.opened

pop_opened-Deep :
    (sc : RowScope) (opened : List Bool) (depth : ℕ)
    → sc.opened ≡ opened
    → Deep sc depth
    → Deep (pop_opened sc opened) (depth - 1)
pop_opened-Deep sc [] depth e (count, size, all) =
    let none_open : length sc.opened ≡ 0 = ap (λ (l : List Bool). length l) e in
    (omega arith, omega arith, all)
pop_opened-Deep sc (b ∷ opened) depth e (count, size, all) =
    let one_open : length sc.opened ≡ suc (length opened) = ap (λ (l : List Bool). length l) e in
    let (first, others) = subst (All (λ b. b ≡ true)) e all in
    rw first (omega arith, omega arith, others)

scope_step-Deep :
    (s : Bytes) (kind : StmtKind) (froms : List Span) (sc : RowScope) (i c depth : ℕ)
    → is_select kind ≡ false
    → Deep sc depth
    → Deep (scope_step s kind froms sc i c) (depth_step depth c)
unfolding scope_step
scope_step-Deep s kind froms sc i c depth other (count, size, all) = elim (Bool-cases (c == b'(')) [
  | inl opens ↦ rw (opens, other) (ap suc count, ap suc size, (refl, all))
  | inr on ↦ elim (Bool-cases (c == b')')) [
    | inl closes ↦ rw (on, closes) (pop_opened-Deep sc sc.opened depth refl (count, size, all))
    | inr plain ↦ rw (on, plain) (count, size, all)
  ]
]

or_assoc : (a b c : Bool) → (a || (b || c)) ≡ ((a || b) || c)
or_assoc true b c = refl
or_assoc false b c = refl

-- One match list at one index: what is found, and what is left of the list.
advance_lem :
    (s : Bytes) (i to : ℕ) (wl : List Match) (found outer : Bool)
    → Ordered i to wl
    → (paren_depth_before s i == 0) ≡ outer
    → Ordered (suc i) to (advance wl i).0
      × ((found || any_top_level s wl)
          ≡ ((found || ((advance wl i).1 && outer)) || any_top_level s (advance wl i).0))
unfolding any_top_level
advance_lem s i to [] found outer h e = (tt, ground arith)
advance_lem s i to (m ∷ ms) found outer (from, lo, hi, within, h) e =
    elim (Bool-cases (m.lo == i)) [
      | inl here ↦
          let at : m.lo ≡ i = ground arith in
          let outer' : (paren_depth_before s m.lo == 0) ≡ outer =
            ap (λ n. paren_depth_before s n == 0) at ∙ e in
          rw here (
            Ordered-weaken (suc i) (max (suc m.lo) m.hi) to ms (omega arith) h,
            rw outer' (or_assoc found outer (any_top_level s ms)),
          )
      | inr later ↦ rw later ((ground arith, lo, hi, within, h), ground arith)
    ]

-- The depth behind one more byte.
depth_next :
    (s : Bytes) (i c : ℕ) (rest : Bytes)
    → drop i s ≡ c ∷ rest
    → paren_depth_before s (suc i) ≡ depth_step (paren_depth_before s i) c
unfolding paren_depth_before depth_over
depth_next s i c rest e =
    let long : i + 1 ≡ suc i = omega arith in
    sym (depth_over-take 0 i 1 s ∙ ap (λ n. depth_over 0 (take n s)) long)
    ∙ ap (λ l. depth_over (depth_over 0 (take i s)) (take 1 l)) e

no_matches : (s : Bytes) (i : ℕ) (ms : List Match) → Ordered i i ms → any_top_level s ms ≡ false
unfolding any_top_level
no_matches s i [] h = refl
no_matches s i (m ∷ ms) (from, lo, _, _, h) = absurd (omega (arith, from, lo))

or_none : (a : Bool) → a ≡ (a || false)
or_none true = refl
or_none false = refl

both : {a a' b b' : Bool} → a ≡ a' → b ≡ b' → ◌≡◌ {A = Bool × Bool} (a, b) (a', b')
both p q = cc

bounds_from_lem :
    (s : Bytes) (kind : StmtKind) (froms : List Span) (sc : RowScope) (i to : ℕ)
    (wl ll : List Match) (w l : Bool) (rest : Bytes)
    → is_select kind ≡ false
    → drop i s ≡ rest
    → i + length rest ≡ to
    → Deep sc (paren_depth_before s i)
    → Ordered i to wl
    → Ordered i to ll
    → bounds_from s kind froms sc i wl ll (w, l) rest
      ≡ (w || any_top_level s wl, l || any_top_level s ll)
unfolding bounds_from
bounds_from_lem s kind froms sc i to wl ll w l [] other at end deep ow ol =
    let i' : i ≡ to = omega arith in
    let nw = no_matches s i wl (subst (λ n. Ordered i n wl) (sym i') ow) in
    let nl = no_matches s i ll (subst (λ n. Ordered i n ll) (sym i') ol) in
    rw (nw, nl) (both (or_none w) (or_none l))
bounds_from_lem s kind froms sc i to wl ll w l (c ∷ rest) other at end deep ow ol =
    let outer : (paren_depth_before s i == 0) ≡ (sc.non_row == 0) = ap (λ n. n == 0) (sym deep.0) in
    let (ow', same_w) = advance_lem s i to wl w (sc.non_row == 0) ow outer in
    let (ol', same_l) = advance_lem s i to ll l (sc.non_row == 0) ol outer in
    let long : i + 1 ≡ suc i = omega arith in
    let at' : drop (suc i) s ≡ rest =
      sym (drop-drop i 1 s ∙ ap (λ n. drop n s) long) ∙ ap (drop 1) at in
    let deep' =
      subst (Deep (scope_step s kind froms sc i c)) (sym (depth_next s i c rest at))
        (scope_step-Deep s kind froms sc i c (paren_depth_before s i) other deep) in
    bounds_from_lem s kind froms (scope_step s kind froms sc i c) (suc i) to (advance wl i).0
      (advance ll i).0 (w || ((advance wl i).1 && (sc.non_row == 0)))
      (l || ((advance ll i).1 && (sc.non_row == 0))) rest other at' (omega arith) deep' ow' ol'
    ∙ both (sym same_w) (sym same_l)

any_top_level_empty :
    (s : Bytes) (ms : List Match) → is_empty ms ≡ true → any_top_level s ms ≡ false
unfolding any_top_level
any_top_level_empty s [] h = refl
any_top_level_empty s (m ∷ ms) h = ground arith

-- On a statement that is no SELECT, a WHERE (or a LIMIT) bounds the rows exactly if one stands
-- outside all parentheses, once those around the whole statement are taken off.
pub scoped_bounds_lem :
    (sanitized : Bytes) (kind : StmtKind)
    → is_select kind ≡ false
    → let s = unwrap_statement_parens sanitized in
      scoped_bounds sanitized kind
      ≡ (has_top_level_where s, any_top_level s (find_all fb_limit_re s))
unfolding scoped_bounds has_top_level_where
scoped_bounds_lem sanitized kind other =
    let s = unwrap_statement_parens sanitized in
    let wl = find_all fb_where_re s in
    let ll = find_all fb_limit_re s in
    elim (Bool-cases (is_empty wl && is_empty ll)) [
      | inl nothing ↦
          let w : is_empty wl ≡ true = ground arith in
          let l : is_empty ll ≡ true = ground arith in
          rw nothing (both (sym (any_top_level_empty s wl w)) (sym (any_top_level_empty s ll l)))
      | inr something ↦
          rw (something, other)
            (bounds_from_lem s kind [] no_scope 0 (length s) wl ll false false s other refl
              (omega arith) (refl, refl, tt) (find_all-Ordered fb_where_re s)
              (find_all-Ordered fb_limit_re s))
    ]
