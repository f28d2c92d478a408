-- ===== src/Analyzer/Fallback/Scope.antt =====
-- `scopedBounds` of analyzer/fallback.go and what it calls.
pub mod Outer
use sqlguard.Prelude.{
  ℕ, zero, suc, ◌+◌, ◌-◌, Bool, true, false, not, ◌&&◌, ◌||◌, List, [], ◌∷◌, Option, none, some,
  Bytes, codes, length, get_elem?, take, drop, leb, ltb, ◌==◌, if◌then◌else◌,
}
use sqlguard.Analyzer.Types.{StmtKind, stmt_select}
use sqlguard.Analyzer.Lexer.Chars.{is_ident_byte}
use sqlguard.Analyzer.Lexer.Spans.{Span}
use sqlguard.Analyzer.Suppress.{in_spans}
use sqlguard.Analyzer.Pattern.{Match, find_all}
use sqlguard.Analyzer.Fallback.Patterns.{keyword, all_of, fb_where_re, fb_limit_re}
use sqlguard.Analyzer.Fallback.Parens.{unwrap_statement_parens}
use sqlguard.Analyzer.Fallback.Regions.{is_empty, from_regions}

-- `strings.TrimRight(s, " \t\r\n")`.
abbrev is_blank : ℕ → Bool
is_blank c = c == b' ' || c == 9 || c == 10 || c == 13

unfoldable pub trim_right : Bytes → Bytes
trim_right [] = []
trim_right (c ∷ s) = let kept = trim_right s in if is_empty kept && is_blank c then [] else c ∷ kept

abbrev upper : ℕ → ℕ
upper c = if leb b'a' c && leb c b'z' then c - 32 else c

-- `strings.EqualFold` with a word of ASCII in upper case, of the same length in bytes: a character
-- of several bytes would make the text shorter in runes.
unfoldable pub equal_fold : Bytes → Bytes → Bool
equal_fold [] [] = true
equal_fold [] (n ∷ w) = false
equal_fold (c ∷ p) [] = false
equal_fold (c ∷ p) (n ∷ w) = upper c == n && equal_fold p w

abbrev joins_word : Option ℕ → Bool
joins_word none = false
joins_word (some c) = is_ident_byte c

unfoldable pub has_trailing_word : Bytes → Bytes → Bool
unfolding equal_fold is_ident_byte
has_trailing_word p w =
    let at = length p - length w in
    if ltb (length p) (length w) || not (equal_fold (drop at p) w)
    then false
    else length p == length w || not (joins_word (get_elem? p (at - 1)))

unfoldable pub trim_trailing_word : Bytes → Bytes → Bytes
unfolding has_trailing_word trim_right
trim_trailing_word p w =
    if has_trailing_word p w then trim_right (take (length p - length w) p) else p

unfoldable pub opens_cte_body : Bytes → Bool
unfolding trim_trailing_word trim_right has_trailing_word
opens_cte_body prefix =
    let p = trim_trailing_word (trim_right prefix) (codes "MATERIALIZED") in
    has_trailing_word (trim_trailing_word p (codes "NOT")) (codes "AS")

-- `strings.HasSuffix(p, ",")`.
unfoldable pub ends_comma : Bytes → Bool
ends_comma [] = false
ends_comma (c ∷ []) = c == b','
ends_comma (c ∷ d ∷ p) = ends_comma (d ∷ p)

-- `opensRowSource` behind its trimming.
abbrev row_source_words : Bytes → Bool
row_source_words p =
    let q = trim_trailing_word (trim_trailing_word p (codes "ALL")) (codes "DISTINCT") in
    has_trailing_word p (codes "JOIN")
    || has_trailing_word p (codes "LATERAL")
    || has_trailing_word q (codes "UNION")
    || has_trailing_word q (codes "INTERSECT")
    || has_trailing_word q (codes "EXCEPT")

unfoldable pub opens_row_source : Bytes → Bool → Bool
unfolding trim_right trim_trailing_word has_trailing_word opens_cte_body ends_comma
opens_row_source prefix in_from =
    let p = trim_right prefix in
    if is_empty p || (in_from && ends_comma p)
    then true
    else if has_trailing_word p (codes "FROM")
        && not (has_trailing_word (trim_trailing_word p (codes "FROM")) (codes "DISTINCT"))
    then true
    else row_source_words p || opens_cte_body p

-- The open parentheses, the innermost first; an entry is true for one that is no row source.
pub record RowScope : Type 0 where
  pub opened : List Bool
  pub non_row : ℕ

abbrev pub push : RowScope → Bool → RowScope
push r not_row_source = record {
  opened = not_row_source ∷ r.opened;
  non_row = if not_row_source then suc r.non_row else r.non_row;
}

abbrev pub pop_opened : RowScope → List Bool → RowScope
pop_opened r [] = r
pop_opened r (not_row_source ∷ opened) = record {
  opened = opened;
  non_row = if not_row_source then r.non_row - 1 else r.non_row;
}

abbrev pub pop : RowScope → RowScope
pop r = pop_opened r r.opened

-- `advance`: the first match is consumed where it starts.
abbrev pub advance : List Match → ℕ → List Match × Bool
advance [] i = ([], false)
advance (loc ∷ locs) i = if loc.lo == i then (locs, true) else (loc ∷ locs, false)

abbrev pub is_select : StmtKind → Bool
is_select stmt_select = true
is_select _ = false

-- The scope behind the byte `c` with index `i`.
unfoldable pub scope_step : Bytes → StmtKind → List Span → RowScope → ℕ → ℕ → RowScope
unfolding opens_row_source in_spans
scope_step s kind froms sc i c =
    if c == b'('
    then push sc (
        not (is_select kind)
        || not (opens_row_source (take i s) (is_empty sc.opened && in_spans i froms)))
    else if c == b')'
    then pop sc
    else sc

-- The loop, over the bytes of `s` from `i` on.
unfoldable pub bounds_from :
    Bytes
    → StmtKind
    → List Span
    → RowScope
    → ℕ
    → List Match
    → List Match
    → Bool × Bool
    → Bytes
    → Bool × Bool
unfolding scope_step
bounds_from s kind froms sc i wl ll found [] = found
bounds_from s kind froms sc i wl ll (where_found, limit_found) (c ∷ rest) =
    let (wl', where_hit) = advance wl i in
    let (ll', limit_hit) = advance ll i in
    let outer = sc.non_row == 0 in
    bounds_from s kind froms (scope_step s kind froms sc i c) (suc i) wl' ll'
      (where_found || (where_hit && outer), limit_found || (limit_hit && outer)) rest

abbrev pub no_scope : RowScope
no_scope = record { opened = []; non_row = 0 }

unfoldable pub scoped_bounds : Bytes → StmtKind → Bool × Bool
unfolding bounds_from from_regions find_all unwrap_statement_parens keyword all_of
scoped_bounds sanitized kind =
    let s = unwrap_statement_parens sanitized in
    let wl = find_all fb_where_re s in
    let ll = find_all fb_limit_re s in
    let froms = if is_select kind then from_regions s else [] in
    if is_empty wl && is_empty ll
    then (false, false)
    else bounds_from s kind froms no_scope 0 wl ll (false, false) s
