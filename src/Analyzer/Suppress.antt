-- ===== src/Analyzer/Suppress.antt =====
-- The `sqlguard:ignore` directives of analyzer/suppress.go.
pub mod Intersect
pub mod Readings
pub mod Scanned
use sqlguard.Prelude.{
  ℕ, zero, suc, ◌+◌, ◌-◌, Bool, true, false, not, ◌&&◌, ◌||◌, List, [], ◌∷◌, ◌++◌, Option, none,
  some, Bytes, codes, Map, insert, has, length, take, drop, min, leb, ltb, ◌==◌, equal,
  if◌then◌else◌,
}
use sqlguard.Analyzer.Lexer.Space.{trim_space}
use sqlguard.Analyzer.Lexer.Scan.{scan_quoted_run, scan_dollar_quoted, count_while}
use sqlguard.Analyzer.Lexer.Spans.{Span}
use sqlguard.Analyzer.Lexer.Comments.{skip_line_comment, skip_block_comment, starts_with}
use sqlguard.Analyzer.Lexer.Union.{has_byte}
use sqlguard.Analyzer.Lexer.Tokens.{Reading, lex_sql}

unfoldable pub in_spans : ℕ → List Span → Bool
in_spans pos [] = false
in_spans pos (s ∷ spans) = (leb s.lo pos && ltb pos s.hi) || in_spans pos spans

unfoldable pub in_any_spans : List (List Span) → ℕ → Bool
unfolding in_spans
in_any_spans [] pos = false
in_any_spans (spans ∷ readings) pos = in_spans pos spans || in_any_spans readings pos

abbrev lower : ℕ → ℕ
lower c = if leb b'A' c && leb c b'Z' then c + 32 else c

-- The needle, in lower case, is at the front in any case (`strings.EqualFold` on ASCII).
unfoldable pub fold_prefix : Bytes → Bytes → Bool
fold_prefix [] s = true
fold_prefix (n ∷ needle) [] = false
fold_prefix (n ∷ needle) (c ∷ s) = lower c == n && fold_prefix needle s

unfoldable pub contains_fold : Bytes → Bytes → Bool
unfolding fold_prefix
contains_fold needle [] = fold_prefix needle []
contains_fold needle (c ∷ s) = fold_prefix needle (c ∷ s) || contains_fold needle s

-- `(?i)sqlguard:ignore` of `ignoreTokenRe`: the width of a match at the front, or 0. Under `(?i)`
-- an `s` is also the long s, U+017F.
unfoldable pub token_width : Bytes → ℕ
unfolding fold_prefix
token_width [] = 0
token_width (c ∷ s) =
    if lower c == b's' && fold_prefix (codes "qlguard:ignore") s
    then 15
    else if c == 0xc5 && starts_with 0xbf s && fold_prefix (codes "qlguard:ignore") (drop 1 s)
    then 16
    else 0

abbrev list_byte : ℕ → Bool
list_byte c =
    (leb b'a' (lower c) && leb (lower c) b'z')
    || (leb b'0' c && leb c b'9')
    || c == b'_'
    || c == b','
    || c == b'-'
    || c == b' '
    || c == b'\t'
    || c == b'\n'
    || c == 0x0c
    || c == b'\r'

-- The run of `[a-z0-9_,\s-]` at the front, with the long s and the Kelvin sign of `(?i)`: its width.
unfoldable pub list_width : ℕ → Bytes → ℕ
list_width (suc skip) [] = 0
list_width zero [] = 0
list_width (suc skip) (c ∷ rest) = let n = list_width skip rest in suc n
list_width zero (c ∷ rest) =
    let on = λ (k : ℕ). list_width k rest in
    if list_byte c
    then suc (on 0)
    else if c == 0xc5 && starts_with 0xbf rest
    then suc (on 1)
    else if c == 0xe2 && starts_with 0x84 rest && starts_with 0xaa (drop 1 rest)
    then suc (on 2)
    else 0

-- A match of `ignoreTokenRe`: where it starts, and the text of its list. The `\s*` in front of the
-- list is part of the text here, which is trimmed at once; without a list it is empty.
pub record Match : Type 0 where
  pub start : ℕ
  pub list_text : Bytes

-- The list behind the token, and how wide it is with its colon.
unfoldable pub list_behind : Bytes → Bytes × ℕ
unfolding list_width
list_behind [] = ([], 0)
list_behind (c ∷ s) =
    let n = list_width 0 s in if c == b':' && ltb 0 n then (take n s, suc n) else ([], 0)

-- All matches in a text at index `i`; `skip` counts the bytes of one that is under way.
unfoldable pub find_matches : ℕ → ℕ → Bytes → List Match
unfolding token_width list_behind
find_matches i skip [] = []
find_matches i (suc skip) (c ∷ rest) = find_matches (suc i) skip rest
find_matches i zero (c ∷ rest) =
    let on = λ (k : ℕ). find_matches (suc i) k rest in
    elim (token_width (c ∷ rest)) [
      | zero ↦ on 0
      | suc w ↦
          let (text, width) = list_behind (drop w rest) in
          record { start = i; list_text = trim_space text } ∷ on (w + width)
    ]

-- `strings.SplitSeq(list, ",")`, from the piece read so far.
unfoldable pub split_commas : Bytes → Bytes → List Bytes
split_commas piece [] = piece ∷ []
split_commas piece (c ∷ s) =
    let cut = split_commas [] s in
    let on = split_commas (piece ++ (c ∷ [])) s in if c == b',' then piece ∷ cut else on

unfoldable pub add_names : List Bytes → Map Bool → Map Bool
unfolding insert trim_space
add_names [] rules = rules
add_names (name ∷ names) rules =
    add_names names
      (if equal (trim_space name) [] then rules else insert (trim_space name) true rules)

-- What a directive suppresses.
pub record Directive : Type 0 where
  pub all : Bool
  pub rules : Map Bool

-- The loop of `commentDirective` over the matches of all comments.
unfoldable pub apply_matches : List (List Span) → List Match → Map Bool → Directive
unfolding in_any_spans split_commas add_names
apply_matches literals [] rules = record { all = false; rules = rules }
apply_matches literals (m ∷ ms) rules =
    let skipped = apply_matches literals ms rules in
    let named = apply_matches literals ms (add_names (split_commas [] m.list_text) rules) in
    if in_any_spans literals m.start
    then skipped
    else if equal m.list_text []
    then record { all = true; rules = [] }
    else named

unfoldable pub comment_matches : Bytes → List Span → List Match
unfolding find_matches
comment_matches sql [] = []
comment_matches sql (c ∷ comments) =
    find_matches c.lo 0 (take (c.hi - c.lo) (drop c.lo sql)) ++ comment_matches sql comments

abbrev pub reading : Bool → Bool → Bool → Bool → Reading
reading backslash dollar hash loose_dash = record {
  backslash = backslash;
  dollar = dollar;
  hash = hash;
  loose_dash = loose_dash;
}

-- The literals under the four combinations of the comment markers.
unfoldable pub all_literals : Bytes → Bool → Bool → List (List Span)
all_literals sql backslash dollar =
    (lex_sql sql (reading backslash dollar true true)).literals
    ∷ (lex_sql sql (reading backslash dollar true false)).literals
    ∷ (lex_sql sql (reading backslash dollar false true)).literals
    ∷ (lex_sql sql (reading backslash dollar false false)).literals
    ∷ []

unfoldable pub comment_directive : Bytes → Bool → Bool → Directive
unfolding apply_matches comment_matches all_literals
comment_directive sql backslash dollar =
    let comments = (lex_sql sql (reading backslash dollar true true)).comments in
    apply_matches (all_literals sql backslash dollar) (comment_matches sql comments) []

abbrev pub keep_common : Map Bool → Map Bool → Map Bool
keep_common [] b = []
keep_common ((name, v) ∷ a) b =
    let rest = keep_common a b in if has b name then insert name true rest else rest

unfoldable pub intersect_directives : Directive → Directive → Directive
intersect_directives a b =
    if a.all && b.all
    then record { all = true; rules = [] }
    else if a.all
    then record { all = false; rules = b.rules }
    else if b.all
    then record { all = false; rules = a.rules }
    else record { all = false; rules = keep_common a.rules b.rules }

abbrev pub refine : Bool → Directive → Directive → Directive
refine taken d e = if taken then intersect_directives d e else d

-- The two loops: each further reading is taken in only where the text has its byte.
unfoldable pub combine_readings :
    Bool → Bool → Directive → Directive → Directive → Directive → Directive
unfolding intersect_directives
combine_readings slash money d1 d2 d3 d4 =
    refine (slash && money) (refine slash (refine money d1 d2) d3) d4

unfoldable pub parse_ignore_directive : Bytes → Directive
unfolding contains_fold comment_directive combine_readings has_byte
parse_ignore_directive sql =
    let found =
      combine_readings (has_byte b'\\' sql) (has_byte b'$' sql) (comment_directive sql false true)
        (comment_directive sql false false) (comment_directive sql true true)
        (comment_directive sql true false) in
    if contains_fold (codes "sqlguard:ignore") sql
    then found
    else record { all = false; rules = [] }
