-- ===== src/Analyzer/Fallback/Parens.antt =====
-- The parentheses of a text: helpers of analyzer/fallback.go.
pub mod Split
pub mod Levels
pub mod Unwrap
pub mod Balance
pub mod Enclosed
use sqlguard.Prelude.{
  ℕ, zero, suc, ◌+◌, ◌-◌, Bool, true, false, not, ◌&&◌, ◌||◌, List, [], ◌∷◌, ◌++◌, Option, none,
  some, Bytes, length, take, drop, leb, ◌==◌, if◌then◌else◌,
}
use sqlguard.Analyzer.Lexer.Space.{trim_space}
use sqlguard.Analyzer.Pattern.{Pattern, Match, find_all}

-- The depth behind a byte; a `)` with no partner is passed over.
abbrev pub depth_step : ℕ → ℕ → ℕ
depth_step depth c = if c == b'(' then suc depth else if c == b')' then depth - 1 else depth

unfoldable pub depth_over : ℕ → Bytes → ℕ
depth_over depth [] = depth
depth_over depth (c ∷ s) = depth_over (depth_step depth c) s

unfoldable pub paren_depth_before : Bytes → ℕ → ℕ
unfolding depth_over
paren_depth_before s idx = depth_over 0 (take idx s)

-- A byte in front of the first of the segments.
abbrev pub push_byte : ℕ → List Bytes → List Bytes
push_byte c [] = (c ∷ []) ∷ []
push_byte c (seg ∷ segs) = (c ∷ seg) ∷ segs

unfoldable pub split_from : ℕ → Bytes → List Bytes
split_from depth [] = [] ∷ []
split_from depth (c ∷ s) =
    let rest = split_from (depth_step depth c) s in
    if c == b',' && depth == 0 then [] ∷ rest else push_byte c rest

unfoldable pub split_top_level_commas : Bytes → List Bytes
unfolding split_from
split_top_level_commas s = split_from 0 s

-- How many bytes stand before the `)` that closes the depth, which is not 0.
unfoldable pub close_at : ℕ → Bytes → Option ℕ
close_at depth [] = none
close_at depth (c ∷ s) =
    let opened = close_at (suc depth) s in
    let closed = close_at (depth - 1) s in
    let same = close_at depth s in
    if c == b'('
    then elim opened [ none ↦ none | some n ↦ some (suc n) ]
    else if c == b')'
    then (if leb depth 1 then some 0 else elim closed [ none ↦ none | some n ↦ some (suc n) ])
    else elim same [ none ↦ none | some n ↦ some (suc n) ]

-- `parenContent` of the text behind its opening `(`, which each caller has found.
abbrev content_from : Bytes → Option ℕ → Option Bytes
content_from s none = none
content_from s (some n) = some (take n s)

unfoldable pub paren_content : Bytes → ℕ → Option Bytes
unfolding close_at
paren_content s at = let inside = drop (suc at) s in content_from inside (close_at 1 inside)

abbrev pub opens_paren : Bytes → Bool
opens_paren [] = false
opens_paren (c ∷ _) = c == b'('

-- `strings.TrimSuffix(s, ";")`.
unfoldable pub trim_semicolon : Bytes → Bytes
trim_semicolon [] = []
trim_semicolon (c ∷ []) = if c == b';' then [] else c ∷ []
trim_semicolon (c ∷ d ∷ s) = c ∷ trim_semicolon (d ∷ s)

-- What one round of `unwrapStatementParens` looks at: the text with no white space around it and
-- no `;` behind it.
abbrev pub trimmed_statement : Bytes → Bytes
trimmed_statement sanitized = trim_space (trim_semicolon (trim_space sanitized))

abbrev pub whole : ℕ → Option Bytes → Option Bytes
whole n none = none
whole n (some inner) = if length inner + 2 == n then some inner else none

-- The content of the parentheses that enclose the whole statement.
unfoldable pub unwrap_once : Bytes → Option Bytes
unfolding trim_space trim_semicolon paren_content
unwrap_once sanitized =
    let s = trimmed_statement sanitized in
    if opens_paren s then whole (length s) (paren_content s 0) else none

-- The loop; a round makes the text shorter.
unfoldable pub unwrap_from : ℕ → Bytes → Bytes
unfolding unwrap_once
unwrap_from zero sanitized = sanitized
unwrap_from (suc fuel) sanitized = elim (unwrap_once sanitized) [
  | none ↦ sanitized
  | some inner ↦ unwrap_from fuel inner
]

unfoldable pub unwrap_statement_parens : Bytes → Bytes
unfolding unwrap_from
unwrap_statement_parens sanitized = unwrap_from (length sanitized) sanitized

-- `topLevelMatches`: the depth at `pos`, of which `rest` is the suffix, is carried along.
unfoldable pub top_level_from : ℕ → ℕ → Bytes → List Match → List Match
unfolding depth_over
top_level_from depth pos rest [] = []
top_level_from depth pos rest (m ∷ locs) =
    let k = m.lo - pos in
    let depth' = depth_over depth (take k rest) in
    let out = top_level_from depth' (pos + k) (drop k rest) locs in
    if depth' == 0 then m ∷ out else out

unfoldable pub top_level_matches : Bytes → Pattern → List Match
unfolding top_level_from find_all
top_level_matches s re = top_level_from 0 0 s (find_all re s)
