-- ===== src/Analyzer/Lexer/Fingerprint.antt =====
-- `Redact`, `Fingerprint` and `foldRedacted` of analyzer/redact.go, and what they use of Go's
-- strings package.
pub mod Lists
use sqlguard.Prelude.{
  ℕ, zero, suc, ◌+◌, ◌-◌, Bool, true, false, not, ◌&&◌, ◌||◌, List, [], ◌∷◌, ◌++◌, Option, none,
  some, Bytes, codes, length, drop, leb, ltb, ◌==◌, if◌then◌else◌,
}
use sqlguard.Analyzer.Types.{Dialect, dialect_unknown}
use sqlguard.Analyzer.Lexer.Redact.{redact_pieces, erase}
use sqlguard.Analyzer.Lexer.Space.{space_width}
use sqlguard.Analyzer.Lexer.Comments.{strip_comments}

unfoldable pub redact : Bytes → Dialect → Bytes
unfolding redact_pieces strip_comments erase
redact sql d = erase (redact_pieces (strip_comments sql) d)

-- `strings.Join(strings.Fields(s), " ")`: `skip` counts the bytes of a space that is under way,
-- and `gap` says that a space stands between the last field and what follows.
pub data Gap : Type 0 where
  start : Gap
  in_field : Gap
  after_field : Gap

abbrev close_gap : Gap → Gap
close_gap in_field = after_field
close_gap g = g

abbrev separator : Gap → Bytes
separator after_field = b' ' ∷ []
separator _ = []

unfoldable pub join_fields : ℕ → Gap → Bytes → Bytes
unfolding space_width
join_fields skip gap [] = []
join_fields (suc skip) gap (c ∷ rest) = join_fields skip gap rest
join_fields zero gap (c ∷ rest) =
    let on = λ (k : ℕ) (g : Gap). join_fields k g rest in
    elim (space_width (c ∷ rest)) [
      | zero ↦ separator gap ++ (c ∷ on 0 in_field)
      | suc w ↦ on w (close_gap gap)
    ]

-- `fpListRe`, `\(\?(?:, ?\?)+\)`: what stands behind a match of `(?:, ?\?)+\)`, or no match.
-- `items` says that one item was read.
unfoldable pub match_items : Bool → Bytes → Option Bytes
match_items items (b ∷ c ∷ d ∷ rest) =
    let far = match_items true rest in
    let near = match_items true (d ∷ rest) in
    if b == b',' && c == b' ' && d == b'?'
    then far
    else if b == b',' && c == b'?'
    then near
    else if items && b == b')'
    then some (c ∷ d ∷ rest)
    else none
match_items items (b ∷ c ∷ []) =
    let near = match_items true [] in
    if b == b',' && c == b'?' then near else if items && b == b')' then some (c ∷ []) else none
match_items items (b ∷ []) = if items && b == b')' then some [] else none
match_items items [] = none

-- A match of the whole expression at the front.
unfoldable pub match_list : Bytes → Option Bytes
unfolding match_items
match_list (b ∷ c ∷ rest) = if b == b'(' && c == b'?' then match_items false rest else none
match_list _ = none

-- `fpListRe.ReplaceAllString(s, "(?)")`: `skip` counts the bytes of a match that is under way.
unfoldable pub fold_lists : ℕ → Bytes → Bytes
unfolding match_list
fold_lists skip [] = []
fold_lists (suc skip) (c ∷ rest) = fold_lists skip rest
fold_lists zero (c ∷ rest) =
    let on = λ (k : ℕ). fold_lists k rest in
    elim (match_list (c ∷ rest)) [
      | none ↦ c ∷ on 0
      | some after ↦ codes "(?)" ++ on (length rest - length after)
    ]

-- `strings.TrimRight(s, "; ")`.
unfoldable pub trim_right : (ℕ → Bool) → Bytes → Bytes
trim_right p [] = []
trim_right p (c ∷ s) = elim (trim_right p s) [ [] ↦ if p c then [] else c ∷ [] | d ∷ t ↦ c ∷ d ∷ t ]

unfoldable pub fold_redacted : Bytes → Bytes
unfolding join_fields fold_lists trim_right
fold_redacted redacted =
    trim_right (λ c. c == b';' || c == b' ') (fold_lists 0 (join_fields 0 start redacted))

unfoldable pub fingerprint : Bytes → Dialect → Bytes
unfolding redact fold_redacted
fingerprint sql d = fold_redacted (redact sql d)
