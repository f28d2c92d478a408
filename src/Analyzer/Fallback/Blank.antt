-- ===== src/Analyzer/Fallback/Blank.antt =====
-- The blanking of literals in analyzer/fallback.go, and `IsMultiStatement` of analyzer/redact.go.
use sqlguard.Prelude.{
  ℕ, suc, Bool, true, false, not, ◌&&◌, ◌||◌, [], ◌∷◌, ◌++◌, Option, none, some, Bytes, take, ltb,
  ◌==◌, equal, if◌then◌else◌,
}
use sqlguard.Analyzer.Lexer.Space.{trim_space}
use sqlguard.Analyzer.Lexer.Scan.{scan_dollar_quoted}
use sqlguard.Analyzer.Lexer.Union.{has_byte}
use sqlguard.Analyzer.Lexer.Comments.{strip_comments}

-- `blankQuotedRun` behind its opening quote: the index behind the run.
unfoldable pub quoted_run_end : ℕ → ℕ → Bytes → ℕ
quoted_run_end q i [] = i
quoted_run_end q i (c ∷ []) = suc i
quoted_run_end q i (c ∷ d ∷ rest) =
    let skipped = quoted_run_end q (suc (suc i)) rest in
    let next = quoted_run_end q (suc i) (d ∷ rest) in
    if c == q then (if d == q then skipped else suc i) else next

-- What a run is written as: its quotes, and one `x` between backticks.
abbrev pub blank_run : ℕ → Bytes
blank_run q = if q == b'`' then b'`' ∷ b'x' ∷ b'`' ∷ [] else q ∷ q ∷ []

-- What starts at a byte: a byte that is copied, or a text that stands for what is passed over.
pub data Blanking : Type 0 where
  keep : Blanking
  blank : Bytes → ℕ → Blanking

abbrev dollar_blanking : Bytes → Option (ℕ × ℕ) → Blanking → Blanking
dollar_blanking s none other = other
dollar_blanking s (some (j, tag_len)) other = blank (take tag_len s ++ take tag_len s) j

abbrev quote_blanking : Bool → ℕ → ℕ → Bytes → Blanking
quote_blanking backticks i c rest =
    if c == b'\'' || c == b'"' || (backticks && c == b'`' && has_byte b'`' rest)
    then blank (blank_run c) (quoted_run_end c (suc i) rest)
    else keep

unfoldable pub blanking_at : Bool → Bool → Option ℕ → ℕ → ℕ → Bytes → Blanking
unfolding scan_dollar_quoted quoted_run_end has_byte
blanking_at dollar_quotes backticks prev i c rest =
    let other = quote_blanking backticks i c rest in
    if dollar_quotes && c == b'$'
    then dollar_blanking (c ∷ rest) (scan_dollar_quoted prev i rest) other
    else other

-- The loop of `blankQuoted`.
unfoldable pub blank_from : Bool → Bool → Option ℕ → ℕ → ℕ → Bytes → Bytes
unfolding blanking_at
blank_from dollar_quotes backticks prev i until [] = []
blank_from dollar_quotes backticks prev i until (c ∷ rest) =
    let on = λ (bound : ℕ). blank_from dollar_quotes backticks (some c) (suc i) bound rest in
    elim (ltb i until) [
      | true ↦ on until
      | false ↦ elim (blanking_at dollar_quotes backticks prev i c rest) [
        | keep ↦ c ∷ on until
        | blank out j ↦ out ++ on j
      ]
    ]

unfoldable pub blank_quoted : Bytes → Bool → Bool → Bytes
unfolding blank_from
blank_quoted s dollar_quotes backticks = blank_from dollar_quotes backticks none 0 0 s

abbrev pub blank_string_literals : Bytes → Bytes
blank_string_literals s = blank_quoted s true true

abbrev pub blank_literals : Bytes → Bool → Bytes
blank_literals s dollar_quotes = blank_quoted s dollar_quotes false

-- The text behind the first `;`.
unfoldable pub behind_semicolon : Bytes → Option Bytes
behind_semicolon [] = none
behind_semicolon (c ∷ s) = if c == b';' then some s else behind_semicolon s

unfoldable pub has_statement_separator : Bytes → Bool
unfolding behind_semicolon trim_space equal
has_statement_separator blanked = elim (behind_semicolon blanked) [
  | none ↦ false
  | some rest ↦ not (equal (trim_space rest) [])
]

unfoldable pub is_multi_statement : Bytes → Bool
unfolding has_statement_separator blank_quoted strip_comments
is_multi_statement sql =
    let s = strip_comments sql in
    has_statement_separator (blank_literals s true)
    || has_statement_separator (blank_literals s false)
