-- ===== src/Analyzer/Lexer/Tokens.antt =====
-- `lexSQL` of analyzer/suppress.go: the comments and the literals of a text, under one reading of
-- the markers on which the dialects disagree.
use sqlguard.Prelude.{
  ℕ, suc, ◌+◌, Bool, true, false, not, ◌&&◌, ◌||◌, List, [], ◌∷◌, Option, none, some, Bytes, length,
  drop, min, leb, ltb, ◌==◌, if◌then◌else◌,
}
use sqlguard.Analyzer.Lexer.Scan.{scan_quoted_run, scan_dollar_quoted}
use sqlguard.Analyzer.Lexer.Spans.{Span}
use sqlguard.Analyzer.Lexer.Comments.{skip_line_comment, skip_block_comment, starts_with}

-- The end of a `--` marker: at the end of the text, or before a byte up to the space.
abbrev pub ends_dash : Bytes → Bool
ends_dash [] = true
ends_dash (c ∷ _) = leb c b' '

-- `isLineComment` at the byte `c`; `rest` is what follows it.
unfoldable pub is_line_comment : ℕ → Bytes → Bool → Bool → Bool
is_line_comment c rest hash loose_dash =
    if c == b'#'
    then hash
    else if not (c == b'-') || not (starts_with b'-' rest)
    then false
    else loose_dash || ends_dash (drop 1 rest)

-- What starts at a byte.
pub data Token : Type 0 where
  other : Token
  literal : ℕ → Token
  comment : ℕ → Token

pub dollar_token : Option (ℕ × ℕ) → Token
dollar_token none = other
dollar_token (some (j, tag_len)) = literal j

-- One reading of the markers on which the dialects disagree.
pub record Reading : Type 0 where
  pub backslash : Bool
  pub dollar : Bool
  pub hash : Bool
  pub loose_dash : Bool

-- The `switch` of `lexSQL` at the byte `c` with index `i`.
unfoldable pub token_at : Reading → Option ℕ → ℕ → ℕ → Bytes → Token
unfolding dollar_token is_line_comment
token_at r prev i c rest =
    if c == b'\'' || c == b'"' || c == b'`'
    then literal (scan_quoted_run (r.backslash && not (c == b'`')) c (suc i) rest)
    else if c == b'$' && r.dollar
    then dollar_token (scan_dollar_quoted prev i rest)
    else if is_line_comment c rest r.hash r.loose_dash
    then comment (skip_line_comment i (c ∷ rest))
    else if c == b'/' && starts_with b'*' rest
    then comment (min (skip_block_comment (suc (suc i)) (drop 1 rest)) (suc i + length rest))
    else other

pub record Lexed : Type 0 where
  pub comments : List Span
  pub literals : List Span

abbrev pub add_token : ℕ → Token → Lexed → Lexed
add_token i other found = found
add_token i (literal j) found = record found {
  literals = record { lo = i; hi = j } ∷ found.literals;
}
add_token i (comment j) found = record found {
  comments = record { lo = i; hi = j } ∷ found.comments;
}

abbrev pub token_end : ℕ → Token → ℕ
token_end i other = suc i
token_end i (literal j) = j
token_end i (comment j) = j

unfoldable pub lex_from : Reading → Option ℕ → ℕ → ℕ → Bytes → Lexed
unfolding token_at
lex_from r prev i until [] = record { comments = []; literals = [] }
lex_from r prev i until (c ∷ rest) =
    let on = λ (bound : ℕ). lex_from r (some c) (suc i) bound rest in
    elim (ltb i until) [
      | true ↦ on until
      | false ↦ let token = token_at r prev i c rest in add_token i token (on (token_end i token))
    ]

unfoldable pub lex_sql : Bytes → Reading → Lexed
unfolding lex_from
lex_sql sql r = lex_from r none 0 0 sql
