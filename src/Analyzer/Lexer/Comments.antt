-- ===== src/Analyzer/Lexer/Comments.antt =====
-- `stripComments` of analyzer/fallback.go, with its skips and `copyStringLiteral`.
use sqlguard.Prelude.{
  ℕ, suc, ◌+◌, Bool, true, false, ◌&&◌, ◌||◌, [], ◌∷◌, Option, none, some, Bytes, ltb, drop, ◌==◌,
  if◌then◌else◌,
}
use sqlguard.Analyzer.Lexer.Scan.{scan_dollar_quoted}

-- `copyStringLiteral` behind its opening quote: the index behind the literal that is copied.
unfoldable pub copy_string_literal : ℕ → ℕ → Bytes → ℕ
copy_string_literal q i [] = i
copy_string_literal q i (c ∷ []) = suc i
copy_string_literal q i (c ∷ d ∷ rest) =
    let escaped = copy_string_literal q (suc (suc i)) rest in
    let next = copy_string_literal q (suc i) (d ∷ rest) in
    if c == q then (if d == q then escaped else suc i) else next

unfoldable pub skip_line_comment : ℕ → Bytes → ℕ
skip_line_comment i [] = i
skip_line_comment i (c ∷ rest) =
    let next = skip_line_comment (suc i) rest in if c == b'\n' then i else next

-- `skipBlockComment` behind the two bytes that open the comment.
unfoldable pub skip_block_comment : ℕ → Bytes → ℕ
skip_block_comment i [] = i + 2
skip_block_comment i (c ∷ []) = i + 2
skip_block_comment i (c ∷ d ∷ rest) =
    let next = skip_block_comment (suc i) (d ∷ rest) in
    if c == b'*' && d == b'/' then i + 2 else next

abbrev pub starts_with : ℕ → Bytes → Bool
starts_with c [] = false
starts_with c (d ∷ _) = d == c

-- What starts at a byte: a byte of its own, a literal that is copied, or a comment.
pub data Lexeme : Type 0 where
  byte : Lexeme
  verbatim : ℕ → Lexeme
  comment : ℕ → Lexeme

dollar_lexeme : Option (ℕ × ℕ) → Lexeme
dollar_lexeme none = byte
dollar_lexeme (some (j, tag_len)) = verbatim j

-- The `switch` of `stripComments` at the byte `c` with index `i`.
unfoldable pub lexeme_at : Option ℕ → ℕ → ℕ → Bytes → Lexeme
unfolding dollar_lexeme copy_string_literal scan_dollar_quoted skip_line_comment skip_block_comment
lexeme_at prev i c rest =
    if c == b'\'' || c == b'"'
    then verbatim (copy_string_literal c (suc i) rest)
    else if c == b'$'
    then dollar_lexeme (scan_dollar_quoted prev i rest)
    else if c == b'-' && starts_with b'-' rest
    then comment (skip_line_comment i (c ∷ rest))
    else if c == b'/' && starts_with b'*' rest
    then comment (skip_block_comment (suc (suc i)) (drop 1 rest))
    else byte

-- The loop: below `until` bytes are copied or dropped, as `copying` says.
unfoldable pub strip_from : Option ℕ → ℕ → ℕ → Bool → Bytes → Bytes
unfolding lexeme_at
strip_from prev i until copying [] = []
strip_from prev i until copying (c ∷ rest) =
    let on = λ (bound : ℕ) (copied : Bool). strip_from (some c) (suc i) bound copied rest in
    elim (ltb i until) [
      | true ↦ elim copying [ true ↦ c ∷ on until true | false ↦ on until false ]
      | false ↦ elim (lexeme_at prev i c rest) [
        | byte ↦ c ∷ on until copying
        | verbatim j ↦ c ∷ on j true
        | comment j ↦ b' ' ∷ on j false
      ]
    ]

unfoldable pub strip_comments : Bytes → Bytes
unfolding strip_from
strip_comments s = strip_from none 0 0 true s
