-- ===== src/Analyzer/Lexer/Redact.antt =====
-- `redact` of analyzer/redact.go.
pub mod Hides
use sqlguard.Prelude.{
  ℕ, suc, ◌+◌, Bool, true, false, not, ◌&&◌, List, [], ◌∷◌, Bytes, leb, ltb, if◌then◌else◌,
}
use sqlguard.Analyzer.Types.{Dialect}
use sqlguard.Analyzer.Lexer.Chars.{is_digit, suppresses_number}
use sqlguard.Analyzer.Lexer.Scan.{scan_number}
use sqlguard.Analyzer.Lexer.Spans.{Span, Spans}
use sqlguard.Analyzer.Lexer.Union.{redact_spans}

-- The loops that advance `ri` and `ki` past the spans that are over. The index only grows, so
-- they end where a search from the front does.
unfoldable pub pending : ℕ → List Span → List Span
pending i [] = []
pending i (x ∷ xs) = let rest = pending i xs in if leb x.hi i then rest else x ∷ xs

-- `ri < len(redact) && i >= redact[ri].lo`.
abbrev pub inside : ℕ → List Span → Bool
inside i [] = false
inside i (x ∷ _) = leb x.lo i

abbrev pub end_of : ℕ → List Span → ℕ
end_of i [] = suc i
end_of i (x ∷ _) = x.hi

-- What is written: a byte of the input with its index, or the placeholder.
pub data Piece : Type 0 where
  placeholder : Piece
  copied : ℕ → ℕ → Piece

unfoldable pub erase : List Piece → Bytes
erase [] = []
erase (placeholder ∷ ps) = b'?' ∷ erase ps
erase (copied i c ∷ ps) = c ∷ erase ps

-- The choice at index `i`: a literal or a number becomes a placeholder and is jumped over.
pub data Choice : Type 0 where
  hide : ℕ → Choice
  copy : Choice

unfoldable pub choose : List Span → List Span → ℕ → ℕ → ℕ → Bytes → Choice
unfolding is_digit suppresses_number scan_number
choose redact keep prev i c rest =
    if inside i redact
    then hide (end_of i redact)
    else if not (inside i keep) && is_digit c && not (suppresses_number prev)
    then hide (scan_number i c rest)
    else copy

-- The loop; `prev` is the last byte written, 0 at the start.
unfoldable pub redact_from : List Span → List Span → ℕ → ℕ → ℕ → Bytes → List Piece
unfolding pending choose
redact_from redact keep prev i until [] = []
redact_from redact keep prev i until (c ∷ rest) =
    let on = λ (p bound : ℕ). redact_from redact keep p (suc i) bound rest in
    elim (ltb i until) [
      | true ↦ on prev until
      | false ↦ elim (choose (pending i redact) (pending i keep) prev i c rest) [
        | hide j ↦ placeholder ∷ on b'?' j
        | copy ↦ copied i c ∷ on c until
      ]
    ]

-- The pieces that `redact` writes for comment-free SQL.
unfoldable pub redact_pieces : Bytes → Dialect → List Piece
unfolding redact_from redact_spans
redact_pieces s d = let found = redact_spans s d in redact_from found.redact found.keep 0 0 0 s
