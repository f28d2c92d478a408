-- ===== src/Analyzer/Lexer/Spans.antt =====
-- The literal spans of analyzer/redact.go: `span`, `literalSpans`, `doubleQuotedIsIdent`.
pub mod Order
use sqlguard.Prelude.{
  ℕ, suc, ◌+◌, ◌-◌, Bool, true, false, not, ◌&&◌, ◌||◌, List, [], ◌∷◌, Option, none, some, Bytes,
  take, ltb, leb, ◌==◌, if◌then◌else◌,
}
use sqlguard.Analyzer.Types.{Dialect, dialect_unknown, dialect_postgres, dialect_mysql}
use sqlguard.Analyzer.Lexer.Chars.{is_ident_byte, lower_bit}
use sqlguard.Analyzer.Lexer.Scan.{scan_quoted_run_closed, scan_quoted_run, scan_dollar_quoted}

-- The half-open byte range [lo, hi).
pub record Span : Type 0 where
  pub lo : ℕ
  pub hi : ℕ

abbrev is_plain_ident_byte : ℕ → Bool
is_plain_ident_byte c = not (leb 0x80 c || (not (is_ident_byte c) && not (c == b'$')))

all_plain : Bytes → Bool
all_plain [] = true
all_plain (c ∷ cs) = is_plain_ident_byte c && all_plain cs

is_plain_ident : Bytes → Bool
unfolding all_plain
is_plain_ident [] = false
is_plain_ident (c ∷ cs) =
    if not (c == b'_') && (ltb (lower_bit c) b'a' || ltb b'z' (lower_bit c))
    then false
    else all_plain (c ∷ cs)

unfoldable pub double_quoted_is_ident : Bytes → Dialect → Bool
unfolding is_plain_ident is_ident_byte
double_quoted_is_ident body dialect_postgres = true
double_quoted_is_ident body dialect_mysql = false
double_quoted_is_ident body dialect_unknown = is_plain_ident body

-- What starts at a byte: nothing, a literal to redact or a name to keep, with its end.
pub data Run : Type 0 where
  plain : Run
  literal : ℕ → Run
  name : ℕ → Run

abbrev pub not_postgres : Dialect → Bool
not_postgres dialect_postgres = false
not_postgres _ = true

-- The body of a closed run: `s[i+1 : j-1]`, from the bytes behind the quote at `i`.
abbrev body_of : ℕ → ℕ → Bytes → Bytes
body_of i j rest = take (j - 1 - suc i) rest

pub double_quoted : Dialect → ℕ → Bytes → ℕ × Bool → Run
double_quoted d i rest (j, closed) =
    if closed && double_quoted_is_ident (body_of i j rest) d then name j else literal j

pub dollar_quoted : Option (ℕ × ℕ) → Run
dollar_quoted none = plain
dollar_quoted (some (j, tag_len)) = literal j

-- The `switch` of `literalSpans` at the byte `c` with index `i`; `rest` is what follows it.
unfoldable pub run_at : Bool → Dialect → Option ℕ → ℕ → ℕ → Bytes → Run
unfolding double_quoted double_quoted_is_ident dollar_quoted scan_quoted_run_closed
    scan_dollar_quoted
run_at backslash_escapes d prev i c rest =
    if c == b'\''
    then literal (scan_quoted_run backslash_escapes b'\'' (suc i) rest)
    else if c == b'"'
    then double_quoted d i rest
        (scan_quoted_run_closed (backslash_escapes && not_postgres d) b'"' (suc i) rest)
    else if c == b'`'
    then name (scan_quoted_run false b'`' (suc i) rest)
    else if c == b'$'
    then dollar_quoted (scan_dollar_quoted prev i rest)
    else plain

-- The two lists that the loop appends to.
pub record Spans : Type 0 where
  pub redact : List Span
  pub keep : List Span

abbrev pub add_run : ℕ → Run → Spans → Spans
add_run i plain found = found
add_run i (literal j) found = record found { redact = record { lo = i; hi = j } ∷ found.redact }
add_run i (name j) found = record found { keep = record { lo = i; hi = j } ∷ found.keep }

-- The index at which the loop goes on.
abbrev pub run_end : ℕ → Run → ℕ
run_end i plain = suc i
run_end i (literal j) = j
run_end i (name j) = j

unfoldable pub literal_spans_from : Bool → Dialect → Option ℕ → ℕ → ℕ → Bytes → Spans
unfolding run_at
literal_spans_from b d prev i until [] = record { redact = []; keep = [] }
literal_spans_from b d prev i until (c ∷ rest) =
    let on = λ (bound : ℕ). literal_spans_from b d (some c) (suc i) bound rest in
    elim (ltb i until) [
      | true ↦ on until
      | false ↦ let run = run_at b d prev i c rest in add_run i run (on (run_end i run))
    ]

unfoldable pub literal_spans : Bytes → Bool → Dialect → Spans
unfolding literal_spans_from
literal_spans s backslash_escapes d = literal_spans_from backslash_escapes d none 0 0 s
