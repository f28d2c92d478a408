-- ===== src/Tests/Lexing.antt =====
-- The lexical passes at concrete SQL: analyzer/redact.go, fallback.go and suppress.go.
use sqlguard.Prelude.{
  ℕ, ◌≡◌, equal, refl, true, false, ◌&&◌, ◌||◌, List, [], ◌∷◌, Bytes, codes, length,
}
use sqlguard.Analyzer.Types.{dialect_unknown, dialect_postgres, dialect_mysql}
use sqlguard.Analyzer.Lexer.Comments.{skip_line_comment}
use sqlguard.Analyzer.Lexer.Scan.{scan_quoted_run_closed}
use sqlguard.Analyzer.Lexer.Spans.{Span, literal_spans}
use sqlguard.Analyzer.Lexer.Spans.Order.{Ascending}
use sqlguard.Analyzer.Lexer.Union.{redact_spans}
use sqlguard.Analyzer.Lexer.Union.Cover.{covers}
use sqlguard.Analyzer.Lexer.Union.Readings.{redact_spans_lem}
use sqlguard.Analyzer.Lexer.Redact.{redact_pieces}
use sqlguard.Analyzer.Lexer.Redact.Hides.{copies, redact_pieces_hides}
use sqlguard.Analyzer.Lexer.Fingerprint.{redact, fingerprint}
use sqlguard.Analyzer.Suppress.{Directive, comment_directive, contains_fold, parse_ignore_directive}
use sqlguard.Analyzer.Lexer.Tokens.{lex_sql}
use sqlguard.Analyzer.Suppress.Intersect.{suppresses}
use sqlguard.Analyzer.Suppress.Readings.{parse_ignore_directive_lem}

abbrev query : Bytes
query = codes "SELECT a1 FROM \"users\" WHERE x = 'it''s' AND y = 0x1F + 3.5e10 -- c\n"

redact_query :
    redact query dialect_unknown ≡ codes "SELECT a1 FROM \"users\" WHERE x = ? AND y = ? + ?  \n"
unfolding redact
redact_query = refl

-- MySQL reads double quotes as a string, and Postgres as a name.
redact_quotes :
    (redact (codes "\"users\"") dialect_mysql ≡ codes "?")
    × (redact (codes "\"not plain\"") dialect_postgres ≡ codes "\"not plain\"")
    × (redact (codes "\"not plain\"") dialect_unknown ≡ codes "?")
unfolding redact
redact_quotes = (refl, refl, refl)

-- A backslash before a quote: what is a literal in one reading only is redacted too.
redact_backslash : redact (codes "SELECT 'a\\' OR b = 'c' OR d") dialect_unknown ≡ codes "SELECT ?"
unfolding redact
redact_backslash = refl

redact_dollar : redact (codes "f($1, $$a 'b$$, $t$ x$$ $t$)") dialect_unknown ≡ codes "f($1, ?, ?)"
unfolding redact
redact_dollar = refl

-- Stripping the comments reads no escape by a backslash: it takes the bytes between `/*` and `*/`
-- for a comment, which changes where the literals of what is left end.
abbrev escaped : Bytes
escaped = codes "SELECT '\\'/*' \"*/ \\' ' secret \""

redact_escaped : redact escaped dialect_mysql ≡ codes "SELECT ? secret ?"
unfolding redact
redact_escaped = refl

escaped_secret : covers 24 (literal_spans escaped true dialect_mysql).redact ≡ true
unfolding literal_spans covers
escaped_secret = refl

fingerprint_query :
    fingerprint (codes "SELECT *\n FROM t  WHERE a IN (1, 2,'x') ; ") dialect_unknown
    ≡ codes "SELECT * FROM t WHERE a IN (?)"
unfolding fingerprint
fingerprint_query = refl

abbrev text : Bytes
text = codes "a='b\\'c'"

redact_pieces_hides_example : covers 1 (literal_spans text true dialect_mysql).redact ≡ false
unfolding redact_pieces copies
redact_pieces_hides_example = redact_pieces_hides text dialect_mysql true 1 refl

redact_spans_lem_example :
    Ascending 0 (length text) (redact_spans text dialect_unknown).redact
    × ((p : ℕ)
        → covers p (redact_spans text dialect_unknown).redact ≡ (
            covers p (literal_spans text false dialect_unknown).redact
            || covers p (literal_spans text true dialect_unknown).redact))
redact_spans_lem_example = redact_spans_lem text dialect_unknown

abbrev left : List Span
left = record { lo = 1; hi = 3 } ∷ record { lo = 7; hi = 9 } ∷ []

abbrev right : List Span
right = record { lo = 2; hi = 5 } ∷ []

abbrev directive_text : Bytes
directive_text = codes "SELECT * FROM t -- sqlguard:ignore: a, b\nWHERE x = 'sqlguard:ignore'"

parse_ignore_directive_text :
    parse_ignore_directive directive_text
    ≡ record { all = false; rules = (codes "a", true) ∷ (codes "b", true) ∷ [] }
unfolding parse_ignore_directive lex_sql skip_line_comment scan_quoted_run_closed equal
parse_ignore_directive_text = refl

parse_ignore_directive_lem_example :
    suppresses (parse_ignore_directive directive_text) (codes "a") ≡ (
      contains_fold (codes "sqlguard:ignore") directive_text
      && (suppresses (comment_directive directive_text false true) (codes "a")
          && suppresses (comment_directive directive_text false false) (codes "a")
          && suppresses (comment_directive directive_text true true) (codes "a")
          && suppresses (comment_directive directive_text true false) (codes "a")))
parse_ignore_directive_lem_example = parse_ignore_directive_lem directive_text (codes "a")

abbrev names_ab : Directive
names_ab = record { all = false; rules = (codes "a", true) ∷ (codes "b", true) ∷ [] }

abbrev names_b : Directive
names_b = record { all = false; rules = (codes "b", true) ∷ [] }

abbrev go_comment : Bytes
go_comment = codes "// sqlguard:ignore: select-star, n-plus-one,"
