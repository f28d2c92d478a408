-- ===== src/Analyzer/Lexer/Union/Readings.antt =====
-- The two readings of the backslash in `redactSpans` (analyzer/redact.go).
use sqlguard.Prelude.{
  ℕ, suc, ◌≡◌, refl, sym, ap, ◌∙◌, Bool, true, false, ◌&&◌, ◌||◌, [], ◌∷◌, Option, some, none,
  Bytes, arith, length, ltb, Bool-cases, inl, inr,
}
use sqlguard.Analyzer.Types.{Dialect}
use sqlguard.Analyzer.Lexer.Scan.{scan_quoted_run_closed}
use sqlguard.Analyzer.Lexer.Spans.{
  run_at, run_end, add_run, literal_spans_from, literal_spans, not_postgres,
}
use sqlguard.Analyzer.Lexer.Spans.Order.{
  Ascending, literal_spans-BothAscending, literal_spans_from_skip, literal_spans_from_act,
}
use sqlguard.Analyzer.Lexer.Union.{has_byte, redact_spans}
use sqlguard.Analyzer.Lexer.Union.Cover.{covers, union_spans_lem}

-- Without a backslash it makes no difference whether one escapes a quote.
pub scan_quoted_run_closed_plain :
    (s : Bytes) (b : Bool) (q i : ℕ)
    → has_byte b'\\' s ≡ false
    → scan_quoted_run_closed b q i s ≡ scan_quoted_run_closed false q i s
unfolding scan_quoted_run_closed has_byte
scan_quoted_run_closed_plain [] b q i h = refl
scan_quoted_run_closed_plain (c ∷ []) b q i h = ground arith
scan_quoted_run_closed_plain (c ∷ d ∷ rest) b q i h = ground (
  arith,
  scan_quoted_run_closed_plain rest b q (suc (suc i)),
  scan_quoted_run_closed_plain (d ∷ rest) b q (suc i),
)

run_at_plain :
    (b : Bool) (d : Dialect) (prev : Option ℕ) (i c : ℕ) (rest : Bytes)
    → has_byte b'\\' rest ≡ false
    → run_at b d prev i c rest ≡ run_at false d prev i c rest
unfolding run_at
run_at_plain b d prev i c rest h = ground (
  arith,
  scan_quoted_run_closed_plain rest b b'\'' (suc i) h,
  scan_quoted_run_closed_plain rest (b && not_postgres d) b'"' (suc i) h,
  scan_quoted_run_closed_plain rest (false && not_postgres d) b'"' (suc i) h,
)

literal_spans_from_plain :
    (s : Bytes) (b : Bool) (d : Dialect) (prev : Option ℕ) (i until : ℕ)
    → has_byte b'\\' s ≡ false
    → literal_spans_from b d prev i until s ≡ literal_spans_from false d prev i until s
literal_spans_from_plain [] b d prev i until h = unfold literal_spans_from in refl
literal_spans_from_plain (c ∷ rest) b d prev i until h =
    let plain : has_byte b'\\' rest ≡ false = unfold has_byte in ground arith in
    elim (Bool-cases (ltb i until)) [
      | inl skip ↦
          literal_spans_from_skip b d prev i until c rest skip
          ∙ literal_spans_from_plain rest b d (some c) (suc i) until plain
          ∙ sym (literal_spans_from_skip false d prev i until c rest skip)
      | inr act ↦
          let run = run_at false d prev i c rest in
          literal_spans_from_act b d prev i until c rest act
          ∙ rw (run_at_plain b d prev i c rest plain) (
              ap (add_run i run)
                (literal_spans_from_plain rest b d (some c) (suc i) (run_end i run) plain))
          ∙ sym (literal_spans_from_act false d prev i until c rest act)
    ]

-- Without a backslash in the text, both readings of the backslash find the same spans.
pub literal_spans_plain :
    (s : Bytes) (d : Dialect)
    → has_byte b'\\' s ≡ false
    → literal_spans s true d ≡ literal_spans s false d
unfolding literal_spans
literal_spans_plain s d h = literal_spans_from_plain s true d none 0 0 h

-- What is redacted is ascending and within the text, and is exactly what is a literal under one
-- reading of the backslash or the other.
pub redact_spans_lem :
    (s : Bytes) (d : Dialect)
    → Ascending 0 (length s) (redact_spans s d).redact
      × ((p : ℕ)
          → covers p (redact_spans s d).redact ≡ (
              covers p (literal_spans s false d).redact
              || covers p (literal_spans s true d).redact))
unfolding redact_spans
redact_spans_lem s d =
    let loose = literal_spans-BothAscending s false d in
    let strict = literal_spans-BothAscending s true d in
    elim (Bool-cases (has_byte b'\\' s)) [
      | inl escapes ↦ rw escapes (
          union_spans_lem (literal_spans s false d).redact (literal_spans s true d).redact
            (length s) loose.0 strict.0)
      | inr plain ↦ rw (plain, literal_spans_plain s d plain) (loose.0, λ p. ground arith)
    ]
