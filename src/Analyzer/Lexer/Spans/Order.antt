-- ===== src/Analyzer/Lexer/Spans/Order.antt =====
-- The lists of `literalSpans` are ascending, disjoint and within the text (analyzer/redact.go).
use sqlguard.Prelude.{
  ℕ, suc, ◌+◌, ◌≤◌, ◌<◌, ◌≡◌, refl, Bool, true, false, List, [], ◌∷◌, Option, none, some, Bytes,
  arith, length, ltb, ◌&&◌, Bool-cases, inl, inr, max,
}
use sqlguard.Analyzer.Types.{Dialect}
use sqlguard.Analyzer.Lexer.Scan.{scan_quoted_run_closed, scan_dollar_quoted}
use sqlguard.Analyzer.Lexer.Scan.Bounds.{scan_quoted_run_closed_bounds, scan_dollar_quoted_bounds}
use sqlguard.Analyzer.Lexer.Spans.{
  Span, Spans, Run, plain, literal, name, run_at, run_end, add_run, literal_spans_from,
  literal_spans, double_quoted, dollar_quoted, not_postgres,
}

-- Spans that are not empty, one behind the other, from `from` on and up to `to`.
abbrev pub Ascending : ℕ → ℕ → List Span → Type 0
Ascending from to [] = Unit
Ascending from to (x ∷ xs) = (from ≤ x.lo) × (x.lo < x.hi) × (x.hi ≤ to) × Ascending x.hi to xs

pub Ascending-weaken :
    (from from' to : ℕ) (xs : List Span)
    → from' ≤ from
    → Ascending from to xs
    → Ascending from' to xs
Ascending-weaken from from' to [] h a = a
Ascending-weaken from from' to (x ∷ xs) h (l, e, b, a) = (omega arith, e, b, a)

abbrev RunBounds : ℕ → ℕ → Run → Type 0
RunBounds i to r = (i < run_end i r) × (run_end i r ≤ to)

double_quoted_bounds :
    (d : Dialect) (i to : ℕ) (rest : Bytes) (r : ℕ × Bool)
    → i < r.0
    → r.0 ≤ to
    → RunBounds i to (double_quoted d i rest r)
unfolding double_quoted
double_quoted_bounds d i to rest (j, closed) h k = ground arith

dollar_quoted_bounds :
    (i to : ℕ) (o : Option (ℕ × ℕ))
    → ((j m : ℕ) → o ≡ some (j, m) → (suc i < j) × (j ≤ to))
    → suc i ≤ to
    → RunBounds i to (dollar_quoted o)
unfolding dollar_quoted
dollar_quoted_bounds i to none h k = omega arith
dollar_quoted_bounds i to (some (j, m)) h k = omega (arith, h j m refl)

-- Whatever starts at a byte ends behind it and within the text.
pub run_at_bounds :
    (b : Bool) (d : Dialect) (prev : Option ℕ) (i c : ℕ) (rest : Bytes)
    → RunBounds i (suc i + length rest) (run_at b d prev i c rest)
unfolding run_at
run_at_bounds b d prev i c rest =
    let to = suc i + length rest in
    ground (
      arith,
      scan_quoted_run_closed_bounds b b'\'' (suc i) rest,
      scan_quoted_run_closed_bounds false b'`' (suc i) rest,
      scan_quoted_run_closed_bounds (b && not_postgres d) b'"' (suc i) rest,
      double_quoted_bounds d i to rest
          (scan_quoted_run_closed (b && not_postgres d) b'"' (suc i) rest),
      dollar_quoted_bounds i to (scan_dollar_quoted prev i rest)
          (λ j m. scan_dollar_quoted_bounds prev i rest {j = j} {m = m}),
    )

-- Both lists of a result.
abbrev pub BothAscending : ℕ → ℕ → Spans → Type 0
BothAscending from to found = Ascending from to found.redact × Ascending from to found.keep

add_run-BothAscending :
    (i from to : ℕ) (r : Run) (found : Spans)
    → RunBounds i to r
    → from ≤ i
    → BothAscending (run_end i r) to found
    → BothAscending from to (add_run i r found)
add_run-BothAscending i from to plain found b h (x, y) = (
  Ascending-weaken (suc i) from to _ (omega arith) x,
  Ascending-weaken (suc i) from to _ (omega arith) y,
)
add_run-BothAscending i from to (literal j) found b h (x, y) =
    ((h, b.0, b.1, x), Ascending-weaken j from to _ (omega arith) y)
add_run-BothAscending i from to (name j) found b h (x, y) =
    (Ascending-weaken j from to _ (omega arith) x, (h, b.0, b.1, y))

-- The two steps of the loop, as equations.
pub literal_spans_from_skip :
    (b : Bool) (d : Dialect) (prev : Option ℕ) (i until c : ℕ) (rest : Bytes)
    → ltb i until ≡ true
    → literal_spans_from b d prev i until (c ∷ rest)
      ≡ literal_spans_from b d (some c) (suc i) until rest
unfolding literal_spans_from
literal_spans_from_skip b d prev i until c rest h = rw (h, literal_spans_from)

pub literal_spans_from_act :
    (b : Bool) (d : Dialect) (prev : Option ℕ) (i until c : ℕ) (rest : Bytes)
    → ltb i until ≡ false
    → let run = run_at b d prev i c rest in
      literal_spans_from b d prev i until (c ∷ rest)
      ≡ add_run i run (literal_spans_from b d (some c) (suc i) (run_end i run) rest)
unfolding literal_spans_from
literal_spans_from_act b d prev i until c rest h = rw (h, literal_spans_from)

literal_spans_from-BothAscending :
    (s : Bytes) (b : Bool) (d : Dialect) (prev : Option ℕ) (i until from to : ℕ)
    → from ≤ max i until
    → i + length s ≡ to
    → BothAscending from to (literal_spans_from b d prev i until s)
literal_spans_from-BothAscending [] b d prev i until from to h e =
    unfold literal_spans_from in (tt, tt)
literal_spans_from-BothAscending (c ∷ rest) b d prev i until from to h e =
    elim (Bool-cases (ltb i until)) [
      | inl skip ↦ rw (literal_spans_from_skip b d prev i until c rest skip) (
          literal_spans_from-BothAscending rest b d (some c) (suc i) until from to (omega arith)
            (omega arith))
      | inr act ↦
          let run = run_at b d prev i c rest in
          let bounds = run_at_bounds b d prev i c rest in
          rw (literal_spans_from_act b d prev i until c rest act) (
            add_run-BothAscending i from to run _ (omega (arith, bounds)) (ground arith) (
              literal_spans_from-BothAscending rest b d (some c) (suc i) (run_end i run)
                (run_end i run) to (omega arith) (omega arith)))
    ]

-- The spans to redact and the names to keep are each in ascending order, disjoint, not empty and
-- within the text, for either reading of the backslash and every dialect.
pub literal_spans-BothAscending :
    (s : Bytes) (b : Bool) (d : Dialect) → BothAscending 0 (length s) (literal_spans s b d)
unfolding literal_spans
literal_spans-BothAscending s b d =
    literal_spans_from-BothAscending s b d none 0 0 0 (length s) (omega arith) (omega arith)
