-- ===== src/Analyzer/Lexer/Union.antt =====
-- `unionSpans` and `redactSpans` of analyzer/redact.go.
pub mod Cover
pub mod Readings
use sqlguard.Prelude.{
  ℕ, Bool, true, false, not, List, [], ◌∷◌, Bytes, leb, ltb, ◌==◌, if◌then◌else◌,
}
use sqlguard.Analyzer.Types.{Dialect}
use sqlguard.Analyzer.Lexer.Spans.{Span, Spans, literal_spans}

-- The step of the merge on `last`, the last merged span, and `next`: either `last` grows, or it
-- stands as it is and `next` becomes the last one.
abbrev joins : Span → Span → Bool
joins last next = leb next.lo last.hi

abbrev grown : Span → Span → Span
grown last next = if ltb last.hi next.hi then record last { hi = next.hi } else last

-- One list is used up.
unfoldable pub union_rest : Span → List Span → List Span
union_rest last [] = last ∷ []
union_rest last (next ∷ a) =
    let merged = union_rest (if joins last next then grown last next else next) a in
    if joins last next then merged else last ∷ merged

-- The loop, behind its first round.
unfoldable pub union_loop : Span → List Span → List Span → List Span
unfolding union_rest
union_loop last [] b = union_rest last b
union_loop last (x ∷ a) [] = union_rest last (x ∷ a)
union_loop last (x ∷ a) (y ∷ b) =
    let from_a = union_loop (if joins last x then grown last x else x) a (y ∷ b) in
    let from_b = union_loop (if joins last y then grown last y else y) (x ∷ a) b in
    if leb x.lo y.lo
    then (if joins last x then from_a else last ∷ from_a)
    else (if joins last y then from_b else last ∷ from_b)

unfoldable pub union_spans : List Span → List Span → List Span
unfolding union_loop
union_spans [] b = b
union_spans (x ∷ a) [] = x ∷ a
union_spans (x ∷ a) (y ∷ b) =
    if leb x.lo y.lo then union_loop x a (y ∷ b) else union_loop y (x ∷ a) b

-- `strings.IndexByte(s, c) >= 0`.
unfoldable pub has_byte : ℕ → Bytes → Bool
has_byte c [] = false
has_byte c (d ∷ s) = if d == c then true else has_byte c s

unfoldable pub redact_spans : Bytes → Dialect → Spans
unfolding union_spans has_byte literal_spans
redact_spans s d =
    let loose = literal_spans s false d in
    if not (has_byte b'\\' s)
    then loose
    else (let strict = literal_spans s true d in
        record { redact = union_spans loose.redact strict.redact; keep = loose.keep })
