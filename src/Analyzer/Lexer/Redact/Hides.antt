-- ===== src/Analyzer/Lexer/Redact/Hides.antt =====
-- No byte of a literal is written by `redact` (analyzer/redact.go).
use sqlguard.Prelude.{
  ℕ, suc, ◌<◌, ◌≡◌, refl, ◌∙◌, sym, Bool, true, false, ◌||◌, ◌⊎◌, List, [], ◌∷◌, Bytes, arith,
  length, ltb, ◌==◌, Bool-cases, inl, inr,
}
use sqlguard.Analyzer.Types.{Dialect}
use sqlguard.Analyzer.Lexer.Spans.{Span, literal_spans}
use sqlguard.Analyzer.Lexer.Spans.Order.{Ascending}
use sqlguard.Analyzer.Lexer.Union.{redact_spans}
use sqlguard.Analyzer.Lexer.Union.Cover.{covers}
use sqlguard.Analyzer.Lexer.Union.Readings.{redact_spans_lem}
use sqlguard.Analyzer.Lexer.Redact.{
  pending, inside, Piece, placeholder, copied, Choice, hide, copy, choose, redact_from,
  redact_pieces,
}

-- The byte of the input at index `p` is written.
unfoldable pub copies : ℕ → List Piece → Bool
copies p [] = false
copies p (placeholder ∷ ps) = copies p ps
copies p (copied i c ∷ ps) = i == p || copies p ps

covers_before :
    (from to p : ℕ) (xs : List Span) → Ascending from to xs → p < from → covers p xs ≡ false
unfolding covers
covers_before from to p [] a h = refl
covers_before from to p (x ∷ xs) (l, e, b, a) h = ground (arith, covers_before x.hi to p xs a)

-- The search for the current span finds exactly the span that covers the index.
inside-pending :
    (from to i : ℕ) (xs : List Span) → Ascending from to xs → inside i (pending i xs) ≡ covers i xs
unfolding pending covers
inside-pending from to i [] a = refl
inside-pending from to i (x ∷ xs) (l, e, b, a) =
    ground (arith, inside-pending x.hi to i xs a, covers_before x.hi to i xs a)

choose_copy :
    (redact keep : List Span) (prev i c : ℕ) (rest : Bytes)
    → choose redact keep prev i c rest ≡ copy
    → inside i redact ≡ false
unfolding choose
choose_copy redact keep prev i c rest h = ground arith

-- The three steps of the loop, as equations.
module _ (redact keep : List Span) (prev i until c : ℕ) (rest : Bytes) where
  redact_from_skip :
      ltb i until ≡ true
      → redact_from redact keep prev i until (c ∷ rest)
        ≡ redact_from redact keep prev (suc i) until rest
  unfolding redact_from
  redact_from_skip h = rw (h, redact_from)

  redact_from_hide :
      {j : ℕ}
      → ltb i until ≡ false
      → choose (pending i redact) (pending i keep) prev i c rest ≡ hide j
      → redact_from redact keep prev i until (c ∷ rest)
        ≡ placeholder ∷ redact_from redact keep b'?' (suc i) j rest
  unfolding redact_from
  redact_from_hide h e = rw (h, redact_from) (rw e)

  redact_from_copy :
      ltb i until ≡ false
      → choose (pending i redact) (pending i keep) prev i c rest ≡ copy
      → redact_from redact keep prev i until (c ∷ rest)
        ≡ copied i c ∷ redact_from redact keep c (suc i) until rest
  unfolding redact_from
  redact_from_copy h e = rw (h, redact_from) (rw e)

Choice-cases : (o : Choice) → ((j : ℕ) × (o ≡ hide j)) ⊎ (o ≡ copy)
Choice-cases (hide j) = inl (j, refl)
Choice-cases copy = inr refl

redact_from_hides :
    (s : Bytes) (redact keep : List Span) (prev i until to p : ℕ)
    → Ascending 0 to redact
    → copies p (redact_from redact keep prev i until s) ≡ true
    → covers p redact ≡ false
redact_from_hides [] redact keep prev i until to p a h = unfold redact_from copies in cc
redact_from_hides (c ∷ rest) redact keep prev i until to p a h = elim (Bool-cases (ltb i until)) [
  | inl skip ↦
      redact_from_hides rest redact keep prev (suc i) until to p a
        (rw (redact_from_skip redact keep prev i until c rest skip) at h)
  | inr act ↦ elim (Choice-cases (choose (pending i redact) (pending i keep) prev i c rest)) [
    | inl (j, e) ↦
        redact_from_hides rest redact keep b'?' (suc i) j to p a
          (unfold copies in (rw (redact_from_hide redact keep prev i until c rest act e) at h))
    | inr e ↦ elim (Bool-cases (i == p)) [
      | inl here ↦
          let out = inside-pending 0 to i redact a in
          ground (arith, here, choose_copy (pending i redact) (pending i keep) prev i c rest e)
      | inr later ↦ redact_from_hides rest redact keep c (suc i) until to p a (
          let h' = rw (redact_from_copy redact keep prev i until c rest act e) at h in
          unfold copies in ground (arith, h', later))
    ]
  ]
]

-- The loop of `redact`, on the text that is left when the comments are stripped: a byte that it
-- copies lies outside every literal of that text, under either reading of the backslash, so no byte
-- of a quoted or dollar-quoted literal of that text, its quotes included, is copied. What the
-- stripping takes for a comment is not in that text.
pub redact_pieces_hides :
    (s : Bytes) (d : Dialect) (b : Bool) (p : ℕ)
    → copies p (redact_pieces s d) ≡ true
    → covers p (literal_spans s b d).redact ≡ false
redact_pieces_hides s d b p h =
    let (asc, cov) = redact_spans_lem s d in
    let found = redact_spans s d in
    let out =
      redact_from_hides s found.redact found.keep 0 0 0 (length s) p asc
        (unfold redact_pieces in h) in
    split b (sym (cov p) ∙ out)
  where
    split :
        (b : Bool)
        → (covers p (literal_spans s false d).redact || covers p (literal_spans s true d).redact)
          ≡ false
        → covers p (literal_spans s b d).redact ≡ false
    split false e = ground arith
    split true e = ground arith
