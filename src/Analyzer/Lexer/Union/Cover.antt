-- ===== src/Analyzer/Lexer/Union/Cover.antt =====
-- The union of the spans of two readings (analyzer/redact.go).
use sqlguard.Prelude.{
  ℕ, ◌≤◌, ◌<◌, ◌≡◌, refl, Bool, false, ◌&&◌, ◌||◌, List, [], ◌∷◌, arith, ap, ◌∙◌, leb→le, ltb, leb,
  Bool-cases, inl, inr, if◌then◌else◌,
}
use sqlguard.Analyzer.Lexer.Spans.{Span}
use sqlguard.Analyzer.Lexer.Spans.Order.{Ascending, Ascending-weaken}
use sqlguard.Analyzer.Lexer.Union.{joins, grown, union_rest, union_loop, union_spans}

-- The byte at index `p` lies in one of the spans.
abbrev pub covers_one : ℕ → Span → Bool
covers_one p x = leb x.lo p && ltb p x.hi

unfoldable pub covers : ℕ → List Span → Bool
covers p [] = false
covers p (x ∷ xs) = covers_one p x || covers p xs

-- The spans of `found` are what `last` and the others hold, and start no earlier than `last`.
abbrev Merged : ℕ → Span → (ℕ → Bool) → List Span → Type 0
Merged to last others found =
    Ascending last.lo to found × ((p : ℕ) → covers p found ≡ (covers_one p last || others p))

-- One round: what is merged from the next `last` is merged from this one.
round-Merged :
    (to : ℕ) (last next : Span) (others : ℕ → Bool) (found : List Span)
    → last.lo < last.hi
    → last.hi ≤ to
    → last.lo ≤ next.lo
    → Merged to (if joins last next then grown last next else next) others found
    → Merged to last
        (λ p. covers_one p next || others p)
        (if joins last next then found else last ∷ found)
unfolding covers
round-Merged to last next others found h k l (asc, cov) = elim (Bool-cases (joins last next)) [
  | inl near ↦
      rw near (Ascending-weaken _ last.lo to found (ground arith) asc, λ p. ground (arith, cov p))
  | inr far ↦ rw far (
    (omega arith, h, k, Ascending-weaken _ last.hi to found (ground arith) asc),
    λ p. ground (arith, cov p),
  )
]

-- The next last span is well formed and starts no earlier.
next_last :
    (to : ℕ) (last next : Span)
    → last.lo < last.hi
    → last.hi ≤ to
    → last.lo ≤ next.lo
    → next.lo < next.hi
    → next.hi ≤ to
    → let last' : Span = if joins last next then grown last next else next in
      (last'.lo < last'.hi) × (last'.hi ≤ to) × (last'.lo ≤ next.lo) × (last.lo ≤ last'.lo)
next_last to last next h k l h' k' = ground arith

union_rest-Merged :
    (a : List Span) (to : ℕ) (last : Span)
    → last.lo < last.hi
    → last.hi ≤ to
    → Ascending last.lo to a
    → Merged to last (λ p. covers p a) (union_rest last a)
unfolding union_rest covers
union_rest-Merged [] to last h k a = ((omega arith, h, k, tt), λ p. refl)
union_rest-Merged (x ∷ a) to last h k (l, e, f, rest) =
    let last' : Span = if joins last x then grown last x else x in
    let (h', k', l', _) = next_last to last x h k l e f in
    round-Merged to last x (λ p. covers p a) (union_rest last' a) h k l
      (union_rest-Merged a to last' h' k' (Ascending-weaken x.hi last'.lo to a (omega arith) rest))

Merged-others :
    (to : ℕ) (last : Span) (others others' : ℕ → Bool) (found : List Span)
    → ((p : ℕ) → others p ≡ others' p)
    → Merged to last others found
    → Merged to last others' found
Merged-others to last others others' found e (asc, cov) =
    (asc, λ p. cov p ∙ ap (λ o. covers_one p last || o) (e p))

union_loop-Merged :
    (a b : List Span) (to : ℕ) (last : Span)
    → last.lo < last.hi
    → last.hi ≤ to
    → Ascending last.lo to a
    → Ascending last.lo to b
    → Merged to last (λ p. covers p a || covers p b) (union_loop last a b)
unfolding union_loop covers
union_loop-Merged [] b to last h k ea eb = union_rest-Merged b to last h k eb
union_loop-Merged (x ∷ a) [] to last h k ea eb =
    Merged-others to last (λ p. covers p (x ∷ a)) _ _ (λ p. ground arith)
      (union_rest-Merged (x ∷ a) to last h k ea)
union_loop-Merged (x ∷ a) (y ∷ b) to last h k (lx, ex, fx, ra) (ly, ey, fy, rb) =
    elim (Bool-cases (leb x.lo y.lo)) [
      | inl first ↦
          let last' : Span = if joins last x then grown last x else x in
          let (h', k', l', m') = next_last to last x h k lx ex fx in
          let le : x.lo ≤ y.lo = leb→le x.lo y.lo first in
          let rest =
            union_loop-Merged a (y ∷ b) to last' h' k'
              (Ascending-weaken x.hi last'.lo to a (omega arith) ra) (omega arith, ey, fy, rb) in
          rw first (
            Merged-others to last (λ p. covers_one p x || (covers p a || covers p (y ∷ b))) _ _
              (λ p. ground arith) (round-Merged to last x _ _ h k lx rest))
      | inr second ↦
          let last' : Span = if joins last y then grown last y else y in
          let (h', k', l', m') = next_last to last y h k ly ey fy in
          let le : y.lo ≤ x.lo = ground arith in
          let rest =
            union_loop-Merged (x ∷ a) b to last' h' k' (omega arith, ex, fx, ra)
              (Ascending-weaken y.hi last'.lo to b (omega arith) rb) in
          rw second (
            Merged-others to last (λ p. covers_one p y || (covers p (x ∷ a) || covers p b)) _ _
              (λ p. ground arith) (round-Merged to last y _ _ h k ly rest))
    ]

-- The union of two ascending lists is ascending, and covers exactly what one of them covers.
pub union_spans_lem :
    (a b : List Span) (to : ℕ)
    → Ascending 0 to a
    → Ascending 0 to b
    → Ascending 0 to (union_spans a b)
      × ((p : ℕ) → covers p (union_spans a b) ≡ (covers p a || covers p b))
unfolding union_spans covers
union_spans_lem [] b to ea eb = (eb, λ p. refl)
union_spans_lem (x ∷ a) [] to ea eb = (ea, λ p. ground arith)
union_spans_lem (x ∷ a) (y ∷ b) to (_, ex, fx, ra) (_, ey, fy, rb) =
    elim (Bool-cases (leb x.lo y.lo)) [
      | inl first ↦
          let le : x.lo ≤ y.lo = leb→le x.lo y.lo first in
          let (asc, cov) =
            union_loop-Merged a (y ∷ b) to x ex fx
              (Ascending-weaken x.hi x.lo to a (omega arith) ra) (le, ey, fy, rb) in
          rw first (Ascending-weaken x.lo 0 to _ (omega arith) asc, λ p. ground (arith, cov p))
      | inr second ↦
          let le : y.lo ≤ x.lo = ground arith in
          let (asc, cov) =
            union_loop-Merged (x ∷ a) b to y ey fy (le, ex, fx, ra)
              (Ascending-weaken y.hi y.lo to b (omega arith) rb) in
          rw second (Ascending-weaken y.lo 0 to _ (omega arith) asc, λ p. ground (arith, cov p))
    ]
