-- ===== src/Analyzer/Fallback/Parens/Split.antt =====
-- The split on commas of analyzer/fallback.go.
use sqlguard.Prelude.{
  Bool, zero, suc, if◌then◌else◌, ℕ, ◌≡◌, refl, sym, ap, ◌∙◌, subst, true, false, ◌&&◌, Bool-cases,
  inl, inr, List, [], ◌∷◌, ◌++◌, Bytes, All, ◌==◌, arith,
}
use sqlguard.Analyzer.Fallback.Parens.{depth_step, push_byte, split_from, split_top_level_commas}

-- The segments with a comma between each two.
unfoldable pub join_commas : List Bytes → Bytes
join_commas [] = []
join_commas (seg ∷ []) = seg
join_commas (seg ∷ seg' ∷ segs) = seg ++ (b',' ∷ join_commas (seg' ∷ segs))

-- A text that is one segment, read from a depth on.
abbrev IsWhole : ℕ → Bytes → Type 0
IsWhole depth seg = split_from depth seg ≡ seg ∷ []

-- What a split from a depth gives: the text, joined again, in segments that do not split.
abbrev Splits : ℕ → Bytes → List Bytes → Type 0
Splits depth s [] = ⊥
Splits depth s (seg ∷ segs) =
    (join_commas (seg ∷ segs) ≡ s) × IsWhole depth seg × All (IsWhole 0) segs

split_at_comma :
    (depth c : ℕ) (s : Bytes)
    → (c == b',' && depth == 0) ≡ true
    → split_from depth (c ∷ s) ≡ [] ∷ split_from (depth_step depth c) s
unfolding split_from
split_at_comma depth c s h = rw (h, split_from)

split_past :
    (depth c : ℕ) (s : Bytes)
    → (c == b',' && depth == 0) ≡ false
    → split_from depth (c ∷ s) ≡ push_byte c (split_from (depth_step depth c) s)
unfolding split_from
split_past depth c s h = rw (h, split_from)

comma-Splits : (s : Bytes) (segs : List Bytes) → Splits 0 s segs → Splits 0 (b',' ∷ s) ([] ∷ segs)
unfolding join_commas
comma-Splits s [] h = absurd h
comma-Splits s (seg ∷ segs) (joined, first, others) =
    (ap (◌∷◌ b',') joined, unfold split_from in refl, (first, others))

push-Splits :
    (depth c : ℕ) (s : Bytes) (segs : List Bytes)
    → (c == b',' && depth == 0) ≡ false
    → Splits (depth_step depth c) s segs
    → Splits depth (c ∷ s) (push_byte c segs)
push-Splits depth c s [] h k = absurd k
push-Splits depth c s (seg ∷ []) h (joined, first, others) = (
  unfold join_commas in ap (◌∷◌ c) joined,
  split_past depth c seg h ∙ ap (push_byte c) first,
  others,
)
push-Splits depth c s (seg ∷ seg' ∷ segs) h (joined, first, others) = (
  unfold join_commas in ap (◌∷◌ c) joined,
  split_past depth c seg h ∙ ap (push_byte c) first,
  others,
)

split_from-Splits : (depth : ℕ) (s : Bytes) → Splits depth s (split_from depth s)
split_from-Splits depth [] = unfold split_from in unfold join_commas in (refl, refl, tt)
split_from-Splits depth (c ∷ s) = elim (Bool-cases (c == b',' && depth == 0)) [
  | inl cut ↦
      let ec : c ≡ b',' = ground arith in
      let ed : depth ≡ 0 = ground arith in
      let at_top = comma-Splits s (split_from 0 s) (split_from-Splits 0 s) in
      rw (split_at_comma depth c s cut) (
        subst (λ d. Splits d (c ∷ s) ([] ∷ split_from (depth_step d c) s)) (sym ed)
          (subst (λ x. Splits 0 (x ∷ s) ([] ∷ split_from (depth_step 0 x) s)) (sym ec) at_top))
  | inr on ↦ rw (split_past depth c s on) (
      push-Splits depth c s (split_from (depth_step depth c) s) on
        (split_from-Splits (depth_step depth c) s))
]

-- The byte of the joined text at that index is a comma between two segments.
unfoldable pub cut_at : ℕ → List Bytes → Bool
cut_at i [] = false
cut_at i ([] ∷ []) = false
cut_at zero ([] ∷ seg ∷ segs) = true
cut_at (suc i) ([] ∷ seg ∷ segs) = cut_at i (seg ∷ segs)
cut_at zero ((c ∷ seg) ∷ segs) = false
cut_at (suc i) ((c ∷ seg) ∷ segs) = cut_at i (seg ∷ segs)

-- The byte of a text at that index is a comma outside parentheses, where `opened` counts those that
-- are open in front of the text and a `)` without a partner counts for nothing.
unfoldable pub is_top_comma : ℕ → Bytes → ℕ → Bool
is_top_comma opened [] i = false
is_top_comma zero (c ∷ s) zero = c == b','
is_top_comma (suc opened) (c ∷ s) zero = false
is_top_comma opened (c ∷ s) (suc i) =
    is_top_comma
      (if c == b'('
        then suc opened
        else if c == b')'
        then elim opened [ zero ↦ zero | suc others ↦ others ]
        else opened)
      s i

-- The depth behind a byte is what is open there.
depth_step_lem :
    (depth c : ℕ)
    → depth_step depth c ≡ (
        if c == b'('
        then suc depth
        else if c == b')'
        then elim depth [ zero ↦ zero | suc others ↦ others ]
        else depth)
depth_step_lem zero c = ground arith
depth_step_lem (suc depth) c = ground arith

cut_at-push_byte_zero : (c : ℕ) (segs : List Bytes) → cut_at 0 (push_byte c segs) ≡ false
unfolding cut_at
cut_at-push_byte_zero c [] = refl
cut_at-push_byte_zero c (seg ∷ segs) = refl

cut_at-push_byte : (i c : ℕ) (segs : List Bytes) → cut_at (suc i) (push_byte c segs) ≡ cut_at i segs
unfolding cut_at
cut_at-push_byte i c [] = refl
cut_at-push_byte i c (seg ∷ segs) = refl

cut_at-comma : (i : ℕ) (segs : List Bytes) → cut_at (suc i) ([] ∷ segs) ≡ cut_at i segs
unfolding cut_at
cut_at-comma i [] = refl
cut_at-comma i (seg ∷ segs) = refl

cut_here :
    (depth : ℕ) (s : Bytes) (segs : List Bytes) → Splits depth s segs → cut_at 0 ([] ∷ segs) ≡ true
unfolding cut_at
cut_here depth s [] h = absurd h
cut_here depth s (seg ∷ segs) h = refl

top_here : (depth c : ℕ) (s : Bytes) → is_top_comma depth (c ∷ s) 0 ≡ (c == b',' && depth == 0)
unfolding is_top_comma
top_here zero c s = ground arith
top_here (suc depth) c s = ground arith

top_on :
    (depth c : ℕ) (s : Bytes) (i : ℕ)
    → is_top_comma depth (c ∷ s) (suc i) ≡ is_top_comma (depth_step depth c) s i
unfolding is_top_comma
top_on depth c s i = ap (λ d. is_top_comma d s i) (sym (depth_step_lem depth c))

split_from-is_top_comma :
    (depth : ℕ) (s : Bytes) (i : ℕ) → cut_at i (split_from depth s) ≡ is_top_comma depth s i
split_from-is_top_comma depth [] i = unfold split_from cut_at is_top_comma in refl
split_from-is_top_comma depth (c ∷ s) zero = elim (Bool-cases (c == b',' && depth == 0)) [
  | inl cut ↦
      ap (cut_at 0) (split_at_comma depth c s cut)
      ∙ cut_here (depth_step depth c) s (split_from (depth_step depth c) s)
          (split_from-Splits (depth_step depth c) s)
      ∙ sym (top_here depth c s ∙ cut)
  | inr on ↦
      ap (cut_at 0) (split_past depth c s on)
      ∙ cut_at-push_byte_zero c (split_from (depth_step depth c) s)
      ∙ sym (top_here depth c s ∙ on)
]
split_from-is_top_comma depth (c ∷ s) (suc i) =
    let rest = split_from (depth_step depth c) s in
    elim (Bool-cases (c == b',' && depth == 0)) [
      | inl cut ↦
          ap (cut_at (suc i)) (split_at_comma depth c s cut)
          ∙ cut_at-comma i rest
          ∙ split_from-is_top_comma (depth_step depth c) s i
          ∙ sym (top_on depth c s i)
      | inr on ↦
          ap (cut_at (suc i)) (split_past depth c s on)
          ∙ cut_at-push_byte i c rest
          ∙ split_from-is_top_comma (depth_step depth c) s i
          ∙ sym (top_on depth c s i)
    ]

-- Splitting on top-level commas: the segments with commas between them are the text again, no
-- segment splits further, and the commas between the segments are exactly the commas of the text
-- outside parentheses.
pub split_top_level_commas_lem :
    (s : Bytes)
    → (join_commas (split_top_level_commas s) ≡ s)
      × (All (λ seg. split_top_level_commas seg ≡ seg ∷ []) (split_top_level_commas s)
          × ((i : ℕ) → cut_at i (split_top_level_commas s) ≡ is_top_comma 0 s i))
unfolding split_top_level_commas
split_top_level_commas_lem s =
    let (joined, whole) = go (split_from 0 s) (split_from-Splits 0 s) in
    (joined, (whole, split_from-is_top_comma 0 s))
  where
    go :
        (segs : List Bytes)
        → Splits 0 s segs
        → (join_commas segs ≡ s) × All (λ seg. split_from 0 seg ≡ seg ∷ []) segs
    go [] h = absurd h
    go (seg ∷ segs) (joined, first, others) = (joined, (first, others))
