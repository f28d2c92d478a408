-- ===== src/Analyzer/Fallback/Parens/Unwrap.antt =====
-- The loop of `unwrapStatementParens` of analyzer/fallback.go.
use sqlguard.Prelude.{
  subst, ℕ, zero, suc, ◌+◌, ◌≤◌, ◌≡◌, refl, sym, ap, ◌∙◌, Bool-cases, Option-cases, inl, inr, [],
  ◌∷◌, Option, none, some, Bytes, length, ◌==◌, arith,
}
use sqlguard.Analyzer.Lexer.Space.{space_width, trim_start, trim_end, trim_space}
use sqlguard.Analyzer.Fallback.Parens.{
  trim_semicolon, trimmed_statement, opens_paren, paren_content, whole, unwrap_once, unwrap_from,
  unwrap_statement_parens,
}
use sqlguard.Analyzer.Fallback.Parens.Enclosed.{
  Encloses, Encloses-unwrap_once, unwrap_once-Encloses,
}

trim_start-le : (skip : ℕ) (s : Bytes) → length (trim_start skip s) ≤ length s
unfolding trim_start
trim_start-le skip [] = omega arith
trim_start-le (suc skip) (c ∷ s) = omega (arith, trim_start-le skip s)
trim_start-le zero (c ∷ s) = go (space_width (c ∷ s)) (λ k. trim_start-le k s)
  where
    go :
        (w : ℕ)
        → ((k : ℕ) → length (trim_start k s) ≤ length s)
        → length (elim w [ zero ↦ c ∷ s | suc k ↦ trim_start k s ]) ≤ suc (length s)
    go zero h = omega arith
    go (suc w) h = omega (arith, h w)

trim_end-le : (s : Bytes) → length (trim_end s) ≤ length s
unfolding trim_end
trim_end-le [] = omega arith
trim_end-le (c ∷ s) = ground (arith, trim_end-le s)

trim_space-le : (s : Bytes) → length (trim_space s) ≤ length s
unfolding trim_space
trim_space-le s = omega (arith, trim_end-le (trim_start 0 s), trim_start-le 0 s)

trim_semicolon-le : (s : Bytes) → length (trim_semicolon s) ≤ length s
unfolding trim_semicolon
trim_semicolon-le [] = omega arith
trim_semicolon-le (c ∷ []) = ground arith
trim_semicolon-le (c ∷ d ∷ s) = omega (arith, trim_semicolon-le (d ∷ s))

whole_lem :
    (n : ℕ) (o : Option Bytes) (inner : Bytes) → whole n o ≡ some inner → length inner + 2 ≡ n
whole_lem n none inner h = ground arith
whole_lem n (some i) inner h = elim (Bool-cases (length i + 2 == n)) [
  | inl fits ↦
      let same : some i ≡ some inner = rw fits at h in
      let sizes : length i ≡ length inner = ap (λ (l : Bytes). length l) (cc) in ground arith
  | inr differs ↦ let bad : none ≡ some inner = rw differs at h in ground arith
]

-- A round takes two bytes off.
unwrap_once_shorter : (s inner : Bytes) → unwrap_once s ≡ some inner → length inner + 2 ≤ length s
unfolding unwrap_once
unwrap_once_shorter s inner h = elim (Bool-cases (opens_paren (trimmed_statement s))) [
  | inr out ↦ let bad : none ≡ some inner = rw out at h in ground arith
  | inl opens ↦
      let h' = rw opens at h in
      let t = trimmed_statement s in
      omega (
        arith,
        whole_lem (length t) (paren_content t 0) inner h',
        trim_space-le (trim_semicolon (trim_space s)),
        trim_semicolon-le (trim_space s),
        trim_space-le s,
      )
]

unwrap_from_stop : (fuel : ℕ) (s : Bytes) → unwrap_once s ≡ none → unwrap_from fuel s ≡ s
unfolding unwrap_from
unwrap_from_stop zero s h = refl
unwrap_from_stop (suc fuel) s h = rw (h, unwrap_from)

unwrap_from_on :
    (fuel : ℕ) (s inner : Bytes)
    → unwrap_once s ≡ some inner
    → unwrap_from (suc fuel) s ≡ unwrap_from fuel inner
unfolding unwrap_from
unwrap_from_on fuel s inner h = rw (h, unwrap_from)

stopped :
    (fuel more : ℕ) (s : Bytes)
    → unwrap_once s ≡ none
    → (unwrap_once (unwrap_from fuel s) ≡ none) × (unwrap_from fuel s ≡ unwrap_from more s)
stopped fuel more s stop =
    let here = unwrap_from_stop fuel s stop in
    (ap unwrap_once here ∙ stop, here ∙ sym (unwrap_from_stop more s stop))

unwrap_from_lem :
    (fuel more : ℕ) (s : Bytes)
    → length s ≤ fuel
    → length s ≤ more
    → (unwrap_once (unwrap_from fuel s) ≡ none) × (unwrap_from fuel s ≡ unwrap_from more s)
unwrap_from_lem zero more s h k = elim (Option-cases (unwrap_once s)) [
  | inl stop ↦ stopped zero more s stop
  | inr (inner, on) ↦ absurd (omega (arith, unwrap_once_shorter s inner on))
]
unwrap_from_lem (suc fuel) zero s h k = elim (Option-cases (unwrap_once s)) [
  | inl stop ↦ stopped (suc fuel) zero s stop
  | inr (inner, on) ↦ absurd (omega (arith, unwrap_once_shorter s inner on))
]
unwrap_from_lem (suc fuel) (suc more) s h k = elim (Option-cases (unwrap_once s)) [
  | inl stop ↦ stopped (suc fuel) (suc more) s stop
  | inr (inner, on) ↦
      let shorter = unwrap_once_shorter s inner on in
      let (ends, same) = unwrap_from_lem fuel more inner (omega arith) (omega arith) in
      (
        ap unwrap_once (unwrap_from_on fuel s inner on) ∙ ends,
        unwrap_from_on fuel s inner on ∙ same ∙ sym (unwrap_from_on more s inner on),
      )
]

-- Statements in parentheses are unwrapped, one round at a time.
pub data Unwraps : Bytes → Bytes → Type 0 where
  stays : (s : Bytes) → Unwraps s s
  round : (s inner r : Bytes) → Encloses s inner → Unwraps inner r → Unwraps s r

unwrap_from-Unwraps : (fuel : ℕ) (s : Bytes) → Unwraps s (unwrap_from fuel s)
unwrap_from-Unwraps zero s = unfold unwrap_from in stays s
unwrap_from-Unwraps (suc fuel) s = elim (Option-cases (unwrap_once s)) [
  | inl stop ↦ subst (Unwraps s) (sym (unwrap_from_stop (suc fuel) s stop)) (stays s)
  | inr (inner, on) ↦ subst (Unwraps s) (sym (unwrap_from_on fuel s inner on)) (
      round s inner (unwrap_from fuel inner) (unwrap_once-Encloses s inner on)
        (unwrap_from-Unwraps fuel inner))
]

not_enclosed : (s : Bytes) → unwrap_once s ≡ none → (inner : Bytes) → ¬ Encloses s inner
not_enclosed s stop inner e = let on = Encloses-unwrap_once s inner e in cc

-- The loop takes off the parentheses around the statement, round by round, and nothing else, where
-- a round passes over the white space around the statement and one semicolon at its end; it ends at
-- a text that is not a balanced text in parentheses any more; and with as many rounds as the text
-- has bytes, or more, the result is the same.
pub unwrap_statement_parens_lem :
    (s : Bytes)
    → Unwraps s (unwrap_statement_parens s)
      × (((inner : Bytes) → ¬ Encloses (unwrap_statement_parens s) inner)
          × ((fuel : ℕ) → length s ≤ fuel → unwrap_from fuel s ≡ unwrap_statement_parens s))
unfolding unwrap_statement_parens
unwrap_statement_parens_lem s = (
  unwrap_from-Unwraps (length s) s,
  (
    not_enclosed (unwrap_from (length s) s)
        (unwrap_from_lem (length s) (length s) s (omega arith) (omega arith)).0,
    λ fuel h. (unwrap_from_lem fuel (length s) s h (omega arith)).1,
  ),
)
