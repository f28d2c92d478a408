-- ===== src/Analyzer/Fallback/Parens/Enclosed.antt =====
-- The statements in parentheses that a round of `unwrapStatementParens` of analyzer/fallback.go
-- unwraps.
use mathlib.Core.Option.{some_inj}
use sqlguard.Prelude.{
  ℕ, ◌+◌, ◌≡◌, ◌≢◌, ◌⊎◌, refl, sym, ap, ◌∙◌, true, false, Bool-cases, inl, inr, if◌then◌else◌, [],
  ◌∷◌, ◌++◌, Option, none, some, Bytes, codes, length, ◌==◌, arith,
}
use sqlguard.Analyzer.Lexer.Space.{trim_space}
use sqlguard.Analyzer.Fallback.Parens.{
  trim_semicolon, trimmed_statement, opens_paren, paren_content, whole, unwrap_once,
}
use sqlguard.Analyzer.Fallback.Parens.Balance.{Balanced, paren_content_lem, length-append}

-- What a text without the white space around it is in front of the semicolon at its end.
abbrev pub IsBody : Bytes → Bytes → Type 0
IsBody u body = (u ≡ body ++ codes ";") ⊎ ((u ≡ body) × ((x : Bytes) → body ≢ x ++ codes ";"))

-- The statement is a balanced text in parentheses, white space and a semicolon at the end aside.
abbrev pub Encloses : Bytes → Bytes → Type 0
Encloses s inner =
    (body : Bytes) × (IsBody (trim_space s) body
      × ((trim_space body ≡ b'(' ∷ (inner ++ (b')' ∷ []))) × Balanced inner))

trim_semicolon-append : (body : Bytes) → trim_semicolon (body ++ codes ";") ≡ body
unfolding trim_semicolon
trim_semicolon-append [] = refl
trim_semicolon-append (c ∷ []) = refl
trim_semicolon-append (c ∷ d ∷ s) = ap (◌∷◌ c) (trim_semicolon-append (d ∷ s))

trim_semicolon-same :
    (body : Bytes) → ((x : Bytes) → body ≢ x ++ codes ";") → trim_semicolon body ≡ body
unfolding trim_semicolon
trim_semicolon-same [] h = refl
trim_semicolon-same (c ∷ []) h = elim (Bool-cases (c == b';')) [
  | inl semicolon ↦ let same : c ≡ b';' = ground arith in absurd (h [] (ap (λ x. x ∷ []) same))
  | inr other ↦ rw other refl
]
trim_semicolon-same (c ∷ d ∷ s) h =
    ap (◌∷◌ c) (trim_semicolon-same (d ∷ s) (λ x e. h (c ∷ x) (ap (◌∷◌ c) e)))

IsBody-trim_semicolon : (u body : Bytes) → IsBody u body → trim_semicolon u ≡ body
IsBody-trim_semicolon u body (inl e) = ap trim_semicolon e ∙ trim_semicolon-append body
IsBody-trim_semicolon u body (inr (e, h)) = ap trim_semicolon e ∙ trim_semicolon-same body h

tail_of : Bytes → Bytes
tail_of [] = []
tail_of (c ∷ s) = s

not_empty : (x : Bytes) → [] ≢ x ++ codes ";"
not_empty [] e = cc
not_empty (c ∷ x) e = cc

trim_semicolon-IsBody : (u : Bytes) → IsBody u (trim_semicolon u)
unfolding trim_semicolon tail_of
trim_semicolon-IsBody [] = inr (refl, not_empty)
trim_semicolon-IsBody (c ∷ []) = elim (Bool-cases (c == b';')) [
  | inl semicolon ↦ let same : c ≡ b';' = ground arith in rw semicolon (inl (ap (λ x. x ∷ []) same))
  | inr other ↦ rw other (inr (refl, only other))
]
  where
    only : (c == b';') ≡ false → (x : Bytes) → c ∷ [] ≢ x ++ codes ";"
    only other [] e = let same : c ≡ b';' = cc in ground (arith, other, same)
    only other (y ∷ x) e = not_empty x (ap tail_of e)
trim_semicolon-IsBody (c ∷ d ∷ s) = push (trim_semicolon (d ∷ s)) (trim_semicolon-IsBody (d ∷ s))
  where
    longer :
        (body : Bytes)
        → d ∷ s ≡ body
        → ((x : Bytes) → body ≢ x ++ codes ";")
        → (x : Bytes) → c ∷ body ≢ x ++ codes ";"
    longer body e h [] k = let gone : body ≡ [] = ap tail_of k in cc
    longer body e h (y ∷ x) k = h x (ap tail_of k)

    push : (body : Bytes) → IsBody (d ∷ s) body → IsBody (c ∷ d ∷ s) (c ∷ body)
    push body (inl e) = inl (ap (◌∷◌ c) e)
    push body (inr (e, h)) = inr (ap (◌∷◌ c) e, longer body e h)

whole-some : (inner : Bytes) (n : ℕ) → n ≡ length inner + 2 → whole n (some inner) ≡ some inner
whole-some inner n e = let fits : (length inner + 2 == n) ≡ true = ground arith in rw fits refl

-- What is in parentheses is unwrapped.
pub Encloses-unwrap_once : (s inner : Bytes) → Encloses s inner → unwrap_once s ≡ some inner
unfolding unwrap_once
Encloses-unwrap_once s inner (body, (is_body, (e, balanced))) =
    let t : Bytes = b'(' ∷ (inner ++ (b')' ∷ [])) in
    let trimmed : trimmed_statement s ≡ t =
      ap trim_space (IsBody-trim_semicolon (trim_space s) body is_body) ∙ e in
    let found = (paren_content_lem t inner 0).1 (balanced, [], refl) in
    let size : length t ≡ length inner + 2 = omega (arith, length-append inner (b')' ∷ [])) in
    rw (trimmed, found) (whole-some inner (length t) size)

no_tail :
    (inner t : Bytes) (n : ℕ) → length (inner ++ (b')' ∷ t)) + 1 ≡ n → length inner + 2 ≡ n → t ≡ []
no_tail inner [] n e h = refl
no_tail inner (c ∷ t) n e h = absurd (omega (arith, length-append inner (b')' ∷ c ∷ t)))

enclosed_lem :
    (t inner : Bytes)
    → (if opens_paren t then whole (length t) (paren_content t 0) else none) ≡ some inner
    → (t ≡ b'(' ∷ (inner ++ (b')' ∷ []))) × Balanced inner
enclosed_lem [] inner h = cc
enclosed_lem (c ∷ t) inner h = elim (Bool-cases (c == b'(')) [
  | inr other ↦ let bad : none ≡ some inner = rw other at h in cc
  | inl opens ↦
      let at : c ≡ b'(' = ground arith in go at (paren_content (c ∷ t) 0) refl (rw opens at h)
]
  where
    go :
        c ≡ b'('
        → (o : Option Bytes) → paren_content (c ∷ t) 0 ≡ o
        → whole (length (c ∷ t)) o ≡ some inner
        → (c ∷ t ≡ b'(' ∷ (inner ++ (b')' ∷ []))) × Balanced inner
    go at none e k = cc
    go at (some inside) e k = elim (Bool-cases (length inside + 2 == length (c ∷ t))) [
      | inr differs ↦ let bad : none ≡ some inner = rw differs at k in cc
      | inl fits ↦
          let kept : some inside ≡ some inner = rw fits at k in
          let same : inside ≡ inner = some_inj.0 kept in
          let size : length inner + 2 ≡ length (c ∷ t) =
            ap (λ (l : Bytes). length l + 2) (sym same) ∙ ground arith in
          let (balanced, rest, cut) = (paren_content_lem (c ∷ t) inner 0).0 (e ∙ ap some same) in
          let behind : t ≡ inner ++ (b')' ∷ rest) = cut in
          let end =
            no_tail inner rest (length (c ∷ t))
              (ap (λ (l : Bytes). length l + 1) (sym behind) ∙ omega arith) size in
          (
            ap (λ x. x ∷ t) at ∙ ap (◌∷◌ b'(') (behind ∙ ap (λ r. inner ++ (b')' ∷ r)) end),
            balanced,
          )
    ]

-- What is unwrapped was in parentheses.
pub unwrap_once-Encloses : (s inner : Bytes) → unwrap_once s ≡ some inner → Encloses s inner
unfolding unwrap_once
unwrap_once-Encloses s inner h = (
  trim_semicolon (trim_space s),
  (trim_semicolon-IsBody (trim_space s), enclosed_lem (trimmed_statement s) inner h),
)
