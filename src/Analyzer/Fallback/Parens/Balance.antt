-- ===== src/Analyzer/Fallback/Parens/Balance.antt =====
-- `parenContent` of analyzer/fallback.go against balanced texts.
use sqlguard.Prelude.{
  append_assoc, ℕ, zero, suc, ◌+◌, ◌-◌, ◌≡◌, ◌↔◌, refl, sym, ap, ◌∙◌, subst, false, Bool-cases,
  Option-cases, inl, inr, [], ◌∷◌, ◌++◌, Option, none, some, Bytes, length, take, drop, leb, ◌==◌,
  arith,
}
use sqlguard.Analyzer.Fallback.Parens.{close_at, content_from, paren_content}

-- Every parenthesis of the text has its partner in it.
pub data Balanced : Bytes → Type 0 where
  done : Balanced []
  plain :
      {c : ℕ} {s : Bytes}
      → (c == b'(') ≡ false
      → (c == b')') ≡ false
      → Balanced s
      → Balanced (c ∷ s)
  nest : {a b : Bytes} → Balanced a → Balanced b → Balanced (b'(' ∷ (a ++ (b')' ∷ b)))

abbrev shift : ℕ → Option ℕ → Option ℕ
shift n none = none
shift n (some k) = some (n + k)

shift_add : (m n : ℕ) (o : Option ℕ) → shift m (shift n o) ≡ shift (m + n) o
shift_add m n none = refl
shift_add m n (some k) = ap some (omega arith)

shift_zero : (o : Option ℕ) → o ≡ shift 0 o
shift_zero none = refl
shift_zero (some k) = ap some (omega arith)

shift-suc : (o : Option ℕ) → elim o [ none ↦ none | some n ↦ some (suc n) ] ≡ shift 1 o
shift-suc none = refl
shift-suc (some k) = ap some (omega arith)

close_at_plain :
    (d c : ℕ) (s : Bytes)
    → (c == b'(') ≡ false
    → (c == b')') ≡ false
    → close_at d (c ∷ s) ≡ shift 1 (close_at d s)
unfolding close_at
close_at_plain d c s h k = rw (h, k, close_at) (shift-suc (close_at d s))

close_at_open : (d : ℕ) (s : Bytes) → close_at d (b'(' ∷ s) ≡ shift 1 (close_at (suc d) s)
unfolding close_at
close_at_open d s = shift-suc (close_at (suc d) s)

close_at_close :
    (d : ℕ) (s : Bytes) → close_at (suc (suc d)) (b')' ∷ s) ≡ shift 1 (close_at (suc d) s)
unfolding close_at
close_at_close d s =
    let deep : leb (suc (suc d)) 1 ≡ false = ground arith in
    let less : suc (suc d) - 1 ≡ suc d = omega arith in
    rw (deep, less) (shift-suc (close_at (suc d) s))

pub length-append : (a b : Bytes) → length (a ++ b) ≡ length a + length b
length-append [] b = omega arith
length-append (x ∷ a) b = omega (arith, length-append a b)

-- A balanced text is passed over.
close_at-Balanced :
    {a : Bytes}
    → Balanced a
    → (d : ℕ) (t : Bytes) → close_at (suc d) (a ++ t) ≡ shift (length a) (close_at (suc d) t)
close_at-Balanced done d t = shift_zero (close_at (suc d) t)
close_at-Balanced (plain {c = c} {s = s} h k b) d t =
    close_at_plain (suc d) c (s ++ t) h k
    ∙ ap (shift 1) (close_at-Balanced b d t)
    ∙ shift_add 1 (length s) (close_at (suc d) t)
    ∙ ap (λ n. shift n (close_at (suc d) t)) (omega arith)
close_at-Balanced (nest {a = a} {b = b} ha hb) d t =
    ap (λ x. close_at (suc d) (b'(' ∷ x)) (append_assoc a (b')' ∷ b) t)
    ∙ close_at_open (suc d) (a ++ (b')' ∷ (b ++ t)))
    ∙ ap (shift 1) (close_at-Balanced ha (suc d) (b')' ∷ (b ++ t)))
    ∙ ap (λ o. shift 1 (shift (length a) o)) (close_at_close d (b ++ t))
    ∙ ap (λ o. shift 1 (shift (length a) (shift 1 o))) (close_at-Balanced hb d t)
    ∙ nest_shift (close_at (suc d) t)
  where
    nest_shift :
        (o : Option ℕ)
        → shift 1 (shift (length a) (shift 1 (shift (length b) o)))
          ≡ shift (length (b'(' ∷ (a ++ (b')' ∷ b)))) o
    nest_shift none = refl
    nest_shift (some k) = ap some (omega (arith, length-append a (b')' ∷ b)))

-- A text at depth `d`: balanced texts, with a `)` behind each of the first `d`.
Closes : ℕ → Bytes → Type 0
Closes zero a = Balanced a
Closes (suc d) a = (x y : Bytes) × (a ≡ x ++ (b')' ∷ y)) × Balanced x × Closes d y

Closes-plain :
    (d c : ℕ) (a : Bytes)
    → (c == b'(') ≡ false
    → (c == b')') ≡ false
    → Closes d a
    → Closes d (c ∷ a)
unfolding Closes
Closes-plain zero c a h k b = plain h k b
Closes-plain (suc d) c a h k (x, y, e, b, rest) = (c ∷ x, y, ap (◌∷◌ c) e, plain h k b, rest)

Closes-open : (d : ℕ) (a : Bytes) → Closes (suc d) a → Closes d (b'(' ∷ a)
unfolding Closes
Closes-open zero a (x, y, e, b, rest) = subst Balanced (ap (◌∷◌ b'(') (sym e)) (nest b rest)
Closes-open (suc d) a (x, y, e, b, (x', y', e', b', rest)) = (
  b'(' ∷ (x ++ (b')' ∷ x')),
  y',
  ap (◌∷◌ b'(') (e ∙ ap (λ t. x ++ (b')' ∷ t)) e' ∙ sym (append_assoc x (b')' ∷ x') (b')' ∷ y'))),
  nest b b',
  rest,
)

-- What a text is in front of the `)` that closes the depth.
abbrev Found : ℕ → Bytes → ℕ → Type 0
Found d s n = (a t : Bytes) × (s ≡ a ++ (b')' ∷ t)) × (length a ≡ n) × Closes d a

shift-some : (o : Option ℕ) (n : ℕ) → shift 1 o ≡ some n → (k : ℕ) × (o ≡ some k) × (suc k ≡ n)
shift-some none n h = ground arith
shift-some (some k) n h = (k, refl, ground arith)

closes_lem :
    (d : ℕ) (s : Bytes) (n : ℕ)
    → ((d' k : ℕ) → close_at (suc d') s ≡ some k → Found d' s k)
    → close_at (suc d) (b')' ∷ s) ≡ some n
    → Found d (b')' ∷ s) n
closes_lem zero s n ih h =
    let here : some 0 ≡ some n = unfold close_at in h in
    ([], s, refl, ground arith, unfold Closes in done)
closes_lem (suc d) s n ih h =
    let (k, e, size) = shift-some (close_at (suc d) s) n (sym (close_at_close d s) ∙ h) in
    let (a, t, es, el, closed) = ih d k e in
    (b')' ∷ a, t, ap (◌∷◌ b')') es, omega arith, unfold Closes in ([], a, refl, done, closed))

close_at-Found : (d : ℕ) (s : Bytes) (n : ℕ) → close_at (suc d) s ≡ some n → Found d s n
close_at-Found d [] n h = let bad : none ≡ some n = unfold close_at in h in ground arith
close_at-Found d (c ∷ s) n h = elim (Bool-cases (c == b'(')) [
  | inl opens ↦
      let at : c ≡ b'(' = ground arith in
      let h' = subst (λ x. close_at (suc d) (x ∷ s) ≡ some n) at h in
      let (k, e, size) =
        shift-some (close_at (suc (suc d)) s) n (sym (close_at_open (suc d) s) ∙ h') in
      let (a, t, es, el, closed) = close_at-Found (suc d) s k e in
      (
        c ∷ a,
        t,
        ap (◌∷◌ c) es,
        omega arith,
        subst (λ x. Closes d (x ∷ a)) (sym at) (Closes-open d a closed),
      )
  | inr on ↦ elim (Bool-cases (c == b')')) [
    | inl closes ↦
        let at : c ≡ b')' = ground arith in
        subst (λ x. Found d (x ∷ s) n) (sym at)
          (closes_lem d s n (λ d' k. close_at-Found d' s k)
            (subst (λ x. close_at (suc d) (x ∷ s) ≡ some n) at h))
    | inr other ↦
        let (k, e, size) =
          shift-some (close_at (suc d) s) n (sym (close_at_plain (suc d) c s on other) ∙ h) in
        let (a, t, es, el, closed) = close_at-Found d s k e in
        (c ∷ a, t, ap (◌∷◌ c) es, omega arith, Closes-plain d c a on other closed)
  ]
]

take-append : (a t : Bytes) → take (length a) (a ++ t) ≡ a
take-append [] t = refl
take-append (c ∷ a) t = ap (◌∷◌ c) (take-append a t)

content_to :
    (inside inner : Bytes)
    → content_from inside (close_at 1 inside) ≡ some inner
    → Balanced inner × (t : Bytes) × (inside ≡ inner ++ (b')' ∷ t))
content_to inside inner h = elim (Option-cases (close_at 1 inside)) [
  | inl gone ↦ let bad : none ≡ some inner = rw (gone, content_from) at h in ground arith
  | inr (n, e) ↦
      let cut : some (take n inside) ≡ some inner = rw (e, content_from) at h in
      let cut' : take n inside ≡ inner = cc in
      let (a, t, es, el, closed) = close_at-Found 0 inside n e in
      let whole : take n inside ≡ a =
        ap (λ l. take n l) es
        ∙ ap (λ m. take m (a ++ (b')' ∷ t))) (sym el)
        ∙ take-append a (b')' ∷ t) in
      let same : a ≡ inner = sym whole ∙ cut' in
      let balanced : Balanced a = unfold Closes in closed in
      (subst Balanced same balanced, t, es ∙ ap (λ l. l ++ (b')' ∷ t)) same)
]

content_of :
    (inner t : Bytes)
    → Balanced inner
    → content_from (inner ++ (b')' ∷ t)) (close_at 1 (inner ++ (b')' ∷ t))) ≡ some inner
content_of inner t b =
    let here : close_at 1 (b')' ∷ t) ≡ some 0 = unfold close_at in refl in
    let size : length inner + 0 ≡ length inner = omega arith in
    let found = close_at-Balanced b 0 (b')' ∷ t) ∙ ap (shift (length inner)) here ∙ ap some size in
    ap (content_from (inner ++ (b')' ∷ t))) found ∙ ap some (take-append inner (b')' ∷ t))

-- What stands behind an opening parenthesis is a balanced text and then a `)`, exactly if the
-- content of the parenthesis is that balanced text.
pub paren_content_lem :
    (s inner : Bytes) (at : ℕ)
    → (paren_content s at ≡ some inner)
      ↔ (Balanced inner × (t : Bytes) × (drop (suc at) s ≡ inner ++ (b')' ∷ t)))
unfolding paren_content
paren_content_lem s inner at = (
  content_to (drop (suc at) s) inner,
  λ (b, t, e).
      subst (λ l. content_from l (close_at 1 l) ≡ some inner) (sym e) (content_of inner t b),
)
