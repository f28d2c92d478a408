-- ===== src/Parsers/Operands.antt =====
-- Facts gathered over the operands of a set operation.
use sqlguard.Prelude.{
  ℕ, max, ◌≡◌, refl, sym, ap, ◌∙◌, Bool, true, false, ◌||◌, List, [], ◌∷◌, ◌++◌, arith,
}
use sqlguard.Analyzer.Types.{Statement}

pub or_assoc : (a b c : Bool) → (a || b) || c ≡ a || (b || c)
or_assoc true b c = refl
or_assoc false b c = refl

pub or_false : (a : Bool) → a || false ≡ a
or_false true = refl
or_false false = refl

pub max_assoc : (a b c : ℕ) → max (max a b) c ≡ max a (max b c)
max_assoc a b c = omega arith

pub max_zero : (a : ℕ) → max a 0 ≡ a
max_zero a = omega arith

module _ {ℓ} {A : Type ℓ} where
  abbrev pub any_among : (A → Bool) → List A → Bool
  any_among p [] = false
  any_among p (x ∷ xs) = p x || any_among p xs

  abbrev pub largest_among : (A → ℕ) → List A → ℕ
  largest_among f [] = 0
  largest_among f (x ∷ xs) = max (f x) (largest_among f xs)

  pub any_among-append :
      (p : A → Bool) (xs ys : List A) → any_among p (xs ++ ys) ≡ any_among p xs || any_among p ys
  any_among-append p [] ys = refl
  any_among-append p (x ∷ xs) ys =
      ap (λ o. p x || o) (any_among-append p xs ys)
      ∙ sym (or_assoc (p x) (any_among p xs) (any_among p ys))

  pub largest_among-append :
      (f : A → ℕ) (xs ys : List A)
      → largest_among f (xs ++ ys) ≡ max (largest_among f xs) (largest_among f ys)
  largest_among-append f [] ys = omega arith
  largest_among-append f (x ∷ xs) ys = omega (arith, largest_among-append f xs ys)

-- A statement with further facts: a FROM, a DISTINCT, a star and an offset.
abbrev pub with_facts : Statement → Bool → Bool → Bool → ℕ → Statement
with_facts st from distinct star offset = record st {
  has_from = st.has_from || from;
  select_distinct = st.select_distinct || distinct;
  select_star = st.select_star || star;
  offset_value = max st.offset_value offset;
}

-- A fact of a statement, and then of its operands.
pub or_any_among {ℓ} :
    {A : Type ℓ} (b : Bool) (p : A → Bool) (xs ys : List A)
    → (b || any_among p xs) || any_among p ys ≡ b || any_among p (xs ++ ys)
or_any_among b p xs ys =
    or_assoc b (any_among p xs) (any_among p ys) ∙ ap (λ o. b || o) (sym (any_among-append p xs ys))

pub max-largest_among {ℓ} :
    {A : Type ℓ} (n : ℕ) (f : A → ℕ) (xs ys : List A)
    → max (max n (largest_among f xs)) (largest_among f ys) ≡ max n (largest_among f (xs ++ ys))
max-largest_among n f xs ys = omega (arith, largest_among-append f xs ys)
