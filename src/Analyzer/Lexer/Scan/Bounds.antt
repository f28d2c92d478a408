-- ===== src/Analyzer/Lexer/Scan/Bounds.antt =====
-- Where the scanners of analyzer/redact.go stop: they move on, and stay within the text.
use sqlguard.Prelude.{
  ℕ, suc, ◌+◌, ◌≤◌, ◌<◌, ◌≡◌, Bool, true, [], ◌∷◌, Option, some, Bytes, arith, length, drop,
  length-drop, Bool-cases, inl, inr, Option-cases, ◌++◌,
}
use sqlguard.Analyzer.Lexer.Chars.{is_digit, is_ident_byte, is_radix_digit, lower_bit}
use sqlguard.Analyzer.Lexer.Scan.{
  scan_quoted_run_closed, count_while, has_prefix, index_of, close_dollar, open_dollar,
  scan_dollar_quoted, scan_radix_number, scan_exponent, scan_number, sign_width, is_digit_or_dot,
  take_while,
}

-- A run of quoted bytes ends within the text; if it is closed, behind at least one byte.
pub scan_quoted_run_closed_bounds :
    (b : Bool) (q i : ℕ) (rest : Bytes)
    → let (j, closed) = scan_quoted_run_closed b q i rest in
      (i ≤ j) × (j ≤ i + length rest) × (closed ≡ true → i < j)
unfolding scan_quoted_run_closed
scan_quoted_run_closed_bounds b q i [] = ground arith
scan_quoted_run_closed_bounds b q i (c ∷ []) = ground arith
scan_quoted_run_closed_bounds b q i (c ∷ d ∷ rest) = ground (
  arith,
  scan_quoted_run_closed_bounds b q (suc (suc i)) rest,
  scan_quoted_run_closed_bounds b q (suc i) (d ∷ rest),
)

pub count_while-le : (p : ℕ → Bool) (s : Bytes) → count_while p s ≤ length s
unfolding count_while
count_while-le p [] = omega arith
count_while-le p (c ∷ s) = ground (arith, count_while-le p s)

has_prefix-length : (s p : Bytes) → has_prefix s p ≡ true → length p ≤ length s
unfolding has_prefix
has_prefix-length s [] h = omega arith
has_prefix-length [] (p ∷ ps) h = cc
has_prefix-length (c ∷ s) (p ∷ ps) h = ground (arith, has_prefix-length s ps)

index_of-length : (tag s : Bytes) {k : ℕ} → index_of tag s ≡ some k → k + length tag ≤ length s
unfolding index_of
index_of-length tag [] h = ground (arith, has_prefix-length [] tag)
index_of-length tag (c ∷ s) {k} h = elim (Bool-cases (has_prefix (c ∷ s) tag)) [
  | inl here ↦ ground (arith, has_prefix-length (c ∷ s) tag here)
  | inr other ↦ elim (Option-cases (index_of tag s)) [
    | inl e ↦ ground (arith, e)
    | inr (m, e) ↦ ground (arith, e, index_of-length tag s e)
  ]
]

close_dollar_bounds :
    (tag : Bytes) (j : ℕ) (body : Bytes)
    → (j ≤ (close_dollar tag j body).0) × ((close_dollar tag j body).0 ≤ j + length body)
unfolding close_dollar
close_dollar_bounds tag j body = elim (Option-cases (index_of tag body)) [
  | inl e ↦ rw (e, close_dollar) (omega arith)
  | inr (k, e) ↦ rw (e, close_dollar) (omega (arith, index_of-length tag body e))
]

open_dollar_bounds :
    (name : Bytes) (j : ℕ) (rest : Bytes) {e n : ℕ}
    → open_dollar name j rest ≡ some (e, n)
    → (j < e) × (e ≤ j + length rest)
unfolding open_dollar
open_dollar_bounds name j [] h = cc
open_dollar_bounds name j (c ∷ body) h =
    ground (arith, close_dollar_bounds (b'$' ∷ (name ++ (b'$' ∷ []))) (suc j) body)

sign_width-le : (s : Bytes) → sign_width s ≤ length s
sign_width-le [] = omega arith
sign_width-le (c ∷ s) = ground arith

-- A dollar-quoted literal at `i` ends behind its opening `$` and within the text.
pub scan_dollar_quoted_bounds :
    (prev : Option ℕ) (i : ℕ) (rest : Bytes) {j m : ℕ}
    → scan_dollar_quoted prev i rest ≡ some (j, m)
    → (suc i < j) × (j ≤ suc i + length rest)
unfolding scan_dollar_quoted
scan_dollar_quoted_bounds prev i rest {j} {m} h =
    let n = count_while is_ident_byte rest in
    ground (
      arith,
      open_dollar_bounds (take_while is_ident_byte rest) (suc i + n) (drop n rest) {e = j} {n = m},
      count_while-le is_ident_byte rest,
      length-drop n rest,
    )

scan_radix_number_bounds :
    (i c : ℕ) (rest : Bytes) {j : ℕ}
    → scan_radix_number i c rest ≡ some j
    → (i < j) × (j ≤ suc i + length rest)
unfolding scan_radix_number
scan_radix_number_bounds i c [] h = cc
scan_radix_number_bounds i c (d ∷ rest) h =
    ground (arith, count_while-le (λ e. is_radix_digit e (lower_bit d)) rest)

scan_exponent_bounds :
    (i : ℕ) (s : Bytes) → (i ≤ scan_exponent i s) × (scan_exponent i s ≤ i + length s)
unfolding scan_exponent
scan_exponent_bounds i [] = omega arith
scan_exponent_bounds i (c ∷ rest) =
    let k = sign_width rest in
    ground (arith, count_while-le is_digit (drop k rest), length-drop k rest, sign_width-le rest)

count_while_first :
    (c : ℕ) (rest : Bytes) → is_digit c ≡ true → 0 < count_while is_digit_or_dot (c ∷ rest)
unfolding count_while
count_while_first c rest h = rw h (omega arith)

-- A number at a digit ends behind that digit and within the text.
pub scan_number_bounds :
    (i c : ℕ) (rest : Bytes)
    → is_digit c ≡ true
    → (i < scan_number i c rest) × (scan_number i c rest ≤ suc i + length rest)
unfolding scan_number
scan_number_bounds i c rest h =
    let n = count_while is_digit_or_dot (c ∷ rest) in
    elim (Option-cases (scan_radix_number i c rest)) [
      | inr (j, e) ↦ rw (e, scan_number) (scan_radix_number_bounds i c rest e)
      | inl e ↦
          rw (e, scan_number)
            (omega (
              arith,
              scan_exponent_bounds (i + n) (drop n (c ∷ rest)),
              count_while-le is_digit_or_dot (c ∷ rest),
              length-drop n (c ∷ rest),
              count_while_first c rest h,
            ))
    ]
