-- ===== src/Analyzer/Lexer/Scan.antt =====
-- The scanners of analyzer/redact.go: from an index and the bytes there to the index behind.
pub mod Bounds
use sqlguard.Prelude.{
  ℕ, suc, ◌+◌, Bool, true, false, not, ◌&&◌, ◌||◌, List, [], ◌∷◌, ◌++◌, Option, none, some, Bytes,
  length, drop, ◌==◌, if◌then◌else◌,
}
use sqlguard.Analyzer.Lexer.Chars.{is_digit, is_ident_byte, is_radix_digit, lower_bit}

-- `scanQuotedRunClosed` behind its opening quote: `i` is the index of the first byte given.
unfoldable pub scan_quoted_run_closed : Bool → ℕ → ℕ → Bytes → ℕ × Bool
scan_quoted_run_closed backslash_escapes q i [] = (i, false)
scan_quoted_run_closed backslash_escapes q i (c ∷ []) =
    if backslash_escapes && c == b'\\'
    then (suc i, false)
    else if c == q
    then (suc i, true)
    else (suc i, false)
scan_quoted_run_closed backslash_escapes q i (c ∷ d ∷ rest) =
    let skipped = scan_quoted_run_closed backslash_escapes q (suc (suc i)) rest in
    let next = scan_quoted_run_closed backslash_escapes q (suc i) (d ∷ rest) in
    if backslash_escapes && c == b'\\'
    then skipped
    else if c == q
    then (if d == q then skipped else (suc i, true))
    else next

abbrev pub scan_quoted_run : Bool → ℕ → ℕ → Bytes → ℕ
scan_quoted_run backslash_escapes q i rest = (scan_quoted_run_closed backslash_escapes q i rest).0

-- How many bytes at the front pass the test.
unfoldable pub count_while : (ℕ → Bool) → Bytes → ℕ
count_while p [] = 0
count_while p (c ∷ cs) = let rest = count_while p cs in if p c then suc rest else 0

abbrev pub take_while : (ℕ → Bool) → Bytes → Bytes
take_while p [] = []
take_while p (c ∷ cs) = let rest = take_while p cs in if p c then c ∷ rest else []

-- `strings.HasPrefix`.
unfoldable pub has_prefix : Bytes → Bytes → Bool
has_prefix s [] = true
has_prefix [] (p ∷ ps) = false
has_prefix (c ∷ s) (p ∷ ps) = c == p && has_prefix s ps

-- `strings.Index`; `none` is -1.
unfoldable pub index_of : Bytes → Bytes → Option ℕ
unfolding has_prefix
index_of tag [] = if has_prefix [] tag then some 0 else none
index_of tag (c ∷ s) =
    let later = index_of tag s in
    if has_prefix (c ∷ s) tag then some 0 else elim later [ none ↦ none | some k ↦ some (suc k) ]

abbrev continues_ident : Option ℕ → Bool
continues_ident none = false
continues_ident (some c) = is_ident_byte c

-- The search for the closing delimiter; `body` starts at index `j`.
unfoldable pub close_dollar : Bytes → ℕ → Bytes → ℕ × ℕ
unfolding index_of
close_dollar tag j body = elim (index_of tag body) [
  | none ↦ (j + length body, length tag)
  | some k ↦ (j + k + length tag, length tag)
]

-- What stands behind the tag's name: a second `$`, or no delimiter at all.
unfoldable pub open_dollar : Bytes → ℕ → Bytes → Option (ℕ × ℕ)
unfolding close_dollar
open_dollar name j [] = none
open_dollar name j (c ∷ body) =
    if c == b'$' then some (close_dollar (b'$' ∷ (name ++ (b'$' ∷ []))) (suc j) body) else none

-- A tag that would start with a digit is a bind placeholder.
abbrev starts_with_digit : Bytes → Bool
starts_with_digit [] = false
starts_with_digit (c ∷ _) = is_digit c

-- `scanDollarQuoted` at a `$` with index `i`: `prev` is the byte before it, and `rest` what follows
-- it. The index behind the literal and the length of its opening delimiter.
unfoldable pub scan_dollar_quoted : Option ℕ → ℕ → Bytes → Option (ℕ × ℕ)
unfolding count_while open_dollar is_ident_byte is_digit
scan_dollar_quoted prev i rest =
    if continues_ident prev
    then none
    else if starts_with_digit rest
    then none
    else (let n = count_while is_ident_byte rest in
        open_dollar (take_while is_ident_byte rest) (suc i + n) (drop n rest))

-- `scanRadixNumber` at the byte `c` with index `i`; `none` is false.
unfoldable pub scan_radix_number : ℕ → ℕ → Bytes → Option ℕ
unfolding is_radix_digit count_while
scan_radix_number i c [] = none
scan_radix_number i c (d ∷ rest) =
    let radix = lower_bit d in
    let n = count_while (λ e. is_radix_digit e radix) rest in
    if not (c == b'0')
    then none
    else if not (radix == b'x') && not (radix == b'b')
    then none
    else if n == 0
    then none
    else some (suc (suc i) + n)

abbrev is_sign : ℕ → Bool
is_sign c = c == b'+' || c == b'-'

abbrev pub sign_width : Bytes → ℕ
sign_width [] = 0
sign_width (c ∷ _) = if is_sign c then 1 else 0

-- The optional exponent at index `i`.
unfoldable pub scan_exponent : ℕ → Bytes → ℕ
unfolding count_while is_digit
scan_exponent i [] = i
scan_exponent i (c ∷ rest) =
    let k = sign_width rest in
    let n = count_while is_digit (drop k rest) in
    if c == b'e' || c == b'E' then (if n == 0 then i else suc i + k + n) else i

abbrev pub is_digit_or_dot : ℕ → Bool
is_digit_or_dot c = is_digit c || c == b'.'

-- `scanNumber` at the byte `c` with index `i`.
unfoldable pub scan_number : ℕ → ℕ → Bytes → ℕ
unfolding scan_radix_number scan_exponent count_while is_digit
scan_number i c rest =
    let n = count_while is_digit_or_dot (c ∷ rest) in
    elim (scan_radix_number i c rest) [
      | some j ↦ j
      | none ↦ scan_exponent (i + n) (drop n (c ∷ rest))
    ]
