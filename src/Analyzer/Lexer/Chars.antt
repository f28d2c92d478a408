-- ===== src/Analyzer/Lexer/Chars.antt =====
-- The byte classes of analyzer/redact.go.
use Prim.Native.Nat.{bit_or}
use sqlguard.Prelude.{ℕ, Bool, true, ◌&&◌, ◌||◌, leb, ◌==◌, if◌then◌else◌}

abbrev within : ℕ → ℕ → ℕ → Bool
within lo hi c = leb lo c && leb c hi

unfoldable pub is_digit : ℕ → Bool
is_digit c = within b'0' b'9' c

unfoldable pub is_ident_byte : ℕ → Bool
unfolding is_digit
is_ident_byte c = c == b'_' || is_digit c || leb 0x80 c || within b'a' b'z' c || within b'A' b'Z' c

unfoldable pub suppresses_number : ℕ → Bool
suppresses_number prev =
    if within b'a' b'z' prev || within b'A' b'Z' prev || within b'0' b'9' prev
    then true
    else prev == b'_' || prev == b'$' || prev == b'@'

-- `c | 0x20`.
abbrev pub lower_bit : ℕ → ℕ
lower_bit c = bit_or c 0x20

unfoldable pub is_radix_digit : ℕ → ℕ → Bool
unfolding is_digit
is_radix_digit c radix =
    if radix == b'b' then c == b'0' || c == b'1' else is_digit c || within b'a' b'f' (lower_bit c)
