-- ===== src/Cli/Format.antt =====
-- `neutralizeFormat` of cmd/sqlguard/scan.go.
use sqlguard.Prelude.{
  ℕ, Bool, false, ◌||◌, ◌&&◌, List, [], ◌∷◌, ◌++◌, Bytes, codes, leb, ◌==◌, if◌then◌else◌, drop,
}
use sqlguard.Analyzer.Pattern.{Class, Pattern, char, seq, many, Match, find_all, slice}

abbrev pub byte_class : (ℕ → Bool) → Class
byte_class p [] = 0
byte_class p (c ∷ _) = if p c then 1 else 0

abbrev pub is_flag : ℕ → Bool
is_flag c = c == b'-' || c == b'+' || c == b'#' || c == b' ' || c == b'0'

abbrev pub is_width : ℕ → Bool
is_width c = (leb b'0' c && leb c b'9') || c == b'.' || c == b'*'

abbrev pub is_verb : ℕ → Bool
is_verb c = (leb b'a' c && leb c b'z') || (leb b'A' c && leb c b'Z') || c == b'%'

abbrev pub is_percent : ℕ → Bool
is_percent c = c == b'%'

abbrev pub format_verb : Pattern
format_verb =
    seq (char (byte_class is_percent)) (
      seq (many (byte_class is_flag))
        (seq (many (byte_class is_width)) (char (byte_class is_verb))))

unfoldable pub last_byte : Bytes → ℕ
last_byte [] = 0
last_byte (c ∷ []) = c
last_byte (c ∷ d ∷ s) = last_byte (d ∷ s)

-- The verbs that print a number.
unfoldable pub is_numeric : ℕ → List ℕ → Bool
is_numeric c [] = false
is_numeric c (d ∷ ds) = c == d || is_numeric c ds

abbrev pub placeholder : ℕ → Bytes
placeholder c =
    if c == b'%'
    then codes "%"
    else if is_numeric c (codes "bcdoOxXUeEfFgGp")
    then codes "0"
    else codes "sqlguard"

-- `ReplaceAllStringFunc`, behind `at` bytes of the text.
unfoldable pub replace_from : ℕ → List Match → Bytes → Bytes
unfolding last_byte is_numeric
replace_from at [] s = drop at s
replace_from at (m ∷ ms) s =
    let rest = replace_from m.hi ms s in
    slice at m.lo s ++ (placeholder (last_byte (slice m.lo m.hi s)) ++ rest)

unfoldable pub neutralize_format : Bytes → Bytes
unfolding find_all replace_from
neutralize_format format = replace_from 0 (find_all format_verb format) format
