-- ===== src/Analyzer/Lexer/Space.antt =====
-- What the source uses of Go's strings package on white space: `TrimSpace`, over the spaces of
-- `unicode.IsSpace` in UTF-8.
use sqlguard.Prelude.{
  ℕ, zero, suc, Bool, true, false, ◌&&◌, ◌||◌, [], ◌∷◌, Bytes, leb, ◌==◌, if◌then◌else◌,
}

abbrev pub ascii_space : ℕ → Bool
ascii_space c = c == b' ' || (leb 9 c && leb c 13)

abbrev wide_space : ℕ → ℕ → Bool
wide_space b c =
    (b == 0x80 && ((leb 0x80 c && leb c 0x8a) || c == 0xa8 || c == 0xa9 || c == 0xaf))
    || (b == 0x81 && c == 0x9f)

-- The width of a space at the front, or 0.
unfoldable pub space_width : Bytes → ℕ
space_width [] = 0
space_width (a ∷ []) = if ascii_space a then 1 else 0
space_width (a ∷ b ∷ []) =
    if ascii_space a then 1 else if a == 0xc2 && (b == 0x85 || b == 0xa0) then 2 else 0
space_width (a ∷ b ∷ c ∷ _) =
    if ascii_space a
    then 1
    else if a == 0xc2 && (b == 0x85 || b == 0xa0)
    then 2
    else if a == 0xe1 && b == 0x9a && c == 0x80
    then 3
    else if a == 0xe2 && wide_space b c
    then 3
    else if a == 0xe3 && b == 0x80 && c == 0x80
    then 3
    else 0

-- The text holds nothing but spaces; `skip` counts the bytes of one that is under way.
unfoldable pub all_space : ℕ → Bytes → Bool
unfolding space_width
all_space skip [] = true
all_space (suc skip) (c ∷ rest) = all_space skip rest
all_space zero (c ∷ rest) =
    let on = λ (k : ℕ). all_space k rest in
    elim (space_width (c ∷ rest)) [ zero ↦ false | suc w ↦ on w ]

unfoldable pub trim_start : ℕ → Bytes → Bytes
unfolding space_width
trim_start skip [] = []
trim_start (suc skip) (c ∷ rest) = trim_start skip rest
trim_start zero (c ∷ rest) =
    let on = λ (k : ℕ). trim_start k rest in
    elim (space_width (c ∷ rest)) [ zero ↦ c ∷ rest | suc w ↦ on w ]

unfoldable pub trim_end : Bytes → Bytes
unfolding all_space
trim_end [] = []
trim_end (c ∷ rest) = let kept = trim_end rest in if all_space 0 (c ∷ rest) then [] else c ∷ kept

unfoldable pub trim_space : Bytes → Bytes
unfolding trim_start trim_end
trim_space s = trim_end (trim_start 0 s)
