-- ===== src/Analyzer/Lexer/Cases.antt =====
-- What the source uses of Go's strings package on letter case: `ToLower` and `ToUpper` of texts that
-- are compared with words of ASCII letters. Beyond ASCII, the letters whose other case is an ASCII
-- letter are written out; every other letter stays outside ASCII in either case.
use sqlguard.Prelude.{ℕ, ◌+◌, ◌-◌, ◌&&◌, [], ◌∷◌, Bytes, leb, ◌==◌, if◌then◌else◌}

abbrev lower_byte : ℕ → ℕ
lower_byte c = if leb b'A' c && leb c b'Z' then c + 32 else c

abbrev upper_byte : ℕ → ℕ
upper_byte c = if leb b'a' c && leb c b'z' then c - 32 else c

-- The Kelvin sign is a capital `k`, and the dotted capital I one of `i`.
unfoldable pub to_lower : Bytes → Bytes
to_lower [] = []
to_lower (c ∷ []) = lower_byte c ∷ []
to_lower (c ∷ d ∷ []) =
    if c == 0xc4 && d == 0xb0 then b'i' ∷ [] else lower_byte c ∷ lower_byte d ∷ []
to_lower (c ∷ d ∷ e ∷ s) =
    let rest = to_lower (d ∷ e ∷ s) in
    let behind_two = to_lower (e ∷ s) in
    let behind_three = to_lower s in
    if c == 0xc4 && d == 0xb0
    then b'i' ∷ behind_two
    else if c == 0xe2 && d == 0x84 && e == 0xaa
    then b'k' ∷ behind_three
    else lower_byte c ∷ rest

-- The long s is a small `S`, and the dotless i a small `I`.
unfoldable pub to_upper : Bytes → Bytes
to_upper [] = []
to_upper (c ∷ []) = upper_byte c ∷ []
to_upper (c ∷ d ∷ s) =
    let rest = to_upper (d ∷ s) in
    let behind = to_upper s in
    if c == 0xc5 && d == 0xbf
    then b'S' ∷ behind
    else if c == 0xc4 && d == 0xb1
    then b'I' ∷ behind
    else upper_byte c ∷ rest
