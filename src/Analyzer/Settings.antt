-- ===== src/Analyzer/Settings.antt =====
-- `Settings` of analyzer/registry.go.
use sqlguard.Prelude.{
  ℕ, suc, ◌-◌, ◌*◌, ◌%◌, ◌^◌, Bool, Option, none, some, Bytes, Map, lookup, ℤ, pos, negsuc, ltb,
  if◌then◌else◌,
}

-- A decoded value. A `float64` is given by the two integers that the code reads off it: `int(v)`
-- and `time.Duration(v * float64(time.Millisecond))`. `opaque_value` is any other type.
pub data Value : Type 0 where
  int_value : ℤ → Value
  int64_value : ℤ → Value
  float64_value : ℤ → ℤ → Value
  bool_value : Bool → Value
  string_value : Bytes → Value
  opaque_value : Value

abbrev pub Settings : Type 0
Settings = Map Value

-- An `int64` from its remainder modulo 2 ^ 64.
abbrev signed64 : ℕ → ℤ
signed64 r = if ltb r (2 ^ 63) then pos r else negsuc (2 ^ 64 - r - 1)

-- `time.Duration(v) * time.Millisecond`, which wraps around.
unfoldable pub milliseconds : ℤ → ℤ
milliseconds (pos n) = signed64 (n * 1000000 % 2 ^ 64)
milliseconds (negsuc n) = signed64 ((2 ^ 64 - suc n * 1000000 % 2 ^ 64) % 2 ^ 64)

unfoldable pub as_int : Option Value → Option ℤ
as_int (some (int_value v)) = some v
as_int (some (int64_value v)) = some v
as_int (some (float64_value v _)) = some v
as_int _ = none

unfoldable pub lookup_int : Settings → Bytes → Option ℤ
unfolding as_int lookup
lookup_int s key = as_int (lookup key s)

unfoldable pub or_default {ℓ} : {A : Type ℓ} → Option A → A → A
or_default none def = def
or_default (some v) def = v

abbrev pub int_setting : Settings → Bytes → ℤ → ℤ
int_setting s key def = or_default (lookup_int s key) def

-- `time.ParseDuration` behind `strings.TrimSpace`, of Go's library, is the argument.
unfoldable pub as_duration : (Bytes → Option ℤ) → Option Value → Option ℤ
unfolding milliseconds
as_duration parse_duration (some (string_value v)) = parse_duration v
as_duration parse_duration (some (int_value v)) = some (milliseconds v)
as_duration parse_duration (some (int64_value v)) = some (milliseconds v)
as_duration parse_duration (some (float64_value _ d)) = some d
as_duration parse_duration _ = none

unfoldable pub lookup_duration : (Bytes → Option ℤ) → Settings → Bytes → Option ℤ
unfolding as_duration lookup
lookup_duration parse_duration s key = as_duration parse_duration (lookup key s)

abbrev pub duration_setting : (Bytes → Option ℤ) → Settings → Bytes → ℤ → ℤ
duration_setting parse_duration s key def = or_default (lookup_duration parse_duration s key) def
