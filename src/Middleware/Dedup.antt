-- ===== src/Middleware/Dedup.antt =====
-- The window on repeated findings of middleware/dedup.go. A call is one step under the mutex;
-- `now` is its argument, as in the source.
pub mod Keys
pub mod Spacing
use sqlguard.Prelude.{
  ℕ, Bool, true, false, ◌++◌, ◌∷◌, [], Option, none, some, Bytes, Map, lookup, insert, delete_if,
  size, leb, ℤ, is_positive, passed, if◌then◌else◌,
}

pub record Deduper : Type 0 where
  pub seen : Map ℕ
  pub window : ℤ
  pub max_keys : ℕ

abbrev pub new_deduper : ℤ → Deduper
new_deduper window = record { seen = []; window = window; max_keys = 10000 }

-- `fingerprint + "\x00" + rule`.
abbrev pub finding_key : Bytes → Bytes → Bytes
finding_key fingerprint rule = fingerprint ++ (0 ∷ rule)

-- `evictExpired`, where the map is full.
pub sweep : Deduper → ℕ → Deduper
sweep d now =
    if leb d.max_keys (size d.seen)
    then record d { seen = delete_if (λ last. passed now last d.window) d.seen }
    else d

abbrev remember : Deduper → Bytes → ℕ → Deduper
remember d key now = record d { seen = insert key now d.seen }

-- The lookups behind the sweep.
pub admit : Deduper → ℕ → Bytes → Option ℕ → Deduper × Bool
admit d now key none =
    if leb d.max_keys (size d.seen) then (d, false) else (remember d key now, true)
admit d now key (some last) =
    if passed now last d.window then (remember d key now, true) else (d, false)

pub allow_key : Deduper → Bytes → ℕ → Deduper × Bool
unfolding sweep admit
allow_key d key now = let swept = sweep d now in admit swept now key (lookup key swept.seen)

unfoldable pub allow : Deduper → Bytes → Bytes → ℕ → Deduper × Bool
unfolding allow_key
allow d fingerprint rule now =
    if is_positive d.window then allow_key d (finding_key fingerprint rule) now else (d, true)
