-- ===== src/Middleware/Tracker/Keys.antt =====
-- The map of the N+1 tracker: its bound, and which keys a call touches (middleware/n_plus_one.go).
use sqlguard.Prelude.{
  ℕ, ◌≤◌, ◌≡◌, refl, Bool-cases, inl, inr, Option, none, some, Bytes, arith, lookup, size, leb,
  IsUnique, size-insert_new, size-insert_old, size-delete_if, IsUnique-insert, IsUnique-delete_if,
  ℤ,
}
use sqlguard.Analyzer.Types.{Severity}
use sqlguard.Middleware.Tracker.{
  QueryTracker, QueryRecord, is_expired, sweep, track_swept, track_fingerprint, new_query_tracker,
}

-- Between two calls no key occurs twice, and the map is within its capacity.
pub record Inv (qt : QueryTracker) : Type 0 where
  pub unique : IsUnique qt.queries
  pub bounded : size qt.queries ≤ qt.max_keys

pub new_query_tracker-Inv :
    (threshold window : ℤ) (severity : Severity) → Inv (new_query_tracker threshold window severity)
new_query_tracker-Inv threshold window severity = record { unique = tt; bounded = omega arith }

sweep-Inv : (qt : QueryTracker) (now : ℕ) → Inv qt → Inv (sweep qt now)
unfolding sweep
sweep-Inv qt now i = ground (
  arith,
  IsUnique-delete_if (is_expired now qt.window) qt.queries i.unique,
  size-delete_if (is_expired now qt.window) qt.queries,
)

track_swept-Inv :
    (qt : QueryTracker) (now : ℕ) (k : Bytes) (o : Option QueryRecord)
    → lookup k qt.queries ≡ o
    → Inv qt
    → Inv (track_swept qt now k o).0
unfolding track_swept
track_swept-Inv qt now k none h i = elim (Bool-cases (leb qt.max_keys (size qt.queries))) [
  | inl full ↦ rw full i
  | inr room ↦ rw room (record {
    unique = IsUnique-insert k _ qt.queries i.unique;
    bounded = rw (size-insert_new k _ qt.queries h) (ground arith);
  })
]
track_swept-Inv qt now k (some rec) h i = elim (Bool-cases (is_expired now qt.window rec)) [
  | inl old ↦ rw old (record {
    unique = IsUnique-insert k _ qt.queries i.unique;
    bounded = rw (size-insert_old k _ qt.queries h) i.bounded;
  })
  | inr young ↦ rw young (record {
    unique = IsUnique-insert k _ qt.queries i.unique;
    bounded = rw (size-insert_old k _ qt.queries h) i.bounded;
  })
]

-- A call keeps the tracker's map within its capacity and its keys distinct, whatever the time and
-- the key.
pub track_fingerprint-Inv :
    (qt : QueryTracker) (now : ℕ) (k : Bytes) → Inv qt → Inv (track_fingerprint qt now k).0
unfolding track_fingerprint
track_fingerprint-Inv qt now k i = track_swept-Inv (sweep qt now) now k _ refl (sweep-Inv qt now i)
