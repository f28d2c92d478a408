-- ===== src/Middleware/Tracker.antt =====
-- The N+1 tracker of middleware/n_plus_one.go. Each call runs under the tracker's mutex up to
-- the report, so it is one step of the state; `now` is the instant that the step reads.
pub mod Keys
pub mod Reports
use sqlguard.Prelude.{
  ℕ, suc, ◌+◌, Bool, true, false, not, ◌&&◌, List, [], ◌∷◌, Option, none, some, codes, Bytes, Map,
  lookup, insert, delete_if, size, leb, ℤ, le_count, passed, if◌then◌else◌,
}
use sqlguard.Analyzer.Types.{Severity, Result, n_plus_one_message}

pub record QueryRecord : Type 0 where
  pub count : ℕ
  pub first_seen : ℕ
  pub reported : Bool

pub record QueryTracker : Type 0 where
  pub queries : Map QueryRecord
  pub threshold : ℤ
  pub window : ℤ
  pub max_keys : ℕ
  pub severity : Severity

abbrev pub new_query_tracker : ℤ → ℤ → Severity → QueryTracker
new_query_tracker threshold window severity = record {
  queries = [];
  threshold = threshold;
  window = window;
  max_keys = 10000;
  severity = severity;
}

-- `now.Sub(rec.firstSeen) > qt.window`.
abbrev pub is_expired : ℕ → ℤ → QueryRecord → Bool
is_expired now window rec = passed now rec.first_seen window

pub evict_expired : QueryTracker → ℕ → QueryTracker
evict_expired qt now = record qt { queries = delete_if (is_expired now qt.window) qt.queries }

abbrev pub n_plus_one_result : QueryTracker → Bytes → ℕ → Result
n_plus_one_result qt normalized count = record {
  rule_name = codes "n-plus-one";
  severity = qt.severity;
  query = normalized;
  fingerprint = normalized;
  message = n_plus_one_message count qt.window;
  suggestion = codes "Consider using a JOIN or IN clause to batch these queries.";
  file = [];
  line = 0;
}

abbrev pub put_record : QueryTracker → Bytes → QueryRecord → QueryTracker
put_record qt normalized rec = record qt { queries = insert normalized rec qt.queries }

-- An entry that is in the map: outside the window it starts again, inside it is counted.
pub track_known : QueryTracker → ℕ → Bytes → QueryRecord → QueryTracker × List Result
track_known qt now normalized rec =
    if is_expired now qt.window rec
    then (put_record qt normalized (record { count = 1; first_seen = now; reported = false }), [])
    else (let count = suc rec.count in
        let should_report = le_count qt.threshold count && not rec.reported in
        (
          put_record qt normalized (record rec {
            count = count;
            reported = if should_report then true else rec.reported;
          }),
          if should_report then n_plus_one_result qt normalized count ∷ [] else [],
        ))

-- The work on the map after the sweep.
pub track_swept : QueryTracker → ℕ → Bytes → Option QueryRecord → QueryTracker × List Result
unfolding track_known
track_swept qt now normalized none =
    if leb qt.max_keys (size qt.queries)
    then (qt, [])
    else (put_record qt normalized (record { count = 1; first_seen = now; reported = false }), [])
track_swept qt now normalized (some rec) = track_known qt now normalized rec

pub sweep : QueryTracker → ℕ → QueryTracker
unfolding evict_expired
sweep qt now = if leb qt.max_keys (size qt.queries) then evict_expired qt now else qt

-- The new state, and the findings that are handed to the reporter once the lock is released.
unfoldable pub track_fingerprint : QueryTracker → ℕ → Bytes → QueryTracker × List Result
unfolding track_swept sweep
track_fingerprint qt now normalized =
    let swept = sweep qt now in track_swept swept now normalized (lookup normalized swept.queries)

-- `Track`: the fingerprint function is the analyzer's.
abbrev pub track : (Bytes → Bytes) → QueryTracker → ℕ → Bytes → QueryTracker × List Result
track fingerprint qt now query = track_fingerprint qt now (fingerprint query)

abbrev pub reset : QueryTracker → QueryTracker
reset qt = record qt { queries = [] }
