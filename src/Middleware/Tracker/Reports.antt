-- ===== src/Middleware/Tracker/Reports.antt =====
-- What the N+1 tracker reports over a sequence of queries (middleware/n_plus_one.go).
use sqlguard.Prelude.{
  ℕ, suc, ◌+◌, ◌<◌, ◌≡◌, refl, ◌∙◌, subst, Bool, false, List, [], ◌∷◌, ◌++◌, Option, none, some,
  Bytes, arith, lookup, size, leb, equal, equal_iff, equal_refl, lookup-insert, lookup-delete_if,
  if◌then◌else◌, ℤ, not, ◌&&◌, ◌||◌, le_count, ltb, passed, Bool-cases, inl, inr,
}
use sqlguard.Analyzer.Types.{Result}
use sqlguard.Middleware.Tracker.Keys.{Inv, track_fingerprint-Inv}
use sqlguard.Middleware.Tracker.{
  sweep, QueryTracker, QueryRecord, is_expired, track_swept, track_fingerprint,
}

-- The tracker over a sequence of instants and fingerprints, with all that it reports.
unfoldable pub track_all : QueryTracker → List (ℕ × Bytes) → QueryTracker × List Result
track_all qt [] = (qt, [])
track_all qt ((now, k) ∷ es) =
    let (qt', found) = track_fingerprint qt now k in
    let (qt'', later) = track_all qt' es in (qt'', found ++ later)

-- How many findings are on fingerprint `k`, and how many of the executions are of it.
unfoldable pub reports_on : Bytes → List Result → ℕ
reports_on k [] = 0
reports_on k (r ∷ rs) =
    let rest = reports_on k rs in if equal r.fingerprint k then suc rest else rest

unfoldable pub executions_of : Bytes → List (ℕ × Bytes) → ℕ
executions_of k [] = 0
executions_of k ((now, j) ∷ es) =
    let rest = executions_of k es in if equal j k then suc rest else rest

-- Every instant lies in the window that opened at `first`.
abbrev pub Within : ℤ → ℕ → List (ℕ × Bytes) → Type 0
Within window first [] = Unit
Within window first ((now, k) ∷ es) = (passed now first window ≡ false) × Within window first es

reports_on-append :
    (k : Bytes) (xs ys : List Result) → reports_on k (xs ++ ys) ≡ reports_on k xs + reports_on k ys
unfolding reports_on
reports_on-append k [] ys = omega arith
reports_on-append k (x ∷ xs) ys = ground (arith, reports_on-append k xs ys)

-- The next execution of a record inside its window brings it to the threshold.
abbrev is_due : ℤ → QueryRecord → Bool
is_due threshold rec = le_count threshold (suc rec.count) && not rec.reported

abbrev counted : ℤ → QueryRecord → QueryRecord
counted threshold rec = record rec {
  count = suc rec.count;
  reported = is_due threshold rec || rec.reported;
}

-- The sweep of a full map keeps what is inside its window.
sweep_keeps :
    (qt : QueryTracker) (now : ℕ) (k : Bytes) (rec : QueryRecord)
    → Inv qt
    → lookup k qt.queries ≡ some rec
    → is_expired now qt.window rec ≡ false
    → lookup k (sweep qt now).queries ≡ some rec
unfolding sweep
sweep_keeps qt now k rec i h young =
    ground (arith, lookup-delete_if k (is_expired now qt.window) qt.queries i.unique)

sweep_window :
    (qt : QueryTracker) (now : ℕ)
    → ((sweep qt now).window ≡ qt.window) × ((sweep qt now).threshold ≡ qt.threshold)
unfolding sweep
sweep_window qt now = ground arith

-- A call on another key leaves this one as it is, and reports nothing on it.
track_swept_other :
    (qt : QueryTracker) (now : ℕ) (j k : Bytes) (o : Option QueryRecord)
    → equal j k ≡ false
    → (lookup k (track_swept qt now j o).0.queries ≡ lookup k qt.queries)
      × (reports_on k (track_swept qt now j o).1 ≡ 0)
unfolding track_swept reports_on
track_swept_other qt now j k none d =
    ground (
      arith,
      lookup-insert j k (record { count = 1; first_seen = now; reported = false }) qt.queries,
    )
track_swept_other qt now j k (some rec) d = elim (Bool-cases (is_expired now qt.window rec)) [
  | inl old ↦ rw old (rw (lookup-insert, d), refl)
  | inr young ↦ rw young (rw (lookup-insert, d), ground arith)
]

track_swept_same :
    (qt : QueryTracker) (now : ℕ) (k : Bytes) (rec : QueryRecord)
    → is_expired now qt.window rec ≡ false
    → (lookup k (track_swept qt now k (some rec)).0.queries ≡ some (counted qt.threshold rec))
      × (reports_on k (track_swept qt now k (some rec)).1
          ≡ (if is_due qt.threshold rec then 1 else 0))
unfolding track_swept reports_on
track_swept_same qt now k rec young =
    rw young (rw (lookup-insert, equal_refl) (ground arith), ground (arith, equal_refl k))

track_swept_settings :
    (qt : QueryTracker) (now : ℕ) (k : Bytes) (o : Option QueryRecord)
    → ((track_swept qt now k o).0.window ≡ qt.window)
      × ((track_swept qt now k o).0.threshold ≡ qt.threshold)
unfolding track_swept
track_swept_settings qt now k none = ground arith
track_swept_settings qt now k (some rec) = ground arith

track_fingerprint_settings :
    (qt : QueryTracker) (now : ℕ) (k : Bytes)
    → ((track_fingerprint qt now k).0.window ≡ qt.window)
      × ((track_fingerprint qt now k).0.threshold ≡ qt.threshold)
unfolding track_fingerprint
track_fingerprint_settings qt now k =
    let (w, t) = track_swept_settings (sweep qt now) now k (lookup k (sweep qt now).queries) in
    let (w', t') = sweep_window qt now in (w ∙ w', t ∙ t')

-- What one call does to a tracked fingerprint inside its window.
abbrev Advances : ℤ → Bytes → Bool → QueryRecord → QueryTracker × List Result → Type 0
Advances threshold k same rec r =
    (lookup k r.0.queries ≡ some (if same then counted threshold rec else rec))
    × (reports_on k r.1 ≡ (if same && is_due threshold rec then 1 else 0))

track_swept-Advances :
    (qt : QueryTracker) (now : ℕ) (j k : Bytes) (rec : QueryRecord)
    → lookup k qt.queries ≡ some rec
    → is_expired now qt.window rec ≡ false
    → Advances qt.threshold k (equal j k) rec (track_swept qt now j (lookup j qt.queries))
track_swept-Advances qt now j k rec h young = elim (Bool-cases (equal j k)) [
  | inl same ↦ rw (same, (equal_iff j k).0 same, h) (track_swept_same qt now k rec young)
  | inr other ↦
      let (left, silent) = track_swept_other qt now j k (lookup j qt.queries) other in
      rw other (left ∙ h, silent)
]

track_fingerprint-Advances :
    (qt : QueryTracker) (now : ℕ) (j k : Bytes) (rec : QueryRecord)
    → Inv qt
    → lookup k qt.queries ≡ some rec
    → is_expired now qt.window rec ≡ false
    → Advances qt.threshold k (equal j k) rec (track_fingerprint qt now j)
unfolding track_fingerprint
track_fingerprint-Advances qt now j k rec i h young =
    let (w, t) = sweep_window qt now in
    subst (λ threshold. Advances threshold k (equal j k) rec (track_fingerprint qt now j)) t
      (track_swept-Advances (sweep qt now) now j k rec (sweep_keeps qt now k rec i h young)
        (rw w young))

-- How often a record with so many further executions is reported: once if it has not been
-- reported and one of them brings the count to the threshold.
pub outcome : ℤ → QueryRecord → ℕ → ℕ
outcome threshold rec executions =
    if not rec.reported && ltb 0 executions && le_count threshold (rec.count + executions)
    then 1
    else 0

outcome_step :
    (threshold : ℤ) (rec : QueryRecord) (n : ℕ)
    → (if is_due threshold rec then 1 else 0) + outcome threshold (counted threshold rec) n
      ≡ outcome threshold rec (suc n)
unfolding outcome
outcome_step (ℤ.pos t) rec n = ground arith
outcome_step (ℤ.negsuc t) rec n = ground arith

-- Over any calls at all inside the window, the record is reported as its outcome says.
reports_lem :
    (es : List (ℕ × Bytes)) (qt : QueryTracker) (k : Bytes) (rec : QueryRecord)
    → Inv qt
    → lookup k qt.queries ≡ some rec
    → Within qt.window rec.first_seen es
    → reports_on k (track_all qt es).1 ≡ outcome qt.threshold rec (executions_of k es)
unfolding track_all executions_of
reports_lem [] qt k rec i h w = unfold outcome reports_on in ground arith
reports_lem ((now, j) ∷ es) qt k rec i h (young, w) =
    let (kept, found) = track_fingerprint-Advances qt now j k rec i h young in
    let (window, threshold) = track_fingerprint_settings qt now j in
    let i' = track_fingerprint-Inv qt now j i in
    let qt' = (track_fingerprint qt now j).0 in
    rw (reports_on-append, found)
      (elim (Bool-cases (equal j k)) [
        | inl same ↦
            let rest =
              reports_lem es qt' k (counted qt.threshold rec) i' (kept ∙ rw same) (rw window w) in
            rw (same, rest, threshold) (outcome_step qt.threshold rec (executions_of k es))
        | inr other ↦
            let rest = reports_lem es qt' k rec i' (kept ∙ rw other) (rw window w) in
            rw (other, rest, threshold) (omega arith)
      ])

abbrev fresh : ℕ → QueryRecord
fresh now = record { count = 1; first_seen = now; reported = false }

-- The first execution opens the window and is not reported, if the map has room.
track_fingerprint_new :
    (qt : QueryTracker) (now : ℕ) (k : Bytes)
    → lookup k qt.queries ≡ none
    → size qt.queries < qt.max_keys
    → (lookup k (track_fingerprint qt now k).0.queries ≡ some (fresh now))
      × ((track_fingerprint qt now k).1 ≡ [])
unfolding track_fingerprint track_swept
track_fingerprint_new qt now k h room =
    let below : leb qt.max_keys (size qt.queries) ≡ false = ground arith in
    rw below (rw h (rw below (rw (lookup-insert, equal_refl), refl)))

-- From the first execution of a fingerprint on a tracker with room, whose map has distinct keys
-- and is within its capacity, and over any executions of this and other fingerprints inside the window that it opens, the tracker reports this
-- fingerprint once if it is executed again and reaches the threshold, and never otherwise.
pub reports_on-track_all :
    (qt : QueryTracker) (k : Bytes) (first : ℕ) (es : List (ℕ × Bytes))
    → Inv qt
    → lookup k qt.queries ≡ none
    → size qt.queries < qt.max_keys
    → Within qt.window first es
    → let again = executions_of k es in
      reports_on k (track_all qt ((first, k) ∷ es)).1
      ≡ (if ltb 0 again && le_count qt.threshold (suc again) then 1 else 0)
unfolding track_all outcome
reports_on-track_all qt k first es i h room w =
    let (kept, silent) = track_fingerprint_new qt first k h room in
    let (window, threshold) = track_fingerprint_settings qt first k in
    let i' = track_fingerprint-Inv qt first k i in
    let rest =
      reports_lem es (track_fingerprint qt first k).0 k (fresh first) i' kept (rw window w) in
    rw (silent, rest, threshold) (ground arith)
