-- ===== src/Tests/Runtime.antt =====
-- The runtime guard at concrete queries: middleware/.
use sqlguard.Prelude.{
  ℕ, suc, ◌≡◌, refl, ◌&&◌, List, [], ◌∷◌, Bytes, codes, arith, ltb, pos, le_count, lookup, insert,
  delete_if, equal, if◌then◌else◌,
}
use sqlguard.Analyzer.Types.{warning}
use sqlguard.Middleware.Tracker.{QueryTracker, new_query_tracker, track_fingerprint}
use sqlguard.Middleware.Tracker.Keys.{new_query_tracker-Inv}
use sqlguard.Middleware.Tracker.Reports.{track_all, reports_on, executions_of, reports_on-track_all}
use sqlguard.Middleware.Dedup.{Deduper, new_deduper, allow}
use sqlguard.Middleware.Dedup.Keys.{new_deduper-Inv}
use sqlguard.Middleware.Dedup.Spacing.{Offer, offer_key, allow_all, offers_of, allow_all_once}

abbrev tracker : QueryTracker
tracker = new_query_tracker (pos 3) (pos 100) warning

abbrev later : List (ℕ × Bytes)
later = (20, codes "b") ∷ (30, codes "a") ∷ (40, codes "a") ∷ (50, codes "a") ∷ []

reports_later : reports_on (codes "a") (track_all tracker ((10, codes "a") ∷ later)).1 ≡ 1
unfolding track_all track_fingerprint reports_on lookup insert delete_if equal
reports_later = refl

-- A threshold of one is reached by the second execution, not the first.
reports_threshold_one :
    reports_on
      (codes "a")
      (track_all (new_query_tracker (pos 1) (pos 100) warning) ((10, codes "a") ∷ [])).1
    ≡ 0
unfolding track_all track_fingerprint reports_on lookup insert delete_if equal
reports_threshold_one = refl

reports_on-track_all_example :
    reports_on (codes "a") (track_all tracker ((10, codes "a") ∷ later)).1 ≡ (
      if ltb 0 (executions_of (codes "a") later)
        && le_count (pos 3) (suc (executions_of (codes "a") later))
      then 1
      else 0)
unfolding lookup
reports_on-track_all_example =
    reports_on-track_all tracker (codes "a") 10 later
      (new_query_tracker-Inv (pos 3) (pos 100) warning) refl (omega arith)
      (refl, (refl, (refl, (refl, tt))))

abbrev deduper : Deduper
deduper = new_deduper (pos 60)

abbrev offer : ℕ → Bytes → Offer
offer now fingerprint = record { now = now; fingerprint = fingerprint; rule = codes "r" }

allow_all_once_example :
    offers_of
      (offer_key (offer 5 (codes "q")))
      (allow_all deduper (offer 5 (codes "q") ∷ offer 6 (codes "p") ∷ offer 9 (codes "q") ∷ [])).1
    ≡ 1
unfolding allow lookup insert delete_if equal
allow_all_once_example =
    allow_all_once deduper (offer 5 (codes "q")) (offer 6 (codes "p") ∷ offer 9 (codes "q") ∷ [])
      (new_deduper-Inv (pos 60)) refl refl (refl, (refl, tt))
