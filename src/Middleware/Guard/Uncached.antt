-- ===== src/Middleware/Guard/Uncached.antt =====
-- The guard of middleware/guard.go with its cache, against the guard that has none.
use sqlguard.Prelude.{
  ℕ, ◌≡◌, refl, sym, ap, subst, ◌∙◌, List, [], ◌∷◌, ◌++◌, Option, none, some, inl, inr, Bytes, ℤ,
  pos, negsuc, Bool-cases, ltb,
}
use sqlguard.Analyzer.Types.{Statement, Result}
use sqlguard.Analyzer.Engine.{analyze}
use sqlguard.Analyzer.Registry.{Registry}
use sqlguard.Middleware.Cache.{AnalysisCache, get}
use sqlguard.Middleware.Cache.Sound.{IsSound, get_lem, put-IsSound, new_analysis_cache-IsSound}
use sqlguard.Middleware.Tracker.{QueryTracker}
use sqlguard.Middleware.Options.{Options, Setter}
use sqlguard.Middleware.Guard.{
  Guard, guard_of, new_cache, new_guard, answer, analyze_with, guard_analyze, report,
  report_findings, feed_tracker, track_query, check, resolve_options,
}

abbrev pub uncached : Guard → Guard
uncached g = record g { cache = none }

-- A cache, if there is one, holds the findings of the guard's analyzer.
abbrev pub Holds : (Bytes → Statement) → Guard → Option AnalysisCache → Type 0
Holds fallback g none = Unit
Holds fallback g (some c) = IsSound (analyze fallback g.opts.analyzer) c

abbrev pub IsFaithful : (Bytes → Statement) → Guard → Type 0
IsFaithful fallback g = Holds fallback g g.cache

-- What an analysis may change of the guard: its cache.
abbrev Analysed : (Bytes → Statement) → Guard → Bytes → Guard × List Result → Type 0
Analysed fallback g query (g', results) =
    (results ≡ analyze fallback g.opts.analyzer query)
    × (uncached g' ≡ uncached g)
    × IsFaithful fallback g'

answer-Analysed :
    (fallback : Bytes → Statement) (g : Guard) (query : Bytes)
    (found : AnalysisCache × Option (List Result))
    → IsSound (analyze fallback g.opts.analyzer) found.0
    → ((r : List Result) → found.1 ≡ some r → r ≡ analyze fallback g.opts.analyzer query)
    → Analysed fallback g query (answer fallback g query found)
unfolding answer
answer-Analysed fallback g query (c, some cached) s hit = (hit cached refl, refl, s)
answer-Analysed fallback g query (c, none) s hit =
    (refl, refl, put-IsSound (analyze fallback g.opts.analyzer) c query s)

analyze_with-Analysed :
    (fallback : Bytes → Statement) (g : Guard) (query : Bytes) (o : Option AnalysisCache)
    → g.cache ≡ o
    → Holds fallback g o
    → Analysed fallback g query (analyze_with fallback g query o)
unfolding analyze_with
analyze_with-Analysed fallback g query none k h = (refl, refl, subst (Holds fallback g) (sym k) tt)
analyze_with-Analysed fallback g query (some c) k h =
    let (s, hit) = get_lem (analyze fallback g.opts.analyzer) c query h in
    answer-Analysed fallback g query (get c query) s hit

-- The part of a check behind the analysis.
abbrev pub after : Guard → ℕ → ℕ → Bytes → List Result → Guard × List (List Result)
after g now later query results =
    let (g2, calls) = report_findings g now results in
    let (g3, calls') = feed_tracker g2 later query results g2.tracker in (g3, calls ++ calls')

feed_tracker-uncached :
    (g : Guard) (now : ℕ) (query : Bytes) (results : List Result) (o : Option QueryTracker)
    → feed_tracker (uncached g) now query results o
      ≡ (uncached (feed_tracker g now query results o).0, (feed_tracker g now query results o).1)
unfolding feed_tracker track_query
feed_tracker-uncached g now query results none = refl
feed_tracker-uncached g now query [] (some qt) = refl
feed_tracker-uncached g now query (r ∷ results) (some qt) = refl

after-uncached :
    (g : Guard) (now later : ℕ) (query : Bytes) (results : List Result)
    → after (uncached g) now later query results
      ≡ (uncached (after g now later query results).0, (after g now later query results).1)
unfolding report_findings report
after-uncached g now later query [] =
    ap (λ s. (s.0, [] ++ s.1)) (feed_tracker-uncached g later query [] g.tracker)
after-uncached g now later query (r ∷ results) =
    let (g', calls) = report g now (r ∷ results) in
    ap (λ s. (s.0, calls ++ s.1)) (feed_tracker-uncached g' later query (r ∷ results) g'.tracker)

-- What follows the analysis leaves the cache and the options.
feed_tracker-IsFaithful :
    (fallback : Bytes → Statement) (g : Guard) (now : ℕ) (query : Bytes) (results : List Result)
    (o : Option QueryTracker)
    → IsFaithful fallback g
    → IsFaithful fallback (feed_tracker g now query results o).0
unfolding feed_tracker
feed_tracker-IsFaithful fallback g now query results none h = h
feed_tracker-IsFaithful fallback g now query results (some qt) h = h

after-IsFaithful :
    (fallback : Bytes → Statement) (g : Guard) (now later : ℕ) (query : Bytes)
    (results : List Result)
    → IsFaithful fallback g
    → IsFaithful fallback (after g now later query results).0
unfolding report_findings report
after-IsFaithful fallback g now later query [] h =
    feed_tracker-IsFaithful fallback g later query [] g.tracker h
after-IsFaithful fallback g now later query (r ∷ results) h =
    let (g', calls) = report g now (r ∷ results) in
    feed_tracker-IsFaithful fallback g' later query (r ∷ results) g'.tracker h

-- A check of a guard whose cache holds its analyzer's findings calls the reporter as the guard
-- without a cache does, leaves the same tracker and deduper, and keeps what the cache holds.
pub check-uncached :
    (fallback : Bytes → Statement) (g : Guard) (now later : ℕ) (query : Bytes)
    → IsFaithful fallback g
    → (check fallback (uncached g) now later query
        ≡ (uncached (check fallback g now later query).0, (check fallback g now later query).1))
      × IsFaithful fallback (check fallback g now later query).0
unfolding check guard_analyze analyze_with
check-uncached fallback g now later query h =
    let (res, same, h') = analyze_with-Analysed fallback g query g.cache refl h in
    let (g', results) = analyze_with fallback g query g.cache in
    (
      ap (λ r. after (uncached g) now later query r) (sym res)
          ∙ ap (λ g0. after g0 now later query results) (sym same)
          ∙ after-uncached g' now later query results,
      after-IsFaithful fallback g' now later query results h',
    )

-- The instants that a check reads, and its query.
pub record Execution : Type 0 where
  pub now : ℕ
  pub later : ℕ
  pub query : Bytes

-- A run of checks: the last guard, and the reporter's calls.
unfoldable pub check_all : (Bytes → Statement) → Guard → List Execution → Guard × List (List Result)
unfolding check
check_all fallback g [] = (g, [])
check_all fallback g (e ∷ es) =
    let (g', calls) = check fallback g e.now e.later e.query in
    let (g'', rest) = check_all fallback g' es in (g'', calls ++ rest)

check_all_lem :
    (fallback : Bytes → Statement) (es : List Execution) (g : Guard)
    → IsFaithful fallback g
    → (check_all fallback (uncached g) es).1 ≡ (check_all fallback g es).1
unfolding check_all
check_all_lem fallback [] g h = refl
check_all_lem fallback (e ∷ es) g h =
    let (same, h') = check-uncached fallback g e.now e.later e.query h in
    ap (λ s. s.1 ++ (check_all fallback s.0 es).1) same
    ∙ ap (λ rest. (check fallback g e.now e.later e.query).1 ++ rest)
        (check_all_lem fallback es (check fallback g e.now e.later e.query).0 h')

-- A new guard's cache holds nothing.
guard_of-IsFaithful :
    (fallback : Bytes → Statement) (registry : Registry) (o : Options)
    → IsFaithful fallback (guard_of registry o)
unfolding guard_of
guard_of-IsFaithful fallback registry o = go o.cache_size
  where
    go :
        (n : ℤ)
        → Holds fallback (record (guard_of registry o) { cache = new_cache n }) (new_cache n)
    go (negsuc n) = tt
    go (pos n) = elim (Bool-cases (ltb 0 n)) [
      | inl on ↦
          rw on
            (new_analysis_cache-IsSound (analyze fallback (guard_of registry o).opts.analyzer) n)
      | inr off ↦ rw off tt
    ]

pub new_guard-IsFaithful :
    (fallback : Bytes → Statement) (parse_duration : Bytes → Option ℤ) (registry : Registry)
    (opts : List Setter)
    → IsFaithful fallback (new_guard fallback parse_duration registry opts)
unfolding new_guard
new_guard-IsFaithful fallback parse_duration registry opts =
    guard_of-IsFaithful fallback registry (resolve_options fallback parse_duration registry opts)

-- However a guard is configured, over any run of queries at any instants: it hands to the reporter
-- the same findings in the same calls as the guard that has no cache and is otherwise the same.
pub check_all-uncached :
    (fallback : Bytes → Statement) (parse_duration : Bytes → Option ℤ) (registry : Registry)
    (opts : List Setter) (es : List Execution)
    → let g = new_guard fallback parse_duration registry opts in
      (check_all fallback g es).1 ≡ (check_all fallback (uncached g) es).1
check_all-uncached fallback parse_duration registry opts es = sym (
    check_all_lem fallback es (new_guard fallback parse_duration registry opts)
      (new_guard-IsFaithful fallback parse_duration registry opts))
