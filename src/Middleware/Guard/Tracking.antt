-- ===== src/Middleware/Guard/Tracking.antt =====
-- What one check of middleware/guard.go does to the deduper, the tracker and the reporter.
use sqlguard.Prelude.{
  if◌then◌else◌, Bool, true, false, ℕ, ◌≡◌, refl, sym, ap, ◌∙◌, List, [], ◌∷◌, ◌++◌, Option, none,
  some, Bytes, All,
}
use sqlguard.Analyzer.Types.{Statement, Result}
use sqlguard.Analyzer.Lexer.Fingerprint.{fingerprint}
use sqlguard.Analyzer.Engine.{Analyzer, analyze}
use sqlguard.Analyzer.Engine.Reports.Fields.{IsPrepared, analyze-IsPrepared}
use sqlguard.Middleware.Tracker.{QueryTracker, track_fingerprint}
use sqlguard.Middleware.Dedup.{Deduper, allow}
use sqlguard.Middleware.Guard.{
  Guard, pass_dedup, reported_call, report, report_findings, track_query, feed_tracker, check,
  guard_analyze, analyze_with,
}
use sqlguard.Middleware.Guard.Uncached.{uncached, IsFaithful, after, check-uncached}

-- What the deduper, asked about each finding in turn at one moment, lets pass, in order.
pub data Passes (now : ℕ) : Deduper → List Result → Deduper → List Result → Type 0 where
  nothing : {d : Deduper} → Passes now d [] d []
  passed :
      {d d' d'' : Deduper} {r : Result} {results kept : List Result}
      → allow d r.fingerprint r.rule_name now ≡ (d', true)
      → Passes now d' results d'' kept
      → Passes now d (r ∷ results) d'' (r ∷ kept)
  held :
      {d d' d'' : Deduper} {r : Result} {results kept : List Result}
      → allow d r.fingerprint r.rule_name now ≡ (d', false)
      → Passes now d' results d'' kept
      → Passes now d (r ∷ results) d'' kept

pass_dedup-Passes :
    (now : ℕ) (d : Deduper) (results : List Result)
    → Passes now d results (pass_dedup d now results).0 (pass_dedup d now results).1
unfolding pass_dedup
pass_dedup-Passes now d [] = nothing
pass_dedup-Passes now d (r ∷ results) =
    let d' = (allow d r.fingerprint r.rule_name now).0 in
    go d' (allow d r.fingerprint r.rule_name now).1 refl (pass_dedup-Passes now d' results)
  where
    go :
        (d' : Deduper) (b : Bool)
        → allow d r.fingerprint r.rule_name now ≡ (d', b)
        → {d'' : Deduper} {kept : List Result} → Passes now d' results d'' kept
        → Passes now d (r ∷ results) d'' (if b then r ∷ kept else kept)
    go d' true e rest = passed e rest
    go d' false e rest = held e rest

-- One call with the findings, and none without a finding.
abbrev pub one_call : List Result → List (List Result)
one_call [] = []
one_call (r ∷ results) = (r ∷ results) ∷ []

one_call_lem : (results : List Result) → reported_call results ≡ one_call results
one_call_lem [] = refl
one_call_lem (r ∷ results) = refl

-- The tracker's part of a check: the fingerprint is counted, and what that finds is reported.
abbrev pub counted : Option QueryTracker → ℕ → Bytes → Option QueryTracker × List (List Result)
counted none later fp = (none, [])
counted (some qt) later fp =
    let (qt', findings) = track_fingerprint qt later fp in (some qt', one_call findings)

-- What the guard holds but for its cache, and the reporter's calls.
abbrev pub Effect : Type 0
Effect = Deduper × Option QueryTracker × List (List Result)

abbrev pub effect : Guard × List (List Result) → Effect
effect (g, calls) = (g.deduper, g.tracker, calls)

-- The deduper lets some of the findings pass, the reporter sees those, and the tracker counts the
-- fingerprint.
pub record Reported (g : Guard) (now later : ℕ) (fp : Bytes) (results : List Result) (e : Effect)
    : Type 0 where
  pub deduper : Deduper
  pub kept : List Result
  pub asked : Passes now g.deduper results deduper kept
  pub same :
      e ≡ (deduper, (counted g.tracker later fp).0, one_call kept ++ (counted g.tracker later fp).1)

feed_tracker_lem :
    (g : Guard) (later : ℕ) (query fp : Bytes) (results : List Result) (o : Option QueryTracker)
    (calls : List (List Result))
    → g.tracker ≡ o
    → fp ≡ fingerprint query g.opts.analyzer.dialect
    → All (λ r. r.fingerprint ≡ fp) results
    → effect (
      (feed_tracker g later query results o).0,
      calls ++ (feed_tracker g later query results o).1,
    )
      ≡ (g.deduper, (counted o later fp).0, calls ++ (counted o later fp).1)
unfolding feed_tracker track_query
feed_tracker_lem g later query fp results none calls k e h = ap (λ o. (g.deduper, o, calls ++ [])) k
feed_tracker_lem g later query fp [] (some qt) calls k e h =
    ap (λ f. (g.deduper, (counted (some qt) later f).0, calls ++ (counted (some qt) later f).1))
      (sym e)
feed_tracker_lem g later query fp (r ∷ results) (some qt) calls k e (h, hs) =
    ap (λ f. (g.deduper, (counted (some qt) later f).0, calls ++ (counted (some qt) later f).1)) h

after_lem :
    (g : Guard) (now later : ℕ) (query fp : Bytes) (results : List Result)
    → fp ≡ fingerprint query g.opts.analyzer.dialect
    → All (λ r. r.fingerprint ≡ fp) results
    → effect (after g now later query results) ≡ (
      (pass_dedup g.deduper now results).0,
      (counted g.tracker later fp).0,
      one_call (pass_dedup g.deduper now results).1 ++ (counted g.tracker later fp).1,
    )
unfolding report_findings report pass_dedup
after_lem g now later query fp [] e h = feed_tracker_lem g later query fp [] g.tracker [] refl e h
after_lem g now later query fp (r ∷ results) e h =
    let (g', calls) = report g now (r ∷ results) in
    feed_tracker_lem g' later query fp (r ∷ results) g'.tracker calls refl e h
    ∙ ap
        (λ kept.
          (g'.deduper, (counted g.tracker later fp).0, kept ++ (counted g.tracker later fp).1))
        (one_call_lem (pass_dedup g.deduper now (r ∷ results)).1)

findings_fingerprints :
    (a : Analyzer) (query : Bytes) (results : List Result)
    → All (IsPrepared a query) results
    → All (λ (r : Result). r.fingerprint ≡ fingerprint query a.dialect) results
findings_fingerprints a query [] h = tt
findings_fingerprints a query (r ∷ results) (h, hs) =
    (h.identity, findings_fingerprints a query results hs)

-- A check, of a guard whose cache holds its analyzer's findings: the deduper is asked about each
-- finding of the analyzer in turn, the reporter is called once with those that it allows, in order,
-- if there are any, and the tracker counts the fingerprint of the query, whether or not there was a
-- finding; its own finding is a further call.
pub check_lem :
    (fallback : Bytes → Statement) (g : Guard) (now later : ℕ) (query : Bytes)
    → IsFaithful fallback g
    → Reported g now later
        (fingerprint query g.opts.analyzer.dialect)
        (analyze fallback g.opts.analyzer query)
        (effect (check fallback g now later query))
unfolding check guard_analyze analyze_with
check_lem fallback g now later query h =
    let a = g.opts.analyzer in
    let results = analyze fallback a query in
    let (same, h') = check-uncached fallback g now later query h in
    record {
      deduper = (pass_dedup g.deduper now results).0;
      kept = (pass_dedup g.deduper now results).1;
      asked = pass_dedup-Passes now g.deduper results;
      same =
          ap effect (sym same)
          ∙ after_lem (uncached g) now later query (fingerprint query a.dialect) results refl
              (findings_fingerprints a query results (analyze-IsPrepared fallback a query));
    }
