-- ===== src/Middleware/Driver/Once.antt =====
-- One logical query of middleware/driver.go. database/sql calls the wrapper again for the same
-- query only after driver.ErrSkip or driver.ErrBadConn, so a logical query is a list of calls of
-- which all but the last are declined.
use sqlguard.Prelude.{
  ◌≢◌, ◌⊎◌, ◌-◌, ◌≡◌, refl, sym, ap, ◌∙◌, subst, Option-cases, true, false, List, [], ◌∷◌, ◌++◌,
  some, Bytes, All, inl, inr, arith,
}
use sqlguard.Analyzer.Types.{Statement, Result}
use sqlguard.Middleware.Guard.{Guard, check, check_latency}
use sqlguard.Middleware.Driver.{
  Failure, no_error, err_skip, err_bad_conn, named_parameters, other_error, Instants, Reply, Step,
  was_declined, analyze_executed, passed_on, conn_call, stmt_call,
}
use sqlguard.Middleware.Driver.Calls.{
  Call, IsSilent, run_call, base_reply, run_call_replied, run_call_refused,
}

-- What a query that runs adds to the guard and to the reports: one check and, if it succeeded,
-- its latency.
abbrev pub once :
    (Bytes → Statement) → Guard → Bytes → Instants → Failure → Guard × List (List Result)
once fallback g query t err =
    let (g', calls) = check fallback g t.report_time t.track_time query in
    let elapsed = t.finished - t.start in
    (g', calls ++ elim err [ no_error ↦ check_latency g' query elapsed | _ ↦ [] ])

append_none : {A : Type 0} (xs : List A) → xs ++ [] ≡ xs
append_none [] = refl
append_none (x ∷ xs) = ap (◌∷◌ x) (append_none xs)

passed_on_declined :
    {R : Type 0} (fallback : Bytes → Statement) (g : Guard) (query : Bytes) (t : Instants)
    (reply : Reply R)
    → was_declined reply.1 ≡ true
    → IsSilent g (passed_on fallback g query t reply)
unfolding analyze_executed
passed_on_declined fallback g query t reply h = rw h (refl, refl)

executed_once :
    (fallback : Bytes → Statement) (g : Guard) (query : Bytes) (t : Instants) (err : Failure)
    → was_declined err ≡ false
    → analyze_executed fallback g query t err ≡ once fallback g query t err
unfolding analyze_executed
executed_once fallback g query t no_error h = refl
executed_once fallback g query t err_skip h = ground arith
executed_once fallback g query t err_bad_conn h = ground arith
executed_once fallback g query t named_parameters h = refl
executed_once fallback g query t other_error h = refl

-- The errors after which database/sql makes a further call for the same query.
abbrev pub IsRetried : Failure → Type 0
IsRetried err = (err ≡ err_skip) ⊎ (err ≡ err_bad_conn)

retried_lem : (err : Failure) → IsRetried err → was_declined err ≡ true
retried_lem err (inl skip) = ap was_declined skip
retried_lem err (inr bad) = ap was_declined bad

final_lem : (err : Failure) → err ≢ err_skip → err ≢ err_bad_conn → was_declined err ≡ false
final_lem no_error s b = refl
final_lem err_skip s b = absurd (s refl)
final_lem err_bad_conn s b = absurd (b refl)
final_lem named_parameters s b = refl
final_lem other_error s b = refl

module _ {V R : Type 0} (fallback : Bytes → Statement) (query : Bytes) where
  -- Calls in turn: the last guard, and the reporter's calls.
  unfoldable pub run_calls : Guard → List (Instants × Call V R) → Guard × List (List Result)
  unfolding analyze_executed conn_call stmt_call
  run_calls g [] = (g, [])
  run_calls g ((t, c) ∷ cs) =
      let (g', calls, reply) = run_call fallback query g t c in
      let (g'', rest) = run_calls g' cs in (g'', calls ++ rest)

  -- A call whose error is one after which database/sql calls again.
  abbrev pub IsDeclined : Guard → Instants × Call V R → Type 0
  IsDeclined g (t, c) = IsRetried (run_call fallback query g t c).2.1

  declined_lem :
      (g : Guard) (t : Instants) (c : Call V R)
      → IsDeclined g (t, c)
      → IsSilent g (run_call fallback query g t c)
  declined_lem g t c h = elim (Option-cases (base_reply fallback query c)) [
    | inl out ↦ run_call_refused fallback query g t c out
    | inr (reply, e) ↦
        let same = run_call_replied fallback query g t c reply e in
        subst (IsSilent g) (sym same) (
          passed_on_declined fallback g query t reply
            (ap (λ (s : Step R). was_declined s.2.1) (sym same) ∙ retried_lem _ h))
  ]

  declined_all_lem :
      (g : Guard) (cs : List (Instants × Call V R)) (t : Instants) (c : Call V R)
      → All (IsDeclined g) cs
      → run_calls g (cs ++ ((t, c) ∷ [])) ≡ run_calls g ((t, c) ∷ [])
  unfolding run_calls
  declined_all_lem g [] t c h = refl
  declined_all_lem g ((t', c') ∷ cs) t c (h, hs) =
      let (same, silent) = declined_lem g t' c' h in
      ap
        (λ s.
          ((run_calls s.0 (cs ++ ((t, c) ∷ []))).0, s.1 ++ (run_calls s.0 (cs ++ ((t, c) ∷ []))).1))
        (the_pair same silent)
      ∙ declined_all_lem g cs t c hs
    where
      the_pair :
          {x : Guard} {y : List (List Result)}
          → x ≡ g
          → y ≡ []
          → ◌≡◌ {A = Guard × List (List Result)} (x, y) (g, [])
      the_pair p q = cc

  -- One logical query, through any direct or prepared calls: if every call but the last ends in
  -- driver.ErrSkip or driver.ErrBadConn, and the base runs the query in the last one, with another
  -- error or none, then the guard checks the query exactly once, at the last call, and looks at its latency exactly if it
  -- succeeded.
  pub logical_query_once :
      (g : Guard) (cs : List (Instants × Call V R)) (t : Instants) (c : Call V R) (reply : Reply R)
      → All (IsDeclined g) cs
      → base_reply fallback query c ≡ some reply
      → reply.1 ≢ err_skip
      → reply.1 ≢ err_bad_conn
      → run_calls g (cs ++ ((t, c) ∷ [])) ≡ once fallback g query t reply.1
  unfolding run_calls
  logical_query_once g cs t c (value, err) h e skip bad =
      declined_all_lem g cs t c h
      ∙ ap (λ (s : Step R). (s.0, s.1 ++ [])) (run_call_replied fallback query g t c (value, err) e)
      ∙ ap (λ s. (s.0, s.1 ++ [])) (executed_once fallback g query t err (final_lem err skip bad))
      ∙ ap (λ calls. ((once fallback g query t err).0, calls))
          (append_none (once fallback g query t err).1)
