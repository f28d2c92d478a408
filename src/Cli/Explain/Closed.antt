-- ===== src/Cli/Explain/Closed.antt =====
-- The database of `runExplain` of cmd/sqlguard/explain.go: when it is dialed, and that it is closed.
use sqlguard.Prelude.{
  Bool, true, false, not, List, [], ◌∷◌, ◌++◌, Option, none, some, Bytes, codes, equal, length,
  if◌then◌else◌, ◌≡◌, refl, subst, ◌⊎◌, inl, inr, arith,
}
use mathlib.Core.Option.{some_inj}
use sqlguard.Analyzer.Types.{Result}
use sqlguard.Analyzer.Engine.{Analyzer}
use sqlguard.Config.Profile.{Config}
use sqlguard.Config.Load.{Loaded}
use sqlguard.Explain.Policy.{new_plan_analyzer}
use sqlguard.Explain.Runs.{analyze_plan}
use sqlguard.Cli.Report.{
  CliError, no_connection, unsupported_driver, Output, rendered, plan_summary, open_database,
  ping_database, close_database, Reporter, report, console_report, checked_verdict, write_err,
  render,
}
use sqlguard.Cli.Explain.{
  ExplainFlags, explain_with, explain_on, plan_with, report_plan, open_db, closing, run_explain,
  driver_name, explain_options, plan_of, plan_results,
}
use sqlguard.Cli.Run.{Run, ◌>>=◌, World, Flags, prepare, returning, resolve_config}
use sqlguard.Cli.Explain.Balance.{
  opened, closed, IsBalanced, opened-append, closed-append, IsBalanced-bind,
  resolve_config-IsBalanced, prepare-IsBalanced, ended-IsBalanced,
}

module _ (w : World) (dsn : Bytes) where
  report_plan-IsBalanced :
      (flags : Flags) (rep : Reporter) (issues : List Result)
      → IsBalanced w dsn (report_plan w flags rep issues).0
  unfolding report IsBalanced opened closed
  report_plan-IsBalanced flags rep issues =
      ended-IsBalanced w dsn
        (report w.json_writes rep flags.format issues (plan_summary (length issues) ∷ [])
          (plan_summary 0 ∷ []))
        (step (equal flags.format (codes "json")) issues)
    where
      step :
          (b : Bool) (rs : List Result)
          → IsBalanced w dsn
              (if b
                then (
                  rendered rs ∷ [],
                  checked_verdict (write_err (render w.json_writes rep rs)) rs,
                )
                else console_report w.json_writes rs
                    (plan_summary (length issues) ∷ [])
                    (plan_summary 0 ∷ [])).0
      step true rs = refl
      step false [] = refl
      step false (r ∷ rs) = refl

  explain_on-IsBalanced :
      (flags : Flags) (explain : ExplainFlags) (query : Bytes) (rep : Reporter) (a : Analyzer)
      (name : Bytes)
      → IsBalanced w dsn (explain_on w flags explain query rep a name).0
  unfolding IsBalanced
  explain_on-IsBalanced flags explain query rep a name =
      IsBalanced-bind w dsn
        (returning
          (plan_of (new_plan_analyzer true explain.dialect (explain_options explain.allow_dml a))))
        (plan_with w flags explain query rep name) refl
        λ p.
          IsBalanced-bind w dsn
            (returning
              (plan_results (analyze_plan w.registry (w.database name explain.dsn) p query)))
            (report_plan w flags rep) refl (report_plan-IsBalanced flags rep)

  -- A database that was opened and reached, and is closed behind a run that closes what it opens.
  reached-IsBalanced :
      (name : Bytes) (outs : List Output)
      → w.opens name dsn ≡ true
      → IsBalanced w dsn outs
      → IsBalanced w dsn
          ((open_database name ∷ ping_database name ∷ []) ++ (outs ++ close_database name ∷ []))
  unfolding IsBalanced opened closed
  reached-IsBalanced name outs o h =
      rw (opened, o)
        (omega (
          arith,
          h,
          closed-append w dsn outs (close_database name ∷ []),
          opened-append w dsn outs (close_database name ∷ []),
        ))

module _ (w : World) (flags : Flags) (explain : ExplainFlags) (query : Bytes) where
  explain_with-IsBalanced :
      (rep : Reporter) (c : Config) (a : Analyzer)
      → IsBalanced w explain.dsn (explain_with w flags explain query (rep, (c, a))).0
  unfolding open_db IsBalanced opened closed
  explain_with-IsBalanced rep c a = step (driver_name explain.dialect)
    where
      run : Bytes → Run (Unit {0})
      run name = closing name (explain_on w flags explain query rep a name)

      tried :
          (name : Bytes) (o p : Bool)
          → w.opens name explain.dsn ≡ o
          → IsBalanced w explain.dsn
              ((if not o
                  then (open_database name ∷ [], inl no_connection)
                  else if p
                  then (open_database name ∷ ping_database name ∷ [], inr name)
                  else (
                    open_database name ∷ ping_database name ∷ close_database name ∷ [],
                    inl no_connection,
                  ))
                >>= run).0
      tried name false p h = rw (opened, h) refl
      tried name true false h = rw (opened, h) refl
      tried name true true h =
          reached-IsBalanced w explain.dsn name (explain_on w flags explain query rep a name).0 h
            (explain_on-IsBalanced w explain.dsn flags explain query rep a name)

      step :
          (o : Option Bytes)
          → IsBalanced w explain.dsn
              ((elim o [
                | none ↦ ([], inl (unsupported_driver explain.dialect))
                | some name ↦
                    if not (w.opens name explain.dsn)
                    then (open_database name ∷ [], inl no_connection)
                    else if w.pings name explain.dsn
                    then (open_database name ∷ ping_database name ∷ [], inr name)
                    else (
                      open_database name ∷ ping_database name ∷ close_database name ∷ [],
                      inl no_connection,
                    )
              ])
                >>= run).0
      step none = refl
      step (some name) = tried name (w.opens name explain.dsn) (w.pings name explain.dsn) refl

  -- However `runExplain` ends, it closed every database that it opened, and no other.
  pub run_explain-IsBalanced :
      (outs : List Output) (result : CliError ⊎ Unit {0})
      → run_explain w flags explain query ≡ some (outs, result)
      → IsBalanced w explain.dsn outs
  unfolding run_explain
  run_explain-IsBalanced outs result = step (resolve_config w.files flags (codes ".")) refl
    where
      step :
          (o : Option (Loaded × List Output))
          → resolve_config w.files flags (codes ".") ≡ o
          → (elim o [
            | none ↦ none
            | some found ↦ some (prepare w flags found >>= explain_with w flags explain query)
          ])
            ≡ some (outs, result)
          → IsBalanced w explain.dsn outs
      step none h e = cc
      step (some (loaded, printed)) h e =
          subst (λ p. IsBalanced w explain.dsn p.0) (some_inj.0 e)
            (IsBalanced-bind w explain.dsn (prepare w flags (loaded, printed))
              (explain_with w flags explain query)
              (prepare-IsBalanced w explain.dsn flags loaded printed
                (resolve_config-IsBalanced w explain.dsn flags (codes ".") (loaded, printed) h))
              λ (rep, (c, a)). explain_with-IsBalanced rep c a)
