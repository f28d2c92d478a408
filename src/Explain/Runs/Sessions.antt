-- ===== src/Explain/Runs/Sessions.antt =====
-- The calls of the database that `Analyze` of explain/explain.go makes.
use sqlguard.Prelude.{
  ◌≡◌, refl, ap, ◌⊎◌, inl, inr, Bool, true, false, not, List, [], ◌∷◌, ◌++◌, Option, none, some,
  Bytes, codes, All, Bool-cases, arith,
}
use sqlguard.Analyzer.Types.{StmtKind, stmt_insert, stmt_update, stmt_delete}
use sqlguard.Analyzer.Registry.{Registry}
use sqlguard.Analyzer.Fallback.{parse}
use sqlguard.Explain.Policy.{
  PlanAnalyzer, PlanError, is_dml, is_postgres, is_mysql, stripped, validate,
}
use sqlguard.Explain.Policy.Accepted.{IsAccepted, validate_lem}
use sqlguard.Explain.Runs.{
  Event, begin_tx, run_query, close_rows, rollback, Database, analyze_postgres, analyze_mysql,
  run_dialect, analyze_plan,
}

-- The state of the connection behind a call: none where the call is out of place, and otherwise
-- whether a transaction is open. A statement runs only inside of one.
abbrev transition : Database → Bool → Event → Option Bool
transition db false (begin_tx read_only) = some (db.begins read_only)
transition db true (run_query sql) = some true
transition db true close_rows = some true
transition db true rollback = some false
transition db _ _ = none

abbrev pub runs_from : Database → Option Bool → List Event → Option Bool
runs_from db state [] = state
runs_from db none (e ∷ events) = none
runs_from db (some state) (e ∷ events) = runs_from db (transition db state e) events

-- No transaction is left open.
abbrev pub IsSession : Database → List Event → Type 0
IsSession db events = runs_from db (some false) events ≡ some false

-- The calls of a run: the transaction that the database refuses, or one that is rolled back.
abbrev Calls : Database → Bool → Bytes → List Event → Type 0
Calls db read_only sql events =
    ((db.begins read_only ≡ false) × (events ≡ begin_tx read_only ∷ []))
    ⊎ ((db.begins read_only ≡ true)
        × ((events ≡ begin_tx read_only ∷ run_query sql ∷ rollback ∷ [])
            ⊎ (events ≡ begin_tx read_only ∷ run_query sql ∷ close_rows ∷ rollback ∷ [])))

analyze_postgres-Calls :
    (registry : Registry) (db : Database) (q : Bytes)
    → Calls db true (codes "EXPLAIN (FORMAT JSON) " ++ q) (analyze_postgres registry db q).0
unfolding analyze_postgres
analyze_postgres-Calls registry db q = ground arith

analyze_mysql-Calls :
    (registry : Registry) (db : Database) (q : Bytes) (dml : Bool)
    → Calls db
        (not dml)
        (codes "EXPLAIN FORMAT=TRADITIONAL " ++ q)
        (analyze_mysql registry db q dml).0
unfolding analyze_mysql
analyze_mysql-Calls registry db q dml = ground arith

Calls-IsSession :
    (db : Database) (read_only : Bool) (sql : Bytes) (events : List Event)
    → Calls db read_only sql events
    → IsSession db events
Calls-IsSession db read_only sql events (inl (refused, e)) = rw e (ap some refused)
Calls-IsSession db read_only sql events (inr (begun, inl e)) =
    rw e (ap (λ b. runs_from db (some b) (run_query sql ∷ rollback ∷ [])) begun)
Calls-IsSession db read_only sql events (inr (begun, inr e)) =
    rw e (ap (λ b. runs_from db (some b) (run_query sql ∷ close_rows ∷ rollback ∷ [])) begun)

-- What a call may be: behind a query that is not accepted there is none, a transaction is read-only
-- unless a statement that modifies data is explained for an analyzer that allows it, and a statement
-- is the accepted text behind one of the two prefixes.
abbrev pub IsPermitted : PlanAnalyzer → Bytes → Event → Type 0
IsPermitted p query (begin_tx read_only) =
    IsAccepted p query
    × ((read_only ≡ true) ⊎ ((is_dml (parse (stripped query)).kind ≡ true) × (p.allow_dml ≡ true)))
IsPermitted p query (run_query sql) =
    IsAccepted p query
    × ((sql ≡ codes "EXPLAIN (FORMAT JSON) " ++ stripped query)
        ⊎ (sql ≡ codes "EXPLAIN FORMAT=TRADITIONAL " ++ stripped query))
IsPermitted p query close_rows = IsAccepted p query
IsPermitted p query rollback = IsAccepted p query

Calls-IsPermitted :
    (p : PlanAnalyzer) (query : Bytes) (db : Database) (read_only : Bool) (sql : Bytes)
    (events : List Event)
    → Calls db read_only sql events
    → IsPermitted p query (begin_tx read_only)
    → IsPermitted p query (run_query sql)
    → All (IsPermitted p query) events
Calls-IsPermitted p query db read_only sql events (inl (refused, e)) begins runs = rw e (begins, tt)
Calls-IsPermitted p query db read_only sql events (inr (begun, inl e)) begins runs =
    rw e (begins, (runs, (runs.0, tt)))
Calls-IsPermitted p query db read_only sql events (inr (begun, inr e)) begins runs =
    rw e (begins, (runs, (runs.0, (runs.0, tt))))

-- The transactions are closed, and every call is permitted.
abbrev pub IsSafe : Database → PlanAnalyzer → Bytes → List Event → Type 0
IsSafe db p query events = IsSession db events × All (IsPermitted p query) events

Calls-IsSafe :
    (p : PlanAnalyzer) (query : Bytes) (db : Database) (read_only : Bool) (sql : Bytes)
    (events : List Event)
    → Calls db read_only sql events
    → IsPermitted p query (begin_tx read_only)
    → IsPermitted p query (run_query sql)
    → IsSafe db p query events
Calls-IsSafe p query db read_only sql events calls begins runs = (
  Calls-IsSession db read_only sql events calls,
  Calls-IsPermitted p query db read_only sql events calls begins runs,
)

read_only-IsPermitted :
    (p : PlanAnalyzer) (query : Bytes)
    → IsAccepted p query
    → IsPermitted p query (begin_tx (not (is_dml (parse (stripped query)).kind)))
unfolding is_dml
read_only-IsPermitted p query (blank, single, inl select) =
    ((blank, single, inl select), inl (rw select refl))
read_only-IsPermitted p query (blank, single, inr (changes, allowed)) =
    ((blank, single, inr (changes, allowed)), inr (changes_rows changes, allowed))
  where
    changes_rows :
        {kind : StmtKind}
        → (kind ≡ stmt_insert) ⊎ ((kind ≡ stmt_update) ⊎ (kind ≡ stmt_delete))
        → is_dml kind ≡ true
    changes_rows (inl e) = ap is_dml e
    changes_rows (inr (inl e)) = ap is_dml e
    changes_rows (inr (inr e)) = ap is_dml e

run_dialect-IsSafe :
    (registry : Registry) (db : Database) (p : PlanAnalyzer) (query : Bytes)
    → IsAccepted p query
    → IsSafe db p query
        (run_dialect registry db p query (stripped query, (parse (stripped query)).kind)).0
run_dialect-IsSafe registry db p query ok =
    let dml = is_dml (parse (stripped query)).kind in
    elim (Bool-cases (is_postgres p.dialect)) [
      | inl postgres ↦ rw postgres (
          Calls-IsSafe p query db true (codes "EXPLAIN (FORMAT JSON) " ++ stripped query)
            (analyze_postgres registry db (stripped query)).0
            (analyze_postgres-Calls registry db (stripped query)) (ok, inl refl) (ok, inl refl))
      | inr other ↦ elim (Bool-cases (is_mysql p.dialect)) [
        | inl mysql ↦
            rw (other, mysql)
              (Calls-IsSafe p query db (not dml)
                (codes "EXPLAIN FORMAT=TRADITIONAL " ++ stripped query)
                (analyze_mysql registry db (stripped query) dml).0
                (analyze_mysql-Calls registry db (stripped query) dml)
                (read_only-IsPermitted p query ok) (ok, inr refl))
        | inr neither ↦ rw (other, neither) (refl, tt)
      ]
    ]

-- Whatever the query, the database and its replies: statements run only inside a transaction that
-- began, every transaction that began is rolled back at the end, and none is committed; the database
-- is called only for a query that `validate` accepts, each statement is the accepted text behind
-- `EXPLAIN`, and the transaction is read-only unless the statement is an INSERT, UPDATE or DELETE
-- that the analyzer allows.
pub analyze_plan-IsSafe :
    (registry : Registry) (db : Database) (p : PlanAnalyzer) (query : Bytes)
    → IsSafe db p query (analyze_plan registry db p query).0
unfolding analyze_plan
analyze_plan-IsSafe registry db p query = go (validate p query) refl
  where
    go :
        (o : PlanError ⊎ (Bytes × StmtKind))
        → validate p query ≡ o
        → IsSafe db p query (analyze_plan registry db p query).0
    go (inl err) e = rw (analyze_plan, e) (refl, tt)
    go (inr (q, k)) e =
        let (e_q, e_k, ok) = (validate_lem p query q k).0 e in
        let kind = (parse (stripped query)).kind in
        let whole = (validate_lem p query (stripped query) kind).1 (refl, refl, ok) in
        rw (analyze_plan, whole) (run_dialect-IsSafe registry db p query ok)
