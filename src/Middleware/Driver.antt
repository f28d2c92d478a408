-- ===== src/Middleware/Driver.antt =====
-- The wrapped connection and statement of middleware/driver.go. The base driver is a parameter:
-- the entry points it implements, each with the reply that it gives. A call reads the clock before
-- the base and after it, and twice in the analysis.
pub mod Calls
pub mod Once
pub mod Session
use sqlguard.Prelude.{
  ℕ, ◌-◌, Bool, true, false, List, [], ◌∷◌, ◌++◌, Option, none, some, Bytes, equal, if◌then◌else◌,
}
use sqlguard.Analyzer.Types.{Statement, Result}
use sqlguard.Middleware.Guard.{Guard, check, check_latency}

-- An `error` as `errors.Is` tells it apart; `no_error` is nil.
pub data Failure : Type 0 where
  no_error err_skip err_bad_conn named_parameters other_error : Failure

pub record Instants : Type 0 where
  pub start : ℕ
  pub finished : ℕ
  pub report_time : ℕ
  pub track_time : ℕ

-- A value bound to a parameter; an empty name is a positional one.
pub record NamedValue (V : Type 0) : Type 0 where
  pub name : Bytes
  pub value : V

-- Whether the base has run the query, by its answer.
abbrev pub was_declined : Failure → Bool
was_declined err_skip = true
was_declined err_bad_conn = true
was_declined _ = false

abbrev latency_calls : Failure → List (List Result) → List (List Result)
latency_calls no_error calls = calls
latency_calls _ calls = []

unfoldable pub analyze_executed :
    (Bytes → Statement) → Guard → Bytes → Instants → Failure → Guard × List (List Result)
unfolding check check_latency
analyze_executed fallback g query t err =
    let elapsed = t.finished - t.start in
    let (g', calls) = check fallback g t.report_time t.track_time query in
    if was_declined err
    then (g, [])
    else (g', calls ++ latency_calls err (check_latency g' query elapsed))

unfoldable pub named_to_values : {V : Type 0} → List (NamedValue V) → Option (List V)
named_to_values [] = some []
named_to_values (nv ∷ named) =
    let rest = named_to_values named in
    if equal nv.name []
    then elim rest [ none ↦ none | some values ↦ some (nv.value ∷ values) ]
    else none

-- A reply: rows or a result, absent where it is nil, and the error.
abbrev pub Reply : Type 0 → Type 0
Reply R = Option R × Failure

-- What a step of the wrapper gives: the guard, the reporter's calls, and the reply.
abbrev pub Step : Type 0 → Type 0
Step R = Guard × List (List Result) × Reply R

module _ {R : Type 0} where
  -- The base is called, and its reply is analysed and passed on.
  abbrev pub passed_on : (Bytes → Statement) → Guard → Bytes → Instants → Reply R → Step R
  passed_on fallback g query t reply =
      let (g', calls) = analyze_executed fallback g query t reply.1 in (g', calls, reply)

  -- The wrapper's own error, without a call of the base.
  abbrev pub refused : Guard → Failure → Step R
  refused g err = (g, [], (none, err))

-- `V` is the type of bound values and `R` that of the rows and results.
module _ {V R : Type 0} where
  -- A legacy entry point takes positional values.
  unfoldable pub call_legacy :
      (Bytes → Statement) → Guard → Bytes → Instants → (List V → Reply R) → Option (List V) → Step R
  unfolding analyze_executed
  call_legacy fallback g query t entry none = refused g named_parameters
  call_legacy fallback g query t entry (some values) = passed_on fallback g query t (entry values)

  -- The body of a method of `wConn`, over the two entry points of its kind.
  unfoldable pub conn_call :
      (Bytes → Statement)
      → Guard
      → Instants
      → Bytes
      → List (NamedValue V)
      → Option (Bytes → List (NamedValue V) → Reply R)
      → Option (Bytes → List V → Reply R)
      → Step R
  unfolding analyze_executed call_legacy named_to_values
  conn_call fallback g t query args (some entry) legacy =
      passed_on fallback g query t (entry query args)
  conn_call fallback g t query args none (some entry) =
      call_legacy fallback g query t (entry query) (named_to_values args)
  conn_call fallback g t query args none none = refused g err_skip

  -- The body of a context method of `wStmt`.
  unfoldable pub stmt_call :
      (Bytes → Statement)
      → Guard
      → Instants
      → Bytes
      → List (NamedValue V)
      → Option (List (NamedValue V) → Reply R)
      → (List V → Reply R)
      → Step R
  unfolding analyze_executed call_legacy named_to_values
  stmt_call fallback g t query args (some entry) legacy = passed_on fallback g query t (entry args)
  stmt_call fallback g t query args none legacy =
      call_legacy fallback g query t legacy (named_to_values args)

-- A base statement: `driver.Stmt` and its optional interfaces.
pub record BaseStmt (V R : Type 0) : Type 0 where
  pub stmt_exec : List V → Reply R
  pub stmt_query : List V → Reply R
  pub stmt_exec_context : Option (List (NamedValue V) → Reply R)
  pub stmt_query_context : Option (List (NamedValue V) → Reply R)

-- A base connection, likewise.
pub record BaseConn (V R : Type 0) : Type 0 where
  pub prepare : Bytes → Option (BaseStmt V R) × Failure
  pub prepare_context : Option (Bytes → Option (BaseStmt V R) × Failure)
  pub queryer_context : Option (Bytes → List (NamedValue V) → Reply R)
  pub queryer : Option (Bytes → List V → Reply R)
  pub execer_context : Option (Bytes → List (NamedValue V) → Reply R)
  pub execer : Option (Bytes → List V → Reply R)

-- `wStmt`: the base statement and the query it was prepared for. The guard is the state of a step.
pub record WStmt (V R : Type 0) : Type 0 where
  pub base : BaseStmt V R
  pub query : Bytes

abbrev wrap_stmt :
    {V R : Type 0} → Bytes → Option (BaseStmt V R) × Failure → Option (WStmt V R) × Failure
wrap_stmt query (some s, no_error) = (some (record { base = s; query = query }), no_error)
wrap_stmt query (s, err) = (none, err)

module _ {V R : Type 0} where
  -- `Prepare` and `PrepareContext` analyse nothing.
  abbrev pub conn_prepare : BaseConn V R → Bytes → Option (WStmt V R) × Failure
  conn_prepare c query = wrap_stmt query (c.prepare query)

  abbrev pub conn_prepare_context : BaseConn V R → Bytes → Option (WStmt V R) × Failure
  conn_prepare_context c query = elim (c.prepare_context) [
    | none ↦ wrap_stmt query (c.prepare query)
    | some entry ↦ wrap_stmt query (entry query)
  ]

  module _ (fallback : Bytes → Statement) (g : Guard) (t : Instants) where
    abbrev pub conn_query_context : BaseConn V R → Bytes → List (NamedValue V) → Step R
    conn_query_context c query args = conn_call fallback g t query args c.queryer_context c.queryer

    abbrev pub conn_exec_context : BaseConn V R → Bytes → List (NamedValue V) → Step R
    conn_exec_context c query args = conn_call fallback g t query args c.execer_context c.execer

    abbrev pub wrapped_exec : WStmt V R → List V → Step R
    wrapped_exec s args = passed_on fallback g s.query t (s.base.stmt_exec args)

    abbrev pub wrapped_query : WStmt V R → List V → Step R
    wrapped_query s args = passed_on fallback g s.query t (s.base.stmt_query args)

    abbrev pub wrapped_exec_context : WStmt V R → List (NamedValue V) → Step R
    wrapped_exec_context s args =
        stmt_call fallback g t s.query args s.base.stmt_exec_context s.base.stmt_exec

    abbrev pub wrapped_query_context : WStmt V R → List (NamedValue V) → Step R
    wrapped_query_context s args =
        stmt_call fallback g t s.query args s.base.stmt_query_context s.base.stmt_query
