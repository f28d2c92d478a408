-- ===== src/Middleware/Driver/Calls.antt =====
-- The calls that database/sql makes of the wrapper of middleware/driver.go for one query, and the
-- base's reply to each.
use sqlguard.Prelude.{
  ◌≡◌, refl, ap, Option-cases, List, [], ◌∷◌, Option, none, some, Bytes, All, equal, equal_iff,
  Bool-cases, inl, inr, arith, map,
}
use sqlguard.Analyzer.Types.{Statement}
use sqlguard.Middleware.Guard.{Guard}
use sqlguard.Middleware.Driver.{
  Instants, NamedValue, Reply, Step, named_to_values, passed_on, call_legacy, conn_call, stmt_call,
  BaseStmt, BaseConn, WStmt, conn_query_context, conn_exec_context, wrapped_exec, wrapped_query,
  wrapped_exec_context, wrapped_query_context,
}

-- A call that database/sql makes for a query: on a connection, or on a statement that was prepared
-- for the query.
pub data Call (V R : Type 0) : Type 0 where
  query_call : BaseConn V R → List (NamedValue V) → Call V R
  exec_call : BaseConn V R → List (NamedValue V) → Call V R
  stmt_query_call : BaseStmt V R → List (NamedValue V) → Call V R
  stmt_exec_call : BaseStmt V R → List (NamedValue V) → Call V R
  plain_query_call : BaseStmt V R → List V → Call V R
  plain_exec_call : BaseStmt V R → List V → Call V R

abbrev prepared : {V R : Type 0} → BaseStmt V R → Bytes → WStmt V R
prepared s query = record { base = s; query = query }

-- A step that leaves the guard and reports nothing.
abbrev pub IsSilent : {R : Type 0} → Guard → Step R → Type 0
IsSilent g step = (step.0 ≡ g) × (step.1 ≡ [])

module _ {V R : Type 0} (fallback : Bytes → Statement) (query : Bytes) where
  abbrev pub run_call : Guard → Instants → Call V R → Step R
  run_call g t (query_call c args) = conn_query_context fallback g t c query args
  run_call g t (exec_call c args) = conn_exec_context fallback g t c query args
  run_call g t (stmt_query_call s args) = wrapped_query_context fallback g t (prepared s query) args
  run_call g t (stmt_exec_call s args) = wrapped_exec_context fallback g t (prepared s query) args
  run_call g t (plain_query_call s args) = wrapped_query fallback g t (prepared s query) args
  run_call g t (plain_exec_call s args) = wrapped_exec fallback g t (prepared s query) args

  -- The reply of the base, none where the wrapper refuses the call before it.
  abbrev by_position : (List V → Reply R) → Option (List V) → Option (Reply R)
  by_position entry none = none
  by_position entry (some values) = some (entry values)

  abbrev conn_reply :
      List (NamedValue V)
      → Option (Bytes → List (NamedValue V) → Reply R)
      → Option (Bytes → List V → Reply R)
      → Option (Reply R)
  conn_reply args (some entry) legacy = some (entry query args)
  conn_reply args none (some entry) = by_position (entry query) (named_to_values args)
  conn_reply args none none = none

  abbrev stmt_reply :
      List (NamedValue V)
      → Option (List (NamedValue V) → Reply R)
      → (List V → Reply R)
      → Option (Reply R)
  stmt_reply args (some entry) legacy = some (entry args)
  stmt_reply args none legacy = by_position legacy (named_to_values args)

  abbrev pub base_reply : Call V R → Option (Reply R)
  base_reply (query_call c args) = conn_reply args c.queryer_context c.queryer
  base_reply (exec_call c args) = conn_reply args c.execer_context c.execer
  base_reply (stmt_query_call s args) = stmt_reply args s.stmt_query_context s.stmt_query
  base_reply (stmt_exec_call s args) = stmt_reply args s.stmt_exec_context s.stmt_exec
  base_reply (plain_query_call s args) = some (s.stmt_query args)
  base_reply (plain_exec_call s args) = some (s.stmt_exec args)

  by_position_replied :
      (g : Guard) (t : Instants) (entry : List V → Reply R) (values : Option (List V))
      (reply : Reply R)
      → by_position entry values ≡ some reply
      → call_legacy fallback g query t entry values ≡ passed_on fallback g query t reply
  unfolding call_legacy
  by_position_replied g t entry none reply h = ground arith
  by_position_replied g t entry (some values) reply h =
      ap (λ o. passed_on fallback g query t (elim o [ none ↦ reply | some r ↦ r ])) h

  conn_call_replied :
      (g : Guard) (t : Instants) (args : List (NamedValue V))
      (entry : Option (Bytes → List (NamedValue V) → Reply R))
      (legacy : Option (Bytes → List V → Reply R)) (reply : Reply R)
      → conn_reply args entry legacy ≡ some reply
      → conn_call fallback g t query args entry legacy ≡ passed_on fallback g query t reply
  unfolding conn_call
  conn_call_replied g t args (some entry) legacy reply h =
      ap (λ o. passed_on fallback g query t (elim o [ none ↦ reply | some r ↦ r ])) h
  conn_call_replied g t args none (some entry) reply h =
      by_position_replied g t (entry query) (named_to_values args) reply h
  conn_call_replied g t args none none reply h = ground arith

  stmt_call_replied :
      (g : Guard) (t : Instants) (args : List (NamedValue V))
      (entry : Option (List (NamedValue V) → Reply R)) (legacy : List V → Reply R) (reply : Reply R)
      → stmt_reply args entry legacy ≡ some reply
      → stmt_call fallback g t query args entry legacy ≡ passed_on fallback g query t reply
  unfolding stmt_call
  stmt_call_replied g t args (some entry) legacy reply h =
      ap (λ o. passed_on fallback g query t (elim o [ none ↦ reply | some r ↦ r ])) h
  stmt_call_replied g t args none legacy reply h =
      by_position_replied g t legacy (named_to_values args) reply h

  -- A reply of the base is analysed and passed on.
  pub run_call_replied :
      (g : Guard) (t : Instants) (c : Call V R) (reply : Reply R)
      → base_reply c ≡ some reply
      → run_call g t c ≡ passed_on fallback g query t reply
  run_call_replied g t (query_call c args) reply h =
      conn_call_replied g t args c.queryer_context c.queryer reply h
  run_call_replied g t (exec_call c args) reply h =
      conn_call_replied g t args c.execer_context c.execer reply h
  run_call_replied g t (stmt_query_call s args) reply h =
      stmt_call_replied g t args s.stmt_query_context s.stmt_query reply h
  run_call_replied g t (stmt_exec_call s args) reply h =
      stmt_call_replied g t args s.stmt_exec_context s.stmt_exec reply h
  run_call_replied g t (plain_query_call s args) reply h =
      ap (λ o. passed_on fallback g query t (elim o [ none ↦ reply | some r ↦ r ])) h
  run_call_replied g t (plain_exec_call s args) reply h =
      ap (λ o. passed_on fallback g query t (elim o [ none ↦ reply | some r ↦ r ])) h

  call_legacy_refused :
      (g : Guard) (t : Instants) (entry : List V → Reply R) (values : Option (List V))
      → by_position entry values ≡ none
      → IsSilent g (call_legacy fallback g query t entry values)
  unfolding call_legacy
  call_legacy_refused g t entry none h = (refl, refl)
  call_legacy_refused g t entry (some values) h = ground arith

  conn_call_refused :
      (g : Guard) (t : Instants) (args : List (NamedValue V))
      (entry : Option (Bytes → List (NamedValue V) → Reply R))
      (legacy : Option (Bytes → List V → Reply R))
      → conn_reply args entry legacy ≡ none
      → IsSilent g (conn_call fallback g t query args entry legacy)
  unfolding conn_call
  conn_call_refused g t args (some entry) legacy h = ground arith
  conn_call_refused g t args none (some entry) h =
      call_legacy_refused g t (entry query) (named_to_values args) h
  conn_call_refused g t args none none h = (refl, refl)

  stmt_call_refused :
      (g : Guard) (t : Instants) (args : List (NamedValue V))
      (entry : Option (List (NamedValue V) → Reply R)) (legacy : List V → Reply R)
      → stmt_reply args entry legacy ≡ none
      → IsSilent g (stmt_call fallback g t query args entry legacy)
  unfolding stmt_call
  stmt_call_refused g t args (some entry) legacy h = ground arith
  stmt_call_refused g t args none legacy h = call_legacy_refused g t legacy (named_to_values args) h

  -- A call that does not reach the base leaves the guard.
  pub run_call_refused :
      (g : Guard) (t : Instants) (c : Call V R) → base_reply c ≡ none → IsSilent g (run_call g t c)
  run_call_refused g t (query_call c args) h =
      conn_call_refused g t args c.queryer_context c.queryer h
  run_call_refused g t (exec_call c args) h = conn_call_refused g t args c.execer_context c.execer h
  run_call_refused g t (stmt_query_call s args) h =
      stmt_call_refused g t args s.stmt_query_context s.stmt_query h
  run_call_refused g t (stmt_exec_call s args) h =
      stmt_call_refused g t args s.stmt_exec_context s.stmt_exec h
  run_call_refused g t (plain_query_call s args) h = ground arith
  run_call_refused g t (plain_exec_call s args) h = ground arith

-- Arguments for a legacy entry point: they are taken exactly if none has a name, and then as their
-- values in order.
pub named_to_values_lem :
    {V : Type 0} (args : List (NamedValue V))
    → (All (λ nv. nv.name ≡ []) args → named_to_values args ≡ some (map (λ nv. nv.value) args))
      × ((values : List V) → named_to_values args ≡ some values → All (λ nv. nv.name ≡ []) args)
unfolding named_to_values
named_to_values_lem [] = (λ h. refl, λ values e. tt)
named_to_values_lem (nv ∷ args) =
    let (to, from) = named_to_values_lem args in
    elim (Bool-cases (equal nv.name [])) [
      | inl positional ↦ (
        λ h. rw (positional, to h.1) refl,
        λ values e. elim (Option-cases (named_to_values args)) [
          | inl gone ↦ let bad : none ≡ some values = rw (positional, gone) at e in ground arith
          | inr (rest, there) ↦ ((equal_iff nv.name []).0 positional, from rest there)
        ],
      )
      | inr named ↦ (
        λ h. ground (arith, equal_iff nv.name [], h.0),
        λ values e. let bad : none ≡ some values = rw named at e in ground arith,
      )
    ]
