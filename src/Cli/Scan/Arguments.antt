-- ===== src/Cli/Scan/Arguments.antt =====
-- Which argument of a method on SQL the scan of cmd/sqlguard/scan.go reads.
use mathlib.Core.Option.{some_inj}
use sqlguard.Prelude.{
  true, some, Bytes, codes, equal, equal_iff, is_one_of, ◌≡◌, sym, ap, ◌∙◌, subst, ◌⊎◌, inl, inr,
  arith,
}
use sqlguard.Cli.Paths.{cut_suffix, has_suffix}
use sqlguard.Cli.Source.{Node, Nodes, no_nodes, node_cons, sql_methods, node_at, query_arg_expr}

-- The methods of database/sql that take the query first, and those that take a context before it.
abbrev pub TakesQuery : Bytes → Type 0
TakesQuery name =
    (name ≡ codes "Query")
    ⊎ ((name ≡ codes "QueryRow") ⊎ ((name ≡ codes "Exec") ⊎ (name ≡ codes "Prepare")))

abbrev pub TakesContext : Bytes → Type 0
TakesContext name =
    (name ≡ codes "QueryContext")
    ⊎ ((name ≡ codes "QueryRowContext")
        ⊎ ((name ≡ codes "ExecContext") ⊎ (name ≡ codes "PrepareContext")))

-- The query argument of a call of such a method.
pub data IsQueryArg : Bytes → Nodes → Node → Type 0 where
  first :
      {name : Bytes} (arg : Node) (others : Nodes)
      → TakesQuery name
      → IsQueryArg name (node_cons arg others) arg
  second :
      {name : Bytes} (context arg : Node) (others : Nodes)
      → TakesContext name
      → IsQueryArg name (node_cons context (node_cons arg others)) arg

sql_methods_lem :
    (name : Bytes) → is_one_of sql_methods name ≡ true → TakesQuery name ⊎ TakesContext name
unfolding is_one_of
sql_methods_lem name h = ground (
  arith,
  h,
  equal_iff (codes "Query") name,
  equal_iff (codes "QueryContext") name,
  equal_iff (codes "QueryRow") name,
  equal_iff (codes "QueryRowContext") name,
  equal_iff (codes "Exec") name,
  equal_iff (codes "ExecContext") name,
  equal_iff (codes "Prepare") name,
  equal_iff (codes "PrepareContext") name,
)

query_arg_first :
    (name : Bytes) (args : Nodes) → TakesQuery name → query_arg_expr name args ≡ node_at args 0
unfolding query_arg_expr has_suffix cut_suffix equal
query_arg_first name args (inl e) = ap (λ n. query_arg_expr n args) e
query_arg_first name args (inr (inl e)) = ap (λ n. query_arg_expr n args) e
query_arg_first name args (inr (inr (inl e))) = ap (λ n. query_arg_expr n args) e
query_arg_first name args (inr (inr (inr e))) = ap (λ n. query_arg_expr n args) e

query_arg_second :
    (name : Bytes) (args : Nodes) → TakesContext name → query_arg_expr name args ≡ node_at args 1
unfolding query_arg_expr has_suffix cut_suffix equal
query_arg_second name args (inl e) = ap (λ n. query_arg_expr n args) e
query_arg_second name args (inr (inl e)) = ap (λ n. query_arg_expr n args) e
query_arg_second name args (inr (inr (inl e))) = ap (λ n. query_arg_expr n args) e
query_arg_second name args (inr (inr (inr e))) = ap (λ n. query_arg_expr n args) e

first-IsQueryArg :
    (name : Bytes) (args : Nodes) (arg : Node)
    → TakesQuery name
    → node_at args 0 ≡ some arg
    → IsQueryArg name args arg
first-IsQueryArg name no_nodes arg h e = cc
first-IsQueryArg name (node_cons x xs) arg h e =
    subst (IsQueryArg name (node_cons x xs)) (some_inj.0 e) (first x xs h)

second-IsQueryArg :
    (name : Bytes) (args : Nodes) (arg : Node)
    → TakesContext name
    → node_at args 1 ≡ some arg
    → IsQueryArg name args arg
second-IsQueryArg name no_nodes arg h e = cc
second-IsQueryArg name (node_cons x no_nodes) arg h e = cc
second-IsQueryArg name (node_cons x (node_cons y ys)) arg h e =
    subst (IsQueryArg name (node_cons x (node_cons y ys))) (some_inj.0 e) (second x y ys h)

pub query_arg_expr-IsQueryArg :
    (name : Bytes) (args : Nodes) (arg : Node)
    → is_one_of sql_methods name ≡ true
    → query_arg_expr name args ≡ some arg
    → IsQueryArg name args arg
query_arg_expr-IsQueryArg name args arg h e = elim (sql_methods_lem name h) [
  | inl q ↦ first-IsQueryArg name args arg q (sym (query_arg_first name args q) ∙ e)
  | inr c ↦ second-IsQueryArg name args arg c (sym (query_arg_second name args c) ∙ e)
]

TakesQuery-method : (name : Bytes) → TakesQuery name → is_one_of sql_methods name ≡ true
unfolding is_one_of equal
TakesQuery-method name (inl e) = ap (is_one_of sql_methods) e
TakesQuery-method name (inr (inl e)) = ap (is_one_of sql_methods) e
TakesQuery-method name (inr (inr (inl e))) = ap (is_one_of sql_methods) e
TakesQuery-method name (inr (inr (inr e))) = ap (is_one_of sql_methods) e

TakesContext-method : (name : Bytes) → TakesContext name → is_one_of sql_methods name ≡ true
unfolding is_one_of equal
TakesContext-method name (inl e) = ap (is_one_of sql_methods) e
TakesContext-method name (inr (inl e)) = ap (is_one_of sql_methods) e
TakesContext-method name (inr (inr (inl e))) = ap (is_one_of sql_methods) e
TakesContext-method name (inr (inr (inr e))) = ap (is_one_of sql_methods) e

pub IsQueryArg-query_arg_expr :
    {name : Bytes} {args : Nodes} {arg : Node}
    → IsQueryArg name args arg
    → (is_one_of sql_methods name ≡ true) × (query_arg_expr name args ≡ some arg)
IsQueryArg-query_arg_expr (first {name} arg others q) =
    (TakesQuery-method name q, query_arg_first name (node_cons arg others) q)
IsQueryArg-query_arg_expr (second {name} context arg others c) =
    (TakesContext-method name c, query_arg_second name (node_cons context (node_cons arg others)) c)
