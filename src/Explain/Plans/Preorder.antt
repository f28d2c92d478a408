-- ===== src/Explain/Plans/Preorder.antt =====
-- `walkPgPlan` of explain/explain.go against the plan's nodes as a list.
use sqlguard.Prelude.{
  ◌≡◌, refl, sym, ap, ◌∙◌, List, [], ◌∷◌, ◌++◌, Bytes, ℤ, append_assoc, append_nil,
}
use sqlguard.Analyzer.Types.{Float, Result}
use sqlguard.Analyzer.Registry.{Registry}
use sqlguard.Explain.Plans.{
  PgPlanNode, PgPlanNodes, node, leaf, branch, node_issues, walk_pg_plan, walk_pg_plans,
}

-- What the rules read of a node.
abbrev Facts : Type 0
Facts = Bytes × Float × ℤ

-- The nodes of a plan, each in front of those under it.
unfoldable mutual
  pub nodes_of : PgPlanNode → List Facts
  nodes_of (node kind cost rows plans) = (kind, cost, rows) ∷ nodes_of_all plans

  pub nodes_of_all : PgPlanNodes → List Facts
  nodes_of_all leaf = []
  nodes_of_all (branch plan plans) = nodes_of plan ++ nodes_of_all plans

-- The issues of each node, in the order of the nodes.
unfoldable pub issues_of : Registry → Bytes → List Facts → List Result
unfolding node_issues
issues_of registry query [] = []
issues_of registry query ((kind, cost, rows) ∷ facts) =
    node_issues registry query kind cost rows ++ issues_of registry query facts

issues_of-append :
    (registry : Registry) (query : Bytes) (a b : List Facts)
    → issues_of registry query (a ++ b) ≡ issues_of registry query a ++ issues_of registry query b
unfolding issues_of
issues_of-append registry query [] b = refl
issues_of-append registry query ((kind, cost, rows) ∷ a) b =
    ap (◌++◌ (node_issues registry query kind cost rows)) (issues_of-append registry query a b)
    ∙ sym (
        append_assoc (node_issues registry query kind cost rows) (issues_of registry query a)
          (issues_of registry query b))

mutual
  unfolding walk_pg_plan walk_pg_plans nodes_of nodes_of_all issues_of

  walk_pg_plan-nodes_of :
      (registry : Registry) (plan : PgPlanNode) (query : Bytes) (issues : List Result)
      → walk_pg_plan registry plan query issues ≡ issues ++ issues_of registry query (nodes_of plan)
  walk_pg_plan-nodes_of registry (node kind cost rows plans) query issues =
      let own = node_issues registry query kind cost rows in
      walk_pg_plans-nodes_of_all registry plans query (issues ++ own)
      ∙ append_assoc issues own (issues_of registry query (nodes_of_all plans))

  walk_pg_plans-nodes_of_all :
      (registry : Registry) (plans : PgPlanNodes) (query : Bytes) (issues : List Result)
      → walk_pg_plans registry plans query issues
        ≡ issues ++ issues_of registry query (nodes_of_all plans)
  walk_pg_plans-nodes_of_all registry leaf query issues = sym (append_nil issues)
  walk_pg_plans-nodes_of_all registry (branch plan plans) query issues =
      let first = issues_of registry query (nodes_of plan) in
      walk_pg_plans-nodes_of_all registry plans query (walk_pg_plan registry plan query issues)
      ∙ ap (λ (l : List Result). l ++ issues_of registry query (nodes_of_all plans))
          (walk_pg_plan-nodes_of registry plan query issues)
      ∙ append_assoc issues first (issues_of registry query (nodes_of_all plans))
      ∙ ap (◌++◌ issues)
          (sym (issues_of-append registry query (nodes_of plan) (nodes_of_all plans)))

-- The recursive walk over a plan, which appends to one list as it goes, appends the issues of each
-- node of the plan, for the nodes in their order with each in front of those under it.
pub walk_pg_plan_lem :
    (registry : Registry) (plan : PgPlanNode) (query : Bytes) (issues : List Result)
    → walk_pg_plan registry plan query issues ≡ issues ++ issues_of registry query (nodes_of plan)
walk_pg_plan_lem = walk_pg_plan-nodes_of
