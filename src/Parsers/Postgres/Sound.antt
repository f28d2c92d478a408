-- ===== src/Parsers/Postgres/Sound.antt =====
-- What the facts of a tree leave alone.
use sqlguard.Prelude.{refl, inl, inr, List, ◌∷◌, [], Option, none, some, Bytes}
use sqlguard.Analyzer.Types.{Statement, stmt_select}
use sqlguard.Parsers.Structure.{baseline, reset_structural}
use sqlguard.Parsers.Contract.{Refines, Framed, text_facts, select_Refines, Framed-trans}
use sqlguard.Parsers.Postgres.{
  Select, nil_select, select, Body, no_body, values_clause, select_clause, paren_select,
  union_clause, fill_select_body, fill_paren, merge_arm, merge_paren, select_start, fill_select,
  Tree, select_tree, clause_tree, delete_tree, update_tree, insert_tree, other_tree, Grammar,
  with_trees, fill_tree, fill_select_clause, parse_postgres,
}

mutual
  unfolding fill_select_body fill_paren merge_arm fill_select_clause Framed text_facts
      reset_structural

  pub fill_select_body-Framed :
      (st : Statement) (body : Body) → Framed (fill_select_body st body) st
  fill_select_body-Framed st no_body = (refl, refl)
  fill_select_body-Framed st values_clause = (refl, refl)
  fill_select_body-Framed st (select_clause c) = (refl, refl)
  fill_select_body-Framed st (paren_select s) = fill_paren-Framed st s
  fill_select_body-Framed st (union_clause left right) =
      Framed-trans (merge_arm (merge_arm st left) right) (merge_arm st left) st
        (merge_arm-Framed (merge_arm st left) right) (merge_arm-Framed st left)

  fill_paren-Framed : (st : Statement) (s : Select) → Framed (fill_paren st s) st
  fill_paren-Framed st nil_select = (refl, refl)
  fill_paren-Framed st (select order_by limit body) =
      fill_select_body-Framed (merge_paren st order_by limit) body

  merge_arm-Framed : (st : Statement) (s : Select) → Framed (merge_arm st s) st
  merge_arm-Framed st nil_select = (refl, refl)
  merge_arm-Framed st (select order_by limit body) = (refl, refl)

fill_tree-Refines : (fb : Statement) (tree : Tree) → Refines fb (fill_tree fb tree)
unfolding fill_tree Refines Framed text_facts reset_structural fill_select_clause
fill_tree-Refines fb (select_tree order_by limit body) =
    select_Refines fb (fill_select (reset_structural stmt_select fb) order_by limit body)
      (fill_select_body-Framed (select_start (reset_structural stmt_select fb) order_by limit) body)
fill_tree-Refines fb (clause_tree c) =
    select_Refines fb (fill_select_clause (reset_structural stmt_select fb) c) (refl, refl)
fill_tree-Refines fb (delete_tree w l o) = inr (refl, (refl, tt))
fill_tree-Refines fb (update_tree w l o) = inr (refl, (refl, tt))
fill_tree-Refines fb (insert_tree c rows) = inr (refl, (refl, tt))
fill_tree-Refines fb other_tree = inl refl

with_trees-Refines :
    (fb : Statement) (trees : Option (List (Option Tree))) → Refines fb (with_trees fb trees)
unfolding Refines
with_trees-Refines fb none = inl refl
with_trees-Refines fb (some []) = inl refl
with_trees-Refines fb (some (none ∷ trees)) = inl refl
with_trees-Refines fb (some (some tree ∷ trees)) = fill_tree-Refines fb tree

-- Whatever the grammar answers for a text, the statement of the PostgreSQL parser is the fallback's
-- or is exact, and then agrees with the fallback's in the facts of the text, and, of a SELECT,
-- has its WHERE and its LIMIT.
pub parse_postgres-Refines :
    (grammar : Grammar) (fallback : Bytes → Option Statement) (sql : Bytes)
    → Refines (baseline sql (fallback sql)) (parse_postgres grammar fallback sql)
unfolding parse_postgres
parse_postgres-Refines grammar fallback sql =
    with_trees-Refines (baseline sql (fallback sql)) (grammar sql)
