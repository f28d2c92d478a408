-- ===== src/Parsers/Mysql/Sound.antt =====
-- What the facts of a tree leave alone.
use sqlguard.Prelude.{refl, inl, inr, Bool, true, false, Option, none, some, Bytes}
use sqlguard.Analyzer.Types.{Statement, stmt_select}
use sqlguard.Parsers.Structure.{baseline, reset_structural}
use sqlguard.Parsers.Contract.{Refines, Framed, text_facts, select_Refines, Framed-trans}
use sqlguard.Parsers.Mysql.{
  SelectStatement, nil_statement, select, paren_select, union, fill_top_union, merge_offset,
  fill_select, Tree, select_tree, union_tree, delete_tree, update_tree, insert_tree, other_tree,
  Grammar, with_tree, fill_tree, parse_mysql,
}

pub fill_select-Framed :
    (st : Statement) (s : SelectStatement) (top : Bool) → Framed (fill_select st s top) st
unfolding fill_select Framed text_facts reset_structural
fill_select-Framed st nil_statement top = (refl, refl)
fill_select-Framed st (select s) true = (refl, refl)
fill_select-Framed st (select s) false = (refl, refl)
fill_select-Framed st (paren_select s) top = fill_select-Framed st s top
fill_select-Framed st (union limit order_by left right) true =
    let start = merge_offset (fill_top_union true st limit order_by) limit in
    Framed-trans (fill_select (fill_select start left false) right false)
      (fill_select start left false) st
      (fill_select-Framed (fill_select start left false) right false)
      (fill_select-Framed start left false)
fill_select-Framed st (union limit order_by left right) false =
    let start = merge_offset st limit in
    Framed-trans (fill_select (fill_select start left false) right false)
      (fill_select start left false) st
      (fill_select-Framed (fill_select start left false) right false)
      (fill_select-Framed start left false)

fill_tree-Refines : (fb : Statement) (tree : Tree) → Refines fb (fill_tree fb tree)
unfolding fill_tree Refines Framed text_facts reset_structural
fill_tree-Refines fb (select_tree s) =
    select_Refines fb (fill_select (reset_structural stmt_select fb) (select s) true)
      (fill_select-Framed (reset_structural stmt_select fb) (select s) true)
fill_tree-Refines fb (union_tree limit order_by left right) =
    select_Refines fb
      (fill_select (reset_structural stmt_select fb) (union limit order_by left right) true)
      (fill_select-Framed (reset_structural stmt_select fb) (union limit order_by left right) true)
fill_tree-Refines fb (delete_tree w l o) = inr (refl, (refl, tt))
fill_tree-Refines fb (update_tree w l o) = inr (refl, (refl, tt))
fill_tree-Refines fb (insert_tree c rows) = inr (refl, (refl, tt))
fill_tree-Refines fb other_tree = inl refl

with_tree-Refines : (fb : Statement) (tree : Option Tree) → Refines fb (with_tree fb tree)
unfolding Refines
with_tree-Refines fb none = inl refl
with_tree-Refines fb (some tree) = fill_tree-Refines fb tree

-- Whatever the grammar answers for a text, the statement of the MySQL parser is the fallback's or is
-- exact, and then agrees with the fallback's in the facts of the text, and, of a SELECT, has its
-- WHERE and its LIMIT.
pub parse_mysql-Refines :
    (grammar : Grammar) (fallback : Bytes → Option Statement) (sql : Bytes)
    → Refines (baseline sql (fallback sql)) (parse_mysql grammar fallback sql)
unfolding parse_mysql
parse_mysql-Refines grammar fallback sql =
    with_tree-Refines (baseline sql (fallback sql)) (grammar sql)
