-- ===== src/Parsers/Postgres.antt =====
-- parsers/pgparser/pgparser.go. The grammar is a parameter: for a text, none for an error, or the
-- statements, each none where it has no tree. Of a tree's nodes the types below have what is read.
pub mod Sound
pub mod Arms
use sqlguard.Prelude.{
  ℕ, max, Bool, true, false, not, ◌&&◌, ◌||◌, List, [], ◌∷◌, Option, none, some, Bytes, ℤ, ltb,
}
use sqlguard.Analyzer.Types.{
  Statement, stmt_select, stmt_insert, stmt_update, stmt_delete, dialect_postgres,
}
use sqlguard.Analyzer.Engine.{Parser}
use sqlguard.Parsers.Structure.{
  empty_statement, baseline, reset_structural, keep_fallback_bounds, offset_of, mark_exact,
}

-- The offset of a limit: a numeric literal, by what its `AsInt64` gives, or anything else.
pub data Offset : Type 0 where
  num_val : Option ℤ → Offset
  no_literal : Offset

-- `tree.Limit`; an expression that is present is true.
pub record Limit : Type 0 where
  pub count : Bool
  pub limit_all : Bool
  pub offset : Offset

pub data SelectExpr : Type 0 where
  unqualified_star all_columns_selector other_expr : SelectExpr
  unresolved_name : Bool → SelectExpr

-- `tree.SelectClause`; of a list that is only measured, the length.
pub record SelectClause : Type 0 where
  pub where_clause : Bool
  pub tables : ℕ
  pub distinct : Bool
  pub distinct_on : ℕ
  pub exprs : List SelectExpr

-- `tree.Select`, nil or with its ORDER BY, its limit and its body, and `tree.SelectStatement`.
mutual
  pub data Select : Type 0 where
    nil_select : Select
    select : ℕ → Option Limit → Body → Select

  pub data Body : Type 0 where
    no_body values_clause : Body
    select_clause : SelectClause → Body
    paren_select : Select → Body
    union_clause : Select → Select → Body

unfoldable pub has_row_limit : Option Limit → Bool
has_row_limit none = false
has_row_limit (some lim) = lim.count || lim.limit_all

unfoldable pub offset_value : Option Limit → ℕ
offset_value none = 0
offset_value (some lim) = elim lim.offset [ num_val n ↦ offset_of n | no_literal ↦ 0 ]

abbrev pub is_star : SelectExpr → Bool
is_star unqualified_star = true
is_star all_columns_selector = true
is_star other_expr = false
is_star (unresolved_name star) = star

unfoldable pub has_star : List SelectExpr → Bool
has_star [] = false
has_star (e ∷ exprs) = is_star e || has_star exprs

abbrev is_distinct : SelectClause → Bool
is_distinct c = c.distinct || ltb 0 c.distinct_on

unfoldable pub fill_select_clause : Statement → SelectClause → Statement
unfolding has_star
fill_select_clause st c = record st {
  has_where = c.where_clause;
  has_from = ltb 0 c.tables;
  select_distinct = is_distinct c;
  select_star = st.select_star || has_star c.exprs;
}

-- The ORDER BY, the limit and the offset of a SELECT in parentheses.
abbrev pub merge_paren : Statement → ℕ → Option Limit → Statement
merge_paren st order_by limit = record st {
  has_order_by = st.has_order_by || ltb 0 order_by;
  has_limit = st.has_limit || has_row_limit limit;
  offset_value = max st.offset_value (offset_value limit);
}

-- The facts of an operand, in the statement.
abbrev pub merge_facts : Statement → Statement → Statement
merge_facts st a = record st {
  has_from = st.has_from || a.has_from;
  select_star = st.select_star || a.select_star;
  select_distinct = st.select_distinct || a.select_distinct;
  offset_value = max st.offset_value a.offset_value;
}

abbrev pub arm_start : Option Limit → Statement
arm_start limit = record (empty_statement []) { offset_value = offset_value limit }

unfoldable mutual
  unfolding fill_select_clause has_row_limit offset_value

  pub fill_select_body : Statement → Body → Statement
  fill_select_body st no_body = st
  fill_select_body st values_clause = st
  fill_select_body st (select_clause c) = fill_select_clause st c
  fill_select_body st (paren_select s) = fill_paren st s
  fill_select_body st (union_clause left right) = merge_arm (merge_arm st left) right

  pub fill_paren : Statement → Select → Statement
  fill_paren st nil_select = st
  fill_paren st (select order_by limit body) = fill_select_body (merge_paren st order_by limit) body

  pub merge_arm : Statement → Select → Statement
  merge_arm st nil_select = st
  merge_arm st (select order_by limit body) =
      merge_facts st (fill_select_body (arm_start limit) body)

-- The statements that the parser tells apart; a DELETE and an UPDATE by their WHERE, their limit and
-- the length of their ORDER BY, an INSERT by the number of its columns and its rows.
pub data Tree : Type 0 where
  select_tree : ℕ → Option Limit → Body → Tree
  clause_tree : SelectClause → Tree
  delete_tree update_tree : Bool → Option Limit → ℕ → Tree
  insert_tree : ℕ → Select → Tree
  other_tree : Tree

unfoldable pub default_values : Select → Bool
default_values nil_select = true
default_values (select order_by limit no_body) = true
default_values (select order_by limit body) = false

abbrev body_of : Select → Body
body_of nil_select = no_body
body_of (select order_by limit body) = body

-- What a DELETE and an UPDATE set.
abbrev pub fill_change : Statement → Bool → Option Limit → ℕ → Statement
fill_change st where_clause limit order_by = record st {
  has_where = where_clause;
  has_limit = has_row_limit limit;
  has_order_by = ltb 0 order_by;
  offset_value = offset_value limit;
}

abbrev pub fill_insert : Statement → ℕ → Select → Statement
fill_insert st columns rows = record st {
  insert_columns_listed = ltb 0 columns || default_values rows;
  select_star =
      not (default_values rows)
      && (fill_select_body (empty_statement []) (body_of rows)).select_star;
}

abbrev pub select_start : Statement → ℕ → Option Limit → Statement
select_start st order_by limit = record st {
  has_order_by = ltb 0 order_by;
  has_limit = has_row_limit limit;
  offset_value = offset_value limit;
}

abbrev pub fill_select : Statement → ℕ → Option Limit → Body → Statement
fill_select st order_by limit body = fill_select_body (select_start st order_by limit) body

-- The switch over the tree of the first statement.
unfoldable pub fill_tree : Statement → Tree → Statement
unfolding reset_structural keep_fallback_bounds has_row_limit offset_value default_values
    fill_select_clause fill_select_body
fill_tree st (select_tree order_by limit body) =
    mark_exact
      (keep_fallback_bounds (fill_select (reset_structural stmt_select st) order_by limit body) st)
fill_tree st (clause_tree c) =
    mark_exact (keep_fallback_bounds (fill_select_clause (reset_structural stmt_select st) c) st)
fill_tree st (delete_tree where_clause limit order_by) =
    mark_exact (fill_change (reset_structural stmt_delete st) where_clause limit order_by)
fill_tree st (update_tree where_clause limit order_by) =
    mark_exact (fill_change (reset_structural stmt_update st) where_clause limit order_by)
fill_tree st (insert_tree columns rows) =
    mark_exact (fill_insert (reset_structural stmt_insert st) columns rows)
fill_tree st other_tree = st

abbrev pub Grammar : Type 0
Grammar = Bytes → Option (List (Option Tree))

abbrev pub with_trees : Statement → Option (List (Option Tree)) → Statement
with_trees st (some (some tree ∷ _)) = fill_tree st tree
with_trees st _ = st

-- `Parse`, which never fails.
unfoldable pub parse_postgres : Grammar → (Bytes → Option Statement) → Bytes → Statement
unfolding baseline fill_tree
parse_postgres grammar fallback sql = with_trees (baseline sql (fallback sql)) (grammar sql)

-- `New`, as a parser of the analyzer.
abbrev pub postgres_parser : Grammar → (Bytes → Statement) → Parser
postgres_parser grammar fallback = record {
  parse = λ sql. some (parse_postgres grammar (λ s. some (fallback s)) sql);
  own_dialect = some dialect_postgres;
}
