-- ===== src/Parsers/Mysql.antt =====
-- parsers/mysqlparser/mysqlparser.go. The grammar is a parameter: for a text, none for an error or
-- for no tree. Of a tree's nodes the types below have what is read.
pub mod Sound
pub mod Arms
use sqlguard.Prelude.{
  ℕ, zero, suc, max, ◌*◌, ◌+◌, ◌-◌, ◌^◌, Bool, true, false, not, ◌&&◌, ◌||◌, List, [], ◌∷◌, Option,
  none, some, Bytes, codes, ℤ, pos, negsuc, ltb, leb, equal, if◌then◌else◌,
}
use sqlguard.Analyzer.Types.{
  Statement, stmt_select, stmt_insert, stmt_update, stmt_delete, dialect_mysql,
}
use sqlguard.Analyzer.Engine.{Parser}
use sqlguard.Analyzer.Lexer.Cases.{to_lower}
use sqlguard.Parsers.Structure.{
  empty_statement, baseline, reset_structural, keep_fallback_bounds, offset_of, mark_exact,
}

-- The offset of a limit: absent, an integer literal by its text, or anything else.
pub data Offset : Type 0 where
  no_offset other_offset : Offset
  int_val : Bytes → Offset

pub record Limit : Type 0 where
  pub rowcount : Bool
  pub offset : Offset

-- A table expression: an aliased table, by its name where it is one, or a join and the like.
pub data TableExpr : Type 0 where
  aliased_table : Option Bytes → TableExpr
  other_table : TableExpr

-- `sqlparser.Select`; a `*` among its expressions is true.
pub record Select : Type 0 where
  pub where_clause : Bool
  pub limit : Option Limit
  pub order_by : ℕ
  pub from : List TableExpr
  pub distinct : Bytes
  pub stars : List Bool

-- `sqlparser.SelectStatement`, nil included.
pub data SelectStatement : Type 0 where
  nil_statement : SelectStatement
  select : Select → SelectStatement
  paren_select : SelectStatement → SelectStatement
  union : Option Limit → ℕ → SelectStatement → SelectStatement → SelectStatement

unfoldable pub has_row_limit : Option Limit → Bool
has_row_limit none = false
has_row_limit (some lim) = lim.rowcount

unfoldable pub has_star : List Bool → Bool
has_star [] = false
has_star (star ∷ stars) = star || has_star stars

-- `strconv.Atoi`, none for an error.
abbrev is_decimal : ℕ → Bool
is_decimal c = leb b'0' c && leb c b'9'

unfoldable pub digits : ℕ → Bytes → Option ℕ
digits n [] = some n
digits n (c ∷ s) = let on = digits (n * 10 + (c - b'0')) s in if is_decimal c then on else none

abbrev magnitude : Bytes → Option ℕ
magnitude [] = none
magnitude (c ∷ s) = digits 0 (c ∷ s)

abbrev to_pos : Option ℕ → Option ℤ
to_pos none = none
to_pos (some n) = if ltb n (2 ^ 63) then some (pos n) else none

abbrev to_neg : Option ℕ → Option ℤ
to_neg none = none
to_neg (some zero) = some (pos 0)
to_neg (some (suc n)) = if ltb n (2 ^ 63) then some (negsuc n) else none

unfoldable pub atoi : Bytes → Option ℤ
unfolding digits equal
atoi [] = none
atoi (c ∷ s) =
    let plus = to_pos (magnitude s) in
    let minus = to_neg (magnitude s) in
    let plain = to_pos (magnitude (c ∷ s)) in
    if equal (c ∷ []) (codes "+") then plus else if equal (c ∷ []) (codes "-") then minus else plain

unfoldable pub offset_value : Option Limit → ℕ
unfolding atoi
offset_value none = 0
offset_value (some lim) = elim lim.offset [
  | no_offset ↦ 0
  | other_offset ↦ 0
  | int_val s ↦ offset_of (atoi s)
]

-- A table that is not `dual`, in any case.
abbrev pub is_real : TableExpr → Bool
is_real other_table = true
is_real (aliased_table none) = true
is_real (aliased_table (some name)) = not (equal (to_lower name) (codes "dual"))

unfoldable pub has_real_from : List TableExpr → Bool
unfolding to_lower equal
has_real_from [] = false
has_real_from (t ∷ from) = is_real t || has_real_from from

-- What only the outermost SELECT sets.
abbrev pub fill_top : Bool → Statement → Select → Statement
fill_top false st s = st
fill_top true st s = record st {
  has_where = s.where_clause;
  has_limit = has_row_limit s.limit;
  has_order_by = ltb 0 s.order_by;
}

abbrev pub fill_top_union : Bool → Statement → Option Limit → ℕ → Statement
fill_top_union false st limit order_by = st
fill_top_union true st limit order_by = record st {
  has_limit = has_row_limit limit;
  has_order_by = ltb 0 order_by;
}

abbrev pub is_distinct : Select → Bool
is_distinct s = not (equal s.distinct [])

abbrev pub merge_select : Statement → Select → Statement
merge_select st s = record st {
  has_from = st.has_from || has_real_from s.from;
  select_distinct = st.select_distinct || is_distinct s;
  select_star = st.select_star || has_star s.stars;
  offset_value = max st.offset_value (offset_value s.limit);
}

abbrev pub merge_offset : Statement → Option Limit → Statement
merge_offset st limit = record st { offset_value = max st.offset_value (offset_value limit) }

unfoldable pub fill_select : Statement → SelectStatement → Bool → Statement
unfolding has_row_limit has_real_from has_star offset_value equal
fill_select st nil_statement top = st
fill_select st (select s) top = merge_select (fill_top top st s) s
fill_select st (paren_select s) top = fill_select st s top
fill_select st (union limit order_by left right) top =
    fill_select (fill_select (merge_offset (fill_top_union top st limit order_by) limit) left false)
      right false

-- The statements that the parser tells apart; a DELETE and an UPDATE by their WHERE, their limit and
-- the length of their ORDER BY, an INSERT by the number of its columns and, where its rows are a
-- SELECT, these.
pub data Tree : Type 0 where
  select_tree : Select → Tree
  union_tree : Option Limit → ℕ → SelectStatement → SelectStatement → Tree
  delete_tree update_tree : Bool → Option Limit → ℕ → Tree
  insert_tree : ℕ → Option SelectStatement → Tree
  other_tree : Tree

abbrev pub fill_change : Statement → Bool → Option Limit → ℕ → Statement
fill_change st where_clause limit order_by = record st {
  has_where = where_clause;
  has_limit = has_row_limit limit;
  has_order_by = ltb 0 order_by;
  offset_value = offset_value limit;
}

unfoldable pub rows_star : Option SelectStatement → Bool
unfolding fill_select
rows_star none = false
rows_star (some rows) = (fill_select (empty_statement []) rows true).select_star

abbrev pub fill_insert : Statement → ℕ → Option SelectStatement → Statement
fill_insert st columns rows = record st {
  insert_columns_listed = ltb 0 columns;
  select_star = rows_star rows;
}

abbrev pub fill_query : Statement → SelectStatement → Statement
fill_query st s =
    mark_exact (keep_fallback_bounds (fill_select (reset_structural stmt_select st) s true) st)

-- The switch over the tree.
unfoldable pub fill_tree : Statement → Tree → Statement
unfolding reset_structural keep_fallback_bounds has_row_limit offset_value fill_select rows_star
fill_tree st (select_tree s) = fill_query st (select s)
fill_tree st (union_tree limit order_by left right) =
    fill_query st (union limit order_by left right)
fill_tree st (delete_tree where_clause limit order_by) =
    mark_exact (fill_change (reset_structural stmt_delete st) where_clause limit order_by)
fill_tree st (update_tree where_clause limit order_by) =
    mark_exact (fill_change (reset_structural stmt_update st) where_clause limit order_by)
fill_tree st (insert_tree columns rows) =
    mark_exact (fill_insert (reset_structural stmt_insert st) columns rows)
fill_tree st other_tree = st

abbrev pub Grammar : Type 0
Grammar = Bytes → Option Tree

abbrev pub with_tree : Statement → Option Tree → Statement
with_tree st none = st
with_tree st (some tree) = fill_tree st tree

-- `Parse`, which never fails.
unfoldable pub parse_mysql : Grammar → (Bytes → Option Statement) → Bytes → Statement
unfolding baseline fill_tree
parse_mysql grammar fallback sql = with_tree (baseline sql (fallback sql)) (grammar sql)

-- `New`, as a parser of the analyzer.
abbrev pub mysql_parser : Grammar → (Bytes → Statement) → Parser
mysql_parser grammar fallback = record {
  parse = λ sql. some (parse_mysql grammar (λ s. some (fallback s)) sql);
  own_dialect = some dialect_mysql;
}
