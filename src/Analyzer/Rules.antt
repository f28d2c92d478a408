-- ===== src/Analyzer/Rules.antt =====
-- The rules of analyzer/rules.go. A rule returns a result, or none where the source returns false.
use sqlguard.Prelude.{
  ℕ, Bool, true, false, not, ◌&&◌, [], Option, none, some, Bytes, codes, ℤ, pos, negsuc, ltb, leb,
  if◌then◌else◌,
}
use sqlguard.Analyzer.Types.{
  info, StmtKind, stmt_select, stmt_insert, stmt_update, stmt_delete, Statement, Message, text,
  in_list_message, offset_message, Result,
}

abbrev pub Rule : Type 0
Rule = Statement → Option Result

abbrev pub is_select : StmtKind → Bool
is_select stmt_select = true
is_select _ = false

abbrev pub is_insert : StmtKind → Bool
is_insert stmt_insert = true
is_insert _ = false

abbrev pub is_update : StmtKind → Bool
is_update stmt_update = true
is_update _ = false

abbrev pub is_delete : StmtKind → Bool
is_delete stmt_delete = true
is_delete _ = false

-- The composite literal that the rules return: the fields it leaves out are zero values.
unfoldable pub finding : Statement → Bytes → Message → Bytes → Result
finding s name message suggestion = record {
  rule_name = name;
  severity = info;
  query = s.raw;
  fingerprint = [];
  message = message;
  suggestion = suggestion;
  file = [];
  line = 0;
}

unfoldable pub check_select_star : Rule
unfolding finding
check_select_star s =
    if s.select_star
    then some (
        finding s (codes "select-star")
          (text (codes "SELECT * detected. Selecting all columns can hurt performance."))
          (codes "Select only the columns you need."))
    else none

unfoldable pub check_delete_without_where : Rule
unfolding finding
check_delete_without_where s =
    if is_delete s.kind && not s.has_where
    then some (
        finding s (codes "delete-without-where")
          (text (codes "DELETE without WHERE clause detected. This will delete all rows."))
          (codes "Add a WHERE clause to limit the scope of the delete."))
    else none

unfoldable pub check_update_without_where : Rule
unfolding finding
check_update_without_where s =
    if is_update s.kind && not s.has_where
    then some (
        finding s (codes "update-without-where")
          (text (codes "UPDATE without WHERE clause detected. This will update all rows."))
          (codes "Add a WHERE clause to limit the scope of the update."))
    else none

unfoldable pub check_insert_without_columns : Rule
unfolding finding
check_insert_without_columns s =
    if is_insert s.kind && not s.insert_columns_listed
    then some (
        finding s (codes "insert-without-columns")
          (text (
            codes
              "Row-inserting statement without an explicit column list. This breaks if table schema changes."))
          (codes "Specify columns explicitly: INSERT INTO table (col1, col2) VALUES (...)."))
    else none

unfoldable pub check_select_without_limit : Rule
unfolding finding
check_select_without_limit s =
    if is_select s.kind && s.has_from && not s.has_limit && not s.has_where
    then some (
        finding s (codes "select-without-limit")
          (text (codes "SELECT without LIMIT or WHERE clause. May return excessive rows."))
          (codes "Add a LIMIT clause or WHERE filter to restrict results."))
    else none

unfoldable pub check_non_sargable_predicate : Rule
unfolding finding
check_non_sargable_predicate s =
    if s.non_sargable_predicate
    then some (
        finding s (codes "non-sargable-predicate")
          (text (codes "Function applied to a column in WHERE prevents index use."))
          (codes "Compare the bare column instead, or add a matching expression/function index."))
    else none

unfoldable pub check_add_not_null_without_default : Rule
unfolding finding
check_add_not_null_without_default s =
    if s.add_not_null_no_default
    then some (
        finding s (codes "add-not-null-without-default")
          (text (
            codes
              "ADD COLUMN ... NOT NULL without DEFAULT fails or rewrites the table on a populated table."))
          (codes
            "Add a DEFAULT, or split into: add the column nullable, backfill, then SET NOT NULL."))
    else none

unfoldable pub check_select_distinct : Rule
unfolding finding
check_select_distinct s =
    if s.select_distinct
    then some (
        finding s (codes "select-distinct")
          (text (
            codes
              "SELECT DISTINCT detected. It often masks duplicate rows from an unintended join."))
          (codes
            "Confirm the duplicates aren't a join fan-out; prefer fixing the join or using EXISTS/GROUP BY."))
    else none

unfoldable pub check_cartesian_join : Rule
unfolding finding
check_cartesian_join s =
    if s.cartesian_join
    then some (
        finding s (codes "cartesian-join")
          (text (
            codes
              "Cartesian product: multiple tables joined with no join condition or WHERE filter."))
          (codes "Add a JOIN ... ON condition (or a WHERE clause relating the tables)."))
    else none

unfoldable pub check_implicit_join : Rule
unfolding finding
check_implicit_join s =
    if s.implicit_comma_join
    then some (
        finding s (codes "implicit-join")
          (text (
            codes
              "Implicit comma join in FROM. A missing join condition silently becomes a cartesian product."))
          (codes "Use explicit JOIN ... ON syntax."))
    else none

unfoldable pub check_order_by_without_limit : Rule
unfolding finding
check_order_by_without_limit s =
    if s.has_order_by && not s.has_limit
    then some (
        finding s (codes "orderby-without-limit")
          (text (codes "ORDER BY without LIMIT sorts the entire result set."))
          (codes "Add a LIMIT clause if you only need a subset of rows."))
    else none

-- `0 < z < n` and so on, for an `int` bound and a count.
abbrev pub below_minimum : ℤ → ℕ → Bool
below_minimum (pos k) n = ltb 0 k && ltb 0 n && ltb n k
below_minimum (negsuc k) n = false

-- `n <= z`.
abbrev pub at_most : ℕ → ℤ → Bool
at_most n (pos k) = leb n k
at_most n (negsuc k) = false

unfoldable pub leading_wildcard_rule : ℤ → Rule
unfolding finding
leading_wildcard_rule min_len s =
    if not s.leading_wildcard_like
    then none
    else if below_minimum min_len s.leading_wildcard_term_len
    then none
    else some (
        finding s (codes "leading-wildcard")
          (text (codes "LIKE with leading wildcard detected. Index cannot be used."))
          (codes "Use prefix search or a full-text index."))

unfoldable pub in_list_rule : ℤ → Rule
unfolding finding
in_list_rule max_len s =
    if at_most s.max_in_list_len max_len
    then none
    else some (
        finding s (codes "in-list-too-large") (in_list_message s.max_in_list_len max_len) (
          codes
            "Use a JOIN against a temp table / VALUES list, or a parameterized array such as = ANY($1)."))

unfoldable pub large_offset_rule : ℤ → Rule
unfolding finding
large_offset_rule threshold s =
    if at_most s.offset_value threshold
    then none
    else some (
        finding s (codes "large-offset") (offset_message s.offset_value threshold)
          (codes "Use keyset (cursor) pagination: WHERE id > $last ORDER BY id LIMIT n."))
