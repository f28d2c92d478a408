-- ===== src/Parsers/Structure.antt =====
-- What parsers/pgparser/pgparser.go and parsers/mysqlparser/mysqlparser.go, which hold a copy each,
-- do to the fallback's statement.
use sqlguard.Prelude.{ℕ, true, false, ◌||◌, Option, none, some, Bytes, ℤ, pos, negsuc}
use sqlguard.Analyzer.Types.{Statement, StmtKind, stmt_unknown}

-- The zero value of a statement, but for its text.
abbrev pub empty_statement : Bytes → Statement
empty_statement sql = record {
  raw = sql;
  kind = stmt_unknown;
  has_where = false;
  has_limit = false;
  has_order_by = false;
  has_from = false;
  select_star = false;
  select_distinct = false;
  insert_columns_listed = false;
  leading_wildcard_like = false;
  non_sargable_predicate = false;
  add_not_null_no_default = false;
  implicit_comma_join = false;
  cartesian_join = false;
  max_in_list_len = 0;
  offset_value = 0;
  leading_wildcard_term_len = 0;
  exact = false;
}

-- The fallback's statement, which stands in where it is nil.
unfoldable pub baseline : Bytes → Option Statement → Statement
baseline sql none = empty_statement sql
baseline sql (some st) = st

-- The fields that are read off a syntax tree, cleared, under the kind of its statement.
unfoldable pub reset_structural : StmtKind → Statement → Statement
reset_structural kind st = record st {
  kind = kind;
  has_where = false;
  has_limit = false;
  has_order_by = false;
  has_from = false;
  select_star = false;
  select_distinct = false;
  offset_value = 0;
  insert_columns_listed = false;
}

unfoldable pub keep_fallback_bounds : Statement → Statement → Statement
keep_fallback_bounds st fb = record st {
  has_where = st.has_where || fb.has_where;
  has_limit = st.has_limit || fb.has_limit;
}

-- A number that is an offset: 0 for none and for a negative one.
abbrev pub offset_of : Option ℤ → ℕ
offset_of none = 0
offset_of (some (pos n)) = n
offset_of (some (negsuc n)) = 0

abbrev pub mark_exact : Statement → Statement
mark_exact st = record st { exact = true }
