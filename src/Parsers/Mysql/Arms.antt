-- ===== src/Parsers/Mysql/Arms.antt =====
-- `fillSelect` against the SELECTs of a set operation, in order.
use sqlguard.Prelude.{
  ℕ, ltb, max, ◌≡◌, refl, sym, ap, ◌∙◌, Bool, true, false, ◌||◌, List, [], ◌∷◌, ◌++◌, Option, none,
  some,
}
use sqlguard.Analyzer.Types.{Statement}
use sqlguard.Parsers.Operands.{
  any_among, largest_among, or_false, max_zero, max_assoc, max-largest_among, or_any_among,
  with_facts,
}
use sqlguard.Parsers.Mysql.{
  Limit, has_row_limit, Select, SelectStatement, nil_statement, select, paren_select, union,
  fill_top, fill_top_union, merge_offset, merge_select, fill_select, has_real_from, has_star,
  is_distinct, offset_value,
}

-- The SELECTs that a statement combines, and the limits that it has, its own included.
unfoldable pub selects : SelectStatement → List Select
selects nil_statement = []
selects (select s) = s ∷ []
selects (paren_select s) = selects s
selects (union limit order_by left right) = selects left ++ selects right

unfoldable pub limits : SelectStatement → List (Option Limit)
limits nil_statement = []
limits (select s) = s.limit ∷ []
limits (paren_select s) = limits s
limits (union limit order_by left right) = limit ∷ (limits left ++ limits right)

-- A limit that has a number of rows.
unfoldable pub bounds_rows : Option Limit → Bool
bounds_rows none = false
bounds_rows (some limit) = limit.rowcount

-- The statement with the WHERE, the LIMIT and the ORDER BY of its outermost SELECT, or the LIMIT and
-- the ORDER BY of its outermost set operation, parentheses aside.
unfoldable pub outermost : Statement → SelectStatement → Statement
unfolding bounds_rows
outermost st nil_statement = st
outermost st (select s) = record st {
  has_where = s.where_clause;
  has_limit = bounds_rows s.limit;
  has_order_by = ltb 0 s.order_by;
}
outermost st (paren_select s) = outermost st s
outermost st (union limit order_by left right) = record st {
  has_limit = bounds_rows limit;
  has_order_by = ltb 0 order_by;
}

bounds_rows_lem : (limit : Option Limit) → has_row_limit limit ≡ bounds_rows limit
unfolding has_row_limit bounds_rows
bounds_rows_lem none = refl
bounds_rows_lem (some limit) = refl

outermost_select : (st : Statement) (s : Select) → fill_top true st s ≡ outermost st (select s)
unfolding outermost
outermost_select st s =
    ap
      (λ b. record st {
        has_where = s.where_clause;
        has_limit = b;
        has_order_by = ltb 0 s.order_by;
      })
      (bounds_rows_lem s.limit)

outermost_union :
    (st : Statement) (limit : Option Limit) (order_by : ℕ) (left right : SelectStatement)
    → fill_top_union true st limit order_by ≡ outermost st (union limit order_by left right)
unfolding outermost
outermost_union st limit order_by left right =
    ap (λ b. record st { has_limit = b; has_order_by = ltb 0 order_by }) (bounds_rows_lem limit)

abbrev pub gathered : Statement → SelectStatement → Statement
gathered st s =
    with_facts st (any_among (λ c. has_real_from c.from) (selects s))
      (any_among (λ c. is_distinct c) (selects s)) (any_among (λ c. has_star c.stars) (selects s))
      (largest_among offset_value (limits s))

gathered_nil : (st : Statement) → gathered st nil_statement ≡ st
unfolding selects limits
gathered_nil st = λ i. record st {
  has_from = or_false st.has_from i;
  select_distinct = or_false st.select_distinct i;
  select_star = or_false st.select_star i;
  offset_value = max_zero st.offset_value i;
}

gathered_select : (st : Statement) (s : Select) → gathered st (select s) ≡ merge_select st s
unfolding selects limits
gathered_select st s = λ i. record st {
  has_from = st.has_from || or_false (has_real_from s.from) i;
  select_distinct = st.select_distinct || or_false (is_distinct s) i;
  select_star = st.select_star || or_false (has_star s.stars) i;
  offset_value = max st.offset_value (max_zero (offset_value s.limit) i);
}

gathered_union :
    (st : Statement) (limit : Option Limit) (order_by : ℕ) (left right : SelectStatement)
    → gathered (gathered (merge_offset st limit) left) right
      ≡ gathered st (union limit order_by left right)
unfolding selects limits
gathered_union st limit order_by left right = λ i. record st {
  has_from =
      or_any_among st.has_from (λ (c : Select). has_real_from c.from) (selects left) (selects right)
        i;
  select_distinct =
      or_any_among st.select_distinct (λ (c : Select). is_distinct c) (selects left) (selects right)
        i;
  select_star =
      or_any_among st.select_star (λ (c : Select). has_star c.stars) (selects left) (selects right)
        i;
  offset_value =
      (max-largest_among (max st.offset_value (offset_value limit)) offset_value (limits left)
            (limits right)
          ∙ max_assoc st.offset_value (offset_value limit)
              (largest_among offset_value (limits left ++ limits right)))
        i;
}

fill_select_operand :
    (st : Statement) (s : SelectStatement) → fill_select st s false ≡ gathered st s
unfolding fill_select selects limits
fill_select_operand st nil_statement = sym (gathered_nil st)
fill_select_operand st (select s) = sym (gathered_select st s)
fill_select_operand st (paren_select s) = fill_select_operand st s
fill_select_operand st (union limit order_by left right) =
    fill_select_operand (fill_select (merge_offset st limit) left false) right
    ∙ ap (λ a. gathered a right) (fill_select_operand (merge_offset st limit) left)
    ∙ gathered_union st limit order_by left right

-- `fillSelect` at the top gives a statement the WHERE, LIMIT and ORDER BY of its outermost SELECT or
-- set operation, and the FROM, DISTINCT and star of any SELECT within, with the largest offset.
pub fill_select-outermost :
    (st : Statement) (s : SelectStatement) → fill_select st s true ≡ gathered (outermost st s) s
unfolding fill_select outermost selects limits
fill_select-outermost st nil_statement = sym (gathered_nil st)
fill_select-outermost st (select s) =
    sym (gathered_select (fill_top true st s) s)
    ∙ ap (λ a. gathered a (select s)) (outermost_select st s)
fill_select-outermost st (paren_select s) = fill_select-outermost st s
fill_select-outermost st (union limit order_by left right) =
    fill_select_operand (fill_top_union true st limit order_by) (union limit order_by left right)
    ∙ ap (λ a. gathered a (union limit order_by left right))
        (outermost_union st limit order_by left right)
