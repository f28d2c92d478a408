-- ===== src/Parsers/Postgres/Arms.antt =====
-- `fillSelectBody` against the SELECT clauses of a body, in order.
use sqlguard.Prelude.{max, ◌≡◌, refl, sym, ap, ◌∙◌, false, ◌||◌, List, [], ◌∷◌, ◌++◌, Option, ltb}
use sqlguard.Analyzer.Types.{Statement}
use sqlguard.Parsers.Operands.{
  any_among, largest_among, or_any_among, max-largest_among, or_false, max_zero, max_assoc,
}
use sqlguard.Parsers.Postgres.{
  Limit, SelectClause, Select, nil_select, select, Body, no_body, values_clause, select_clause,
  paren_select, union_clause, fill_select_body, fill_paren, merge_arm, merge_paren, arm_start,
  fill_select_clause, has_star, is_distinct, offset_value,
}

-- The SELECT clauses that a body combines, and the limits within it.
unfoldable mutual
  pub clauses : Body → List SelectClause
  clauses no_body = []
  clauses values_clause = []
  clauses (select_clause c) = c ∷ []
  clauses (paren_select s) = clauses_in s
  clauses (union_clause left right) = clauses_in left ++ clauses_in right

  pub clauses_in : Select → List SelectClause
  clauses_in nil_select = []
  clauses_in (select order_by limit body) = clauses body

unfoldable mutual
  pub limits : Body → List (Option Limit)
  limits no_body = []
  limits values_clause = []
  limits (select_clause c) = []
  limits (paren_select s) = limits_in s
  limits (union_clause left right) = limits_in left ++ limits_in right

  pub limits_in : Select → List (Option Limit)
  limits_in nil_select = []
  limits_in (select order_by limit body) = limit ∷ limits body

-- The second statement has the facts of the first, of the clauses and of the limits.
unfoldable pub Gathers : Statement → List SelectClause → List (Option Limit) → Statement → Type 0
Gathers st cs ls after =
    (after.has_from ≡ st.has_from || any_among (λ (c : SelectClause). ltb 0 c.tables) cs)
    × ((after.select_distinct
          ≡ st.select_distinct || any_among (λ (c : SelectClause). is_distinct c) cs)
        × ((after.select_star
              ≡ st.select_star || any_among (λ (c : SelectClause). has_star c.exprs) cs)
            × (after.offset_value ≡ max st.offset_value (largest_among offset_value ls))))

Gathers-nothing : (st : Statement) → Gathers st [] [] st
unfolding Gathers
Gathers-nothing st = (
  sym (or_false st.has_from),
  (
    sym (or_false st.select_distinct),
    (sym (or_false st.select_star), sym (max_zero st.offset_value)),
  ),
)

Gathers-append :
    (st mid after : Statement) (cs cs' : List SelectClause) (ls ls' : List (Option Limit))
    → Gathers st cs ls mid
    → Gathers mid cs' ls' after
    → Gathers st (cs ++ cs') (ls ++ ls') after
unfolding Gathers
Gathers-append st mid after cs cs' ls ls' (f, (d, (s, o))) (f', (d', (s', o'))) = (
  f'
      ∙ ap (λ b. b || any_among (λ (c : SelectClause). ltb 0 c.tables) cs') f
      ∙ or_any_among st.has_from (λ (c : SelectClause). ltb 0 c.tables) cs cs',
  (
    d'
        ∙ ap (λ b. b || any_among (λ (c : SelectClause). is_distinct c) cs') d
        ∙ or_any_among st.select_distinct (λ (c : SelectClause). is_distinct c) cs cs',
    (
      s'
          ∙ ap (λ b. b || any_among (λ (c : SelectClause). has_star c.exprs) cs') s
          ∙ or_any_among st.select_star (λ (c : SelectClause). has_star c.exprs) cs cs',
      o'
          ∙ ap (λ n. max n (largest_among offset_value ls')) o
          ∙ max-largest_among st.offset_value offset_value ls ls',
    ),
  ),
)

Gathers-fill_select_clause :
    (st : Statement) (c : SelectClause)
    → st.has_from ≡ false
    → st.select_distinct ≡ false
    → Gathers st (c ∷ []) [] (fill_select_clause st c)
unfolding Gathers fill_select_clause
Gathers-fill_select_clause st c f d = (
  sym (ap (λ b. b || (ltb 0 c.tables || false)) f ∙ or_false (ltb 0 c.tables)),
  (
    sym (ap (λ b. b || (is_distinct c || false)) d ∙ or_false (is_distinct c)),
    (
      ap (λ b. st.select_star || b) (sym (or_false (has_star c.exprs))),
      sym (max_zero st.offset_value),
    ),
  ),
)

mutual
  unfolding fill_select_body fill_paren merge_arm fill_select_clause clauses clauses_in limits
      limits_in Gathers

  body-Gathers :
      (st : Statement) (body : Body)
      → st.has_from ≡ false
      → st.select_distinct ≡ false
      → Gathers st (clauses body) (limits body) (fill_select_body st body)
  body-Gathers st no_body f d = Gathers-nothing st
  body-Gathers st values_clause f d = Gathers-nothing st
  body-Gathers st (select_clause c) f d = Gathers-fill_select_clause st c f d
  body-Gathers st (paren_select s) f d = paren-Gathers st s f d
  body-Gathers st (union_clause left right) f d =
      Gathers-append st (merge_arm st left) (merge_arm (merge_arm st left) right) (clauses_in left)
        (clauses_in right) (limits_in left) (limits_in right) (arm-Gathers st left)
        (arm-Gathers (merge_arm st left) right)

  paren-Gathers :
      (st : Statement) (s : Select)
      → st.has_from ≡ false
      → st.select_distinct ≡ false
      → Gathers st (clauses_in s) (limits_in s) (fill_paren st s)
  paren-Gathers st nil_select f d = Gathers-nothing st
  paren-Gathers st (select order_by limit body) f d =
      let (f', (d', (s', o'))) = body-Gathers (merge_paren st order_by limit) body f d in
      (
        f',
        (
          d',
          (
            s',
            o'
                ∙ max_assoc st.offset_value (offset_value limit)
                    (largest_among offset_value (limits body)),
          ),
        ),
      )

  arm-Gathers :
      (st : Statement) (s : Select) → Gathers st (clauses_in s) (limits_in s) (merge_arm st s)
  arm-Gathers st nil_select = Gathers-nothing st
  arm-Gathers st (select order_by limit body) =
      let (f', (d', (s', o'))) = body-Gathers (arm_start limit) body refl refl in
      (
        ap (λ b. st.has_from || b) f',
        (
          ap (λ b. st.select_distinct || b) d',
          (ap (λ b. st.select_star || b) s', ap (λ n. max st.offset_value n) o'),
        ),
      )

-- `fillSelectBody` on a statement without a FROM and a DISTINCT gives it the FROM, the DISTINCT and
-- the star of any SELECT clause of the body, in parentheses and operands too, and the largest of
-- its own offset and those within.
pub fill_select_body-Gathers :
    (st : Statement) (body : Body)
    → st.has_from ≡ false
    → st.select_distinct ≡ false
    → Gathers st (clauses body) (limits body) (fill_select_body st body)
fill_select_body-Gathers st body f d = body-Gathers st body f d
