-- ===== src/Parsers/Contract.antt =====
-- What a dialect parser may do to the fallback's statement.
use sqlguard.Prelude.{◌≡◌, refl, sym, subst, ◌⊎◌, inr, Bool, true, false, ◌||◌, ◌∙◌}
use sqlguard.Analyzer.Types.{Statement, StmtKind, stmt_select, stmt_other}
use sqlguard.Parsers.Structure.{reset_structural, keep_fallback_bounds, mark_exact}

-- A statement with the facts of its text alone: the facts that a tree gives are cleared.
unfoldable pub text_facts : Statement → Statement
text_facts st = record {
  raw = st.raw;
  kind = stmt_other;
  has_where = false;
  has_limit = false;
  has_order_by = false;
  has_from = false;
  select_star = false;
  select_distinct = false;
  insert_columns_listed = false;
  leading_wildcard_like = st.leading_wildcard_like;
  non_sargable_predicate = st.non_sargable_predicate;
  add_not_null_no_default = st.add_not_null_no_default;
  implicit_comma_join = st.implicit_comma_join;
  cartesian_join = st.cartesian_join;
  max_in_list_len = st.max_in_list_len;
  offset_value = 0;
  leading_wildcard_term_len = st.leading_wildcard_term_len;
  exact = false;
}

-- A SELECT has the WHERE and the LIMIT of another statement, where that one has them.
abbrev pub Bounds : StmtKind → Statement → Statement → Type 0
Bounds stmt_select fb st =
    (st.has_where || fb.has_where ≡ st.has_where) × (st.has_limit || fb.has_limit ≡ st.has_limit)
Bounds _ fb st = Unit

unfoldable pub Refines : Statement → Statement → Type 0
unfolding text_facts
Refines fb st =
    (st ≡ fb) ⊎ ((st.exact ≡ true) × ((text_facts st ≡ text_facts fb) × Bounds st.kind fb st))

-- The same kind and the same text.
unfoldable pub Framed : Statement → Statement → Type 0
unfolding text_facts
Framed a b = (a.kind ≡ b.kind) × (text_facts a ≡ text_facts b)

or_twice : (a b : Bool) → (a || b) || b ≡ a || b
or_twice true true = refl
or_twice true false = refl
or_twice false true = refl
or_twice false false = refl

pub Framed-trans : (a b c : Statement) → Framed a b → Framed b c → Framed a c
unfolding Framed
Framed-trans a b c (k, t) (k', t') = (k ∙ k', t ∙ t')

-- What the branches of the SELECTs do behind their facts.
pub select_Refines :
    (fb st : Statement)
    → Framed st (reset_structural stmt_select fb)
    → Refines fb (mark_exact (keep_fallback_bounds st fb))
unfolding Refines Framed text_facts reset_structural keep_fallback_bounds
select_Refines fb st (k, t) = inr (
  refl,
  (
    t,
    subst (λ k. Bounds k fb (mark_exact (keep_fallback_bounds st fb))) (sym k)
        (or_twice st.has_where fb.has_where, or_twice st.has_limit fb.has_limit),
  ),
)
