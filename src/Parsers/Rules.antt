-- ===== src/Parsers/Rules.antt =====
-- The rules of analyzer/rules.go on the statements of the dialect parsers.
use sqlguard.Prelude.{
  ◌≡◌, refl, ◌∙◌, inl, inr, Bool, true, ◌||◌, List, [], ◌∷◌, Option, none, Bytes, ℤ, All, arith, ap,
}
use sqlguard.Analyzer.Types.{
  Statement, StmtKind, stmt_unknown, stmt_select, stmt_insert, stmt_update, stmt_delete, stmt_other,
}
use sqlguard.Analyzer.Rules.{
  Rule, check_non_sargable_predicate, check_add_not_null_without_default, check_implicit_join,
  check_cartesian_join, check_select_without_limit, leading_wildcard_rule, in_list_rule,
}
use sqlguard.Parsers.Structure.{baseline}
use sqlguard.Parsers.Contract.{Refines, text_facts, Bounds}
use sqlguard.Parsers.Postgres as Pg
use sqlguard.Parsers.Postgres.Sound.{parse_postgres-Refines}
use sqlguard.Parsers.Mysql as My
use sqlguard.Parsers.Mysql.Sound.{parse_mysql-Refines}

-- The rules that read the facts of the text alone.
unfoldable pub text_rules : ℤ → ℤ → List Rule
text_rules min_len max_len =
    check_non_sargable_predicate
    ∷ check_add_not_null_without_default
    ∷ check_implicit_join
    ∷ check_cartesian_join
    ∷ leading_wildcard_rule min_len
    ∷ in_list_rule max_len
    ∷ []

-- A rule answers alike on two statements.
abbrev pub Agrees : Statement → Statement → Rule → Type 0
Agrees fb st rule = rule st ≡ rule fb

text_rules-Agrees :
    (min_len max_len : ℤ) (fb st : Statement)
    → text_facts st ≡ text_facts fb
    → All (Agrees fb st) (text_rules min_len max_len)
unfolding text_rules text_facts check_non_sargable_predicate check_add_not_null_without_default
    check_implicit_join check_cartesian_join leading_wildcard_rule in_list_rule
text_rules-Agrees min_len max_len fb st e = (
  ap check_non_sargable_predicate e,
  (
    ap check_add_not_null_without_default e,
    (
      ap check_implicit_join e,
      (
        ap check_cartesian_join e,
        (ap (leading_wildcard_rule min_len) e, (ap (in_list_rule max_len) e, tt)),
      ),
    ),
  ),
)

Refines-Agrees :
    (min_len max_len : ℤ) (fb st : Statement)
    → Refines fb st
    → All (Agrees fb st) (text_rules min_len max_len)
unfolding Refines text_rules
Refines-Agrees min_len max_len fb st (inl e) =
    text_rules-Agrees min_len max_len fb st (ap text_facts e)
Refines-Agrees min_len max_len fb st (inr (x, (t, b))) = text_rules-Agrees min_len max_len fb st t

-- Each rule on the facts of the text answers on the statement of either dialect parser as it does on
-- the fallback's, whatever the grammars answer: no finding of these rules is lost or added.
pub dialect_parsers-Agrees :
    (postgres : Pg.Grammar) (mysql : My.Grammar) (fallback : Bytes → Option Statement) (sql : Bytes)
    (min_len max_len : ℤ)
    → All
        (Agrees (baseline sql (fallback sql)) (Pg.parse_postgres postgres fallback sql))
        (text_rules min_len max_len)
      × All
          (Agrees (baseline sql (fallback sql)) (My.parse_mysql mysql fallback sql))
          (text_rules min_len max_len)
dialect_parsers-Agrees postgres mysql fallback sql min_len max_len = (
  Refines-Agrees min_len max_len (baseline sql (fallback sql))
      (Pg.parse_postgres postgres fallback sql) (parse_postgres-Refines postgres fallback sql),
  Refines-Agrees min_len max_len (baseline sql (fallback sql)) (My.parse_mysql mysql fallback sql)
      (parse_mysql-Refines mysql fallback sql),
)

bounded_none :
    (st : Statement) → st.has_where || st.has_limit ≡ true → check_select_without_limit st ≡ none
unfolding check_select_without_limit
bounded_none st h = ground arith

kept_bound : (a b c d : Bool) → a || c ≡ a → b || d ≡ b → c || d ≡ true → a || b ≡ true
kept_bound a b c d w l h = ground arith

kind_none :
    (fb st : Statement) (kind : StmtKind)
    → st.kind ≡ kind
    → Bounds kind fb st
    → fb.has_where || fb.has_limit ≡ true
    → check_select_without_limit st ≡ none
unfolding check_select_without_limit
kind_none fb st stmt_select e (w, l) h =
    bounded_none st (kept_bound st.has_where st.has_limit fb.has_where fb.has_limit w l h)
kind_none fb st stmt_unknown e b h = rw e refl
kind_none fb st stmt_insert e b h = rw e refl
kind_none fb st stmt_update e b h = rw e refl
kind_none fb st stmt_delete e b h = rw e refl
kind_none fb st stmt_other e b h = rw e refl

Refines-bounded_none :
    (fb st : Statement)
    → Refines fb st
    → fb.has_where || fb.has_limit ≡ true
    → check_select_without_limit st ≡ none
unfolding Refines
Refines-bounded_none fb st (inl e) h = ap check_select_without_limit e ∙ bounded_none fb h
Refines-bounded_none fb st (inr (x, (t, b))) h = kind_none fb st st.kind refl b h

-- Where the fallback finds a WHERE or a LIMIT, in a derived table or an operand as well, the rule on
-- unbounded SELECTs does not fire on the statement of either dialect parser.
pub dialect_parsers_bounded :
    (postgres : Pg.Grammar) (mysql : My.Grammar) (fallback : Bytes → Option Statement) (sql : Bytes)
    → (baseline sql (fallback sql)).has_where || (baseline sql (fallback sql)).has_limit ≡ true
    → (check_select_without_limit (Pg.parse_postgres postgres fallback sql) ≡ none)
      × (check_select_without_limit (My.parse_mysql mysql fallback sql) ≡ none)
dialect_parsers_bounded postgres mysql fallback sql h = (
  Refines-bounded_none (baseline sql (fallback sql)) (Pg.parse_postgres postgres fallback sql)
      (parse_postgres-Refines postgres fallback sql) h,
  Refines-bounded_none (baseline sql (fallback sql)) (My.parse_mysql mysql fallback sql)
      (parse_mysql-Refines mysql fallback sql) h,
)
