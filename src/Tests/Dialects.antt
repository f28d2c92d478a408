-- ===== src/Tests/Dialects.antt =====
-- The parsers of one dialect at concrete trees: parsers/.
use sqlguard.Prelude.{
  All, ◌||◌, ◌≡◌, refl, true, false, [], ◌∷◌, Option, none, some, Bytes, codes, pos,
}
use sqlguard.Analyzer.Types.{Statement}
use sqlguard.Analyzer.Fallback.{parse}
use sqlguard.Parsers.Structure.{empty_statement, baseline}
use sqlguard.Parsers.Contract.{Refines}
use sqlguard.Parsers.Postgres as Pg
use sqlguard.Parsers.Postgres.Sound.{parse_postgres-Refines}
use sqlguard.Parsers.Postgres.Arms.{Gathers, clauses, fill_select_body-Gathers}
use sqlguard.Parsers.Postgres.Arms as PgArms
use sqlguard.Parsers.Mysql as My
use sqlguard.Parsers.Rules.{Agrees, text_rules, dialect_parsers-Agrees, dialect_parsers_bounded}
use sqlguard.Analyzer.Rules.{check_select_without_limit}
use sqlguard.Parsers.Mysql.Sound.{parse_mysql-Refines}
use sqlguard.Parsers.Mysql.Arms.{gathered, outermost, fill_select-outermost}

abbrev sql : Bytes
sql = codes "SELECT * FROM a UNION (SELECT DISTINCT b FROM c OFFSET 7)"

abbrev fallback : Bytes → Option Statement
fallback s = some (parse s)

-- The two operands, the second in parentheses with an offset of its own.
abbrev pg_body : Pg.Body
pg_body =
    Pg.union_clause
      (Pg.select 0 none (
        Pg.select_clause (record {
          where_clause = false;
          tables = 1;
          distinct = false;
          distinct_on = 0;
          exprs = Pg.unqualified_star ∷ [];
        })))
      (Pg.select 0 none (
        Pg.paren_select (
          Pg.select 0
            (some (record { count = false; limit_all = false; offset = Pg.num_val (some (pos 7)) }))
            (Pg.select_clause (record {
              where_clause = false;
              tables = 1;
              distinct = true;
              distinct_on = 0;
              exprs = Pg.other_expr ∷ [];
            })))))

abbrev pg_grammar : Pg.Grammar
pg_grammar _ = some (some (Pg.select_tree 0 none pg_body) ∷ [])

pg_offset : (Pg.fill_select_body (empty_statement []) pg_body).offset_value ≡ 7
unfolding Pg.fill_select_body
pg_offset = refl

parse_postgres-Refines_example :
    Refines (baseline sql (fallback sql)) (Pg.parse_postgres pg_grammar fallback sql)
parse_postgres-Refines_example = parse_postgres-Refines pg_grammar fallback sql

fill_select_body-Gathers_example :
    Gathers
      (empty_statement [])
      (clauses pg_body)
      (PgArms.limits pg_body)
      (Pg.fill_select_body (empty_statement []) pg_body)
fill_select_body-Gathers_example = fill_select_body-Gathers (empty_statement []) pg_body refl refl

abbrev left : My.Select
left = record {
  where_clause = false;
  limit = none;
  order_by = 0;
  from = My.aliased_table (some (codes "a")) ∷ [];
  distinct = [];
  stars = true ∷ [];
}

abbrev right : My.Select
right = record {
  where_clause = false;
  limit = some (record { rowcount = true; offset = My.int_val (codes "7") });
  order_by = 0;
  from = My.aliased_table (some (codes "DUAL")) ∷ [];
  distinct = codes "distinct ";
  stars = false ∷ [];
}

abbrev combined : My.SelectStatement
combined = My.union none 0 (My.select left) (My.paren_select (My.select right))

abbrev mysql_grammar : My.Grammar
mysql_grammar _ = some (My.union_tree none 0 (My.select left) (My.paren_select (My.select right)))

mysql_offset : (My.fill_select (empty_statement []) combined true).offset_value ≡ 7
unfolding My.fill_select
mysql_offset = refl

dual : My.has_real_from right.from ≡ false
unfolding My.has_real_from
dual = refl

parse_mysql-Refines_example :
    Refines (baseline sql (fallback sql)) (My.parse_mysql mysql_grammar fallback sql)
parse_mysql-Refines_example = parse_mysql-Refines mysql_grammar fallback sql

fill_select-outermost_example :
    My.fill_select (empty_statement []) combined true
    ≡ gathered (outermost (empty_statement []) combined) combined
fill_select-outermost_example = fill_select-outermost (empty_statement []) combined

dialect_parsers-Agrees_example :
    All
      (Agrees (baseline sql (fallback sql)) (Pg.parse_postgres pg_grammar fallback sql))
      (text_rules (pos 3) (pos 100))
    × All
        (Agrees (baseline sql (fallback sql)) (My.parse_mysql mysql_grammar fallback sql))
        (text_rules (pos 3) (pos 100))
dialect_parsers-Agrees_example =
    dialect_parsers-Agrees pg_grammar mysql_grammar fallback sql (pos 3) (pos 100)

-- The WHERE stands in a derived table.
abbrev derived : Bytes
derived = codes "SELECT a FROM (SELECT a FROM b WHERE c) d"

derived_bounds :
    (baseline derived (fallback derived)).has_where
      || (baseline derived (fallback derived)).has_limit
    ≡ true
unfolding baseline parse
derived_bounds = refl

dialect_parsers_bounded_example :
    (check_select_without_limit (Pg.parse_postgres pg_grammar fallback derived) ≡ none)
    × (check_select_without_limit (My.parse_mysql mysql_grammar fallback derived) ≡ none)
dialect_parsers_bounded_example =
    dialect_parsers_bounded pg_grammar mysql_grammar fallback derived derived_bounds
