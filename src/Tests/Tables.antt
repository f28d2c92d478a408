-- ===== src/Tests/Tables.antt =====
-- The tables of the program's own tests, through the model of the fallback parser and the rules:
-- analyzer/analyzer_test.go and analyzer/fallback_test.go.
use sqlguard.Prelude.{◌≡◌, refl, Bool, true, false, not, ◌&&◌, List, [], ◌∷◌, Bytes, codes, pos}
use sqlguard.Analyzer.Registry.{is_some}
use sqlguard.Analyzer.Rules.{
  Rule, check_non_sargable_predicate, check_add_not_null_without_default, check_implicit_join,
  check_cartesian_join, in_list_rule, large_offset_rule, leading_wildcard_rule,
  check_insert_without_columns,
}
use sqlguard.Analyzer.Fallback.{parse}

abbrev same : Bool → Bool → Bool
same true b = b
same false b = not b

-- Each query gives a finding of the rule exactly if the table says so.
abbrev agrees : Rule → List (Bytes × Bool) → Bool
agrees rule [] = true
agrees rule ((sql, hit) ∷ rows) = same hit (is_some (rule (parse sql))) && agrees rule rows

abbrev bounds_agree : List (Bytes × Bool × Bool) → Bool
bounds_agree [] = true
bounds_agree ((sql, where_found, limit_found) ∷ rows) =
    same where_found (parse sql).has_where
    && same limit_found (parse sql).has_limit
    && bounds_agree rows

abbrev non_sargable : List (Bytes × Bool)
non_sargable =
    (codes "SELECT id FROM users WHERE LOWER(email) = 'x'", true)
    ∷ (codes "SELECT id FROM events WHERE DATE(created_at) = '2020-01-01'", true)
    ∷ (codes "SELECT id FROM users WHERE CAST(id AS text) = '5'", true)
    ∷ (codes "SELECT id FROM users WHERE COALESCE(deleted, false) = false", true)
    ∷ (codes "SELECT id FROM users WHERE UPPER(name) LIKE 'A%'", true)
    ∷ (codes "SELECT id FROM users WHERE email = LOWER('X')", false)
    ∷ (codes "SELECT id FROM events WHERE created_at > NOW()", false)
    ∷ (codes "SELECT id FROM users WHERE email = 'x'", false)
    ∷ (codes "SELECT id FROM users WHERE id IN (1, 2, 3)", false)
    ∷ (codes "SELECT LOWER(name) FROM users", false)
    ∷ (codes "SELECT id FROM users WHERE active = true ORDER BY LOWER(name)", false)
    ∷ (codes "SELECT id FROM users -- WHERE LOWER(email) = 'x'", false)
    ∷ (
      codes
          "SELECT id FROM users WHERE id IN (SELECT uid FROM o ORDER BY x LIMIT 1) AND LOWER(name) = 'a'",
      true,
    )
    ∷ []

non_sargable_agree : agrees check_non_sargable_predicate non_sargable ≡ true
unfolding parse check_non_sargable_predicate check_add_not_null_without_default check_implicit_join
    check_cartesian_join in_list_rule large_offset_rule leading_wildcard_rule
    check_insert_without_columns
non_sargable_agree = refl

abbrev add_not_null : List (Bytes × Bool)
add_not_null =
    (codes "ALTER TABLE users ADD COLUMN age int NOT NULL", true)
    ∷ (codes "ALTER TABLE users ADD age int NOT NULL", true)
    ∷ (codes "ALTER TABLE t ADD COLUMN bal numeric(10,2) NOT NULL", true)
    ∷ (codes "ALTER TABLE t ADD COLUMN a int NOT NULL, ADD COLUMN b int DEFAULT 5", true)
    ∷ (codes "ALTER TABLE users ADD COLUMN age int NOT NULL DEFAULT 0", false)
    ∷ (codes "ALTER TABLE users ADD COLUMN age int DEFAULT 0 NOT NULL", false)
    ∷ (codes "ALTER TABLE users ADD COLUMN age int", false)
    ∷ (codes "ALTER TABLE users ALTER COLUMN age SET NOT NULL", false)
    ∷ (codes "ALTER TABLE users ADD CONSTRAINT chk CHECK (age IS NOT NULL)", false)
    ∷ (codes "INSERT INTO users (age) VALUES (1)", false)
    ∷ []

add_not_null_agree : agrees check_add_not_null_without_default add_not_null ≡ true
unfolding parse check_non_sargable_predicate check_add_not_null_without_default check_implicit_join
    check_cartesian_join in_list_rule large_offset_rule leading_wildcard_rule
    check_insert_without_columns
add_not_null_agree = refl

abbrev implicit_joins : List (Bytes × Bool)
implicit_joins =
    (codes "SELECT * FROM a, b WHERE a.id = b.id", true)
    ∷ (codes "SELECT * FROM a, b, c WHERE a.id = b.id AND b.id = c.id", true)
    ∷ (codes "SELECT * FROM a, b JOIN c ON b.id = c.id", true)
    ∷ (codes "SELECT * FROM a JOIN b ON a.id = b.id", false)
    ∷ (codes "SELECT * FROM users WHERE id = 1", false)
    ∷ (codes "SELECT id, name FROM users", false)
    ∷ (codes "SELECT * FROM users WHERE id IN (1, 2, 3)", false)
    ∷ (codes "SELECT * FROM generate_series(1, 10)", false)
    ∷ (codes "SELECT * FROM (SELECT a, b FROM t) sub", false)
    ∷ (codes "SELECT EXTRACT(YEAR FROM created_at) FROM events", false)
    ∷ (codes "SELECT EXTRACT(YEAR FROM ts) FROM events, logs WHERE events.id = logs.id", true)
    ∷ (codes "SELECT 1, 2", false)
    ∷ []

implicit_joins_agree : agrees check_implicit_join implicit_joins ≡ true
unfolding parse check_non_sargable_predicate check_add_not_null_without_default check_implicit_join
    check_cartesian_join in_list_rule large_offset_rule leading_wildcard_rule
    check_insert_without_columns
implicit_joins_agree = refl

abbrev cartesian_joins : List (Bytes × Bool)
cartesian_joins =
    (codes "SELECT * FROM a, b", true)
    ∷ (codes "SELECT * FROM a, b, c", true)
    ∷ (codes "SELECT * FROM a CROSS JOIN b", true)
    ∷ (codes "SELECT * FROM a CROSS JOIN b WHERE a.x = 1", false)
    ∷ (codes "SELECT * FROM a, b WHERE a.id = b.id", false)
    ∷ (codes "SELECT * FROM a JOIN b ON a.id = b.id", false)
    ∷ (codes "SELECT * FROM a JOIN b USING (id)", false)
    ∷ (codes "SELECT * FROM a NATURAL JOIN b", false)
    ∷ (codes "SELECT * FROM users", false)
    ∷ (codes "SELECT * FROM (SELECT * FROM x WHERE y = 1) sub, t", true)
    ∷ (codes "SELECT x FROM (SELECT * FROM a CROSS JOIN b) sub", false)
    ∷ (codes "SELECT x FROM (SELECT * FROM a JOIN b ON a.id = b.id) sub", false)
    ∷ (codes "SELECT 1, 2", false)
    ∷ []

cartesian_joins_agree : agrees check_cartesian_join cartesian_joins ≡ true
unfolding parse check_non_sargable_predicate check_add_not_null_without_default check_implicit_join
    check_cartesian_join in_list_rule large_offset_rule leading_wildcard_rule
    check_insert_without_columns
cartesian_joins_agree = refl

abbrev in_lists : List (Bytes × Bool)
in_lists =
    (codes "SELECT * FROM t WHERE id IN (1, 2, 3, 4, 5, 6)", true)
    ∷ (codes "SELECT * FROM t WHERE id IN (1, 2, 3, 4, 5)", false)
    ∷ (codes "SELECT * FROM t WHERE id IN (1, 2, 3)", false)
    ∷ (codes "SELECT * FROM t WHERE id NOT IN (1, 2, 3, 4, 5, 6)", true)
    ∷ (codes "SELECT * FROM t WHERE id IN (?, ?, ?, ?, ?, ?)", true)
    ∷ (codes "SELECT * FROM t WHERE c IN ('a', 'b', 'c', 'd', 'e', 'f')", true)
    ∷ (codes "SELECT * FROM t WHERE id IN (SELECT id FROM other)", false)
    ∷ (codes "SELECT * FROM t WHERE id = 5", false)
    ∷ (codes "SELECT * FROM t WHERE x = greatest(1, 2, 3, 4, 5, 6, 7)", false)
    ∷ (codes "SELECT * FROM t WHERE a IN (1, 2) AND b IN (1, 2, 3, 4, 5, 6, 7)", true)
    ∷ []

in_lists_agree : agrees (in_list_rule (pos 5)) in_lists ≡ true
unfolding parse check_non_sargable_predicate check_add_not_null_without_default check_implicit_join
    check_cartesian_join in_list_rule large_offset_rule leading_wildcard_rule
    check_insert_without_columns
in_lists_agree = refl

abbrev large_offsets : List (Bytes × Bool)
large_offsets =
    (codes "SELECT * FROM t ORDER BY id LIMIT 20 OFFSET 5000", true)
    ∷ (codes "SELECT * FROM t ORDER BY id LIMIT 20 OFFSET 1000", false)
    ∷ (codes "SELECT * FROM t ORDER BY id LIMIT 20 OFFSET 40", false)
    ∷ (codes "SELECT * FROM t ORDER BY id LIMIT 20", false)
    ∷ (codes "SELECT * FROM t ORDER BY id LIMIT 20 OFFSET $1", false)
    ∷ (codes "SELECT * FROM t ORDER BY id OFFSET 5000 ROWS FETCH NEXT 20 ROWS ONLY", true)
    ∷ (codes "SELECT * FROM t ORDER BY id LIMIT 5000, 20", true)
    ∷ (codes "SELECT * FROM t ORDER BY id LIMIT 40, 20", false)
    ∷ (codes "SELECT offset FROM t WHERE offset = 5000", false)
    ∷ []

large_offsets_agree : agrees (large_offset_rule (pos 1000)) large_offsets ≡ true
unfolding parse check_non_sargable_predicate check_add_not_null_without_default check_implicit_join
    check_cartesian_join in_list_rule large_offset_rule leading_wildcard_rule
    check_insert_without_columns
large_offsets_agree = refl

abbrev leading_wildcards : List (Bytes × Bool)
leading_wildcards =
    (codes "SELECT * FROM users WHERE email LIKE '%gmail.com%'", true)
    ∷ (codes "SELECT * FROM users WHERE name LIKE 'John%'", false)
    ∷ (codes "SELECT * FROM users WHERE email LIKE \"%gmail%\"", true)
    ∷ (codes "SELECT * FROM users WHERE email ILIKE '%gmail%'", true)
    ∷ (codes "SELECT * FROM users WHERE name ILIKE 'John%'", false)
    ∷ []

leading_wildcards_agree : agrees (leading_wildcard_rule (pos 0)) leading_wildcards ≡ true
unfolding parse check_non_sargable_predicate check_add_not_null_without_default check_implicit_join
    check_cartesian_join in_list_rule large_offset_rule leading_wildcard_rule
    check_insert_without_columns
leading_wildcards_agree = refl

abbrev insert_columns : List (Bytes × Bool)
insert_columns =
    (codes "INSERT INTO users VALUES ('alice', 'alice@test.com')", true)
    ∷ (codes "INSERT INTO users (name, email) VALUES ('alice', 'alice@test.com')", false)
    ∷ (codes "SELECT * FROM users", false)
    ∷ (codes "INSERT INTO users SELECT name, email FROM staging", true)
    ∷ (codes "INSERT INTO users (name, email) SELECT name, email FROM staging", false)
    ∷ (codes "INSERT INTO public.users VALUES ('alice')", true)
    ∷ (codes "INSERT INTO users SET name = 'alice', email = 'a@test.com'", false)
    ∷ (codes "INSERT INTO users DEFAULT VALUES", false)
    ∷ (codes "WITH s AS (SELECT 1) INSERT INTO users SELECT * FROM s", true)
    ∷ (codes "REPLACE INTO users VALUES ('alice')", true)
    ∷ (codes "REPLACE INTO users (name) VALUES ('alice')", false)
    ∷ (codes "REPLACE users VALUES ('alice')", true)
    ∷ (codes "REPLACE users (name) VALUES ('alice')", false)
    ∷ (codes "INSERT users VALUES ('alice')", true)
    ∷ (codes "INSERT users (name) VALUES ('alice')", false)
    ∷ (codes "INSERT LOW_PRIORITY INTO users VALUES ('alice')", true)
    ∷ (codes "REPLACE DELAYED users VALUES ('alice')", true)
    ∷ (codes "UPSERT INTO users VALUES ('alice')", true)
    ∷ (codes "UPSERT INTO users (name) VALUES ('alice')", false)
    ∷ (codes "SELECT REPLACE(name, 'a', 'b') FROM users", false)
    ∷ (codes "INSERT INTO users (name) VALUES (REPLACE(x, 'a', 'b'))", false)
    ∷ (
      codes "WITH s AS (SELECT REPLACE(a, 'x', 'y') AS n FROM u) INSERT INTO users SELECT n FROM s",
      true,
    )
    ∷ (codes "WITH s AS (SELECT 1 AS n) UPSERT INTO users SELECT n FROM s", true)
    ∷ (codes "WITH s AS (SELECT 1 AS n) UPSERT INTO users (name) SELECT n FROM s", false)
    ∷ (codes "INSERT users (`into`) VALUES ('alice')", false)
    ∷ (codes "REPLACE users (`into`) VALUES ('alice')", false)
    ∷ (codes "INSERT INTO users (`into`) VALUES ('alice')", false)
    ∷ []

insert_columns_agree : agrees check_insert_without_columns insert_columns ≡ true
unfolding parse check_non_sargable_predicate check_add_not_null_without_default check_implicit_join
    check_cartesian_join in_list_rule large_offset_rule leading_wildcard_rule
    check_insert_without_columns
insert_columns_agree = refl

abbrev bounds : List (Bytes × Bool × Bool)
bounds =
    (codes "SELECT a FROM t WHERE x = 1 LIMIT 5", true, true)
    ∷ (codes "SELECT a FROM (SELECT a FROM t LIMIT 3) s", false, true)
    ∷ (codes "SELECT a FROM (SELECT a FROM t WHERE x = 1) s", true, false)
    ∷ (codes "SELECT a FROM t JOIN (SELECT id FROM u LIMIT 3) s ON s.id = t.id", false, true)
    ∷ (codes "WITH c AS (SELECT a FROM t WHERE x = 1 LIMIT 3) SELECT a FROM c", true, true)
    ∷ (codes "WITH c AS MATERIALIZED (SELECT a FROM t LIMIT 3) SELECT a FROM c", false, true)
    ∷ (codes "SELECT a FROM t WHERE id IN (SELECT id FROM u LIMIT 1)", true, false)
    ∷ (codes "SELECT (SELECT max(b) FROM u WHERE u.id = t.id) FROM t", false, false)
    ∷ (codes "SELECT ARRAY(SELECT b FROM u LIMIT 5) FROM t", false, false)
    ∷ (codes "(SELECT a FROM t WHERE x = 1 LIMIT 5)", true, true)
    ∷ (codes "UPDATE t SET a = (SELECT b FROM u WHERE u.id = t.id)", false, false)
    ∷ (codes "WITH c AS (SELECT id FROM u WHERE x = 1) DELETE FROM t", false, false)
    ∷ (codes "DELETE FROM t WHERE id IN (SELECT id FROM u)", true, false)
    ∷ (codes "(SELECT a FROM t WHERE id = 1) UNION ALL (SELECT b FROM u WHERE id = 2)", true, false)
    ∷ (
      codes "(SELECT a FROM t ORDER BY a LIMIT 10) UNION ALL (SELECT b FROM u ORDER BY b LIMIT 10)",
      false,
      true,
    )
    ∷ (codes "SELECT * FROM t JOIN u ON u.id IN (SELECT id FROM v WHERE flag = 1)", false, false)
    ∷ (codes "SELECT * FROM t, (SELECT id FROM v LIMIT 3) s", false, true)
    ∷ (
      codes "SELECT a FROM t WHERE x = 1 UNION SELECT a FROM u, (SELECT 1 FROM v LIMIT 1) s",
      true,
      true,
    )
    ∷ (
      codes "SELECT * FROM t CROSS JOIN LATERAL (SELECT id FROM v WHERE v.a = t.a LIMIT 1) s",
      true,
      true,
    )
    ∷ (codes "SELECT a, (SELECT b FROM u LIMIT 1) FROM t", false, false)
    ∷ (codes "SELECT a FROM t WHERE a IS DISTINCT FROM (SELECT x FROM u LIMIT 1)", true, false)
    ∷ (codes "SELECT a IS DISTINCT FROM (SELECT x FROM u WHERE y = 1 LIMIT 1) FROM t", false, false)
    ∷ (
      codes "SELECT a IS NOT DISTINCT FROM (SELECT x FROM u WHERE y = 1 LIMIT 1) FROM t",
      false,
      false,
    )
    ∷ (
      codes "SELECT a FROM (SELECT a, (SELECT 1 FROM v WHERE v.x = 1 LIMIT 1) FROM t) s",
      false,
      false,
    )
    ∷ (codes "SELECT * FROM generate_series(1, (SELECT max(n) FROM u WHERE x = 1))", false, false)
    ∷ []

bounds_all : bounds_agree bounds ≡ true
unfolding parse
bounds_all = refl
