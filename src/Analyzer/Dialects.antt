-- ===== src/Analyzer/Dialects.antt =====
-- The names of dialects: `ParseDialect` of analyzer/dialect.go.
use sqlguard.Prelude.{is_one_of, List, [], ◌∷◌, Option, none, some, Bytes, codes, if◌then◌else◌}
use sqlguard.Analyzer.Types.{Dialect, dialect_postgres, dialect_mysql}
use sqlguard.Analyzer.Lexer.Space.{trim_space}
use sqlguard.Analyzer.Lexer.Cases.{to_lower}

abbrev pub postgres_names : List Bytes
postgres_names =
    codes "postgres"
    ∷ codes "postgresql"
    ∷ codes "pg"
    ∷ codes "pgx"
    ∷ codes "pgx/v4"
    ∷ codes "pgx/v5"
    ∷ codes "cloudsqlpostgres"
    ∷ codes "nrpostgres"
    ∷ []

abbrev pub mysql_names : List Bytes
mysql_names = codes "mysql" ∷ codes "mariadb" ∷ codes "nrmysql" ∷ []

-- None for a name that is not known.
unfoldable pub parse_dialect : Bytes → Option Dialect
unfolding is_one_of to_lower trim_space
parse_dialect name =
    let word = to_lower (trim_space name) in
    if is_one_of postgres_names word
    then some dialect_postgres
    else if is_one_of mysql_names word
    then some dialect_mysql
    else none
