-- ===== src/Analyzer/Types.antt =====
-- The data of the analyzer: analyzer/severity.go, statement.go, dialect.go, result.go.
use sqlguard.Prelude.{ℕ, Bool, true, false, Bytes, ℤ, leb}

pub data Severity : Type 0 where
  info warning critical : Severity

-- The `int` behind a severity, by which `max` compares.
abbrev pub rank : Severity → ℕ
rank info = 0
rank warning = 1
rank critical = 2

abbrev pub max_severity : Severity → Severity → Severity
max_severity a b = elim (leb (rank a) (rank b)) [ true ↦ b | false ↦ a ]

pub data StmtKind : Type 0 where
  stmt_unknown stmt_select stmt_insert stmt_update stmt_delete stmt_other : StmtKind

pub data Dialect : Type 0 where
  dialect_unknown dialect_postgres dialect_mysql : Dialect

-- What the rules read of a statement.
pub record Statement : Type 0 where
  pub raw : Bytes
  pub kind : StmtKind
  pub has_where : Bool
  pub has_limit : Bool
  pub has_order_by : Bool
  pub has_from : Bool
  pub select_star : Bool
  pub select_distinct : Bool
  pub insert_columns_listed : Bool
  pub leading_wildcard_like : Bool
  pub non_sargable_predicate : Bool
  pub add_not_null_no_default : Bool
  pub implicit_comma_join : Bool
  pub cartesian_join : Bool
  pub max_in_list_len : ℕ
  pub offset_value : ℕ
  pub leading_wildcard_term_len : ℕ
  pub exact : Bool

-- A finite `float64`: a sign, and a mantissa times a power of two.
pub record Float : Type 0 where
  pub negative : Bool
  pub mantissa : ℕ
  pub exponent : ℤ

-- A message before `fmt.Sprintf` prints it: its fixed text, or the values that it shows.
pub data Message : Type 0 where
  text : Bytes → Message
  in_list_message : ℕ → ℤ → Message
  offset_message : ℕ → ℤ → Message
  n_plus_one_message : ℕ → ℤ → Message
  slow_query_message : ℤ → ℤ → Message
  seq_scan_message : ℤ → Float → Message
  high_cost_message : Bytes → Float → Message
  table_scan_message : Bytes → ℤ → Message
  table_message : Bytes → Bytes → Message

pub record Result : Type 0 where
  pub rule_name : Bytes
  pub severity : Severity
  pub query : Bytes
  pub fingerprint : Bytes
  pub message : Message
  pub suggestion : Bytes
  pub file : Bytes
  pub line : ℕ
