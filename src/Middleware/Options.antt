-- ===== src/Middleware/Options.antt =====
-- The options of middleware/options.go and the dialect's resolution of middleware/dialect.go. The
-- reporter is a sink: what it is handed is a result of each step, so no option names it.
use sqlguard.Prelude.{
  Bool, true, false, not, ◌&&◌, List, [], ◌∷◌, ◌++◌, Option, none, some, Bytes, codes, equal, ℤ,
  pos, take, length, if◌then◌else◌,
}
use sqlguard.Analyzer.Types.{Statement, Dialect, dialect_unknown, dialect_postgres, dialect_mysql}
use sqlguard.Analyzer.Registry.{Registry, Profile}
use sqlguard.Analyzer.Engine.{Parser, Analyzer, default_with_profile, with_dialect}

pub record Options : Type 0 where
  pub slow_threshold : ℤ
  pub slow_threshold_set : Bool
  pub n1_set : Bool
  pub analyzer : Analyzer
  pub parser : Option Parser
  pub n1_threshold : ℤ
  pub n1_window : ℤ
  pub enable_n1 : Bool
  pub dedup_window : ℤ
  pub cache_size : ℤ
  pub dialect : Dialect
  pub dialect_set : Bool
  pub detected_dialect : Dialect

abbrev pub Setter : Type 0
Setter = Options → Options

abbrev pub with_slow_query_threshold : ℤ → Setter
with_slow_query_threshold d o = record o { slow_threshold = d; slow_threshold_set = true }

abbrev pub with_analyzer : Analyzer → Setter
with_analyzer a o = record o { analyzer = a }

abbrev pub with_own_parser : Option Parser → Setter
with_own_parser p o = record o { parser = p }

abbrev pub with_n1_detection : ℤ → ℤ → Setter
with_n1_detection threshold window o = record o {
  enable_n1 = true;
  n1_set = true;
  n1_threshold = threshold;
  n1_window = window;
}

abbrev pub with_finding_dedup : ℤ → Setter
with_finding_dedup window o = record o { dedup_window = window }

abbrev pub with_analysis_cache_size : ℤ → Setter
with_analysis_cache_size n o = record o { cache_size = n }

-- `WithDialect` of the options.
abbrev pub with_chosen_dialect : Dialect → Setter
with_chosen_dialect d o = record o { dialect = d; dialect_set = true }

abbrev pub is_unknown : Dialect → Bool
is_unknown dialect_unknown = true
is_unknown _ = false

unfoldable pub with_detected_dialect : Dialect → Setter
with_detected_dialect d o = if not (is_unknown d) then record o { detected_dialect = d } else o

abbrev pub empty_profile : Profile
empty_profile = record {
  disabled = [];
  only = [];
  severity = [];
  settings = [];
  raw_query = false;
  dialect = dialect_unknown;
}

-- `analyzer.Default`.
abbrev pub default_analyzer : (Bytes → Statement) → Registry → Analyzer
default_analyzer fallback registry = default_with_profile fallback registry empty_profile

abbrev pub default_options : (Bytes → Statement) → Registry → Options
default_options fallback registry = record {
  slow_threshold = pos 200000000;
  slow_threshold_set = false;
  n1_set = false;
  analyzer = default_analyzer fallback registry;
  parser = none;
  n1_threshold = pos 0;
  n1_window = pos 0;
  enable_n1 = false;
  dedup_window = pos 60000000000;
  cache_size = pos 1024;
  dialect = dialect_unknown;
  dialect_set = false;
  detected_dialect = dialect_unknown;
}

unfoldable pub resolve_dialect : Options → Options
unfolding with_dialect
resolve_dialect o =
    if o.dialect_set
    then record o { analyzer = with_dialect o.analyzer o.dialect }
    else if is_unknown o.analyzer.dialect && not (is_unknown o.detected_dialect)
    then record o { analyzer = with_dialect o.analyzer o.detected_dialect }
    else o

-- The rows of `driverDialects`.
abbrev pub driver_dialects : List (Bytes × Dialect)
driver_dialects =
    (codes "github.com/jackc/pgx", dialect_postgres)
    ∷ (codes "github.com/lib/pq", dialect_postgres)
    ∷ (codes "github.com/go-sql-driver/mysql", dialect_mysql)
    ∷ []

unfoldable pub has_prefix : Bytes → Bytes → Bool
has_prefix s prefix = equal (take (length prefix) s) prefix

unfoldable pub dialect_of_package : List (Bytes × Dialect) → Bytes → Dialect
unfolding has_prefix
dialect_of_package [] pkg = dialect_unknown
dialect_of_package ((name, dialect) ∷ rows) pkg =
    let others = dialect_of_package rows pkg in
    if equal pkg name
    then dialect
    else if has_prefix pkg (name ++ codes "/")
    then dialect
    else others

-- `driverDialect`, from the package path that `reflect` gives, none for a nil driver.
unfoldable pub driver_dialect : Option Bytes → Dialect
unfolding dialect_of_package
driver_dialect none = dialect_unknown
driver_dialect (some pkg) = dialect_of_package driver_dialects pkg

-- `withDriverDialect` of middleware/driver.go.
abbrev pub with_driver_dialect : Option Bytes → List Setter → List Setter
with_driver_dialect driver opts = with_detected_dialect (driver_dialect driver) ∷ opts
