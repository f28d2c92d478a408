-- ===== src/Config/Load.antt =====
-- Loading of config/config.go and the options of config/middleware.go. The files, the paths of Go's
-- library, the decoder of YAML, `time.ParseDuration` and `regexp.Compile` are parameters.
pub mod Nearest
pub mod Guards
use sqlguard.Prelude.{
  ℕ, zero, suc, Bool, true, false, ◌||◌, List, [], ◌∷◌, ◌++◌, Option, none, some, Bytes, codes, ℤ,
  pos, length, equal, if◌then◌else◌, ◌⊎◌, inl, inr,
}
use sqlguard.Analyzer.Types.{Statement}
use sqlguard.Analyzer.Registry.{Registry, Profile}
use sqlguard.Analyzer.Engine.{Analyzer, default_with_profile}
use sqlguard.Analyzer.Lexer.Space.{trim_space}
use sqlguard.Middleware.Options.{Setter, with_analyzer, with_finding_dedup}
use sqlguard.Config.Warnings.{Warning, undecodable}
use sqlguard.Config.Profile.{Config, RulesConfig, profile}

-- What the strict decoder says: `io.EOF`, or another error by its text.
pub data DecodeError : Type 0 where
  end_of_file : DecodeError
  decode_error : Bytes → DecodeError

pub record Files : Type 0 where
  pub read_file : Bytes → Option Bytes
  pub is_file : Bytes → Bool
  pub exists : Bytes → Bool
  pub abs : Bytes → Option Bytes
  pub dir : Bytes → Bytes
  pub join : Bytes → Bytes → Bytes
  pub unmarshal : Bytes → Option Config
  pub decode_known : Bytes → Option DecodeError

-- The errors of the package, without those that they wrap.
pub data ConfigError : Type 0 where
  no_directory : ConfigError
  unreadable undecoded : Bytes → ConfigError
  unknown_fields : Bytes → Bytes → ConfigError
  bad_profile : Warning → ConfigError
  bad_window bad_pattern : Bytes → ConfigError

-- A configuration with the warnings so far.
abbrev pub Loaded : Type 0
Loaded = ConfigError ⊎ (Config × List Warning)

-- `Default`.
abbrev pub default_config : Config
default_config = record {
  version = pos 1;
  strict = false;
  rules = record { disable = []; only = []; severity = []; settings = [] };
  dedup_window = [];
  exclude_paths = [];
  redact = none;
  dialect = [];
}

abbrev known_error : Option DecodeError → Option Bytes
known_error none = none
known_error (some end_of_file) = none
known_error (some (decode_error text)) = some text

-- `strictDecode`.
unfoldable pub strict_decode : Files → Bytes → Option Bytes
strict_decode files data' = known_error (files.decode_known data')

abbrev checked_config : Bytes → Config → Option Bytes → Loaded
checked_config path c none = inr (c, [])
checked_config path c (some text) =
    if c.strict then inl (unknown_fields path text) else inr (c, undecodable text ∷ [])

abbrev decoded : Files → Bytes → Bytes → Option Config → Loaded
decoded files path data' none = inl (undecoded path)
decoded files path data' (some c) = checked_config path c (strict_decode files data')

unfoldable pub load : Files → Bytes → Loaded
unfolding strict_decode
load files path = elim (files.read_file path) [
  | none ↦ inl (unreadable path)
  | some data' ↦ decoded files path data' (files.unmarshal data')
]

abbrev pub config_file_names : List Bytes
config_file_names = codes ".sqlguard.yml" ∷ codes ".sqlguard.yaml" ∷ []

-- The loop over the file names: the first path that is a file.
unfoldable pub first_file : Files → Bytes → List Bytes → Option Bytes
first_file files dir [] = none
first_file files dir (name ∷ names) =
    let others = first_file files dir names in
    if files.is_file (files.join dir name) then some (files.join dir name) else others

unfoldable pub is_project_root : Files → Bytes → Bool
is_project_root files dir = files.exists (files.join dir (codes ".git"))

-- What `Discover` returns: the configuration, and the path, which is empty for the default.
abbrev pub Discovery : Type 0
Discovery = Loaded × Bytes

abbrev pub nothing_found : Discovery
nothing_found = (inr (default_config, []), [])

-- The loop of `Discover`, none when the fuel is out.
unfoldable pub discover_from : Files → ℕ → Bytes → Option Discovery
unfolding first_file is_project_root load equal
discover_from files zero dir = none
discover_from files (suc fuel) dir =
    let above = discover_from files fuel (files.dir dir) in
    elim (first_file files dir config_file_names) [
      | some path ↦ some (load files path, path)
      | none ↦
          if is_project_root files dir || equal (files.dir dir) dir
          then some nothing_found
          else above
    ]

-- A directory is above no more others than its path has bytes.
unfoldable pub discover : Files → Bytes → Option Discovery
unfolding discover_from
discover files start = elim (files.abs start) [
  | none ↦ some (inl no_directory, [])
  | some dir ↦ discover_from files (suc (length dir)) dir
]

module _ (parse_duration : Bytes → Option ℤ) where
  abbrev window : Bytes → Option ℤ → ConfigError ⊎ Option ℤ
  window s none = inl (bad_window s)
  window s (some d) = inr (some d)

  -- `DedupWindow`: none when it is unset.
  unfoldable pub dedup_window : Config → ConfigError ⊎ Option ℤ
  unfolding trim_space equal
  dedup_window c =
      let s = trim_space c.dedup_window in
      if equal s [] then inr none else window s (parse_duration s)

  -- `time.ParseDuration` as the accessors of the settings use it.
  abbrev pub trimmed : Bytes → Option ℤ
  trimmed s = parse_duration (trim_space s)

  abbrev pub built :
      (Bytes → Statement)
      → Registry
      → Warning ⊎ (Profile × List Warning)
      → ConfigError ⊎ (Analyzer × List Warning)
  built fallback registry (inl w) = inl (bad_profile w)
  built fallback registry (inr (p, ws)) = inr (default_with_profile fallback registry p, ws)

  -- The method `Analyzer`, with the warnings behind it.
  unfoldable pub config_analyzer :
      (Bytes → Statement)
      → Registry
      → Config
      → List Warning
      → ConfigError ⊎ (Analyzer × List Warning)
  unfolding profile default_with_profile
  config_analyzer fallback registry c ws = built fallback registry (profile registry trimmed c ws)

  abbrev pub window_option : Option ℤ → List Setter
  window_option none = []
  window_option (some d) = with_finding_dedup d ∷ []

  abbrev pub options_of :
      ConfigError ⊎ (Analyzer × List Warning) → ConfigError ⊎ Option ℤ → ConfigError ⊎ List Setter
  options_of (inl err) _ = inl err
  options_of (inr (a, ws)) (inl err) = inl err
  options_of (inr (a, ws)) (inr w) = inr (with_analyzer a ∷ window_option w)

  unfoldable pub middleware_options :
      (Bytes → Statement) → Registry → Config → List Warning → ConfigError ⊎ List Setter
  unfolding config_analyzer dedup_window
  middleware_options fallback registry c ws =
      options_of (config_analyzer fallback registry c ws) (dedup_window c)

  abbrev loaded_options : (Bytes → Statement) → Registry → Loaded → ConfigError ⊎ List Setter
  loaded_options fallback registry (inl err) = inl err
  loaded_options fallback registry (inr (c, ws)) = middleware_options fallback registry c ws

  abbrev discovered_options :
      (Bytes → Statement) → Registry → Option Discovery → Option (ConfigError ⊎ List Setter)
  discovered_options fallback registry none = none
  discovered_options fallback registry (some (c, _)) = some (loaded_options fallback registry c)

  -- `Middleware`; none when the fuel of `Discover` is out.
  unfoldable pub middleware :
      Files → (Bytes → Statement) → Registry → Bytes → Bytes → Option (ConfigError ⊎ List Setter)
  unfolding load discover middleware_options equal
  middleware files fallback registry path start =
      if equal path []
      then discovered_options fallback registry (discover files start)
      else some (loaded_options fallback registry (load files path))

-- The compiled patterns of `ExcludeMatcher`, in their order.
unfoldable pub compile_all :
    (Bytes → Option (Bytes → Bool)) → List Bytes → ConfigError ⊎ List (Bytes → Bool)
compile_all compile [] = inr []
compile_all compile (pat ∷ pats) = elim (compile pat) [
  | none ↦ inl (bad_pattern pat)
  | some re ↦ elim (compile_all compile pats) [ inl err ↦ inl err | inr res ↦ inr (re ∷ res) ]
]

unfoldable pub matches_any : List (Bytes → Bool) → Bytes → Bool
matches_any [] path = false
matches_any (re ∷ res) path = re path || matches_any res path

abbrev matcher : ConfigError ⊎ List (Bytes → Bool) → ConfigError ⊎ Option (Bytes → Bool)
matcher (inl err) = inl err
matcher (inr res) = inr (some (matches_any res))

-- None is the nil predicate.
unfoldable pub exclude_matcher :
    (Bytes → Option (Bytes → Bool)) → Config → ConfigError ⊎ Option (Bytes → Bool)
unfolding compile_all matches_any
exclude_matcher compile c = elim c.exclude_paths [
  | [] ↦ inr none
  | pat ∷ pats ↦ matcher (compile_all compile (pat ∷ pats))
]
