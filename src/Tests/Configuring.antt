-- ===== src/Tests/Configuring.antt =====
-- Configurations at concrete values: config/.
use sqlguard.Prelude.{
  inr, ◌≢◌, ◌==◌, ◌≡◌, refl, ◌≢◌, inl, inr, Bool, true, false, [], ◌∷◌, Option, none, some, Bytes,
  codes, ℤ, pos, is_positive, arith,
}
use sqlguard.Analyzer.Settings.{int_value, string_value}
use sqlguard.Analyzer.Registry.{builtin, Profile}
use sqlguard.Analyzer.Types.{dialect_unknown}
use sqlguard.Analyzer.Fallback.{parse}
use sqlguard.Analyzer.Engine.{default_with_profile}
use sqlguard.Middleware.Guard.{new_guard}
use sqlguard.Config.Warnings.{unknown_rule}
use sqlguard.Config.Profile.{start, Config, RulesConfig, resolve, parse_severity, turned_off}
use sqlguard.Config.Strict.{Agree}
use sqlguard.Config.Strict.Rules.{resolve_lem}
use sqlguard.Config.Sound.{Ensures}
use sqlguard.Config.Sound.Rules.{IsSound, resolve-IsSound}
use sqlguard.Config.Scanned.{resolve-default_with_profile}
use sqlguard.Config.Load.{Files, middleware_options, trimmed}
use sqlguard.Config.Load.Nearest.{Nearest}
use sqlguard.Config.Load.Guards.{Returns, middleware_options-new_guard}

-- A stand-in for `time.ParseDuration` that takes every text for a second.
abbrev second : Bytes → Option ℤ
second _ = some (pos 1000000000)

abbrev rules : RulesConfig
rules = record {
  disable = codes "select-star" ∷ codes "selct-star" ∷ [];
  only = codes "select-star" ∷ codes "leading-wildcard" ∷ [];
  severity = (codes "slow-query", codes " OFF ") ∷ [];
  settings =
      (codes "slow-query", (codes "threshold", int_value (pos 0)) ∷ [])
      ∷ (codes "n-plus-one", (codes "window", string_value (codes "1s")) ∷ [])
      ∷ [];
}

off : parse_severity (codes " OFF ") ≡ turned_off
unfolding parse_severity
off = refl

strict_names :
    resolve builtin second true rules none [] [] ≡ inl (unknown_rule (codes "selct-star"))
unfolding resolve builtin
strict_names = refl

resolve_lem_example : Agree (λ strict. resolve builtin second strict rules none [])
resolve_lem_example = resolve_lem builtin second rules none []

resolve-IsSound_example :
    Ensures (IsSound builtin second) (resolve builtin second false rules none (codes "pg"))
resolve-IsSound_example = resolve-IsSound builtin second false rules none (codes "pg")

-- Rules without a fault, one to run alone and one turned off.
abbrev star_alone : RulesConfig
star_alone = record {
  disable = [];
  only = codes "select-star" ∷ [];
  severity = (codes "slow-query", codes "off") ∷ [];
  settings = [];
}

abbrev star_profile : Profile
star_profile = elim (resolve builtin second true star_alone none [] []) [
  | inl w ↦ start false dialect_unknown [] []
  | inr (p, ws) ↦ p
]

star_resolves : resolve builtin second true star_alone none [] [] ≡ inr (star_profile, [])
unfolding resolve builtin
star_resolves = refl

resolve-default_with_profile_example : (default_with_profile parse builtin star_profile).rules ≢ []
resolve-default_with_profile_example =
    resolve-default_with_profile builtin second parse star_alone none [] [] [] star_profile
      (ground arith) star_resolves

-- Files of which there are none, on paths whose parent is the root.
abbrev root : Bytes
root = codes "/"

abbrev starts_at_root : Bytes → Bool
starts_at_root [] = false
starts_at_root (c ∷ _) = c == b'/'

abbrev files : Files
files = record {
  read_file = λ _. none;
  is_file = λ _. false;
  exists = λ _. false;
  abs = λ _. some (codes "/a");
  dir = λ _. root;
  join = λ d name. d;
  unmarshal = λ _. none;
  decode_known = λ _. none;
}

abbrev config : Config
config = record {
  version = pos 1;
  strict = false;
  rules = rules;
  dedup_window = [];
  exclude_paths = [];
  redact = none;
  dialect = [];
}

middleware_options-new_guard_example :
    Returns
      (λ opts.
        is_positive (new_guard parse (trimmed second) builtin opts).opts.slow_threshold ≡ true)
      (middleware_options second parse builtin config [])
middleware_options-new_guard_example = middleware_options-new_guard second parse builtin config []
