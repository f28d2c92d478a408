-- ===== src/Config/Load/Guards.antt =====
-- The guard that config/middleware.go leads to: its options under `NewGuard`.
use sqlguard.Prelude.{
  sym, subst, ◌≡◌, refl, ap, ◌∙◌, ◌⊎◌, inl, inr, true, List, [], ◌∷◌, Option, none, some, Bytes,
  codes, ℤ, pos, is_positive, Map, All, lookup, equal, equal_iff, Bool-cases, Option-cases,
  if◌then◌else◌, arith,
}
use sqlguard.Analyzer.Types.{Statement}
use sqlguard.Analyzer.Settings.{Settings, as_duration, lookup_duration, or_default}
use sqlguard.Analyzer.Registry.{Registry, Profile}
use sqlguard.Analyzer.Engine.{with_dialect, default_with_profile, settings_of}
use sqlguard.Middleware.Options.{Setter, with_analyzer, resolve_dialect, default_analyzer}
use sqlguard.Middleware.Guard.{
  new_guard, resolve_options, apply_options, apply_parser, apply_slow_threshold, apply_n1_settings,
}
use sqlguard.Config.Warnings.{Warning}
use sqlguard.Config.Settings.{kind_of, rule_tunables}
use sqlguard.Config.Profile.{
  is_registered, Config, resolve, profile, config_dialect, resolve_rules, collect_names,
  apply_severities, apply_settings, check_scan_has_rules,
}
use sqlguard.Config.Sound.{Holds}
use sqlguard.Config.Sound.Values.{within, is_readable, AreReadable}
use sqlguard.Config.Sound.Rules.{IsSound, AreSettings, resolve-IsSound}
use sqlguard.Config.Load.{
  window_option, options_of, built, ConfigError, Files, nothing_found, discover, middleware,
  middleware_options, config_analyzer, dedup_window, trimmed,
}

-- Where no configuration file is found, `Middleware` returns options without an error, and the guard
-- built from them is the one that `NewGuard` builds from no options at all.
pub middleware-new_guard :
    (parse_duration : Bytes → Option ℤ) (files : Files) (fallback : Bytes → Statement)
    (registry : Registry) (start : Bytes)
    → discover files start ≡ some nothing_found
    → (opts : List Setter) × ((middleware parse_duration files fallback registry [] start
          ≡ some (inr opts))
        × (new_guard fallback (trimmed parse_duration) registry opts
            ≡ new_guard fallback (trimmed parse_duration) registry []))
unfolding middleware middleware_options config_analyzer dedup_window profile resolve resolve_rules
    config_dialect equal collect_names apply_severities apply_settings check_scan_has_rules
    new_guard resolve_options apply_options
middleware-new_guard parse_duration files fallback registry start nothing =
    (with_analyzer (default_analyzer fallback registry) ∷ [], (rw nothing refl, refl))

-- The value of a key, and with it what is known of the entries.
lookup-All {ℓ κ} :
    {V : Type ℓ} (P : Bytes × V → Type κ) (key : Bytes) (m : Map V) {v : V}
    → All P m
    → lookup key m ≡ some v
    → P (key, v)
unfolding lookup or_default
lookup-All P key [] all e = ground (arith, e)
lookup-All P key ((other, w) ∷ m) {v} (p, all) e = elim (Bool-cases (equal other key)) [
  | inl same ↦
      let found : some w ≡ some v = sym (ap (λ b. if b then some w else lookup key m) same) ∙ e in
      let value : w ≡ v = ap (λ o. or_default o w) found in
      subst (λ k. P (k, v)) ((equal_iff other key).0 same) (subst (λ x. P (other, x)) value p)
  | inr others ↦
      lookup-All P key m all (sym (ap (λ b. if b then some w else lookup key m) others) ∙ e)
]

readable-is_positive :
    (o : Option ℤ) (def : ℤ) → within true o ≡ true → is_positive (or_default o def) ≡ true
unfolding or_default
readable-is_positive none def h = ground (arith, h)
readable-is_positive (some n) def h = ground (arith, h)

slow_settings-is_positive :
    (parse_duration : Bytes → Option ℤ) (s : Settings) (def : ℤ)
    → AreReadable parse_duration (lookup (codes "slow-query") rule_tunables) s
    → is_positive def ≡ true
    → is_positive (or_default (lookup_duration parse_duration s (codes "threshold")) def) ≡ true
unfolding lookup_duration or_default is_readable lookup equal as_duration
slow_settings-is_positive parse_duration s def all positive =
    elim (Option-cases (lookup (codes "threshold") s)) [
      | inl missing ↦ rw missing positive
      | inr (v, there) ↦ rw there (
          readable-is_positive (as_duration parse_duration (some v)) def (
            lookup-All
              (λ e.
                is_readable parse_duration (kind_of (lookup (codes "slow-query") rule_tunables) e.0)
                  e.1
                ≡ true)
              (codes "threshold") s all there))
    ]

abbrev slow_threshold_of : (Bytes → Option ℤ) → Map Settings → ℤ
slow_threshold_of parse_duration settings =
    or_default
      (lookup_duration parse_duration (settings_of settings (codes "slow-query"))
        (codes "threshold"))
      (pos 200000000)

resolve_options-slow :
    (parse_duration : Bytes → Option ℤ) (fallback : Bytes → Statement) (registry : Registry)
    (p : Profile) (w : Option ℤ)
    → (resolve_options fallback parse_duration registry (
        with_analyzer (default_with_profile fallback registry p)
        ∷ window_option parse_duration w)).slow_threshold
      ≡ slow_threshold_of parse_duration p.settings
unfolding resolve_options apply_options apply_parser resolve_dialect apply_slow_threshold
    apply_n1_settings default_with_profile with_dialect
resolve_options-slow parse_duration fallback registry p none = ground arith
resolve_options-slow parse_duration fallback registry p (some d) = ground arith

settings_of-AreReadable :
    (registry : Registry) (parse_duration : Bytes → Option ℤ) (settings : Map Settings)
    (name : Bytes)
    → AreSettings registry parse_duration settings
    → AreReadable parse_duration (lookup name rule_tunables) (settings_of settings name)
unfolding or_default
settings_of-AreReadable registry parse_duration settings name all =
    elim (Option-cases (lookup name settings)) [
      | inl missing ↦ rw missing tt
      | inr (s, there) ↦
          rw there
            (lookup-All
              (λ e.
                (is_registered registry e.0 ≡ true)
                × AreReadable parse_duration (lookup e.0 rule_tunables) e.1)
              name settings all there).1
    ]

-- A statement on the options, where they are returned.
abbrev pub Returns : (List Setter → Type 0) → ConfigError ⊎ List Setter → Type 0
Returns P (inl err) = Unit
Returns P (inr opts) = P opts

-- The slow-query threshold of a guard that is built from the options of a configuration is
-- positive, whatever the configuration says, if it gives options at all: a threshold that is not
-- positive never reaches the guard.
pub middleware_options-new_guard :
    (parse_duration : Bytes → Option ℤ) (fallback : Bytes → Statement) (registry : Registry)
    (c : Config) (ws : List Warning)
    → Returns
        (λ opts.
          is_positive
            (new_guard fallback (trimmed parse_duration) registry opts).opts.slow_threshold
          ≡ true)
        (middleware_options parse_duration fallback registry c ws)
unfolding middleware_options config_analyzer profile new_guard
middleware_options-new_guard parse_duration fallback registry c ws =
    go (profile registry (trimmed parse_duration) c ws) (dedup_window parse_duration c)
      (resolve-IsSound registry (trimmed parse_duration) c.strict c.rules c.redact c.dialect ws)
  where
    go :
        (o : Warning ⊎ (Profile × List Warning)) (w : ConfigError ⊎ Option ℤ)
        → Holds (IsSound registry (trimmed parse_duration)) o
        → Returns
            (λ opts.
              is_positive
                (new_guard fallback (trimmed parse_duration) registry opts).opts.slow_threshold
              ≡ true)
            (options_of parse_duration (built parse_duration fallback registry o) w)
    go (inl warning) w sound = tt
    go (inr (p, ws')) (inl err) sound = tt
    go (inr (p, ws')) (inr w) (off, only, sev, set) =
        rw (resolve_options-slow (trimmed parse_duration) fallback registry p w) (
          slow_settings-is_positive (trimmed parse_duration)
            (settings_of p.settings (codes "slow-query")) (pos 200000000)
            (settings_of-AreReadable registry (trimmed parse_duration) p.settings
              (codes "slow-query") set)
            refl)
