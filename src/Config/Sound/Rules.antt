-- ===== src/Config/Sound/Rules.antt =====
-- Which names and settings the profile of config/config.go has.
use sqlguard.Prelude.{
  ◌≡◌, refl, ℤ, Bool, true, false, List, [], ◌∷◌, Option, Bytes, Map, All, All-insert, lookup,
  Bool-cases, inl, inr, arith,
}
use sqlguard.Analyzer.Types.{Dialect}
use sqlguard.Analyzer.Settings.{Value, Settings}
use sqlguard.Analyzer.Registry.{Registry, Profile}
use sqlguard.Config.Warnings.{unknown_rule, invalid_severity, Checked, ok, ◌>>=◌, ◌>>◌}
use sqlguard.Config.Settings.{rule_tunables, check_settings}
use sqlguard.Config.Profile.{
  raw_query, RulesConfig, Level, at_severity, turned_off, invalid, is_registered, check_name,
  collect_names, apply_level, apply_severities, check_scan_has_rules, apply_settings,
  config_dialect, resolve, start, resolve_rules, settle, add_name, set_settings, apply_usable,
  parse_severity,
}
use sqlguard.Config.Sound.{Ensures, >>=-Ensures, any, warn-Ensures}
use sqlguard.Config.Sound.Values.{AreReadable, check_settings-AreReadable}

module _ (registry : Registry) (parse_duration : Bytes → Option ℤ) where
  abbrev IsRule : Bytes → Type 0
  IsRule name = is_registered registry name ≡ true

  -- Every name is that of a registered rule.
  abbrev pub AreRules {ℓ} : {V : Type ℓ} → Map V → Type 0
  AreRules m = All (λ e. IsRule e.0) m

  -- The settings of a registered rule, each readable.
  abbrev pub AreSettings : Map Settings → Type 0
  AreSettings m =
      All (λ e. IsRule e.0 × AreReadable parse_duration (lookup e.0 rule_tunables) e.1) m

  abbrev pub IsSound : Profile → Type 0
  IsSound p = AreRules p.disabled × AreRules p.only × AreRules p.severity × AreSettings p.settings

  check_name-IsRule :
      (strict : Bool) (name : Bytes)
      → Ensures
          (λ usable. usable ≡ true → IsRule name)
          (check_name registry parse_duration strict name)
  unfolding check_name
  check_name-IsRule strict name = elim (Bool-cases (is_registered registry name)) [
    | inl known ↦ rw known (λ ws e. refl)
    | inr unknown ↦ rw unknown (
        warn-Ensures (λ usable. usable ≡ true → false ≡ true) strict (unknown_rule name) false
          (λ e. ground (arith, e)))
  ]

  add_name-AreRules :
      (into : Map Bool) (name : Bytes) (usable : Bool)
      → AreRules into
      → (usable ≡ true → IsRule name)
      → AreRules (add_name into name usable)
  add_name-AreRules into name true all known =
      All-insert (λ e. IsRule e.0) name true into (known refl) all
  add_name-AreRules into name false all known = all

  collect_names-AreRules :
      (strict : Bool) (names : List Bytes) (into : Map Bool)
      → AreRules into
      → Ensures AreRules (collect_names registry parse_duration strict names into)
  unfolding collect_names
  collect_names-AreRules strict [] into all = λ ws. all
  collect_names-AreRules strict (name ∷ names) into all =
      >>=-Ensures (λ usable. usable ≡ true → IsRule name) AreRules
        (check_name registry parse_duration strict name)
        (λ usable. collect_names registry parse_duration strict names (add_name into name usable))
        (check_name-IsRule strict name)
        (λ usable known.
          collect_names-AreRules strict names (add_name into name usable)
            (add_name-AreRules into name usable all known))

  apply_level-IsSound :
      (strict : Bool) (p : Profile) (name text : Bytes) (level : Level)
      → IsRule name
      → IsSound p
      → Ensures IsSound (apply_level registry parse_duration strict p name text level)
  unfolding apply_level
  apply_level-IsSound strict p name text (at_severity severity) known (off, only, sev, set) =
      λ ws. (off, only, All-insert (λ e. IsRule e.0) name severity p.severity known sev, set)
  apply_level-IsSound strict p name text turned_off known (off, only, sev, set) =
      λ ws. (All-insert (λ e. IsRule e.0) name true p.disabled known off, only, sev, set)
  apply_level-IsSound strict p name text invalid known sound =
      warn-Ensures IsSound strict (invalid_severity name text) p sound

  apply_usable-IsSound :
      (strict : Bool) (p : Profile) (name text : Bytes) (usable : Bool)
      → (usable ≡ true → IsRule name)
      → IsSound p
      → Ensures IsSound (apply_usable registry parse_duration strict p name text usable)
  apply_usable-IsSound strict p name text true known sound =
      apply_level-IsSound strict p name text (parse_severity text) (known refl) sound
  apply_usable-IsSound strict p name text false known sound = λ ws. sound

  apply_severities-IsSound :
      (strict : Bool) (sevs : Map Bytes) (p : Profile)
      → IsSound p
      → Ensures IsSound (apply_severities registry parse_duration strict sevs p)
  unfolding apply_severities
  apply_severities-IsSound strict [] p sound = λ ws. sound
  apply_severities-IsSound strict ((name, text) ∷ sevs) p sound =
      >>=-Ensures (λ usable. usable ≡ true → IsRule name) IsSound
        (check_name registry parse_duration strict name)
        (λ usable.
          apply_usable registry parse_duration strict p name text usable
          >>= (λ p'. apply_severities registry parse_duration strict sevs p'))
        (check_name-IsRule strict name)
        (λ usable known.
          >>=-Ensures IsSound IsSound
            (apply_usable registry parse_duration strict p name text usable)
            (λ p'. apply_severities registry parse_duration strict sevs p')
            (apply_usable-IsSound strict p name text usable known sound)
            (λ p' sound'. apply_severities-IsSound strict sevs p' sound'))

  set_settings-IsSound :
      (p : Profile) (name : Bytes) (kept : Settings)
      → IsRule name
      → AreReadable parse_duration (lookup name rule_tunables) kept
      → IsSound p
      → IsSound (set_settings p name kept)
  set_settings-IsSound p name [] known all sound = sound
  set_settings-IsSound p name (entry ∷ kept) known all (off, only, sev, set) = (
    off,
    only,
    sev,
    All-insert (λ e. IsRule e.0 × AreReadable parse_duration (lookup e.0 rule_tunables) e.1) name
        (entry ∷ kept) p.settings (known, all) set,
  )

  settle-IsSound :
      (strict : Bool) (p : Profile) (name : Bytes) (kv : Map Value) (usable : Bool)
      → (usable ≡ true → IsRule name)
      → IsSound p
      → Ensures IsSound (settle registry parse_duration strict p name kv usable)
  settle-IsSound strict p name kv false known sound = λ ws. sound
  settle-IsSound strict p name kv true known sound =
      >>=-Ensures (AreReadable parse_duration (lookup name rule_tunables)) IsSound
        (check_settings parse_duration strict name kv) (λ kept. ok (set_settings p name kept))
        (check_settings-AreReadable parse_duration strict name kv)
        (λ kept all ws. set_settings-IsSound p name kept (known refl) all sound)

  apply_settings-IsSound :
      (strict : Bool) (settings : Map (Map Value)) (p : Profile)
      → IsSound p
      → Ensures IsSound (apply_settings registry parse_duration strict settings p)
  unfolding apply_settings
  apply_settings-IsSound strict [] p sound = λ ws. sound
  apply_settings-IsSound strict ((name, kv) ∷ settings) p sound =
      >>=-Ensures (λ usable. usable ≡ true → IsRule name) IsSound
        (check_name registry parse_duration strict name)
        (λ usable.
          settle registry parse_duration strict p name kv usable
          >>= (λ p'. apply_settings registry parse_duration strict settings p'))
        (check_name-IsRule strict name)
        (λ usable known.
          >>=-Ensures IsSound IsSound (settle registry parse_duration strict p name kv usable)
            (λ p'. apply_settings registry parse_duration strict settings p')
            (settle-IsSound strict p name kv usable known sound)
            (λ p' sound'. apply_settings-IsSound strict settings p' sound'))

  resolve_rules-IsSound :
      (strict : Bool) (rules : RulesConfig) (p : Profile)
      → IsSound p
      → Ensures IsSound (resolve_rules registry parse_duration strict rules p)
  unfolding resolve_rules
  resolve_rules-IsSound strict rules p sound =
      >>=-Ensures IsSound IsSound (apply_severities registry parse_duration strict rules.severity p)
        (λ p'.
          check_scan_has_rules registry parse_duration strict rules.only p'
          >> apply_settings registry parse_duration strict rules.settings p')
        (apply_severities-IsSound strict rules.severity p sound)
        (λ p' sound'.
          >>=-Ensures (λ _. Unit) IsSound
            (check_scan_has_rules registry parse_duration strict rules.only p')
            (λ _. apply_settings registry parse_duration strict rules.settings p')
            (any (check_scan_has_rules registry parse_duration strict rules.only p'))
            (λ _ _. apply_settings-IsSound strict rules.settings p' sound'))

  -- A configuration, strict or not, resolves to a profile that disables, selects, grades and tunes
  -- registered rules only, and whose settings are those of the rule and are all readable: the
  -- accessor of the setting's kind gives a number or a duration, and a positive one where the kind
  -- says so.
  pub resolve-IsSound :
      (strict : Bool) (rules : RulesConfig) (redact : Option Bool) (dialect : Bytes)
      → Ensures IsSound (resolve registry parse_duration strict rules redact dialect)
  unfolding resolve
  resolve-IsSound strict rules redact dialect =
      >>=-Ensures (λ _. Unit) IsSound (config_dialect registry parse_duration strict dialect)
        (λ d. collect_names registry parse_duration strict rules.disable [] >>= within_lists d)
        (any (config_dialect registry parse_duration strict dialect))
        (λ d _.
          >>=-Ensures AreRules IsSound
            (collect_names registry parse_duration strict rules.disable []) (within_lists d)
            (collect_names-AreRules strict rules.disable [] tt)
            (λ disabled off.
              >>=-Ensures AreRules IsSound
                (collect_names registry parse_duration strict rules.only [])
                (λ only.
                  resolve_rules registry parse_duration strict rules
                    (start (raw_query redact) d disabled only))
                (collect_names-AreRules strict rules.only [] tt)
                (λ only all.
                  resolve_rules-IsSound strict rules (start (raw_query redact) d disabled only)
                    (off, all, tt, tt))))
    where
      within_lists : Dialect → Map Bool → Checked Profile
      within_lists d disabled = do
        only ← collect_names registry parse_duration strict rules.only []
        resolve_rules registry parse_duration strict rules
            (start (raw_query redact) d disabled only)
