-- ===== src/Config/Strict/Values.antt =====
-- The checks of the settings in config/config.go under `strict`.
use sqlguard.Prelude.{
  ℤ, Bool, true, false, List, [], ◌∷◌, Option, none, some, Bytes, Map, lookup, insert, is_positive,
  not, ◌&&◌, if◌then◌else◌,
}
use sqlguard.Analyzer.Settings.{Value, Settings, lookup_int, lookup_duration}
use sqlguard.Config.Warnings.{
  not_a_duration, not_a_number, not_positive, no_settings, unknown_setting, unpaired, Warning, ok,
}
use sqlguard.Config.Settings.{
  reject, check_duration, check_int, check_entry, check_halves, kind_of, keys_of, pair_of, one,
  rule_tunables, paired_settings, SettingKind, setting_duration, setting_positive_duration,
  setting_int, setting_positive_int, Kinds, check_setting_value, check_entries, check_pair,
  check_settings,
}
use sqlguard.Config.Strict.{Agree, ok-Agree, >>=-Agree, if-Agree, warned-Agree}

module _ (parse_duration : Bytes → Option ℤ) (rule : Bytes) where
  reject-Agree : (w : Warning) → Agree (λ strict. reject parse_duration strict rule w)
  reject-Agree w = warned-Agree w true

  check_duration-Agree :
      (key : Bytes) (positive : Bool) (v : Value) (o : Option ℤ)
      → Agree (λ strict. check_duration parse_duration strict rule key positive v o)
  check_duration-Agree key positive v none = reject-Agree (not_a_duration rule key v)
  check_duration-Agree key positive v (some d) =
      if-Agree (positive && not (is_positive d))
        (λ strict. reject parse_duration strict rule (not_positive rule key v)) (λ strict. ok false)
        (reject-Agree (not_positive rule key v)) (ok-Agree false)

  check_int-Agree :
      (key : Bytes) (positive : Bool) (v : Value) (o : Option ℤ)
      → Agree (λ strict. check_int parse_duration strict rule key positive v o)
  check_int-Agree key positive v none = reject-Agree (not_a_number rule key v)
  check_int-Agree key positive v (some n) =
      if-Agree (positive && not (is_positive n))
        (λ strict. reject parse_duration strict rule (not_positive rule key v)) (λ strict. ok false)
        (reject-Agree (not_positive rule key v)) (ok-Agree false)

  check_setting_value-Agree :
      (key : Bytes) (kind : SettingKind) (v : Value)
      → Agree (λ strict. check_setting_value parse_duration strict rule key kind v)
  unfolding check_setting_value
  check_setting_value-Agree key setting_duration v =
      check_duration-Agree key false v (lookup_duration parse_duration (one key v) key)
  check_setting_value-Agree key setting_positive_duration v =
      check_duration-Agree key true v (lookup_duration parse_duration (one key v) key)
  check_setting_value-Agree key setting_int v =
      check_int-Agree key false v (lookup_int (one key v) key)
  check_setting_value-Agree key setting_positive_int v =
      check_int-Agree key true v (lookup_int (one key v) key)

  check_entry-Agree :
      (kinds : Option Kinds) (key : Bytes) (v : Value) (kept : Settings) (kind : Option SettingKind)
      → Agree (λ strict. check_entry parse_duration strict rule kinds key v kept kind)
  check_entry-Agree kinds key v kept (some kind) =
      >>=-Agree (λ strict. check_setting_value parse_duration strict rule key kind v)
        (λ strict bad. ok (if bad then kept else insert key v kept))
        (check_setting_value-Agree key kind v) (λ bad. ok-Agree _)
  check_entry-Agree none key v kept none = warned-Agree (no_settings rule key) kept
  check_entry-Agree (some kinds) key v kept none = warned-Agree (unknown_setting rule key) kept

  check_entries-Agree :
      (kinds : Option Kinds) (kv : Map Value) (kept : Settings)
      → Agree (λ strict. check_entries parse_duration strict rule kinds kv kept)
  unfolding check_entries
  check_entries-Agree kinds [] kept = ok-Agree kept
  check_entries-Agree kinds ((key, v) ∷ kv) kept =
      >>=-Agree
        (λ strict. check_entry parse_duration strict rule kinds key v kept (kind_of kinds key))
        (λ strict kept'. check_entries parse_duration strict rule kinds kv kept')
        (check_entry-Agree kinds key v kept (kind_of kinds key))
        (λ kept'. check_entries-Agree kinds kv kept')

  check_halves-Agree :
      (kept : Settings) (have missing : List Bytes)
      → Agree (λ strict. check_halves parse_duration strict rule kept have missing)
  check_halves-Agree kept [] missing = ok-Agree kept
  check_halves-Agree kept (h ∷ have) [] = ok-Agree kept
  check_halves-Agree kept (h ∷ have) (m ∷ missing) =
      warned-Agree (unpaired rule (h ∷ have) (m ∷ missing)) kept

  check_pair-Agree :
      (kept : Settings) (pair : List Bytes)
      → Agree (λ strict. check_pair parse_duration strict rule kept pair)
  unfolding check_pair
  check_pair-Agree kept pair =
      check_halves-Agree kept (keys_of true kept pair) (keys_of false kept pair)

  pub check_settings-Agree :
      (kv : Map Value) → Agree (λ strict. check_settings parse_duration strict rule kv)
  unfolding check_settings
  check_settings-Agree kv =
      >>=-Agree
        (λ strict. check_entries parse_duration strict rule (lookup rule rule_tunables) kv [])
        (λ strict kept.
          check_pair parse_duration strict rule kept (pair_of (lookup rule paired_settings)))
        (check_entries-Agree (lookup rule rule_tunables) kv [])
        (λ kept. check_pair-Agree kept (pair_of (lookup rule paired_settings)))
