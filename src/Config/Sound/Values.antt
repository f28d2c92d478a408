-- ===== src/Config/Sound/Values.antt =====
-- Which values of settings the checks of config/config.go keep.
use sqlguard.Prelude.{
  ◌≡◌, refl, ℤ, is_positive, Bool, true, false, not, ◌&&◌, List, [], ◌∷◌, Option, none, some, Bytes,
  Map, All, All-insert, lookup, equal_refl, Bool-cases, inl, inr, arith,
}
use sqlguard.Analyzer.Settings.{Value, Settings, as_int, as_duration, lookup_int, lookup_duration}
use sqlguard.Config.Warnings.{
  not_a_duration, not_a_number, not_positive, no_settings, unknown_setting, unpaired, ok,
}
use sqlguard.Config.Settings.{
  pair_of, keys_of, paired_settings, SettingKind, setting_duration, setting_positive_duration,
  setting_int, setting_positive_int, Kinds, keep_good, kind_of, check_duration, check_int,
  rule_tunables, check_setting_value, check_entry, check_entries, check_halves, check_pair,
  check_settings,
}
use sqlguard.Config.Sound.{Ensures, >>=-Ensures, warn-Ensures}

abbrev pub within : Bool → Option ℤ → Bool
within positive none = false
within positive (some n) = not (positive && not (is_positive n))

-- The accessor of the setting's kind reads the value, and a positive one where the kind says so.
unfoldable pub is_readable : (Bytes → Option ℤ) → Option SettingKind → Value → Bool
unfolding as_int as_duration
is_readable parse_duration none v = false
is_readable parse_duration (some setting_duration) v =
    within false (as_duration parse_duration (some v))
is_readable parse_duration (some setting_positive_duration) v =
    within true (as_duration parse_duration (some v))
is_readable parse_duration (some setting_int) v = within false (as_int (some v))
is_readable parse_duration (some setting_positive_int) v = within true (as_int (some v))

-- Each entry is readable by the kind of its key.
abbrev pub AreReadable : (Bytes → Option ℤ) → Option Kinds → Settings → Type 0
AreReadable parse_duration kinds s =
    All (λ e. is_readable parse_duration (kind_of kinds e.0) e.1 ≡ true) s

module _ (parse_duration : Bytes → Option ℤ) (strict : Bool) (rule : Bytes) where
  check_duration-within :
      (key : Bytes) (positive : Bool) (v : Value) (o : Option ℤ)
      → Ensures
          (λ bad. bad ≡ false → within positive o ≡ true)
          (check_duration parse_duration strict rule key positive v o)
  check_duration-within key positive v none =
      warn-Ensures (λ bad. bad ≡ false → within positive none ≡ true) strict
        (not_a_duration rule key v) true (λ e. ground (arith, e))
  check_duration-within key positive v (some d) =
      elim (Bool-cases (positive && not (is_positive d))) [
        | inl low ↦ rw low (
            warn-Ensures (λ bad. bad ≡ false → false ≡ true) strict (not_positive rule key v) true
              (λ e. ground (arith, e)))
        | inr fine ↦ rw fine (λ ws e. refl)
      ]

  check_int-within :
      (key : Bytes) (positive : Bool) (v : Value) (o : Option ℤ)
      → Ensures
          (λ bad. bad ≡ false → within positive o ≡ true)
          (check_int parse_duration strict rule key positive v o)
  check_int-within key positive v none =
      warn-Ensures (λ bad. bad ≡ false → within positive none ≡ true) strict
        (not_a_number rule key v) true (λ e. ground (arith, e))
  check_int-within key positive v (some d) = elim (Bool-cases (positive && not (is_positive d))) [
    | inl low ↦ rw low (
        warn-Ensures (λ bad. bad ≡ false → false ≡ true) strict (not_positive rule key v) true
          (λ e. ground (arith, e)))
    | inr fine ↦ rw fine (λ ws e. refl)
  ]

  check_setting_value-is_readable :
      (key : Bytes) (kind : SettingKind) (v : Value)
      → Ensures
          (λ bad. bad ≡ false → is_readable parse_duration (some kind) v ≡ true)
          (check_setting_value parse_duration strict rule key kind v)
  unfolding check_setting_value is_readable lookup_int lookup_duration lookup
  check_setting_value-is_readable key setting_duration v =
      rw (equal_refl key) (check_duration-within key false v (as_duration parse_duration (some v)))
  check_setting_value-is_readable key setting_positive_duration v =
      rw (equal_refl key) (check_duration-within key true v (as_duration parse_duration (some v)))
  check_setting_value-is_readable key setting_int v =
      rw (equal_refl key) (check_int-within key false v (as_int (some v)))
  check_setting_value-is_readable key setting_positive_int v =
      rw (equal_refl key) (check_int-within key true v (as_int (some v)))

  keep_good-AreReadable :
      (kinds : Option Kinds) (key : Bytes) (v : Value) (kept : Settings) (bad : Bool)
      → AreReadable parse_duration kinds kept
      → (bad ≡ false → is_readable parse_duration (kind_of kinds key) v ≡ true)
      → AreReadable parse_duration kinds (keep_good key v kept bad)
  keep_good-AreReadable kinds key v kept true all one_more = all
  keep_good-AreReadable kinds key v kept false all one_more =
      All-insert (λ e. is_readable parse_duration (kind_of kinds e.0) e.1 ≡ true) key v kept
        (one_more refl) all

  check_entry-AreReadable :
      (kinds : Option Kinds) (key : Bytes) (v : Value) (kept : Settings) (kind : Option SettingKind)
      → kind_of kinds key ≡ kind
      → AreReadable parse_duration kinds kept
      → Ensures
          (AreReadable parse_duration kinds)
          (check_entry parse_duration strict rule kinds key v kept kind)
  check_entry-AreReadable kinds key v kept (some kind) e all =
      >>=-Ensures (λ bad. bad ≡ false → is_readable parse_duration (some kind) v ≡ true)
        (AreReadable parse_duration kinds)
        (check_setting_value parse_duration strict rule key kind v)
        (λ bad. ok (keep_good key v kept bad)) (check_setting_value-is_readable key kind v)
        (λ bad good ws. keep_good-AreReadable kinds key v kept bad all (rw e good))
  check_entry-AreReadable none key v kept none e all =
      warn-Ensures (AreReadable parse_duration none) strict (no_settings rule key) kept all
  check_entry-AreReadable (some kinds) key v kept none e all =
      warn-Ensures (AreReadable parse_duration (some kinds)) strict (unknown_setting rule key) kept
        all

  check_entries-AreReadable :
      (kinds : Option Kinds) (kv : Map Value) (kept : Settings)
      → AreReadable parse_duration kinds kept
      → Ensures
          (AreReadable parse_duration kinds)
          (check_entries parse_duration strict rule kinds kv kept)
  unfolding check_entries
  check_entries-AreReadable kinds [] kept all = λ ws. all
  check_entries-AreReadable kinds ((key, v) ∷ kv) kept all =
      >>=-Ensures (AreReadable parse_duration kinds) (AreReadable parse_duration kinds)
        (check_entry parse_duration strict rule kinds key v kept (kind_of kinds key))
        (λ kept'. check_entries parse_duration strict rule kinds kv kept')
        (check_entry-AreReadable kinds key v kept (kind_of kinds key) refl all)
        (λ kept' all'. check_entries-AreReadable kinds kv kept' all')

  check_halves-Ensures :
      (P : Settings → Type 0) (kept : Settings) (have missing : List Bytes)
      → P kept
      → Ensures P (check_halves parse_duration strict rule kept have missing)
  check_halves-Ensures P kept [] missing p = λ ws. p
  check_halves-Ensures P kept (h ∷ have) [] p = λ ws. p
  check_halves-Ensures P kept (h ∷ have) (m ∷ missing) p =
      warn-Ensures P strict (unpaired rule (h ∷ have) (m ∷ missing)) kept p

  pub check_settings-AreReadable :
      (kv : Map Value)
      → Ensures
          (AreReadable parse_duration (lookup rule rule_tunables))
          (check_settings parse_duration strict rule kv)
  unfolding check_settings check_pair
  check_settings-AreReadable kv =
      let kinds = lookup rule rule_tunables in
      let pair = pair_of (lookup rule paired_settings) in
      >>=-Ensures (AreReadable parse_duration kinds) (AreReadable parse_duration kinds)
        (check_entries parse_duration strict rule kinds kv [])
        (λ kept.
          check_halves parse_duration strict rule kept (keys_of true kept pair)
            (keys_of false kept pair))
        (check_entries-AreReadable kinds kv [] tt)
        (λ kept all.
          check_halves-Ensures (AreReadable parse_duration kinds) kept (keys_of true kept pair)
            (keys_of false kept pair) all)
