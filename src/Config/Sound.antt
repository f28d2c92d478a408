-- ===== src/Config/Sound.antt =====
-- What `Profile` of config/config.go lets into a profile.
pub mod Values
pub mod Rules
use sqlguard.Prelude.{
  ◌≡◌, refl, ap, ◌∙◌, ℤ, is_positive, ◌⊎◌, Bool, true, false, not, ◌&&◌, List, [], ◌∷◌, ◌++◌,
  Option, none, some, Bytes, Map, All, All-insert, lookup, insert, equal, equal_refl, Bool-cases,
  inl, inr, if◌then◌else◌, arith,
}
use sqlguard.Analyzer.Types.{Dialect}
use sqlguard.Analyzer.Dialects.{parse_dialect}
use sqlguard.Analyzer.Settings.{Value, Settings, as_int, as_duration, lookup_int, lookup_duration}
use sqlguard.Analyzer.Registry.{Registry, Profile}
use sqlguard.Config.Warnings.{continue, Warning, Checked, ok, ◌>>=◌, ◌>>◌, warn}
use sqlguard.Config.Settings.{
  SettingKind, setting_duration, setting_positive_duration, setting_int, setting_positive_int,
  Kinds, one, keep_good, kind_of, check_duration, check_int, rule_tunables, check_setting_value,
  check_entry, check_entries, check_halves, check_pair, check_settings,
}
use sqlguard.Config.Profile.{
  RulesConfig, Level, at_severity, turned_off, invalid, is_registered, check_name, collect_names,
  apply_level, apply_severities, check_scan_has_rules, apply_settings, config_dialect, resolve,
  start, resolve_rules, settle, add_name, set_settings, apply_usable, parse_severity,
}

-- What holds of a check's value, if there is one.
abbrev pub Holds {ℓ} : {A : Type ℓ} → (A → Type 0) → Warning ⊎ (A × List Warning) → Type 0
Holds P (inl w) = Unit
Holds P (inr (a, ws)) = P a

abbrev pub Ensures {ℓ} : {A : Type ℓ} → (A → Type 0) → Checked A → Type 0
Ensures P m = (ws : List Warning) → Holds P (m ws)

continue-Holds {ℓ κ} :
    {A : Type ℓ} {B : Type κ} (Q : A → Type 0) (P : B → Type 0) (f : A → Checked B)
    (o : Warning ⊎ (A × List Warning))
    → Holds Q o
    → ((a : A) → Q a → Ensures P (f a))
    → Holds P (continue f o)
continue-Holds Q P f (inl w) q each = tt
continue-Holds Q P f (inr (a, ws)) q each = each a q ws

pub >>=-Ensures {ℓ κ} :
    {A : Type ℓ} {B : Type κ} (Q : A → Type 0) (P : B → Type 0) (m : Checked A) (f : A → Checked B)
    → Ensures Q m
    → ((a : A) → Q a → Ensures P (f a))
    → Ensures P (m >>= f)
>>=-Ensures Q P m f first each ws = continue-Holds Q P f (m ws) (first ws) each

-- A check whose value does not matter.
pub any {ℓ} : {A : Type ℓ} (m : Checked A) → Ensures (λ _. Unit) m
any m ws = go (m ws)
  where
    go : {A : Type ℓ} (o : Warning ⊎ (A × List Warning)) → Holds (λ _. Unit) o
    go (inl w) = tt
    go (inr (a, ws')) = tt

pub warn-Ensures {ℓ} :
    {A : Type ℓ} (P : A → Type 0) (strict : Bool) (w : Warning) (a : A)
    → P a
    → Ensures P (warn strict w >> ok a)
warn-Ensures P true w a p ws = tt
warn-Ensures P false w a p ws = p
