-- ===== src/Config/Strict.antt =====
-- What `strict` changes in `Profile` of config/config.go.
pub mod Values
pub mod Rules
use sqlguard.Prelude.{
  ◌≡◌, refl, sym, ap, ◌∙◌, ℤ, Bool, true, false, List, [], ◌∷◌, ◌++◌, append_assoc, append_nil,
  Option, none, some, Bytes, Map, lookup, insert, ◌⊎◌, inl, inr, equal, is_positive, not, ◌&&◌,
  if◌then◌else◌, arith,
}
use sqlguard.Analyzer.Types.{Dialect, dialect_unknown}
use sqlguard.Analyzer.Dialects.{parse_dialect}
use sqlguard.Analyzer.Settings.{Value, Settings, lookup_int, lookup_duration}
use sqlguard.Analyzer.Registry.{Registry, Profile}
use sqlguard.Config.Warnings.{
  unknown_rule, invalid_severity, unknown_dialect, only_selects_nothing, nothing_scanned,
  not_a_duration, not_a_number, not_positive, no_settings, unknown_setting, unpaired, Warning,
  Checked, ok, ◌>>=◌, ◌>>◌, continue, warn,
}
use sqlguard.Config.Settings.{
  SettingKind, setting_duration, setting_positive_duration, setting_int, setting_positive_int,
  Kinds, check_setting_value, check_entries, check_pair, check_settings,
}
use sqlguard.Config.Profile.{
  apply_usable, parse_severity, RulesConfig, Level, at_severity, turned_off, invalid, check_name,
  collect_names, apply_level, apply_severities, check_scan_has_rules, apply_settings,
  config_dialect, resolve, is_registered,
}

-- The strict outcome for the warnings that the lenient run adds: the first of them is the error.
abbrev pub verdict {ℓ} :
    {A : Type ℓ} → A → List Warning → List Warning → Warning ⊎ (A × List Warning)
verdict a ws [] = inr (a, ws)
verdict a ws (w ∷ _) = inl w

-- The lenient run ends with a value, and what it adds to the warnings decides the strict one.
abbrev pub Agree {ℓ} : {A : Type ℓ} → (Bool → Checked A) → Type ℓ
Agree {A = A} m =
    (ws : List Warning)
    → (a : A) × ((new : List Warning) × ((m false ws ≡ inr (a, ws ++ new))
          × (m true ws ≡ verdict a ws new)))

pub ok-Agree {ℓ} : {A : Type ℓ} (a : A) → Agree (λ strict. ok a)
ok-Agree a ws = (a, ([], (rw (append_nil ws) refl, refl)))

pub warn-Agree : (w : Warning) → Agree (λ strict. warn strict w)
warn-Agree w ws = (tt, (w ∷ [], (refl, refl)))

-- A continuation behind a check whose runs are known.
continue-verdict {ℓ κ} :
    {A : Type ℓ} {B : Type κ} (f : Bool → A → Checked B) (ws : List Warning) (a : A)
    (new : List Warning) (lenient strict : Warning ⊎ (A × List Warning))
    → ((a : A) → Agree (λ strict. f strict a))
    → lenient ≡ inr (a, ws ++ new)
    → strict ≡ verdict a ws new
    → (b : B) × ((all : List Warning) × ((continue (f false) lenient ≡ inr (b, ws ++ all))
          × (continue (f true) strict ≡ verdict b ws all)))
continue-verdict f ws a [] lenient strict each e e' =
    let (b, (more, (l, s))) = each a ws in (b, (more, (rw (e, append_nil ws) l, rw e' s)))
continue-verdict f ws a (w ∷ new) lenient strict each e e' =
    let (b, (more, (l, s))) = each a (ws ++ w ∷ new) in
    (
      b,
      (
        w ∷ new ++ more,
        (
          rw e (l ∙ ap (λ (all : List Warning). inr (b, all)) (append_assoc ws (w ∷ new) more)),
          rw e' refl,
        ),
      ),
    )

pub >>=-Agree {ℓ κ} :
    {A : Type ℓ} {B : Type κ} (m : Bool → Checked A) (f : Bool → A → Checked B)
    → Agree m
    → ((a : A) → Agree (λ strict. f strict a))
    → Agree (λ strict. m strict >>= f strict)
>>=-Agree m f agree each ws =
    let (a, (new, (lenient, strict))) = agree ws in
    continue-verdict f ws a new (m false ws) (m true ws) each lenient strict

pub if-Agree {ℓ} :
    {A : Type ℓ} (b : Bool) (m n : Bool → Checked A)
    → Agree m
    → Agree n
    → Agree (λ strict. if b then m strict else n strict)
if-Agree true m n yes_m no_n = yes_m
if-Agree false m n yes_m no_n = no_n

-- A warning, and then a value.
pub warned-Agree {ℓ} : {A : Type ℓ} (w : Warning) (a : A) → Agree (λ strict. warn strict w >> ok a)
warned-Agree w a =
    >>=-Agree (λ strict. warn strict w) (λ strict _. ok a) (warn-Agree w) (λ _. ok-Agree a)
