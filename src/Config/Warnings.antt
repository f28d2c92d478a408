-- ===== src/Config/Warnings.antt =====
-- The closure `warn` of `Profile` in config/config.go, and the checks that call it: under `strict`
-- the first warning is the error, and otherwise the warnings are collected.
use sqlguard.Prelude.{Bool, true, false, List, [], ◌∷◌, ◌++◌, Bytes, ◌⊎◌, inl, inr}
use sqlguard.Analyzer.Settings.{Value}

-- A message before `fmt.Sprintf` prints it.
pub data Warning : Type 0 where
  undecodable : Bytes → Warning
  unknown_dialect : Bytes → Warning
  unknown_rule : Bytes → Warning
  only_selects_nothing nothing_scanned : Warning
  invalid_severity : Bytes → Bytes → Warning
  no_settings : Bytes → Bytes → Warning
  unknown_setting : Bytes → Bytes → Warning
  not_a_duration not_a_number not_positive : Bytes → Bytes → Value → Warning
  unpaired : Bytes → List Bytes → List Bytes → Warning

-- A check: from the warnings so far to an error, or to a value and the warnings.
abbrev pub Checked {ℓ} : Type ℓ → Type ℓ
Checked A = List Warning → Warning ⊎ (A × List Warning)

abbrev pub ok {ℓ} : {A : Type ℓ} → A → Checked A
ok a ws = inr (a, ws)

abbrev pub continue {ℓ κ} :
    {A : Type ℓ} {B : Type κ}
    → (A → Checked B)
    → Warning ⊎ (A × List Warning)
    → Warning ⊎ (B × List Warning)
continue f (inl w) = inl w
continue f (inr (a, ws)) = f a ws

infixl 5 ◌>>=◌ ◌>>◌
abbrev pub ◌>>=◌ {ℓ κ} : {A : Type ℓ} {B : Type κ} → Checked A → (A → Checked B) → Checked B
(m >>= f) ws = continue f (m ws)

abbrev pub ◌>>◌ {ℓ} : {B : Type ℓ} → Checked (Unit {0}) → Checked B → Checked B
m >> k = m >>= λ _. k

abbrev pub warn : Bool → Warning → Checked (Unit {0})
warn true w ws = inl w
warn false w ws = inr (tt, ws ++ w ∷ [])
