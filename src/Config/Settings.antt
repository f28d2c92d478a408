-- ===== src/Config/Settings.antt =====
-- The checks of the rules' settings in config/config.go.
use sqlguard.Prelude.{
  Bool, true, false, not, ◌&&◌, List, [], ◌∷◌, Option, none, some, Bytes, codes, ℤ, is_positive,
  Map, lookup, insert, if◌then◌else◌,
}
use sqlguard.Analyzer.Settings.{Value, Settings, lookup_int, lookup_duration}
use sqlguard.Config.Warnings.{
  Warning, Checked, ok, ◌>>=◌, ◌>>◌, warn, no_settings, unknown_setting, not_a_duration,
  not_a_number, not_positive, unpaired,
}

pub data SettingKind : Type 0 where
  setting_duration setting_int setting_positive_int setting_positive_duration : SettingKind

abbrev pub Kinds : Type 0
Kinds = Map SettingKind

abbrev pub rule_tunables : Map Kinds
rule_tunables =
    (codes "slow-query", (codes "threshold", setting_positive_duration) ∷ [])
    ∷ (
      codes "n-plus-one",
      (codes "threshold", setting_positive_int) ∷ (codes "window", setting_positive_duration) ∷ [],
    )
    ∷ (codes "leading-wildcard", (codes "min-length", setting_int) ∷ [])
    ∷ (codes "in-list-too-large", (codes "max-length", setting_int) ∷ [])
    ∷ (codes "large-offset", (codes "threshold", setting_int) ∷ [])
    ∷ []

abbrev pub paired_settings : Map (List Bytes)
paired_settings = (codes "n-plus-one", codes "threshold" ∷ codes "window" ∷ []) ∷ []

abbrev pub one : Bytes → Value → Settings
one key v = (key, v) ∷ []

abbrev pub keep_good : Bytes → Value → Settings → Bool → Settings
keep_good key v kept bad = if bad then kept else insert key v kept

abbrev pub kind_of : Option Kinds → Bytes → Option SettingKind
kind_of none key = none
kind_of (some kinds) key = lookup key kinds

abbrev is_present : Option Value → Bool
is_present none = false
is_present (some _) = true

-- The keys of a pair that are present, or those that are missing.
unfoldable pub keys_of : Bool → Settings → List Bytes → List Bytes
unfolding lookup
keys_of present kept [] = []
keys_of true kept (key ∷ pair) =
    if is_present (lookup key kept) then key ∷ keys_of true kept pair else keys_of true kept pair
keys_of false kept (key ∷ pair) =
    if is_present (lookup key kept) then keys_of false kept pair else key ∷ keys_of false kept pair

abbrev pub pair_of : Option (List Bytes) → List Bytes
pair_of none = []
pair_of (some pair) = pair

-- `strict` is the closure's flag, and `time.ParseDuration` behind `strings.TrimSpace` is the
-- parameter that the accessors take.
module _ (parse_duration : Bytes → Option ℤ) (strict : Bool) (rule : Bytes) where
  -- The value was rejected.
  abbrev pub reject : Warning → Checked Bool
  reject w = do warn strict w; ok true

  abbrev pub check_duration : Bytes → Bool → Value → Option ℤ → Checked Bool
  check_duration key positive v none = reject (not_a_duration rule key v)
  check_duration key positive v (some d) =
      if positive && not (is_positive d) then reject (not_positive rule key v) else ok false

  abbrev pub check_int : Bytes → Bool → Value → Option ℤ → Checked Bool
  check_int key positive v none = reject (not_a_number rule key v)
  check_int key positive v (some n) =
      if positive && not (is_positive n) then reject (not_positive rule key v) else ok false

  unfoldable pub check_setting_value : Bytes → SettingKind → Value → Checked Bool
  unfolding lookup_int lookup_duration
  check_setting_value key setting_duration v =
      check_duration key false v (lookup_duration parse_duration (one key v) key)
  check_setting_value key setting_positive_duration v =
      check_duration key true v (lookup_duration parse_duration (one key v) key)
  check_setting_value key setting_int v = check_int key false v (lookup_int (one key v) key)
  check_setting_value key setting_positive_int v = check_int key true v (lookup_int (one key v) key)

  -- One round of the loop of `checkSettings`, by the key's kind.
  abbrev pub check_entry :
      Option Kinds → Bytes → Value → Settings → Option SettingKind → Checked Settings
  check_entry kinds key v kept (some kind) = do
    bad ← check_setting_value key kind v
    ok (keep_good key v kept bad)
  check_entry none key v kept none = do warn strict (no_settings rule key); ok kept
  check_entry (some kinds) key v kept none = do warn strict (unknown_setting rule key); ok kept

  -- The loop of `checkSettings`, in the order in which the map is read.
  unfoldable pub check_entries : Option Kinds → Map Value → Settings → Checked Settings
  unfolding check_setting_value lookup insert
  check_entries kinds [] kept = ok kept
  check_entries kinds ((key, v) ∷ kv) kept = do
    kept' ← check_entry kinds key v kept (kind_of kinds key)
    check_entries kinds kv kept'

  abbrev pub check_halves : Settings → List Bytes → List Bytes → Checked Settings
  check_halves kept (h ∷ have) (m ∷ missing) = do
    warn strict (unpaired rule (h ∷ have) (m ∷ missing))
    ok kept
  check_halves kept have missing = ok kept

  unfoldable pub check_pair : Settings → List Bytes → Checked Settings
  unfolding keys_of
  check_pair kept pair = check_halves kept (keys_of true kept pair) (keys_of false kept pair)

  unfoldable pub check_settings : Map Value → Checked Settings
  unfolding check_entries check_pair lookup
  check_settings kv = do
    kept ← check_entries (lookup rule rule_tunables) kv []
    check_pair kept (pair_of (lookup rule paired_settings))
