-- ===== src/Cli/Run/Configured.antt =====
-- `resolveConfig` of cmd/sqlguard/root.go: where the configuration of a run comes from.
use sqlguard.Prelude.{
  Bool, true, false, List, [], ◌∷◌, Option, none, some, Bytes, equal, equal_iff, not, if◌then◌else◌,
  ◌≢◌, ◌≡◌, refl, ap, subst, inl, inr,
}
use mathlib.Core.Sum.{inr-injective}
use mathlib.Core.Option.{some_inj}
use sqlguard.Config.Warnings.{Warning}
use sqlguard.Config.Profile.{Config}
use sqlguard.Config.Load.{default_config, load, discover, Discovery, Loaded}
use sqlguard.Cli.Report.{Output}
use sqlguard.Cli.Run.{World, Flags, found_config, resolve_config}

-- Where the configuration of a run and the warnings on it come from: the defaults with
-- `--no-config`, the file that `--config` names, or what is found from the directory upwards.
pub data IsConfigured (w : World) (flags : Flags) (dir : Bytes)
    : Config → List Warning → Type 0 where
  defaults : flags.no_config ≡ true → IsConfigured w flags dir default_config []
  named :
      {c : Config} {ws : List Warning}
      → flags.no_config ≡ false
      → flags.config_path ≢ []
      → load w.files flags.config_path ≡ inr (c, ws)
      → IsConfigured w flags dir c ws
  nearest :
      {c : Config} {ws : List Warning} {path : Bytes}
      → flags.no_config ≡ false
      → flags.config_path ≡ []
      → discover w.files dir ≡ some (inr (c, ws), path)
      → IsConfigured w flags dir c ws

found_config_lem :
    (o : Option Discovery) (outs : List Output) (c : Config) (ws : List Warning)
    → found_config o ≡ some (inr (c, ws), outs)
    → (path : Bytes) × (o ≡ some (inr (c, ws), path))
found_config_lem none outs c ws h = cc
found_config_lem (some (inl err, path)) outs c ws h = cc
found_config_lem (some (inr (c', ws'), [])) outs c ws h =
    ([], ap (λ (f : Loaded × List Output). some (f.0, [])) (some_inj.0 h))
found_config_lem (some (inr (c', ws'), b ∷ path)) outs c ws h =
    (b ∷ path, ap (λ (f : Loaded × List Output). some (f.0, b ∷ path)) (some_inj.0 h))

pub resolve_config-IsConfigured :
    (w : World) (flags : Flags) (dir : Bytes) (outs : List Output) (c : Config) (ws : List Warning)
    → resolve_config w.files flags dir ≡ some (inr (c, ws), outs)
    → IsConfigured w flags dir c ws
unfolding resolve_config
resolve_config-IsConfigured w flags dir outs c ws =
    step flags.no_config refl (equal flags.config_path []) refl
  where
    step :
        (b : Bool)
        → flags.no_config ≡ b
        → (e : Bool) → equal flags.config_path [] ≡ e
        → (if b
            then some (inr (default_config, []), [])
            else if not e
            then some (load w.files flags.config_path, [])
            else found_config (discover w.files dir))
          ≡ some (inr (c, ws), outs)
        → IsConfigured w flags dir c ws
    step true n e p h =
        subst (λ (q : Config × List Warning). IsConfigured w flags dir q.0 q.1)
          (inr-injective (default_config, []) (c, ws)
            (ap (λ (f : Loaded × List Output). f.0) (some_inj.0 h)))
          (defaults n)
    step false n false p h =
        named n (λ empty. let yes = (equal_iff flags.config_path []).1 empty in cc)
          (ap (λ (f : Loaded × List Output). f.0) (some_inj.0 h))
    step false n true p h =
        let (path, found) = found_config_lem (discover w.files dir) outs c ws h in
        nearest n ((equal_iff flags.config_path []).0 p) found
