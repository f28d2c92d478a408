-- ===== src/Cli/Explain/Balance.antt =====
-- The databases that a run opens and closes: cmd/sqlguard/explain.go.
use sqlguard.Prelude.{
  ℕ, suc, ◌+◌, Bool, true, false, not, List, [], ◌∷◌, ◌++◌, Option, none, some, Bytes, equal,
  if◌then◌else◌, ◌≡◌, refl, subst, inl, inr, arith,
}
use mathlib.Core.Option.{some_inj}
use sqlguard.Config.Warnings.{Warning}
use sqlguard.Config.Profile.{Config}
use sqlguard.Config.Load.{Loaded, Discovery, default_config, load, discover, config_analyzer}
use sqlguard.Cli.Report.{
  CliError, Output, rendered, scan_summary, plan_summary, using_config, config_warning,
  dots_warning, open_database, ping_database, close_database, new_reporter,
}
use sqlguard.Cli.Run.{
  Run, ◌>>=◌, World, Flags, prepare, configured, configured_for, with_reporter, loaded_for, warned,
  config_of, reporter_of, ended, returning, resolve_config, found_config, print_config_warnings,
}

module _ (w : World) (dsn : Bytes) where
  -- How often a database was opened, without an error, and how often one was closed.
  unfoldable pub opened : List Output → ℕ
  opened [] = 0
  opened (open_database name ∷ outs) = (if w.opens name dsn then 1 else 0) + opened outs
  opened (_ ∷ outs) = opened outs

  unfoldable pub closed : List Output → ℕ
  closed [] = 0
  closed (close_database name ∷ outs) = suc (closed outs)
  closed (_ ∷ outs) = closed outs

  -- Every database that was opened was closed.
  unfoldable pub IsBalanced : List Output → Type 0
  unfolding opened closed
  IsBalanced outs = closed outs ≡ opened outs

  pub opened-append : (xs ys : List Output) → opened (xs ++ ys) ≡ opened xs + opened ys
  unfolding opened
  opened-append [] ys = omega arith
  opened-append (open_database name ∷ xs) ys = omega (arith, opened-append xs ys)
  opened-append (rendered r ∷ xs) ys = opened-append xs ys
  opened-append (scan_summary m n ∷ xs) ys = opened-append xs ys
  opened-append (plan_summary n ∷ xs) ys = opened-append xs ys
  opened-append (using_config p ∷ xs) ys = opened-append xs ys
  opened-append (config_warning x ∷ xs) ys = opened-append xs ys
  opened-append (dots_warning p q ∷ xs) ys = opened-append xs ys
  opened-append (ping_database n ∷ xs) ys = opened-append xs ys
  opened-append (close_database n ∷ xs) ys = opened-append xs ys

  pub closed-append : (xs ys : List Output) → closed (xs ++ ys) ≡ closed xs + closed ys
  unfolding closed
  closed-append [] ys = omega arith
  closed-append (close_database name ∷ xs) ys = omega (arith, closed-append xs ys)
  closed-append (rendered r ∷ xs) ys = closed-append xs ys
  closed-append (scan_summary m n ∷ xs) ys = closed-append xs ys
  closed-append (plan_summary n ∷ xs) ys = closed-append xs ys
  closed-append (using_config p ∷ xs) ys = closed-append xs ys
  closed-append (config_warning x ∷ xs) ys = closed-append xs ys
  closed-append (dots_warning p q ∷ xs) ys = closed-append xs ys
  closed-append (ping_database n ∷ xs) ys = closed-append xs ys
  closed-append (open_database n ∷ xs) ys = closed-append xs ys

  pub IsBalanced-append :
      (xs ys : List Output) → IsBalanced xs → IsBalanced ys → IsBalanced (xs ++ ys)
  unfolding IsBalanced
  IsBalanced-append xs ys h k = omega (arith, opened-append xs ys, closed-append xs ys, h, k)

  -- Each part of a run closes what it opened.
  pub IsBalanced-bind {ℓ κ} :
      {A : Type ℓ} {B : Type κ} (m : Run A) (f : A → Run B)
      → IsBalanced m.0
      → ((a : A) → IsBalanced (f a).0)
      → IsBalanced (m >>= f).0
  IsBalanced-bind (outs, inl err) f h k = h
  IsBalanced-bind (outs, inr a) f h k = IsBalanced-append outs (f a).0 h (k a)

  pub print_config_warnings-IsBalanced : (ws : List Warning) → IsBalanced (print_config_warnings ws)
  unfolding IsBalanced opened closed
  print_config_warnings-IsBalanced [] = refl
  print_config_warnings-IsBalanced (x ∷ ws) = print_config_warnings-IsBalanced ws

  pub found_config-IsBalanced :
      (o : Option Discovery) (found : Loaded × List Output)
      → found_config o ≡ some found
      → IsBalanced found.1
  unfolding IsBalanced opened closed
  found_config-IsBalanced none found h = cc
  found_config-IsBalanced (some (inl err, path)) found h =
      subst (λ (f : Loaded × List Output). IsBalanced f.1) (some_inj.0 h) refl
  found_config-IsBalanced (some (inr c, [])) found h =
      subst (λ (f : Loaded × List Output). IsBalanced f.1) (some_inj.0 h) refl
  found_config-IsBalanced (some (inr c, b ∷ path)) found h =
      subst (λ (f : Loaded × List Output). IsBalanced f.1) (some_inj.0 h) refl

  pub resolve_config-IsBalanced :
      (flags : Flags) (dir : Bytes) (found : Loaded × List Output)
      → resolve_config w.files flags dir ≡ some found
      → IsBalanced found.1
  unfolding resolve_config IsBalanced opened closed
  resolve_config-IsBalanced flags dir found =
      step flags.no_config (not (equal flags.config_path []))
    where
      step :
          (b b' : Bool)
          → (if b
              then some (inr (default_config, []), [])
              else if b'
              then some (load w.files flags.config_path, [])
              else found_config (discover w.files dir))
            ≡ some found
          → IsBalanced found.1
      step true b' h = subst (λ (f : Loaded × List Output). IsBalanced f.1) (some_inj.0 h) refl
      step false true h = subst (λ (f : Loaded × List Output). IsBalanced f.1) (some_inj.0 h) refl
      step false false h = found_config-IsBalanced (discover w.files dir) found h

  pub configured-IsBalanced : (cw : Config × List Warning) → IsBalanced (configured w cw).0
  unfolding IsBalanced
  configured-IsBalanced (c, ws) =
      IsBalanced-bind
        (returning (config_of (config_analyzer w.parse_duration w.fallback w.registry c ws)))
        (warned c) refl (λ built. print_config_warnings-IsBalanced built.1)

  pub prepare-IsBalanced :
      (flags : Flags) (loaded : Loaded) (outs : List Output)
      → IsBalanced outs
      → IsBalanced (prepare w flags (loaded, outs)).0
  unfolding IsBalanced
  prepare-IsBalanced flags loaded outs h =
      IsBalanced-bind (returning (reporter_of flags.format (new_reporter flags.format)))
        (loaded_for w (loaded, outs)) refl
        λ rep.
          IsBalanced-bind (outs, config_of loaded) (configured_for w rep) h
            λ cw.
              IsBalanced-bind (configured w cw) (with_reporter rep) (configured-IsBalanced cw)
                λ ca. refl

  pub ended-IsBalanced :
      (p : List Output × Option CliError) → IsBalanced p.0 → IsBalanced (ended p).0
  ended-IsBalanced (outs, none) h = h
  ended-IsBalanced (outs, some err) h = h
