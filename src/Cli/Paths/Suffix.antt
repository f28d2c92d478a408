-- ===== src/Cli/Paths/Suffix.antt =====
-- `trimPatternSuffixSep` of cmd/sqlguard/scan.go: which paths are patterns.
use mathlib.Core.Option.{some_inj}
use sqlguard.Prelude.{
  ◌⊎◌, ◌||◌, Option-cases, ℕ, Bool, true, false, [], ◌∷◌, ◌++◌, Option, none, some, append_nil,
  Bytes, codes, equal, equal_iff, equal_refl, length, length-append, if◌then◌else◌, ◌==◌, ==_iff,
  ◌≡◌, refl, sym, ap, ◌∙◌, subst, arith, Bool-cases, inl, inr,
}
use sqlguard.Cli.Paths.{
  cut_suffix, has_suffix, is_root, rooted, trimmed_or, cut_pattern, trim_pattern_suffix_sep,
}

-- A text is not longer than itself.
equal_longer : (c : ℕ) (p s : Bytes) → equal ((c ∷ p) ++ s) s ≡ false
equal_longer c p s = elim (Bool-cases (equal ((c ∷ p) ++ s) s)) [
  | inl h ↦ absurd (
      omega (
        arith,
        length-append (c ∷ p) s,
        ap (λ (t : Bytes). length t) ((equal_iff ((c ∷ p) ++ s) s).0 h),
      ))
  | inr h ↦ h
]

-- A suffix is cut off what stands in front of it.
pub cut_suffix-append : (suffix p : Bytes) → cut_suffix suffix (p ++ suffix) ≡ some p
unfolding cut_suffix
cut_suffix-append [] [] = refl
cut_suffix-append (c ∷ suffix) [] = rw (equal_refl (c ∷ suffix)) refl
cut_suffix-append suffix (c ∷ p) = rw (equal_longer c p suffix, cut_suffix-append suffix p) refl

-- What is cut off was there.
pub cut_suffix_sound : (suffix s p : Bytes) → cut_suffix suffix s ≡ some p → s ≡ p ++ suffix
unfolding cut_suffix
cut_suffix_sound [] [] p h = some_inj.0 h ∙ sym (append_nil p)
cut_suffix_sound (d ∷ suffix) [] p h = cc
cut_suffix_sound suffix (c ∷ s) p h =
    step (equal (c ∷ s) suffix) refl (cut_suffix suffix s) (cut_suffix_sound suffix s) h
  where
    step :
        (b : Bool)
        → equal (c ∷ s) suffix ≡ b
        → (o : Option Bytes) → ((q : Bytes) → o ≡ some q → s ≡ q ++ suffix)
        → (if b then some [] else elim o [ none ↦ none | some q ↦ some (c ∷ q) ]) ≡ some p
        → c ∷ s ≡ p ++ suffix
    step true e o ih h' = (equal_iff (c ∷ s) suffix).0 e ∙ ap (λ q. q ++ suffix) (some_inj.0 h')
    step false e none ih h' = cc
    step false e (some q) ih h' =
        ap (λ t. c ∷ t) (ih q refl) ∙ ap (λ q. q ++ suffix) (some_inj.0 h')

-- The empty path, which is left of the pattern below `/`, and a Windows drive.
abbrev pub IsRoot : Bytes → Type 0
IsRoot dir = (dir ≡ []) ⊎ ((p : Bytes) × (dir ≡ p ++ codes ":"))

is_root-IsRoot : (dir : Bytes) → is_root dir ≡ true → IsRoot dir
unfolding has_suffix
is_root-IsRoot [] h = inl refl
is_root-IsRoot (c ∷ dir) h = elim (Option-cases (cut_suffix (codes ":") (c ∷ dir))) [
  | inl e ↦ absurd (ground (arith, h, e))
  | inr (p, e) ↦ inr (p, cut_suffix_sound (codes ":") (c ∷ dir) p e)
]

IsRoot-is_root : (dir : Bytes) → IsRoot dir → is_root dir ≡ true
unfolding has_suffix
IsRoot-is_root dir (inl e) = ap is_root e
IsRoot-is_root dir (inr (p, e)) =
    ap is_root e
    ∙ ap
        (λ (o : Option Bytes). equal (p ++ codes ":") [] || elim o [ none ↦ false | some _ ↦ true ])
        (cut_suffix-append (codes ":") p)
    ∙ or_true (equal (p ++ codes ":") [])
  where
    or_true : (b : Bool) → (b || true) ≡ true
    or_true true = refl
    or_true false = refl

-- The paths that are patterns.
abbrev pub IsPattern : ℕ → Bytes → Type 0
IsPattern sep path =
    (path ≡ codes "...")
    ⊎ (((dir : Bytes) × (path ≡ dir ++ codes "/..."))
        ⊎ ((sep ≡ b'\\') × ((dir : Bytes) × (path ≡ dir ++ (b'\\' ∷ codes "...")))))

-- What `trimPatternSuffix` makes of a path: of the path of a pattern, the directory, with the
-- separator where it is a root; and of another path the same path.
pub data Trims (sep : ℕ) : Bytes → Bytes → Type 0 where
  whole : Trims sep (codes "...") (codes ".")
  same : (path : Bytes) → ¬ IsPattern sep path → Trims sep path path
  slash : (dir : Bytes) → ¬ IsRoot dir → Trims sep (dir ++ codes "/...") dir
  slash_root : (dir : Bytes) → IsRoot dir → Trims sep (dir ++ codes "/...") (dir ++ (sep ∷ []))
  backslash :
      (dir : Bytes) → sep ≡ b'\\' → ¬ IsRoot dir → Trims sep (dir ++ (b'\\' ∷ codes "...")) dir
  backslash_root :
      (dir : Bytes)
      → sep ≡ b'\\'
      → IsRoot dir
      → Trims sep (dir ++ (b'\\' ∷ codes "...")) (dir ++ (sep ∷ []))

not-IsRoot : (dir : Bytes) → is_root dir ≡ false → ¬ IsRoot dir
not-IsRoot dir h root = ground (arith, h, IsRoot-is_root dir root)

slash_rooted : (sep : ℕ) (dir : Bytes) → Trims sep (dir ++ codes "/...") (rooted dir sep)
slash_rooted sep dir = step (is_root dir) refl
  where
    step :
        (b : Bool)
        → is_root dir ≡ b
        → Trims sep (dir ++ codes "/...") (if b then dir ++ (sep ∷ []) else dir)
    step true h = slash_root dir (is_root-IsRoot dir h)
    step false h = slash dir (not-IsRoot dir h)

backslash_rooted :
    (sep : ℕ) (dir : Bytes)
    → sep ≡ b'\\'
    → Trims sep (dir ++ (b'\\' ∷ codes "...")) (rooted dir sep)
backslash_rooted sep dir e = step (is_root dir) refl
  where
    step :
        (b : Bool)
        → is_root dir ≡ b
        → Trims sep (dir ++ (b'\\' ∷ codes "...")) (if b then dir ++ (sep ∷ []) else dir)
    step true h = backslash_root dir e (is_root-IsRoot dir h)
    step false h = backslash dir e (not-IsRoot dir h)

cut_suffix-none :
    (suffix path dir : Bytes) → cut_suffix suffix path ≡ none → path ≡ dir ++ suffix → ⊥
cut_suffix-none suffix path dir h e =
    let found = sym h ∙ ap (cut_suffix suffix) e ∙ cut_suffix-append suffix dir in cc

not-IsPattern :
    (path : Bytes) (sep : ℕ)
    → equal path (codes "...") ≡ false
    → cut_suffix (codes "/...") path ≡ none
    → (sep ≡ b'\\' → cut_suffix (b'\\' ∷ codes "...") path ≡ none)
    → ¬ IsPattern sep path
not-IsPattern path sep h k l (inl e) = let yes = (equal_iff path (codes "...")).1 e in cc
not-IsPattern path sep h k l (inr (inl (dir, e))) = cut_suffix-none (codes "/...") path dir k e
not-IsPattern path sep h k l (inr (inr (s, (dir, e)))) =
    cut_suffix-none (b'\\' ∷ codes "...") path dir (l s) e

backslash_Trims :
    (path : Bytes) (sep : ℕ) (b : Bool)
    → equal path (codes "...") ≡ false
    → cut_suffix (codes "/...") path ≡ none
    → (sep == b'\\') ≡ b
    → (o : Option Bytes) → cut_suffix (b'\\' ∷ codes "...") path ≡ o
    → Trims sep path (trimmed_or path sep (if b then o else none))
backslash_Trims path sep false d k h o h' = same path (
    not-IsPattern path sep d k
      (λ e. let yes = (==_iff sep b'\\').1 e in absurd (ground (arith, h, yes))))
backslash_Trims path sep true d k h none h' = same path (not-IsPattern path sep d k (λ _. h'))
backslash_Trims path sep true d k h (some dir) h' =
    subst (λ p. Trims sep p (rooted dir sep))
      (sym (cut_suffix_sound (b'\\' ∷ codes "...") path dir h'))
      (backslash_rooted sep dir ((==_iff sep b'\\').0 h))

cut_pattern-Trims :
    (path : Bytes) (sep : ℕ) (o : Option Bytes)
    → equal path (codes "...") ≡ false
    → cut_suffix (codes "/...") path ≡ o
    → Trims sep path (
        trimmed_or path sep (elim o [
          | some p ↦ some p
          | none ↦ if sep == b'\\' then cut_suffix (b'\\' ∷ codes "...") path else none
        ]))
cut_pattern-Trims path sep none d h =
    backslash_Trims path sep (sep == b'\\') d h refl (cut_suffix (b'\\' ∷ codes "...") path) refl
cut_pattern-Trims path sep (some dir) d h =
    subst (λ p. Trims sep p (rooted dir sep)) (sym (cut_suffix_sound (codes "/...") path dir h))
      (slash_rooted sep dir)

-- A path that is no pattern is scanned as it is; for `...` alone the current directory is scanned,
-- and of the path of another pattern what stands in front of the separator, where a backslash is one
-- only if it is the separator of the system; a bare root, which is the empty path or a drive, keeps
-- a separator.
pub trim_pattern_suffix_sep-Trims :
    (path : Bytes) (sep : ℕ) → Trims sep path (trim_pattern_suffix_sep path sep)
unfolding trim_pattern_suffix_sep
trim_pattern_suffix_sep-Trims path sep = step (equal path (codes "...")) refl
  where
    step :
        (b : Bool)
        → equal path (codes "...") ≡ b
        → Trims sep path (if b then codes "." else trimmed_or path sep (cut_pattern path sep))
    step true h =
        subst (λ p. Trims sep p (codes ".")) (sym ((equal_iff path (codes "...")).0 h)) whole
    step false h = cut_pattern-Trims path sep (cut_suffix (codes "/...") path) h refl

longer_than_dots : (dir : Bytes) → equal (dir ++ codes "/...") (codes "...") ≡ false
longer_than_dots dir = elim (Bool-cases (equal (dir ++ codes "/...") (codes "..."))) [
  | inl h ↦ absurd (
      omega (
        arith,
        length-append dir (codes "/..."),
        ap (λ (t : Bytes). length t) ((equal_iff (dir ++ codes "/...") (codes "...")).0 h),
      ))
  | inr h ↦ h
]

-- A directory that is not a root comes back from its pattern.
pub trim_pattern_suffix_sep_lem :
    (dir : Bytes) (sep : ℕ)
    → is_root dir ≡ false
    → trim_pattern_suffix_sep (dir ++ codes "/...") sep ≡ dir
unfolding trim_pattern_suffix_sep
trim_pattern_suffix_sep_lem dir sep h =
    let path = dir ++ codes "/..." in
    ap (λ b. if b then codes "." else trimmed_or path sep (cut_pattern path sep))
      (longer_than_dots dir)
    ∙ ap
        (λ (o : Option Bytes). trimmed_or path sep (elim o [
          | some p ↦ some p
          | none ↦ if sep == b'\\' then cut_suffix (b'\\' ∷ codes "...") path else none
        ]))
        (cut_suffix-append (codes "/...") dir)
    ∙ ap (λ b. if b then dir ++ (sep ∷ []) else dir) h
