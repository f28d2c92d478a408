-- ===== src/Cli/Paths.antt =====
-- Paths of cmd/sqlguard/scan.go.
pub mod Suffix
use sqlguard.Prelude.{
  ℕ, Bool, true, false, not, ◌&&◌, ◌||◌, List, [], ◌∷◌, ◌++◌, Option, none, some, Bytes, codes,
  equal, ◌==◌, is_one_of, if◌then◌else◌,
}

-- `strings.CutSuffix`, none where the suffix is missing.
unfoldable pub cut_suffix : Bytes → Bytes → Option Bytes
unfolding equal
cut_suffix suffix [] = if equal [] suffix then some [] else none
cut_suffix suffix (c ∷ s) =
    let on = cut_suffix suffix s in
    if equal (c ∷ s) suffix then some [] else elim on [ none ↦ none | some p ↦ some (c ∷ p) ]

unfoldable pub has_suffix : Bytes → Bytes → Bool
unfolding cut_suffix
has_suffix suffix s = elim (cut_suffix suffix s) [ none ↦ false | some _ ↦ true ]

unfoldable pub has_prefix : Bytes → Bytes → Bool
has_prefix [] s = true
has_prefix (c ∷ prefix) [] = false
has_prefix (c ∷ prefix) (d ∷ s) = c == d && has_prefix prefix s

abbrev pub cut_pattern : Bytes → ℕ → Option Bytes
cut_pattern path sep = elim (cut_suffix (codes "/...") path) [
  | some p ↦ some p
  | none ↦ if sep == b'\\' then cut_suffix (b'\\' ∷ codes "...") path else none
]

-- What loses its separator with its pattern.
abbrev pub is_root : Bytes → Bool
is_root trimmed = equal trimmed [] || has_suffix (codes ":") trimmed

abbrev pub rooted : Bytes → ℕ → Bytes
rooted trimmed sep = if is_root trimmed then trimmed ++ (sep ∷ []) else trimmed

abbrev pub trimmed_or : Bytes → ℕ → Option Bytes → Bytes
trimmed_or path sep none = path
trimmed_or path sep (some trimmed) = rooted trimmed sep

unfoldable pub trim_pattern_suffix_sep : Bytes → ℕ → Bytes
unfolding cut_suffix has_suffix equal
trim_pattern_suffix_sep path sep =
    if equal path (codes "...") then codes "." else trimmed_or path sep (cut_pattern path sep)

-- What `filepath` and `os` say of a path; none for an error.
pub record PathLib : Type 0 where
  pub separator : ℕ
  pub abs : Bytes → Option Bytes
  pub rel : Bytes → Bytes → Option Bytes
  pub to_slash : Bytes → Bytes
  pub base : Bytes → Bytes
  pub is_dir : Bytes → Bool

unfoldable pub trim_pattern_suffix : PathLib → Bytes → Bytes
unfolding trim_pattern_suffix_sep
trim_pattern_suffix paths path = trim_pattern_suffix_sep path paths.separator

-- `warnDotsDirectory` warns, of a directory that a pattern hides.
unfoldable pub warns_dots_directory : PathLib → Bytes → Bytes → Bool
unfolding equal
warns_dots_directory paths arg scanned = not (equal arg scanned) && paths.is_dir arg

-- The path relative to the root, where there is one.
abbrev pub rel_path : PathLib → Bytes → Bytes → Bytes
rel_path paths path abs_dir = elim (paths.abs path) [
  | none ↦ path
  | some abs ↦ elim (paths.rel abs_dir abs) [ none ↦ path | some r ↦ r ]
]

abbrev pub is_excluded : PathLib → Bytes → Bytes → Option (Bytes → Bool) → Bool
is_excluded paths path abs_dir none = false
is_excluded paths path abs_dir (some exclude) =
    exclude (paths.to_slash (rel_path paths path abs_dir))

unfoldable pub keep_file : PathLib → Bytes → Bytes → Option (Bytes → Bool) → Bool
unfolding has_suffix
keep_file paths path abs_dir exclude =
    if not (has_suffix (codes ".go") path) || has_suffix (codes "_test.go") path
    then false
    else not (is_excluded paths path abs_dir exclude)

-- `filepath.Abs` gives the empty path with its error.
abbrev abs_path : PathLib → Bytes → Bytes
abs_path paths path = elim (paths.abs path) [ none ↦ [] | some abs ↦ abs ]

-- Whether `shouldSkipDir` answers `filepath.SkipDir`.
unfoldable pub should_skip_dir : PathLib → Bytes → Bytes → Bool
unfolding equal has_prefix is_one_of
should_skip_dir paths path abs_dir =
    not (equal (abs_path paths path) abs_dir)
    && (has_prefix (codes ".") (paths.base path)
        || is_one_of (codes "vendor" ∷ codes "node_modules" ∷ []) (paths.base path))
