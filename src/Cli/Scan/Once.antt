-- ===== src/Cli/Scan/Once.antt =====
-- `scanViaPackages` of cmd/sqlguard/scan.go scans each file once.
use mathlib.Core.List.{Memᴰ}
use mathlib.Core.List.Memᴰ
use sqlguard.Prelude.{
  ℕ, suc, Bool, true, false, not, ◌||◌, List, [], ◌∷◌, ◌++◌, Option, Bytes, length, is_one_of,
  equal_refl, if◌then◌else◌, ◌≡◌, refl, subst, ap, All, arith,
}
use sqlguard.Analyzer.Types.{Statement}
use sqlguard.Analyzer.Engine.{Analyzer}
use sqlguard.Cli.Paths.{PathLib, keep_file}
use sqlguard.Cli.Source.{Info}
use sqlguard.Cli.Scan.{
  Position, SourceFile, Package, Seen, add_file, scan_syntax, scan_files, scan_packages,
  scan_ast_file,
}

-- No path occurs twice.
unfoldable pub NoDup : List Bytes → Type 0
NoDup [] = Unit
NoDup (x ∷ xs) = (is_one_of xs x ≡ false) × NoDup xs

module _ (fallback : Bytes → Statement) (a : Analyzer) (unquote : Bytes → Option Bytes)
    (position : ℕ → Position) (paths : PathLib) (abs_dir : Bytes)
    (exclude : Option (Bytes → Bool)) where
  abbrev SeenHere : Type 0
  SeenHere = Seen fallback a unquote position paths abs_dir exclude

  abbrev add : Option Info → SourceFile → SeenHere → SeenHere
  add = add_file fallback a unquote position paths abs_dir exclude

  -- The count is that of the paths seen, which differ and are to be kept.
  unfoldable pub IsOnce : SeenHere → Type 0
  unfolding NoDup
  IsOnce (seen, (results, total)) =
      (total ≡ length seen)
      × (NoDup seen × All (λ path. keep_file paths path abs_dir exclude ≡ true) seen)

  add_file-IsOnce :
      (info : Option Info) (f : SourceFile) (st : SeenHere) → IsOnce st → IsOnce (add info f st)
  unfolding IsOnce NoDup
  add_file-IsOnce info f (seen, (results, total)) (c, (d, k)) =
      step (keep_file paths f.path abs_dir exclude) refl (is_one_of seen f.path) refl
    where
      step :
          (keep : Bool)
          → keep_file paths f.path abs_dir exclude ≡ keep
          → (dup : Bool) → is_one_of seen f.path ≡ dup
          → IsOnce (
              if not keep
              then (seen, (results, total))
              else if dup
              then (seen, (results, total))
              else (
                f.path ∷ seen,
                (results ++ scan_ast_file fallback a unquote position info f, suc total),
              ))
      step false h dup h' = (c, (d, k))
      step true h true h' = (c, (d, k))
      step true h false h' = (ap suc c, ((h', d), (h, k)))

  scan_files-IsOnce :
      (info : Option Info) (files : List SourceFile) (st : SeenHere)
      → IsOnce st
      → IsOnce (scan_files fallback a unquote position paths abs_dir exclude info files st)
  unfolding scan_files
  scan_files-IsOnce info [] st h = h
  scan_files-IsOnce info (f ∷ files) st h =
      scan_files-IsOnce info files (add info f st) (add_file-IsOnce info f st h)

  abbrev files_of : Option Info → List SourceFile → Bool × SeenHere → Bool × SeenHere
  files_of = scan_syntax fallback a unquote position paths abs_dir exclude

  scan_syntax-IsOnce :
      (info : Option Info) (files : List SourceFile) (state : Bool × SeenHere)
      → IsOnce state.1
      → IsOnce (files_of info files state).1
  scan_syntax-IsOnce info [] state h = h
  scan_syntax-IsOnce info (f ∷ files) (scanned_any, st) h = scan_files-IsOnce info (f ∷ files) st h

  -- Through the packages of a module, the number of files scanned is that of the paths seen, which
  -- all differ and are all to be kept.
  pub scan_packages-IsOnce :
      (pkgs : List Package) (state : Bool × SeenHere)
      → IsOnce state.1
      → IsOnce (scan_packages fallback a unquote position paths abs_dir exclude pkgs state).1
  unfolding scan_packages
  scan_packages-IsOnce [] state h = h
  scan_packages-IsOnce (pkg ∷ pkgs) state h =
      scan_packages-IsOnce pkgs (files_of pkg.types_info pkg.syntax state)
        (scan_syntax-IsOnce pkg.types_info pkg.syntax state h)

  -- The path is seen.
  abbrev pub HasPath : Bytes → SeenHere → Type 0
  HasPath path (seen, scanned) = is_one_of seen path ≡ true

  add_file_keeps :
      (info : Option Info) (f : SourceFile) (path : Bytes) (st : SeenHere)
      → HasPath path st
      → HasPath path (add info f st)
  unfolding is_one_of
  add_file_keeps info f path (seen, (results, total)) h =
      step (keep_file paths f.path abs_dir exclude) (is_one_of seen f.path)
    where
      step :
          (keep dup : Bool)
          → HasPath path (
              if not keep
              then (seen, (results, total))
              else if dup
              then (seen, (results, total))
              else (
                f.path ∷ seen,
                (results ++ scan_ast_file fallback a unquote position info f, suc total),
              ))
      step false dup = h
      step true true = h
      step true false = ground (h, arith)

  add_file_sees :
      (info : Option Info) (f : SourceFile) (st : SeenHere)
      → keep_file paths f.path abs_dir exclude ≡ true
      → HasPath f.path (add info f st)
  unfolding is_one_of
  add_file_sees info f (seen, (results, total)) h = rw h (step (is_one_of seen f.path) refl)
    where
      step :
          (dup : Bool)
          → is_one_of seen f.path ≡ dup
          → HasPath f.path (
              if dup then (seen, (results, total)) else (
                f.path ∷ seen,
                (results ++ scan_ast_file fallback a unquote position info f, suc total),
              ))
      step true h' = h'
      step false h' = ap (λ b. b || is_one_of seen f.path) (equal_refl f.path)

  scan_files_keeps :
      (info : Option Info) (files : List SourceFile) (path : Bytes) (st : SeenHere)
      → HasPath path st
      → HasPath path (scan_files fallback a unquote position paths abs_dir exclude info files st)
  unfolding scan_files
  scan_files_keeps info [] path st h = h
  scan_files_keeps info (f ∷ files) path st h =
      scan_files_keeps info files path (add info f st) (add_file_keeps info f path st h)

  scan_files_sees :
      (info : Option Info) (files : List SourceFile) (f : SourceFile) (st : SeenHere)
      → Memᴰ f files
      → keep_file paths f.path abs_dir exclude ≡ true
      → HasPath f.path (scan_files fallback a unquote position paths abs_dir exclude info files st)
  unfolding scan_files
  scan_files_sees info [] f st m k = absurd (Memᴰ.not-nil m)
  scan_files_sees info (g ∷ files) f st (Memᴰ.head e) k =
      scan_files_keeps info files f.path (add info g st)
        (subst (λ (h : SourceFile). HasPath f.path (add info h st)) e (add_file_sees info f st k))
  scan_files_sees info (g ∷ files) f st (Memᴰ.tail m) k =
      scan_files_sees info files f (add info g st) m k

  scan_packages_keeps :
      (pkgs : List Package) (path : Bytes) (state : Bool × SeenHere)
      → HasPath path state.1
      → HasPath path (scan_packages fallback a unquote position paths abs_dir exclude pkgs state).1
  unfolding scan_packages
  scan_packages_keeps [] path state h = h
  scan_packages_keeps (pkg ∷ pkgs) path state h =
      scan_packages_keeps pkgs path (files_of pkg.types_info pkg.syntax state)
        (syntax_keeps pkg.syntax)
    where
      syntax_keeps :
          (files : List SourceFile) → HasPath path (files_of pkg.types_info files state).1
      syntax_keeps [] = h
      syntax_keeps (f ∷ files) = scan_files_keeps pkg.types_info (f ∷ files) path state.1 h

  scan_syntax_sees :
      (info : Option Info) (files : List SourceFile) (f : SourceFile) (state : Bool × SeenHere)
      → Memᴰ f files
      → keep_file paths f.path abs_dir exclude ≡ true
      → HasPath f.path (files_of info files state).1
  scan_syntax_sees info [] f state m k = absurd (Memᴰ.not-nil m)
  scan_syntax_sees info (g ∷ files) f state m k = scan_files_sees info (g ∷ files) f state.1 m k

  -- The path of every file of every package of a module that is to be kept is one of those scanned.
  pub scan_packages_sees :
      (pkgs : List Package) (pkg : Package) (f : SourceFile) (state : Bool × SeenHere)
      → Memᴰ pkg pkgs
      → Memᴰ f pkg.syntax
      → keep_file paths f.path abs_dir exclude ≡ true
      → HasPath f.path
          (scan_packages fallback a unquote position paths abs_dir exclude pkgs state).1
  unfolding scan_packages
  scan_packages_sees [] pkg f state m m' k = absurd (Memᴰ.not-nil m)
  scan_packages_sees (p ∷ pkgs) pkg f state (Memᴰ.head e) m' k =
      scan_packages_keeps pkgs f.path (files_of p.types_info p.syntax state) (
        subst (λ (q : Package). HasPath f.path (files_of q.types_info q.syntax state).1) e
          (scan_syntax_sees pkg.types_info pkg.syntax f state m' k))
  scan_packages_sees (p ∷ pkgs) pkg f state (Memᴰ.tail m) m' k =
      scan_packages_sees pkgs pkg f (files_of p.types_info p.syntax state) m m' k
