-- ===== src/Cli/Scan/Walk.antt =====
-- `scanViaAST` of cmd/sqlguard/scan.go against the files that it is to scan, in order.
use sqlguard.Prelude.{
  ℕ, suc, ◌+◌, Bool, true, false, List, [], ◌∷◌, ◌++◌, Option, none, some, Bytes, length,
  if◌then◌else◌, ◌≡◌, refl, sym, ap, ◌∙◌, append_assoc, append_nil, length-append, arith,
}
use sqlguard.Analyzer.Types.{Statement, Result}
use sqlguard.Analyzer.Engine.{Analyzer}
use sqlguard.Cli.Paths.{PathLib, keep_file, should_skip_dir}
use sqlguard.Cli.Scan.{
  Position, SourceFile, Entry, Entries, file_entry, dir_entry, bad_entry, no_entries, entry_cons,
  Scanned, walk, walk_all, add_parsed, scan_ast_file, scan_via_ast,
}

module _ (paths : PathLib) (abs_dir : Bytes) (exclude : Option (Bytes → Bool)) where
  abbrev parsed_file : Option SourceFile → List SourceFile
  parsed_file none = []
  parsed_file (some f) = f ∷ []

  -- Whether the walk meets an error outside of the directories that it skips, and the files that it
  -- keeps and that parse, up to an error.
  unfoldable mutual
    pub fails : Entry → Bool
    fails (file_entry path parsed) = false
    fails (dir_entry path entries) =
        let inside = fails_in entries in
        if should_skip_dir paths path abs_dir then false else inside
    fails bad_entry = true

    pub fails_in : Entries → Bool
    fails_in no_entries = false
    fails_in (entry_cons e es) = let rest = fails_in es in if fails e then true else rest

  unfoldable mutual
    unfolding fails

    pub files : Entry → List SourceFile
    files (file_entry path parsed) =
        if keep_file paths path abs_dir exclude then parsed_file parsed else []
    files (dir_entry path entries) =
        let inside = files_in entries in if should_skip_dir paths path abs_dir then [] else inside
    files bad_entry = []

    pub files_in : Entries → List SourceFile
    files_in no_entries = []
    files_in (entry_cons e es) = let rest = files_in es in files e ++ (if fails e then [] else rest)

  module _ (fallback : Bytes → Statement) (a : Analyzer) (unquote : Bytes → Option Bytes)
      (position : ℕ → Position) where
    -- The results of the files one after another.
    unfoldable pub results_of : List SourceFile → List Result
    unfolding scan_ast_file
    results_of [] = []
    results_of (f ∷ fs) = scan_ast_file fallback a unquote position none f ++ results_of fs

    results_of-append :
        (fs gs : List SourceFile) → results_of (fs ++ gs) ≡ results_of fs ++ results_of gs
    unfolding results_of
    results_of-append [] gs = refl
    results_of-append (f ∷ fs) gs =
        ap (λ rs. scan_ast_file fallback a unquote position none f ++ rs) (results_of-append fs gs)
        ∙ sym (
            append_assoc (scan_ast_file fallback a unquote position none f) (results_of fs)
              (results_of gs))

    -- The results and the count of further files.
    abbrev pub adding : List SourceFile → Scanned → Scanned
    adding fs (results, total) = (results ++ results_of fs, total + length fs)

    adding_none : (scanned : Scanned) → adding [] scanned ≡ scanned
    unfolding results_of
    adding_none (results, total) =
        let count : total + 0 ≡ total = omega arith in λ i. (append_nil results i, count i)

    adding_append :
        (fs gs : List SourceFile) (scanned : Scanned)
        → adding gs (adding fs scanned) ≡ adding (fs ++ gs) scanned
    adding_append fs gs (results, total) =
        let count : (total + length fs) + length gs ≡ total + length (fs ++ gs) =
          omega (arith, length-append fs gs) in
        let both : (results ++ results_of fs) ++ results_of gs ≡ results ++ results_of (fs ++ gs) =
          append_assoc results (results_of fs) (results_of gs)
          ∙ ap (λ rs. results ++ rs) (sym (results_of-append fs gs)) in
        λ i. (both i, count i)

    add_parsed-adding :
        (parsed : Option SourceFile) (scanned : Scanned)
        → add_parsed fallback a unquote position paths abs_dir exclude parsed scanned
          ≡ adding (parsed_file parsed) scanned
    unfolding results_of
    add_parsed-adding none scanned = sym (adding_none scanned)
    add_parsed-adding (some f) (results, total) =
        let count : suc total ≡ total + 1 = omega arith in
        let whole = sym (append_nil (scan_ast_file fallback a unquote position none f)) in
        λ i. (results ++ whole i, count i)

    abbrev visit : Entry → Scanned → Bool × Scanned
    visit = walk fallback a unquote position paths abs_dir exclude

    abbrev visit_all : Entries → Scanned → Bool × Scanned
    visit_all = walk_all fallback a unquote position paths abs_dir exclude

    walk_file :
        (keep : Bool) (parsed : Option SourceFile) (scanned : Scanned)
        → (if keep
            then add_parsed fallback a unquote position paths abs_dir exclude parsed scanned
            else scanned)
          ≡ adding (if keep then parsed_file parsed else []) scanned
    walk_file true parsed scanned = add_parsed-adding parsed scanned
    walk_file false parsed scanned = sym (adding_none scanned)

    mutual
      unfolding walk walk_all fails fails_in files files_in

      walk_files :
          (e : Entry) (scanned : Scanned) → visit e scanned ≡ (fails e, adding (files e) scanned)
      walk_files (file_entry path parsed) scanned =
          ap (λ (s : Scanned). (false, s))
            (walk_file (keep_file paths path abs_dir exclude) parsed scanned)
      walk_files (dir_entry path entries) scanned =
          step (should_skip_dir paths path abs_dir) (walk_all_files entries scanned)
        where
          step :
              (skipped : Bool)
              → visit_all entries scanned ≡ (fails_in entries, adding (files_in entries) scanned)
              → (if skipped then (false, scanned) else visit_all entries scanned) ≡ (
                if skipped then false else fails_in entries,
                adding (if skipped then [] else files_in entries) scanned,
              )
          step true h = ap (λ (s : Scanned). (false, s)) (sym (adding_none scanned))
          step false h = h
      walk_files bad_entry scanned = ap (λ (s : Scanned). (true, s)) (sym (adding_none scanned))

      walk_all_files :
          (es : Entries) (scanned : Scanned)
          → visit_all es scanned ≡ (fails_in es, adding (files_in es) scanned)
      walk_all_files no_entries scanned =
          ap (λ (s : Scanned). (false, s)) (sym (adding_none scanned))
      walk_all_files (entry_cons e es) scanned =
          ap (λ (w : Bool × Scanned). if w.0 then (true, w.1) else visit_all es w.1)
            (walk_files e scanned)
          ∙ step (fails e) (walk_all_files es (adding (files e) scanned))
        where
          step :
              (failed : Bool)
              → visit_all es (adding (files e) scanned)
                ≡ (fails_in es, adding (files_in es) (adding (files e) scanned))
              → (if failed
                  then (true, adding (files e) scanned)
                  else visit_all es (adding (files e) scanned))
                ≡ (
                  if failed then true else fails_in es,
                  adding (files e ++ (if failed then [] else files_in es)) scanned,
                )
          step true h = ap (λ fs. (true, adding fs scanned)) (sym (append_nil (files e)))
          step false h =
              h
              ∙ ap (λ (s : Scanned). (fails_in es, s))
                  (adding_append (files e) (files_in es) scanned)

    -- The walk of a tree fails exactly if it meets an error outside of the directories that it skips,
    -- and has the results of the files that it keeps and that parse, up to an error, in order, and
    -- their number.
    pub scan_via_ast_lem :
        (root : Entry)
        → scan_via_ast fallback a unquote position paths abs_dir exclude root
          ≡ (fails root, (results_of (files root), length (files root)))
    unfolding scan_via_ast
    scan_via_ast_lem root =
        let count : 0 + length (files root) ≡ length (files root) = omega arith in
        walk_files root ([], 0) ∙ ap (λ n. (fails root, (results_of (files root), n))) count
