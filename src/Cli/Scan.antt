-- ===== src/Cli/Scan.antt =====
-- The scan of cmd/sqlguard/scan.go: one file, a loaded module, a tree of files.
pub mod Arguments
pub mod Calls
pub mod Findings
pub mod Once
pub mod Walk
use sqlguard.Prelude.{
  ℕ, suc, ◌+◌, Bool, true, false, not, ◌&&◌, List, [], ◌∷◌, ◌++◌, Option, none, some, Bytes, equal,
  is_one_of, if◌then◌else◌,
}
use sqlguard.Analyzer.Types.{Statement, Result}
use sqlguard.Analyzer.Engine.{Analyzer, analyze}
use sqlguard.Cli.Paths.{PathLib, keep_file, should_skip_dir}
use sqlguard.Cli.Source.{
  Node, Nodes, basic_lit, ident, selector_expr, call_expr, other_node, no_nodes, node_cons, Info,
  sql_methods, query_arg_expr, resolve_query,
}
use sqlguard.Cli.Comments.{CommentGroup, is_suppressed}

-- What `fset.Position` gives for a position.
pub record Position : Type 0 where
  pub file_name : Bytes
  pub line : ℕ

-- `ast.File`, with the file name of its position.
pub record SourceFile : Type 0 where
  pub path : Bytes
  pub comments : List CommentGroup
  pub nodes : Nodes

-- `packages.Package`, with its files and its type information, which may be nil.
pub record Package : Type 0 where
  pub syntax : List SourceFile
  pub types_info : Option Info

-- What `filepath.Walk` meets, in its order: a file, with what Go's parser makes of it, a directory
-- with its entries, or an error.
mutual
  pub data Entry : Type 0 where
    file_entry : Bytes → Option SourceFile → Entry
    dir_entry : Bytes → Entries → Entry
    bad_entry : Entry

  pub data Entries : Type 0 where
    no_entries : Entries
    entry_cons : Entry → Entries → Entries

-- The results so far, and the files that they come from.
abbrev pub Scanned : Type 0
Scanned = List Result × ℕ

abbrev pub place : Position → Result → Result
place pos r = record r { file = pos.file_name; line = pos.line }

-- The loop over the findings of a call.
unfoldable pub kept_at : List CommentGroup → Position → List Result → List Result
unfolding is_suppressed
kept_at comments pos [] = []
kept_at comments pos (r ∷ found) =
    let rest = kept_at comments pos found in
    if is_suppressed comments pos.line r.rule_name then rest else place pos r ∷ rest

module _ (fallback : Bytes → Statement) (a : Analyzer) (unquote : Bytes → Option Bytes)
    (position : ℕ → Position) where
  -- A query text at a position.
  abbrev pub scan_query : List CommentGroup → Position → Bytes → List Result
  scan_query comments pos [] = []
  scan_query comments pos (c ∷ query) = kept_at comments pos (analyze fallback a (c ∷ query))

  abbrev pub scan_arg : List CommentGroup → Option Info → Position → Option Node → List Result
  scan_arg comments info pos none = []
  scan_arg comments info pos (some arg) = scan_query comments pos (resolve_query unquote info arg)

  -- What `scanASTFile` does at a call, by its callee.
  unfoldable pub scan_call : List CommentGroup → Option Info → ℕ → Node → Nodes → List Result
  unfolding is_one_of query_arg_expr resolve_query analyze kept_at
  scan_call comments info at (selector_expr n x sel name) args =
      if is_one_of sql_methods name
      then scan_arg comments info (position at) (query_arg_expr name args)
      else []
  scan_call comments info at _ args = []

  -- `ast.Inspect`: a node, then its children.
  unfoldable mutual
    unfolding scan_call

    pub inspect : List CommentGroup → Option Info → Node → List Result
    inspect comments info (basic_lit n is_string value) = []
    inspect comments info (ident n name) = []
    inspect comments info (selector_expr n x sel name) = inspect comments info x
    inspect comments info (call_expr n at callee args) =
        scan_call comments info at callee args
        ++ (inspect comments info callee ++ inspect_all comments info args)
    inspect comments info (other_node n children) = inspect_all comments info children

    pub inspect_all : List CommentGroup → Option Info → Nodes → List Result
    inspect_all comments info no_nodes = []
    inspect_all comments info (node_cons n ns) =
        inspect comments info n ++ inspect_all comments info ns

  unfoldable pub scan_ast_file : Option Info → SourceFile → List Result
  unfolding inspect_all
  scan_ast_file info f = inspect_all f.comments info f.nodes

  module _ (paths : PathLib) (abs_dir : Bytes) (exclude : Option (Bytes → Bool)) where
    -- A loaded file: the paths seen so far, the results and their count.
    abbrev pub Seen : Type 0
    Seen = List Bytes × Scanned

    abbrev pub add_file : Option Info → SourceFile → Seen → Seen
    add_file info f (seen, (results, total)) =
        if not (keep_file paths f.path abs_dir exclude)
        then (seen, (results, total))
        else if is_one_of seen f.path
        then (seen, (results, total))
        else (f.path ∷ seen, (results ++ scan_ast_file info f, suc total))

    unfoldable pub scan_files : Option Info → List SourceFile → Seen → Seen
    unfolding keep_file is_one_of scan_ast_file
    scan_files info [] st = st
    scan_files info (f ∷ files) st = scan_files info files (add_file info f st)

    -- The files of a package; one without files is passed over.
    abbrev pub scan_syntax : Option Info → List SourceFile → Bool × Seen → Bool × Seen
    scan_syntax info [] state = state
    scan_syntax info (f ∷ files) (scanned_any, st) = (true, scan_files info (f ∷ files) st)

    unfoldable pub scan_packages : List Package → Bool × Seen → Bool × Seen
    unfolding scan_files
    scan_packages [] state = state
    scan_packages (pkg ∷ pkgs) state =
        scan_packages pkgs (scan_syntax pkg.types_info pkg.syntax state)

    abbrev pub loaded_results : Bool × Seen → Option Scanned
    loaded_results (true, (seen, scanned)) = some scanned
    loaded_results (false, _) = none

    -- `scanViaPackages`, by what `packages.Load` returned; none where it is not `ok`.
    unfoldable pub scan_via_packages : Option (List Package) → Option Scanned
    unfolding scan_packages
    scan_via_packages none = none
    scan_via_packages (some []) = none
    scan_via_packages (some (pkg ∷ pkgs)) =
        loaded_results (scan_packages (pkg ∷ pkgs) (false, ([], ([], 0))))

    abbrev pub add_parsed : Option SourceFile → Scanned → Scanned
    add_parsed none scanned = scanned
    add_parsed (some f) (results, total) = (results ++ scan_ast_file none f, suc total)

    -- `filepath.Walk` with the function of `scanViaAST`: true for an error, which ends it.
    unfoldable mutual
      unfolding keep_file should_skip_dir scan_ast_file

      pub walk : Entry → Scanned → Bool × Scanned
      walk (file_entry path parsed) scanned = (
        false,
        if keep_file paths path abs_dir exclude then add_parsed parsed scanned else scanned,
      )
      walk (dir_entry path entries) scanned =
          let inside = walk_all entries scanned in
          if should_skip_dir paths path abs_dir then (false, scanned) else inside
      walk bad_entry scanned = (true, scanned)

      pub walk_all : Entries → Scanned → Bool × Scanned
      walk_all no_entries scanned = (false, scanned)
      walk_all (entry_cons e es) scanned =
          let (failed, sofar) = walk e scanned in
          let rest = walk_all es sofar in if failed then (true, sofar) else rest

    unfoldable pub scan_via_ast : Entry → Bool × Scanned
    unfolding walk
    scan_via_ast root = walk root ([], 0)
