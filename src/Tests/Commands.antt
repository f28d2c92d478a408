-- ===== src/Tests/Commands.antt =====
-- The commands at concrete sources and flags: cmd/sqlguard/.
use mathlib.Core.List.{Memᴰ}
use sqlguard.Prelude.{
  ℕ, ◌≡◌, refl, sym, subst, length, inl, inr, true, false, List, [], ◌∷◌, Option, none, some, Bytes,
  codes, has,
}
use sqlguard.Analyzer.Types.{Result, warning, text}
use sqlguard.Analyzer.Registry.{builtin}
use sqlguard.Analyzer.Fallback.{parse}
use sqlguard.Analyzer.Engine.{Analyzer, new}
use sqlguard.Analyzer.Lexer.Fingerprint.{redact, fold_redacted}
use sqlguard.Config.Warnings.{Warning}
use sqlguard.Config.Profile.{Config}
use sqlguard.Config.Load.{Files, config_analyzer}
use sqlguard.Explain.Runs.{Database}
use sqlguard.Cli.Paths.{PathLib, trim_pattern_suffix_sep, should_skip_dir}
use sqlguard.Cli.Paths.Suffix.{Trims, trim_pattern_suffix_sep-Trims}
use sqlguard.Cli.Format.{neutralize_format}
use sqlguard.Cli.Source.{
  Node, Nodes, call_expr, selector_expr, ident, basic_lit, no_nodes, node_cons,
}
use sqlguard.Cli.Comments.{CommentGroup, is_suppressed, suppressor, last_directive, suppressor_lem}
use sqlguard.Cli.Scan.{
  Position, SourceFile, Package, Entry, file_entry, dir_entry, bad_entry, no_entries, entry_cons,
  scan_ast_file, scan_packages, scan_via_ast,
}
use sqlguard.Cli.Scan.Arguments.{first}
use sqlguard.Cli.Scan.Calls.{CallsIn, in_first, this_call}
use sqlguard.Cli.Scan.Findings.{IsReported, scan_ast_file-IsReported, IsReported-scan_ast_file}
use sqlguard.Cli.Scan.Once.{IsOnce, scan_packages-IsOnce}
use sqlguard.Cli.Scan.Walk.{fails, files, results_of, scan_via_ast_lem}
use sqlguard.Cli.Report.{
  Output, scan_summary, open_database, ping_database, close_database, no_connection,
}
use sqlguard.Cli.Run.Configured.{IsConfigured}
use sqlguard.Cli.Run.Exit.{IsClean, run_scan-IsClean}
use sqlguard.Cli.Explain.Balance.{IsBalanced}
use sqlguard.Cli.Explain.Closed.{run_explain-IsBalanced}
use sqlguard.Cli.Run.{World, Flags, run_scan, scan_target}
use sqlguard.Cli.Explain.{ExplainFlags, run_explain}

trimmed_pattern : trim_pattern_suffix_sep (codes "./pkg/...") b'/' ≡ codes "./pkg"
unfolding trim_pattern_suffix_sep
trimmed_pattern = refl

weird : trim_pattern_suffix_sep (codes "./weird...") b'/' ≡ codes "./weird..."
unfolding trim_pattern_suffix_sep
weird = refl

windows_root : trim_pattern_suffix_sep (codes "C:\\...") b'\\' ≡ codes "C:\\"
unfolding trim_pattern_suffix_sep
windows_root = refl

trim_pattern_suffix_sep-Trims_example :
    Trims b'/' (codes "./pkg/...") (trim_pattern_suffix_sep (codes "./pkg/...") b'/')
trim_pattern_suffix_sep-Trims_example = trim_pattern_suffix_sep-Trims (codes "./pkg/...") b'/'

verbs : neutralize_format (codes "a = %-05.2f, b = '%s' %% %") ≡ codes "a = 0, b = 'sqlguard' % %"
unfolding neutralize_format
verbs = refl

abbrev unquote : Bytes → Option Bytes
unquote s = some s

abbrev position : ℕ → Position
position n = record { file_name = codes "a.go"; line = n }

abbrev query : Bytes
query = codes "SELECT * FROM users"

abbrev note : Result
note = record {
  rule_name = codes "select-star";
  severity = warning;
  query = [];
  fingerprint = [];
  message = text (codes "a star");
  suggestion = [];
  file = [];
  line = 0;
}

abbrev always : Analyzer
always = new parse ((λ _. some note) ∷ [])

abbrev callee : Node
callee = selector_expr 2 (ident 3 (codes "db")) 4 (codes "Query")

abbrev args : Nodes
args = node_cons (basic_lit 5 true query) no_nodes

abbrev source : SourceFile
source = record {
  path = codes "a.go";
  comments = [];
  nodes = node_cons (call_expr 1 3 callee args) no_nodes;
}

abbrev reported : List Result
reported = scan_ast_file parse always unquote position none source

abbrev star : Result
star = record note { query = query; fingerprint = query; file = codes "a.go"; line = 3 }

star-reported : reported ≡ star ∷ []
unfolding scan_ast_file new redact fold_redacted
star-reported = refl

star-Memᴰ : Memᴰ star reported
star-Memᴰ = subst (Memᴰ star) (sym star-reported) (Memᴰ.head refl)

abbrev Reported : Result → Type 0
Reported r =
    (at : ℕ) × (callee : Node) × (args : Nodes) × CallsIn at callee args source.nodes
    × IsReported parse always unquote position [] none at callee args r

scan_ast_file-IsReported_example : Reported star
scan_ast_file-IsReported_example =
    scan_ast_file-IsReported parse always unquote position none source star star-Memᴰ

-- The one call of the file reports the finding.
call-IsReported : IsReported parse always unquote position [] none 3 callee args star
unfolding scan_ast_file new redact fold_redacted
call-IsReported = (
  2,
  ident 3 (codes "db"),
  4,
  codes "Query",
  basic_lit 5 true query,
  refl,
  first (basic_lit 5 true query) no_nodes (inl refl),
  (λ e. cc),
  (record note { query = query; fingerprint = query }, (Memᴰ.head refl, (refl, refl))),
)

IsReported-scan_ast_file_example : Memᴰ star reported
IsReported-scan_ast_file_example =
    IsReported-scan_ast_file parse always unquote position none source 3 callee args star
      (in_first (call_expr 1 3 callee args) no_nodes (this_call 1)) call-IsReported

-- Two groups of comments that end on the two lines that apply to the second.
abbrev comments : List CommentGroup
comments =
    record { text = codes "sqlguard:ignore:select-star"; end_line = 5 }
    ∷ record { text = codes "sqlguard:ignore:large-offset"; end_line = 6 }
    ∷ []

suppressor_lem_example : suppressor comments 6 ≡ last_directive 6 comments none
suppressor_lem_example = suppressor_lem comments 6

-- The directive above the line is lost to the one that trails it.
lost : is_suppressed comments 6 (codes "select-star") ≡ false
unfolding is_suppressed has
lost = refl

abbrev paths : PathLib
paths = record {
  separator = b'/';
  abs = λ p. some p;
  rel = λ _ p. some p;
  to_slash = λ p. p;
  base = λ p. p;
  is_dir = λ _. false;
}

abbrev packages : List Package
packages =
    record { syntax = source ∷ []; types_info = none }
    ∷ record { syntax = source ∷ []; types_info = none }
    ∷ []

scan_packages-IsOnce_example :
    IsOnce parse always unquote position paths [] none
      (scan_packages parse always unquote position paths [] none packages (false, ([], ([], 0)))).1
unfolding IsOnce
scan_packages-IsOnce_example =
    scan_packages-IsOnce parse always unquote position paths [] none packages (false, ([], ([], 0)))
      (refl, (tt, tt))

abbrev tree : Entry
tree = dir_entry (codes ".") (
    entry_cons (dir_entry (codes "vendor") (entry_cons bad_entry no_entries))
      (entry_cons (file_entry (codes "a.go") (some source)) no_entries))

vendor : fails paths (codes ".") none tree ≡ false
unfolding fails should_skip_dir
vendor = refl

scan_via_ast_lem_example :
    scan_via_ast parse always unquote position paths (codes ".") none tree ≡ (
      fails paths (codes ".") none tree,
      (
        results_of paths
            (codes ".")
            none
            parse
            always
            unquote
            position
            (files paths (codes ".") none tree),
        length (files paths (codes ".") none tree),
      ),
    )
scan_via_ast_lem_example =
    scan_via_ast_lem paths (codes ".") none parse always unquote position tree

abbrev db : Database
db = record {
  begins = λ _. false;
  query_row = λ _. none;
  query_rows = λ _. none;
  decode_plans = λ _. none;
}

abbrev no_files : Files
no_files = record {
  read_file = λ _. none;
  is_file = λ _. false;
  exists = λ _. false;
  abs = λ p. some p;
  dir = λ p. p;
  join = λ d name. d;
  unmarshal = λ _. none;
  decode_known = λ _. none;
}

-- A directory without Go files, and a database that cannot be reached.
abbrev world : World
world = record {
  fallback = parse;
  registry = builtin;
  paths = paths;
  files = no_files;
  compile = λ _. none;
  parse_duration = λ _. none;
  unquote = unquote;
  position = position;
  load_packages = λ _. none;
  tree = λ dir. dir_entry dir no_entries;
  json_writes = λ _. none ∷ [];
  opens = λ _ _. true;
  pings = λ _ _. false;
  database = λ _ _. db;
}

abbrev flags : Flags
flags = record { config_path = []; no_config = true; format = codes "console" }

clean_run : run_scan world flags none ≡ some (scan_summary 0 0 ∷ [], inr tt)
unfolding run_scan should_skip_dir
clean_run = refl

abbrev explain : ExplainFlags
explain = record { dsn = codes "dsn"; dialect = codes "postgres"; allow_dml = false }

abbrev dial : List Output
dial = open_database (codes "pgx") ∷ ping_database (codes "pgx") ∷ close_database (codes "pgx") ∷ []

failed_run : run_explain world flags explain query ≡ some (dial, inl no_connection)
unfolding run_explain
failed_run = refl

run_explain-IsBalanced_example : IsBalanced world (codes "dsn") dial
run_explain-IsBalanced_example =
    run_explain-IsBalanced world flags explain query dial (inl no_connection) failed_run

run_scan-IsClean_example :
    (c : Config) × (a : Analyzer) × (ws ws' : List Warning) × (IsConfigured world flags
        (scan_target world none).1
        c
        ws
      × ((config_analyzer (λ _. none) parse builtin c ws ≡ inr (a, ws'))
          × IsClean world (scan_target world none).1 c a))
run_scan-IsClean_example = run_scan-IsClean world flags none (scan_summary 0 0 ∷ []) clean_run
