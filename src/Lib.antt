-- ===== src/Lib.antt =====
-- sqlguard: the analysis of SQL queries, at run time and in Go sources.
--
-- The program watches the queries that a Go program sends to its database.
-- The analyzer (analyzer/) parses a query, reads the directives in its
-- comments, evaluates the rules that a profile leaves enabled and gives every
-- finding a form of the query that shows no literal and a fingerprint that all
-- queries of one shape share. The middleware (middleware/) sits in the
-- driver chain of database/sql: it hands each executed query to the analyzer, or
-- to a cache of its answers, drops a finding that it reported a short time ago,
-- and counts fingerprints to find a query that is repeated for each row of
-- another (N+1). The configuration (config/) resolves a file into the profile
-- and the options of both, and explain/ asks a database for the plan of a query
-- and reads findings off it. The parsers of one dialect (parsers/) refine the
-- fallback parser's statement by what a grammar's tree says, and the command
-- line (cmd/sqlguard/) runs the analyzer over Go sources and the plan analysis
-- over a query.
--
-- Parts and files:
--   Prelude            bytes and text, Boolean tests, lists, association lists
--                      and integers over the native numbers
--   Analyzer/Types     analyzer/severity.go, statement.go, dialect.go, result.go
--   Analyzer/Lexer     analyzer/redact.go and the comment stripping of
--                      analyzer/fallback.go: Chars (byte classes), Space
--                      (strings.Fields), Scan (the scanners of quotes, dollar
--                      quotes and numbers), Spans (literalSpans), Union
--                      (unionSpans, redactSpans), Redact (redact), Comments
--                      (stripComments), Fingerprint (foldRedacted, Fingerprint),
--                      Tokens (lexSQL of analyzer/suppress.go)
--                      Cases (letter case)
--   Analyzer/Pattern   the matching of Go's regexp, leftmost and first choice
--                      first, for the patterns of the fallback parser
--   Analyzer/Fallback  analyzer/fallback.go: Parse; Patterns (the regular
--                      expressions), Parens (depth, splitting, unwrapping),
--                      Blank (blankQuoted, and IsMultiStatement of
--                      analyzer/redact.go), Regions (clauses and joins), Kinds
--                      (detectKind and the measures), Scope (scopedBounds)
--   Analyzer/Dialects  ParseDialect of analyzer/dialect.go
--   Analyzer/Suppress  analyzer/suppress.go: commentDirective,
--                      intersectDirectives, parseIgnoreDirective,
--                      ParseIgnoreComment
--   Analyzer/Settings  the settings of analyzer/registry.go
--   Analyzer/Rules     analyzer/rules.go: the rules and the built-in registry
--   Analyzer/Registry  RuleSpec, Register, Profile of analyzer/registry.go
--   Analyzer/Engine    analyzer/analyzer.go and parser.go: construction and
--                      Analyze
--   Middleware/Tracker middleware/n_plus_one.go
--   Middleware/Dedup   middleware/dedup.go
--   Middleware/Cache   middleware/cache.go
--   Middleware/Options middleware/options.go and dialect.go
--   Middleware/Guard   middleware/guard.go: NewGuard and the steps of a guard
--   Middleware/Driver  middleware/driver.go: the wrapped connection and statement;
--                      Session (what it forwards, and how it is made)
--   Explain/Plans      explain/explain.go: the plan rules; Policy (validate,
--   Explain/Policy     applyProfile, New), Runs (Analyze as the trace of its
--   Explain/Runs       calls of the database)
--   Config/Warnings    config/config.go: the closure warn of Profile; Settings
--   Config/Settings    (checkSettings), Profile (Profile), Load (Load, Discover,
--   Config/Profile     DedupWindow, ExcludeMatcher, and config/middleware.go);
--   Config/Load        Strict, Sound and Scanned hold proofs
--   Parsers/Structure  what parsers/pgparser/pgparser.go and parsers/mysqlparser/
--   Parsers/Postgres   mysqlparser.go share, and the two parsers; Contract,
--   Parsers/Mysql      Operands and Rules are what is shown of both
--   Cli/Paths          cmd/sqlguard/scan.go: trimPatternSuffix, keepFile,
--                      shouldSkipDir; Format (neutralizeFormat), Source
--   Cli/Source         (resolveQuery over the syntax of Go), Comments
--   Cli/Scan           (buildSuppressor), Scan (scanASTFile, scanViaPackages,
--   Cli/Report         scanViaAST), Report (newReporter, report)
--   Cli/Run            runScan and scanDir of scan.go, root.go and main.go: a
--                      command gives what it prints and its error
--   Cli/Explain        cmd/sqlguard/explain.go and db.go
--   Tests              runs of the code at fixed inputs, and an instance of
--                      each result that has hypotheses
--
-- The correspondence. A Go function keeps its name in snake case, a struct is a
-- record with its fields, an enumeration a data type. Further choices:
--   * A string is a list of bytes. A Go loop that moves an index over a string
--     is a function on the index and the suffix behind it; a jump of the index
--     to an end that a scanner has found is a bound (`until`) below which the
--     bytes are passed over. So each loop is structural and takes no fuel.
--   * A counter of type int is a native number, since no list, text or map
--     reaches 2 ^ 63 entries. An instant is a number of nanoseconds; a duration
--     is an integer, since an option may be negative.
--   * A method that locks a mutex for its whole body is one atomic step; the
--     interleavings of goroutines are the orders of these steps.
--   * A Go map is an association list; a sweep that deletes from a map keeps
--     the entries that its test does not name. The order of a Go map is not
--     specified: the configuration is resolved in the order of the list, and
--     what is shown of it holds of every order; nothing else depends on it.
--   * The messages of findings are kept as the values that fmt prints.
--   * The regular expressions ignoreTokenRe and fpListRe are translated to
--     functions by hand, those of the fallback parser and formatVerb of
--     cmd/sqlguard/scan.go to patterns.
--   * Fuel: unwrapStatementParens takes a round for each byte of the text, and
--     Discover one for each byte of the path and one more; both are shown to be
--     enough. Everything else is structural.
--   * Parameters: a parser, and the fallback parser that the analyzer falls back
--     on (Analyzer/Fallback is the instance of the program), time.ParseDuration
--     behind the duration settings, the files, paths, YAML decoder and
--     regexp.Compile of config/, the database's replies and the JSON decoder of
--     explain/,
--     the base driver's entry points and replies, the package path that reflect
--     gives, and the instants that a step reads from the clock. How database/sql
--     calls the wrapper is a hypothesis on the list of calls: it calls again
--     only after driver.ErrSkip or driver.ErrBadConn.
--   * Parameters of parsers/ and cmd/: the grammars, whose trees are types with
--     what the parsers read; Go's parser, type checker, strconv.Unquote and
--     package loader, filepath, what filepath.Walk meets, and whether a database
--     opens and answers. A node of Go's syntax has an identity, its pointer, by
--     which the type information is read.
--   * The reporter is a sink: a step gives the list of its calls. A guard takes
--     the locks of its cache, deduper and tracker in turn, and a step of the
--     guard is that of one caller.
--   * A list element of the cache has an address, by which the map points to it.
--
-- Not modelled: reporter/, which prints, the facade sqlguard.go, which passes on
-- two functions of middleware/, the integrations, which hand the hooks of other
-- libraries to the guard, and the declarations of the commands' flags.
pub mod Prelude
pub mod Analyzer
pub mod Middleware
pub mod Explain
pub mod Config
pub mod Parsers
pub mod Cli
mod Tests
