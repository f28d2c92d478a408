-- ===== src/Tests/Driver.antt =====
-- The guard and the wrapped driver at concrete queries: middleware/.
use sqlguard.Prelude.{
  inl, lookup, insert, ◌≡◌, refl, List, [], ◌∷◌, Option, none, some, Bytes, codes, ℤ, pos, equal,
}
use sqlguard.Analyzer.Registry.{builtin}
use sqlguard.Analyzer.Engine.{analyze}
use sqlguard.Analyzer.Lexer.Fingerprint.{fingerprint}
use sqlguard.Middleware.Options.{Setter, with_n1_detection, with_analysis_cache_size}
use sqlguard.Middleware.Cache.{new_analysis_cache}
use sqlguard.Middleware.Cache.Runs.{
  CacheCall, get_call, put_call, run_cache, run_recency, run_cache-new_analysis_cache,
}
use sqlguard.Middleware.Guard.{Guard, new_guard, check}
use sqlguard.Middleware.Guard.Uncached.{
  Execution, uncached, check_all, check_all-uncached, new_guard-IsFaithful,
}
use sqlguard.Middleware.Guard.Tracking.{effect, Reported, check_lem}
use sqlguard.Middleware.Driver.{
  no_error, err_skip, Instants, NamedValue, BaseStmt, BaseConn, named_to_values, conn_call,
}
use sqlguard.Middleware.Driver.Calls.{query_call, stmt_query_call}
use sqlguard.Middleware.Driver.Once.{once, run_calls, logical_query_once}
use sqlguard.Tests.Analysis.{delete_all, sql}

-- Durations of this form are not parsed here: no setting is a text.
abbrev no_duration : Bytes → Option ℤ
no_duration text = none

abbrev options : List Setter
options = with_n1_detection (pos 2) (pos 1000) ∷ with_analysis_cache_size (pos 1) ∷ []

abbrev guard : Guard
guard = new_guard delete_all no_duration builtin options

abbrev twice : List Execution
twice =
    record { now = 10; later = 11; query = sql } ∷ record { now = 20; later = 21; query = sql } ∷ []

check_all-uncached_example :
    (check_all delete_all guard twice).1 ≡ (check_all delete_all (uncached guard) twice).1
check_all-uncached_example = check_all-uncached delete_all no_duration builtin options twice

check_lem_example :
    Reported guard 10 11
      (fingerprint sql guard.opts.analyzer.dialect)
      (analyze delete_all guard.opts.analyzer sql)
      (effect (check delete_all guard 10 11 sql))
check_lem_example =
    check_lem delete_all guard 10 11 sql
      (new_guard-IsFaithful delete_all no_duration builtin options)

-- A base that declines a direct query, as go-sql-driver/mysql does one with arguments.
abbrev statement : BaseStmt Bytes Bytes
statement = record {
  stmt_exec = λ values. (some (codes "done"), no_error);
  stmt_query = λ values. (some (codes "rows"), no_error);
  stmt_exec_context = none;
  stmt_query_context = none;
}

abbrev connection : BaseConn Bytes Bytes
connection = record {
  prepare = λ query. (some statement, no_error);
  prepare_context = none;
  queryer_context = some (λ query args. (none, err_skip));
  queryer = none;
  execer_context = none;
  execer = none;
}

abbrev arguments : List (NamedValue Bytes)
arguments = record { name = []; value = codes "1" } ∷ []

abbrev at : Instants
at = record { start = 1; finished = 5; report_time = 6; track_time = 7 }

-- The direct call is declined, and the prepared statement runs the query.
logical_query_once_example :
    run_calls delete_all sql guard
      ((at, query_call connection arguments) ∷ (at, stmt_query_call statement arguments) ∷ [])
    ≡ once delete_all guard sql at no_error
unfolding named_to_values equal conn_call
logical_query_once_example =
    logical_query_once delete_all sql guard ((at, query_call connection arguments) ∷ []) at
      (stmt_query_call statement arguments) (some (codes "rows"), no_error) (inl refl, tt) refl
      (λ e. cc) (λ e. cc)

-- With room for two queries, the one that was used last stays.
abbrev calls : List CacheCall
calls =
    put_call (codes "a") []
    ∷ put_call (codes "b") []
    ∷ get_call (codes "a")
    ∷ put_call (codes "c") []
    ∷ get_call (codes "a")
    ∷ get_call (codes "b")
    ∷ []

run_keeps_used : run_cache (new_analysis_cache 2) calls ≡ some [] ∷ some [] ∷ none ∷ []
unfolding run_cache lookup insert equal
run_keeps_used = refl

run_cache-new_analysis_cache_example :
    run_cache (new_analysis_cache 2) calls ≡ run_recency 2 [] calls
run_cache-new_analysis_cache_example = run_cache-new_analysis_cache 2 calls
