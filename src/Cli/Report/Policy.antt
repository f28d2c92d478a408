-- ===== src/Cli/Report/Policy.antt =====
-- The output policy of `report` in cmd/sqlguard/scan.go.
use mathlib.Core.Option.{some_inj}
use sqlguard.Prelude.{
  List, [], ◌∷◌, Option, none, some, Bytes, codes, equal, Bool, true, false, ◌||◌, if◌then◌else◌,
  ◌≡◌, refl, subst, ap,
}
use sqlguard.Analyzer.Types.{Result}
use sqlguard.Cli.Report.{
  CliError, Output, rendered, CheckedWriter, first_error, write, write_all, Reporter, json_reporter,
  console_reporter, new_reporter, verdict, checked_verdict, render, write_err, report,
  console_report,
}

-- The first error among the outcomes of writes.
unfoldable pub first_failure : List (Option Bytes) → Option Bytes
first_failure [] = none
first_failure (none ∷ outcomes) = first_failure outcomes
first_failure (some e ∷ outcomes) = some e

-- A writer keeps the error that it has.
write_all_failed :
    (e : Bytes) (c : CheckedWriter) (outcomes : List (Option Bytes))
    → c.err ≡ some e
    → (write_all c outcomes).err ≡ some e
unfolding write_all write
write_all_failed e c [] h = h
write_all_failed e c (o ∷ outcomes) h =
    write_all_failed e (write c o) outcomes (ap (λ e'. first_error e' o) h)

write_all-first_failure :
    (c : CheckedWriter) (outcomes : List (Option Bytes))
    → c.err ≡ none
    → (write_all c outcomes).err ≡ first_failure outcomes
unfolding write_all write first_failure
write_all-first_failure c [] h = h
write_all-first_failure c (none ∷ outcomes) h =
    write_all-first_failure (write c none) outcomes (ap (λ e. first_error e none) h)
write_all-first_failure c (some e ∷ outcomes) h =
    write_all_failed e (write c (some e)) outcomes (ap (λ e'. first_error e' (some e)) h)

-- What a command prints and how it ends, by its format.
abbrev pub policy :
    (List Result → List (Option Bytes))
    → Bool
    → List Result
    → List Output
    → List Output
    → List Output × Option CliError
policy json_writes true results found clean =
    (rendered results ∷ [], checked_verdict (first_failure (json_writes results)) results)
policy json_writes false [] found clean = (clean, none)
policy json_writes false (r ∷ rs) found clean = (rendered (r ∷ rs) ∷ found, verdict (r ∷ rs))

json_reported :
    (json_writes : List Result → List (Option Bytes)) (format : Bytes) (rep : Reporter)
    (results : List Result)
    → equal format (codes "json") ≡ true
    → new_reporter format ≡ some rep
    → write_err (render json_writes rep results) ≡ first_failure (json_writes results)
unfolding new_reporter render write_err
json_reported json_writes format rep results h e =
    subst (λ r. write_err (render json_writes r results) ≡ first_failure (json_writes results))
      (step (equal format (codes "json"))
        (if equal format (codes "console") || equal format [] then some console_reporter else none)
        h e)
      (write_all-first_failure (record { err = none }) (json_writes results) refl)
  where
    step :
        (b : Bool) (others : Option Reporter)
        → b ≡ true
        → (if b then some (json_reporter (record { err = none })) else others) ≡ some rep
        → json_reporter (record { err = none }) ≡ rep
    step true others h' e' = some_inj.0 e'
    step false others h' e' = cc

-- With the reporter of its format, `report` prints a JSON document for any results, and the error of
-- the first write that failed wins; the console shows the results only where there are some. Without
-- such an error, it ends with the error of findings exactly where there are some.
pub report-policy :
    (json_writes : List Result → List (Option Bytes)) (format : Bytes) (rep : Reporter)
    (results : List Result) (found clean : List Output)
    → new_reporter format ≡ some rep
    → report json_writes rep format results found clean
      ≡ policy json_writes (equal format (codes "json")) results found clean
unfolding report
report-policy json_writes format rep results found clean e =
    step (equal format (codes "json")) refl results
  where
    step :
        (b : Bool)
        → equal format (codes "json") ≡ b
        → (rs : List Result)
        → (if b
            then (rendered rs ∷ [], checked_verdict (write_err (render json_writes rep rs)) rs)
            else console_report json_writes rs found clean)
          ≡ policy json_writes b rs found clean
    step true h rs =
        ap (λ o. (rendered rs ∷ [], checked_verdict o rs))
          (json_reported json_writes format rep rs h e)
    step false h [] = refl
    step false h (r ∷ rs) = refl
