-- ===== src/Cli/Report.antt =====
-- The output of the commands: `checkedWriter`, `newReporter` and `report` of cmd/sqlguard/scan.go.
pub mod Policy
use sqlguard.Prelude.{
  ℕ, Bool, true, false, List, [], ◌∷◌, ◌++◌, Option, none, some, Bytes, codes, equal, ◌||◌,
  if◌then◌else◌,
}
use sqlguard.Analyzer.Types.{Result}
use sqlguard.Config.Warnings.{Warning}
use sqlguard.Config.Load.{ConfigError}
use sqlguard.Explain.Policy.{PlanError}

-- The errors of the commands, without the text around those that they wrap.
pub data CliError : Type 0 where
  unknown_format : Bytes → CliError
  config_error : ConfigError → CliError
  scan_failed unresolved_path issues_found : CliError
  unsupported_driver : Bytes → CliError
  no_connection : CliError
  plan_error : PlanError → CliError
  write_failed : Bytes → CliError

-- What a command prints, and its calls of the database.
pub data Output : Type 0 where
  rendered : List Result → Output
  scan_summary : ℕ → ℕ → Output
  plan_summary : ℕ → Output
  using_config : Bytes → Output
  config_warning : Warning → Output
  dots_warning : Bytes → Bytes → Output
  open_database ping_database close_database : Bytes → Output

-- The first error of the writes so far.
pub record CheckedWriter : Type 0 where
  pub err : Option Bytes

abbrev pub first_error : Option Bytes → Option Bytes → Option Bytes
first_error (some e) _ = some e
first_error none o = o

-- `Write`, by the error that the writer below returns.
unfoldable pub write : CheckedWriter → Option Bytes → CheckedWriter
write c outcome = record c { err = first_error c.err outcome }

unfoldable pub write_all : CheckedWriter → List (Option Bytes) → CheckedWriter
unfolding write
write_all c [] = c
write_all c (outcome ∷ outcomes) = write_all (write c outcome) outcomes

pub data Reporter : Type 0 where
  json_reporter : CheckedWriter → Reporter
  console_reporter : Reporter

-- `newReporter`, none for an unknown format.
unfoldable pub new_reporter : Bytes → Option Reporter
unfolding equal
new_reporter format =
    if equal format (codes "json")
    then some (json_reporter (record { err = none }))
    else if equal format (codes "console") || equal format []
    then some console_reporter
    else none

-- The `writeErr` of a reporter.
unfoldable pub write_err : Reporter → Option Bytes
write_err (json_reporter c) = c.err
write_err console_reporter = none

abbrev pub verdict : List Result → Option CliError
verdict [] = none
verdict (_ ∷ _) = some issues_found

abbrev pub checked_verdict : Option Bytes → List Result → Option CliError
checked_verdict (some e) results = some (write_failed e)
checked_verdict none results = verdict results

-- `json_writes` gives the errors of the writes that encoding the results makes.
module _ (json_writes : List Result → List (Option Bytes)) where
  -- The method `Report`, in what it does to the writer.
  unfoldable pub render : Reporter → List Result → Reporter
  unfolding write_all
  render (json_reporter c) results = json_reporter (write_all c (json_writes results))
  render console_reporter results = console_reporter

  abbrev pub console_report :
      List Result → List Output → List Output → List Output × Option CliError
  console_report [] found clean = (clean, none)
  console_report (r ∷ rs) found clean = (rendered (r ∷ rs) ∷ found, some issues_found)

  -- `report`; `found` and `clean` are what the caller prints.
  unfoldable pub report :
      Reporter → Bytes → List Result → List Output → List Output → List Output × Option CliError
  unfolding equal render write_err
  report rep format results found clean =
      if equal format (codes "json")
      then (rendered results ∷ [], checked_verdict (write_err (render rep results)) results)
      else console_report results found clean
