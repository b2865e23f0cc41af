-- ===== src/Cli/Run.antt =====
-- The prompt of internal/adapter/cli/cli.go. `rootCmd.Execute` is a parameter, on a state of its own;
-- the lines that the user types, and the error of the scanner when they end, are given.
use pvz_service.Base.{
  ◌≡◌, refl, ap, ◌∙◌, inl, inr, Bool, true, false, Option, none, some, List, [], ◌∷◌, ◌++◌,
  if◌then◌else◌, Bool-cases, any,
}
use pvz_service.Base.Text.{Text, codes, text_eq}
use pvz_service.Domain.Error.{Error, error_text, wrap}
use pvz_service.Db.World.{Result, err, ok}
use pvz_service.Cli.Errors.{map_error}
use pvz_service.Cli.Input.{fields, trim_space}

-- How the program ends: `os.Exit(0)`, or the return of `Run`.
pub data Ending : Type 0 where
  exited : Ending
  ended : Option Error → Ending

-- The state of the commands, and what `Run` prints on standard error; its log and its prompts are
-- left out.
pub record Terminal (S : Type 0) : Type 0 where
  pub state : S
  pub errors : List Text

abbrev shown : Option Error → List Text
shown none = []
shown (some e) = error_text e ∷ []

-- What `Run` adds to standard error in debug mode.
abbrev debug_line : Bool → Error → List Text
debug_line debug e = if debug then (codes "DEBUG: " ++ error_text e) ∷ [] else []

abbrev pub end_of : Option Error → Ending
end_of none = ended none
end_of (some e) = ended (some (wrap (codes "error reading from stdin") e))

module _ {S : Type 0} (multierr_errors : Error → List Error)
    (execute : List Text → S → Result (Unit {0}) × S) where
  abbrev report : Bool → List Text → Result (Unit {0}) × S → Terminal S
  report debug errors (ok _, state) = record { state = state; errors = errors }
  report debug errors (err e, state) = record {
    state = state;
    errors = errors ++ (shown (map_error multierr_errors (some e)) ++ debug_line debug e);
  }

  unfoldable pub run_line : Bool → Text → Terminal S → Terminal S
  unfolding map_error fields
  run_line debug line t = report debug t.errors (execute (fields line) t.state)

  unfoldable pub run : Bool → Option Error → List Text → Terminal S → Ending × Terminal S
  unfolding run_line trim_space
  run debug scanner_error [] t = (end_of scanner_error, t)
  run debug scanner_error (line ∷ lines) t =
      let input = trim_space line in
      let skipped = run debug scanner_error lines t in
      let executed = run debug scanner_error lines (run_line debug input t) in
      if text_eq input []
      then skipped
      else if text_eq input (codes "exit")
      then (exited, t)
      else executed

-- The lines up to the first `exit`, trimmed, without the empty ones.
abbrev pub commands : List Text → List Text
commands [] = []
commands (line ∷ lines) =
    if text_eq (trim_space line) []
    then commands lines
    else if text_eq (trim_space line) (codes "exit")
    then []
    else trim_space line ∷ commands lines

abbrev pub has_exit : List Text → Bool
has_exit lines = any (λ line. text_eq (trim_space line) (codes "exit")) lines

empty-no_exit : (s : Text) → text_eq s [] ≡ true → text_eq s (codes "exit") ≡ false
unfolding text_eq
empty-no_exit [] h = refl
empty-no_exit (c ∷ s) h = cc

-- The state that commands leave, failed ones too.
abbrev pub all_executed : {S : Type 0} → (List Text → S → Result (Unit {0}) × S) → List Text → S → S
all_executed execute [] s = s
all_executed execute (line ∷ lines) s = all_executed execute lines (execute (fields line) s).1

module _ {S : Type 0} (multierr_errors : Error → List Error)
    (execute : List Text → S → Result (Unit {0}) × S) where
  report-state :
      (debug : Bool) (errors : List Text) (r : Result (Unit {0}) × S)
      → (report multierr_errors execute debug errors r).state ≡ r.1
  report-state debug errors (ok _, state) = refl
  report-state debug errors (err e, state) = refl

  run_line-state :
      (debug : Bool) (line : Text) (t : Terminal S)
      → (run_line multierr_errors execute debug line t).state ≡ (execute (fields line) t.state).1
  unfolding run_line
  run_line-state debug line t = report-state debug t.errors (execute (fields line) t.state)

  -- Run executes the trimmed lines that are not empty, up to the first that reads exit, each split
  -- into its fields and each in the state that the one before left, whether that failed or not; it
  -- exits if there is such a line, and else returns the error of the scanner.
  pub run-all_executed :
      (debug : Bool) (scanner_error : Option Error) (lines : List Text) (t : Terminal S)
      → ((run multierr_errors execute debug scanner_error lines t).1.state
          ≡ all_executed execute (commands lines) t.state)
        × ((run multierr_errors execute debug scanner_error lines t).0
            ≡ (if has_exit lines then exited else end_of scanner_error))
  unfolding run
  run-all_executed debug scanner_error [] t = (refl, refl)
  run-all_executed debug scanner_error (line ∷ lines) t =
      let input = trim_space line in
      elim (Bool-cases (text_eq input [])) [
        | inl empty ↦
            rw (empty, empty-no_exit input empty) (run-all_executed debug scanner_error lines t)
        | inr full ↦ rw full (elim (Bool-cases (text_eq input (codes "exit"))) [
          | inl exit ↦ rw exit (refl, refl)
          | inr command ↦
              let (state, ending) =
                run-all_executed debug scanner_error lines
                  (run_line multierr_errors execute debug input t) in
              rw command (
                state ∙ ap (all_executed execute (commands lines)) (run_line-state debug input t),
                ending,
              )
        ])
      ]
