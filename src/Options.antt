-- ===== src/Options.antt =====
-- The options of src/main.cpp, once the library has parsed them, and the role that the process takes.
pub mod Checks
use modem_tester.Common.{ℕ, ◌+◌, ◌-◌, ◌%◌, not, ltb, if◌then◌else◌, Bool, true, false}

-- variables_map: --help, --remote and the path given, and the value of --log_level
pub record Options : Type 0 where
  pub help : Bool
  pub remote : Bool
  pub path : Bool
  pub log_level : ℕ

-- What the parser ends in: options, one of the two errors that are caught, too many paths and an
-- unknown option, or another error, such as a value that is no number.
pub data Parsed : Type 0 where
  parsed : Options → Parsed
  too_many_paths unknown_option another_error : Parsed

-- exit with a status, an exception that main does not catch, or the role taken, with the severity that
-- setLogLevel gets
pub data Outcome : Type 0 where
  exits : ℕ → Outcome
  terminates : Outcome
  serves_remote serves_master : ℕ → Outcome

-- EXIT_SUCCESS and EXIT_FAILURE
abbrev success : ℕ
success = 0

abbrev failure : ℕ
failure = 1

-- `fatal - logLevel` on unsigned int, for the library's value of `fatal`
unfoldable pub severity : ℕ → ℕ → ℕ
severity fatal log_level = (fatal + 4_294_967_296 - log_level) % 4_294_967_296

-- `logLevel < 0 ||` is false for an unsigned int.
start_role : ℕ → Options → Outcome
unfolding severity
start_role fatal o =
    if o.remote
    then serves_remote (severity fatal o.log_level)
    else serves_master (severity fatal o.log_level)

unfoldable pub check_options : ℕ → Parsed → Outcome
unfolding start_role
check_options fatal too_many_paths = exits failure
check_options fatal unknown_option = exits failure
check_options fatal another_error = terminates
check_options fatal (parsed o) =
    if o.help
    then exits success
    else if not o.path
    then exits failure
    else if ltb 5 o.log_level
    then exits failure
    else start_role fatal o
