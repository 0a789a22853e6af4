-- ===== src/Ivylogger.antt =====
-- src/ivylogger/ivylogger.cpp: a tool that writes the reports on the Ivy bus to a file or to the
-- standard output.
pub mod Lines
pub mod Process
use Prim.Native.String.{String}
use text.Mathlib.Text.{◌==◌}
use modem_tester.Common.{
  ℕ, ltb, if◌then◌else◌, Bool, true, false, List, [], ◌∷◌, ◌++◌, Option, none, some,
}
use modem_tester.Options.{severity}

-- variables_map: --help, and the values of --output and --log_level
pub record Options : Type 0 where
  pub help : Bool
  pub output : String
  pub log_level : ℕ

-- What the parser ends in: options, the error that is caught, or another one.
pub data Parsed : Type 0 where
  parsed : Options → Parsed
  unknown_option another_error : Parsed

-- _os: std::cout, or a stream to a file
pub data Sink : Type 0 where
  standard_output : Sink
  file : String → Sink

-- exit with a status, an exception that main does not catch, or the logger that was made, with the
-- severity that setLogLevel gets
pub data Outcome : Type 0 where
  exits : ℕ → Outcome
  terminates : Outcome
  logs : Sink → ℕ → Outcome

-- `if (filename == "-") cb = new IvyLogger (); else cb = new IvyLogger (filename);`
abbrev pub make_logger : String → Sink
make_logger filename = if filename == "-" then standard_output else file filename

-- main up to setLogLevel; `logLevel < 0 ||` is false for an unsigned int.
unfoldable pub check_options : ℕ → Parsed → Outcome
unfolding severity
check_options fatal unknown_option = exits 1
check_options fatal another_error = terminates
check_options fatal (parsed o) =
    if o.help
    then exits 0
    else if ltb 5 o.log_level
    then exits 1
    else logs (make_logger o.output) (severity fatal o.log_level)

abbrev argument_pieces : List String → List String
argument_pieces [] = []
argument_pieces (arg ∷ argv) = arg ∷ " " ∷ argument_pieces argv

-- OnMessage: what is put into the stream, piece by piece, at a date as the stream prints it
unfoldable pub on_message : String → List String → List String → List String
on_message date argv os = os ++ (date ∷ " " ∷ (argument_pieces argv ++ "\n" ∷ []))

-- the four calls of BindMsg
abbrev pub bindings : List String
bindings =
    "^(ground AVAIL_REPORT .*)$" ∷ "^(ground THROUGHPUT_REPORT .*)$" ∷ "^(ground FLIGHT_PARAM .*)$"
    ∷ "^(.* GPS .*)$" ∷ []

-- The Ivy library calls OnMessage once for each binding that a message matches, with what its groups
-- capture: `captures` of the regular expression and the message.
module _ (captures : String → String → Option (List String)) where
  unfoldable pub receive : List String → String → String → List String → List String
  unfolding on_message
  receive [] date message os = os
  receive (regexp ∷ regexps) date message os = elim (captures regexp message) [
    | none ↦ receive regexps date message os
    | some argv ↦ receive regexps date message (on_message date argv os)
  ]

  -- ivyMainLoop, for the messages on the bus with their dates
  unfoldable pub ivy_main_loop : List (String × String) → List String → List String
  unfolding receive
  ivy_main_loop [] os = os
  ivy_main_loop ((date, message) ∷ messages) os =
      ivy_main_loop messages (receive bindings date message os)
