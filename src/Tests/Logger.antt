-- ===== src/Tests/Logger.antt =====
-- src/ivylogger/ivylogger.cpp at concrete inputs.
use Prim.Native.String.{String}
use text.Mathlib.Text.{◌==◌}
use modem_tester.Common.{
  ◌≡◌, refl, ◌↔◌, true, false, List, [], ◌∷◌, Option, none, some, if◌then◌else◌,
}
use modem_tester.Ivylogger.{Options, parsed, logs, standard_output, check_options, on_message}
use modem_tester.Ivylogger.Process.{
  Process, null, live, freed, clearing_bus, looping, initial, Move, goes_on, signal, move, run,
}
use modem_tester.Ivylogger.Process.Gap.{ivylogger-gap}
use modem_tester.Ivylogger.Lines.{log_of}

-- A message that two of the bindings match.
abbrev both_match : String → String → Option (List String)
both_match regexp message =
    if regexp == "^(ground FLIGHT_PARAM .*)$"
    then some (message ∷ [])
    else if regexp == "^(.* GPS .*)$"
    then some (message ∷ [])
    else none

two_lines :
    log_of both_match (("1.500", "ground FLIGHT_PARAM GPS 3") ∷ [])
    ≡ "1.500" ∷ " " ∷ "ground FLIGHT_PARAM GPS 3" ∷ " " ∷ "\n" ∷ "1.500" ∷ " "
      ∷ "ground FLIGHT_PARAM GPS 3" ∷ " " ∷ "\n" ∷ []
unfolding log_of on_message
two_lines = refl

abbrev quiet : Options
quiet = record { help = false; output = "-"; log_level = 0 }

to_standard_output : check_options 5 (parsed quiet) ≡ logs standard_output 5
unfolding check_options
to_standard_output = refl

-- A signal stops the loop, and main comes to `bus = nullptr`.
abbrev to_the_gap : List Move
to_the_gap = goes_on ∷ goes_on ∷ goes_on ∷ signal ∷ goes_on ∷ goes_on ∷ goes_on ∷ goes_on ∷ []

abbrev in_the_gap : Process
in_the_gap = record {
  phase = clearing_bus;
  bus = freed;
  logger = null;
  stream = live;
  stopped = true;
}

ivylogger-gap_example :
    (move standard_output signal in_the_gap ≡ none)
    ↔ ((signal ≡ signal) × (clearing_bus ≡ clearing_bus))
unfolding run
ivylogger-gap_example = ivylogger-gap standard_output to_the_gap in_the_gap signal refl

-- A signal that comes before the bus is made stops nothing.
unheard_signal :
    run standard_output (goes_on ∷ signal ∷ goes_on ∷ goes_on ∷ goes_on ∷ goes_on ∷ []) initial
    ≡ some (record initial { phase = looping; bus = live })
unfolding run
unheard_signal = refl
