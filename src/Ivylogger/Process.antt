-- ===== src/Ivylogger/Process.antt =====
-- The process of src/ivylogger/ivylogger.cpp once its logger is made, one statement of main at a time;
-- a signal may come between any two. None is undefined behaviour.
pub mod Gap
use modem_tester.Common.{Bool, true, false, if◌then◌else◌, List, [], ◌∷◌, Option, none, some}
use modem_tester.Ivylogger.{Sink, standard_output, file}

-- A pointer that is null, or to an object that is alive or deleted.
pub data Pointer : Type 0 where
  null live freed : Pointer

-- `delete p`, and a call on `p`
abbrev pub delete : Pointer → Option Pointer
delete null = some null
delete live = some freed
delete freed = none

abbrev pub call : Pointer → Option Pointer
call live = some live
call _ = none

-- Before the statement of main: the calls of signal, `bus = new Ivy`, the four calls of BindMsg and
-- `bus->start`; in ivyMainLoop; before `delete cb`, `cb = nullptr`, `delete bus`, `bus = nullptr` and
-- `return`; or after it. The last one is of a process that a signal has ended.
pub data Phase : Type 0 where
  installing making starting looping deleting_logger clearing_logger : Phase
  deleting_bus clearing_bus returning returned killed : Phase

pub record Process : Type 0 where
  pub phase : Phase
  pub bus : Pointer
  -- cb, and the stream that it owns
  pub logger : Pointer
  pub stream : Pointer
  -- `bus->stop ()` was called
  pub stopped : Bool

-- The state before `signal (SIGTERM, sighandler)`.
abbrev pub initial : Process
initial = record { phase = installing; bus = null; logger = live; stream = live; stopped = false }

-- sighandler
unfoldable pub sighandler : Process → Option Process
sighandler p = elim p.bus [
  | null ↦ some p
  | live ↦ some (record p { stopped = true })
  | freed ↦ none
]

-- ~IvyLogger: the stream is flushed, and deleted unless it is std::cout
unfoldable pub destroy_logger : Sink → Process → Option Process
destroy_logger standard_output p = elim (call p.stream) [ none ↦ none | some s ↦ some p ]
destroy_logger (file filename) p = elim (call p.stream) [
  | none ↦ none
  | some s ↦ elim (delete s) [ none ↦ none | some t ↦ some (record p { stream = t }) ]
]

-- `delete cb`
unfoldable pub delete_logger : Sink → Process → Option Process
unfolding destroy_logger
delete_logger sink p = elim p.logger [
  | null ↦ some p
  | live ↦ elim (destroy_logger sink p) [
    | none ↦ none
    | some q ↦ some (record q { logger = freed })
  ]
  | freed ↦ none
]

pub data Move : Type 0 where
  goes_on : Move
  -- SIGTERM or SIGINT
  signal : Move

-- Without a handler a signal ends the process, and one that has ended gets none.
abbrev pub signal_at : Phase → Process → Option Process
signal_at installing p = some (record p { phase = killed })
signal_at returned p = some p
signal_at killed p = some p
signal_at _ p = sighandler p

module _ (sink : Sink) where
  -- One statement of main; the loop of the bus returns once stop was called.
  unfoldable pub step_at : Phase → Process → Option Process
  unfolding delete_logger
  step_at installing p = some (record p { phase = making })
  step_at making p = some (record p { bus = live; phase = starting })
  step_at starting p = elim (call p.bus) [
    | none ↦ none
    | some b ↦ some (record p { phase = looping })
  ]
  step_at looping p = elim (call p.bus) [
    | none ↦ none
    | some b ↦ some (if p.stopped then record p { phase = deleting_logger } else p)
  ]
  step_at deleting_logger p = elim (delete_logger sink p) [
    | none ↦ none
    | some q ↦ some (record q { phase = clearing_logger })
  ]
  step_at clearing_logger p = some (record p { logger = null; phase = deleting_bus })
  step_at deleting_bus p = elim (delete p.bus) [
    | none ↦ none
    | some b ↦ some (record p { bus = b; phase = clearing_bus })
  ]
  step_at clearing_bus p = some (record p { bus = null; phase = returning })
  step_at returning p = some (record p { phase = returned })
  step_at returned p = some p
  step_at killed p = some p

  unfoldable pub move : Move → Process → Option Process
  unfolding step_at sighandler
  move goes_on p = step_at p.phase p
  move signal p = signal_at p.phase p

  unfoldable pub run : List Move → Process → Option Process
  unfolding move
  run [] p = some p
  run (m ∷ ms) p = elim (move m p) [ none ↦ none | some q ↦ run ms q ]
