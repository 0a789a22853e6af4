-- ===== src/Tests/Control.antt =====
-- The controller and the machine that it drives (src/master) at concrete
-- inputs, and a trace on a stream (src/AISO.h).
use mathlib.Core.List.{reverse}
use modem_tester.Aiso.{AsyncStream, create_from_stream, replay, Transmits, replay-written}
use modem_tester.Common.{ℕ, ◌≡◌, refl, true, [], ◌∷◌, inr, arith, List, ◌++◌}
use modem_tester.Events.{end_mode_command, decode}
use modem_tester.Fsm.World.{
  initial, write, async_read_some, written, Result, ok, quit, fault, ◌>>=◌, Returns,
}
use modem_tester.Fsm.Library.{plain}
use modem_tester.Fsm.Run
use modem_tester.Fsm.Run.{Input, post, read_done}
use modem_tester.Master as M
use modem_tester.Master.Invariant as MI
use modem_tester.Master.Controller as Control
use modem_tester.Master.Controller.{Controller}
use modem_tester.Master.Controller.Drives.{tick, ticks, Drives, controller-Drives, controller-stuck}

abbrev fresh : M.Machine
fresh = record { current = M.idle; world = record initial { io_stream = true; reads = 0 ∷ [] } }

fresh-Sound : MI.Sound fresh
fresh-Sound = record {
  stream = refl;
  timers = λ j h. cc;
  runnables = λ j. ground arith;
  factories = λ j h. cc;
  reads = inr refl;
}

controller-Drives_example :
    Returns (Drives plain Control.create fresh) (tick plain Control.create fresh)
controller-Drives_example = controller-Drives plain Control.create fresh fresh-Sound

abbrev trying : Controller
trying = record Control.create { trying_availability = true }

controller-stuck_example :
    (d : Controller) × (ticks plain 5 trying fresh ≡ ok ([], d, fresh))
    × (d.trying_availability ≡ true)
unfolding Control.create
controller-stuck_example = controller-stuck plain 5 trying fresh refl refl

-- The mode is opened and ended again before the timer of the controller expires: the machine is idle,
-- and the controller is still trying.
abbrev within_a_second : List Input
within_a_second = read_done 0 (244 ∷ []) ∷ post end_mode_command ∷ read_done 0 (244 ∷ []) ∷ []

abbrev state_after : Result M.Machine → M.MasterState
state_after (ok m) = m.current
state_after (quit c w) = M.availability_mode
state_after fault = M.availability_mode

ends_idle :
    state_after
      (tick plain Control.create fresh >>= λ (c, m). Run.run (M.dispatch plain) within_a_second m)
    ≡ M.idle
unfolding tick Control.create Run.run decode
ends_idle = refl

-- A stream that transmits what is written at once and that nothing is read from.
abbrev transmitter : AsyncStream Unit (List ℕ)
transmitter = record {
  get_io_service = tt;
  async_read_some = λ k size line. line;
  async_read = λ k size line. line;
  write_some = λ bytes line. reverse bytes ++ line;
  write = λ bytes line. reverse bytes ++ line;
  cancel = λ line. line;
  cancel_ec = λ line. (line, 0);
}

transmitter-Transmits : Transmits transmitter
transmitter-Transmits = record {
  writes = λ bytes line. refl;
  writes_some = λ bytes line. refl;
  reads_some = λ k size line. refl;
  reads = λ k size line. refl;
  cancels = λ line. refl;
}

-- The bytes of the trace are on the line, the newest first.
on_the_line :
    replay
      (create_from_stream transmitter)
      (async_read_some 0 1 ∷ write (244 ∷ []) ∷ write (241 ∷ []) ∷ [])
      []
    ≡ written (async_read_some 0 1 ∷ write (244 ∷ []) ∷ write (241 ∷ []) ∷ [])
on_the_line =
    replay-written transmitter (async_read_some 0 1 ∷ write (244 ∷ []) ∷ write (241 ∷ []) ∷ [])
      transmitter-Transmits
