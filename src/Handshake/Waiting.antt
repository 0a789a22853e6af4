-- ===== src/Handshake/Waiting.antt =====
-- A master and a remote that open a mode (src/master/MasterFSM.cpp, src/remote/RemoteFSM.cpp) and wait
-- for the other's acknowledgement.
pub mod Master
pub mod Remote
use modem_tester.Common.{ℕ, ◌≡◌, refl, true, ◌⊎◌, inl, inr, [], ◌∷◌, subst, ◌∙◌}
use modem_tester.Events.{
  availability_mode_command, throughput_mode_command, remote_ack, master_ack, timeout, decode,
}
use modem_tester.Fsm.World.{ok, written}
use modem_tester.Fsm.Library.{TinyFsm}
use modem_tester.Fsm.Sound.{drop_timer-IsSound}
use modem_tester.Fsm.Run
use modem_tester.Fsm.Run.{read_done, timer_done}
use modem_tester.Master as M
use modem_tester.Master.Invariant as MI
use modem_tester.Remote as R
use modem_tester.Remote.Invariant as RI
use modem_tester.Handshake.{
  Mode, availability, throughput, command, request, master_mode, remote_mode,
}
use modem_tester.Handshake.Hears.{
  MasterHeard, RemoteHeard, master_posts, master_hears, master_waits, remote_posts, remote_hears,
  remote_waits, timed_out,
}

-- The states in which the two machines wait for the acknowledgements.
abbrev pub sent : Mode → M.MasterState
sent availability = M.sent_available_mode_command
sent throughput = M.sent_throughput_mode_command

abbrev pub received : Mode → R.RemoteState
received availability = R.availability_command_received
received throughput = R.throughput_command_received

-- The master waits for RemoteAck with its timer running.
pub record MasterWaits (mode : Mode) (m : M.Machine) : Type 0 where
  pub sound : MI.Sound m
  pub current : m.current ≡ sent mode
  pub reading : m.world.reads ≡ M.value (sent mode) ∷ []
  pub armed : m.world.timer (M.value (sent mode)) ≡ true

-- The remote has heard the request, and its timer runs.
pub record RemoteWaits (mode : Mode) (r : R.Machine) : Type 0 where
  pub sound : RI.Sound r
  pub current : r.current ≡ received mode
  pub armed : r.world.timer (R.value (received mode)) ≡ true

-- The remote has not heard the request, and reads.
pub record RemoteListens (r : R.Machine) : Type 0 where
  pub sound : RI.Sound r
  pub current : r.current ≡ R.remote_idle
  pub reading : r.world.reads ≡ 0 ∷ []

abbrev pub Waits : Mode → M.Machine → R.Machine → Type 0
Waits mode m r = MasterWaits mode m × (RemoteListens r ⊎ RemoteWaits mode r)
