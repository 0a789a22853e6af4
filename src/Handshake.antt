-- ===== src/Handshake.antt =====
-- The two state machines (src/master/MasterFSM.cpp, src/remote/RemoteFSM.cpp) over a line that brings
-- every byte that one writes to the other, which reads it alone.
mod Hears
pub mod Waiting
pub mod Loss
use modem_tester.Common.{ℕ, ◌≡◌, ◌≢◌, refl, true, [], ◌∷◌, ◌++◌, some, arith, subst, sym, ◌∙◌, ap}
use modem_tester.Events.{
  Event, availability_mode_command, throughput_mode_command, end_mode_command, remote_ack,
  master_ack, end_test, decode,
}
use modem_tester.Fsm.World.{Result, ok, ◌>>=◌, Holds, Returns-ok, written}
use modem_tester.Fsm.Library.{Fsm, TinyFsm}
use modem_tester.Fsm.Base.{read_byte}
use modem_tester.Fsm.Sound.{drop_read-IsSound}
use modem_tester.Fsm.Run
use modem_tester.Fsm.Run.{Input, read_done}
use modem_tester.Master as M
use modem_tester.Master.Invariant as MI
use modem_tester.Master.Protocol as MP
use modem_tester.Remote as R
use modem_tester.Remote.Invariant as RI
use modem_tester.Remote.Protocol as RP
use modem_tester.Handshake.Hears.{
  MasterHeard, RemoteHeard, master_posts, master_hears, remote_posts, remote_hears,
}

-- The two modes, with what each side calls them and the byte that asks for each.
pub data Mode : Type 0 where
  availability throughput : Mode

abbrev pub command : Mode → Event
command availability = availability_mode_command
command throughput = throughput_mode_command

abbrev pub request : Mode → ℕ
request availability = 241
request throughput = 242

abbrev pub master_mode : Mode → M.MasterState
master_mode availability = M.availability_mode
master_mode throughput = M.throughput_mode

abbrev pub remote_mode : Mode → R.RemoteState
remote_mode availability = R.remote_availability_mode
remote_mode throughput = R.remote_throughput_mode

module _ (lm : TinyFsm M.MasterState) (lr : TinyFsm R.RemoteState) where
  -- What happens from m and r on when a mode is opened.
  abbrev pub Opens : Mode → M.Machine → R.Machine → Type 0
  Opens mode m r =
      (m1 : M.Machine) × (r1 : R.Machine) × (m2 : M.Machine) × (r2 : R.Machine) × (M.dispatch lm
          (command mode) m
        ≡ ok m1)
      × (written m1.world.trace ≡ request mode ∷ written m.world.trace)
      × (Run.input (R.dispatch lr) (read_done 0 (request mode ∷ [])) r ≡ ok r1)
      × (written r1.world.trace ≡ 244 ∷ written r.world.trace)
      × (Run.input (M.dispatch lm) (read_done 0 (244 ∷ [])) m1 ≡ ok m2)
      × (written m2.world.trace ≡ 245 ∷ written m1.world.trace)
      × (Run.input (R.dispatch lr) (read_done 0 (245 ∷ [])) r1 ≡ ok r2)
      × (written r2.world.trace ≡ written r1.world.trace)
      × (m2.current ≡ master_mode mode)
      × (r2.current ≡ remote_mode mode)
      × MI.Sound m2
      × RI.Sound r2

  -- Both machines are sound and idle, and the remote's read is pending. The command for a mode is
  -- dispatched to the master, and each byte that one writes is read by the other: the request, RemoteAck
  -- (244) and MasterAck (245). Every step returns, nothing else is written, and at the end both are in
  -- the mode and sound.
  pub handshake-Opens :
      (mode : Mode) (m : M.Machine) (r : R.Machine)
      → MI.Sound m
      → RI.Sound r
      → m.current ≡ M.idle
      → r.current ≡ R.remote_idle
      → r.world.reads ≡ 0 ∷ []
      → Opens mode m r
  unfolding decode
  handshake-Opens availability m r sm sr cm cr rr =
      let (m1, e1, h1) = master_posts lm M.idle availability_mode_command m sm cm (λ h. cc) in
      let (r1, e2, h2) =
        remote_hears lr R.remote_idle 241 availability_mode_command r sr cr rr refl (λ h. cc) in
      let (m2, e3, h3) =
        master_hears lm M.sent_available_mode_command 244 remote_ack m1 h1.sound h1.moved
          h1.listening refl (λ h. cc) in
      let (r2, e4, h4) =
        remote_hears lr R.availability_command_received 245 master_ack r1 h2.sound h2.moved
          h2.listening refl (λ h. cc) in
      (
        m1, r1, m2, r2, e1, h1.answered, e2, h2.answered, e3, h3.answered, e4, h4.answered,
        h3.moved, h4.moved, h3.sound, h4.sound,
      )
  handshake-Opens throughput m r sm sr cm cr rr =
      let (m1, e1, h1) = master_posts lm M.idle throughput_mode_command m sm cm (λ h. cc) in
      let (r1, e2, h2) =
        remote_hears lr R.remote_idle 242 throughput_mode_command r sr cr rr refl (λ h. cc) in
      let (m2, e3, h3) =
        master_hears lm M.sent_throughput_mode_command 244 remote_ack m1 h1.sound h1.moved
          h1.listening refl (λ h. cc) in
      let (r2, e4, h4) =
        remote_hears lr R.throughput_command_received 245 master_ack r1 h2.sound h2.moved
          h2.listening refl (λ h. cc) in
      (
        m1, r1, m2, r2, e1, h1.answered, e2, h2.answered, e3, h3.answered, e4, h4.answered,
        h3.moved, h4.moved, h3.sound, h4.sound,
      )

  -- What happens from m and r on when a mode is ended.
  abbrev pub Ends : Mode → M.Machine → R.Machine → Type 0
  Ends mode m r =
      (m1 : M.Machine) × (r1 : R.Machine) × (m2 : M.Machine) × (r2 : R.Machine) × (M.dispatch lm
          end_mode_command m
        ≡ ok m1)
      × (written m1.world.trace ≡ 243 ∷ written m.world.trace)
      × (R.dispatch lr end_mode_command r ≡ ok r1)
      × (written r1.world.trace ≡ 244 ∷ written r.world.trace)
      × (Run.input (M.dispatch lm) (read_done 0 (244 ∷ [])) m1 ≡ ok m2)
      × (written m2.world.trace ≡ 245 ∷ written m1.world.trace)
      × (Run.input (R.dispatch lr) (read_done 0 (245 ∷ [])) r1 ≡ ok r2)
      × (written r2.world.trace ≡ written r1.world.trace)
      × (m2.current ≡ M.idle)
      × (r2.current ≡ R.remote_idle)
      × MI.Sound m2
      × RI.Sound r2
      × (m2.world.reads ≡ 0 ∷ [])
      × (r2.world.reads ≡ 0 ∷ [])

  -- Both machines are sound and in the same mode. EndModeCommand is dispatched to the master, which
  -- writes its byte (243), and to the remote, as its activity does when it reads that byte; the bytes
  -- that follow, RemoteAck (244) and MasterAck (245), are read by the other machine. Every step
  -- returns, nothing else is written, and at the end both are sound and idle, with a read pending on
  -- each side.
  pub handshake-Ends :
      (mode : Mode) (m : M.Machine) (r : R.Machine)
      → MI.Sound m
      → RI.Sound r
      → m.current ≡ master_mode mode
      → r.current ≡ remote_mode mode
      → Ends mode m r
  unfolding decode
  handshake-Ends availability m r sm sr cm cr =
      let (m1, e1, h1) = master_posts lm M.availability_mode end_mode_command m sm cm (λ h. cc) in
      let (r1, e2, h2) =
        remote_posts lr R.remote_availability_mode end_mode_command r sr cr (λ h. cc) in
      let (m2, e3, h3) =
        master_hears lm M.wait_ack_after_end_mode 244 remote_ack m1 h1.sound h1.moved h1.listening
          refl (λ h. cc) in
      let (r2, e4, h4) =
        remote_hears lr R.end_mode_received 245 master_ack r1 h2.sound h2.moved h2.listening refl
          (λ h. cc) in
      (
        m1, r1, m2, r2, e1, h1.answered, e2, h2.answered, e3, h3.answered, e4, h4.answered,
        h3.moved, h4.moved, h3.sound, h4.sound, h3.listening, h4.listening,
      )
  handshake-Ends throughput m r sm sr cm cr =
      let (m1, e1, h1) = master_posts lm M.throughput_mode end_mode_command m sm cm (λ h. cc) in
      let (r1, e2, h2) =
        remote_posts lr R.remote_throughput_mode end_mode_command r sr cr (λ h. cc) in
      let (m2, e3, h3) =
        master_hears lm M.wait_ack_after_end_mode 244 remote_ack m1 h1.sound h1.moved h1.listening
          refl (λ h. cc) in
      let (r2, e4, h4) =
        remote_hears lr R.end_mode_received 245 master_ack r1 h2.sound h2.moved h2.listening refl
          (λ h. cc) in
      (
        m1, r1, m2, r2, e1, h1.answered, e2, h2.answered, e3, h3.answered, e4, h4.answered,
        h3.moved, h4.moved, h3.sound, h4.sound, h3.listening, h4.listening,
      )
