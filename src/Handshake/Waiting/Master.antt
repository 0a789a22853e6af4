-- ===== src/Handshake/Waiting/Master.antt =====
-- The master that opens a mode and waits for RemoteAck (src/master/MasterFSM.cpp): what it does when its
-- timer expires and when RemoteAck comes.
use modem_tester.Common.{◌≡◌, refl, [], ◌∷◌}
use modem_tester.Events.{
  availability_mode_command, throughput_mode_command, remote_ack, timeout, decode,
}
use modem_tester.Fsm.World.{ok, written}
use modem_tester.Fsm.Library.{TinyFsm}
use modem_tester.Fsm.Run
use modem_tester.Fsm.Run.{read_done, timer_done}
use modem_tester.Master as M
use modem_tester.Master.Invariant as MI
use modem_tester.Handshake.{Mode, availability, throughput, command, master_mode}
use modem_tester.Handshake.Hears.{MasterHeard, master_posts, master_hears, master_waits}
use modem_tester.Handshake.Waiting.{sent, MasterWaits}

module _ (lm : TinyFsm M.MasterState) where
  master_still :
      (mode : Mode) (m n : M.Machine) → MasterHeard lm (sent mode) timeout m n → MasterWaits mode n
  master_still availability m n h = record {
    sound = h.sound;
    current = h.moved;
    reading = h.listening;
    armed = h.armed;
  }
  master_still throughput m n h = record {
    sound = h.sound;
    current = h.moved;
    reading = h.listening;
    armed = h.armed;
  }

  pub master_again :
      (mode : Mode) (m : M.Machine)
      → MasterWaits mode m
      → (n : M.Machine) × (Run.input (M.dispatch lm) (timer_done (M.value (sent mode)) 0) m ≡ ok n)
        × MasterWaits mode n
  master_again mode m w =
      let (n, e, h) = master_waits lm (sent mode) m w.sound w.current in
      (n, e, master_still mode _ n h)

  pub master_opens :
      (mode : Mode) (m : M.Machine)
      → MI.Sound m
      → m.current ≡ M.idle
      → (n : M.Machine) × (M.dispatch lm (command mode) m ≡ ok n) × MasterWaits mode n
  master_opens availability m s c =
      let (n, e, h) = master_posts lm M.idle availability_mode_command m s c (λ h. cc) in
      (n, e, record { sound = h.sound; current = h.moved; reading = h.listening; armed = h.armed })
  master_opens throughput m s c =
      let (n, e, h) = master_posts lm M.idle throughput_mode_command m s c (λ h. cc) in
      (n, e, record { sound = h.sound; current = h.moved; reading = h.listening; armed = h.armed })

  pub master_enters :
      (mode : Mode) (m : M.Machine)
      → MasterWaits mode m
      → (n : M.Machine) × (Run.input (M.dispatch lm) (read_done 0 (244 ∷ [])) m ≡ ok n)
        × (written n.world.trace ≡ 245 ∷ written m.world.trace)
        × (n.current ≡ master_mode mode)
        × MI.Sound n
  unfolding decode
  master_enters availability m w =
      let (n, e, h) =
        master_hears lm M.sent_available_mode_command 244 remote_ack m w.sound w.current w.reading
          refl (λ h. cc) in
      (n, e, h.answered, h.moved, h.sound)
  master_enters throughput m w =
      let (n, e, h) =
        master_hears lm M.sent_throughput_mode_command 244 remote_ack m w.sound w.current w.reading
          refl (λ h. cc) in
      (n, e, h.answered, h.moved, h.sound)
