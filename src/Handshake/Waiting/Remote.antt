-- ===== src/Handshake/Waiting/Remote.antt =====
-- The remote that hears a request and waits for MasterAck (src/remote/RemoteFSM.cpp): what it does when
-- its timer expires, when the request comes again, and when MasterAck comes.
use modem_tester.Common.{ℕ, ◌≡◌, refl, ◌⊎◌, inl, inr, [], ◌∷◌, subst, ◌∙◌}
use modem_tester.Events.{
  availability_mode_command, throughput_mode_command, master_ack, timeout, decode,
}
use modem_tester.Fsm.World.{ok, written}
use modem_tester.Fsm.Library.{TinyFsm}
use modem_tester.Fsm.Sound.{drop_timer-IsSound}
use modem_tester.Fsm.Run
use modem_tester.Fsm.Run.{read_done, timer_done}
use modem_tester.Remote as R
use modem_tester.Remote.Invariant as RI
use modem_tester.Handshake.{Mode, availability, throughput, request, remote_mode}
use modem_tester.Handshake.Hears.{RemoteHeard, remote_posts, remote_hears, remote_waits, timed_out}
use modem_tester.Handshake.Waiting.{received, RemoteWaits, RemoteListens}

module _ (lr : TinyFsm R.RemoteState) where
  -- The timeout of a remote that waits: RemoteAck goes out again, and a read is pending again.
  pub record Repeats (mode : Mode) (r n : R.Machine) : Type 0 where
    pub waits : RemoteWaits mode n
    pub reading : n.world.reads ≡ R.value (received mode) ∷ []
    pub wrote : written n.world.trace ≡ 244 ∷ written r.world.trace

  remote_reads :
      (mode : Mode) (r : R.Machine)
      → RemoteWaits mode r
      → (r.world.reads ≡ []) ⊎ (r.world.reads ≡ R.value (received mode) ∷ [])
  remote_reads mode r w =
      subst (λ q. (r.world.reads ≡ []) ⊎ (r.world.reads ≡ R.value q ∷ [])) w.current w.sound.reads

  remote_still :
      (mode : Mode) (m n : R.Machine)
      → RemoteHeard lr (received mode) timeout m n
      → Repeats mode m n
  remote_still availability m n h = record {
    waits = record { sound = h.sound; current = h.moved; armed = h.armed };
    reading = h.listening;
    wrote = h.answered;
  }
  remote_still throughput m n h = record {
    waits = record { sound = h.sound; current = h.moved; armed = h.armed };
    reading = h.listening;
    wrote = h.answered;
  }

  pub remote_again :
      (mode : Mode) (r : R.Machine)
      → RemoteWaits mode r
      → (n : R.Machine) × (Run.input (R.dispatch lr) (timer_done (R.value (received mode)) 0) r
          ≡ ok n)
        × Repeats mode r n
  remote_again mode r w =
      let (n, e, h) = remote_waits lr (received mode) r w.sound w.current in
      let again = remote_still mode _ n h in
      (n, e, record { waits = again.waits; reading = again.reading; wrote = again.wrote })

  pub remote_waits_or_listens :
      (mode : Mode) (r : R.Machine)
      → RemoteListens r ⊎ RemoteWaits mode r
      → (n : R.Machine) × (Run.input (R.dispatch lr) (timer_done (R.value (received mode)) 0) r
          ≡ ok n)
        × (RemoteListens n ⊎ RemoteWaits mode n)
  unfolding Run.input
  remote_waits_or_listens mode r (inr w) =
      let (n, e, again) = remote_again mode r w in (n, e, inr again.waits)
  remote_waits_or_listens mode r (inl l) =
      let k = R.value (received mode) in
      let (n, e, h) =
        remote_posts lr R.remote_idle timeout (timed_out k r) (drop_timer-IsSound l.sound k)
          l.current (λ h. cc) in
      (n, e, inl (record { sound = h.sound; current = h.moved; reading = h.listening ∙ l.reading }))

  -- A request that arrives is heard by a remote that listens; one that waits ignores it, and has no
  -- read pending afterwards.
  remote_idle-hears :
      (mode : Mode) (r : R.Machine)
      → RemoteListens r
      → (n : R.Machine) × (Run.input (R.dispatch lr) (read_done 0 (request mode ∷ [])) r ≡ ok n)
        × RemoteWaits mode n
  unfolding decode
  remote_idle-hears availability r l =
      let (n, e, h) =
        remote_hears lr R.remote_idle 241 availability_mode_command r l.sound l.current l.reading
          refl (λ h. cc) in
      (n, e, record { sound = h.sound; current = h.moved; armed = h.armed })
  remote_idle-hears throughput r l =
      let (n, e, h) =
        remote_hears lr R.remote_idle 242 throughput_mode_command r l.sound l.current l.reading refl
          (λ h. cc) in
      (n, e, record { sound = h.sound; current = h.moved; armed = h.armed })

  remote_waiting-hears :
      (mode : Mode) (r : R.Machine)
      → RemoteWaits mode r
      → r.world.reads ≡ R.value (received mode) ∷ []
      → (n : R.Machine) × (Run.input (R.dispatch lr) (read_done 0 (request mode ∷ [])) r ≡ ok n)
        × RemoteWaits mode n
  unfolding decode
  remote_waiting-hears availability r w rr =
      let (n, e, h) =
        remote_hears lr R.availability_command_received 241 availability_mode_command r w.sound
          w.current rr refl (λ h. cc) in
      (n, e, record { sound = h.sound; current = h.moved; armed = h.armed ∙ w.armed })
  remote_waiting-hears throughput r w rr =
      let (n, e, h) =
        remote_hears lr R.throughput_command_received 242 throughput_mode_command r w.sound
          w.current rr refl (λ h. cc) in
      (n, e, record { sound = h.sound; current = h.moved; armed = h.armed ∙ w.armed })

  deaf :
      (b : ℕ) (r : R.Machine)
      → r.world.reads ≡ []
      → Run.input (R.dispatch lr) (read_done 0 (b ∷ [])) r ≡ ok r
  unfolding Run.input
  deaf b r e = rw e

  pub remote_requested :
      (mode : Mode) (r : R.Machine)
      → RemoteListens r ⊎ RemoteWaits mode r
      → (n : R.Machine) × (Run.input (R.dispatch lr) (read_done 0 (request mode ∷ [])) r ≡ ok n)
        × RemoteWaits mode n
  remote_requested mode r (inl l) = remote_idle-hears mode r l
  remote_requested mode r (inr w) = elim (remote_reads mode r w) [
    | inl e ↦ (r, deaf (request mode) r e, w)
    | inr e ↦ remote_waiting-hears mode r w e
  ]

  pub remote_enters :
      (mode : Mode) (r : R.Machine)
      → RemoteWaits mode r
      → r.world.reads ≡ R.value (received mode) ∷ []
      → (n : R.Machine) × (Run.input (R.dispatch lr) (read_done 0 (245 ∷ [])) r ≡ ok n)
        × (n.current ≡ remote_mode mode)
        × RI.Sound n
  unfolding decode
  remote_enters availability r w rr =
      let (n, e, h) =
        remote_hears lr R.availability_command_received 245 master_ack r w.sound w.current rr refl
          (λ h. cc) in
      (n, e, h.moved, h.sound)
  remote_enters throughput r w rr =
      let (n, e, h) =
        remote_hears lr R.throughput_command_received 245 master_ack r w.sound w.current rr refl
          (λ h. cc) in
      (n, e, h.moved, h.sound)
