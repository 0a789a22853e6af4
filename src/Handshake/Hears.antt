-- ===== src/Handshake/Hears.antt =====
-- What the machines of src/master/MasterFSM.cpp and src/remote/RemoteFSM.cpp do with an event, and with
-- a byte that they read (src/BaseFSM.h).
use modem_tester.Common.{
  ℕ, ◌≡◌, ◌≢◌, refl, false, if◌then◌else◌, [], ◌∷◌, ◌++◌, some, subst, sym, ◌∙◌, ap,
}
use modem_tester.Events.{Event, timeout, end_test, decode}
use modem_tester.Fsm.World.{Result, ok, ◌>>=◌, Holds, Returns-ok, written, update}
use modem_tester.Fsm.Library.{Fsm, TinyFsm}
use modem_tester.Fsm.Base.{read_byte}
use modem_tester.Fsm.Sound.{drop_read-IsSound, drop_timer-IsSound}
use modem_tester.Fsm.Run
use modem_tester.Fsm.Run.{Input, read_done, timer_done}
use modem_tester.Master as M
use modem_tester.Master.Invariant as MI
use modem_tester.Master.Protocol as MP
use modem_tester.Remote as R
use modem_tester.Remote.Invariant as RI
use modem_tester.Remote.Protocol as RP

-- The only read has completed.
abbrev pub taken : {Q : Type 0} → Fsm Q → Fsm Q
taken m = record m { world = record m.world { reads = [] } }

-- A machine with one read pending that reads a byte dispatches the event of the byte.
read-dispatches :
    {Q : Type 0} (dispatch : Event → Fsm Q → Result (Fsm Q)) (k b : ℕ) (e : Event) (m : Fsm Q)
    → m.world.reads ≡ k ∷ []
    → decode b ≡ some e
    → Run.input dispatch (read_done 0 (b ∷ [])) m ≡ (dispatch e (taken m) >>= ok)
unfolding Run.input read_byte
read-dispatches dispatch k b e m r d =
    subst (λ rs. Run.complete_read dispatch 0 (b ∷ []) rs m ≡ (dispatch e (taken m) >>= ok)) (sym r)
      (rw (d, read_byte) refl)

-- The timer of the object k is deleted.
abbrev pub timed_out : {Q : Type 0} → ℕ → Fsm Q → Fsm Q
timed_out k m = record m { world = record m.world { timer = update m.world.timer k false } }

-- What the master and the remote do when they hear a byte, in terms of their tables.
module _ (lib : TinyFsm M.MasterState) where
  pub record MasterHeard (q : M.MasterState) (e : Event) (m n : M.Machine) : Type 0 where
    pub sound : MI.Sound n
    pub moved : n.current ≡ MP.next q e
    pub answered : written n.world.trace ≡ MP.answer q e ++ written m.world.trace
    pub listening :
        n.world.reads ≡ (if MP.moves q e then M.value (MP.next q e) ∷ [] else m.world.reads)
    pub armed :
        n.world.timer (M.value (MP.next q e))
        ≡ (if MP.moves q e then MI.is_timed (MP.next q e) else m.world.timer (M.value q))

  pub master_posts :
      (q : M.MasterState) (e : Event) (m : M.Machine)
      → MI.Sound m
      → m.current ≡ q
      → e ≢ end_test
      → (n : M.Machine) × (M.dispatch lib e m ≡ ok n) × MasterHeard q e m n
  master_posts q e m s c ne =
      let (n, eq, f) = Returns-ok _ _ (MP.master-dispatch-Follows lib e m s ne) in
      let g : MP.Follows q e m.world n = subst (λ p. MP.Follows p e m.world n) c f in
      (
        n,
        eq,
        record {
          sound = subst (Holds MI.Sound) eq (MI.dispatch-Sound lib e m s);
          moved = g.moved;
          answered = g.answered;
          listening = g.listening;
          armed = g.armed;
        },
      )

  pub master_hears :
      (q : M.MasterState) (b : ℕ) (e : Event) (m : M.Machine)
      → MI.Sound m
      → m.current ≡ q
      → m.world.reads ≡ M.value q ∷ []
      → decode b ≡ some e
      → e ≢ end_test
      → (n : M.Machine) × (Run.input (M.dispatch lib) (read_done 0 (b ∷ [])) m ≡ ok n)
        × MasterHeard q e (taken m) n
  master_hears q b e m s c r d ne =
      let (n, eq, f) = master_posts q e (taken m) (drop_read-IsSound s (M.value q) [] r) c ne in
      (n, read-dispatches (M.dispatch lib) (M.value q) b e m r d ∙ ap (λ x. x >>= ok) eq, f)

  -- The wait of the state's own timer ends.
  pub master_waits :
      (q : M.MasterState) (m : M.Machine)
      → MI.Sound m
      → m.current ≡ q
      → (n : M.Machine) × (Run.input (M.dispatch lib) (timer_done (M.value q) 0) m ≡ ok n)
        × MasterHeard q timeout (timed_out (M.value q) m) n
  unfolding Run.input
  master_waits q m s c =
      master_posts q timeout (timed_out (M.value q) m) (drop_timer-IsSound s (M.value q)) c
        (λ h. cc)

module _ (lib : TinyFsm R.RemoteState) where
  pub record RemoteHeard (q : R.RemoteState) (e : Event) (m n : R.Machine) : Type 0 where
    pub sound : RI.Sound n
    pub moved : n.current ≡ RP.next q e
    pub answered : written n.world.trace ≡ RP.answer q e ++ written m.world.trace
    pub listening :
        n.world.reads ≡ (if RP.moves q e then R.value (RP.next q e) ∷ [] else m.world.reads)
    pub armed :
        n.world.timer (R.value (RP.next q e))
        ≡ (if RP.moves q e then RI.is_timed (RP.next q e) else m.world.timer (R.value q))

  pub remote_posts :
      (q : R.RemoteState) (e : Event) (m : R.Machine)
      → RI.Sound m
      → m.current ≡ q
      → e ≢ end_test
      → (n : R.Machine) × (R.dispatch lib e m ≡ ok n) × RemoteHeard q e m n
  remote_posts q e m s c ne =
      let (n, eq, f) = Returns-ok _ _ (RP.remote-dispatch-Follows lib e m s ne) in
      let g : RP.Follows q e m.world n = subst (λ p. RP.Follows p e m.world n) c f in
      (
        n,
        eq,
        record {
          sound = subst (Holds RI.Sound) eq (RI.dispatch-Sound lib e m s);
          moved = g.moved;
          answered = g.answered;
          listening = g.listening;
          armed = g.armed;
        },
      )

  pub remote_hears :
      (q : R.RemoteState) (b : ℕ) (e : Event) (m : R.Machine)
      → RI.Sound m
      → m.current ≡ q
      → m.world.reads ≡ R.value q ∷ []
      → decode b ≡ some e
      → e ≢ end_test
      → (n : R.Machine) × (Run.input (R.dispatch lib) (read_done 0 (b ∷ [])) m ≡ ok n)
        × RemoteHeard q e (taken m) n
  remote_hears q b e m s c r d ne =
      let (n, eq, f) = remote_posts q e (taken m) (drop_read-IsSound s (R.value q) [] r) c ne in
      (n, read-dispatches (R.dispatch lib) (R.value q) b e m r d ∙ ap (λ x. x >>= ok) eq, f)

  -- The wait of the state's own timer ends.
  pub remote_waits :
      (q : R.RemoteState) (m : R.Machine)
      → RI.Sound m
      → m.current ≡ q
      → (n : R.Machine) × (Run.input (R.dispatch lib) (timer_done (R.value q) 0) m ≡ ok n)
        × RemoteHeard q timeout (timed_out (R.value q) m) n
  unfolding Run.input
  remote_waits q m s c =
      remote_posts q timeout (timed_out (R.value q) m) (drop_timer-IsSound s (R.value q)) c
        (λ h. cc)
