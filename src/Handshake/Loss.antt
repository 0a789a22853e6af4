-- ===== src/Handshake/Loss.antt =====
-- The opening of a mode (src/master/MasterFSM.cpp, src/remote/RemoteFSM.cpp) over a line that loses
-- bytes: the timers of the two machines send the request and RemoteAck again.
use modem_tester.Common.{◌≡◌, refl, inl, inr, true, List, [], ◌∷◌, ap, ◌∙◌}
use modem_tester.Fsm.World.{Result, ok, ◌>>=◌, written}
use modem_tester.Fsm.Library.{TinyFsm}
use modem_tester.Fsm.Run
use modem_tester.Fsm.Run.{read_done, timer_done}
use modem_tester.Master as M
use modem_tester.Master.Invariant as MI
use modem_tester.Remote as R
use modem_tester.Remote.Invariant as RI
use modem_tester.Handshake.{Mode, command, request, master_mode, remote_mode}
use modem_tester.Handshake.Waiting.{sent, received, RemoteListens, Waits}
use modem_tester.Handshake.Waiting.Master.{master_opens, master_again, master_enters}
use modem_tester.Handshake.Waiting.Remote.{
  remote_again, remote_waits_or_listens, remote_requested, remote_enters,
}

-- What happens while bytes are lost: a timeout of one side, which sends its byte again, and the
-- arrival at the remote of a request that the master has sent.
pub data Trouble : Type 0 where
  master_timeout remote_timeout request_arrives : Trouble

module _ (lm : TinyFsm M.MasterState) (lr : TinyFsm R.RemoteState) (mode : Mode) where
  unfoldable pub suffer : List Trouble → M.Machine → R.Machine → Result (M.Machine × R.Machine)
  unfolding Run.input M.dispatch R.dispatch
  suffer [] m r = ok (m, r)
  suffer (master_timeout ∷ ts) m r =
      Run.input (M.dispatch lm) (timer_done (M.value (sent mode)) 0) m >>= λ n. suffer ts n r
  suffer (remote_timeout ∷ ts) m r =
      Run.input (R.dispatch lr) (timer_done (R.value (received mode)) 0) r >>= λ n. suffer ts m n
  suffer (request_arrives ∷ ts) m r =
      Run.input (R.dispatch lr) (read_done 0 (request mode ∷ [])) r >>= λ n. suffer ts m n

  suffer-Waits :
      (ts : List Trouble) (m : M.Machine) (r : R.Machine)
      → Waits mode m r
      → (n : M.Machine) × (q : R.Machine) × (suffer ts m r ≡ ok (n, q)) × Waits mode n q
  unfolding suffer
  suffer-Waits [] m r w = (m, r, refl, w)
  suffer-Waits (master_timeout ∷ ts) m r w =
      let (m', e, w') = master_again lm mode m w.0 in
      let (n, q, e', v) = suffer-Waits ts m' r (w', w.1) in
      (n, q, ap (λ x. x >>= λ n. suffer ts n r) e ∙ e', v)
  suffer-Waits (remote_timeout ∷ ts) m r w =
      let (r', e, w') = remote_waits_or_listens lr mode r w.1 in
      let (n, q, e', v) = suffer-Waits ts m r' (w.0, w') in
      (n, q, ap (λ x. x >>= λ n. suffer ts m n) e ∙ e', v)
  suffer-Waits (request_arrives ∷ ts) m r w =
      let (r', e, w') = remote_requested lr mode r w.1 in
      let (n, q, e', v) = suffer-Waits ts m r' (w.0, inr w') in
      (n, q, ap (λ x. x >>= λ n. suffer ts m n) e ∙ e', v)

  -- The line delivers again: a request, RemoteAck at the next timeout of the remote, and MasterAck.
  abbrev pub Recovers : M.Machine → R.Machine → Type 0
  Recovers m r =
      (m1 : M.Machine) × (r1 : R.Machine) × (r2 : R.Machine) × (r3 : R.Machine) × (Run.input
          (R.dispatch lr) (read_done 0 (request mode ∷ [])) r
        ≡ ok r1)
      × (Run.input (R.dispatch lr) (timer_done (R.value (received mode)) 0) r1 ≡ ok r2)
      × (written r2.world.trace ≡ 244 ∷ written r1.world.trace)
      × (Run.input (M.dispatch lm) (read_done 0 (244 ∷ [])) m ≡ ok m1)
      × (written m1.world.trace ≡ 245 ∷ written m.world.trace)
      × (Run.input (R.dispatch lr) (read_done 0 (245 ∷ [])) r2 ≡ ok r3)
      × (m1.current ≡ master_mode mode)
      × (r3.current ≡ remote_mode mode)
      × MI.Sound m1
      × RI.Sound r3

  recovers : (m : M.Machine) (r : R.Machine) → Waits mode m r → Recovers m r
  recovers m r w =
      let (r1, e1, w1) = remote_requested lr mode r w.1 in
      let (r2, e2, w2) = remote_again lr mode r1 w1 in
      let (m1, e3, wrote, cm, sm) = master_enters lm mode m w.0 in
      let (r3, e4, cr, sr) = remote_enters lr mode r2 w2.waits w2.reading in
      (m1, r1, r2, r3, e1, e2, w2.wrote, e3, wrote, e4, cm, cr, sm, sr)

  -- What follows the command for the mode when the troubles come after it.
  abbrev pub Survives : List Trouble → M.Machine → R.Machine → Type 0
  Survives ts m r =
      (m0 : M.Machine) × (m1 : M.Machine) × (r1 : R.Machine) × (M.dispatch lm (command mode) m
        ≡ ok m0)
      × (suffer ts m0 r ≡ ok (m1, r1))
      × (m1.current ≡ sent mode)
      × (m1.world.timer (M.value (sent mode)) ≡ true)
      × Recovers m1 r1

  -- Both machines are sound and idle, the remote's read is pending, and the command for the mode is
  -- dispatched to the master. Then any timeouts of the two machines and arrivals of the request follow,
  -- in any order, while every acknowledgement is lost. No step faults, and the master still waits for
  -- RemoteAck with its timer running. And from there, if the remote hears one request and its timer
  -- expires once, RemoteAck (244) goes out; when the master hears it, MasterAck (245) goes out; and when
  -- the remote hears that, both are in the mode and sound.
  pub handshake-Survives :
      (ts : List Trouble) (m : M.Machine) (r : R.Machine)
      → MI.Sound m
      → RI.Sound r
      → m.current ≡ M.idle
      → r.current ≡ R.remote_idle
      → r.world.reads ≡ 0 ∷ []
      → Survives ts m r
  handshake-Survives ts m r sm sr cm cr rr =
      let (m0, e0, w0) = master_opens lm mode m sm cm in
      let listens : RemoteListens r = record { sound = sr; current = cr; reading = rr } in
      let (m1, r1, e1, w1) = suffer-Waits ts m0 r (w0, inl listens) in
      (m0, m1, r1, e0, e1, w1.0.current, w1.0.armed, recovers m1 r1 w1)
