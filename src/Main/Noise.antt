-- ===== src/Main/Noise.antt =====
-- When the process of the remote ends (src/main.cpp).
use modem_tester.Common.{
  ℕ, zero, suc, ◌≡◌, ◌≢◌, refl, Bool, true, false, List, [], ◌∷◌, arith, subst,
}
use modem_tester.Fsm.World.{Result, ok, quit, fault, ◌>>=◌, Holds, Returns-ok}
use modem_tester.Fsm.Library.{TinyFsm}
use modem_tester.Fsm.Sound.{drop_read-IsSound, drop_timer-IsSound}
use modem_tester.Fsm.Run
use modem_tester.Fsm.Run.{Input, read_done, input-Holds}
use modem_tester.Remote as R
use modem_tester.Remote.Invariant as RI
use modem_tester.Remote.Silence.{remote_idle-IsDeaf}
use modem_tester.Main.{exits, any_set, has_work, io_run}

>>=-ok-inv : {A : Type 0} (r : Result A) (a : A) → (r >>= ok) ≡ ok a → r ≡ ok a
>>=-ok-inv (ok b) a e = e
>>=-ok-inv (quit c w) a e = cc e
>>=-ok-inv fault a e = cc e

none_set : (n : ℕ) (f : ℕ → Bool) → ((k : ℕ) → f k ≡ false) → any_set n f ≡ false
none_set zero f h = refl
none_set (suc n) f h = rw (h n, none_set n f h) refl

-- A sound machine that is idle and reads nothing leaves asio without work.
deaf_idles :
    (m : R.Machine)
    → RI.Sound m
    → m.current ≡ R.remote_idle
    → m.world.reads ≡ []
    → has_work m.world ≡ false
unfolding has_work
deaf_idles m s c r =
    let at : RI.SoundAt R.remote_idle m.world = subst (λ q. RI.SoundAt q m.world) c s in
    rw
      (
        r,
        none_set 6 m.world.timer (λ k. ground (arith, at.timers k)),
        none_set 6 m.world.runnable (λ k. ground (arith, at.runnables k)),
      )
      refl

has_work-reading : (m : R.Machine) → m.world.reads ≡ 0 ∷ [] → has_work m.world ≡ true
unfolding has_work
has_work-reading m r = rw r refl

-- One byte that is read in RemoteIdle.
module _ (lib : TinyFsm R.RemoteState) where
  ends : (is : List Input) (m : R.Machine) → has_work m.world ≡ false → io_run lib is m ≡ exits 0
  unfolding io_run
  ends [] m e = rw e
  ends (i ∷ is) m e = rw (e, io_run)

  -- The remote is sound and idle, its read is pending, and it reads one byte that is none of
  -- AvailabilityModeCommand (241), ThroughputModeCommand (242) and EndTest (246), such as 0, the
  -- first byte of an availability test. Then its io_service has no work left, io.run returns and the
  -- process ends with success, whatever would have come afterwards.
  pub remote-main-exits :
      (b : ℕ) (is : List Input) (m : R.Machine)
      → RI.Sound m
      → m.current ≡ R.remote_idle
      → m.world.reads ≡ 0 ∷ []
      → b ≢ 241
      → b ≢ 242
      → b ≢ 246
      → io_run lib (read_done 0 (b ∷ []) ∷ is) m ≡ exits 0
  unfolding io_run Run.run
  remote-main-exits b is m s c r n1 n2 n6 =
      let i = read_done 0 (b ∷ []) in
      let (n, e, d) = Returns-ok _ _ (remote_idle-IsDeaf lib b [] m c r n1 n2 n6 tt) in
      let e' : Run.input (R.dispatch lib) i m ≡ ok n = >>=-ok-inv _ n e in
      let t : RI.Sound n = subst (Holds RI.Sound) e' (
        input-Holds (R.dispatch lib) RI.Sound (RI.dispatch-Sound lib)
          (λ k rest m e s. drop_read-IsSound s k rest e) (λ k m s. drop_timer-IsSound s k) i m s) in
      rw (has_work-reading m r, e', io_run) (ends is n (deaf_idles n t d.idle d.unread))
