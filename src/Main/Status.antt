-- ===== src/Main/Status.antt =====
-- How the process of the remote ends (src/main.cpp over src/remote/RemoteFSM.cpp and src/BaseFSM.h).
use modem_tester.Common.{
  ℕ, ◌≡◌, ◌≢◌, refl, ◌==◌, ◌⊎◌, inl, inr, List, [], ◌∷◌, All, Bool-cases, Option-cases, subst,
}
use modem_tester.Events.{Event, end_test, timeout, decode}
use modem_tester.Fsm.World.{initial, Result, ok, quit, fault, ◌>>=◌, Holds, Returns-ok}
use modem_tester.Fsm.Library.{TinyFsm, start-eq}
use modem_tester.Fsm.Base.{read_byte, read_bytes, handle_read_evt, dispatch_timeout, set_io_stream}
use modem_tester.Fsm.Sound.{drop_read-IsSound, drop_timer-IsSound}
use modem_tester.Fsm.Run
use modem_tester.Fsm.Run.{Input, post, read_done, timer_done}
use modem_tester.Remote as R
use modem_tester.Remote.Invariant as RI
use modem_tester.Remote.Protocol.{Follows, remote-dispatch-Follows, remote-dispatch-end_test}
use modem_tester.Main.{Process, running, exits, aborts, continue, has_work, io_run, main_remote}

-- A handler returns to a sound machine, or ends the process with success.
abbrev Good : Result R.Machine → Type 0
Good (ok m) = RI.Sound m
Good (quit c w) = c ≡ 0
Good fault = ⊥

>>=-Good :
    (r : Result R.Machine) (f : R.Machine → Result R.Machine)
    → Good r
    → ((m : R.Machine) → RI.Sound m → Good (f m))
    → Good (r >>= f)
>>=-Good (ok m) f g k = k m g
>>=-Good (quit c w) f g k = g
>>=-Good fault f g k = absurd g

-- No read fails with an error other than that of a canceled one.
abbrev pub IsClean : Input → Type 0
IsClean (post e) = Unit
IsClean (read_done ec bytes) = (ec ≡ 0) ⊎ (ec ≡ 125)
IsClean (timer_done k ec) = Unit

-- The process goes on with a sound machine, or has ended with success.
abbrev pub Succeeds : Process → Type 0
Succeeds (running m) = RI.Sound m
Succeeds (exits c) = c ≡ 0
Succeeds aborts = ⊥

continue-Succeeds :
    (r : Result R.Machine) (next : R.Machine → Process)
    → Good r
    → ((m : R.Machine) → RI.Sound m → Succeeds (next m))
    → Succeeds (continue r next)
continue-Succeeds (ok m) next g k = k m g
continue-Succeeds (quit c w) next g k = g
continue-Succeeds fault next g k = absurd g

module _ (lib : TinyFsm R.RemoteState) where
  returns-Good : (e : Event) (m : R.Machine) → RI.Sound m → e ≢ end_test → Good (R.dispatch lib e m)
  returns-Good e m s n =
      let (m', eq, f) =
        Returns-ok (Follows m.current e m.world) (R.dispatch lib e m)
          (remote-dispatch-Follows lib e m s n) in
      rw eq (subst (Holds RI.Sound) eq (RI.dispatch-Sound lib e m s))

  dispatch-Good : (e : Event) (m : R.Machine) → RI.Sound m → Good (R.dispatch lib e m)
  dispatch-Good end_test m s = rw (remote-dispatch-end_test lib m s.stream) refl
  dispatch-Good e m s = returns-Good e m s (λ h. cc h)

  read_byte-Good : (b : ℕ) (m : R.Machine) → RI.Sound m → Good (read_byte (R.dispatch lib) b m)
  unfolding read_byte
  read_byte-Good b m s = elim (Option-cases (decode b)) [
    | inl e ↦ rw (e, read_byte) s
    | inr (ev, e) ↦ rw (e, read_byte) (dispatch-Good ev m s)
  ]

  read_bytes-Good :
      (bs : List ℕ) (m : R.Machine) → RI.Sound m → Good (read_bytes (R.dispatch lib) bs m)
  unfolding read_bytes
  read_bytes-Good [] m s = s
  read_bytes-Good (b ∷ bs) m s =
      >>=-Good (read_byte (R.dispatch lib) b m) _ (read_byte-Good b m s) (read_bytes-Good bs)

  complete_read-Good :
      (ec : ℕ) (bs rs : List ℕ) (m : R.Machine)
      → (ec ≡ 0) ⊎ (ec ≡ 125)
      → m.world.reads ≡ rs
      → RI.Sound m
      → Good (Run.complete_read (R.dispatch lib) ec bs rs m)
  unfolding Run.complete_read handle_read_evt
  complete_read-Good ec bs [] m c r s = s
  complete_read-Good ec bs (k ∷ rest) m (inl c) r s =
      rw c (read_bytes-Good bs _ (drop_read-IsSound s k rest r))
  complete_read-Good ec bs (k ∷ rest) m (inr c) r s = rw c (drop_read-IsSound s k rest r)

  input-Good :
      (i : Input) (m : R.Machine) → IsClean i → RI.Sound m → Good (Run.input (R.dispatch lib) i m)
  unfolding Run.input dispatch_timeout
  input-Good (post e) m c s = dispatch-Good e m s
  input-Good (read_done ec bs) m c s = complete_read-Good ec bs m.world.reads m c refl s
  input-Good (timer_done k ec) m c s = elim (Bool-cases (ec == 0)) [
    | inl e ↦ rw e (dispatch-Good timeout _ (drop_timer-IsSound s k))
    | inr e ↦ rw e (drop_timer-IsSound s k)
  ]

  io_run-Succeeds :
      (is : List Input) (m : R.Machine) → All IsClean is → RI.Sound m → Succeeds (io_run lib is m)
  unfolding io_run
  io_run-Succeeds [] m c s = elim (Bool-cases (has_work m.world)) [
    | inl e ↦ rw e s
    | inr e ↦ rw e refl
  ]
  io_run-Succeeds (i ∷ is) m c s = elim (Bool-cases (has_work m.world)) [
    | inl e ↦
        rw (e, io_run)
          (continue-Succeeds (Run.input (R.dispatch lib) i m) (io_run lib is) (input-Good i m c.0 s)
            λ n t. io_run-Succeeds is n c.1 t)
    | inr e ↦ rw (e, io_run) refl
  ]

  start-ok : (m : R.Machine) × (R.start lib (set_io_stream initial) ≡ ok m)
  unfolding R.start R.entry set_io_stream
  start-ok = rw (start-eq lib) (_, refl)

  start-Good : Good (R.start lib (set_io_stream initial))
  start-Good = let (m, e) = start-ok in rw e (subst (Holds RI.Sound) e (RI.start-Sound lib))

  -- From the start of main as the remote end, over any inputs in which no read fails with an error but
  -- 125 (canceled): the process never aborts, and it goes on with a sound machine or has ended with
  -- success.
  pub main_remote-Succeeds : (is : List Input) → All IsClean is → Succeeds (main_remote lib is)
  unfolding main_remote
  main_remote-Succeeds is c =
      continue-Succeeds (R.start lib _) (io_run lib is) start-Good λ m s. io_run-Succeeds is m c s
