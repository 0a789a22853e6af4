-- ===== src/Remote/Silence.antt =====
-- Two ways in which the remote (src/remote/RemoteFSM.cpp over src/BaseFSM.h) falls silent. A read is
-- started on the entry of a state only, so an ignored byte leaves none pending; and the completion
-- of a canceled wait deletes whatever timer the state object has by then.
use modem_tester.Common.{
  ℕ, ◌≡◌, ◌≢◌, refl, true, false, List, [], ◌∷◌, arith, All, ne→==, Option-cases, subst, sym,
  Bool-cases, inl, inr, ◌==◌,
}
use modem_tester.Events.{Event, end_mode_command, timeout, end_test, decode}
use modem_tester.Events.Codes.{decode_sound}
use modem_tester.Fsm.World.{
  World, write, async_read_some, cancel, wait_timer, cancel_timer, ok, update, written, Returns,
  >>=-Returns, ◌>>=◌,
}
use modem_tester.Fsm.Library.{TinyFsm}
use modem_tester.Fsm.Base.{read_byte}
use modem_tester.Fsm.Run
use modem_tester.Fsm.Run.{Input, post, read_done, timer_done}
use modem_tester.Remote.{
  RemoteState, Machine, remote_idle, end_mode_received, dispatch, react, exit, entry,
}
use modem_tester.Remote.Protocol.{moves}
use modem_tester.Remote.Invariant.{Sound, go, dispatch-plain}

-- An input that asio alone makes.
abbrev pub IsCompletion : Input → Type 0
IsCompletion (post e) = ⊥
IsCompletion (read_done ec bytes) = Unit
IsCompletion (timer_done k ec) = Unit

-- Idle, with no read pending, and with these bytes sent so far.
pub record IsDeaf (sent : List ℕ) (m : Machine) : Type 0 where
  pub idle : m.current ≡ remote_idle
  pub unread : m.world.reads ≡ []
  pub silent : written m.world.trace ≡ sent

-- What a repeated EndModeCommand in EndModeReceived does: the newest effect is the first.
abbrev pub reentered : Machine → Machine
reentered m = record {
  current = end_mode_received;
  world = record m.world {
    timer = update (update m.world.timer 5 false) 5 true;
    reads = 5 ∷ [];
    trace =
        wait_timer 5 m.world.timeout
        ∷ async_read_some 5 1
        ∷ write (244 ∷ [])
        ∷ cancel
        ∷ cancel_timer 5
        ∷ m.world.trace;
  };
}

react-reentered :
    (w : World)
    → w.io_stream ≡ true
    → w.timer 5 ≡ true
    → react go end_mode_received end_mode_command
        (record { current = end_mode_received; world = w })
      ≡ ok (reentered (record { current = end_mode_received; world = w }))
unfolding react exit entry
react-reentered w s t = ground arith

module _ (lib : TinyFsm RemoteState) where
  -- RemoteIdle ignores every event but the two commands and EndTest.
  remote_idle_ignores :
      (e : Event) (m : Machine)
      → m.current ≡ remote_idle
      → moves remote_idle e ≡ false
      → e ≢ end_test
      → dispatch lib e m ≡ ok m
  unfolding react
  remote_idle_ignores e m c n h = rw (dispatch-plain lib e m) (ground arith)

  input-IsDeaf :
      (sent : List ℕ) (i : Input) (m : Machine)
      → IsCompletion i
      → IsDeaf sent m
      → Returns (IsDeaf sent) (Run.input (dispatch lib) i m)
  unfolding Run.input
  input-IsDeaf sent (post e) m c d = absurd c
  input-IsDeaf sent (read_done ec bs) m c d =
      rw d.unread (record { idle = d.idle; unread = refl; silent = d.silent })
  input-IsDeaf sent (timer_done k ec) m c d = elim (Bool-cases (ec == 0)) [
    | inl e ↦ rw (e, remote_idle_ignores timeout (lose k) d.idle refl (λ h. cc)) lost
    | inr e ↦ rw e lost
  ]
    where
      lose : ℕ → Machine
      lose j = record m { world = record m.world { timer = update m.world.timer j false } }

      lost : IsDeaf sent (lose k)
      lost = record { idle = d.idle; unread = d.unread; silent = d.silent }

  run-IsDeaf :
      (sent : List ℕ) (is : List Input) (m : Machine)
      → All IsCompletion is
      → IsDeaf sent m
      → Returns (IsDeaf sent) (Run.run (dispatch lib) is m)
  unfolding Run.run
  run-IsDeaf sent [] m c d = d
  run-IsDeaf sent (i ∷ is) m c d =
      >>=-Returns (IsDeaf sent) (IsDeaf sent) (Run.input (dispatch lib) i m) _
        (input-IsDeaf sent i m c.0 d) λ n e. run-IsDeaf sent is n c.1 e

  module _ (b : ℕ) (n1 : b ≢ 241) (n2 : b ≢ 242) (n6 : b ≢ 246) where
    read_byte-idle : (m : Machine) → m.current ≡ remote_idle → read_byte (dispatch lib) b m ≡ ok m
    unfolding read_byte
    read_byte-idle m c = elim (Option-cases (decode b)) [
      | inl e ↦ rw (e, read_byte)
      | inr (ev, e) ↦
          rw (e, read_byte)
            (remote_idle_ignores ev m c (ground (arith, decode_sound b ev e))
              (ground (arith, decode_sound b ev e)))
    ]

    complete_read-idle :
        (m : Machine)
        → m.current ≡ remote_idle
        → Run.complete_read (dispatch lib) 0 (b ∷ []) (0 ∷ []) m
          ≡ ok (record m { world = record m.world { reads = [] } })
    unfolding Run.complete_read
    complete_read-idle m c =
        rw (read_byte-idle (record m { world = record m.world { reads = [] } }) c)

  -- The remote, waiting in RemoteIdle, reads one byte that is none of AvailabilityModeCommand (241),
  -- ThroughputModeCommand (242) and EndTest (246). Then, whatever asio completes afterwards, the
  -- remote stays in RemoteIdle, has no read pending and sends nothing: no later command reaches it.
  pub remote_idle-IsDeaf :
      (b : ℕ) (is : List Input) (m : Machine)
      → m.current ≡ remote_idle
      → m.world.reads ≡ 0 ∷ []
      → b ≢ 241
      → b ≢ 242
      → b ≢ 246
      → All IsCompletion is
      → Returns
          (IsDeaf (written m.world.trace))
          (Run.run (dispatch lib) (read_done 0 (b ∷ []) ∷ is) m)
  unfolding Run.run
  remote_idle-IsDeaf b is m c r n1 n2 n6 h =
      subst
        (λ rs.
          Returns (IsDeaf (written m.world.trace))
            (Run.complete_read (dispatch lib) 0 (b ∷ []) rs m >>= Run.run (dispatch lib) is))
        (sym r)
        (rw (complete_read-idle b n1 n2 n6 m c) (
          run-IsDeaf (written m.world.trace) is _ h
            (record { idle = c; unread = refl; silent = refl })))

  read-reentered :
      (m : Machine)
      → m.current ≡ end_mode_received
      → m.world.io_stream ≡ true
      → m.world.timer 5 ≡ true
      → Run.complete_read (dispatch lib) 0 (243 ∷ []) (5 ∷ []) m ≡ ok (reentered m)
  unfolding Run.complete_read decode
  read-reentered m c s t =
      let w = record m.world { reads = [] } in
      rw
        (
          dispatch-plain lib end_mode_command (record m { world = w }),
          subst
              (λ q.
                react go q end_mode_command (record { current = q; world = w })
                ≡ ok (reentered (record { current = end_mode_received; world = w })))
              (sym c) (react-reentered w s t),
        )
        refl

  -- In EndModeReceived, with its timer running and its read pending, a repeated EndModeCommand is
  -- read: the timer is canceled and deleted, the read is canceled, RemoteAck (244) is sent once more,
  -- and a read and a new timer are started. When the canceled wait of the old timer then completes,
  -- with any error, the state still waits for MasterAck but no state object has a timer, and nothing is sent:
  -- no timeout will send RemoteAck again.
  pub repeated_end_mode_loses_timer :
      (ec : ℕ) (m : Machine)
      → Sound m
      → m.current ≡ end_mode_received
      → m.world.reads ≡ 5 ∷ []
      → m.world.timer 5 ≡ true
      → ec ≢ 0
      → (Run.run (dispatch lib) (read_done 0 (243 ∷ []) ∷ []) m ≡ ok (reentered m))
        × ((reentered m).world.timer 5 ≡ true)
        × (n : Machine) × (Run.run (dispatch lib) (timer_done 5 ec ∷ []) (reentered m) ≡ ok n)
        × (n.current ≡ end_mode_received)
        × ((k : ℕ) → n.world.timer k ≡ false)
        × (n.world.trace ≡ (reentered m).world.trace)
  unfolding Run.run decode
  repeated_end_mode_loses_timer ec m s c r t n = (
    subst
        (λ rs.
          (Run.complete_read (dispatch lib) 0 (243 ∷ []) rs m >>= Run.run (dispatch lib) [])
          ≡ ok (reentered m))
        (sym r) (rw (read-reentered m c s.stream t) refl),
    refl,
    record (reentered m) {
      world = record (reentered m).world { timer = update (reentered m).world.timer 5 false };
    },
    rw (ne→== ec 0 n) refl,
    refl,
    λ k. ground (arith, s.timers k, c),
    refl,
  )
