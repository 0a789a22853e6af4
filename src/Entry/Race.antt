-- ===== src/Entry/Race.antt =====
-- The two threads that start a mode (src/BaseFSM.h, src/remote/RemotePinger.cpp) in every order, and
-- what becomes of a byte that the machine's read takes.
use modem_tester.Common.{ℕ, ◌<◌, ◌≡◌, refl, ◌⊎◌, inl, inr, List, [], ◌∷◌, arith, subst, sym}
use modem_tester.Events.{decode}
use modem_tester.Fsm.World.{ok}
use modem_tester.Fsm.Library.{TinyFsm}
use modem_tester.Fsm.Base.{read_byte}
use modem_tester.Fsm.Run
use modem_tester.Fsm.Run.{read_done}
use modem_tester.Remote as R
use modem_tester.Remote.Pinger.{serve}
use modem_tester.Entry.{
  Reader, machine, activity, Call, async_read_some, activity_calls, Opening, opening, Turn,
  activity_turn, machine_turn, run, turn,
}

-- Both threads have made their calls.
abbrev pub Ended : Opening → Type 0
Ended s = (s.activity_left ≡ []) × (s.machine_left ≡ [])

-- Both reads are pending.
abbrev pub Both : Opening → Type 0
Both s = (s.pending ≡ machine ∷ activity ∷ []) ⊎ (s.pending ≡ activity ∷ machine ∷ [])

abbrev at : List Call → List Call → List Reader → Opening
at a m p = record { activity_left = a; machine_left = m; pending = p }

idle_run : (ts : List Turn) (p : List Reader) → run ts (at [] [] p) ≡ at [] [] p
unfolding run turn
idle_run [] p = refl
idle_run (activity_turn ∷ ts) p = idle_run ts p
idle_run (machine_turn ∷ ts) p = idle_run ts p

-- Only the activity's read is left to be started.
activity_last :
    (ts : List Turn) (p : List Reader)
    → Ended (run ts (at (async_read_some activity ∷ []) [] p))
    → (run ts (at (async_read_some activity ∷ []) [] p)).pending ≡ activity ∷ p
unfolding run turn
activity_last [] p e = cc (e.0)
activity_last (activity_turn ∷ ts) p e = rw (idle_run ts (activity ∷ p)) refl
activity_last (machine_turn ∷ ts) p e = activity_last ts p e

machine_first :
    (ts : List Turn)
    → Ended (run ts (at activity_calls [] (machine ∷ [])))
    → (run ts (at activity_calls [] (machine ∷ []))).pending ≡ activity ∷ []
unfolding run turn
machine_first [] e = cc (e.0)
machine_first (activity_turn ∷ ts) e = activity_last ts [] e
machine_first (machine_turn ∷ ts) e = machine_first ts e

machine_last :
    (ts : List Turn)
    → Ended (run ts (at [] (async_read_some machine ∷ []) (activity ∷ [])))
    → Both (run ts (at [] (async_read_some machine ∷ []) (activity ∷ [])))
unfolding run turn
machine_last [] e = cc (e.1)
machine_last (activity_turn ∷ ts) e = machine_last ts e
machine_last (machine_turn ∷ ts) e = rw (idle_run ts (machine ∷ activity ∷ [])) (inl refl)

cancel_first :
    (ts : List Turn)
    → Ended (run ts (at (async_read_some activity ∷ []) (async_read_some machine ∷ []) []))
    → Both (run ts (at (async_read_some activity ∷ []) (async_read_some machine ∷ []) []))
unfolding run turn
cancel_first [] e = cc (e.0)
cancel_first (activity_turn ∷ ts) e = machine_last ts e
cancel_first (machine_turn ∷ ts) e = inr (activity_last ts (machine ∷ []) e)

-- The reads that are pending in the end, by the thread that took the first turn.
abbrev pub Outcome : Turn → Opening → Type 0
Outcome machine_turn s = s.pending ≡ activity ∷ []
Outcome activity_turn s = Both s

-- When both threads have made their calls, in whatever order they took their turns: if the first call
-- was the machine's, which starts its read, only the activity's read is pending in the end; if it was
-- the activity's, which cancels, both reads are pending.
pub entry-race :
    (first : Turn) (ts : List Turn)
    → Ended (run (first ∷ ts) opening)
    → Outcome first (run (first ∷ ts) opening)
unfolding run turn
entry-race machine_turn ts e = machine_first ts e
entry-race activity_turn ts e = cancel_first ts e

module _ (lib : TinyFsm R.RemoteState) where
  ignored :
      (b : ℕ) (m : R.Machine)
      → b < 240
      → Run.complete_read (R.dispatch lib) 0 (b ∷ []) (3 ∷ []) m
        ≡ ok (record m { world = record m.world { reads = [] } })
  unfolding Run.complete_read read_byte decode
  ignored b m lt = ground arith

  -- The read that the remote's machine started on the entry of RemoteAvailabilityMode is pending. If it
  -- takes a byte of the test, the machine writes nothing, stays as it is, and has no read pending any
  -- more; had the activity's read taken it, the byte would have been sent back.
  pub entry-loses_ping :
      (b : ℕ) (m : R.Machine)
      → m.world.reads ≡ 3 ∷ []
      → b < 240
      → (Run.input (R.dispatch lib) (read_done 0 (b ∷ [])) m
          ≡ ok (record m { world = record m.world { reads = [] } }))
        × (serve (b ∷ []) ≡ b ∷ [])
  unfolding Run.input serve
  entry-loses_ping b m r lt = (
    subst
        (λ rs.
          Run.complete_read (R.dispatch lib) 0 (b ∷ []) rs m
          ≡ ok (record m { world = record m.world { reads = [] } }))
        (sym r) (ignored b m lt),
    ground arith,
  )
