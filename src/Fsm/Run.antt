-- ===== src/Fsm/Run.antt =====
-- What happens to a state machine from outside: an event is dispatched by another thread (a script,
-- the controller, an activity), a read completes, or the wait of a state object's timer completes.
-- The order and the error codes are the environment's choice.
use modem_tester.Common.{
  ℕ, ◌==◌, ◌≡◌, refl, false, List, [], ◌∷◌, Bool-cases, inl, inr, Option-cases,
}
use modem_tester.Events.{Event, timeout, decode}
use modem_tester.Fsm.World.{update, Result, ok, ◌>>=◌, Holds, >>=-Holds}
use modem_tester.Fsm.Library.{Fsm}
use modem_tester.Fsm.Base.{read_byte, read_bytes, handle_read_evt, dispatch_timeout}

pub data Input : Type 0 where
  post : Event → Input
  read_done : ℕ → List ℕ → Input
  timer_done : ℕ → ℕ → Input

module _ {Q : Type 0} (dispatch : Event → Fsm Q → Result (Fsm Q)) where
  -- The read of the object that waits for one completes; without one nothing can.
  unfoldable pub complete_read : ℕ → List ℕ → List ℕ → Fsm Q → Result (Fsm Q)
  unfolding handle_read_evt
  complete_read ec bytes [] m = ok m
  complete_read ec bytes (k ∷ rest) m =
      handle_read_evt dispatch ec bytes (record m { world = record m.world { reads = rest } })

  unfoldable pub input : Input → Fsm Q → Result (Fsm Q)
  unfolding complete_read dispatch_timeout
  input (post e) m = dispatch e m
  input (read_done ec bytes) m = complete_read ec bytes m.world.reads m
  input (timer_done k ec) m = dispatch_timeout dispatch k ec m

  unfoldable pub run : List Input → Fsm Q → Result (Fsm Q)
  unfolding input
  run [] m = ok m
  run (i ∷ is) m = input i m >>= run is

  -- A property that every dispatch keeps, and that survives the loss of a read or of a timer, holds
  -- after any inputs, which never fault.
  module _ (P : Fsm Q → Type 0)
      (keep : (e : Event) (m : Fsm Q) → P m → Holds P (dispatch e m)) where
    read_byte-Holds : (b : ℕ) (m : Fsm Q) → P m → Holds P (read_byte dispatch b m)
    unfolding read_byte
    read_byte-Holds b m p = elim (Option-cases (decode b)) [
      | inl e ↦ rw (e, read_byte, Holds) p
      | inr (ev, e) ↦ rw (e, read_byte, Holds) (keep ev m p)
    ]

    read_bytes-Holds : (bs : List ℕ) (m : Fsm Q) → P m → Holds P (read_bytes dispatch bs m)
    unfolding read_bytes
    read_bytes-Holds [] m p = p
    read_bytes-Holds (b ∷ bs) m p =
        >>=-Holds P P (read_byte dispatch b m) (read_bytes dispatch bs) (read_byte-Holds b m p)
          (read_bytes-Holds bs)

    handle_read_evt-Holds :
        (ec : ℕ) (bs : List ℕ) (m : Fsm Q) → P m → Holds P (handle_read_evt dispatch ec bs m)
    unfolding handle_read_evt
    handle_read_evt-Holds ec bs m p = elim (Bool-cases (ec == 0)) [
      | inl e ↦ rw (e, Holds) (read_bytes-Holds bs m p)
      | inr n ↦ elim (Bool-cases (ec == 125)) [
        | inl e ↦ rw (n, e, Holds) p
        | inr e ↦ rw (n, e, Holds) tt
      ]
    ]

    module _
        (drop_read : (k : ℕ) (rest : List ℕ) (m : Fsm Q)
          → m.world.reads ≡ k ∷ rest
          → P m
          → P (record m { world = record m.world { reads = rest } }))
        (drop_timer : (k : ℕ) (m : Fsm Q)
          → P m
          → P (record m { world = record m.world { timer = update m.world.timer k false } })) where
      complete_read-Holds :
          (ec : ℕ) (bs rs : List ℕ) (m : Fsm Q)
          → m.world.reads ≡ rs
          → P m
          → Holds P (complete_read ec bs rs m)
      unfolding complete_read
      complete_read-Holds ec bs [] m e p = p
      complete_read-Holds ec bs (k ∷ rest) m e p =
          handle_read_evt-Holds ec bs _ (drop_read k rest m e p)

      dispatch_timeout-Holds :
          (k ec : ℕ) (m : Fsm Q) → P m → Holds P (dispatch_timeout dispatch k ec m)
      unfolding dispatch_timeout
      dispatch_timeout-Holds k ec m p = elim (Bool-cases (ec == 0)) [
        | inl e ↦ rw (e, Holds) (keep timeout _ (drop_timer k m p))
        | inr e ↦ rw (e, Holds) (drop_timer k m p)
      ]

      pub input-Holds : (i : Input) (m : Fsm Q) → P m → Holds P (input i m)
      unfolding input
      input-Holds (post e) m p = keep e m p
      input-Holds (read_done ec bs) m p = complete_read-Holds ec bs m.world.reads m refl p
      input-Holds (timer_done k ec) m p = dispatch_timeout-Holds k ec m p

      pub run-Holds : (is : List Input) (m : Fsm Q) → P m → Holds P (run is m)
      unfolding run
      run-Holds [] m p = p
      run-Holds (i ∷ is) m p = >>=-Holds P P (input i m) (run is) (input-Holds i m p) (run-Holds is)
