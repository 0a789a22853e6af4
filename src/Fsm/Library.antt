-- ===== src/Fsm/Library.antt =====
-- What the state machines take from tinyfsm (src/tinyfsm.hpp), a third-party library: the current
-- state and the calls `transit`, `dispatch` and `start`, with what its documentation says of them.
use modem_tester.Common.{◌≡◌, refl}
use modem_tester.Events.{Event}
use modem_tester.Fsm.World.{World, Result, ok, ◌>>=◌}

-- current_state_ptr, as the enumerator of the state that it points to, and everything else
pub record Fsm (Q : Type 0) : Type 0 where
  pub current : Q
  pub world : World

pub record TinyFsm (Q : Type 0) : Type 0 where
  pub transit : (Q → World → Result World) → (Q → World → Result World) → Q → Fsm Q → Result (Fsm Q)
  pub dispatch : (Q → Event → Fsm Q → Result (Fsm Q)) → Event → Fsm Q → Result (Fsm Q)
  pub start : (Q → World → Result World) → Q → World → Result (Fsm Q)
  -- `transit<S>` leaves the current state, makes S the current one and enters it
  pub transit_lem :
      (exit entry : Q → World → Result World) (q : Q) (m : Fsm Q)
      → transit exit entry q m ≡ (
          exit m.current m.world >>= λ w. entry q w >>= λ v. ok (record { current = q; world = v }))
  -- `dispatch` hands the event to the current state
  pub dispatch_lem :
      (react : Q → Event → Fsm Q → Result (Fsm Q)) (e : Event) (m : Fsm Q)
      → dispatch react e m ≡ react m.current e m
  -- `start` makes the initial state the current one and enters it
  pub start_lem :
      (entry : Q → World → Result World) (q : Q) (w : World)
      → start entry q w ≡ (entry q w >>= λ v. ok (record { current = q; world = v }))

-- An instance, which shows that the laws can be met and in which handlers run.
abbrev pub plain : {Q : Type 0} → TinyFsm Q
plain = record {
  transit = λ exit entry q m.
      exit m.current m.world >>= λ w. entry q w >>= λ v. ok (record { current = q; world = v });
  dispatch = λ react e m. react m.current e m;
  start = λ entry q w. entry q w >>= λ v. ok (record { current = q; world = v });
  transit_lem = λ exit entry q m. refl;
  dispatch_lem = λ react e m. refl;
  start_lem = λ entry q w. refl;
}

-- The laws leave no choice: every instance does what that one does.
pub transit-eq : {Q : Type 0} (lib : TinyFsm Q) → lib.transit ≡ plain.transit
transit-eq lib = λ i exit entry q m. lib.transit_lem exit entry q m i

pub dispatch-eq : {Q : Type 0} (lib : TinyFsm Q) → lib.dispatch ≡ plain.dispatch
dispatch-eq lib = λ i react e m. lib.dispatch_lem react e m i

pub start-eq : {Q : Type 0} (lib : TinyFsm Q) → lib.start ≡ plain.start
start-eq lib = λ i entry q w. lib.start_lem entry q w i
