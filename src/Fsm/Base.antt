-- ===== src/Fsm/Base.antt =====
-- src/BaseFSM.h: BaseFSM, ActivityState and TimerBasedState, the base classes of every state. A
-- method of a state object takes the value `k` that names the object.
use modem_tester.Common.{ℕ, ◌==◌, true, false, if◌then◌else◌, List, [], ◌∷◌, none, some}
use modem_tester.Events.{Event, timeout, end_test_id, to_byte, decode}
use modem_tester.Fsm.World.{
  World, write, async_read_some, cancel, wait_timer, cancel_timer, start_runnable, stop_runnable,
  emit, update, Result, ok, quit, fault, ◌>>=◌,
}
use modem_tester.Fsm.Library.{Fsm}

-- setIoStream with a stream, and setTimeout
unfoldable pub set_io_stream : World → World
set_io_stream w = record w { io_stream = true }

unfoldable pub set_timeout : ℕ → World → World
set_timeout d w = record w { timeout = d }

-- SendByte
unfoldable pub send_byte : ℕ → World → Result World
send_byte b w = if w.io_stream then ok (emit (write (b ∷ [])) w) else fault

-- BaseFSM::entry: the stream must be set; a read of one byte is started
unfoldable pub entry : ℕ → World → Result World
entry k w =
    if w.io_stream
    then ok (emit (async_read_some k 1) (record w { reads = k ∷ w.reads }))
    else fault

-- BaseFSM::exit: the pending reads are canceled
unfoldable pub exit : ℕ → World → Result World
exit k w = if w.io_stream then ok (emit cancel (record w { reads = [] })) else fault

-- TimerBasedState::startTimer: nothing if there is a timer
unfoldable pub start_timer : ℕ → ℕ → World → Result World
start_timer k d w =
    if w.timer k
    then ok w
    else if w.io_stream
    then ok (emit (wait_timer k d) (record w { timer = update w.timer k true }))
    else fault

-- TimerBasedState::cancelTimer
unfoldable pub cancel_timer_of : ℕ → World → World
cancel_timer_of k w =
    if w.timer k then emit (cancel_timer k) (record w { timer = update w.timer k false }) else w

-- TimerBasedState::entry and TimerBasedState::exit
unfoldable pub timer_entry : ℕ → World → Result World
unfolding entry start_timer
timer_entry k w = entry k w >>= λ v. start_timer k v.timeout v

unfoldable pub timer_exit : ℕ → World → Result World
unfolding exit cancel_timer_of
timer_exit k w = exit k (cancel_timer_of k w)

-- ActivityState::entry: an activity is made by the factory and started, if there is none
unfoldable pub activity_entry : ℕ → World → Result World
unfolding entry
activity_entry k w =
    if w.runnable k
    then entry k w
    else if w.factory k
    then entry k (emit (start_runnable k) (record w { runnable = update w.runnable k true }))
    else fault

-- ActivityState::exit: the activity is stopped and deleted
unfoldable pub activity_exit : ℕ → World → Result World
unfolding exit
activity_exit k w =
    if w.runnable k
    then exit k (emit (stop_runnable k) (record w { runnable = update w.runnable k false }))
    else fault

module _ {Q : Type 0} where
  -- BaseFSM::react (EndTest const &): the byte is sent and the process ends with success
  unfoldable pub react_end_test : Fsm Q → Result (Fsm Q)
  unfolding send_byte
  react_end_test m = send_byte (to_byte end_test_id) m.world >>= λ w. quit 0 w

  module _ (dispatch : Event → Fsm Q → Result (Fsm Q)) where
    -- one round of the loop of HandleReadEvt; a byte that is no event is logged
    unfoldable pub read_byte : ℕ → Fsm Q → Result (Fsm Q)
    read_byte b m = elim (decode b) [ some e ↦ dispatch e m | none ↦ ok m ]

    unfoldable pub read_bytes : List ℕ → Fsm Q → Result (Fsm Q)
    unfolding read_byte
    read_bytes [] m = ok m
    read_bytes (b ∷ bs) m = read_byte b m >>= read_bytes bs

    -- HandleReadEvt: `ec` is the value of the error code, 0 for none, 125 for a canceled read
    unfoldable pub handle_read_evt : ℕ → List ℕ → Fsm Q → Result (Fsm Q)
    unfolding read_bytes
    handle_read_evt ec bytes m =
        if ec == 0 then read_bytes bytes m else if ec == 125 then ok m else quit 1 m.world

    -- TimerBasedState::dispatchTimeout of the object k: its timer is deleted whatever the error
    unfoldable pub dispatch_timeout : ℕ → ℕ → Fsm Q → Result (Fsm Q)
    dispatch_timeout k ec m =
        let w = m.world in
        let m' = record m { world = record w { timer = update w.timer k false } } in
        if ec == 0 then dispatch timeout m' else ok m'
