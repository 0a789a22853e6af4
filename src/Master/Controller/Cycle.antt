-- ===== src/Master/Controller/Cycle.antt =====
-- The events that the controller (src/master/MasterController.cpp) dispatches.
use modem_tester.Common.{◌≡◌, ◌≢◌, refl, true, false, List, [], ◌∷◌, ◌++◌, some, arith, All, ◌∙◌}
use modem_tester.Events.{availability_mode_command, throughput_mode_command, end_mode_command}
use modem_tester.Master.{MasterState, idle, availability_mode}
use modem_tester.Master.Controller.{
  Controller, create, start, periodic_action, set_remote_reachability, Call, expires, reachability,
  run,
}

abbrev NoThroughput : Controller → Type 0
NoThroughput c = All (λ e. e ≢ throughput_mode_command) c.dispatched

action-NoThroughput :
    (q : MasterState) (c : Controller) → NoThroughput c → NoThroughput (periodic_action q c)
unfolding periodic_action
action-NoThroughput idle c h = ground arith
action-NoThroughput q c h = ground arith

run-NoThroughput :
    (calls : List Call) (c : Controller) → NoThroughput c → NoThroughput (run calls c)
unfolding run
run-NoThroughput [] c h = h
run-NoThroughput (expires q ∷ calls) c h =
    run-NoThroughput calls (periodic_action q c) (action-NoThroughput q c h)
run-NoThroughput (reachability b ∷ calls) c h = run-NoThroughput calls _ h

-- Whatever states the master is seen in and whatever reachability is reported in between, the
-- controller never dispatches ThroughputModeCommand.
controller-no_throughput :
    (calls : List Call)
    → All (λ e. e ≢ throughput_mode_command) (run calls (start create)).dispatched
unfolding create start
controller-no_throughput calls = run-NoThroughput calls (start create) tt

run-append : (xs ys : List Call) (c : Controller) → run (xs ++ ys) c ≡ run ys (run xs c)
unfolding run
run-append [] ys c = refl
run-append (expires q ∷ xs) ys c = run-append xs ys (periodic_action q c)
run-append (reachability b ∷ xs) ys c = run-append xs ys (set_remote_reachability b c)

-- A call at which the master is not seen in AvailabilityMode.
abbrev pub IsWaiting : Call → Type 0
IsWaiting (expires q) = q ≢ availability_mode
IsWaiting (reachability b) = Unit

action-waits :
    (q : MasterState) (c : Controller)
    → q ≢ availability_mode
    → c.trying_availability ≡ true
    → ((periodic_action q c).trying_availability ≡ true)
      × ((periodic_action q c).dispatched ≡ c.dispatched)
unfolding periodic_action
action-waits idle c w t = ground arith
action-waits q c w t = ground arith

waiting-keeps :
    (calls : List Call) (c : Controller)
    → All IsWaiting calls
    → c.trying_availability ≡ true
    → ((run calls c).trying_availability ≡ true) × ((run calls c).dispatched ≡ c.dispatched)
unfolding run
waiting-keeps [] c w t = (t, refl)
waiting-keeps (reachability b ∷ calls) c w t = waiting-keeps calls _ w.1 t
waiting-keeps (expires q ∷ calls) c w t =
    let (t', same) = action-waits q c w.0 t in
    let (t'', rest) = waiting-keeps calls (periodic_action q c) w.1 t' in (t'', rest ∙ same)

-- A controller that is not yet trying sees the master idle, then any states but AvailabilityMode for
-- as long as it takes, and then AvailabilityMode twice. It dispatches AvailabilityModeCommand once,
-- and EndModeCommand at the end; the first sight of AvailabilityMode sets the timer to 60 seconds,
-- the second one to 1.
pub controller-availability_cycle :
    (waits : List Call) (c : Controller)
    → c.trying_availability ≡ false
    → All IsWaiting waits
    → let seen = run (expires idle ∷ waits ++ expires availability_mode ∷ []) c in
      let ended = run (expires availability_mode ∷ []) seen in
      (seen.dispatched ≡ availability_mode_command ∷ c.dispatched)
      × (seen.timer ≡ some 60)
      × (ended.dispatched ≡ end_mode_command ∷ availability_mode_command ∷ c.dispatched)
      × (ended.timer ≡ some 1)
unfolding run
controller-availability_cycle waits c t w =
    let tried : (periodic_action idle c).trying_availability ≡ true = ground arith in
    let (still, same) = waiting-keeps waits (periodic_action idle c) w tried in
    rw (run-append waits (expires availability_mode ∷ []) (periodic_action idle c)) (ground arith)
