-- ===== src/Tests/Activities.antt =====
-- The activities of the master (src/master) and the script (src/EventsScript.h) at concrete inputs.
use modem_tester.Common.{
  ◌*◌, ℕ, ◌+◌, ◌-◌, ◌/◌, ◌<◌, ◌≡◌, ◌↔◌, refl, true, false, List, [], ◌∷◌, ◌++◌, inl, arith, some,
  none, All, leb,
}
use modem_tester.Events.{
  availability_mode_command, end_mode_command, availability_mode_command_id, end_mode_command_id,
}
use modem_tester.SortedMap.{find, insert}
use modem_tester.Master.{idle, sent_available_mode_command, availability_mode}
use modem_tester.Master.Pinger as Pings
use modem_tester.Master.Pinger.{
  Doubles, Pinger, Move, goes_on, receives, writing, judging, rearm, u64_mod,
}
use modem_tester.Master.Pinger.Counts.{IsCounted, pinger-run-IsCounted, pinger-judge_exact}
use modem_tester.Master.Pinger.Wrap.{one_round, pinger-wrap_counts_lost}
use modem_tester.Master.Controller as Controls
use modem_tester.Master.Controller.{Call, expires, reachability}
use modem_tester.Master.Controller.Cycle.{IsWaiting, controller-availability_cycle}
use modem_tester.Ping.{IsQuiet, session, ping-session}
use modem_tester.TimerPtr.{freed}
use modem_tester.Reporting.{Reporting, until_end, destroy}
use modem_tester.Reporting.Lifecycle.{reporting-double_delete}
use modem_tester.Script.{EventsScript, start_script, handle, restart}
use modem_tester.Script.Schedule.{script-start_script, plan}

-- Seconds counted in whole ticks.
abbrev ticks : Doubles ℕ
ticks = record {
  zero = 0;
  plus = λ a b. a + b;
  elapsed = λ later earlier. later - earlier;
  over = λ d n. d / n;
  micros = λ d. some (1_000_000 * d);
}

-- Two rounds, an echo of the second byte, and a round that ends before its judgement.
abbrev pings : List (Move ticks)
pings =
    one_round ticks 10
    ++ one_round ticks 20
    ++ receives 25 0 (1 ∷ []) ∷ goes_on 30 ∷ goes_on 30 ∷ goes_on 30 ∷ goes_on 30 ∷ []

pinger-run-IsCounted_example : IsCounted (Pings.run ticks pings (Pings.create ticks))
pinger-run-IsCounted_example = pinger-run-IsCounted ticks pings (omega arith)

pinger-judge_exact_example :
    let p = Pings.run ticks pings (Pings.create ticks) in
    (Pings.step ticks 40 p).reachable ≡ leb p.sent (p.received + p.lost + 3)
unfolding Pings.run Pings.create Pings.receive_code find insert
pinger-judge_exact_example = pinger-judge_exact ticks pings 40 (omega arith) refl

-- Bytes 3 and 4 are in flight.
abbrev two_in_flight : Pinger ℕ
two_in_flight = record {
  sent = 5;
  lost = 1;
  received = 2;
  rtt = 9;
  reachable = true;
  send_times = (3, 30) ∷ (4, 40) ∷ [];
  stop_requested = false;
  byte = 5;
  phase = writing;
  output = 4 ∷ 3 ∷ [];
  reports = [];
}

two_in_flight-IsCounted : IsCounted two_in_flight
two_in_flight-IsCounted = ground arith

-- Byte 239 is in flight, and 0 is next.
abbrev about_to_wrap : Pinger ℕ
about_to_wrap = record two_in_flight {
  sent = 240;
  lost = 0;
  received = 239;
  send_times = (239, 100) ∷ [];
  byte = 0;
}

pinger-wrap_counts_lost_example :
    let q =
      Pings.run ticks
        (receives 120 0 (239 ∷ []) ∷ receives 120 0 (0 ∷ []) ∷ [])
        (Pings.run ticks (one_round ticks 110) about_to_wrap) in
    (q.output ≡ 0 ∷ 4 ∷ 3 ∷ []) × (q.received ≡ 239 + 1) × (q.lost ≡ 0 + 1) × (q.send_times ≡ [])
pinger-wrap_counts_lost_example =
    pinger-wrap_counts_lost ticks 100 110 120 about_to_wrap refl refl refl refl (omega arith)
      (omega arith)

quiet : IsQuiet ticks 0 (Pings.create ticks)
unfolding Pings.create
quiet = ground arith

ping-session_example :
    IsQuiet ticks 2 (session ticks ((10, 12) ∷ (20, 23) ∷ []) (Pings.create ticks))
ping-session_example = ping-session ticks ((10, 12) ∷ (20, 23) ∷ []) (omega arith)

abbrev waits : List Call
waits = expires sent_available_mode_command ∷ reachability true ∷ expires idle ∷ []

waits-IsWaiting : All IsWaiting waits
waits-IsWaiting = (λ h. cc, (tt, (λ h. cc, tt)))

controller-availability_cycle_example :
    let seen =
      Controls.run (expires idle ∷ waits ++ expires availability_mode ∷ []) Controls.create in
    let ended = Controls.run (expires availability_mode ∷ []) seen in
    (seen.dispatched ≡ availability_mode_command ∷ [])
    × (seen.timer ≡ some 60)
    × (ended.dispatched ≡ end_mode_command ∷ availability_mode_command ∷ [])
    × (ended.timer ≡ some 1)
unfolding Controls.create
controller-availability_cycle_example =
    controller-availability_cycle waits Controls.create refl waits-IsWaiting

reporting-double_delete_example :
    (r : Reporting) × (until_end 1 3 ≡ some r)
    × (r.reported ≡ 3)
    × (r.timer ≡ freed)
    × ((destroy r ≡ none) ↔ (0 < 1))
reporting-double_delete_example = reporting-double_delete 1 3 (inl (omega arith))

abbrev script : EventsScript
script = record {
  entries = (2, availability_mode_command_id) ∷ (9, end_mode_command_id) ∷ [];
  cyclic = true;
  timers = [];
  canceled = 0;
  dispatched = [];
}

script-start_script_example :
    start_script 100 script
    ≡ some (record script { timers = plan 100 true script.entries; canceled = 0 + 0 })
script-start_script_example =
    script-start_script 100 script (2, availability_mode_command_id) ((9, end_mode_command_id) ∷ [])
      refl (ground arith)

-- The last event of the cyclic script is replaced by the restart.
cyclic_plan :
    plan 100 true script.entries ≡ (102, handle availability_mode_command_id) ∷ (109, restart) ∷ []
unfolding plan
cyclic_plan = refl
