-- ===== src/Master/Throughput.antt =====
-- src/master/MasterThroughput.h and src/master/MasterThroughput.cpp: the throughput test of the
-- master. As in Master/Pinger.antt, `operator()`, with makeReport and getResults at its end, is cut
-- into its statements, and a handler may run between any two. None is undefined behaviour.
pub mod Results
pub mod Waiting
pub mod Early
pub mod Blocked
use mathlib.Core.Option
use modem_tester.Common.{
  ℕ, zero, suc, ◌+◌, ◌-◌, ◌==◌, ltb, if◌then◌else◌, Bool, true, false, ◌&&◌, not, List, [], ◌∷◌,
  ◌++◌, Option, none, some, length,
}
use modem_tester.Events.{
  Event, end_mode_command, remote_ack, end_test, begin_standard_codes, end_standard_codes, to_byte,
}
use modem_tester.TimerPtr.{TimerPtr, wild, live, delete, use_timer}
use modem_tester.Reporting
use modem_tester.Reporting.{Reporting, init_reporting, end_reporting}
use modem_tester.Wire.{Host, decode}
use modem_tester.Master.Pinger.{command}

abbrev nb_codes : ℕ
nb_codes = to_byte end_standard_codes - to_byte begin_standard_codes

-- `for (byte = BeginStandardCodes; byte < EndStandardCodes; ++byte) sendBuf[…] = byte`: the n codes
-- from `byte` on
unfoldable pub codes_from : ℕ → ℕ → List ℕ
codes_from zero byte = []
codes_from (suc n) byte = byte ∷ codes_from n (byte + 1)

unfoldable pub send_buf : List ℕ
unfolding codes_from
send_buf = codes_from nb_codes (to_byte begin_standard_codes)

-- Where `operator()` is: before the round `it` of the sending loop, asleep, before the statements of
-- getResults in their order, before the report, before the last dispatch, or at its end.
pub data Phase : Type 0 where
  starting : Phase
  sending : ℕ → Phase
  sleeping ending resetting marking timing polling rereading reporting posting finished : Phase

-- Which handler waits for a read.
pub data Reading : Type 0 where
  no_read commands results : Reading

pub record Report : Type 0 where
  pub valid : Bool
  pub received : Option ℕ
  pub usec : Option ℕ

pub record Tester : Type 0 where
  pub activity : Reporting
  pub got_results : Bool
  pub results_ready : Bool
  -- _totalReceived and _totalUsec; none until they are first assigned
  pub total_received : Option ℕ
  pub total_usec : Option ℕ
  pub results_timer : TimerPtr
  -- whether asio's thread waits in getResults, in a handler, so that no other handler runs
  pub io_blocked : Bool
  pub stop_requested : Bool
  pub phase : Phase
  pub reading : Reading
  -- the buffers written, the reports made and the events dispatched, newest first
  pub output : List (List ℕ)
  pub reports : List Report
  pub dispatched : List Event

-- the constructor
unfoldable pub create : ℕ → Tester
unfolding Reporting.create
create period = record {
  activity = Reporting.create period;
  got_results = false;
  results_ready = false;
  total_received = none;
  total_usec = none;
  results_timer = wild;
  io_blocked = false;
  stop_requested = false;
  phase = starting;
  reading = no_read;
  output = [];
  reports = [];
  dispatched = [];
}

-- One statement of `operator()`.
unfoldable pub step_at : Phase → Tester → Option Tester
unfolding init_reporting end_reporting send_buf
step_at starting s =
    some (record s { activity = init_reporting s.activity; reading = commands; phase = sending 0 })
step_at (sending it) s =
    if ltb it 10 && not s.stop_requested
    then some (record s { output = send_buf ∷ s.output; phase = sending (it + 1) })
    else some (record s { phase = sleeping })
step_at sleeping s = some (record s { phase = ending })
step_at ending s = elim (end_reporting s.activity) [
  | none ↦ none
  | some a ↦ some (record s { activity = a; phase = resetting })
]
step_at resetting s = some (record s { results_ready = false; reading = results; phase = marking })
step_at marking s =
    some (record s { output = (to_byte end_standard_codes ∷ []) ∷ s.output; phase = timing })
step_at timing s = some (record s { results_timer = live; phase = polling })
step_at polling s = if s.results_ready then some (record s { phase = rereading }) else some s
step_at rereading s = some (record s { reading = commands; phase = reporting })
step_at reporting s = some (record s {
  reports =
      record { valid = s.got_results; received = s.total_received; usec = s.total_usec }
      ∷ s.reports;
  phase = posting;
})
step_at posting s =
    some (record s { dispatched = end_mode_command ∷ s.dispatched; phase = finished })
step_at finished s = some s

-- `_stopRequested = true; MasterFSM::dispatch (EndTest ())`
abbrev give_up : Tester → Tester
give_up s = record s { stop_requested = true; dispatched = end_test ∷ s.dispatched }

-- receiveResults on the master's machine `h`
unfoldable pub receive_results : Host → ℕ → List ℕ → Tester → Option Tester
receive_results h ec bytes s =
    if ec == 0
    then (elim (delete s.results_timer) [
      | none ↦ none
      | some t ↦ elim (decode h bytes) [
        | none ↦ some (record s { results_timer = t })
        | some (received, usec) ↦ some (record s {
          results_timer = t;
          total_usec = some usec;
          total_received = some received;
          results_ready = true;
          got_results = true;
        })
      ]
    ])
    else if ec == 125
    then some s
    else some (give_up s)

-- timeoutReceiveResults: the request is sent again and the timer is started again
unfoldable pub timeout_receive_results : ℕ → Tester → Option Tester
timeout_receive_results ec s =
    if ec == 0
    then (elim (use_timer s.results_timer) [
      | none ↦ none
      | some t ↦
          some
            (record s { output = (to_byte end_standard_codes ∷ []) ∷ s.output; results_timer = t })
    ])
    else some s

-- the loop of handleReceive
unfoldable pub handle_bytes : List ℕ → Tester → Tester
unfolding command
handle_bytes [] s = record s { reading = commands }
handle_bytes (b ∷ bs) s = elim (command b) [
  | some e ↦ record s { dispatched = e ∷ s.dispatched }
  | none ↦ handle_bytes bs s
]

-- handleReceive
unfoldable pub handle_receive : ℕ → List ℕ → Tester → Tester
unfolding handle_bytes
handle_receive ec bytes s =
    if ec == 0 then handle_bytes bytes s else if ec == 125 then s else give_up s

-- The pending read completes: its handler runs, with no read pending.
abbrev complete : Host → Reading → ℕ → List ℕ → Tester → Option Tester
complete h no_read ec bytes s = some s
complete h commands ec bytes s = some (handle_receive ec bytes (record s { reading = no_read }))
complete h results ec bytes s = receive_results h ec bytes (record s { reading = no_read })

-- handleTimerReportStats of a report that is due calls makeReport and so getResults, up to its wait.
unfoldable pub report_due : Tester → Option Tester
report_due s = elim (use_timer s.activity.timer) [
  | none ↦ some s
  | some t ↦ some (record s {
    results_ready = false;
    reading = results;
    output = (to_byte end_standard_codes ∷ []) ∷ s.output;
    results_timer = live;
    io_blocked = true;
  })
]

pub data Move : Type 0 where
  goes_on : Move
  reads : ℕ → List ℕ → Move
  times_out : ℕ → Move
  report_falls_due : Move
  stops : Move

unfoldable pub move : Host → Move → Tester → Option Tester
unfolding step_at receive_results timeout_receive_results handle_receive report_due
move h goes_on s = step_at s.phase s
move h (reads ec bytes) s = if s.io_blocked then some s else complete h s.reading ec bytes s
move h (times_out ec) s = if s.io_blocked then some s else timeout_receive_results ec s
move h report_falls_due s = if s.io_blocked then some s else report_due s
move h stops s = some (record s { stop_requested = true })

unfoldable pub run : Host → List Move → Tester → Option Tester
unfolding move
run h [] s = some s
run h (m ∷ ms) s = elim (move h m s) [ none ↦ none | some s' ↦ run h ms s' ]
