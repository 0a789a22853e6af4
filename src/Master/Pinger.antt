-- ===== src/Master/Pinger.antt =====
-- src/master/MasterPinger.h and src/master/MasterPinger.cpp: the availability test of the master.
-- `operator()` runs in a thread of its own and the handlers in asio's; both work on the object with
-- no lock, so the loop is cut into its statements and a handler may run between any two of them.
-- Times are ticks of the clock; the round-trip times are doubles, which stay abstract.
pub mod Counts
pub mod Wrap
pub mod Thread
pub mod Ends
pub mod Early
use modem_tester.Common.{
  ℕ, ◌+◌, ◌-◌, ◌%◌, ◌==◌, ltb, leb, if◌then◌else◌, Bool, true, false, List, [], ◌∷◌, Option, none,
  some,
}
use modem_tester.Events.{
  Event, end_mode_command, remote_ack, end_test, begin_standard_codes, end_standard_codes,
  end_mode_command_id, remote_ack_id, end_test_id, to_byte,
}
use modem_tester.SortedMap
use modem_tester.SortedMap.{insert, find, distance, erase_through}

-- unsigned long
abbrev pub u64_mod : ℕ
u64_mod = 18_446_744_073_709_551_616

abbrev pub u64 : ℕ → ℕ
u64 n = n % u64_mod

-- AVAIL_THRESHOLD
abbrev pub avail_threshold : ℕ
avail_threshold = 3

-- nbCodes
abbrev pub nb_codes : ℕ
nb_codes = to_byte end_standard_codes - to_byte begin_standard_codes

-- What the code does with doubles: 0.0, +, the seconds between two times (received, sent), and the
-- division by a count; and `1000000 * x` as the unsigned integer that usleep takes, none where the
-- conversion is undefined.
pub record Doubles (D : Type 0) : Type 0 where
  pub zero : D
  pub plus : D → D → D
  pub elapsed : ℕ → ℕ → D
  pub over : D → ℕ → D
  pub micros : D → Option ℕ

-- Where the thread of `operator()` is: before a statement of the loop, before usleep, endReporting and
-- makeReport at its end, or past them. It waits for its timer before `judging`.
pub data Phase : Type 0 where
  writing counting stamping advancing judging resting ending finishing finished : Phase

-- The arguments of _reportingFunction.
pub record Report (D : Type 0) : Type 0 where
  pub reachable : Bool
  pub sent : ℕ
  pub lost : ℕ
  pub received : ℕ
  pub average : D

pub record Pinger (D : Type 0) : Type 0 where
  pub sent : ℕ
  pub lost : ℕ
  pub received : ℕ
  pub rtt : D
  pub reachable : Bool
  pub send_times : List (ℕ × ℕ)
  pub stop_requested : Bool
  -- the local variable of `operator()`
  pub byte : ℕ
  pub phase : Phase
  -- the bytes written and the reports made, newest first
  pub output : List ℕ
  pub reports : List (Report D)

-- What handleReceive does last: it starts the next read, it dispatches an event to MasterFSM and
-- returns, or it only returns.
pub data Then : Type 0 where
  rearm : Then
  dispatch : Event → Then
  done : Then

-- The `switch` of handleReceive on a byte that is no standard code.
unfoldable pub command : ℕ → Option Event
command b =
    if b == to_byte remote_ack_id
    then some remote_ack
    else if b == to_byte end_test_id
    then some end_test
    else if b == to_byte end_mode_command_id
    then some end_mode_command
    else none

module _ {D : Type 0} (fl : Doubles D) where
  -- the constructor, and `byte = BeginStandardCodes`
  unfoldable pub create : Pinger D
  create = record {
    sent = 0;
    lost = 0;
    received = 0;
    rtt = fl.zero;
    reachable = false;
    send_times = [];
    stop_requested = false;
    byte = to_byte begin_standard_codes;
    phase = writing;
    output = [];
    reports = [];
  }

  -- getAverageRtt
  unfoldable pub average_rtt : Pinger D → D
  average_rtt p = fl.over p.rtt p.received

  -- makeReport
  unfoldable pub make_report : Pinger D → Pinger D
  unfolding average_rtt
  make_report p = record p { reports = report ∷ p.reports }
    where
      report : Report D
      report = record {
        reachable = p.reachable;
        sent = p.sent;
        lost = p.lost;
        received = p.received;
        average = average_rtt p;
      }

  -- `_sent - (_received + _lost) > AVAIL_THRESHOLD`, in unsigned long
  unfoldable pub in_flight : Pinger D → ℕ
  in_flight p = u64 (p.sent + u64_mod - u64 (p.received + p.lost))

  -- One statement of `operator()`, at the time `now`: what it does to the counters. Whether usleep is
  -- defined, and what endReporting does to the timer of the reports, is in Master/Pinger/Thread.antt.
  unfoldable pub step_at : Phase → ℕ → Pinger D → Pinger D
  unfolding make_report in_flight
  step_at writing now p =
      if p.stop_requested
      then record p { phase = resting }
      else record p { output = p.byte ∷ p.output; phase = counting }
  step_at counting now p = record p { sent = u64 (p.sent + 1); phase = stamping }
  step_at stamping now p = record p {
    send_times = insert p.byte now p.send_times;
    phase = advancing;
  }
  step_at advancing now p = record p {
    byte = (p.byte + 1 - to_byte begin_standard_codes) % nb_codes + to_byte begin_standard_codes;
    phase = judging;
  }
  step_at judging now p = record p {
    reachable = leb (in_flight p) avail_threshold;
    phase = writing;
  }
  step_at resting now p = record p { phase = ending }
  step_at ending now p = record p { phase = finishing }
  step_at finishing now p = record (make_report p) { phase = finished }
  step_at finished now p = p

  unfoldable pub step : ℕ → Pinger D → Pinger D
  unfolding step_at
  step now p = step_at p.phase now p

  -- a standard code comes back: everything before it in _sendTimes is lost
  unfoldable pub receive_code : ℕ → ℕ → Pinger D → Pinger D
  receive_code now b p = elim (find b p.send_times) [
    | none ↦ p
    | some t ↦ record p {
      rtt = fl.plus p.rtt (fl.elapsed now t);
      received = u64 (p.received + 1);
      lost = u64 (p.lost + distance b p.send_times);
      send_times = erase_through b p.send_times;
    }
  ]

  -- the loop of handleReceive over the bytes read
  unfoldable pub receive_bytes : ℕ → List ℕ → Pinger D → Pinger D × Then
  receive_bytes now [] p = (p, rearm)
  receive_bytes now (b ∷ bs) p = elim (leb b (to_byte end_standard_codes)) [
    | true ↦ receive_bytes now bs (receive_code now b p)
    | false ↦ elim (command b) [ some e ↦ (p, dispatch e) | none ↦ receive_bytes now bs p ]
  ]

  -- handleReceive, with the value of the error code
  unfoldable pub handle_receive : ℕ → ℕ → List ℕ → Pinger D → Pinger D × Then
  unfolding receive_bytes
  handle_receive now ec bytes p =
      if ec == 0
      then receive_bytes now bytes p
      else if ec == 125
      then (p, done)
      else (record p { stop_requested = true }, dispatch end_test)

  -- What can happen next: the thread goes on, a read completes, a report is due, or stop () is
  -- called.
  pub data Move : Type 0 where
    goes_on : ℕ → Move
    receives : ℕ → ℕ → List ℕ → Move
    reports : Move
    stops : Move

  unfoldable pub move : Move → Pinger D → Pinger D
  unfolding step handle_receive make_report
  move (goes_on now) p = step now p
  move (receives now ec bytes) p = (handle_receive now ec bytes p).0
  move reports p = make_report p
  move stops p = record p { stop_requested = true }

  unfoldable pub run : List Move → Pinger D → Pinger D
  unfolding move
  run [] p = p
  run (m ∷ ms) p = run ms (move m p)
