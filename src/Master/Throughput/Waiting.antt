-- ===== src/Master/Throughput/Waiting.antt =====
-- The throughput test of the master (src/master/MasterThroughput.cpp) as it waits for the results.
use modem_tester.Common.{replicate, ℕ, ◌≡◌, refl, true, false, List, [], ◌∷◌, some, arith}
use modem_tester.Events.{end_mode_command}
use modem_tester.TimerPtr.{live, freed}
use modem_tester.Wire.{Host, decode}
use modem_tester.Master.Throughput.{
  Tester, commands, results, polling, posting, finished, goes_on, reads, send_buf, create,
  receive_results, move, run,
}

-- Where a test without periodic reports is when nothing disturbs it until it waits for the results.
pub record IsWaiting (s : Tester) : Type 0 where
  pub polls : s.phase ≡ polling
  pub reads_results : s.reading ≡ results
  pub timed : s.results_timer ≡ live
  pub free : s.io_blocked ≡ false
  pub undispatched : s.dispatched ≡ []
  pub unreported : s.reports ≡ []
  pub wrote : s.output ≡ (240 ∷ []) ∷ replicate 10 send_buf

pub run-IsWaiting :
    (h : Host) → (s : Tester) × (run h (replicate 17 goes_on) (create 0) ≡ some s) × IsWaiting s
unfolding run move create
run-IsWaiting h = (
  record (create 0) {
    phase = polling;
    reading = results;
    results_timer = live;
    output = (240 ∷ []) ∷ replicate 10 send_buf;
  },
  refl,
  record {
    polls = refl;
    reads_results = refl;
    timed = refl;
    free = refl;
    undispatched = refl;
    unreported = refl;
    wrote = refl;
  },
)

-- While the test waits for results with its timer set, and asio's thread is free, a buffer that it
-- decodes ends the wait.
pub reports_decoded :
    (h : Host) (buffer : List ℕ) (received usec : ℕ) (s : Tester)
    → decode h buffer ≡ some (received, usec)
    → s.phase ≡ polling
    → s.reading ≡ results
    → s.results_timer ≡ live
    → s.io_blocked ≡ false
    → (s' : Tester) × (run h (reads 0 buffer ∷ goes_on ∷ goes_on ∷ goes_on ∷ []) s ≡ some s')
      × (s'.reports
          ≡ record { valid = true; received = some received; usec = some usec } ∷ s.reports)
      × (s'.phase ≡ posting)
      × (s'.dispatched ≡ s.dispatched)
unfolding run move receive_results
reports_decoded h buffer received usec s d p r t io = (
  record s {
    results_timer = freed;
    total_usec = some usec;
    total_received = some received;
    results_ready = true;
    got_results = true;
    reading = commands;
    phase = posting;
    reports = record { valid = true; received = some received; usec = some usec } ∷ s.reports;
  },
  ground arith,
  refl,
  refl,
  refl,
)

-- After the report the test asks for the end of its mode.
pub posts_end :
    (h : Host) (s : Tester)
    → s.phase ≡ posting
    → (s' : Tester) × (run h (goes_on ∷ []) s ≡ some s')
      × (s'.dispatched ≡ end_mode_command ∷ s.dispatched)
unfolding run move
posts_end h s p =
    (record s { dispatched = end_mode_command ∷ s.dispatched; phase = finished }, rw p refl, refl)
