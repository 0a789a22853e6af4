-- ===== src/Master/Throughput/Blocked.antt =====
-- A periodic report of the throughput test (src/master/MasterThroughput.cpp, src/ReportingActivity.h)
-- waits for results on the thread that would read them.
use modem_tester.Common.{
  ◌≡◌, refl, true, false, Bool, if◌then◌else◌, List, [], ◌∷◌, Option, none, some, arith, inl, inr,
  Option-cases, subst,
}
use modem_tester.Events.{Event}
use modem_tester.TimerPtr.{TimerPtr, live}
use modem_tester.Wire.{Host}
use modem_tester.Master.Throughput.{
  Tester, Phase, Report, results, Move, starting, sending, sleeping, ending, resetting, marking,
  timing, polling, goes_on, reads, times_out, report_falls_due, stops, step_at, move, run,
}

-- The test has begun and has not yet come past its wait for results; its reporting timer is there
-- until it ends the reports.
abbrev pub IsUnderWay : Phase → TimerPtr → Type 0
IsUnderWay (sending it) t = t ≡ live
IsUnderWay sleeping t = t ≡ live
IsUnderWay ending t = t ≡ live
IsUnderWay resetting t = Unit
IsUnderWay marking t = Unit
IsUnderWay timing t = Unit
IsUnderWay polling t = Unit
IsUnderWay _ t = ⊥

pub record IsHung (reports : List Report) (dispatched : List Event) (s : Tester) : Type 0 where
  pub blocked : s.io_blocked ≡ true
  pub unready : s.results_ready ≡ false
  pub under_way : IsUnderWay s.phase s.activity.timer
  pub unreported : s.reports ≡ reports
  pub silent : s.dispatched ≡ dispatched

abbrev pub Ensures : (Tester → Type 0) → Option Tester → Type 0
Ensures P none = ⊥
Ensures P (some s) = P s

passed_over :
    (P : Tester → Type 0) (b : Bool) (s : Tester) (o : Option Tester)
    → b ≡ true
    → P s
    → Ensures P (if b then some s else o)
passed_over P true s o e p = p
passed_over P false s o e p = cc

module _ (h : Host) (reports : List Report) (dispatched : List Event) where
  abbrev Hung : Tester → Type 0
  Hung = IsHung reports dispatched

  step-IsHung : (ph : Phase) (s : Tester) → s.phase ≡ ph → Hung s → Ensures Hung (step_at ph s)
  unfolding step_at
  step-IsHung starting s e k = ground arith
  step-IsHung ph s e k = ground arith

  move-IsHung : (m : Move) (s : Tester) → Hung s → Ensures Hung (move h m s)
  unfolding move
  move-IsHung goes_on s k = step-IsHung s.phase s refl k
  move-IsHung (reads ec bs) s k = passed_over Hung s.io_blocked s _ k.blocked k
  move-IsHung (times_out ec) s k = passed_over Hung s.io_blocked s _ k.blocked k
  move-IsHung report_falls_due s k = passed_over Hung s.io_blocked s _ k.blocked k
  move-IsHung stops s k = ground arith

  run-IsHung : (ms : List Move) (s : Tester) → Hung s → Ensures Hung (run h ms s)
  unfolding run
  run-IsHung [] s k = k
  run-IsHung (m ∷ ms) s k = elim (Option-cases (move h m s)) [
    | inl e ↦ absurd (subst (Ensures Hung) e (move-IsHung m s k))
    | inr (s', e) ↦ rw (e, run) (run-IsHung ms s' (subst (Ensures Hung) e (move-IsHung m s k)))
  ]

-- If a periodic report falls due while the test sends, sleeps or is about to end the reports, then
-- whatever follows, reads, timeouts and a stop included, the test goes on without a fault and never
-- comes past its wait for results: asio's thread stays blocked, no report is ever made and no event
-- is dispatched, so EndModeCommand is not.
pub master-throughput-report_hangs :
    (h : Host) (ms : List Move) (s : Tester)
    → IsUnderWay s.phase s.activity.timer
    → s.activity.timer ≡ live
    → s.io_blocked ≡ false
    → Ensures (IsHung s.reports s.dispatched) (run h (report_falls_due ∷ ms) s)
unfolding run move
master-throughput-report_hangs h ms s u t b =
    let s' : Tester = record s {
      results_ready = false;
      reading = results;
      output = (240 ∷ []) ∷ s.output;
      results_timer = live;
      io_blocked = true;
    } in
    let falls_due : move h report_falls_due s ≡ some s' = ground arith in
    let hung : IsHung s.reports s.dispatched s' = record {
      blocked = refl;
      unready = refl;
      under_way = u;
      unreported = refl;
      silent = refl;
    } in
    rw (falls_due, run) (run-IsHung h s.reports s.dispatched ms s' hung)
