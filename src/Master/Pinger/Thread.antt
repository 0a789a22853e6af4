-- ===== src/Master/Pinger/Thread.antt =====
-- The thread of MasterPinger::operator() with the timer of its reports (src/master/MasterPinger.cpp,
-- src/ReportingActivity.h). None is undefined behaviour.
use modem_tester.Common.{ℕ, true, List, [], ◌∷◌, Option, none, some}
use modem_tester.TimerPtr.{TimerPtr, live}
use modem_tester.Reporting
use modem_tester.Reporting.{Reporting, init_reporting, end_reporting, handle_timer_report_stats}
use modem_tester.Master.Pinger.{
  Pinger, Doubles, Phase, resting, ending, create, average_rtt, make_report, step, handle_receive,
  Move, goes_on, receives, reports, stops,
}

pub record Running (D : Type 0) : Type 0 where
  pub pinger : Pinger D
  pub reporting : Reporting

module _ {D : Type 0} (fl : Doubles D) where
  -- The constructor, and initReporting, which comes before the loop.
  unfoldable pub started : ℕ → Running D
  unfolding create Reporting.create init_reporting
  started period = record {
    pinger = create fl;
    reporting = init_reporting (Reporting.create period);
  }

  -- One statement: `usleep (1000000*getAverageRtt ())`, endReporting, or one that is only about the
  -- counters.
  unfoldable pub thread_at : Phase → ℕ → Running D → Option (Running D)
  unfolding step average_rtt end_reporting
  thread_at resting now s = elim (fl.micros (average_rtt fl s.pinger)) [
    | none ↦ none
    | some delay ↦ some (record s { pinger = step fl now s.pinger })
  ]
  thread_at ending now s = elim (end_reporting s.reporting) [
    | none ↦ none
    | some r ↦ some (record s { pinger = step fl now s.pinger; reporting = r })
  ]
  thread_at _ now s = some (record s { pinger = step fl now s.pinger })

  -- A report falls due while there is a timer: handleTimerReportStats.
  unfoldable pub report_at : TimerPtr → Running D → Option (Running D)
  unfolding handle_timer_report_stats make_report
  report_at live s = elim (handle_timer_report_stats 0 s.reporting) [
    | none ↦ none
    | some r ↦ some (record s { pinger = make_report fl s.pinger; reporting = r })
  ]
  report_at _ s = some s

  unfoldable pub act : Move fl → Running D → Option (Running D)
  unfolding thread_at report_at handle_receive
  act (goes_on now) s = thread_at s.pinger.phase now s
  act (receives now ec bytes) s =
      some (record s { pinger = (handle_receive fl now ec bytes s.pinger).0 })
  act reports s = report_at s.reporting.timer s
  act stops s = some (record s { pinger = record s.pinger { stop_requested = true } })

  unfoldable pub act_all : List (Move fl) → Running D → Option (Running D)
  unfolding act
  act_all [] s = some s
  act_all (m ∷ ms) s = elim (act m s) [ none ↦ none | some s' ↦ act_all ms s' ]
