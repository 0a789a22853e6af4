-- ===== src/Reporting.antt =====
-- src/ReportingActivity.h: the timer of the periodic reports. None is undefined behaviour.
pub mod Lifecycle
use modem_tester.Common.{ℕ, zero, suc, ◌+◌, ◌==◌, ltb, if◌then◌else◌, Option, none, some}
use modem_tester.TimerPtr.{TimerPtr, null, live, is_set, delete, use_timer}

pub record Reporting : Type 0 where
  -- _reportStatsTimer and _pingStatusReportPeriod
  pub timer : TimerPtr
  pub period : ℕ
  -- how often makeReport was called
  pub reported : ℕ

-- the constructor
unfoldable pub create : ℕ → Reporting
create d = record { timer = null; period = d; reported = 0 }

-- initReporting
unfoldable pub init_reporting : Reporting → Reporting
init_reporting r = if ltb 0 r.period then record r { timer = live } else r

-- The chain `p->…; …` on the timer.
abbrev with_timer : Reporting → Option TimerPtr → Option Reporting
with_timer r none = none
with_timer r (some t) = some (record r { timer = t })

-- handleTimerReportStats, with the value of the error code
unfoldable pub handle_timer_report_stats : ℕ → Reporting → Option Reporting
handle_timer_report_stats ec r =
    if ec == 0
    then with_timer (record r { reported = r.reported + 1 }) (use_timer r.timer)
    else some r

-- endReporting: the timer is canceled and deleted, and the pointer is left as it is
unfoldable pub end_reporting : Reporting → Option Reporting
end_reporting r =
    if is_set r.timer
    then (elim (use_timer r.timer) [ none ↦ none | some t ↦ with_timer r (delete t) ])
    else some r

-- the destructor
unfoldable pub destroy : Reporting → Option Reporting
destroy r =
    if is_set r.timer
    then (elim (delete r.timer) [ none ↦ none | some t ↦ some (record r { timer = null }) ])
    else some r

-- The timer's part of `operator()`: the reports start, some fall due, and the reports end. The object
-- is deleted later, by ActivityState::exit after stop ().
unfoldable pub fire : ℕ → Reporting → Option Reporting
unfolding handle_timer_report_stats
fire zero r = some r
fire (suc n) r = elim (handle_timer_report_stats 0 r) [ none ↦ none | some r' ↦ fire n r' ]

unfoldable pub until_end : ℕ → ℕ → Option Reporting
unfolding create init_reporting end_reporting
until_end period fired = elim (fire fired (init_reporting (create period))) [
  | none ↦ none
  | some r ↦ end_reporting r
]
