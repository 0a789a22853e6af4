-- ===== src/Reports/Bus.antt =====
-- The branch of src/main.cpp that acts as the master, up to its loops: the settings of the factory, the
-- pinger that it makes, and the messages on the Ivy bus that come of its reports.
pub mod Counts
use modem_tester.Common.{ℕ, List, [], ◌∷◌}
use modem_tester.Master.Pinger as Pinger
use modem_tester.Master.Pinger.{Doubles}
use modem_tester.Factories.{
  MadePinger, PingerSettings, pinger_settings, set_ping_status_print_period, set_reporting_function,
  make_pinger,
}
use modem_tester.Reports.{Message, simple_availability_reporting_function}

-- A reporting function, bound to the bus: the messages that were sent, newest first, before and after
-- the call.
abbrev pub ReportingFunction : Type 0 → Type 0
ReportingFunction D = Pinger.Report D → List (Message D) → List (Message D)

module _ {D : Type 0} where
  -- noReportingFunction
  unfoldable pub no_reporting_function : ReportingFunction D
  no_reporting_function r sent = sent

  -- makeReport calls the function for each report; the newest is the first of the list.
  unfoldable pub call_each : ReportingFunction D → List (Pinger.Report D) → List (Message D)
  call_each f [] = []
  call_each f (r ∷ rs) = f r (call_each f rs)

module _ {D : Type 0} (fl : Doubles D) (ms : D → D) where
  -- `setPingStatusPrintPeriod (seconds (1))` and setReportingFunction
  unfoldable pub main_settings : PingerSettings (ReportingFunction D)
  unfolding simple_availability_reporting_function pinger_settings set_ping_status_print_period
      set_reporting_function
  main_settings =
      set_reporting_function (simple_availability_reporting_function ms)
        (set_ping_status_print_period 1 (pinger_settings no_reporting_function))

  -- `fact ()`
  unfoldable pub main_pinger : MadePinger (ReportingFunction D) D
  unfolding main_settings make_pinger
  main_pinger = make_pinger fl main_settings

  -- The messages that are sent when the pinger of main has made these moves.
  unfoldable pub bus_messages : List (Pinger.Move fl) → List (Message D)
  unfolding main_pinger call_each Pinger.run
  bus_messages moves =
      call_each main_pinger.reporting_function (Pinger.run fl moves main_pinger.pinger).reports
