-- ===== src/Factories.antt =====
-- MasterPingerFactory and MasterThroughputFactory (src/master/MasterPinger.cpp and .h,
-- src/master/MasterThroughput.cpp and .h): the static settings of the tests of the master, and what is
-- made from them. `F` stands for the type of a reporting function, and periods are in seconds.
use modem_tester.Common.{ℕ}
use modem_tester.Reporting
use modem_tester.Reporting.{Reporting}
use modem_tester.Master.Pinger as MasterPinger
use modem_tester.Master.Pinger.{Pinger, Doubles}
use modem_tester.Master.Throughput as MasterThroughput
use modem_tester.Master.Throughput.{Tester}

-- The static members of MasterPingerFactory.
pub record PingerSettings (F : Type 0) : Type 0 where
  pub ping_status_print_period : ℕ
  pub reporting_function : F

-- A MasterPinger: its counters, the timer of its reports, and the function that it reports to.
pub record MadePinger (F D : Type 0) : Type 0 where
  pub pinger : Pinger D
  pub activity : Reporting
  pub reporting_function : F

module _ {F : Type 0} where
  -- The initial values; `no_reporting` is noReportingFunction.
  unfoldable pub pinger_settings : F → PingerSettings F
  pinger_settings no_reporting = record {
    ping_status_print_period = 0;
    reporting_function = no_reporting;
  }

  unfoldable pub set_ping_status_print_period : ℕ → PingerSettings F → PingerSettings F
  set_ping_status_print_period period s = record s { ping_status_print_period = period }

  unfoldable pub set_reporting_function : F → PingerSettings F → PingerSettings F
  set_reporting_function f s = record s { reporting_function = f }

  -- operator()
  unfoldable pub make_pinger : {D : Type 0} → Doubles D → PingerSettings F → MadePinger F D
  unfolding MasterPinger.create Reporting.create
  make_pinger fl s = record {
    pinger = MasterPinger.create fl;
    activity = Reporting.create s.ping_status_print_period;
    reporting_function = s.reporting_function;
  }

-- The static members of MasterThroughputFactory.
pub record ThroughputSettings (F : Type 0) : Type 0 where
  pub throughput_result_print_period : ℕ
  pub reporting_function : F
  -- in bits per second
  pub estimated_throughput : ℕ

-- A MasterThroughput, with the members that its test does not change.
pub record MadeTester (F : Type 0) : Type 0 where
  pub tester : Tester
  pub reporting_function : F
  pub estimated_throughput : ℕ

module _ {F : Type 0} where
  unfoldable pub throughput_settings : F → ThroughputSettings F
  throughput_settings no_reporting = record {
    throughput_result_print_period = 0;
    reporting_function = no_reporting;
    estimated_throughput = 9600;
  }

  unfoldable pub set_throughput_result_print_period :
      ℕ → ThroughputSettings F → ThroughputSettings F
  set_throughput_result_print_period period s = record s { throughput_result_print_period = period }

  unfoldable pub set_throughput_reporting_function : F → ThroughputSettings F → ThroughputSettings F
  set_throughput_reporting_function f s = record s { reporting_function = f }

  unfoldable pub set_estimated_throughput : ℕ → ThroughputSettings F → ThroughputSettings F
  set_estimated_throughput bits s = record s { estimated_throughput = bits }

  -- operator()
  unfoldable pub make_tester : ThroughputSettings F → MadeTester F
  unfolding MasterThroughput.create
  make_tester s = record {
    tester = MasterThroughput.create s.throughput_result_print_period;
    reporting_function = s.reporting_function;
    estimated_throughput = s.estimated_throughput;
  }
