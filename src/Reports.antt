-- ===== src/Reports.antt =====
-- The functions of src/main.cpp that tell the Ivy bus, and the controller, what a test has found. The
-- texts that they log are left out. A message is its text up to the numbers and the values that printf
-- puts after it.
pub mod Exact
pub mod Bus
use Prim.Native.String.{String}
use modem_tester.Common.{ℕ, ◌-◌, ◌^◌, ltb, if◌then◌else◌, Bool, List, [], ◌∷◌}
use modem_tester.Master.Pinger as Pinger
use modem_tester.Master.Controller.{Controller, set_remote_reachability}

-- The integers that `%d` and `%ld` print.
pub data ℤ : Type 0 where
  pos negsuc : ℕ → ℤ

pub data Value (D : Type 0) : Type 0 where
  integer : ℤ → Value D
  real : D → Value D

pub record Message (D : Type 0) : Type 0 where
  pub head : String
  pub values : List (Value D)

-- What a conversion for a signed integer of w bits prints of an unsigned one: the same bits, in two's
-- complement.
unfoldable pub as_signed : ℕ → ℕ → ℤ
as_signed w x = if ltb x (2 ^ (w - 1)) then pos x else negsuc (2 ^ w - 1 - x)

-- `ms` is `avRtt * 1000`, in doubles.
module _ {D : Type 0} (ms : D → D) where
  unfoldable pub avail_report : Pinger.Report D → Message D
  unfolding as_signed
  avail_report r = record {
    head = "ground AVAIL_REPORT";
    values =
        integer (pos (if r.reachable then 1 else 0))
        ∷ integer (as_signed 64 r.sent)
        ∷ integer (as_signed 64 r.lost)
        ∷ integer (as_signed 64 r.received)
        ∷ real (ms r.average)
        ∷ [];
  }

  -- AvailabilityReportingFunction, with the messages sent so far, newest first
  unfoldable pub availability_reporting_function :
      Pinger.Report D → List (Message D) → Controller → List (Message D) × Controller
  unfolding avail_report set_remote_reachability
  availability_reporting_function r sent control =
      (avail_report r ∷ sent, set_remote_reachability r.reachable control)

  -- SimpleAvailabilityReportingFunction
  unfoldable pub simple_availability_reporting_function :
      Pinger.Report D → List (Message D) → List (Message D)
  unfolding avail_report
  simple_availability_reporting_function r sent = avail_report r ∷ sent

module _ {D : Type 0} where
  -- ThroughputReportingFunction: `valid` is not looked at
  unfoldable pub throughput_reporting_function : Bool → ℕ → ℕ → List (Message D) → List (Message D)
  unfolding as_signed
  throughput_reporting_function valid received usecs sent =
      record {
        head = "ground THROUGHPUT_REPORT";
        values = integer (as_signed 32 received) ∷ integer (as_signed 32 usecs) ∷ [];
      }
      ∷ sent
