-- ===== src/Tests/Pings.antt =====
-- The availability test of src/master/MasterPinger.cpp, and the messages of src/main.cpp on it, at
-- concrete inputs.
use modem_tester.Common.{
  ℕ, ◌+◌, ◌-◌, ◌/◌, ◌*◌, ltb, if◌then◌else◌, some, none, ◌≡◌, refl, leb, List, [], ◌∷◌, ◌++◌, map,
  arith, true, false,
}
use modem_tester.SortedMap.{find, insert, distance}
use modem_tester.Master.Pinger.{
  Doubles, Move, goes_on, receives, reports, stops, create, receive_code, run,
}
use modem_tester.Master.Pinger.Ends.{turns, EndsOrOverflows, pinger-stop_ends}
use modem_tester.Master.Pinger.Early.{early_session, IsMissed, pinger-early_echoes}
use modem_tester.Reports.Bus.{bus_messages}
use modem_tester.Reports.Bus.Counts.{exact_avail, seen, bus_messages-exact}

abbrev whole_ticks : Doubles ℕ
whole_ticks = record {
  zero = 0;
  plus = λ a b. a + b;
  elapsed = λ later earlier. later - earlier;
  over = λ total count. total / count;
  micros = λ d. if ltb d 4295 then some (1_000_000 * d) else none;
}

-- A byte is written and counted, and the next report falls due.
abbrev first_moves : List (Move whole_ticks)
first_moves = goes_on 10 ∷ goes_on 11 ∷ reports ∷ []

-- The thread goes on, and the echo comes in between.
abbrev last_moves : List (Move whole_ticks)
last_moves =
    goes_on 12
    ∷ receives 13 0 (0 ∷ [])
    ∷ goes_on 14
    ∷ goes_on 15
    ∷ goes_on 16
    ∷ stops
    ∷ goes_on 17
    ∷ goes_on 18
    ∷ []

-- Two more statements: with usleep and endReporting the thread has eight after a stop.
abbrev to_the_end : List (Move whole_ticks)
to_the_end = last_moves ++ goes_on 19 ∷ goes_on 20 ∷ []

pinger-stop_ends_example : EndsOrOverflows whole_ticks 1 (first_moves ++ stops ∷ to_the_end)
unfolding turns
pinger-stop_ends_example = pinger-stop_ends whole_ticks 1 first_moves to_the_end (omega arith)

pinger-early_echoes_example :
    let p = early_session whole_ticks (5 ∷ 6 ∷ 7 ∷ 8 ∷ []) (create whole_ticks) in
    IsMissed 4 p × (p.reachable ≡ leb 4 3)
pinger-early_echoes_example = pinger-early_echoes whole_ticks 5 (6 ∷ 7 ∷ 8 ∷ []) (omega arith)

abbrev in_milliseconds : ℕ → ℕ
in_milliseconds seconds = seconds + seconds

bus_messages-exact_example :
    bus_messages whole_ticks in_milliseconds (first_moves ++ stops ∷ to_the_end)
    ≡ map
        (exact_avail whole_ticks in_milliseconds)
        (seen whole_ticks (first_moves ++ stops ∷ to_the_end) (create whole_ticks))
bus_messages-exact_example =
    bus_messages-exact whole_ticks in_milliseconds (first_moves ++ stops ∷ to_the_end) (omega arith)

-- Two reports: one before the echo, and the final one after it.
two_reports :
    (run whole_ticks (first_moves ++ stops ∷ to_the_end) (create whole_ticks)).reports
    ≡ record { reachable = true; sent = 1; lost = 0; received = 1; average = 1 }
      ∷ record { reachable = false; sent = 1; lost = 0; received = 0; average = 0 }
      ∷ []
unfolding run create receive_code find insert distance
two_reports = refl
