-- ===== src/Lib.antt =====
-- ModemTester: a program at each end of a serial line tests the modems between. The master asks
-- for a test, the remote serves it; both are state machines that exchange single bytes, and each
-- mode runs an activity in a thread of its own. This library models the two machines, their
-- activities, the controller and the scripts that drive the master, and proves what makes them
-- correct, and where they are not.
--
-- The parts, by their paths in the repository, and the files that model them:
-- - src/Events.h, src/Events.cpp: Events.antt, the identifiers, the event structs and the bytes on
--   the line; Events/Codes.antt, how these correspond.
-- - src/BaseFSM.h: Fsm/Base.antt, one function for each method of BaseFSM, ActivityState and
--   TimerBasedState, over the state of Fsm/World.antt: the static members, the pointers of each
--   state object, the reads that are pending, and the trace of the calls on asio (src/AISO.h) and
--   on threads. A failed assert and a null pointer are the result `fault`, ::exit is `quit`.
--   Fsm/Run.antt: what may happen to a machine from outside. Fsm/Sound.antt: what a sound machine
--   is, whose pointers and pending read belong to its current state.
-- - src/master/MasterFSM.h, src/master/MasterFSM.cpp: Master.antt, with Master/Invariant.antt and
--   Master/Protocol.antt; src/remote/RemoteFSM.h, src/remote/RemoteFSM.cpp: Remote.antt, with
--   Remote/Invariant.antt, Remote/Protocol.antt and Remote/Silence.antt.
-- - src/master/MasterPinger.h, src/master/MasterPinger.cpp: Master/Pinger.antt, the loop of
--   operator() cut into its statements, between any two of which a handler may run; its counters
--   in Master/Pinger/Counts.antt, the order of its map in Master/Pinger/Wrap.antt, echoes before
--   the byte is noted in Master/Pinger/Early.antt, the timer of its reports in
--   Master/Pinger/Thread.antt and its end in Master/Pinger/Ends.antt. Factories.antt: the
--   factories of both tests of the master.
-- - src/remote/RemotePinger.h, src/remote/RemotePinger.cpp: Remote/Pinger.antt and
--   Remote/Pinger/Echo.antt. Ping.antt joins the two ends.
-- - src/master/MasterThroughput.h, src/master/MasterThroughput.cpp: Master/Throughput.antt and
--   Master/Throughput/Results.antt, with Master/Throughput/Waiting.antt and
--   Master/Throughput/Early.antt on the wait for the
--   results and Master/Throughput/Blocked.antt on periodic reports; src/remote/RemoteThroughput.h,
--   src/remote/RemoteThroughput.cpp: Remote/Throughput.antt, Remote/Throughput/Results.antt and
--   Remote/Throughput/Sizes.antt. The results that go from one to the other: Wire.antt,
--   Wire/Results.antt and Wire/Hosts.antt.
-- - src/ReportingActivity.h: Reporting.antt, Reporting/Lifecycle.antt and TimerPtr.antt, a timer
--   pointer with undefined behaviour as `none`.
-- - src/master/MasterController.h, src/master/MasterController.cpp: Master/Controller.antt and
--   Master/Controller/Cycle.antt; Master/Controller/Drives.antt joins it to the machine, through
--   src/DispatchingRunnable.h.
-- - src/AISO.h: Aiso.antt, the interface and its implementation over a stream of asio. The machines
--   call it as the effects of their trace, which `replay` performs on a stream.
-- - src/EventsScript.h: Script.antt and Script/Schedule.antt.
-- - src/Runnable.h, src/Runnable.cpp, src/RunnablePool.h, src/RunnablePool.cpp,
--   src/DispatchingRunnable.h: Pool.antt, threads and the pool's own thread as turns that a
--   schedule orders, with Pool/Safety.antt, Pool/Progress.antt and Pool/Deadlock.antt.
-- - src/main.cpp: Options.antt and Options/Checks.antt, the checks on the parsed options;
--   Main.antt, the process of the remote, which ends when asio has no work, and the loop of the
--   master's thread, with Main/Status.antt, Main/Noise.antt and Main/Join.antt; Reports.antt and
--   Reports/Exact.antt, the messages on the Ivy bus, with Reports/Bus.antt, the settings and the
--   pinger of the master, and Reports/Bus/Counts.antt.
-- - src/ivylogger/ivylogger.cpp: Ivylogger.antt and Ivylogger/Lines.antt;
--   Ivylogger/Process.antt, the process and its signals, with Ivylogger/Process/Gap.antt.
-- Handshake.antt joins the two machines over a line, Handshake/Loss.antt over one that loses
-- bytes, with Handshake/Hears.antt and Handshake/Waiting.antt on what each machine does.
-- Session.antt joins the two ends of a throughput test, and Series.antt the modes and their tests
-- one after another, with Activities.antt, the activities that run in the states of the machines.
-- Entry.antt and Entry/Race.antt are the thread of an activity and its machine when a mode is
-- entered. SortedMap.antt is std::map as a sorted list, Common.antt the shared names, Tests the
-- theorems and the models at concrete inputs.
--
-- Parameters. tinyfsm, a third-party library, is the record TinyFsm of Fsm/Library.antt: transit,
-- dispatch and start with their documented laws, met by the instance `plain`. The doubles of the
-- round-trip times are the record Doubles of Master/Pinger.antt, which has no laws; the
-- conversion of their average for usleep may be undefined. The byte order of a machine is the
-- record Host of Wire.antt, with the documented effect of htonl and ntohl, met by the two
-- instances of Wire/Hosts.antt. The regular expressions of the Ivy bus are a function. A stream
-- of asio is the record AsyncStream of Aiso.antt, which has no laws. Its io_service, where main
-- runs its loop, is the record IoService of Main.antt: one of the pending operations completes.
-- The microseconds between two times, which sendResults computes in doubles, are a function. The
-- number of the logging library's severity `fatal` is an argument.
--
-- Bounds. The counters of the availability test are unsigned long with their wrap written out; in
-- fewer than 2^64 moves, of which each counts at most one byte, they do not wrap. The totals of
-- the throughput test are uint32_t and wrap as in the code. No function runs on fuel: loops are
-- over the bytes of a read, and the loops of the threads are steps whose order the environment
-- chooses.
--
-- Not modelled: the calls inside asio and the exceptions that a failed write throws; data races
-- on a single variable; a report whose timer has expired when endReporting deletes the timer; the
-- option parser, the serial port, the Ivy bus, the text of logs and the test programs. A dispatch
-- that the controller or a script hands to the pool is, in their models, the event in a list;
-- Master/Controller/Drives.antt dispatches it before the next expiry of the timer.
mod Common
pub mod Events
pub mod Fsm
pub mod Master
pub mod Remote
pub mod SortedMap
pub mod Wire
pub mod TimerPtr
pub mod Reporting
pub mod Script
pub mod Ping
pub mod Session
pub mod Series
pub mod Aiso
pub mod Activities
pub mod Entry
pub mod Handshake
pub mod Pool
pub mod Options
pub mod Factories
pub mod Main
pub mod Reports
pub mod Ivylogger
mod Tests
