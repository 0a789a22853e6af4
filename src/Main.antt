-- ===== src/Main.antt =====
-- src/main.cpp: what the two roles do once the options are checked. The remote runs its machine until
-- asio has no work left; the master keeps a timer waiting and runs asio in a thread of its own, which
-- it joins in the end.
pub mod Noise
pub mod Join
pub mod Status
use mathlib.Core.List.{Perm}
use modem_tester.Common.{
  ℕ, zero, suc, ◌==◌, Bool, true, false, ◌||◌, if◌then◌else◌, List, [], ◌∷◌, ◌++◌, map, Option,
  none, some,
}
use modem_tester.Fsm.World.{World, initial, Result, ok, quit, fault}
use modem_tester.Fsm.Library.{TinyFsm}
use modem_tester.Fsm.Base.{set_io_stream}
use modem_tester.Fsm.Run
use modem_tester.Fsm.Run.{Input}
use modem_tester.Remote as R

-- What becomes of the process: it goes on, it ends with a status, or it aborts on a failed assert or a
-- null pointer.
pub data Process : Type 0 where
  running : R.Machine → Process
  exits : ℕ → Process
  aborts : Process

abbrev is_pending : List ℕ → Bool
is_pending [] = false
is_pending (k ∷ reads) = true

-- Whether one of the first n state objects has its pointer set.
abbrev pub any_set : ℕ → (ℕ → Bool) → Bool
any_set zero f = false
any_set (suc n) f = f n || any_set n f

-- The io_service of the remote has work: a read or a wait of one of the six state objects of the
-- machine, or the reads of an activity that was started.
unfoldable pub has_work : World → Bool
has_work w = is_pending w.reads || (any_set 6 w.timer || any_set 6 w.runnable)

-- What follows a handler: the process goes on if it returns.
abbrev pub continue : Result R.Machine → (R.Machine → Process) → Process
continue (ok m) next = next m
continue (quit c w) next = exits c
continue fault next = aborts

module _ (lib : TinyFsm R.RemoteState) where
  -- `io.run ()`, which returns when there is no work, over what asio completes, and what follows it:
  -- the port is closed, and main returns EXIT_SUCCESS
  unfoldable pub io_run : List Input → R.Machine → Process
  unfolding Run.input R.dispatch has_work
  io_run [] m = if has_work m.world then running m else exits 0
  io_run (i ∷ is) m = elim (has_work m.world) [
    | false ↦ exits 0
    | true ↦ continue (Run.input (R.dispatch lib) i m) (io_run is)
  ]

  -- the branch of main that acts as the remote end
  unfoldable pub main_remote : List Input → Process
  unfolding io_run R.start set_io_stream
  main_remote is = continue (R.start lib (set_io_stream initial)) (io_run is)

-- The pending work of the master's io_service: the wait of main's own timer, and other operations.
pub data Work : Type 0 where
  timer_wait : Work
  other : ℕ → Work

-- handle: the timer waits again, whatever the error code
unfoldable pub handle : ℕ → List Work → List Work
handle ec work = timer_wait ∷ work

-- io_service of boost::asio, by what it documents of run_one: it runs the handler of one operation that
-- has completed, and the others stay pending. The number chooses among those that may complete.
pub record IoService : Type 0 where
  pub completes : ℕ → Work → List Work → Work × List Work
  pub completes_lem :
      (i : ℕ) (w : Work) (work : List Work)
      → Perm ((completes i w work).0 ∷ (completes i w work).1) (w ∷ work)

-- `starts n` are the operations that the handler of the operation n starts.
module _ (io : IoService) (starts : ℕ → List ℕ) where
  abbrev pub complete : ℕ → Work → List Work → List Work
  complete ec timer_wait work = handle ec work
  complete ec (other n) work = map other (starts n) ++ work

  -- io.run_one () waits for one handler and returns 1; it returns 0 if no work is left
  unfoldable pub run_one : ℕ → ℕ → List Work → List Work × ℕ
  unfolding handle
  run_one i ec [] = ([], 0)
  run_one i ec (w ∷ work) = (complete ec (io.completes i w work).0 (io.completes i w work).1, 1)

  -- `while (res) res = io.run_one ();`: none if the loop has ended, and else the work that is left. In
  -- each round other threads have started the operations `more` before one completes.
  unfoldable pub run_boost_main_loop : ℕ → List (List ℕ × ℕ × ℕ) → List Work → Option (List Work)
  unfolding run_one
  run_boost_main_loop res [] work = if res == 0 then none else some work
  run_boost_main_loop res ((more, i, ec) ∷ rounds) work = elim (res == 0) [
    | true ↦ none
    | false ↦
        let (work', res') = run_one i ec (map other more ++ work) in
        run_boost_main_loop res' rounds work'
  ]
