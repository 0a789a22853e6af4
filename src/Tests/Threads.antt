-- ===== src/Tests/Threads.antt =====
-- The pool (src/RunnablePool.cpp) and the options (src/main.cpp) at concrete inputs.
use modem_tester.Common.{
  ℕ, ◌+◌, ◌≡◌, ◌≢◌, ◌↔◌, refl, true, false, ◌==◌, List, [], ◌∷◌, some, arith, All, zero, suc,
  if◌then◌else◌,
}
use modem_tester.Pool.{
  Body, finish, work, add, wait, fresh, begun, working, locking, sleeping, System, Turn, pool,
  thread, stops, faults, turn, run, create,
}
use modem_tester.Pool.Safety.{pool-never_faults}
use modem_tester.Pool.Safety.Pointers.{WaitsBelow}
use modem_tester.Pool.Progress.{pool-collects, collecting_turns, IsDeleted}
use modem_tester.Pool.Deadlock.{IsStuck, unlucky, pool-deadlock}
use modem_tester.Options.{Options, parsed, serves_remote, serves_master, check_options}
use modem_tester.Options.Checks.{options-accepted}

-- Thread 0 adds two runnables, one of which deletes object 1; thread 1 ends by itself.
abbrev bodies : ℕ → Body
bodies zero = add (wait 1 finish) (add (work finish) finish)
bodies (suc i) = work finish

bodies-WaitsBelow : (i : ℕ) → WaitsBelow 2 (bodies i)
bodies-WaitsBelow zero = (((omega arith), tt), (tt, tt))
bodies-WaitsBelow (suc i) = tt

abbrev turns : List Turn
turns =
    thread 0
    ∷ thread 0
    ∷ thread 0
    ∷ thread 1
    ∷ thread 1
    ∷ thread 1
    ∷ thread 2
    ∷ thread 2
    ∷ thread 2
    ∷ thread 3
    ∷ thread 3
    ∷ thread 3
    ∷ pool
    ∷ pool
    ∷ pool
    ∷ pool
    ∷ []

pool-never_faults_example : turn pool (run turns (create 2 bodies)) ≢ faults
pool-never_faults_example = pool-never_faults 2 bodies turns bodies-WaitsBelow

-- Two runnables in the pool, one of which has begun.
abbrev two_added : System
two_added = record {
  runnables = some 4 ∷ some 7 ∷ [];
  place = locking;
  stop_requested = false;
  life = λ i. if i == 4 then begun (work finish) else if i == 7 then working finish else fresh;
  next = 8;
}

pool-collects_example :
    let t = run (pool ∷ collecting_turns two_added.life two_added.runnables) two_added in
    (t.place ≡ sleeping) × (t.runnables ≡ []) × All (IsDeleted t.life) two_added.runnables
pool-collects_example = pool-collects two_added refl (omega arith)

abbrev colliding : ℕ → Body
colliding zero = add (wait 1 finish) finish
colliding (suc i) = add finish finish

pool-deadlock_example :
    IsStuck [] [] 2 1 finish finish finish
      (run (thread 1 ∷ pool ∷ thread 2 ∷ stops ∷ []) (run unlucky (create 2 colliding)))
pool-deadlock_example =
    pool-deadlock finish finish finish finish colliding (thread 1 ∷ pool ∷ thread 2 ∷ stops ∷ [])
      refl refl

abbrev verbose_remote : Options
verbose_remote = record { help = false; remote = true; path = true; log_level = 4 }

options-accepted_example :
    ((check_options 5 (parsed verbose_remote) ≡ serves_remote 1)
      ↔ ((false ≡ false) × (true ≡ true) × (true ≡ true) × (4 + 1 ≡ 5)))
    × ((check_options 5 (parsed verbose_remote) ≡ serves_master 1)
        ↔ ((false ≡ false) × (true ≡ true) × (true ≡ false) × (4 + 1 ≡ 5)))
options-accepted_example = options-accepted 5 1 verbose_remote refl
