-- ===== src/Pool/Deadlock.antt =====
-- A circular wait of the pool (src/RunnablePool.cpp), a state machine's exit from a mode and the end
-- of the throughput test (src/master/MasterThroughput.cpp), which adds its last dispatch to the pool.
use modem_tester.Common.{ℕ, ◌≡◌, refl, List, [], ◌∷◌, Option, some, arith}
use modem_tester.Pool.{
  Body, add, wait, Life, working, collecting, System, Turn, pool, thread, stops, turn, thread_at,
  keep, run, create,
}

-- The pool holds _mut and joins the runnable d, which waits for the end of a, which waits for _mut.
pub record IsStuck (visited rest : List (Option ℕ)) (d a : ℕ) (after last tail : Body) (s : System)
    : Type 0 where
  pub collects : s.place ≡ collecting visited (some d ∷ rest)
  pub dispatches : s.life d ≡ working (wait a after)
  pub adds : s.life a ≡ working (add last tail)

module _ (visited rest : List (Option ℕ)) (d a : ℕ) (after last tail : Body) where
  abbrev Stuck : System → Type 0
  Stuck = IsStuck visited rest d a after last tail

  thread-IsStuck :
      (l : Life) (i : ℕ) (s : System) → s.life i ≡ l → Stuck s → Stuck (keep s (thread_at l i s))
  unfolding thread_at
  thread-IsStuck (working (add x y)) i s e h = ground arith
  thread-IsStuck (working (wait j y)) i s e h = ground arith
  thread-IsStuck l i s e h = ground arith

  turn-IsStuck : (t : Turn) (s : System) → Stuck s → Stuck (keep s (turn t s))
  unfolding turn
  turn-IsStuck pool s h = ground arith
  turn-IsStuck (thread i) s h = thread-IsStuck (s.life i) i s refl h
  turn-IsStuck stops s h = ground arith

  run-IsStuck : (ts : List Turn) (s : System) → Stuck s → Stuck (run ts s)
  unfolding run
  run-IsStuck [] s h = h
  run-IsStuck (t ∷ ts) s h = run-IsStuck ts (keep s (turn t s)) (turn-IsStuck t s h)

-- Thread 0 begins and adds object 2, threads 1 and 2 begin, and the pool takes its lock.
abbrev pub unlucky : List Turn
unlucky = thread 0 ∷ thread 0 ∷ thread 1 ∷ thread 2 ∷ pool ∷ pool ∷ []

-- Thread 0 adds to the pool a runnable that stops thread 1, an activity which at its end adds a
-- runnable to the pool. There is a schedule after which, whatever turns follow, the pool holds its
-- lock and waits for the runnable, the runnable waits for the activity, and the activity waits for
-- the lock.
pub pool-deadlock :
    (after main last tail : Body) (body : ℕ → Body) (ts : List Turn)
    → body 0 ≡ add (wait 1 after) main
    → body 1 ≡ add last tail
    → IsStuck [] [] 2 1 after last tail (run ts (run unlucky (create 2 body)))
unfolding run
pool-deadlock after main last tail body ts e0 e1 =
    run-IsStuck [] [] 2 1 after last tail ts (run unlucky (create 2 body)) stuck
  where
    stuck : IsStuck [] [] 2 1 after last tail (run unlucky (create 2 body))
    stuck = rw (e0, e1) (record { collects = refl; dispatches = refl; adds = refl })
