-- ===== src/Main/Join.antt =====
-- The loop of the thread that main joins in the master's role (src/main.cpp).
use mathlib.Core.Logic.Or
use mathlib.Core.List.{
  Mem, Mem-prop, not-mem-nil, mem-cons_self, mem-append_right, eq-or-mem_of_mem-cons,
}
use mathlib.Core.List.Perm.{mem_iff}
use modem_tester.Common.{ℕ, ◌≡◌, refl, List, [], ◌∷◌, ◌++◌, map, some}
use modem_tester.Main.{
  Work, timer_wait, other, handle, IoService, complete, run_one, run_boost_main_loop,
}

-- A wait of main's timer is among the pending operations.
abbrev pub HasTimer : List Work → Type 0
HasTimer = Mem timer_wait

timer_wait-other : (n : ℕ) (work : List Work) → HasTimer (other n ∷ work) → HasTimer work
timer_wait-other n work h =
    Or.elim (Mem-prop {a = timer_wait} {l = work}) (eq-or-mem_of_mem-cons h) (λ e. absurd (cc e))
      (λ m. m)

module _ (io : IoService) (starts : ℕ → List ℕ) where
  complete-HasTimer :
      (ec : ℕ) (w : Work) (rest : List Work)
      → HasTimer (w ∷ rest)
      → HasTimer (complete io starts ec w rest)
  unfolding handle
  complete-HasTimer ec timer_wait rest h = mem-cons_self
  complete-HasTimer ec (other n) rest h =
      mem-append_right (map other (starts n)) (timer_wait-other n rest h)

  run_one-HasTimer :
      (i ec : ℕ) (work : List Work)
      → HasTimer work
      → (left : List Work) × (run_one io starts i ec work ≡ (left, 1)) × HasTimer left
  unfolding run_one
  run_one-HasTimer i ec [] h = absurd (not-mem-nil h)
  run_one-HasTimer i ec (w ∷ work) h = (
    complete io starts ec (io.completes i w work).0 (io.completes i w work).1,
    refl,
    complete-HasTimer ec (io.completes i w work).0 (io.completes i w work).1
        ((mem_iff (io.completes_lem i w work)).1 h),
  )

  loop-HasTimer :
      (rounds : List (List ℕ × ℕ × ℕ)) (work : List Work)
      → HasTimer work
      → (left : List Work) × (run_boost_main_loop io starts 1 rounds work ≡ some left)
        × HasTimer left
  unfolding run_boost_main_loop
  loop-HasTimer [] work h = (work, refl, h)
  loop-HasTimer ((more, i, ec) ∷ rounds) work h =
      let (next, e, k) =
        run_one-HasTimer i ec (map other more ++ work) (mem-append_right (map other more) h) in
      rw (e, run_boost_main_loop) (loop-HasTimer rounds next k)

  -- From where main starts its timer, with any other operations pending, whatever operation completes
  -- in each round, with any error code, whatever the handlers and the other threads start: after any
  -- number of rounds the loop of the thread that main joins has not ended, and main's timer waits
  -- again.
  pub main-never_joins :
      (rounds : List (List ℕ × ℕ × ℕ)) (ns : List ℕ)
      → (left : List Work) × (run_boost_main_loop io starts 1 rounds (timer_wait ∷ map other ns)
          ≡ some left)
        × HasTimer left
  main-never_joins rounds ns = loop-HasTimer rounds (timer_wait ∷ map other ns) mem-cons_self
