-- ===== src/Pool/Progress.antt =====
-- The pool's loop (src/RunnablePool.cpp) ends when the runnables need nothing from other threads.
use modem_tester.Common.{
  ℕ, suc, ◌≤◌, ◌<◌, ◌≡◌, refl, ◌==◌, false, List, [], ◌∷◌, ◌++◌, Option, none, some, arith, All,
  replicate, subst, sym, ap, ◌∙◌,
}
use modem_tester.Pool.Safety.Pointers.{All-none_remove, All-none_append}
use modem_tester.Pool.{
  Body, finish, work, add, wait, Life, fresh, begun, working, over, gone, locking, collecting,
  sleeping, System, moved, Turn, pool, thread, turn, thread_at, pool_at, set_life, keep, run, join,
}

-- The body neither adds nor deletes: it ends by itself.
abbrev pub IsPlain : Body → Type 0
IsPlain finish = Unit
IsPlain (work b) = IsPlain b
IsPlain (add a b) = ⊥
IsPlain (wait j b) = ⊥

abbrev pub LifeIsPlain : Life → Type 0
LifeIsPlain (begun b) = IsPlain b
LifeIsPlain (working b) = IsPlain b
LifeIsPlain over = Unit
LifeIsPlain _ = ⊥

-- The turns that a thread needs, at most.
abbrev steps : Body → ℕ
steps finish = 1
steps (work b) = suc (steps b)
steps (add a b) = 0
steps (wait j b) = 0

abbrev life_steps : Life → ℕ
life_steps (begun b) = suc (steps b)
life_steps (working b) = steps b
life_steps _ = 0

run-append : (xs ys : List Turn) (s : System) → run (xs ++ ys) s ≡ run ys (run xs s)
unfolding run
run-append [] ys s = refl
run-append (t ∷ xs) ys s = run-append xs ys (keep s (turn t s))

-- The same system, but that object i is over.
record Ended (i : ℕ) (s t : System) : Type 0 where
  place : t.place ≡ s.place
  ended : t.life i ≡ over
  others : (j : ℕ) → (j == i) ≡ false → t.life j ≡ s.life j

run-thread :
    (i : ℕ) (l : Life) (ts : List Turn) (s : System)
    → s.life i ≡ l
    → run (thread i ∷ ts) s ≡ run ts (keep s (thread_at l i s))
unfolding run
run-thread i l ts s e = ap (λ k. run ts (keep s (thread_at k i s))) e

module _ (i : ℕ) where
  working-Ended :
      (b : Body) (s : System)
      → IsPlain b
      → s.life i ≡ working b
      → Ended i s (run (replicate (steps b) (thread i)) s)
  unfolding run thread_at
  working-Ended finish s p e =
      rw (run-thread i (working finish) [] s e)
        (record { place = refl; ended = ground arith; others = λ j n. ground arith })
  working-Ended (work b) s p e =
      let h = working-Ended b (set_life i (working b) s) p (ground arith) in
      rw (run-thread i (working (work b)) (replicate (steps b) (thread i)) s e)
        (record { place = h.place; ended = h.ended; others = λ j n. ground (arith, h.others j) })
  working-Ended (add a b) s p e = absurd p
  working-Ended (wait k b) s p e = absurd p

  life-Ended :
      (l : Life) (s : System)
      → LifeIsPlain l
      → s.life i ≡ l
      → Ended i s (run (replicate (life_steps l) (thread i)) s)
  unfolding run thread_at
  life-Ended (begun b) s p e =
      let h = working-Ended b (set_life i (working b) s) p (ground arith) in
      rw (run-thread i (begun b) (replicate (steps b) (thread i)) s e)
        (record { place = h.place; ended = h.ended; others = λ j n. ground (arith, h.others j) })
  life-Ended (working b) s p e = working-Ended b s p e
  life-Ended over s p e = record { place = refl; ended = e; others = λ j n. refl }
  life-Ended fresh s p e = absurd p
  life-Ended gone s p e = absurd p

-- Different objects from lo on that end by themselves, and the turns that they and the pool take.
abbrev pub Plain : (ℕ → Life) → ℕ → List (Option ℕ) → Type 0
Plain life lo [] = Unit
Plain life lo (none ∷ l) = ⊥
Plain life lo (some r ∷ l) = (lo ≤ r) × LifeIsPlain (life r) × Plain life (suc r) l

pub collecting_turns : (ℕ → Life) → List (Option ℕ) → List Turn
collecting_turns life [] = pool ∷ []
collecting_turns life (none ∷ l) = []
collecting_turns life (some r ∷ l) =
    replicate (life_steps (life r)) (thread r) ++ pool ∷ collecting_turns life l

-- Only the lives from lo on matter.
module _ (f g : ℕ → Life) where
  Plain-ext :
      (lo : ℕ) (l : List (Option ℕ))
      → ((j : ℕ) → lo ≤ j → g j ≡ f j)
      → Plain f lo l
      → Plain g lo l × (collecting_turns g l ≡ collecting_turns f l)
  unfolding collecting_turns
  Plain-ext lo [] e p = (tt, refl)
  Plain-ext lo (none ∷ l) e p = absurd p
  Plain-ext lo (some r ∷ l) e p =
      let (q, same) = Plain-ext (suc r) l (λ j h. e j (omega (arith, p.0))) p.2 in
      let here : g r ≡ f r = e r p.0 in
      ((p.0, subst LifeIsPlain (sym here) p.1, q), rw (here, same))

abbrev pub IsDeleted : (ℕ → Life) → Option ℕ → Type 0
IsDeleted life none = Unit
IsDeleted life (some r) = life r ≡ gone

pub record Collected (lo : ℕ) (l : List (Option ℕ)) (s t : System) : Type 0 where
  pub place : t.place ≡ sleeping
  pub empty : t.runnables ≡ []
  pub deleted : All (IsDeleted t.life) l
  pub below : (j : ℕ) → j < lo → t.life j ≡ s.life j

pool-joins :
    (visited rest : List (Option ℕ)) (r : ℕ) (ts : List Turn) (s : System)
    → s.place ≡ collecting visited (some r ∷ rest)
    → s.life r ≡ over
    → run (pool ∷ ts) s
      ≡ run ts (record (set_life r gone s) { place = collecting (visited ++ none ∷ []) rest })
unfolding run pool_at
pool-joins visited rest r ts s e o =
    subst
      (λ p.
        run ts (keep s (pool_at p s))
        ≡ run ts (record (set_life r gone s) { place = collecting (visited ++ none ∷ []) rest }))
      (sym e)
      (ap
        (λ l. run ts (
          keep s (
            join l (
              moved
                (record (set_life r gone s) { place = collecting (visited ++ none ∷ []) rest })))))
        o)

pool-ends :
    (visited : List (Option ℕ)) (s : System)
    → All (λ p. p ≡ none) visited
    → s.place ≡ collecting visited []
    → run (pool ∷ []) s ≡ record s { runnables = []; place = sleeping }
unfolding run pool_at
pool-ends visited s v e =
    subst (λ p. keep s (pool_at p s) ≡ record s { runnables = []; place = sleeping }) (sym e)
      (ap (λ ps. record s { runnables = ps; place = sleeping }) (All-none_remove visited v))

collecting-Collected :
    (rest visited : List (Option ℕ)) (lo : ℕ) (s : System)
    → s.place ≡ collecting visited rest
    → All (λ p. p ≡ none) visited
    → Plain s.life lo rest
    → Collected lo rest s (run (collecting_turns s.life rest) s)
unfolding collecting_turns
collecting-Collected [] visited lo s e v p =
    rw (pool-ends visited s v e)
      (record { place = refl; empty = refl; deleted = tt; below = λ j h. refl })
collecting-Collected (none ∷ rest) visited lo s e v p = absurd p
collecting-Collected (some r ∷ rest) visited lo s e v p =
    let u : System = run (replicate (life_steps (s.life r)) (thread r)) s in
    let ended : Ended r s u = life-Ended r (s.life r) s p.1 refl in
    let w : System = record (set_life r gone u) {
      place = collecting (visited ++ none ∷ []) rest;
    } in
    let (plain, turns) =
      Plain-ext s.life w.life (suc r) rest (λ j lt. ground (arith, ended.others j)) p.2 in
    let h =
      collecting-Collected rest (visited ++ none ∷ []) (suc r) w refl (All-none_append visited v)
        plain in
    rw
      (
        run-append (replicate (life_steps (s.life r)) (thread r))
            (pool ∷ collecting_turns s.life rest) s,
        pool-joins visited rest r (collecting_turns s.life rest) u (ended.place ∙ e) ended.ended,
        ← turns,
      )
      (record {
        place = h.place;
        empty = h.empty;
        deleted = (ground (arith, h.below r), h.deleted);
        below = λ j lt. ground (arith, h.below j, ended.others j);
      })

-- When the pool is about to take its lock, and the runnables in it are different objects that end by
-- themselves, the turns of their threads, as many as they need, and of the pool's lead to the pool
-- asleep, with an empty vector and every one of them joined and deleted.
pub pool-collects :
    (s : System)
    → s.place ≡ locking
    → Plain s.life 0 s.runnables
    → let t = run (pool ∷ collecting_turns s.life s.runnables) s in
      (t.place ≡ sleeping) × (t.runnables ≡ []) × All (IsDeleted t.life) s.runnables
unfolding run pool_at
pool-collects s e p =
    let s' : System = record s { place = collecting [] s.runnables } in
    let c = collecting-Collected s.runnables [] 0 s' refl tt p in
    let ts = collecting_turns s.life s.runnables in
    let locks : run (pool ∷ ts) s ≡ run ts s' =
      subst (λ q. run ts (keep s (pool_at q s)) ≡ run ts s') (sym e) refl in
    rw locks (c.place, c.empty, c.deleted)
