-- ===== src/Pool/Safety.antt =====
-- The pool's thread (src/RunnablePool.cpp) never uses a null or deleted pointer.
pub mod Pointers
use modem_tester.Common.{
  ℕ, suc, ◌+◌, ◌≤◌, ◌<◌, ◌==◌, if◌then◌else◌, ◌≡◌, ◌≢◌, refl, subst, sym, ap, Bool, true, false,
  List, [], ◌∷◌, ◌++◌, Option, none, some, arith, All, Bool-cases, inl, inr, ◌⊎◌,
}
use modem_tester.Pool.{
  Body, finish, work, add, wait, Life, fresh, begun, working, over, gone, Place, testing, locking,
  collecting, sleeping, finished, System, Turned, moved, waits, faults, Turn, pool, thread, stops,
  turn, thread_at, pool_at, set_life, add_and_start, keep, run, create, is_locked, remove_null,
  join,
}
use modem_tester.Pool.Safety.Pointers.{
  WaitsBelow, BodyBelow, is_live, Live, Waiting, IsSafe, Live-update, Live-below, Live-append,
  Live-weaken, All-none_remove, All-none_append,
}

join_live : (l : Life) (go : Turned) → is_live l ≡ true → (join l go ≡ waits) ⊎ (join l go ≡ go)
join_live (begun b) go e = inl refl
join_live (working b) go e = inl refl
join_live over go e = inr refl
join_live fresh go e = cc
join_live gone go e = cc

module _ (n : ℕ) where
  -- A thread outside the pool's gets on: its object stays alive.
  set_life-Waiting :
      (i : ℕ) (l : Life) (s : System) (p : Place)
      → is_live l ≡ true
      → Waiting n s p
      → Waiting n (set_life i l s) p
  set_life-Waiting i l s (collecting v ps) e h = (h.0, Live-update s.life i l n s.next ps e h.1)
  set_life-Waiting i l s testing e h = Live-update s.life i l n s.next s.runnables e h
  set_life-Waiting i l s locking e h = Live-update s.life i l n s.next s.runnables e h
  set_life-Waiting i l s sleeping e h = Live-update s.life i l n s.next s.runnables e h
  set_life-Waiting i l s finished e h = Live-update s.life i l n s.next s.runnables e h

  delete-Waiting :
      (i : ℕ) (l : Life) (s : System) (p : Place)
      → i < n
      → Waiting n s p
      → Waiting n (set_life i l s) p
  delete-Waiting i l s (collecting v ps) e h = (h.0, Live-below s.life i l n s.next ps e h.1)
  delete-Waiting i l s testing e h = Live-below s.life i l n s.next s.runnables e h
  delete-Waiting i l s locking e h = Live-below s.life i l n s.next s.runnables e h
  delete-Waiting i l s sleeping e h = Live-below s.life i l n s.next s.runnables e h
  delete-Waiting i l s finished e h = Live-below s.life i l n s.next s.runnables e h

  add-Waiting :
      (b : Body) (s : System) (p : Place)
      → is_locked p ≡ false
      → Waiting n s p
      → Waiting n (add_and_start b s) p
  add-Waiting b s (collecting v ps) e h = cc
  add-Waiting b s testing e h = Live-append s.life n s.next s.runnables b h
  add-Waiting b s locking e h = Live-append s.life n s.next s.runnables b h
  add-Waiting b s sleeping e h = Live-append s.life n s.next s.runnables b h
  add-Waiting b s finished e h = Live-append s.life n s.next s.runnables b h

  set_life-IsSafe :
      (i : ℕ) (l : Life) (s : System)
      → is_live l ≡ true
      → BodyBelow n l
      → IsSafe n s
      → IsSafe n (set_life i l s)
  set_life-IsSafe i l s e b h = record {
    waiting = set_life-Waiting i l s s.place e h.waiting;
    bodies = λ j. ground (arith, h.bodies j);
  }

  delete-IsSafe : (i : ℕ) (s : System) → i < n → IsSafe n s → IsSafe n (set_life i gone s)
  delete-IsSafe i s e h = record {
    waiting = delete-Waiting i gone s s.place e h.waiting;
    bodies = λ j. ground (arith, h.bodies j);
  }

  add-IsSafe :
      (b : Body) (s : System)
      → is_locked s.place ≡ false
      → WaitsBelow n b
      → IsSafe n s
      → IsSafe n (add_and_start b s)
  add-IsSafe b s e w h = record {
    waiting = add-Waiting b s s.place e h.waiting;
    bodies = λ j. ground (arith, h.bodies j);
  }

  thread-IsSafe :
      (l : Life) (i : ℕ) (s : System)
      → s.life i ≡ l
      → IsSafe n s
      → IsSafe n (keep s (thread_at l i s))
  unfolding thread_at
  thread-IsSafe (begun b) i s e h =
      set_life-IsSafe i (working b) s refl (ground (arith, h.bodies i)) h
  thread-IsSafe (working finish) i s e h = set_life-IsSafe i over s refl tt h
  thread-IsSafe (working (work b)) i s e h =
      set_life-IsSafe i (working b) s refl (ground (arith, h.bodies i)) h
  thread-IsSafe (working (add a b)) i s e h = elim (Bool-cases (is_locked s.place)) [
    | inl held ↦ rw held h
    | inr free ↦
        let w : WaitsBelow n a × WaitsBelow n b = ground (arith, h.bodies i) in
        rw free (
          add-IsSafe a (set_life i (working b) s) free w.0
            (set_life-IsSafe i (working b) s refl w.1 h))
  ]
  thread-IsSafe (working (wait j b)) i s e h =
      let w : (j < n) × WaitsBelow n b = ground (arith, h.bodies i) in
      let after =
        delete-IsSafe j (set_life i (working b) s) w.0
          (set_life-IsSafe i (working b) s refl w.1 h) in
      ground (arith, after)
  thread-IsSafe fresh i s e h = h
  thread-IsSafe over i s e h = h
  thread-IsSafe gone i s e h = h

  with_place-IsSafe :
      (p : Place) (s : System) → Waiting n s p → IsSafe n s → IsSafe n (record s { place = p })
  with_place-IsSafe p s w h = record { waiting = moves p w; bodies = h.bodies }
    where
      moves : (q : Place) → Waiting n s q → Waiting n (record s { place = p }) q
      moves testing w = w
      moves locking w = w
      moves (collecting v ps) w = w
      moves sleeping w = w
      moves finished w = w

  collected-IsSafe :
      (visited rest : List (Option ℕ)) (r : ℕ) (s : System)
      → Waiting n s (collecting visited (some r ∷ rest))
      → IsSafe n s
      → IsSafe n (record (set_life r gone s) { place = collecting (visited ++ none ∷ []) rest })
  collected-IsSafe visited rest r s w h = record {
    waiting = (
      All-none_append visited w.0,
      Live-weaken _ n (suc r) s.next rest (omega (arith, w.1.0))
          (Live-below s.life r gone (suc r) s.next rest (omega arith) w.1.3),
    );
    bodies = λ j. ground (arith, h.bodies j);
  }

  -- The pool's own turn: it is safe, and it does not use a null or deleted pointer.
  pool-IsSafe :
      (p : Place) (s : System)
      → Waiting n s p
      → IsSafe n s
      → IsSafe n (keep s (pool_at p s)) × (pool_at p s ≢ faults)
  unfolding pool_at
  pool-IsSafe testing s w h = (tested s.stop_requested, λ f. cc)
    where
      tested : (b : Bool) → IsSafe n (record s { place = if b then finished else locking })
      tested true = with_place-IsSafe finished s w h
      tested false = with_place-IsSafe locking s w h
  pool-IsSafe locking s w h = (with_place-IsSafe (collecting [] s.runnables) s (tt, w) h, λ f. cc)
  pool-IsSafe (collecting visited []) s w h =
      (rw (All-none_remove visited w.0) (record { waiting = w.1; bodies = h.bodies }), λ f. cc)
  pool-IsSafe (collecting visited (none ∷ rest)) s w h = absurd w.1
  pool-IsSafe (collecting visited (some r ∷ rest)) s w h =
      elim (join_live (s.life r)
        (moved (record (set_life r gone s) { place = collecting (visited ++ none ∷ []) rest }))
        w.1.2) [
          | inl e ↦ (rw e h, λ f. cc)
          | inr e ↦ (rw e (collected-IsSafe visited rest r s w h), λ f. cc)
        ]
  pool-IsSafe sleeping s w h = (with_place-IsSafe testing s w h, λ f. cc)
  pool-IsSafe finished s w h = (h, λ f. cc)

  turn-IsSafe : (t : Turn) (s : System) → IsSafe n s → IsSafe n (keep s (turn t s))
  unfolding turn
  turn-IsSafe pool s h = (pool-IsSafe s.place s h.waiting h).0
  turn-IsSafe (thread i) s h = thread-IsSafe (s.life i) i s refl h
  turn-IsSafe stops s h = record { waiting = stopped s.place h.waiting; bodies = h.bodies }
    where
      stopped : (p : Place) → Waiting n s p → Waiting n (record s { stop_requested = true }) p
      stopped testing w = w
      stopped locking w = w
      stopped (collecting v ps) w = w
      stopped sleeping w = w
      stopped finished w = w

  run-IsSafe : (ts : List Turn) (s : System) → IsSafe n s → IsSafe n (run ts s)
  unfolding run
  run-IsSafe [] s h = h
  run-IsSafe (t ∷ ts) s h = run-IsSafe ts (keep s (turn t s)) (turn-IsSafe t s h)

  create-IsSafe : (body : ℕ → Body) → ((i : ℕ) → WaitsBelow n (body i)) → IsSafe n (create n body)
  create-IsSafe body b = record { waiting = omega arith; bodies = λ i. ground (arith, b i) }

  emptied :
      (s : System) (visited : List (Option ℕ))
      → IsSafe n s
      → s.place ≡ collecting visited []
      → pool_at s.place s ≡ moved (record s { runnables = []; place = sleeping })
  unfolding pool_at
  emptied s visited h e =
      let w : Waiting n s (collecting visited []) = subst (Waiting n s) e h.waiting in
      subst (λ p. pool_at p s ≡ moved (record s { runnables = []; place = sleeping })) (sym e)
        (ap (λ ps. moved (record s { runnables = ps; place = sleeping }))
          (All-none_remove visited w.0))

  -- Other threads, numbered below n, run before the pool is made; no body, also of an object that is
  -- made later, deletes an object but one of these. Then in every schedule of all the threads, and
  -- of a stop of the pool, the pool's next step does not use a null or deleted pointer.
  pub pool-never_faults :
      (body : ℕ → Body) (ts : List Turn)
      → ((i : ℕ) → WaitsBelow n (body i))
      → turn pool (run ts (create n body)) ≢ faults
  unfolding turn
  pool-never_faults body ts b =
      let s = run ts (create n body) in
      let h : IsSafe n s = run-IsSafe ts (create n body) (create-IsSafe body b) in
      (pool-IsSafe s.place s h.waiting h).1

  -- Under the same conditions, where the pool has come to the end of its loop over the vector, its
  -- next step frees the lock and leaves the vector empty.
  pub pool-empties :
      (body : ℕ → Body) (ts : List Turn) (visited : List (Option ℕ))
      → ((i : ℕ) → WaitsBelow n (body i))
      → (run ts (create n body)).place ≡ collecting visited []
      → turn pool (run ts (create n body))
        ≡ moved (record (run ts (create n body)) { runnables = []; place = sleeping })
  unfolding turn
  pool-empties body ts visited b e =
      emptied (run ts (create n body)) visited
        (run-IsSafe ts (create n body) (create-IsSafe body b)) e
