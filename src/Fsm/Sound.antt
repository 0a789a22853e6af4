-- ===== src/Fsm/Sound.antt =====
-- What the base classes of src/BaseFSM.h keep about the pointers of the state objects and the
-- pending read. `k` is the value of a state's enumerator.
use modem_tester.Common.{
  ℕ, ◌==◌, ◌≡◌, refl, Bool, true, false, if◌then◌else◌, ◌&&◌, ◌⊎◌, inl, inr, List, [], ◌∷◌, arith,
  Bool-cases,
}
use modem_tester.Fsm.World.{World, Effect, stop_runnable, emit, update, Result, Holds, >>=-Holds}
use modem_tester.Fsm.Base.{
  send_byte, entry, exit, start_timer, cancel_timer_of, timer_entry, timer_exit, activity_entry,
  activity_exit,
}

-- While the state k is current: a timer belongs to it, and only if it is a TimerBasedState; it has
-- an activity exactly if it is an ActivityState; an activity's factory exists; and at most one read
-- is pending, its own.
pub record IsSound (k : ℕ) (timed active : Bool) (w : World) : Type 0 where
  pub stream : w.io_stream ≡ true
  pub timers : (j : ℕ) → w.timer j ≡ true → (j == k && timed) ≡ true
  pub runnables : (j : ℕ) → w.runnable j ≡ (j == k && active)
  pub factories : (j : ℕ) → w.runnable j ≡ true → w.factory j ≡ true
  pub reads : (w.reads ≡ []) ⊎ (w.reads ≡ k ∷ [])

-- Between the exit of one state and the entry of the state k.
pub record IsOpening (k : ℕ) (w : World) : Type 0 where
  pub stream : w.io_stream ≡ true
  pub timers : (j : ℕ) → w.timer j ≡ true → (j == k) ≡ true
  pub runnables : (j : ℕ) → w.runnable j ≡ false
  pub reads : w.reads ≡ []

-- After the exit of a state.
pub record IsLeft (w : World) : Type 0 where
  pub stream : w.io_stream ≡ true
  pub timers : (j : ℕ) → w.timer j ≡ false
  pub runnables : (j : ℕ) → w.runnable j ≡ false
  pub reads : w.reads ≡ []

record IsClear (w : World) : Type 0 where
  stream : w.io_stream ≡ true
  timers : (j : ℕ) → w.timer j ≡ false
  runnables : (j : ℕ) → w.runnable j ≡ false

pub when :
    {A : Type 0} (P : A → Type 0) (b : Bool) (x y : Result A)
    → b ≡ true
    → Holds P x
    → Holds P (if b then x else y)
when P b x y e h = rw e h

pub unless :
    {A : Type 0} (P : A → Type 0) (b : Bool) (x y : Result A)
    → b ≡ false
    → Holds P y
    → Holds P (if b then x else y)
unless P b x y e h = rw e h

module _ (k : ℕ) where
  pub send_byte-IsOpening :
      (b : ℕ) (w : World) → IsOpening k w → Holds (IsOpening k) (send_byte b w)
  unfolding send_byte
  send_byte-IsOpening b w o =
      when _ _ _ _ o.stream
        (record { stream = o.stream; timers = o.timers; runnables = o.runnables; reads = o.reads })

  pub send_byte-IsLeft : (b : ℕ) (w : World) → IsLeft w → Holds IsLeft (send_byte b w)
  unfolding send_byte
  send_byte-IsLeft b w l =
      when _ _ _ _ l.stream
        (record { stream = l.stream; timers = l.timers; runnables = l.runnables; reads = l.reads })

  pub with_factory-IsLeft :
      (f : ℕ → Bool) (w : World) → IsLeft w → IsLeft (record w { factory = f })
  with_factory-IsLeft f w l = record {
    stream = l.stream;
    timers = l.timers;
    runnables = l.runnables;
    reads = l.reads;
  }

  pub start_timer-IsOpening :
      (d : ℕ) (w : World) → IsOpening k w → Holds (IsOpening k) (start_timer k d w)
  unfolding start_timer
  start_timer-IsOpening d w o = elim (Bool-cases (w.timer k)) [
    | inl e ↦ when _ _ _ _ e o
    | inr e ↦ unless _ _ _ _ e (
        when _ _ _ _ o.stream (record {
          stream = o.stream;
          timers = λ j h. ground (arith, o.timers j);
          runnables = o.runnables;
          reads = o.reads;
        }))
  ]

  pub IsLeft-IsOpening : (w : World) → IsLeft w → IsOpening k w
  IsLeft-IsOpening w l = record {
    stream = l.stream;
    timers = λ j h. cc (l.timers j);
    runnables = l.runnables;
    reads = l.reads;
  }

  -- The three kinds of entry.
  pub entry-IsSound : (w : World) → IsLeft w → Holds (IsSound k false false) (entry k w)
  unfolding entry
  entry-IsSound w l = when _ _ _ _ l.stream (record {
    stream = l.stream;
    timers = λ j h. cc (l.timers j);
    runnables = λ j. ground (arith, l.runnables j);
    factories = λ j h. cc (l.runnables j);
    reads = inr (ground (arith, l.reads));
  })

  record IsTimed (w : World) : Type 0 where
    stream : w.io_stream ≡ true
    timers : (j : ℕ) → w.timer j ≡ true → (j == k) ≡ true
    runnables : (j : ℕ) → w.runnable j ≡ false
    reads : w.reads ≡ k ∷ []

  entry-IsTimed : (w : World) → IsOpening k w → Holds IsTimed (entry k w)
  unfolding entry
  entry-IsTimed w o = when _ _ _ _ o.stream (record {
    stream = o.stream;
    timers = o.timers;
    runnables = o.runnables;
    reads = ground (arith, o.reads);
  })

  start_timer-IsSound :
      (d : ℕ) (w : World) → IsTimed w → Holds (IsSound k true false) (start_timer k d w)
  unfolding start_timer
  start_timer-IsSound d w o = elim (Bool-cases (w.timer k)) [
    | inl e ↦ when _ _ _ _ e (record {
      stream = o.stream;
      timers = λ j h. ground (arith, o.timers j);
      runnables = λ j. ground (arith, o.runnables j);
      factories = λ j h. cc (o.runnables j);
      reads = inr o.reads;
    })
    | inr e ↦ unless _ _ _ _ e (
        when _ _ _ _ o.stream (record {
          stream = o.stream;
          timers = λ j h. ground (arith, o.timers j);
          runnables = λ j. ground (arith, o.runnables j);
          factories = λ j h. cc (o.runnables j);
          reads = inr o.reads;
        }))
  ]

  pub timer_entry-IsSound :
      (w : World) → IsOpening k w → Holds (IsSound k true false) (timer_entry k w)
  unfolding timer_entry
  timer_entry-IsSound w o =
      >>=-Holds IsTimed (IsSound k true false) (entry k w) _ (entry-IsTimed w o)
        (λ v t. start_timer-IsSound v.timeout v t)

  pub activity_entry-IsSound :
      (w : World)
      → IsLeft w
      → w.factory k ≡ true
      → Holds (IsSound k false true) (activity_entry k w)
  unfolding activity_entry
  activity_entry-IsSound w l f = unless _ _ _ _ (l.runnables k) (
      when _ _ _ _ f (
        when _ _ _ _ l.stream (record {
          stream = l.stream;
          timers = λ j h. cc (l.timers j);
          runnables = λ j. ground (arith, l.runnables j);
          factories = λ j h. ground (arith, l.runnables j);
          reads = inr (ground (arith, l.reads));
        })))

  -- The three kinds of exit.
  exit-IsClear : (w : World) → IsClear w → Holds IsLeft (exit k w)
  unfolding exit
  exit-IsClear w c =
      when _ _ _ _ c.stream
        (record { stream = c.stream; timers = c.timers; runnables = c.runnables; reads = refl })

  pub exit-IsLeft : (w : World) → IsSound k false false w → Holds IsLeft (exit k w)
  exit-IsLeft w s = exit-IsClear w (record {
    stream = s.stream;
    timers = λ j. ground (arith, s.timers j);
    runnables = λ j. ground (arith, s.runnables j);
  })

  cancel_timer_of-IsClear : (w : World) → IsSound k true false w → IsClear (cancel_timer_of k w)
  unfolding cancel_timer_of
  cancel_timer_of-IsClear w s = record {
    stream = ground (arith, s.stream);
    timers = λ j. ground (arith, s.timers j);
    runnables = λ j. ground (arith, s.runnables j);
  }

  pub timer_exit-IsLeft : (w : World) → IsSound k true false w → Holds IsLeft (timer_exit k w)
  unfolding timer_exit
  timer_exit-IsLeft w s = exit-IsClear (cancel_timer_of k w) (cancel_timer_of-IsClear w s)

  pub activity_exit-IsLeft : (w : World) → IsSound k false true w → Holds IsLeft (activity_exit k w)
  unfolding activity_exit
  activity_exit-IsLeft w s =
      let running : w.runnable k ≡ true = ground (arith, s.runnables k) in
      when _ _ _ _ running (
        exit-IsClear (emit (stop_runnable k) (record w { runnable = update w.runnable k false }))
          (record {
            stream = s.stream;
            timers = λ j. ground (arith, s.timers j);
            runnables = λ j. ground (arith, s.runnables j);
          }))

-- A read that is taken and a timer that is deleted leave the state sound.
module _ {k : ℕ} {timed active : Bool} {w : World} (s : IsSound k timed active w) where
  pub send_byte-IsSound : (b : ℕ) → Holds (IsSound k timed active) (send_byte b w)
  unfolding send_byte
  send_byte-IsSound b = when _ _ _ _ s.stream (record {
    stream = s.stream;
    timers = s.timers;
    runnables = s.runnables;
    factories = s.factories;
    reads = s.reads;
  })

  pub trace-IsSound : (t : List Effect) → IsSound k timed active (record w { trace = t })
  trace-IsSound t = record {
    stream = s.stream;
    timers = s.timers;
    runnables = s.runnables;
    factories = s.factories;
    reads = s.reads;
  }

  pub drop_read-IsSound :
      (j : ℕ) (rest : List ℕ)
      → w.reads ≡ j ∷ rest
      → IsSound k timed active (record w { reads = rest })
  drop_read-IsSound j rest e = record {
    stream = s.stream;
    timers = s.timers;
    runnables = s.runnables;
    factories = s.factories;
    reads = inl (ground (arith, s.reads));
  }

  pub drop_timer-IsSound :
      (j : ℕ) → IsSound k timed active (record w { timer = update w.timer j false })
  drop_timer-IsSound j = record {
    stream = s.stream;
    timers = λ i h. ground (arith, s.timers i);
    runnables = s.runnables;
    factories = s.factories;
    reads = s.reads;
  }
