-- ===== src/Master/Pinger/Ends.antt =====
-- The end of the availability test of the master (src/master/MasterPinger.cpp): Runnable::stop sets
-- _stopRequested and waits for the thread, which goes on statement by statement.
use modem_tester.Common.{
  ◌==◌, ℕ, zero, suc, ◌≤◌, ◌≡◌, refl, true, List, [], ◌∷◌, ◌++◌, arith, Option-cases, Bool-cases,
  inl, inr, Bool, false, ap, ◌∙◌, ◌⊎◌, ◌+◌, subst, sym, ◌≢◌, some, none,
}
use modem_tester.SortedMap.{find}
use modem_tester.TimerPtr.{TimerPtr, null, live, freed}
use modem_tester.Reporting
use modem_tester.Reporting.{Reporting, init_reporting, end_reporting, handle_timer_report_stats}
use modem_tester.Master.Pinger.Thread.{Running, started, thread_at, report_at, act, act_all}
use modem_tester.Master.Pinger.{
  Pinger, Doubles, Phase, writing, counting, stamping, advancing, judging, resting, ending,
  finishing, finished, average_rtt, make_report, step_at, step, receive_code, handle_receive, Move,
  goes_on, receives, reports, stops,
}
use modem_tester.Master.Pinger.Counts.{receive_bytes-keeps}

-- How many statements the thread still makes once it is to stop.
abbrev statements_left : Phase → ℕ
statements_left finished = 0
statements_left finishing = 1
statements_left ending = 2
statements_left resting = 3
statements_left writing = 4
statements_left judging = 5
statements_left advancing = 6
statements_left stamping = 7
statements_left counting = 8

at_most_eight : (ph : Phase) → statements_left ph ≤ 8
at_most_eight counting = omega arith
at_most_eight ph = omega arith

none_left : (ph : Phase) → statements_left ph ≤ 0 → ph ≡ finished
none_left finished h = refl
none_left ph h = absurd (omega arith)

abbrev is_past : Phase → Bool
is_past finishing = true
is_past finished = true
is_past _ = false

-- The timer of the reports is null; or it is live until endReporting, and deleted after it.
abbrev TimerFits : TimerPtr → Bool → Type 0
TimerFits t past = (t ≡ null) ⊎ (((t ≡ live) × (past ≡ false)) ⊎ ((t ≡ freed) × (past ≡ true)))

not_past : (ph : Phase) → ph ≡ ending → is_past ph ≡ true → ⊥
not_past ph e h = let q : false ≡ true = sym (ap is_past e) ∙ h in cc

started-fits : (period : ℕ) → TimerFits (init_reporting (Reporting.create period)).timer false
unfolding init_reporting Reporting.create
started-fits zero = inl refl
started-fits (suc n) = inr (inl (ground arith, refl))

ends-null : (r : Reporting) → r.timer ≡ null → end_reporting r ≡ some r
unfolding end_reporting
ends-null r e = ground arith

ends-live : (r : Reporting) → r.timer ≡ live → end_reporting r ≡ some (record r { timer = freed })
unfolding end_reporting
ends-live r e = ground arith

due-live :
    (r : Reporting)
    → r.timer ≡ live
    → handle_timer_report_stats 0 r ≡ some (record r { timer = live; reported = r.reported + 1 })
unfolding handle_timer_report_stats
due-live r e = ground arith

module _ {D : Type 0} (fl : Doubles D) where
  -- How many of the moves are the thread's.
  unfoldable pub turns : List (Move fl) → ℕ
  turns [] = 0
  turns (goes_on now ∷ ms) = suc (turns ms)
  turns (_ ∷ ms) = turns ms

  record Stops (n : ℕ) (p : Pinger D) : Type 0 where
    asked : p.stop_requested ≡ true
    left : statements_left p.phase ≤ n

  step-Stops :
      (ph : Phase) (n now : ℕ) (p : Pinger D)
      → p.phase ≡ ph
      → Stops (suc n) p
      → Stops n (step_at fl ph now p)
  unfolding step_at
  step-Stops ph n now p e s = ground (arith, s.left)

  receive_code-Stops : (n now b : ℕ) (p : Pinger D) → Stops n p → Stops n (receive_code fl now b p)
  unfolding receive_code
  receive_code-Stops n now b p s = elim (Option-cases (find b p.send_times)) [
    | inl e ↦ rw (e, receive_code) s
    | inr (t, e) ↦ rw (e, receive_code) (record { asked = s.asked; left = s.left })
  ]

  handle_receive-Stops :
      (n now ec : ℕ) (bs : List ℕ) (p : Pinger D)
      → Stops n p
      → Stops n (handle_receive fl now ec bs p).0
  unfolding handle_receive
  handle_receive-Stops n now ec bs p s = elim (Bool-cases (ec == 0)) [
    | inl e ↦
        rw e (receive_bytes-keeps fl (Stops n) now (λ b q t. receive_code-Stops n now b q t) bs p s)
    | inr e ↦ rw e (ground (arith, s.asked, s.left))
  ]

  receive_code-phase : (now b : ℕ) (p : Pinger D) → (receive_code fl now b p).phase ≡ p.phase
  unfolding receive_code
  receive_code-phase now b p = elim (Option-cases (find b p.send_times)) [
    | inl e ↦ rw (e, receive_code) refl
    | inr (t, e) ↦ rw (e, receive_code) refl
  ]

  handle_receive-phase :
      (now ec : ℕ) (bs : List ℕ) (p : Pinger D) → (handle_receive fl now ec bs p).0.phase ≡ p.phase
  unfolding handle_receive
  handle_receive-phase now ec bs p = elim (Bool-cases (ec == 0)) [
    | inl e ↦ rw e (
        receive_bytes-keeps fl (λ q. q.phase ≡ p.phase) now
          (λ b q t. receive_code-phase now b q ∙ t) bs p refl)
    | inr e ↦ elim (Bool-cases (ec == 125)) [ inl f ↦ rw (e, f) refl | inr f ↦ rw (e, f) refl ]
  ]

  -- Among the moves there is a stop with eight of the thread's statements after it.
  Later : List (Move fl) → Type 0
  Later [] = ⊥
  Later (stops ∷ ms) = (8 ≤ turns ms) ⊎ Later ms
  Later (_ ∷ ms) = Later ms

  Later-append : (before after : List (Move fl)) → 8 ≤ turns after → Later (before ++ stops ∷ after)
  unfolding Later
  Later-append [] after h = inl h
  Later-append (stops ∷ before) after h = inr (Later-append before after h)
  Later-append (m ∷ before) after h = Later-append before after h

  -- With these moves to come.
  record Goes (ms : List (Move fl)) (s : Running D) : Type 0 where
    timer : TimerFits s.reporting.timer (is_past s.pinger.phase)
    enough : Stops (turns ms) s.pinger ⊎ Later ms

  -- The thread comes to usleep, whose argument cannot be converted.
  abbrev pub IsOverflow : Running D → Type 0
  IsOverflow s = (s.pinger.phase ≡ resting) × (fl.micros (average_rtt fl s.pinger) ≡ none)

  abbrev Enough : List (Move fl) → Pinger D → Type 0
  Enough ms p = Stops (turns ms) p ⊎ Later ms

  stepped :
      (now : ℕ) (ms : List (Move fl)) (p : Pinger D)
      → Enough (goes_on now ∷ ms) p
      → Enough ms (step fl now p)
  unfolding step turns Later
  stepped now ms p (inl s) = inl (step-Stops p.phase (turns ms) now p refl s)
  stepped now ms p (inr l) = inr l

  step-past :
      (ph : Phase) (now : ℕ) (p : Pinger D)
      → p.phase ≡ ph
      → ph ≢ ending
      → is_past (step_at fl ph now p).phase ≡ is_past p.phase
  unfolding step_at
  step-past ending now p e n = absurd (n refl)
  step-past ph now p e n = ground (arith, e)

  kept :
      (ph : Phase) (now : ℕ) (ms : List (Move fl)) (s : Running D)
      → s.pinger.phase ≡ ph
      → ph ≢ ending
      → Goes (goes_on now ∷ ms) s
      → Goes ms (record s { pinger = step fl now s.pinger })
  unfolding step
  kept ph now ms s e n g = record {
    timer =
        subst (TimerFits s.reporting.timer)
          (sym (step-past s.pinger.phase now s.pinger refl (λ h. n (sym e ∙ h)))) g.timer;
    enough = stepped now ms s.pinger g.enough;
  }

  past-ending :
      (ph : Phase) (now : ℕ) (p : Pinger D)
      → ph ≡ ending
      → is_past (step_at fl ph now p).phase ≡ true
  unfolding step_at
  past-ending ph now p e = rw e refl

  thread_at-Goes :
      (ph : Phase) (now : ℕ) (ms : List (Move fl)) (s : Running D)
      → s.pinger.phase ≡ ph
      → Goes (goes_on now ∷ ms) s
      → ((s' : Running D) × (thread_at fl ph now s ≡ some s') × Goes ms s') ⊎ IsOverflow s
  unfolding thread_at step
  thread_at-Goes resting now ms s e g = elim (Option-cases (fl.micros (average_rtt fl s.pinger))) [
    | inl n ↦ inr (e, n)
    | inr (d, n) ↦ inl (
      record s { pinger = step fl now s.pinger },
      rw (n, thread_at) refl,
      kept resting now ms s e (λ h. cc) g,
    )
  ]
  thread_at-Goes ending now ms s e g = elim g.timer [
    | inl t ↦ inl (
      record s { pinger = step fl now s.pinger },
      rw (ends-null s.reporting t, thread_at) refl,
      record { timer = inl t; enough = stepped now ms s.pinger g.enough },
    )
    | inr (inl (t, n)) ↦ inl (
      record s { pinger = step fl now s.pinger; reporting = record s.reporting { timer = freed } },
      rw (ends-live s.reporting t, thread_at) refl,
      record {
        timer = inr (inr (refl, past-ending s.pinger.phase now s.pinger e));
        enough = stepped now ms s.pinger g.enough;
      },
    )
    | inr (inr (t, n)) ↦ absurd (not_past s.pinger.phase e n)
  ]
  thread_at-Goes ph now ms s e g =
      inl (record s { pinger = step fl now s.pinger }, refl, kept ph now ms s e (λ h. cc) g)

  report_at-Goes :
      (t : TimerPtr) (ms : List (Move fl)) (s : Running D)
      → s.reporting.timer ≡ t
      → Goes (reports ∷ ms) s
      → (s' : Running D) × (report_at fl t s ≡ some s') × Goes ms s'
  unfolding report_at turns Later make_report
  report_at-Goes live ms s e g = (
    record s {
      pinger = make_report fl s.pinger;
      reporting = record s.reporting { timer = live; reported = s.reporting.reported + 1 };
    },
    rw (due-live s.reporting e, report_at) refl,
    record {
      timer = subst (λ t. TimerFits t (is_past s.pinger.phase)) e g.timer;
      enough = elim g.enough [
        | inl k ↦ inl (record { asked = k.asked; left = k.left })
        | inr l ↦ inr l
      ];
    },
  )
  report_at-Goes t ms s e g = (s, refl, record { timer = g.timer; enough = g.enough })

  act-Goes :
      (m : Move fl) (ms : List (Move fl)) (s : Running D)
      → Goes (m ∷ ms) s
      → ((s' : Running D) × (act fl m s ≡ some s') × Goes ms s') ⊎ IsOverflow s
  unfolding act turns Later
  act-Goes (goes_on now) ms s g = thread_at-Goes s.pinger.phase now ms s refl g
  act-Goes (receives now ec bs) ms s g = inl (
    record s { pinger = (handle_receive fl now ec bs s.pinger).0 },
    refl,
    record {
      timer =
          subst (λ ph. TimerFits s.reporting.timer (is_past ph))
            (sym (handle_receive-phase now ec bs s.pinger)) g.timer;
      enough = elim g.enough [
        | inl k ↦ inl (handle_receive-Stops (turns ms) now ec bs s.pinger k)
        | inr l ↦ inr l
      ];
    },
  )
  act-Goes reports ms s g = inl (report_at-Goes s.reporting.timer ms s refl g)
  act-Goes stops ms s g = inl (
    record s { pinger = record s.pinger { stop_requested = true } },
    refl,
    record {
      timer = g.timer;
      enough = elim g.enough [
        | inl k ↦ inl (record { asked = refl; left = k.left })
        | inr (inl h) ↦
            inl (record { asked = refl; left = omega (arith, h, at_most_eight s.pinger.phase) })
        | inr (inr l) ↦ inr l
      ];
    },
  )

  act_all-Goes :
      (ms : List (Move fl)) (s : Running D)
      → Goes ms s
      → ((t : Running D) × (act_all fl ms s ≡ some t) × Goes [] t)
        ⊎ ((first rest : List (Move fl)) × (u : Running D) × (ms ≡ first ++ rest)
            × (act_all fl first s ≡ some u)
            × IsOverflow u)
  unfolding act_all
  act_all-Goes [] s g = inl (s, refl, g)
  act_all-Goes (m ∷ ms) s g = elim (act-Goes m ms s g) [
    | inr o ↦ inr ([], m ∷ ms, s, refl, refl, o)
    | inl (s', e, g') ↦ elim (act_all-Goes ms s' g') [
      | inl (t, a, gt) ↦ inl (t, rw (e, act_all) a, gt)
      | inr (first, rest, u, c, a, o) ↦
          inr (m ∷ first, rest, u, ap (λ l. m ∷ l) c, rw (e, act_all) a, o)
    ]
  ]

  -- These moves, from the start of the activity: nothing undefined is met, the thread has ended and no
  -- report will fall due; or the thread comes to a usleep that overflows.
  abbrev pub EndsOrOverflows : ℕ → List (Move fl) → Type 0
  EndsOrOverflows period ms =
      ((t : Running D) × (act_all fl ms (started fl period) ≡ some t)
        × (t.pinger.phase ≡ finished)
        × (t.reporting.timer ≢ live))
      ⊎ ((first rest : List (Move fl)) × (u : Running D) × (ms ≡ first ++ rest)
          × (act_all fl first (started fl period) ≡ some u)
          × IsOverflow u)

  -- However reads, reports and other stops come in between: if, at some point after the activity
  -- started with any report period, stop sets _stopRequested and the thread then makes eight of the
  -- statements of its model, it has ended, nothing undefined was met, and no timer is left; unless it
  -- came to its usleep when the average of the round-trip times could not be converted to an unsigned
  -- integer, which is undefined.
  pub pinger-stop_ends :
      (period : ℕ) (before after : List (Move fl))
      → 8 ≤ turns after
      → EndsOrOverflows period (before ++ stops ∷ after)
  unfolding started turns Later
  pinger-stop_ends period before after h =
      elim (act_all-Goes (before ++ stops ∷ after) (started fl period)
        (record { timer = started-fits period; enough = inr (Later-append before after h) })) [
          | inr o ↦ inr o
          | inl (t, a, g) ↦
              let f = ended t g in
              inl (
                t,
                a,
                f,
                no_timer t.reporting.timer
                    (subst (λ ph. TimerFits t.reporting.timer (is_past ph)) f g.timer),
              )
        ]
    where
      ended : (t : Running D) → Goes [] t → t.pinger.phase ≡ finished
      ended t g = elim g.enough [ inl k ↦ none_left t.pinger.phase k.left | inr l ↦ absurd l ]

      no_timer : (t : TimerPtr) → TimerFits t true → t ≢ live
      no_timer t (inl e) h = cc
      no_timer t (inr (inl (e, n))) h = cc
      no_timer t (inr (inr (e, n))) h = cc
