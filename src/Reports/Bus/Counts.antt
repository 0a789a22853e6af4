-- ===== src/Reports/Bus/Counts.antt =====
-- The numbers in the messages on availability (src/main.cpp) are those that the pinger counted
-- (src/master/MasterPinger.cpp).
use mathlib.Core.List.{append_assoc, append-nil}
use modem_tester.Common.{
  sym, ◌==◌, ℕ, ◌+◌, ◌<◌, ◌≡◌, refl, if◌then◌else◌, List, [], ◌∷◌, ◌++◌, ap, ◌∙◌, map, arith,
  length, All, Bool-cases, Option-cases, inl, inr,
}
use modem_tester.SortedMap.{find}
use modem_tester.Master.Pinger.{
  Pinger, Doubles, Report, Phase, writing, finishing, make_report, u64_mod, create, step_at, step,
  receive_code, handle_receive, Move, goes_on, receives, reports, stops, move, run,
}
use modem_tester.Master.Pinger.Counts.{
  IsCounted, create-IsCounted, move-IsCounted, receive_bytes-keeps,
}
use modem_tester.Reports.{
  pos, integer, real, Message, as_signed, avail_report, simple_availability_reporting_function,
}
use modem_tester.Reports.Bus.{main_pinger, call_each, bus_messages}

-- 2^63
abbrev pub i64_mod : ℕ
i64_mod = 9_223_372_036_854_775_808

module _ {D : Type 0} where
  -- The counts of a report are below n.
  record IsBelow (n : ℕ) (r : Report D) : Type 0 where
    sent : r.sent < n
    lost : r.lost < n
    received : r.received < n

module _ {D : Type 0} (fl : Doubles D) where
  make-IsBelow :
      (n : ℕ) (p : Pinger D)
      → p.sent < n
      → IsCounted p
      → All (IsBelow n) p.reports
      → All (IsBelow n) (make_report fl p).reports
  unfolding make_report
  make-IsBelow n p h c b = (
    record { sent = h; lost = omega (arith, c.accounted); received = omega (arith, c.accounted) },
    b,
  )

  step-IsBelow :
      (ph : Phase) (n now : ℕ) (p : Pinger D)
      → p.sent < n
      → IsCounted p
      → All (IsBelow n) p.reports
      → All (IsBelow n) (step_at fl ph now p).reports
  unfolding step_at
  step-IsBelow finishing n now p h c b = make-IsBelow n p h c b
  step-IsBelow writing n now p h c b = elim (Bool-cases p.stop_requested) [
    | inl e ↦ rw e b
    | inr e ↦ rw e b
  ]
  step-IsBelow ph n now p h c b = b

  receive_code-IsBelow :
      (n now b : ℕ) (p : Pinger D)
      → All (IsBelow n) p.reports
      → All (IsBelow n) (receive_code fl now b p).reports
  unfolding receive_code
  receive_code-IsBelow n now b p k = elim (Option-cases (find b p.send_times)) [
    | inl e ↦ rw (e, receive_code) k
    | inr (t, e) ↦ rw (e, receive_code) k
  ]

  handle_receive-IsBelow :
      (n now ec : ℕ) (bs : List ℕ) (p : Pinger D)
      → All (IsBelow n) p.reports
      → All (IsBelow n) (handle_receive fl now ec bs p).0.reports
  unfolding handle_receive
  handle_receive-IsBelow n now ec bs p k = elim (Bool-cases (ec == 0)) [
    | inl e ↦ rw e (
        receive_bytes-keeps fl (λ q. All (IsBelow n) q.reports) now
          (λ b q t. receive_code-IsBelow n now b q t) bs p k)
    | inr e ↦ elim (Bool-cases (ec == 125)) [ inl f ↦ rw (e, f) k | inr f ↦ rw (e, f) k ]
  ]

  move-IsBelow :
      (n : ℕ) (m : Move fl) (p : Pinger D)
      → p.sent < n
      → IsCounted p
      → All (IsBelow n) p.reports
      → All (IsBelow n) (move fl m p).reports
  unfolding move step
  move-IsBelow n (goes_on now) p h c b = step-IsBelow p.phase n now p h c b
  move-IsBelow n (receives now ec bs) p h c b = handle_receive-IsBelow n now ec bs p b
  move-IsBelow n reports p h c b = make-IsBelow n p h c b
  move-IsBelow n stops p h c b = b

  run-IsBelow :
      (n : ℕ) (ms : List (Move fl)) (p : Pinger D)
      → n < u64_mod
      → p.sent + length ms < n
      → IsCounted p
      → All (IsBelow n) p.reports
      → All (IsBelow n) (run fl ms p).reports
  unfolding run
  run-IsBelow n [] p l h c b = b
  run-IsBelow n (m ∷ ms) p l h c b =
      let (c', le) = move-IsCounted fl m p (omega arith) c in
      run-IsBelow n ms (move fl m p) l (omega arith) c' (move-IsBelow n m p (omega arith) c b)

  -- What a pinger has counted.
  abbrev pub counted : Pinger D → Report D
  counted p = record {
    reachable = p.reachable;
    sent = p.sent;
    lost = p.lost;
    received = p.received;
    average = fl.over p.rtt p.received;
  }

  -- What is counted where a move makes a report: one that falls due, or the thread's last.
  abbrev pub seen_at : Move fl → Pinger D → List (Report D)
  seen_at (goes_on now) p = elim p.phase [ finishing ↦ counted p ∷ [] | _ ↦ [] ]
  seen_at (receives now ec bytes) p = []
  seen_at reports p = counted p ∷ []
  seen_at stops p = []

  -- What the moves see of the pinger, the newest first.
  unfoldable pub seen : List (Move fl) → Pinger D → List (Report D)
  seen [] p = []
  seen (m ∷ ms) p = seen ms (move fl m p) ++ seen_at m p

  step-seen :
      (ph : Phase) (now : ℕ) (p : Pinger D)
      → p.phase ≡ ph
      → (step_at fl ph now p).reports ≡ seen_at (goes_on now) p ++ p.reports
  unfolding step_at make_report
  step-seen ph now p e = ground (arith, e)

  receive_code-same : (now b : ℕ) (p : Pinger D) → (receive_code fl now b p).reports ≡ p.reports
  unfolding receive_code
  receive_code-same now b p = elim (Option-cases (find b p.send_times)) [
    | inl e ↦ rw (e, receive_code) refl
    | inr (t, e) ↦ rw (e, receive_code) refl
  ]

  handle_receive-same :
      (now ec : ℕ) (bs : List ℕ) (p : Pinger D)
      → (handle_receive fl now ec bs p).0.reports ≡ p.reports
  unfolding handle_receive
  handle_receive-same now ec bs p = elim (Bool-cases (ec == 0)) [
    | inl e ↦ rw e (
        receive_bytes-keeps fl (λ q. q.reports ≡ p.reports) now
          (λ b q t. receive_code-same now b q ∙ t) bs p refl)
    | inr e ↦ elim (Bool-cases (ec == 125)) [ inl f ↦ rw (e, f) refl | inr f ↦ rw (e, f) refl ]
  ]

  move-seen : (m : Move fl) (p : Pinger D) → (move fl m p).reports ≡ seen_at m p ++ p.reports
  unfolding move step make_report
  move-seen (goes_on now) p = step-seen p.phase now p refl
  move-seen (receives now ec bs) p = handle_receive-same now ec bs p
  move-seen reports p = refl
  move-seen stops p = refl

  reports-seen :
      (ms : List (Move fl)) (p : Pinger D) → (run fl ms p).reports ≡ seen ms p ++ p.reports
  unfolding run seen
  reports-seen [] p = refl
  reports-seen (m ∷ ms) p =
      reports-seen ms (move fl m p)
      ∙ ap (λ rs. seen ms (move fl m p) ++ rs) (move-seen m p)
      ∙ sym (append_assoc (seen ms (move fl m p)) (seen_at m p) p.reports)

  module _ (ms : D → D) where
    -- The message that carries the numbers of a report as they are.
    abbrev pub exact_avail : Report D → Message D
    exact_avail r = record {
      head = "ground AVAIL_REPORT";
      values =
          integer (pos (if r.reachable then 1 else 0))
          ∷ integer (pos r.sent)
          ∷ integer (pos r.lost)
          ∷ integer (pos r.received)
          ∷ real (ms r.average)
          ∷ [];
    }

    as_signed-below : (x : ℕ) → x < i64_mod → as_signed 64 x ≡ pos x
    unfolding as_signed
    as_signed-below x h = ground arith

    avail_report-exact : (r : Report D) → IsBelow i64_mod r → avail_report ms r ≡ exact_avail r
    unfolding avail_report
    avail_report-exact r b =
        rw
          (
            as_signed-below r.sent b.sent,
            as_signed-below r.lost b.lost,
            as_signed-below r.received b.received,
          )
          refl

    messages-exact :
        (rs : List (Report D))
        → All (IsBelow i64_mod) rs
        → call_each (main_pinger fl ms).reporting_function rs ≡ map exact_avail rs
    unfolding call_each main_pinger simple_availability_reporting_function
    messages-exact [] b = refl
    messages-exact (r ∷ rs) b = rw (avail_report-exact r b.0, messages-exact rs b.1) refl

    -- In fewer than 2^63 moves of the pinger that main makes, however its thread, its reads, its
    -- reports and a stop interleave: there is one message on the bus for each report that falls due
    -- and for the final one, in their order, and each carries what the pinger had counted when its
    -- report was made: whether the remote is reachable, the bytes sent, lost and received, as they
    -- are, although they are unsigned and %ld is signed, and the sum of the round-trip times over the
    -- bytes received.
    pub bus_messages-exact :
        (moves : List (Move fl))
        → length moves < i64_mod
        → bus_messages fl ms moves ≡ map exact_avail (seen moves (create fl))
    unfolding bus_messages main_pinger create
    bus_messages-exact moves h =
        messages-exact (run fl moves (create fl)).reports (
          run-IsBelow i64_mod moves (create fl) (omega arith) (omega arith) (create-IsCounted fl)
            tt)
        ∙ ap (map exact_avail)
            (reports-seen moves (create fl) ∙ append-nil (seen moves (create fl)))
