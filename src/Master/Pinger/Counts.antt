-- ===== src/Master/Pinger/Counts.antt =====
-- The counters of the availability test (src/master/MasterPinger.cpp).
use modem_tester.Common.{
  ◌∙◌, ◌==◌, ℕ, ◌+◌, ◌≤◌, ◌<◌, ◌≡◌, refl, leb, List, [], ◌∷◌, arith, length, All, Option-cases,
  Bool-cases, inl, inr,
}
use modem_tester.SortedMap.{find, Above, Below}
use modem_tester.SortedMap.Laws.{
  insert-Above, insert-Below, length-insert-le, distance-erase, erase_through-Above,
  erase_through-Below,
}
use modem_tester.Master.Pinger.{
  Pinger, Doubles, Phase, writing, counting, stamping, judging, u64_mod, create, in_flight, step_at,
  step, receive_code, command, receive_bytes, handle_receive, Move, goes_on, receives, reports,
  stops, move, run,
}

-- Between `_sent++` and the entry in _sendTimes one byte is counted and not yet noted.
abbrev pub unnoted : Phase → ℕ
unnoted stamping = 1
unnoted _ = 0

pub record IsCounted {D : Type 0} (p : Pinger D) : Type 0 where
  pub standard : p.byte < 240
  pub sorted : Above 0 p.send_times
  pub keys : Below 240 p.send_times
  pub written : All (λ b. b < 240) p.output
  pub accounted : p.received + p.lost + length p.send_times + unnoted p.phase ≤ p.sent

module _ {D : Type 0} (fl : Doubles D) where
  step-IsCounted :
      (ph : Phase) (now : ℕ) (p : Pinger D)
      → p.phase ≡ ph
      → p.sent + 1 < u64_mod
      → IsCounted p
      → IsCounted (step_at fl ph now p)
  unfolding step_at
  step-IsCounted stamping now p e h c = ground (
    arith,
    insert-Above p.byte now 0 p.send_times,
    insert-Below p.byte now 240 p.send_times,
    length-insert-le p.byte now p.send_times,
  )
  step-IsCounted ph now p e h c = ground arith

  receive_code-IsCounted :
      (now b : ℕ) (p : Pinger D)
      → p.sent < u64_mod
      → IsCounted p
      → IsCounted (receive_code fl now b p)
  unfolding receive_code
  receive_code-IsCounted now b p h c = elim (Option-cases (find b p.send_times)) [
    | inl e ↦ rw (e, receive_code) c
    | inr (t, e) ↦
        rw (e, receive_code)
          (ground (
            arith,
            distance-erase b p.send_times t,
            erase_through-Above b 0 p.send_times,
            erase_through-Below b 240 p.send_times,
          ))
  ]

  -- What each standard code keeps, the loop over the bytes keeps.
  pub receive_bytes-keeps :
      (P : Pinger D → Type 0) (now : ℕ)
      → ((b : ℕ) (p : Pinger D) → P p → P (receive_code fl now b p))
      → (bs : List ℕ) (p : Pinger D) → P p
      → P (receive_bytes fl now bs p).0
  unfolding receive_bytes
  receive_bytes-keeps P now keep [] p h = h
  receive_bytes-keeps P now keep (b ∷ bs) p h = elim (Bool-cases (leb b 240)) [
    | inl e ↦ rw (e, receive_bytes) (receive_bytes-keeps P now keep bs _ (keep b p h))
    | inr e ↦ elim (Option-cases (command b)) [
      | inl n ↦ rw (e, n, receive_bytes) (receive_bytes-keeps P now keep bs p h)
      | inr (ev, n) ↦ rw (e, n, receive_bytes) h
    ]
  ]

  -- The handler counts what it takes out of _sendTimes, and no more.
  abbrev Kept : Pinger D → Pinger D → Type 0
  Kept p q =
      IsCounted q
      × (q.sent ≡ p.sent)
      × (q.phase ≡ p.phase)
      × (q.received + q.lost + length q.send_times ≡ p.received + p.lost + length p.send_times)

  receive_code-same :
      (now b : ℕ) (q : Pinger D)
      → q.sent < u64_mod
      → IsCounted q
      → ((receive_code fl now b q).sent ≡ q.sent)
        × ((receive_code fl now b q).phase ≡ q.phase)
        × ((receive_code fl now b q).received
              + (receive_code fl now b q).lost
              + length (receive_code fl now b q).send_times
            ≡ q.received + q.lost + length q.send_times)
  unfolding receive_code
  receive_code-same now b q h c = elim (Option-cases (find b q.send_times)) [
    | inl e ↦ rw (e, receive_code) (refl, refl, refl)
    | inr (t, e) ↦
        rw (e, receive_code) (refl, refl, ground (arith, distance-erase b q.send_times t))
  ]

  receive_code-Kept :
      (p : Pinger D)
      → p.sent < u64_mod
      → (now b : ℕ) (q : Pinger D) → Kept p q
      → Kept p (receive_code fl now b q)
  receive_code-Kept p h now b q k =
      let same = receive_code-same now b q (omega arith) k.0 in
      (receive_code-IsCounted now b q (omega arith) k.0, same.0 ∙ k.1, same.1 ∙ k.2, same.2 ∙ k.3)

  pub handle_receive-Kept :
      (now ec : ℕ) (bs : List ℕ) (p : Pinger D)
      → p.sent < u64_mod
      → IsCounted p
      → Kept p (handle_receive fl now ec bs p).0
  unfolding handle_receive
  handle_receive-Kept now ec bs p h c = elim (Bool-cases (ec == 0)) [
    | inl e ↦
        rw e
          (receive_bytes-keeps (Kept p) now (receive_code-Kept p h now) bs p (c, refl, refl, refl))
    | inr e ↦ rw e (ground arith)
  ]

  step-sent-le : (ph : Phase) (now : ℕ) (p : Pinger D) → (step_at fl ph now p).sent ≤ p.sent + 1
  unfolding step_at
  step-sent-le counting now p = omega arith
  step-sent-le writing now p = ground arith
  step-sent-le ph now p = omega arith

  pub move-IsCounted :
      (m : Move fl) (p : Pinger D)
      → p.sent + 1 < u64_mod
      → IsCounted p
      → IsCounted (move fl m p) × ((move fl m p).sent ≤ p.sent + 1)
  unfolding move
  move-IsCounted (goes_on now) p h c =
      (step-IsCounted p.phase now p refl h c, step-sent-le p.phase now p)
  move-IsCounted (receives now ec bs) p h c =
      let k = handle_receive-Kept now ec bs p (omega arith) c in (k.0, omega (arith, k.1))
  move-IsCounted reports p h c = (ground arith, omega arith)
  move-IsCounted stops p h c = (ground arith, omega arith)

  run-IsCounted :
      (ms : List (Move fl)) (p : Pinger D)
      → p.sent + length ms < u64_mod
      → IsCounted p
      → IsCounted (run fl ms p) × ((run fl ms p).sent < u64_mod)
  unfolding run
  run-IsCounted [] p h c = (c, omega arith)
  run-IsCounted (m ∷ ms) p h c =
      let (c', le) = move-IsCounted m p (omega arith) c in
      run-IsCounted ms (move fl m p) (omega arith) c'

  pub create-IsCounted : IsCounted (create fl)
  unfolding create
  create-IsCounted = ground arith

  -- From the constructor on, in fewer than 2^64 moves, however the loop, the handler, the reports
  -- and a stop interleave and whatever bytes and error codes are read: every byte written is below
  -- 240, so never a command; _sendTimes holds such bytes only, each once and in order; and the
  -- received, the lost, the bytes in _sendTimes and a byte counted but not yet noted together are at
  -- most the bytes sent.
  pub pinger-run-IsCounted :
      (ms : List (Move fl)) → length ms < u64_mod → IsCounted (run fl ms (create fl))
  unfolding create
  pinger-run-IsCounted ms h = (run-IsCounted ms (create fl) (omega arith) create-IsCounted).0

  -- So the unsigned subtraction of the reachability test never wraps: when the loop judges, in fewer
  -- than 2^64 moves, the remote is reachable exactly if the bytes sent are at most three more than
  -- those received or lost.
  pub pinger-judge_exact :
      (ms : List (Move fl)) (now : ℕ)
      → length ms < u64_mod
      → (run fl ms (create fl)).phase ≡ judging
      → let p = run fl ms (create fl) in
        (step fl now p).reachable ≡ leb p.sent (p.received + p.lost + 3)
  unfolding step in_flight create
  pinger-judge_exact ms now h e =
      let (c, below) = run-IsCounted ms (create fl) (omega arith) create-IsCounted in ground arith

  -- In a machine that counts right, with fewer than 2^64 bytes sent, a completed read leaves the sum
  -- of the received, the lost and the bytes in _sendTimes as it was, and the counting stays right.
  pub pinger-receive_conserves :
      (now ec : ℕ) (bs : List ℕ) (p : Pinger D)
      → p.sent < u64_mod
      → IsCounted p
      → let q = (handle_receive fl now ec bs p).0 in
        IsCounted q
        × (q.received + q.lost + length q.send_times ≡ p.received + p.lost + length p.send_times)
  pinger-receive_conserves now ec bs p h c =
      let k = handle_receive-Kept now ec bs p h c in (k.0, k.3)
