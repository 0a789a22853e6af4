-- ===== src/Master/Pinger/Early.antt =====
-- Echoes that are read before the loop of src/master/MasterPinger.cpp has noted the byte: operator()
-- writes a byte, counts it, and only then enters it into _sendTimes.
use modem_tester.Common.{
  ℕ, ◌+◌, ◌<◌, ◌≡◌, refl, false, leb, List, [], ◌∷◌, none, arith, length, subst, sym,
}
use modem_tester.SortedMap.{insert, find, Below}
use modem_tester.SortedMap.Laws.{insert-Below}
use modem_tester.Master.Pinger.{
  Pinger, Doubles, writing, create, in_flight, receive_code, Move, goes_on, receives, run,
}

find-Below : {V : Type 0} (n : ℕ) (m : List (ℕ × V)) → Below n m → find n m ≡ none
unfolding find
find-Below n [] b = refl
find-Below n ((k, v) ∷ m) b = ground (arith, find-Below n m b.1)

Below-suc : {V : Type 0} (n : ℕ) (m : List (ℕ × V)) → Below n m → Below (n + 1) m
Below-suc n [] b = tt
Below-suc n ((k, v) ∷ m) b = (omega (arith, b.0), Below-suc n m b.1)

-- After n rounds no echo has been found.
pub record IsMissed {D : Type 0} (n : ℕ) (p : Pinger D) : Type 0 where
  pub phase : p.phase ≡ writing
  pub going : p.stop_requested ≡ false
  pub byte : p.byte ≡ n
  pub keys : Below n p.send_times
  pub sent : p.sent ≡ n
  pub received : p.received ≡ 0
  pub lost : p.lost ≡ 0

module _ {D : Type 0} (fl : Doubles D) where
  -- One round of the loop; what comes back is read right after the byte was written.
  abbrev pub early_round : ℕ → ℕ → List (Move fl)
  early_round now b =
      goes_on now
      ∷ receives now 0 (b ∷ [])
      ∷ goes_on now
      ∷ goes_on now
      ∷ goes_on now
      ∷ goes_on now
      ∷ []

  -- Rounds at these times, each with the echo of the byte that it writes.
  unfoldable pub early_session : List ℕ → Pinger D → Pinger D
  unfolding run
  early_session [] p = p
  early_session (now ∷ times) p = early_session times (run fl (early_round now p.byte) p)

  early_round-IsMissed :
      (n now : ℕ) (p : Pinger D)
      → n < 239
      → IsMissed n p
      → let q = run fl (early_round now n) p in IsMissed (n + 1) q × (q.reachable ≡ leb (n + 1) 3)
  unfolding run receive_code in_flight
  early_round-IsMissed n now p l m =
      let kept : Below (n + 1) (insert p.byte now p.send_times) =
        insert-Below p.byte now (n + 1) p.send_times (omega (arith, m.byte))
          (Below-suc n p.send_times m.keys) in
      ground (arith, find-Below n p.send_times m.keys, kept)

  abbrev Missed : ℕ → Pinger D → Type 0
  Missed n p = IsMissed n p × (p.reachable ≡ leb n 3)

  next-Missed :
      (n now : ℕ) (p : Pinger D)
      → n < 239
      → IsMissed n p
      → Missed (n + 1) (run fl (early_round now p.byte) p)
  next-Missed n now p l m =
      subst (λ b. Missed (n + 1) (run fl (early_round now b) p)) (sym m.byte)
        (early_round-IsMissed n now p l m)

  session-Missed :
      (times : List ℕ) (n : ℕ) (p : Pinger D)
      → n + length times < 240
      → Missed n p
      → Missed (n + length times) (early_session times p)
  unfolding early_session
  session-Missed [] n p l m = subst (λ k. Missed k p) (omega arith) m
  session-Missed (now ∷ times) n p l m =
      subst (λ k. Missed k (early_session times (run fl (early_round now p.byte) p))) (omega arith)
        (session-Missed times (n + 1) (run fl (early_round now p.byte) p) (omega arith)
          (next-Missed n now p (omega arith) m.0))

  create-IsMissed : IsMissed 0 (create fl)
  unfolding create
  create-IsMissed = record {
    phase = refl;
    going = refl;
    byte = refl;
    keys = tt;
    sent = refl;
    received = refl;
    lost = refl;
  }

  -- A line that brings every byte back, but each echo is read before the loop has noted its byte: after
  -- fewer than 240 rounds, and at least one, none counts as received or lost, and the remote is taken
  -- for reachable exactly if at most three bytes were sent.
  pub pinger-early_echoes :
      (now : ℕ) (times : List ℕ)
      → 1 + length times < 240
      → let p = early_session (now ∷ times) (create fl) in
        IsMissed (1 + length times) p × (p.reachable ≡ leb (1 + length times) 3)
  unfolding early_session create
  pinger-early_echoes now times l =
      session-Missed times 1 (run fl (early_round now (create fl).byte) (create fl)) l
        (next-Missed 0 now (create fl) (omega arith) create-IsMissed)
