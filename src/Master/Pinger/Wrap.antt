-- ===== src/Master/Pinger/Wrap.antt =====
-- The order in which handleReceive counts bytes as lost (src/master/MasterPinger.cpp): that of the
-- keys of _sendTimes, which is the order of sending only until the byte wraps to 0.
use modem_tester.Common.{ℕ, ◌+◌, ◌≤◌, ◌<◌, ◌≡◌, false, List, [], ◌∷◌, arith}
use modem_tester.SortedMap.{insert, find, distance, erase_through}
use modem_tester.Master.Pinger.{
  Pinger, Doubles, writing, u64_mod, receive_code, handle_receive, rearm, Move, goes_on, receives,
  run,
}

module _ {D : Type 0} (fl : Doubles D) where
  -- If the byte that comes back is the first in _sendTimes, it is received and nothing is lost.
  pub pinger-first_received :
      (now b t : ℕ) (rest : List (ℕ × ℕ)) (p : Pinger D)
      → b ≤ 240
      → p.send_times ≡ (b, t) ∷ rest
      → p.received + 1 < u64_mod
      → p.lost < u64_mod
      → let (q, then) = handle_receive fl now 0 (b ∷ []) p in
        (q.received ≡ p.received + 1) × (q.lost ≡ p.lost) × (q.send_times ≡ rest) × (then ≡ rearm)
  unfolding handle_receive receive_code find distance erase_through
  pinger-first_received now b t rest p h e r l = ground arith

  -- One round of the loop, at the time `now`.
  abbrev pub one_round : ℕ → List (Move fl)
  one_round now = goes_on now ∷ goes_on now ∷ goes_on now ∷ goes_on now ∷ goes_on now ∷ []

  -- With only byte 239 in flight the loop sends 0, and both come back in the order of sending, with
  -- nothing lost on the line. Counted are one byte received and one lost: 239 takes 0, which stands
  -- before it in _sendTimes, with it, and the echo of 0 is then not found.
  pub pinger-wrap_counts_lost :
      (t now later : ℕ) (p : Pinger D)
      → p.phase ≡ writing
      → p.stop_requested ≡ false
      → p.byte ≡ 0
      → p.send_times ≡ (239, t) ∷ []
      → p.received + 1 < u64_mod
      → p.lost + 1 < u64_mod
      → let q =
          run fl
            (receives later 0 (239 ∷ []) ∷ receives later 0 (0 ∷ []) ∷ [])
            (run fl (one_round now) p) in
        (q.output ≡ 0 ∷ p.output)
        × (q.received ≡ p.received + 1)
        × (q.lost ≡ p.lost + 1)
        × (q.send_times ≡ [])
  unfolding run handle_receive receive_code insert find distance erase_through
  pinger-wrap_counts_lost t now later p h s b m r l = ground arith
