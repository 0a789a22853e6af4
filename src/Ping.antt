-- ===== src/Ping.antt =====
-- Pings over a line that loses nothing: src/master/MasterPinger.cpp sends a byte, it goes through
-- src/remote/RemotePinger.cpp, and what that writes comes back.
use modem_tester.Common.{ℕ, ◌+◌, ◌<◌, ◌≡◌, false, true, List, [], ◌∷◌, arith, length}
use modem_tester.SortedMap.{insert, find, distance, erase_through}
use modem_tester.Master.Pinger as MasterPinger
use modem_tester.Master.Pinger.{
  Pinger, Doubles, writing, u64_mod, step_at, step, receive_code, create, in_flight,
}
use modem_tester.Master.Pinger.Wrap.{one_round}
use modem_tester.Remote.Pinger as RemotePinger

module _ {D : Type 0} (fl : Doubles D) where
  -- One round of the master's loop at the time `now`; the remote reads the byte, and `later` the
  -- master reads what the remote writes.
  unfoldable pub round_trip : ℕ → ℕ → Pinger D → Pinger D
  unfolding MasterPinger.run MasterPinger.handle_receive RemotePinger.handle_receive
  round_trip now later p =
      let q = MasterPinger.run fl (one_round fl now) p in
      (MasterPinger.handle_receive fl later 0 (RemotePinger.handle_receive 0 (p.byte ∷ [])).writes
        q).0

  -- The master is about to write, and every byte sent has come back.
  pub record IsQuiet (n : ℕ) (p : Pinger D) : Type 0 where
    pub phase : p.phase ≡ writing
    pub going : p.stop_requested ≡ false
    pub standard : p.byte < 240
    pub empty : p.send_times ≡ []
    pub sent : p.sent ≡ n
    pub received : p.received ≡ n
    pub lost : p.lost ≡ 0

  -- If the master is quiet after n bytes, then after one round trip it is quiet after n + 1, takes
  -- the remote for reachable, and its round-trip time has grown by that of the byte.
  pub ping-round_trip :
      (n now later : ℕ) (p : Pinger D)
      → n + 1 < u64_mod
      → IsQuiet n p
      → let q = round_trip now later p in
        IsQuiet (n + 1) q × (q.reachable ≡ true) × (q.rtt ≡ fl.plus p.rtt (fl.elapsed later now))
  unfolding round_trip receive_code insert find distance erase_through in_flight
  ping-round_trip n now later p l q = ground arith

  unfoldable pub session : List (ℕ × ℕ) → Pinger D → Pinger D
  unfolding round_trip
  session [] p = p
  session ((now, later) ∷ times) p = session times (round_trip now later p)

  session-IsQuiet :
      (times : List (ℕ × ℕ)) (n : ℕ) (p : Pinger D)
      → n + length times < u64_mod
      → IsQuiet n p
      → IsQuiet (n + length times) (session times p)
  unfolding session
  session-IsQuiet [] n p l q = ground (arith, q)
  session-IsQuiet ((now, later) ∷ times) n p l q =
      let r =
        session-IsQuiet times (n + 1) (round_trip now later p) (omega arith)
          (ping-round_trip n now later p (omega arith) q).0 in
      ground (arith, r)

  -- From the constructor on, round trips at any times, fewer than 2^64, all count as sent and
  -- received, and none as lost.
  pub ping-session :
      (times : List (ℕ × ℕ))
      → length times < u64_mod
      → IsQuiet (length times) (session times (create fl))
  unfolding create
  ping-session times l =
      ground (arith, session-IsQuiet times 0 (create fl) (omega arith) (ground arith))
