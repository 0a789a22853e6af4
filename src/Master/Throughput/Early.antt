-- ===== src/Master/Throughput/Early.antt =====
-- Results that are read before the timer for them is made (src/master/MasterThroughput.cpp:
-- getResults writes the request first).
use modem_tester.Common.{
  ℕ, ◌≡◌, refl, Bool, true, false, List, [], ◌∷◌, Option, none, some, arith, subst, ◌==◌, ◌↔◌,
  Bool-cases, Option-cases, inl, inr, if◌then◌else◌,
}
use modem_tester.TimerPtr.{wild}
use modem_tester.Wire.{Host}
use modem_tester.Master.Throughput.{
  Tester, Phase, Reading, no_read, commands, results, starting, polling, rereading, reporting,
  posting, finished, timing, Move, goes_on, reads, times_out, stops, report_falls_due, create,
  step_at, receive_results, timeout_receive_results, report_due, handle_bytes, handle_receive,
  complete, move, run,
}

-- Whether the thread has not yet made _receiveResultsTimer.
abbrev is_before_timer : Phase → Bool
is_before_timer polling = false
is_before_timer rereading = false
is_before_timer reporting = false
is_before_timer posting = false
is_before_timer finished = false
is_before_timer _ = true

-- Until a timer is made, by the thread or for a periodic report, the pointer is not initialised.
record IsUnset (s : Tester) : Type 0 where
  unset : is_before_timer s.phase ≡ true → s.io_blocked ≡ false → s.results_timer ≡ wild

abbrev Keeps : Option Tester → Type 0
Keeps none = Unit
Keeps (some s) = IsUnset s

step-IsUnset : (ph : Phase) (s : Tester) → s.phase ≡ ph → IsUnset s → Keeps (step_at ph s)
unfolding step_at
step-IsUnset starting s e h = ground (arith, h.unset)
step-IsUnset ph s e h = ground (arith, h.unset)

receive_results-IsUnset :
    (h : Host) (ec : ℕ) (bytes : List ℕ) (s : Tester)
    → IsUnset s
    → s.io_blocked ≡ false
    → Keeps (receive_results h ec bytes s)
unfolding receive_results
receive_results-IsUnset h ec bytes s k b = ground (arith, k.unset)

timeout-IsUnset :
    (ec : ℕ) (s : Tester) → IsUnset s → s.io_blocked ≡ false → Keeps (timeout_receive_results ec s)
unfolding timeout_receive_results
timeout-IsUnset ec s k b = ground (arith, k.unset)

handle_bytes-IsUnset : (bs : List ℕ) (s : Tester) → IsUnset s → IsUnset (handle_bytes bs s)
unfolding handle_bytes
handle_bytes-IsUnset [] s k = record { unset = k.unset }
handle_bytes-IsUnset (b ∷ bs) s k = ground (arith, k.unset, handle_bytes-IsUnset bs s k)

handle_receive-IsUnset :
    (ec : ℕ) (bs : List ℕ) (s : Tester) → IsUnset s → IsUnset (handle_receive ec bs s)
unfolding handle_receive
handle_receive-IsUnset ec bs s k = elim (Bool-cases (ec == 0)) [
  | inl e ↦ rw e (handle_bytes-IsUnset bs s k)
  | inr e ↦ rw e (ground (arith, k.unset))
]

complete-IsUnset :
    (h : Host) (r : Reading) (ec : ℕ) (bs : List ℕ) (s : Tester)
    → IsUnset s
    → s.io_blocked ≡ false
    → Keeps (complete h r ec bs s)
complete-IsUnset h no_read ec bs s k b = k
complete-IsUnset h commands ec bs s k b =
    handle_receive-IsUnset ec bs (record s { reading = no_read }) (record { unset = k.unset })
complete-IsUnset h results ec bs s k b =
    receive_results-IsUnset h ec bs (record s { reading = no_read }) (record { unset = k.unset }) b

report_due-IsUnset : (s : Tester) → IsUnset s → Keeps (report_due s)
unfolding report_due
report_due-IsUnset s k = ground (arith, k.unset)

unless_blocked :
    (b : Bool) (x y : Option Tester) → Keeps x → (b ≡ false → Keeps y) → Keeps (if b then x else y)
unless_blocked true x y h k = h
unless_blocked false x y h k = k refl

move-IsUnset : (h : Host) (m : Move) (s : Tester) → IsUnset s → Keeps (move h m s)
unfolding move
move-IsUnset h goes_on s k = step-IsUnset s.phase s refl k
move-IsUnset h stops s k = record { unset = k.unset }
move-IsUnset h (reads ec bs) s k =
    unless_blocked s.io_blocked (some s) _ k (complete-IsUnset h s.reading ec bs s k)
move-IsUnset h (times_out ec) s k =
    unless_blocked s.io_blocked (some s) _ k (timeout-IsUnset ec s k)
move-IsUnset h report_falls_due s k =
    unless_blocked s.io_blocked (some s) _ k (λ b. report_due-IsUnset s k)

run-IsUnset : (h : Host) (ms : List Move) (s : Tester) → IsUnset s → Keeps (run h ms s)
unfolding run
run-IsUnset h [] s k = k
run-IsUnset h (m ∷ ms) s k = elim (Option-cases (move h m s)) [
  | inl e ↦ rw (e, run) tt
  | inr (s', e) ↦ rw (e, run) (run-IsUnset h ms s' (subst Keeps e (move-IsUnset h m s k)))
]

results-wild :
    (h : Host) (ec : ℕ) (bytes : List ℕ) (s : Tester)
    → s.results_timer ≡ wild
    → (receive_results h ec bytes s ≡ none) ↔ (ec ≡ 0)
unfolding receive_results
results-wild h ec bytes s w = (λ n. ground arith, λ z. ground arith)

-- However the test, its handlers, its reports and a stop came to it: the thread has written the
-- request for results and is about to make the timer for them, asio's thread is free, and the read of
-- the results is pending. A read that completes there deletes the pointer that the constructor left
-- uninitialised, which is undefined, exactly if it completes without an error, whatever its bytes.
pub master-throughput-early_results :
    (h : Host) (period : ℕ) (ms : List Move) (s : Tester) (ec : ℕ) (bytes : List ℕ)
    → run h ms (create period) ≡ some s
    → s.phase ≡ timing
    → s.io_blocked ≡ false
    → s.reading ≡ results
    → (move h (reads ec bytes) s ≡ none) ↔ (ec ≡ 0)
unfolding move receive_results create
master-throughput-early_results h period ms s ec bytes e p b r =
    let k : IsUnset s = subst Keeps e (run-IsUnset h ms (create period) (ground arith)) in
    let w : s.results_timer ≡ wild = k.unset (rw p refl) b in
    rw (b, r) (results-wild h ec bytes (record s { io_blocked = false; reading = no_read }) w)
