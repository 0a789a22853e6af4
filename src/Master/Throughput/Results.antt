-- ===== src/Master/Throughput/Results.antt =====
-- What the throughput test of the master (src/master/MasterThroughput.cpp) sends and reports.
use modem_tester.Common.{
  subst, ℕ, zero, suc, ◌+◌, ◌<◌, ◌≡◌, ◌⊎◌, inl, inr, refl, Bool, true, false, List, [], ◌∷◌, Option,
  none, some, arith, length, All, ◌==◌, Bool-cases, Option-cases, if◌then◌else◌,
}
use modem_tester.TimerPtr.{live}
use modem_tester.Wire.{Host, encode, u32_mod}
use modem_tester.Wire.Results.{wire-decode-encode}
use modem_tester.Master.Throughput.Waiting.{reports_decoded}
use modem_tester.Master.Throughput.{
  Tester, Phase, Report, Move, Reading, no_read, commands, results, rereading, reporting, starting,
  polling, goes_on, reads, times_out, stops, codes_from, send_buf, create, step_at, receive_results,
  timeout_receive_results, report_due, report_falls_due, handle_bytes, handle_receive, complete,
  move, run,
}

codes_from-standard : (n byte : ℕ) → byte + n < 241 → All (λ b. b < 240) (codes_from n byte)
unfolding codes_from
codes_from-standard zero byte h = tt
codes_from-standard (suc n) byte h = (omega arith, codes_from-standard n (byte + 1) (omega arith))

length-codes_from : (n byte : ℕ) → length (codes_from n byte) ≡ n
unfolding codes_from
length-codes_from zero byte = refl
length-codes_from (suc n) byte = omega (arith, length-codes_from n (byte + 1))

abbrev pub is_known : Option ℕ → Bool
is_known none = false
is_known (some n) = true

-- A valid report of two numbers that were received.
abbrev pub IsComplete : Report → Type 0
IsComplete r = (r.valid ≡ true) × (is_known r.received ≡ true) × (is_known r.usec ≡ true)

-- A buffer of the test, or the request for results.
abbrev pub IsSent : List ℕ → Type 0
IsSent buffer = (buffer ≡ send_buf) ⊎ (buffer ≡ 240 ∷ [])

abbrev is_past : Phase → Bool
is_past rereading = true
is_past reporting = true
is_past _ = false

-- The report that would be made.
abbrev Known : Tester → Type 0
Known s =
    IsComplete (record { valid = s.got_results; received = s.total_received; usec = s.total_usec })

record IsHonest (s : Tester) : Type 0 where
  ready : s.results_ready ≡ true → Known s
  past : is_past s.phase ≡ true → Known s
  honest : All IsComplete s.reports
  sent : All IsSent s.output

abbrev Keeps : Option Tester → Type 0
Keeps none = Unit
Keeps (some s) = IsHonest s

step-IsHonest : (ph : Phase) (s : Tester) → s.phase ≡ ph → IsHonest s → Keeps (step_at ph s)
unfolding step_at
step-IsHonest starting s e h = ground arith
step-IsHonest ph s e h = ground arith

receive_results-IsHonest :
    (h : Host) (ec : ℕ) (bytes : List ℕ) (s : Tester)
    → IsHonest s
    → Keeps (receive_results h ec bytes s)
unfolding receive_results
receive_results-IsHonest h ec bytes s k = ground arith

timeout-IsHonest : (ec : ℕ) (s : Tester) → IsHonest s → Keeps (timeout_receive_results ec s)
unfolding timeout_receive_results
timeout-IsHonest ec s k = ground arith

handle_bytes-IsHonest : (bs : List ℕ) (s : Tester) → IsHonest s → IsHonest (handle_bytes bs s)
unfolding handle_bytes
handle_bytes-IsHonest [] s k = ground arith
handle_bytes-IsHonest (b ∷ bs) s k = ground (arith, handle_bytes-IsHonest bs s k)

handle_receive-IsHonest :
    (ec : ℕ) (bs : List ℕ) (s : Tester) → IsHonest s → IsHonest (handle_receive ec bs s)
unfolding handle_receive
handle_receive-IsHonest ec bs s k = elim (Bool-cases (ec == 0)) [
  | inl e ↦ rw e (handle_bytes-IsHonest bs s k)
  | inr e ↦ rw e (ground arith)
]

complete-IsHonest :
    (h : Host) (r : Reading) (ec : ℕ) (bs : List ℕ) (s : Tester)
    → IsHonest s
    → Keeps (complete h r ec bs s)
complete-IsHonest h no_read ec bs s k = k
complete-IsHonest h commands ec bs s k = handle_receive-IsHonest ec bs _ (unread s k)
  where
    unread : (s : Tester) → IsHonest s → IsHonest (record s { reading = no_read })
    unread s k = record { ready = k.ready; past = k.past; honest = k.honest; sent = k.sent }
complete-IsHonest h results ec bs s k =
    receive_results-IsHonest h ec bs (record s { reading = no_read })
      (record { ready = k.ready; past = k.past; honest = k.honest; sent = k.sent })

report_due-IsHonest : (s : Tester) → IsHonest s → Keeps (report_due s)
unfolding report_due
report_due-IsHonest s k = ground arith

if-Keeps : (b : Bool) (x y : Option Tester) → Keeps x → Keeps y → Keeps (if b then x else y)
if-Keeps true x y h k = h
if-Keeps false x y h k = k

move-IsHonest : (h : Host) (m : Move) (s : Tester) → IsHonest s → Keeps (move h m s)
unfolding move
move-IsHonest h goes_on s k = step-IsHonest s.phase s refl k
move-IsHonest h (reads ec bs) s k =
    if-Keeps s.io_blocked (some s) _ k (complete-IsHonest h s.reading ec bs s k)
move-IsHonest h (times_out ec) s k = if-Keeps s.io_blocked (some s) _ k (timeout-IsHonest ec s k)
move-IsHonest h report_falls_due s k = if-Keeps s.io_blocked (some s) _ k (report_due-IsHonest s k)
move-IsHonest h stops s k = record {
  ready = k.ready;
  past = k.past;
  honest = k.honest;
  sent = k.sent;
}

run-IsHonest : (h : Host) (ms : List Move) (s : Tester) → IsHonest s → Keeps (run h ms s)
unfolding run
run-IsHonest h [] s k = k
run-IsHonest h (m ∷ ms) s k = elim (Option-cases (move h m s)) [
  | inl e ↦ rw (e, run) tt
  | inr (s', e) ↦ rw (e, run) (run-IsHonest h ms s' (subst Keeps e (move-IsHonest h m s k)))
]

-- However the test, its handlers and a stop interleave, as long as nothing undefined was met: every
-- report that was made is valid and has both numbers, and every buffer that was written is the test
-- buffer or the request for results.
pub master-throughput-honest :
    (h : Host) (period : ℕ) (ms : List Move) (s : Tester)
    → run h ms (create period) ≡ some s
    → All IsComplete s.reports × All IsSent s.output
unfolding create
master-throughput-honest h period ms s e =
    let k : IsHonest s = subst Keeps e (run-IsHonest h ms (create period) (ground arith)) in
    (k.honest, k.sent)

-- The test buffer is 240 bytes, none of which a receiver takes for a command or a request.
pub master-throughput-send_buf : (length send_buf ≡ 240) × All (λ b. b < 240) send_buf
unfolding send_buf
master-throughput-send_buf = (length-codes_from 240 0, codes_from-standard 240 0 (omega arith))

-- While the test waits for results with its timer set, and asio's thread is free, the buffer that a
-- remote on any machine makes of two numbers below 2^32 ends the wait, and the next report is of
-- these two numbers.
pub master-throughput-reports_results :
    (h remote : Host) (received usec : ℕ) (s : Tester)
    → received < u32_mod
    → usec < u32_mod
    → s.phase ≡ polling
    → s.reading ≡ results
    → s.results_timer ≡ live
    → s.io_blocked ≡ false
    → (s' : Tester) × (run h
          (reads 0 (encode remote received usec) ∷ goes_on ∷ goes_on ∷ goes_on ∷ [])
          s
        ≡ some s')
      × (s'.reports
          ≡ record { valid = true; received = some received; usec = some usec } ∷ s.reports)
master-throughput-reports_results h remote received usec s hr hu p r t io =
    let (s', e, reported, _, _) =
      reports_decoded h (encode remote received usec) received usec s
        (wire-decode-encode remote h received usec hr hu) p r t io in
    (s', e, reported)
