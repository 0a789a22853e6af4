-- ===== src/Session.antt =====
-- A whole throughput test: src/master/MasterThroughput.cpp at one end of a lossless line and
-- src/remote/RemoteThroughput.cpp at the other.
use modem_tester.Common.{
  ℕ, zero, suc, ◌-◌, ◌*◌, ◌<◌, ◌≡◌, refl, true, List, [], ◌∷◌, ◌++◌, some, arith, length,
  length-append, All-append, All-split, replicate, subst, sym, ap, ◌∙◌,
}
use modem_tester.Events.{end_mode_command}
use modem_tester.SortedMap.{last, Above}
use modem_tester.Wire.{Host, u32_mod, u32}
use modem_tester.Master.Throughput as MT
use modem_tester.Master.Throughput.{goes_on, reads, polling, results}
use modem_tester.Master.Throughput.Results as MR
use modem_tester.Master.Throughput.Waiting as MW
use modem_tester.Remote.Throughput as RT
use modem_tester.Remote.Throughput.Results as RR
use modem_tester.Remote.Throughput.Sizes.{sum, sum_but_last, sum-last}

-- The bytes that the reads bring.
unfoldable pub contents : List (ℕ × List ℕ) → List ℕ
contents [] = []
contents ((now, bytes) ∷ chunks) = bytes ++ contents chunks

-- The bytes of n buffers of the test.
unfoldable pub buffers : ℕ → List ℕ
buffers zero = []
buffers (suc n) = MT.send_buf ++ buffers n

buffers-IsData : (n : ℕ) → RR.IsData (buffers n)
unfolding buffers
buffers-IsData zero = tt
buffers-IsData (suc n) =
    All-append (λ b. b < 240) MT.send_buf (buffers n) MR.master-throughput-send_buf.1
      (buffers-IsData n)

length-buffers : (n : ℕ) → length (buffers n) ≡ 240 * n
unfolding buffers
length-buffers zero = refl
length-buffers (suc n) = omega (
  arith,
  length-append MT.send_buf (buffers n),
  MR.master-throughput-send_buf.0,
  length-buffers n,
)

contents-AllData : (chunks : List (ℕ × List ℕ)) → RR.IsData (contents chunks) → RR.AllData chunks
unfolding contents
contents-AllData [] d = tt
contents-AllData ((now, bytes) ∷ chunks) d =
    let (d1, d2) = All-split (λ b. b < 240) bytes (contents chunks) d in
    (d1, contents-AllData chunks d2)

sum-sizes : (chunks : List (ℕ × List ℕ)) → sum (RR.sizes chunks) ≡ length (contents chunks)
unfolding contents sum
sum-sizes [] = refl
sum-sizes ((now, bytes) ∷ chunks) =
    omega (arith, length-append bytes (contents chunks), sum-sizes chunks)

sum_but_last-chunks :
    (chunks : List (ℕ × List ℕ)) (t n : ℕ)
    → contents chunks ≡ buffers 10
    → last (RR.sizes chunks) ≡ some (t, n)
    → u32 (sum_but_last (RR.sizes chunks)) ≡ 2400 - n
sum_but_last-chunks chunks t n c l =
    omega
      (arith, sum-last (RR.sizes chunks) t n l, sum-sizes chunks, length-buffers 10, ap length c)

module _ (master remote : Host) (microseconds : ℕ → ℕ → ℕ) where
  -- The test up to its wait for results; the remote's reads, and its answer; the report.
  abbrev pub Reports : List (ℕ × List ℕ) → ℕ → ℕ → ℕ → Type 0
  Reports chunks later n usec =
      (waiting : MT.Tester) × (served : RT.Throughput) × (buffer : List ℕ) × (reported : MT.Tester)
      × (ended : MT.Tester) × (MT.run master (replicate 17 goes_on) (MT.create 0) ≡ some waiting)
      × (waiting.output ≡ (240 ∷ []) ∷ replicate 10 MT.send_buf)
      × (RT.serve remote microseconds (chunks ++ (later, 240 ∷ []) ∷ []) RT.create
          ≡ some (served, RT.rearm))
      × (served.output ≡ buffer ∷ [])
      × (MT.run master (reads 0 buffer ∷ goes_on ∷ goes_on ∷ goes_on ∷ []) waiting ≡ some reported)
      × (reported.reports
          ≡ record { valid = true; received = some (2400 - n); usec = some usec } ∷ [])
      × (MT.run master (goes_on ∷ []) reported ≡ some ended)
      × (ended.dispatched ≡ end_mode_command ∷ [])
      × ((now : ℕ)
          → RT.handle_receive remote microseconds now 0 (243 ∷ []) served
            ≡ some (served, RT.dispatch end_mode_command))

  serves_end :
      (now : ℕ) (s : RT.Throughput)
      → RT.handle_receive remote microseconds now 0 (243 ∷ []) s
        ≡ some (s, RT.dispatch end_mode_command)
  unfolding RT.handle_receive
  serves_end now s = refl

  -- The master runs its test without periodic reports and undisturbed until it waits for the results:
  -- it has written ten buffers and the request (240). Over a line that loses nothing the remote reads
  -- the 2400 bytes of the buffers in chunks of any sizes, the last at the time t and of n bytes, at
  -- times that rise, and then the request alone. It answers with one buffer, and when the master reads
  -- that, the report is valid: 2400 - n bytes, in the microseconds from the first read to t, if those
  -- are below 2^32. The byte orders of the two machines do not matter. The master's test then
  -- dispatches EndModeCommand, and so does the remote's when it reads that byte (243).
  pub throughput-session :
      (chunks : List (ℕ × List ℕ)) (t n later : ℕ)
      → contents chunks ≡ buffers 10
      → Above 0 (RR.sizes chunks)
      → last (RR.sizes chunks) ≡ some (t, n)
      → microseconds t (RT.first_time (RR.sizes chunks) t) < u32_mod
      → Reports chunks later n (microseconds t (RT.first_time (RR.sizes chunks) t))
  throughput-session chunks t n later c a l lt =
      let d : RR.AllData chunks =
        contents-AllData chunks (subst RR.IsData (sym c) (buffers-IsData 10)) in
      let (served, buffer, e, o, decoded) =
        RR.remote-throughput-reports remote microseconds master chunks t n later a d l lt in
      let (waiting, w, k) = MW.run-IsWaiting master in
      let usec = microseconds t (RT.first_time (RR.sizes chunks) t) in
      let (reported, r, rs, ph, ds) =
        MW.reports_decoded master buffer (2400 - n) usec waiting
          (decoded ∙ ap (λ r. some (r, usec)) (sum_but_last-chunks chunks t n c l)) k.polls
          k.reads_results k.timed k.free in
      let (ended, e2, ds2) = MW.posts_end master reported ph in
      (
        waiting,
        served,
        buffer,
        reported,
        ended,
        w,
        k.wrote,
        e,
        o,
        r,
        rs
            ∙ ap (λ l. record { valid = true; received = some (2400 - n); usec = some usec } ∷ l)
                k.unreported,
        e2,
        ds2 ∙ ap (λ l. end_mode_command ∷ l) (ds ∙ k.undispatched),
        λ now. serves_end now served,
      )
