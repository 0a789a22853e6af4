-- ===== src/Remote/Throughput/Results.antt =====
-- What the remote's throughput test (src/remote/RemoteThroughput.cpp) reports.

use mathlib.Core.List.{append-nil, append_assoc}
use modem_tester.Common.{
  ℕ, ◌+◌, ◌-◌, ◌<◌, ◌≡◌, ◌≢◌, refl, ◌∙◌, ◌==◌, leb, true, false, List, [], ◌∷◌, ◌++◌, none, some,
  arith, length, All, Bool-cases, Option-cases, inl, inr,
}
use modem_tester.Events.{end_test}
use modem_tester.SortedMap.{insert, last, Above}
use modem_tester.Wire.{Host, u32_mod, u32, encode, decode}
use modem_tester.Wire.Results.{wire-decode-encode}
use modem_tester.Remote.Throughput.Sizes.{
  sum_but_last, total-sum, sum-last, insert_rising, nonempty,
}
use modem_tester.Remote.Throughput.{
  Throughput, Then, rearm, dispatch, done, create, total, first_time, command, send_results,
  look_for_commands, store, handle_receive, serve,
}

-- Bytes that are no command and no request for results.
abbrev pub IsData : List ℕ → Type 0
IsData = All (λ b. b < 240)

-- What _recvedBytes holds after reads at rising times, and reads of nothing but data.
abbrev pub sizes : List (ℕ × List ℕ) → List (ℕ × ℕ)
sizes [] = []
sizes ((now, bs) ∷ reads) = (now, length bs) ∷ sizes reads

abbrev pub AllData : List (ℕ × List ℕ) → Type 0
AllData = All (λ r. IsData r.1)

module _ (h : Host) (microseconds : ℕ → ℕ → ℕ) where
  look-data :
      (bs rest : List ℕ) (s : Throughput)
      → IsData bs
      → look_for_commands h microseconds (bs ++ rest) s ≡ look_for_commands h microseconds rest s
  unfolding look_for_commands
  look-data [] rest s d = refl
  look-data (b ∷ bs) rest s d = ground (arith, look-data bs rest s d.1)

  look-data_all :
      (bs : List ℕ) (s : Throughput)
      → IsData bs
      → look_for_commands h microseconds bs s ≡ some (s, rearm)
  unfolding look_for_commands
  look-data_all [] s d = refl
  look-data_all (b ∷ bs) s d = ground (arith, look-data_all bs s d.1)

  handle-data :
      (now : ℕ) (bs : List ℕ) (s : Throughput)
      → IsData bs
      → handle_receive h microseconds now 0 bs s
        ≡ some (record s { recved_bytes = insert now (length bs) s.recved_bytes }, rearm)
  unfolding handle_receive
  handle-data now bs s d = rw (look-data_all bs s d)

  serve-data :
      (reads : List (ℕ × List ℕ)) (rest : List (ℕ × List ℕ)) (m : List (ℕ × ℕ)) (s : Throughput)
      → Above 0 (m ++ sizes reads)
      → AllData reads
      → serve h microseconds (reads ++ rest) (record s { recved_bytes = m })
        ≡ serve h microseconds rest (record s { recved_bytes = m ++ sizes reads })
  unfolding serve
  serve-data [] rest m s a d = rw (append-nil m)
  serve-data ((now, bs) ∷ reads) rest m s a d =
      rw
        (
          handle-data now bs (record s { recved_bytes = m }) d.0,
          serve,
          insert_rising now (length bs) m (sizes reads) 0 a,
        )
        (rw (← append_assoc m ((now, length bs) ∷ []) (sizes reads)) (
          serve-data reads rest (m ++ (now, length bs) ∷ []) s
            (rw (append_assoc m ((now, length bs) ∷ []) (sizes reads)) a) d.1))

  received_total :
      (m : List (ℕ × ℕ)) (t n : ℕ)
      → last m ≡ some (t, n)
      → u32 (total 0 m + u32_mod - u32 n) ≡ u32 (sum_but_last m)
  received_total m t n e = omega (arith, total-sum 0 m (omega arith), sum-last m t n e)

  send_results-eq :
      (s : Throughput) (t n : ℕ)
      → last s.recved_bytes ≡ some (t, n)
      → send_results h microseconds s
        ≡ some (record s {
          output =
              encode h
                (u32 (sum_but_last s.recved_bytes))
                (microseconds t (first_time s.recved_bytes t))
              ∷ s.output;
        })
  unfolding send_results
  send_results-eq s t n e = rw (e, send_results, received_total s.recved_bytes t n e)

  -- The request for results, alone in a read.
  marker-eq :
      (now : ℕ) (s s' : Throughput)
      → send_results h microseconds s ≡ some s'
      → handle_receive h microseconds now 0 (240 ∷ []) s
        ≡ some (record s' { recved_bytes = insert now 1 s'.recved_bytes }, rearm)
  unfolding handle_receive
  marker-eq now s s' e = rw (e, look_for_commands)

  -- The remote reads data, at times that rise, at least once, and then a request for results (240)
  -- alone. It answers with one buffer, and the master, on any machine, decodes from it the number of
  -- bytes read but for the last read, modulo 2^32, and the microseconds from the first read to the
  -- last, if those are below 2^32.
  pub remote-throughput-reports :
      (master : Host) (reads : List (ℕ × List ℕ)) (t n later : ℕ)
      → Above 0 (sizes reads)
      → AllData reads
      → last (sizes reads) ≡ some (t, n)
      → microseconds t (first_time (sizes reads) t) < u32_mod
      → (s : Throughput) × (buffer : List ℕ) × (serve h microseconds
            (reads ++ (later, 240 ∷ []) ∷ [])
            create
          ≡ some (s, rearm))
        × (s.output ≡ buffer ∷ [])
        × (decode master buffer
            ≡ some (u32 (sum_but_last (sizes reads)), microseconds t (first_time (sizes reads) t)))
  unfolding create serve
  remote-throughput-reports master reads t n later a d e lt = (
    record { recved_bytes = insert later 1 m; stop_requested = false; output = buffer ∷ [] },
    buffer,
    serve-data reads ((later, 240 ∷ []) ∷ []) [] create a d
        ∙ rw (marker-eq later stored _ (send_results-eq stored t n e), serve),
    refl,
    wire-decode-encode h master _ _ (omega arith) lt,
  )
    where
      m : List (ℕ × ℕ)
      m = sizes reads

      stored : Throughput
      stored = record create { recved_bytes = m }

      buffer : List ℕ
      buffer = encode h (u32 (sum_but_last m)) (microseconds t (first_time m t))

  -- A request for results before any read was stored, after data or at once, reads through the end
  -- of an empty map.
  pub remote-throughput-early_request :
      (now : ℕ) (bs rest : List ℕ) (s : Throughput)
      → IsData bs
      → s.recved_bytes ≡ []
      → handle_receive h microseconds now 0 (bs ++ 240 ∷ rest) s ≡ none
  unfolding handle_receive send_results last
  remote-throughput-early_request now bs rest s d e =
      rw (look-data bs (240 ∷ rest) s d, look_for_commands, e)

  last-cons : (e : ℕ × ℕ) (m : List (ℕ × ℕ)) → (x : ℕ × ℕ) × (last (e ∷ m) ≡ some x)
  unfolding last
  last-cons e [] = (e, refl)
  last-cons e (d ∷ m) = last-cons d m

  look-total :
      (bs : List ℕ) (s : Throughput) (e : ℕ × ℕ) (m : List (ℕ × ℕ))
      → s.recved_bytes ≡ e ∷ m
      → (r : Throughput × Then) × (look_for_commands h microseconds bs s ≡ some r)
  unfolding look_for_commands
  look-total [] s e m q = ((s, rearm), refl)
  look-total (b ∷ bs) s e m q = elim (Bool-cases (leb 240 b)) [
    | inr n ↦ rw (n, look_for_commands) (look-total bs s e m q)
    | inl y ↦ elim (Bool-cases (b == 240)) [
      | inr n ↦ elim (Option-cases (command b)) [
        | inl c ↦ rw (y, n, c, look_for_commands) (look-total bs s e m q)
        | inr (ev, c) ↦ rw (y, n, c, look_for_commands) ((s, dispatch ev), refl)
      ]
      | inl z ↦
          let ((t, k), l) = last-cons e m in
          rw (y, z, send_results-eq s t k (rw q l), look_for_commands) (look-total bs _ e m q)
    ]
  ]

  -- Once a read is stored, no read faults, whatever bytes or error code it brings.
  pub remote-throughput-never_faults :
      (now ec : ℕ) (bs : List ℕ) (s : Throughput)
      → s.recved_bytes ≢ []
      → (r : Throughput × Then) × (handle_receive h microseconds now ec bs s ≡ some r)
  unfolding handle_receive
  remote-throughput-never_faults now ec bs s n =
      let (e, m, q) = nonempty s.recved_bytes n in
      let (r, l) = look-total bs s e m q in
      elim (Bool-cases (ec == 0)) [
        | inl z ↦ (store h microseconds now (length bs) r, rw (z, l))
        | inr k ↦ elim (Bool-cases (ec == 125)) [
          | inl c ↦ ((s, done), rw (k, c))
          | inr c ↦ ((record s { stop_requested = true }, dispatch end_test), rw (k, c))
        ]
      ]
