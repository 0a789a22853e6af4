-- ===== src/Remote/Throughput.antt =====
-- src/remote/RemoteThroughput.h and src/remote/RemoteThroughput.cpp: the throughput test of the
-- remote, which notes how many bytes each read brought and when, and reports on request.
pub mod Results
pub mod Sizes
use mathlib.Core.Option
use modem_tester.Common.{
  ℕ, ◌+◌, ◌-◌, ◌%◌, ◌==◌, leb, ltb, if◌then◌else◌, Bool, true, false, List, [], ◌∷◌, Option, none,
  some, length,
}
use modem_tester.Events.{
  Event, end_mode_command, end_test, end_standard_codes, end_mode_command_id, end_test_id, to_byte,
}
use modem_tester.SortedMap.{insert, last}
use modem_tester.Wire.{Host, u32_mod, u32, encode}

pub data Then : Type 0 where
  rearm : Then
  dispatch : Event → Then
  done : Then

pub record Throughput : Type 0 where
  -- _recvedBytes: the time of each read, and its size
  pub recved_bytes : List (ℕ × ℕ)
  pub stop_requested : Bool
  -- the buffers written, newest first
  pub output : List (List ℕ)

-- the constructor
unfoldable pub create : Throughput
create = record { recved_bytes = []; stop_requested = false; output = [] }

-- `for (auto pair : _recvedBytes) totalReceived += pair.second`, in uint32_t
unfoldable pub total : ℕ → List (ℕ × ℕ) → ℕ
total acc [] = acc
total acc ((t, n) ∷ m) = total (u32 (acc + n)) m

-- _recvedBytes.begin () ->first, of a map that is not empty
abbrev pub first_time : List (ℕ × ℕ) → ℕ → ℕ
first_time [] d = d
first_time ((t, n) ∷ m) d = t

-- The `switch` of handleReceive on a byte above EndStandardCodes.
unfoldable pub command : ℕ → Option Event
command b =
    if b == to_byte end_test_id
    then some end_test
    else if b == to_byte end_mode_command_id
    then some end_mode_command
    else none

-- `h` is the remote's machine. `microseconds later earlier` is the uint32_t that the code computes,
-- in doubles, from two times.
module _ (h : Host) (microseconds : ℕ → ℕ → ℕ) where
  -- sendResults; none where it reads through prev (end ()) of an empty map
  unfoldable pub send_results : Throughput → Option Throughput
  unfolding total last encode
  send_results s = elim (last s.recved_bytes) [
    | none ↦ none
    | some (t, n) ↦
        let received = u32 (total 0 s.recved_bytes + u32_mod - u32 n) in
        let usec = microseconds t (first_time s.recved_bytes t) in
        some (record s { output = encode h received usec ∷ s.output })
  ]

  -- the loop of handleReceive that looks for commands; `rearm` means that it ran to its end
  unfoldable pub look_for_commands : List ℕ → Throughput → Option (Throughput × Then)
  unfolding send_results command
  look_for_commands [] s = some (s, rearm)
  look_for_commands (b ∷ bs) s = elim (leb (to_byte end_standard_codes) b) [
    | false ↦ look_for_commands bs s
    | true ↦ elim (b == to_byte end_standard_codes) [
      | true ↦ elim (send_results s) [ none ↦ none | some s' ↦ look_for_commands bs s' ]
      | false ↦ elim (command b) [ some e ↦ some (s, dispatch e) | none ↦ look_for_commands bs s ]
    ]
  ]

  -- what follows the loop: the size of the read is stored under its time, unless it returned
  store : ℕ → ℕ → Throughput × Then → Throughput × Then
  store now n (s, rearm) = (record s { recved_bytes = insert now n s.recved_bytes }, rearm)
  store now n (s, dispatch e) = (s, dispatch e)
  store now n (s, done) = (s, done)

  -- handleReceive at the time `now`, with the value of the error code
  unfoldable pub handle_receive : ℕ → ℕ → List ℕ → Throughput → Option (Throughput × Then)
  unfolding look_for_commands store insert
  handle_receive now ec bytes s =
      if ec == 0
      then Option.map (store now (length bytes)) (look_for_commands bytes s)
      else if ec == 125
      then some (s, done)
      else some (record s { stop_requested = true }, dispatch end_test)

  -- Several reads, each with its time, for as long as the handler starts the next one.
  unfoldable pub serve : List (ℕ × List ℕ) → Throughput → Option (Throughput × Then)
  unfolding handle_receive
  serve [] s = some (s, rearm)
  serve ((now, bytes) ∷ reads) s = elim (handle_receive now 0 bytes s) [
    | none ↦ none
    | some (s', rearm) ↦ serve reads s'
    | some (s', dispatch e) ↦ some (s', dispatch e)
    | some (s', done) ↦ some (s', done)
  ]
