-- ===== src/Remote/Pinger.antt =====
-- src/remote/RemotePinger.h and src/remote/RemotePinger.cpp: the availability test of the remote,
-- which sends back what it reads.
pub mod Echo
use modem_tester.Common.{
  ℕ, ◌==◌, leb, if◌then◌else◌, Bool, true, false, List, [], ◌∷◌, ◌++◌, Option, none, some,
}
use modem_tester.Events.{
  Event, end_mode_command, end_test, end_standard_codes, end_mode_command_id, end_test_id, to_byte,
}

-- What handleReceive does last: it starts the next read, it dispatches an event to RemoteFSM and
-- returns, or it only returns.
pub data Then : Type 0 where
  rearm : Then
  dispatch : Event → Then
  done : Then

-- What one call of handleReceive does: the bytes that it writes, in order, whether it sets
-- _stopRequested, and how it ends.
pub record Handled : Type 0 where
  pub writes : List ℕ
  pub stops : Bool
  pub ends : Then

-- The `switch` of handleReceive on a byte that is no standard code.
unfoldable pub command : ℕ → Option Event
command b =
    if b == to_byte end_test_id
    then some end_test
    else if b == to_byte end_mode_command_id
    then some end_mode_command
    else none

abbrev also_writes : ℕ → Handled → Handled
also_writes b h = record h { writes = b ∷ h.writes }

-- The loop over the bytes read. What is written back is `buffer (_recvBuf, 1)`, the first byte of
-- the buffer, whichever byte the loop is at.
unfoldable pub receive_bytes : ℕ → List ℕ → Handled
receive_bytes first [] = record { writes = []; stops = false; ends = rearm }
receive_bytes first (b ∷ bs) = elim (leb b (to_byte end_standard_codes)) [
  | true ↦ also_writes first (receive_bytes first bs)
  | false ↦ elim (command b) [
    | some e ↦ record { writes = []; stops = false; ends = dispatch e }
    | none ↦ receive_bytes first bs
  ]
]

-- _recvBuf[0] of a read of these bytes; it is not read when there are none.
abbrev first_of : List ℕ → ℕ
first_of [] = 0
first_of (b ∷ bs) = b

-- handleReceive, with the value of the error code
unfoldable pub handle_receive : ℕ → List ℕ → Handled
unfolding receive_bytes command
handle_receive ec bytes =
    if ec == 0
    then receive_bytes (first_of bytes) bytes
    else if ec == 125
    then record { writes = []; stops = false; ends = done }
    else record { writes = []; stops = true; ends = dispatch end_test }

-- The bytes written over a sequence of reads of one byte each, as `operator()` and handleReceive
-- start them, until the handler starts no next read.
unfoldable pub serve : List ℕ → List ℕ
unfolding handle_receive
serve [] = []
serve (b ∷ bs) =
    let h = handle_receive 0 (b ∷ []) in
    let rest = serve bs in h.writes ++ (elim h.ends [ rearm ↦ rest | dispatch e ↦ [] | done ↦ [] ])
