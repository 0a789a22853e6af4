-- ===== src/Wire/Results.antt =====
-- The round trip of the results between two machines (src/remote/RemoteThroughput.cpp to
-- src/master/MasterThroughput.cpp).
use modem_tester.Common.{ℕ, ◌<◌, ◌≡◌, some, arith}
use modem_tester.Wire.{Host, u32_mod, big_endian, encode, decode}

-- A uint32_t is put together again from its bytes in network order.
big_endian_value : (h : Host) (x : ℕ) → x < u32_mod → h.ntohl (h.of_memory (big_endian x)) ≡ x
big_endian_value h x lt =
    omega
      (arith, h.ntohl_lem (big_endian x) (omega arith) (omega arith) (omega arith) (omega arith))

-- Whatever the byte orders of the two machines, the master reads the two numbers that the remote
-- wrote, if they are below 2^32.
pub wire-decode-encode :
    (remote master : Host) (received usec : ℕ)
    → received < u32_mod
    → usec < u32_mod
    → decode master (encode remote received usec) ≡ some (received, usec)
unfolding decode encode
wire-decode-encode remote master received usec hr hu = rw (
  remote.htonl_lem received hr,
  remote.htonl_lem usec hu,
  big_endian_value master received hr,
  big_endian_value master usec hu,
)
