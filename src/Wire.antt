-- ===== src/Wire.antt =====
-- The results of a throughput test on the line: the two uint32_t that RemoteThroughput::sendResults
-- (src/remote/RemoteThroughput.cpp) writes and MasterThroughput::receiveResults
-- (src/master/MasterThroughput.cpp) reads. htonl, ntohl and the layout of a uint32_t in memory
-- belong to the machine at each end, and the two may differ.
pub mod Hosts
pub mod Results
use modem_tester.Common.{
  ℕ, ◌+◌, ◌*◌, ◌/◌, ◌%◌, ◌<◌, ◌≡◌, List, [], ◌∷◌, Option, none, some, length, ◌==◌, if◌then◌else◌,
}

abbrev pub u32_mod : ℕ
u32_mod = 4_294_967_296

abbrev pub u32 : ℕ → ℕ
u32 n = n % u32_mod

-- Four bytes, in the order of their addresses.
pub record Word : Type 0 where
  pub b0 : ℕ
  pub b1 : ℕ
  pub b2 : ℕ
  pub b3 : ℕ

-- Most significant byte first, as the network has it.
abbrev pub big_endian : ℕ → Word
big_endian x = record {
  b0 = x / 16_777_216 % 256;
  b1 = x / 65_536 % 256;
  b2 = x / 256 % 256;
  b3 = x % 256;
}

-- A machine: the bytes of a uint32_t in its memory, the uint32_t of four bytes, htonl and ntohl,
-- with what is documented of them.
pub record Host : Type 0 where
  pub to_memory : ℕ → Word
  pub of_memory : Word → ℕ
  pub htonl : ℕ → ℕ
  pub ntohl : ℕ → ℕ
  pub htonl_lem : (x : ℕ) → x < u32_mod → to_memory (htonl x) ≡ big_endian x
  pub ntohl_lem :
      (w : Word)
      → w.b0 < 256
      → w.b1 < 256
      → w.b2 < 256
      → w.b3 < 256
      → ntohl (of_memory w) ≡ w.b0 * 16_777_216 + w.b1 * 65_536 + w.b2 * 256 + w.b3

abbrev bytes_of : Word → List ℕ → List ℕ
bytes_of w rest = w.b0 ∷ w.b1 ∷ w.b2 ∷ w.b3 ∷ rest

-- The buffer that sendResults fills, through `ptr`, from two uint32_t.
unfoldable pub encode : Host → ℕ → ℕ → List ℕ
encode h received usec =
    bytes_of (h.to_memory (h.htonl received)) (bytes_of (h.to_memory (h.htonl usec)) [])

-- What receiveResults takes from its buffer; none unless there are eight bytes.
unfoldable pub decode : Host → List ℕ → Option (ℕ × ℕ)
decode h (a0 ∷ a1 ∷ a2 ∷ a3 ∷ c0 ∷ c1 ∷ c2 ∷ c3 ∷ []) = some (
  h.ntohl (h.of_memory (record { b0 = a0; b1 = a1; b2 = a2; b3 = a3 })),
  h.ntohl (h.of_memory (record { b0 = c0; b1 = c1; b2 = c2; b3 = c3 })),
)
decode h _ = none
