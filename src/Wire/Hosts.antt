-- ===== src/Wire/Hosts.antt =====
-- Two machines, which show that what is assumed of a host can be met: one keeps the most
-- significant byte first and one the least significant.
use modem_tester.Common.{ℕ, ◌+◌, ◌*◌, ◌<◌, ◌≡◌, refl, ap, arith}
use modem_tester.Wire.{Word, Host, big_endian}

abbrev pub most_first : Word → ℕ
most_first w = w.b0 * 16_777_216 + w.b1 * 65_536 + w.b2 * 256 + w.b3

abbrev pub reversed : Word → Word
reversed w = record { b0 = w.b3; b1 = w.b2; b2 = w.b1; b3 = w.b0 }

most_first-big_endian :
    (w : Word) → w.b0 < 256 → w.b1 < 256 → w.b2 < 256 → w.b3 < 256 → big_endian (most_first w) ≡ w
most_first-big_endian w h0 h1 h2 h3 = ground arith

abbrev pub network : Host
network = record {
  to_memory = big_endian;
  of_memory = most_first;
  htonl = λ x. x;
  ntohl = λ x. x;
  htonl_lem = λ x h. refl;
  ntohl_lem = λ w h0 h1 h2 h3. refl;
}

unfoldable pub swap : ℕ → ℕ
swap x = most_first (reversed (big_endian x))

pub swap_memory : (x : ℕ) → reversed (big_endian (swap x)) ≡ big_endian x
unfolding swap
swap_memory x = ap reversed (
    most_first-big_endian (reversed (big_endian x)) (omega arith) (omega arith) (omega arith)
      (omega arith))

pub swap_value :
    (w : Word)
    → w.b0 < 256
    → w.b1 < 256
    → w.b2 < 256
    → w.b3 < 256
    → swap (most_first (reversed w)) ≡ most_first w
unfolding swap
swap_value w h0 h1 h2 h3 =
    ap (λ v. most_first (reversed v)) (most_first-big_endian (reversed w) h3 h2 h1 h0)

abbrev pub intel : Host
intel = record {
  to_memory = λ x. reversed (big_endian x);
  of_memory = λ w. most_first (reversed w);
  htonl = swap;
  ntohl = swap;
  htonl_lem = λ x h. swap_memory x;
  ntohl_lem = swap_value;
}
