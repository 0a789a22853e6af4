-- ===== src/Reports/Exact.antt =====
-- Which numbers arrive on the bus as they were counted (src/main.cpp).
use modem_tester.Common.{ℕ, ◌<◌, ◌≡◌, ◌↔◌, refl, Bool, List, [], ◌∷◌, arith}
use modem_tester.Reports.{pos, integer, Message, as_signed, throughput_reporting_function}

as_signed-exact : (x : ℕ) → (as_signed 32 x ≡ pos x) ↔ (x < 2_147_483_648)
unfolding as_signed
as_signed-exact x = (λ h. ground arith, λ h. ground arith)

-- The message that carries the two numbers as they are.
abbrev pub exact : {D : Type 0} → ℕ → ℕ → Message D
exact received usecs = record {
  head = "ground THROUGHPUT_REPORT";
  values = integer (pos received) ∷ integer (pos usecs) ∷ [];
}

module _ {D : Type 0} where
  -- The message on a throughput test has the numbers of the test exactly if both are below 2^31,
  -- although they are uint32_t; whether the results are valid makes no difference.
  pub throughput_report-exact :
      (valid : Bool) (received usecs : ℕ) (sent : List (Message D))
      → (throughput_reporting_function valid received usecs sent ≡ exact received usecs ∷ sent)
        ↔ ((received < 2_147_483_648) × (usecs < 2_147_483_648))
  unfolding throughput_reporting_function
  throughput_report-exact valid received usecs sent = (
    λ h. ((as_signed-exact received).0 (cc h), (as_signed-exact usecs).0 (cc h)),
    λ (h, k). rw ((as_signed-exact received).1 h, (as_signed-exact usecs).1 k) refl,
  )
