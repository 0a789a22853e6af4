-- ===== src/Remote/Pinger/Echo.antt =====
-- What the remote's availability test (src/remote/RemotePinger.cpp) sends back, and the round trip
-- of a byte of the master's (src/master/MasterPinger.cpp).
use modem_tester.Common.{ℕ, ◌≤◌, ◌≡◌, refl, List, [], ◌∷◌, ◌++◌, arith, All}
use modem_tester.Remote.Pinger.{serve}

-- Read one by one, standard codes all come back, in order, and what follows them is still served.
pub remote-pinger-serve :
    (bs rest : List ℕ) → All (λ b. b ≤ 240) bs → serve (bs ++ rest) ≡ bs ++ serve rest
unfolding serve
remote-pinger-serve [] rest h = refl
remote-pinger-serve (b ∷ bs) rest h = ground (arith, remote-pinger-serve bs rest h.1)
