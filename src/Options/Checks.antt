-- ===== src/Options/Checks.antt =====
-- Which options src/main.cpp accepts.
use modem_tester.Common.{ℕ, ◌+◌, ◌≡◌, ◌↔◌, true, false, arith}
use modem_tester.Options.{Options, parsed, serves_remote, serves_master, check_options}

-- If the library's severities end at 5, as documented: the process serves as the remote, with severity
-- s, exactly if no help was asked for, a path was given, --remote was given, and the level and s add up
-- to 5, so that the unsigned subtraction never wraps; likewise as the master, without --remote.
pub options-accepted :
    (fatal s : ℕ) (o : Options)
    → fatal ≡ 5
    → ((check_options fatal (parsed o) ≡ serves_remote s)
        ↔ ((o.help ≡ false) × (o.path ≡ true) × (o.remote ≡ true) × (o.log_level + s ≡ 5)))
      × ((check_options fatal (parsed o) ≡ serves_master s)
          ↔ ((o.help ≡ false) × (o.path ≡ true) × (o.remote ≡ false) × (o.log_level + s ≡ 5)))
unfolding check_options
options-accepted fatal s o e =
    ((λ h. ground arith, λ h. ground arith), (λ h. ground arith, λ h. ground arith))
