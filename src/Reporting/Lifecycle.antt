-- ===== src/Reporting/Lifecycle.antt =====
-- The life of the reporting timer (src/ReportingActivity.h).
use modem_tester.Common.{
  ℕ, zero, suc, ◌+◌, ◌<◌, ◌≡◌, ◌↔◌, ◌⊎◌, none, some, arith, inl, inr, refl, sym, if◌then◌else◌, ltb,
}
use modem_tester.TimerPtr.{live, freed, null}
use modem_tester.Reporting.{Reporting, create, init_reporting, fire, until_end, destroy}

fire-live :
    (n : ℕ) (r : Reporting)
    → r.timer ≡ live
    → fire n r ≡ some (record r { reported = r.reported + n })
unfolding fire
fire-live zero r e = ground arith
fire-live (suc n) r e =
    ground (arith, fire-live n (record r { timer = live; reported = r.reported + 1 }))

-- An activity whose makeReport returns, with periodic reports or with none that fall due: its
-- reporting up to endReporting meets nothing undefined, makes each report that fell due, and leaves
-- the pointer to the deleted timer if the period is positive and null if not. The destructor then
-- deletes the timer a second time, which is undefined, exactly if the period is positive.
pub reporting-double_delete :
    (period fired : ℕ)
    → (0 < period) ⊎ (fired ≡ 0)
    → (r : Reporting) × (until_end period fired ≡ some r)
      × (r.reported ≡ fired)
      × (r.timer ≡ (if ltb 0 period then freed else null))
      × ((destroy r ≡ none) ↔ (0 < period))
unfolding until_end destroy fire
reporting-double_delete zero fired (inl p) = absurd (omega arith)
reporting-double_delete zero fired (inr e) =
    (create 0, rw e refl, sym e, refl, (λ h. ground arith, λ h. absurd (omega arith)))
reporting-double_delete (suc n) fired h =
    let started : (init_reporting (create (suc n))).timer ≡ live = ground arith in
    (
      record (create (suc n)) { timer = freed; reported = fired },
      rw (fire-live fired (init_reporting (create (suc n))) started, until_end) (ground arith),
      refl,
      ground arith,
      (λ h. omega arith, λ h. refl),
    )
