-- ===== src/Tests/Offline.antt =====
-- The theorem on a lapse: a license validated at the start, with a grace period of seven days.
use bank_statement_processor.Prelude.{◌*◌, false, [], ◌∷◌, ◌≡◌, refl, arith, ap}
use bank_statement_processor.Desktop.Offline.{
  is_licensed, day, derive_offline_status, elapsed_days, rolled_back,
}
use bank_statement_processor.Desktop.Store.{should_advance}
use bank_statement_processor.Desktop.License.{network_error, offline_status, check_status}
use bank_statement_processor.Desktop.Held.{seen, fallen-holding}
use bank_statement_processor.Desktop.Lapse.{checks, lapse_is_final}
use bank_statement_processor.Tests.Enforcement.{host, license, laptop, at_time, unreachable, shop}

lapsed_at_nine : is_licensed (check_status host (at_time (9 * day)) unreachable shop []).0 ≡ false
unfolding offline_status derive_offline_status elapsed_days seen should_advance is_licensed
    rolled_back
lapsed_at_nine =
    ap (λ y. is_licensed y.0)
      (fallen-holding host (at_time (9 * day)) unreachable license "l1" laptop []
        (network_error "offline") refl refl)

-- After nine days the clock is set back to the fifth day, checked, and set back to the first one.
lapse_is_final_example :
    is_licensed
      (check_status host
        (at_time day)
        unreachable
        (checks host unreachable (at_time (9 * day) ∷ at_time (5 * day) ∷ []) shop)
        []).0
    ≡ false
lapse_is_final_example =
    lapse_is_final host unreachable (at_time (9 * day)) (at_time (5 * day) ∷ []) (at_time day)
      license "l1" laptop [] (λ req. (network_error "offline", refl)) refl (omega arith)
      lapsed_at_nine
