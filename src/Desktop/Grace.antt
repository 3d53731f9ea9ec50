-- ===== src/Desktop/Grace.antt =====
-- How long a license lasts without the server (src/license/validation.rs).
use bank_statement_processor.Prelude.{
  String, eq_iff, ℕ, ◌+◌, ◌*◌, ◌≤◌, ◌<◌, true, Option, none, some, ◌≡◌, ◌↔◌, refl, arith, ltb,
  Bool-cases, inl, inr,
}
use bank_statement_processor.Prelude.Int.{ℤ, pos, negsuc, ◌≤ℤ◌}
use bank_statement_processor.Desktop.Offline.{
  active_offline_grace, is_licensed, day, elapsed_days, days_left, rolled_back,
  derive_offline_status, advance_clock_watermark, status_from_server_response,
}

-- The clock has not been set back behind the watermark.
abbrev pub IsForward : Option ℕ → ℕ → Type 0
IsForward none now = Unit
IsForward (some watermark) now = watermark ≤ now

-- The instant before which the license lasts: the grace period and one more day after the validation.
abbrev pub LastsUntil : ℤ → Option ℕ → ℕ → Type 0
LastsUntil grace none now = ⊥
LastsUntil (pos grace) (some last) now = now < last + (grace + 1) * day
LastsUntil (negsuc n) (some last) now = ⊥

elapsed_days_iff :
    (grace now last : ℕ) → (elapsed_days now last ≤ grace) ↔ (now < last + (grace + 1) * day)
unfolding elapsed_days
elapsed_days_iff grace now last = (λ h. omega arith, λ h. omega arith)

-- The derived offline status is a licensed one exactly when there was a validation, the clock is not
-- behind the highest instant seen, and less than the grace period and one day has passed since the
-- validation (a negative grace period allows nothing).
pub offline_licensed_iff :
    (grace : ℤ) (last highest : Option ℕ) (now : ℕ)
    → (is_licensed (derive_offline_status grace last highest now) ≡ true)
      ↔ (IsForward highest now × LastsUntil grace last now)
unfolding derive_offline_status is_licensed rolled_back
offline_licensed_iff grace none highest now = (λ h. absurd (ground arith), λ h. absurd h.1)
offline_licensed_iff (pos g) (some last) none now = ground (arith, elapsed_days_iff g now last)
offline_licensed_iff (pos g) (some last) (some w) now = ground (arith, elapsed_days_iff g now last)
offline_licensed_iff (negsuc n) (some last) none now = ground arith
offline_licensed_iff (negsuc n) (some last) (some w) now = ground arith

pub LastsUntil-earlier :
    (grace : ℤ) (last : Option ℕ) (now later : ℕ)
    → now ≤ later
    → LastsUntil grace last later
    → LastsUntil grace last now
LastsUntil-earlier grace none now later h l = l
LastsUntil-earlier (pos g) (some last) now later h l = omega arith
LastsUntil-earlier (negsuc n) (some last) now later h l = l

pub advanced_to_now :
    (highest : Option ℕ) (now : ℕ)
    → IsForward highest now
    → advance_clock_watermark highest now ≡ some now
unfolding advance_clock_watermark
advanced_to_now none now f = refl
advanced_to_now (some w) now f = ground arith

pub advanced-IsForward :
    (highest : Option ℕ) (now : ℕ)
    → IsForward (advance_clock_watermark highest now) now ↔ IsForward highest now
unfolding advance_clock_watermark
advanced-IsForward none now = ground arith
advanced-IsForward (some w) now = elim (Bool-cases (ltb w now)) [
  | inl e ↦ rw e (ground (arith, e))
  | inr e ↦ rw e (λ h. h, λ h. h)
]

-- The watermark is at or past an instant.
abbrev pub IsPast : ℕ → Option ℕ → Type 0
IsPast now none = ⊥
IsPast now (some watermark) = now ≤ watermark

pub advanced-IsPast :
    (now : ℕ) (highest : Option ℕ) (clock : ℕ)
    → IsPast now highest
    → IsPast now (advance_clock_watermark highest clock)
unfolding advance_clock_watermark
advanced-IsPast now none clock h = absurd h
advanced-IsPast now (some w) clock h = elim (Bool-cases (ltb w clock)) [
  | inl e ↦ rw e (ground (arith, e))
  | inr e ↦ rw e h
]

pub forward_past :
    (now : ℕ) (highest : Option ℕ) (later : ℕ)
    → IsPast now highest
    → IsForward highest later
    → now ≤ later
forward_past now none later p f = absurd p
forward_past now (some w) later p f = omega arith

-- The days that are reported as left are between none and the whole grace period.
days_left_bounds :
    (grace : ℤ) (last highest : Option ℕ) (now : ℕ) (days_remaining : ℤ)
    → derive_offline_status grace last highest now ≡ active_offline_grace days_remaining
    → (pos 0 ≤ℤ days_remaining) × (days_remaining ≤ℤ grace)
unfolding derive_offline_status days_left
days_left_bounds grace none highest now days_remaining h = absurd (ground arith)
days_left_bounds (pos g) (some last) highest now days_remaining h = ground arith
days_left_bounds (negsuc n) (some last) highest now days_remaining h = absurd (ground arith)

-- Of the statuses that the server may answer, whatever text it is, only "active" counts as licensed.
pub server_licensed_iff :
    (status : String)
    → (is_licensed (status_from_server_response status) ≡ true) ↔ (status ≡ "active")
unfolding status_from_server_response is_licensed
server_licensed_iff status = ground (arith, eq_iff status "active")
