-- ===== src/Tests/Matching.antt =====
-- The theorems on the matching of bank entries at two entries and two vouchers, told apart by their
-- amounts. A score is a whole number of hundredths.
use bank_statement_processor.Prelude.{
  range_from, ℕ, true, false, not, ltb, leb, ◌==◌, List, [], ◌∷◌, ◌≡◌, ◌⊎◌, refl, arith, All, any,
  select, get_elem?, if◌then◌else◌,
}
use bank_statement_processor.Prelude.Int.{pos}
use bank_statement_processor.Reconciliation.Engine.{Float, ReconConfig, reconcile}
use bank_statement_processor.Reconciliation.Greedy.{of_bank, of_voucher, beats, IsOneToOne}
use bank_statement_processor.Reconciliation.Report.{
  IsMatch, reconcile_is_matching, no_blocking_pair,
}

ltb_irrefl : (x : ℕ) → ltb x x ≡ false
ltb_irrefl x = ground arith

ltb_trans : (x y z : ℕ) → ltb x y ≡ true → ltb y z ≡ true → ltb x z ≡ true
ltb_trans x y z h k = ground arith

ltb_cotrans : (x y z : ℕ) → ltb 0 y ≡ true → ltb x z ≡ true → (ltb x y ≡ true) ⊎ (ltb y z ≡ true)
ltb_cotrans x y z p h = ground arith

abbrev hundredths : Float
hundredths = record {
  Carrier = ℕ;
  float_zero = 0;
  lt = ltb;
  le = leb;
  lt_irrefl = ltb_irrefl;
  lt_trans = ltb_trans;
  lt_cotrans = ltb_cotrans;
}

-- An exact amount scores 0.80, any other 0.30.
abbrev score : ℕ → ℕ → ℕ
score b v = if b == v then 80 else 30

abbrev cfg : ReconConfig hundredths
cfg = record {
  date_fuzzy_days = pos 3;
  amount_fuzzy_pct = 1;
  narr_similarity_min = 55;
  auto_accept_above = 90;
  flag_below_confidence = 40;
}

abbrev bank : List ℕ
bank = 500 ∷ 700 ∷ []

abbrev vouchers : List ℕ
vouchers = 700 ∷ 650 ∷ []

reconcile_is_matching_example :
    let report = reconcile hundredths score cfg bank vouchers in
    All (IsMatch hundredths score cfg bank vouchers) report.matches
    × IsOneToOne hundredths cfg report.matches
    × (report.unmatched_bank
        ≡ select (λ i. not (any (of_bank hundredths i) report.matches)) (range_from 0 2))
    × (report.unmatched_vouchers
        ≡ select (λ i. not (any (of_voucher hundredths i) report.matches)) (range_from 0 2))
reconcile_is_matching_example = reconcile_is_matching hundredths score cfg bank vouchers

no_blocking_pair_example :
    any (beats hundredths 1 0 80) (reconcile hundredths score cfg bank vouchers).matches ≡ true
unfolding get_elem?
no_blocking_pair_example =
    no_blocking_pair hundredths score cfg bank vouchers 1 0 700 700 refl refl refl
