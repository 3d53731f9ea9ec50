-- ===== src/Reconciliation/Engine.antt =====
-- The matching of bank entries and vouchers (src/reconciliation.rs). A score is a floating-point number,
-- and the scoring of one pair is an argument: what is shown holds for every scoring.
use bank_statement_processor.Prelude.{
  range_from, ℕ, suc, Bool, true, false, not, ◌||◌, ◌≡◌, ◌⊎◌, List, [], ◌∷◌, ◌++◌, ◌==◌,
  if◌then◌else◌, length, select,
}
use bank_statement_processor.Prelude.Int.{ℤ}

-- The comparisons of floating-point numbers. What IEEE 754 says of `<`: no number is below itself, it is
-- transitive, and a number above zero (so no NaN) is comparable with every other one.
pub record Float : Type 1 where
  pub Carrier : Type 0
  pub float_zero : Carrier
  pub lt : Carrier → Carrier → Bool
  pub le : Carrier → Carrier → Bool
  pub lt_irrefl : (x : Carrier) → lt x x ≡ false
  pub lt_trans : (x y z : Carrier) → lt x y ≡ true → lt y z ≡ true → lt x z ≡ true
  pub lt_cotrans :
      (x y z : Carrier) → lt float_zero y ≡ true → lt x z ≡ true → (lt x y ≡ true) ⊎ (lt y z ≡ true)

pub data MatchStatus : Type 0 where
  matched likely possible unmatched : MatchStatus

unfoldable pub status_eq : MatchStatus → MatchStatus → Bool
status_eq matched matched = true
status_eq likely likely = true
status_eq possible possible = true
status_eq unmatched unmatched = true
status_eq _ _ = false

-- `vec![false; n]`, read and written below `n` only.
abbrev pub Used : Type 0
Used = ℕ → Bool

abbrev pub unused : Used
unused i = false

unfoldable pub mark : ℕ → Used → Used
mark i used j = if i == j then true else used j

module _ (F : Float) where
  open F use {Carrier, float_zero, lt, le}

  pub record ReconConfig : Type 0 where
    pub date_fuzzy_days : ℤ
    pub amount_fuzzy_pct : Carrier
    pub narr_similarity_min : Carrier
    pub auto_accept_above : Carrier
    pub flag_below_confidence : Carrier

  pub record Candidate : Type 0 where
    pub bank_idx : ℕ
    pub voucher_idx : ℕ
    pub score : Carrier

  pub record MatchPair : Type 0 where
    pub bank_idx : ℕ
    pub voucher_idx : ℕ
    pub score : Carrier
    pub status : MatchStatus

  pub record ReconReport : Type 0 where
    pub matches : List MatchPair
    pub unmatched_bank : List ℕ
    pub unmatched_vouchers : List ℕ

  unfoldable pub status_from_score : Carrier → ReconConfig → MatchStatus
  status_from_score score cfg =
      if le cfg.auto_accept_above score
      then matched
      else if le cfg.flag_below_confidence score
      then likely
      else if lt float_zero score
      then possible
      else unmatched

  unfoldable pub has_status : MatchStatus → MatchPair → Bool
  has_status status m = status_eq m.status status

  unfoldable pub matched_count : ReconReport → ℕ
  matched_count r = length (select (has_status matched) r.matches)

  unfoldable pub likely_count : ReconReport → ℕ
  likely_count r = length (select (has_status likely) r.matches)

  unfoldable pub possible_count : ReconReport → ℕ
  possible_count r = length (select (has_status possible) r.matches)

  module _ {BankEntry Voucher : Type 0} (score_match : BankEntry → Voucher → Carrier) where
    -- The candidates of one bank entry, from the voucher of index `vi` on.
    unfoldable pub candidates_of : ℕ → BankEntry → ℕ → List Voucher → List Candidate
    candidates_of bi b vi [] = []
    candidates_of bi b vi (v ∷ vs) =
        let rest = candidates_of bi b (suc vi) vs in
        if lt float_zero (score_match b v)
        then record { bank_idx = bi; voucher_idx = vi; score = score_match b v } ∷ rest
        else rest

    unfoldable pub candidates : ℕ → List BankEntry → List Voucher → List Candidate
    candidates bi [] vouchers = []
    candidates bi (b ∷ bs) vouchers =
        candidates_of bi b 0 vouchers ++ candidates (suc bi) bs vouchers

  -- The stable sort of `sort_by`, the best score first: a candidate goes before the first one that is
  -- not better.
  unfoldable pub insert : Candidate → List Candidate → List Candidate
  insert c [] = c ∷ []
  insert c (d ∷ ds) = if lt c.score d.score then d ∷ insert c ds else c ∷ d ∷ ds

  unfoldable pub sort_best_first : List Candidate → List Candidate
  sort_best_first [] = []
  sort_best_first (c ∷ cs) = insert c (sort_best_first cs)

  pub record Assignment : Type 0 where
    pub matches : List MatchPair
    pub bank_used : Used
    pub voucher_used : Used

  unfoldable pub accept : ReconConfig → Candidate → MatchPair
  accept cfg c = record {
    bank_idx = c.bank_idx;
    voucher_idx = c.voucher_idx;
    score = c.score;
    status = status_from_score c.score cfg;
  }

  unfoldable pub push : MatchPair → Assignment → Assignment
  push m a = record a { matches = m ∷ a.matches }

  -- The loop over the candidates.
  unfoldable pub assign : ReconConfig → List Candidate → Used → Used → Assignment
  assign cfg [] bank_used voucher_used = record {
    matches = [];
    bank_used = bank_used;
    voucher_used = voucher_used;
  }
  assign cfg (c ∷ cs) bank_used voucher_used =
      elim (bank_used c.bank_idx || voucher_used c.voucher_idx) [
        | true ↦ assign cfg cs bank_used voucher_used
        | false ↦
            push (accept cfg c)
              (assign cfg cs (mark c.bank_idx bank_used) (mark c.voucher_idx voucher_used))
      ]

  unfoldable pub reconcile :
      {BankEntry Voucher : Type 0}
      → (BankEntry → Voucher → Carrier)
      → ReconConfig
      → List BankEntry
      → List Voucher
      → ReconReport
  reconcile score_match cfg bank vouchers =
      let a = assign cfg (sort_best_first (candidates score_match 0 bank vouchers)) unused unused in
      record {
        matches = a.matches;
        unmatched_bank = select (λ i. not (a.bank_used i)) (range_from 0 (length bank));
        unmatched_vouchers = select (λ i. not (a.voucher_used i)) (range_from 0 (length vouchers));
      }
