-- ===== src/Reconciliation/Report.antt =====
-- The report on a matching (src/reconciliation.rs, `reconcile`).
use bank_statement_processor.Prelude.{
  range_from, ℕ, suc, ◌+◌, Bool, true, not, some, List, [], ◌∷◌, ◌≡◌, ◌≢◌, ◌⊎◌, inl, inr, refl, ap,
  ◌∙◌, subst, arith, All, All-imp, any, select, length, get_elem?,
}
use bank_statement_processor.Reconciliation.Engine.{
  Float, ReconConfig, Candidate, MatchPair, MatchStatus, matched, likely, possible, unmatched,
  status_eq, has_status, matched_count, likely_count, possible_count, unused, accept, candidates,
  sort_best_first, reconcile, status_from_score,
}
use bank_statement_processor.Reconciliation.Sorting.{In, In-sort, All-sort, sort-IsSorted}
use bank_statement_processor.Reconciliation.Candidates.{Real, candidates-Real, In-candidates}
use bank_statement_processor.Reconciliation.Greedy.{
  of_bank, of_voucher, beats, IsOneToOne, assign-IsOneToOne, assign-beats, bank_used-assign,
  voucher_used-assign, assign-All,
}

select-same : (p q : ℕ → Bool) (is : List ℕ) → ((i : ℕ) → p i ≡ q i) → select p is ≡ select q is
unfolding select
select-same p q [] h = refl
select-same p q (i ∷ is) h = ground (arith, h i, select-same p q is h)

status_cases : (s : MatchStatus) → (s ≡ matched) ⊎ (s ≡ likely) ⊎ (s ≡ possible) ⊎ (s ≡ unmatched)
status_cases matched = inl refl
status_cases likely = inr (inl refl)
status_cases possible = inr (inr (inl refl))
status_cases unmatched = inr (inr (inr refl))

module _ (F : Float) {BankEntry Voucher : Type 0}
    (score_match : BankEntry → Voucher → F.Carrier) where
  open F use {Carrier, float_zero, lt}

  -- A match of a bank entry and a voucher of the lists: its score is theirs and above zero, and its
  -- status is the one of its score.
  abbrev pub IsMatch : ReconConfig F → List BankEntry → List Voucher → MatchPair F → Type 0
  IsMatch cfg bank vouchers m =
      (b : BankEntry) × (v : Voucher) × (get_elem? bank m.bank_idx ≡ some b)
      × (get_elem? vouchers m.voucher_idx ≡ some v)
      × (m.score ≡ score_match b v)
      × (lt float_zero m.score ≡ true)
      × (m.status ≡ status_from_score F m.score cfg)

  Real-IsMatch :
      (cfg : ReconConfig F) (bank : List BankEntry) (vouchers : List Voucher) (c : Candidate F)
      → Real F score_match 0 bank vouchers c
      → IsMatch cfg bank vouchers (accept F cfg c)
  unfolding Real accept
  Real-IsMatch cfg bank vouchers c (j, b, v, e, g, h, s, p) =
      (b, v, ap (get_elem? bank) (omega (arith, e)) ∙ g, h, s, p, refl)

  Real-positive :
      (bank : List BankEntry) (vouchers : List Voucher) (c : Candidate F)
      → Real F score_match 0 bank vouchers c
      → lt float_zero c.score ≡ true
  unfolding Real
  Real-positive bank vouchers c (j, b, v, e, g, h, s, p) = p

  -- A report is a matching. Each match pairs a bank entry with a voucher by their own score, which is
  -- above zero, under the status of that score; no bank entry and no voucher is in two matches; and the
  -- unmatched ones are exactly the indices that no match has, in order.
  pub reconcile_is_matching :
      (cfg : ReconConfig F) (bank : List BankEntry) (vouchers : List Voucher)
      → let report = reconcile F score_match cfg bank vouchers in
        All (IsMatch cfg bank vouchers) report.matches
        × IsOneToOne F cfg report.matches
        × (report.unmatched_bank
            ≡ select (λ i. not (any (of_bank F i) report.matches)) (range_from 0 (length bank)))
        × (report.unmatched_vouchers
            ≡ select
                (λ i. not (any (of_voucher F i) report.matches))
                (range_from 0 (length vouchers)))
  unfolding reconcile
  reconcile_is_matching cfg bank vouchers =
      let cs = sort_best_first F (candidates F score_match 0 bank vouchers) in
      (
        assign-All F cfg (Real F score_match 0 bank vouchers) (IsMatch cfg bank vouchers) cs unused
            unused (Real-IsMatch cfg bank vouchers)
            (All-sort F (Real F score_match 0 bank vouchers) _
              (candidates-Real F score_match 0 bank vouchers)),
        assign-IsOneToOne F cfg cs unused unused,
        select-same _ _ _ (λ i. ap not (bank_used-assign F cfg cs unused unused i)),
        select-same _ _ _ (λ i. ap not (voucher_used-assign F cfg cs unused unused i)),
      )

  -- No pair is passed over. Take any bank entry and any voucher of the lists whose score is above zero:
  -- one of the two is in a match whose score is not worse than theirs. So no two of them would both
  -- gain by being matched with each other, and none that could be matched are both left unmatched.
  pub no_blocking_pair :
      (cfg : ReconConfig F) (bank : List BankEntry) (vouchers : List Voucher) (j k : ℕ)
      (b : BankEntry) (v : Voucher)
      → get_elem? bank j ≡ some b
      → get_elem? vouchers k ≡ some v
      → lt float_zero (score_match b v) ≡ true
      → any (beats F j k (score_match b v)) (reconcile F score_match cfg bank vouchers).matches
        ≡ true
  unfolding reconcile
  no_blocking_pair cfg bank vouchers j k b v g h p =
      let cs = candidates F score_match 0 bank vouchers in
      let same : 0 + j ≡ j = omega arith in
      assign-beats F cfg (sort_best_first F cs) unused unused
        (record { bank_idx = j; voucher_idx = k; score = score_match b v })
        (sort-IsSorted F cs (
          All-imp (Real F score_match 0 bank vouchers) (λ c. lt float_zero c.score ≡ true) cs
            (Real-positive bank vouchers) (candidates-Real F score_match 0 bank vouchers)))
        (In-sort F _ cs (
          subst (λ n. In F (record { bank_idx = n; voucher_idx = k; score = score_match b v }) cs)
            same (In-candidates F score_match 0 bank vouchers j k b v g h p)))

  counted :
      (m : MatchPair F) (ms : List (MatchPair F))
      → m.status ≢ unmatched
      → length (select (has_status F matched) ms)
          + length (select (has_status F likely) ms)
          + length (select (has_status F possible) ms)
        ≡ length ms
      → length (select (has_status F matched) (m ∷ ms))
          + length (select (has_status F likely) (m ∷ ms))
          + length (select (has_status F possible) (m ∷ ms))
        ≡ suc (length ms)
  unfolding select has_status status_eq
  counted m ms n h = elim (status_cases m.status) [
    | inl e ↦ rw e (omega (arith, h))
    | inr (inl e) ↦ rw e (omega (arith, h))
    | inr (inr (inl e)) ↦ rw e (omega (arith, h))
    | inr (inr (inr e)) ↦ absurd (n e)
  ]

  counts :
      (ms : List (MatchPair F))
      → All (λ m. m.status ≢ unmatched) ms
      → length (select (has_status F matched) ms)
          + length (select (has_status F likely) ms)
          + length (select (has_status F possible) ms)
        ≡ length ms
  unfolding select
  counts [] h = omega arith
  counts (m ∷ ms) (n, h) = counted m ms n (counts ms h)

  match_has_status :
      (cfg : ReconConfig F) (bank : List BankEntry) (vouchers : List Voucher) (m : MatchPair F)
      → IsMatch cfg bank vouchers m
      → m.status ≢ unmatched
  unfolding status_from_score
  match_has_status cfg bank vouchers m (b, v, g, h, s, p, st) u = absurd (ground arith)

  -- The three counts of a report add up to its matches: a match is matched, likely or possible, whatever
  -- the thresholds, and never unmatched.
  counts_add_up :
      (cfg : ReconConfig F) (bank : List BankEntry) (vouchers : List Voucher)
      → let report = reconcile F score_match cfg bank vouchers in
        matched_count F report + likely_count F report + possible_count F report
        ≡ length report.matches
  unfolding matched_count likely_count possible_count
  counts_add_up cfg bank vouchers = counts _ (
      All-imp (IsMatch cfg bank vouchers) (λ m. m.status ≢ unmatched) _
        (match_has_status cfg bank vouchers) (reconcile_is_matching cfg bank vouchers).0)
