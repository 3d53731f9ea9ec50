-- ===== src/Reconciliation/Candidates.antt =====
-- The candidates of a matching (src/reconciliation.rs, the scoring loop of `reconcile`).
use bank_statement_processor.Prelude.{
  ℕ, zero, suc, ◌+◌, true, some, List, [], ◌∷◌, ◌++◌, ◌≡◌, inl, inr, refl, sym, ap, ◌∙◌, subst,
  arith, All, All-append, All-imp, get_elem?, Bool-cases,
}
use bank_statement_processor.Reconciliation.Engine.{Float, Candidate, candidates_of, candidates}
use bank_statement_processor.Reconciliation.Sorting.{In}

module _ (F : Float) {BankEntry Voucher : Type 0}
    (score_match : BankEntry → Voucher → F.Carrier) where
  open F use {Carrier, float_zero, lt}

  -- A candidate scores a bank entry and a voucher of the lists, above zero.
  RowReal : ℕ → BankEntry → ℕ → List Voucher → Candidate F → Type 0
  RowReal bi b vi vs c =
      (k : ℕ) × (v : Voucher) × (c.bank_idx ≡ bi)
      × (c.voucher_idx ≡ vi + k)
      × (get_elem? vs k ≡ some v)
      × (c.score ≡ score_match b v)
      × (lt float_zero c.score ≡ true)

  unfoldable pub Real : ℕ → List BankEntry → List Voucher → Candidate F → Type 0
  Real bi bs vs c =
      (j : ℕ) × (b : BankEntry) × (v : Voucher) × (c.bank_idx ≡ bi + j)
      × (get_elem? bs j ≡ some b)
      × (get_elem? vs c.voucher_idx ≡ some v)
      × (c.score ≡ score_match b v)
      × (lt float_zero c.score ≡ true)

  row_later :
      (bi : ℕ) (b : BankEntry) (vi : ℕ) (v : Voucher) (vs : List Voucher) (c : Candidate F)
      → RowReal bi b (suc vi) vs c
      → RowReal bi b vi (v ∷ vs) c
  unfolding RowReal get_elem?
  row_later bi b vi v vs c (k, w, e, i, g, s, p) = (suc k, w, e, omega (arith, i), g, s, p)

  row-Real :
      (bi : ℕ) (b : BankEntry) (vi : ℕ) (vs : List Voucher)
      → All (RowReal bi b vi vs) (candidates_of F score_match bi b vi vs)
  unfolding candidates_of RowReal get_elem?
  row-Real bi b vi [] = tt
  row-Real bi b vi (v ∷ vs) =
      let rest =
        All-imp (RowReal bi b (suc vi) vs) (RowReal bi b vi (v ∷ vs)) _ (row_later bi b vi v vs)
          (row-Real bi b (suc vi) vs) in
      elim (Bool-cases (lt float_zero (score_match b v))) [
        | inl e ↦ rw e ((zero, v, refl, omega arith, refl, refl, e), rest)
        | inr e ↦ rw e rest
      ]

  row_of :
      (bi : ℕ) (b : BankEntry) (bs : List BankEntry) (vs : List Voucher) (c : Candidate F)
      → RowReal bi b 0 vs c
      → Real bi (b ∷ bs) vs c
  unfolding RowReal Real get_elem?
  row_of bi b bs vs c (k, v, e, i, g, s, p) =
      (zero, b, v, omega (arith, e), refl, ap (get_elem? vs) (omega (arith, i)) ∙ g, s, p)

  Real-later :
      (bi : ℕ) (b : BankEntry) (bs : List BankEntry) (vs : List Voucher) (c : Candidate F)
      → Real (suc bi) bs vs c
      → Real bi (b ∷ bs) vs c
  unfolding Real get_elem?
  Real-later bi b bs vs c (j, x, v, e, g, h, s, p) = (suc j, x, v, omega (arith, e), g, h, s, p)

  pub candidates-Real :
      (bi : ℕ) (bs : List BankEntry) (vs : List Voucher)
      → All (Real bi bs vs) (candidates F score_match bi bs vs)
  unfolding candidates
  candidates-Real bi [] vs = tt
  candidates-Real bi (b ∷ bs) vs =
      All-append (Real bi (b ∷ bs) vs) _ _
        (All-imp (RowReal bi b 0 vs) (Real bi (b ∷ bs) vs) _ (row_of bi b bs vs)
          (row-Real bi b 0 vs))
        (All-imp (Real (suc bi) bs vs) (Real bi (b ∷ bs) vs) _ (Real-later bi b bs vs)
          (candidates-Real (suc bi) bs vs))

  In-append_left : (c : Candidate F) (cs ds : List (Candidate F)) → In F c cs → In F c (cs ++ ds)
  In-append_left c [] ds h = elim h [ ]
  In-append_left c (x ∷ xs) ds (inl e) = inl e
  In-append_left c (x ∷ xs) ds (inr h) = inr (In-append_left c xs ds h)

  In-append_right : (c : Candidate F) (cs ds : List (Candidate F)) → In F c ds → In F c (cs ++ ds)
  In-append_right c [] ds h = h
  In-append_right c (x ∷ xs) ds h = inr (In-append_right c xs ds h)

  -- The candidate of a pair.
  abbrev pair : ℕ → ℕ → Carrier → Candidate F
  pair bi vi s = record { bank_idx = bi; voucher_idx = vi; score = s }

  In-row :
      (bi : ℕ) (b : BankEntry) (vi : ℕ) (vs : List Voucher) (k : ℕ) (v : Voucher)
      → get_elem? vs k ≡ some v
      → lt float_zero (score_match b v) ≡ true
      → In F (pair bi (vi + k) (score_match b v)) (candidates_of F score_match bi b vi vs)
  unfolding candidates_of get_elem?
  In-row bi b vi [] k v h p = absurd (ground arith)
  In-row bi b vi (x ∷ xs) zero v h p =
      let same : x ≡ v = ground (arith, h) in
      let above : lt float_zero (score_match b x) ≡ true =
        ap (λ w. lt float_zero (score_match b w)) same ∙ p in
      subst
        (λ w.
          In F (pair bi (vi + 0) (score_match b w)) (candidates_of F score_match bi b vi (x ∷ xs)))
        same (rw above (inl (ap (λ n. pair bi n (score_match b x)) (omega arith))))
  In-row bi b vi (x ∷ xs) (suc k) v h p =
      let rest =
        subst
          (λ n. In F (pair bi n (score_match b v)) (candidates_of F score_match bi b (suc vi) xs))
          (omega arith) (In-row bi b (suc vi) xs k v h p) in
      elim (Bool-cases (lt float_zero (score_match b x))) [
        | inl e ↦ rw e (inr rest)
        | inr e ↦ rw e rest
      ]

  at_start :
      (bi : ℕ) (b : BankEntry) (vs : List Voucher) (k : ℕ) (v : Voucher)
      → get_elem? vs k ≡ some v
      → lt float_zero (score_match b v) ≡ true
      → In F (pair (bi + 0) k (score_match b v)) (candidates_of F score_match bi b 0 vs)
  at_start bi b vs k v h p =
      let kept : 0 + k ≡ k = omega arith in
      let same : bi ≡ bi + 0 = omega arith in
      subst (λ n. In F (pair n k (score_match b v)) (candidates_of F score_match bi b 0 vs)) same
        (subst (λ n. In F (pair bi n (score_match b v)) (candidates_of F score_match bi b 0 vs))
          kept (In-row bi b 0 vs k v h p))

  pub In-candidates :
      (bi : ℕ) (bs : List BankEntry) (vs : List Voucher) (j k : ℕ) (b : BankEntry) (v : Voucher)
      → get_elem? bs j ≡ some b
      → get_elem? vs k ≡ some v
      → lt float_zero (score_match b v) ≡ true
      → In F (pair (bi + j) k (score_match b v)) (candidates F score_match bi bs vs)
  unfolding candidates get_elem?
  In-candidates bi [] vs j k b v g h p = absurd (ground arith)
  In-candidates bi (x ∷ xs) vs zero k b v g h p =
      let same : x ≡ b = ground (arith, g) in
      In-append_left _ _ _ (
        subst
          (λ y. In F (pair (bi + 0) k (score_match b v)) (candidates_of F score_match bi y 0 vs))
          (sym same) (at_start bi b vs k v h p))
  In-candidates bi (x ∷ xs) vs (suc j) k b v g h p = In-append_right _ _ _ (
      subst (λ n. In F (pair n k (score_match b v)) (candidates F score_match (suc bi) xs vs))
        (omega arith) (In-candidates (suc bi) xs vs j k b v g h p))
