-- ===== src/Reconciliation/Sorting.antt =====
-- The order of the candidates (src/reconciliation.rs).
use bank_statement_processor.Prelude.{
  true, false, List, [], ◌∷◌, ◌≡◌, ◌⊎◌, inl, inr, arith, All, Bool-cases,
}
use bank_statement_processor.Reconciliation.Engine.{Float, Candidate, insert, sort_best_first}

module _ (F : Float) where
  open F use {Carrier, float_zero, lt, lt_irrefl, lt_trans, lt_cotrans}

  abbrev pub In : Candidate F → List (Candidate F) → Type 0
  In c [] = ⊥
  In c (d ∷ ds) = (c ≡ d) ⊎ In c ds

  abbrev pub Positive : List (Candidate F) → Type 0
  Positive cs = All (λ c. lt float_zero c.score ≡ true) cs

  -- No later candidate has a better score.
  abbrev pub IsSorted : List (Candidate F) → Type 0
  IsSorted [] = Unit
  IsSorted (c ∷ cs) = All (λ d. lt c.score d.score ≡ false) cs × IsSorted cs

  In-insert :
      (c x : Candidate F) (cs : List (Candidate F)) → (c ≡ x) ⊎ In c cs → In c (insert F x cs)
  unfolding insert
  In-insert c x [] h = h
  In-insert c x (d ∷ ds) h = elim (Bool-cases (lt x.score d.score)) [
    | inr e ↦ rw e h
    | inl e ↦ rw e (elim h [
      | inl same ↦ inr (In-insert c x ds (inl same))
      | inr (inl same) ↦ inl same
      | inr (inr there) ↦ inr (In-insert c x ds (inr there))
    ])
  ]

  pub In-sort : (c : Candidate F) (cs : List (Candidate F)) → In c cs → In c (sort_best_first F cs)
  unfolding sort_best_first
  In-sort c [] h = h
  In-sort c (d ∷ ds) (inl e) = In-insert c d (sort_best_first F ds) (inl e)
  In-sort c (d ∷ ds) (inr h) = In-insert c d (sort_best_first F ds) (inr (In-sort c ds h))

  All-insert :
      (P : Candidate F → Type 0) (x : Candidate F) (cs : List (Candidate F))
      → P x
      → All P cs
      → All P (insert F x cs)
  unfolding insert
  All-insert P x [] p h = (p, tt)
  All-insert P x (d ∷ ds) p (q, h) = elim (Bool-cases (lt x.score d.score)) [
    | inl e ↦ rw e (q, All-insert P x ds p h)
    | inr e ↦ rw e (p, (q, h))
  ]

  pub All-sort :
      (P : Candidate F → Type 0) (cs : List (Candidate F)) → All P cs → All P (sort_best_first F cs)
  unfolding sort_best_first
  All-sort P [] h = tt
  All-sort P (c ∷ cs) (p, h) = All-insert P c (sort_best_first F cs) p (All-sort P cs h)

  asym : (x y : Carrier) → lt x y ≡ true → lt y x ≡ false
  asym x y h = elim (Bool-cases (lt y x)) [
    | inr e ↦ e
    | inl e ↦ absurd (ground (arith, lt_irrefl x, lt_trans x y x h e))
  ]

  not_better :
      (x y z : Carrier) → lt float_zero y ≡ true → lt x y ≡ false → lt y z ≡ false → lt x z ≡ false
  not_better x y z p h k = elim (Bool-cases (lt x z)) [
    | inr e ↦ e
    | inl e ↦ absurd (ground (arith, lt_cotrans x y z p e))
  ]

  none_better :
      (x y : Candidate F) (cs : List (Candidate F))
      → lt float_zero y.score ≡ true
      → lt x.score y.score ≡ false
      → All (λ d. lt y.score d.score ≡ false) cs
      → All (λ d. lt x.score d.score ≡ false) cs
  none_better x y [] p h k = tt
  none_better x y (d ∷ ds) p h (k, ks) =
      (not_better x.score y.score d.score p h k, none_better x y ds p h ks)

  insert-IsSorted :
      (x : Candidate F) (cs : List (Candidate F))
      → Positive cs
      → IsSorted cs
      → IsSorted (insert F x cs)
  unfolding insert
  insert-IsSorted x [] p h = (tt, tt)
  insert-IsSorted x (d ∷ ds) (p, ps) (k, h) = elim (Bool-cases (lt x.score d.score)) [
    | inl e ↦ rw e (
      All-insert (λ y. lt d.score y.score ≡ false) x ds (asym x.score d.score e) k,
      insert-IsSorted x ds ps h,
    )
    | inr e ↦ rw e ((e, none_better x d ds p e k), (k, h))
  ]

  pub sort-IsSorted : (cs : List (Candidate F)) → Positive cs → IsSorted (sort_best_first F cs)
  unfolding sort_best_first
  sort-IsSorted [] p = tt
  sort-IsSorted (c ∷ cs) (p, ps) =
      insert-IsSorted c (sort_best_first F cs) (All-sort (λ c. lt float_zero c.score ≡ true) cs ps)
        (sort-IsSorted cs ps)
