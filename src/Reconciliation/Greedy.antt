-- ===== src/Reconciliation/Greedy.antt =====
-- The greedy assignment (src/reconciliation.rs, the loop of `reconcile`).
use bank_statement_processor.Prelude.{
  ℕ, Bool, true, false, not, ◌||◌, ◌&&◌, ◌==◌, List, [], ◌∷◌, ◌≡◌, inl, inr, refl, sym, subst,
  arith, All, any, Bool-cases,
}
use bank_statement_processor.Reconciliation.Engine.{
  Float, ReconConfig, Candidate, MatchPair, Used, mark, accept, push, assign,
}
use bank_statement_processor.Reconciliation.Sorting.{In, IsSorted}

module _ (F : Float) where
  open F use {Carrier, lt, lt_irrefl}

  unfoldable pub of_bank : ℕ → MatchPair F → Bool
  of_bank i m = m.bank_idx == i

  unfoldable pub of_voucher : ℕ → MatchPair F → Bool
  of_voucher i m = m.voucher_idx == i

  -- A match that takes one of the two indices, and is not worse than the score.
  unfoldable pub beats : ℕ → ℕ → Carrier → MatchPair F → Bool
  beats bi vi score m = (m.bank_idx == bi || m.voucher_idx == vi) && not (lt m.score score)

  module _ (cfg : ReconConfig F) where
    assign-taken :
        (c : Candidate F) (cs : List (Candidate F)) (bu vu : Used)
        → (bu c.bank_idx || vu c.voucher_idx) ≡ true
        → assign F cfg (c ∷ cs) bu vu ≡ assign F cfg cs bu vu
    unfolding assign
    assign-taken c cs bu vu e = rw (e, assign) refl

    assign-free :
        (c : Candidate F) (cs : List (Candidate F)) (bu vu : Used)
        → (bu c.bank_idx || vu c.voucher_idx) ≡ false
        → assign F cfg (c ∷ cs) bu vu
          ≡ push F (accept F cfg c) (assign F cfg cs (mark c.bank_idx bu) (mark c.voucher_idx vu))
    unfolding assign
    assign-free c cs bu vu e = rw (e, assign) refl

    -- An index is taken in the end when it was taken before or a match takes it.
    pub bank_used-assign :
        (cs : List (Candidate F)) (bu vu : Used) (i : ℕ)
        → (assign F cfg cs bu vu).bank_used i
          ≡ (bu i || any (of_bank i) (assign F cfg cs bu vu).matches)
    unfolding assign push any of_bank mark accept
    bank_used-assign [] bu vu i = ground arith
    bank_used-assign (c ∷ cs) bu vu i = elim (Bool-cases (bu c.bank_idx || vu c.voucher_idx)) [
      | inl e ↦ rw (assign-taken c cs bu vu e) (bank_used-assign cs bu vu i)
      | inr e ↦
          rw (assign-free c cs bu vu e)
            (ground (arith, bank_used-assign cs (mark c.bank_idx bu) (mark c.voucher_idx vu) i))
    ]

    pub voucher_used-assign :
        (cs : List (Candidate F)) (bu vu : Used) (i : ℕ)
        → (assign F cfg cs bu vu).voucher_used i
          ≡ (vu i || any (of_voucher i) (assign F cfg cs bu vu).matches)
    unfolding assign push any of_voucher mark accept
    voucher_used-assign [] bu vu i = ground arith
    voucher_used-assign (c ∷ cs) bu vu i = elim (Bool-cases (bu c.bank_idx || vu c.voucher_idx)) [
      | inl e ↦ rw (assign-taken c cs bu vu e) (voucher_used-assign cs bu vu i)
      | inr e ↦
          rw (assign-free c cs bu vu e)
            (ground (arith, voucher_used-assign cs (mark c.bank_idx bu) (mark c.voucher_idx vu) i))
    ]

    -- No match takes an index that was taken before.
    taken_free :
        (cs : List (Candidate F)) (bu vu : Used) (i : ℕ)
        → ((bu i ≡ true) → any (of_bank i) (assign F cfg cs bu vu).matches ≡ false)
          × ((vu i ≡ true) → any (of_voucher i) (assign F cfg cs bu vu).matches ≡ false)
    unfolding assign push any of_bank of_voucher mark accept
    taken_free [] bu vu i = (λ h. refl, λ h. refl)
    taken_free (c ∷ cs) bu vu i = elim (Bool-cases (bu c.bank_idx || vu c.voucher_idx)) [
      | inl e ↦ rw (assign-taken c cs bu vu e) (taken_free cs bu vu i)
      | inr e ↦
          rw (assign-free c cs bu vu e)
            (ground (arith, taken_free cs (mark c.bank_idx bu) (mark c.voucher_idx vu) i))
    ]

    -- The matches take each index once.
    abbrev pub IsOneToOne : List (MatchPair F) → Type 0
    IsOneToOne [] = Unit
    IsOneToOne (m ∷ ms) =
        (any (of_bank m.bank_idx) ms ≡ false)
        × (any (of_voucher m.voucher_idx) ms ≡ false)
        × IsOneToOne ms

    pub assign-IsOneToOne :
        (cs : List (Candidate F)) (bu vu : Used) → IsOneToOne (assign F cfg cs bu vu).matches
    unfolding assign push mark accept
    assign-IsOneToOne [] bu vu = tt
    assign-IsOneToOne (c ∷ cs) bu vu = elim (Bool-cases (bu c.bank_idx || vu c.voucher_idx)) [
      | inl e ↦ rw (assign-taken c cs bu vu e) (assign-IsOneToOne cs bu vu)
      | inr e ↦ rw (assign-free c cs bu vu e) (
        (taken_free cs (mark c.bank_idx bu) (mark c.voucher_idx vu) c.bank_idx).0 (ground arith),
        (taken_free cs (mark c.bank_idx bu) (mark c.voucher_idx vu) c.voucher_idx).1 (ground arith),
        assign-IsOneToOne cs (mark c.bank_idx bu) (mark c.voucher_idx vu),
      )
    ]

    beaten_later :
        (c : Candidate F) (cs : List (Candidate F)) (bu vu : Used) (d : Candidate F)
        → lt c.score d.score ≡ false
        → (mark c.bank_idx bu d.bank_idx
            || mark c.voucher_idx vu d.voucher_idx
            || any
                (beats d.bank_idx d.voucher_idx d.score)
                (assign F cfg cs (mark c.bank_idx bu) (mark c.voucher_idx vu)).matches)
          ≡ true
        → (bu d.bank_idx
            || vu d.voucher_idx
            || any (beats d.bank_idx d.voucher_idx d.score) (
                accept F cfg c
                ∷ (assign F cfg cs (mark c.bank_idx bu) (mark c.voucher_idx vu)).matches))
          ≡ true
    unfolding any beats mark accept
    beaten_later c cs bu vu d h k = ground arith

    first_beats :
        (c : Candidate F) (cs : List (Candidate F)) (bu vu : Used)
        → (bu c.bank_idx
            || vu c.voucher_idx
            || any (beats c.bank_idx c.voucher_idx c.score) (assign F cfg (c ∷ cs) bu vu).matches)
          ≡ true
    unfolding assign push any beats accept
    first_beats c cs bu vu = elim (Bool-cases (bu c.bank_idx || vu c.voucher_idx)) [
      | inl e ↦ ground (arith, e)
      | inr e ↦ rw (assign-free c cs bu vu e) (ground (arith, e, lt_irrefl c.score))
    ]

    sorted_score :
        (c d : Candidate F) (cs : List (Candidate F))
        → All (λ e. lt c.score e.score ≡ false) cs
        → In F d cs
        → lt c.score d.score ≡ false
    sorted_score c d [] h i = elim i [ ]
    sorted_score c d (e ∷ es) (h, hs) (inl same) = rw same h
    sorted_score c d (e ∷ es) (h, hs) (inr there) = sorted_score c d es hs there

    -- Every candidate meets an index that was taken before, or a match that beats it.
    pub assign-beats :
        (cs : List (Candidate F)) (bu vu : Used) (d : Candidate F)
        → IsSorted F cs
        → In F d cs
        → (bu d.bank_idx
            || vu d.voucher_idx
            || any (beats d.bank_idx d.voucher_idx d.score) (assign F cfg cs bu vu).matches)
          ≡ true
    unfolding assign push
    assign-beats [] bu vu d h i = elim i [ ]
    assign-beats (c ∷ cs) bu vu d (h, hs) (inl same) =
        subst
          (λ x.
            (bu x.bank_idx
              || vu x.voucher_idx
              || any (beats x.bank_idx x.voucher_idx x.score) (assign F cfg (c ∷ cs) bu vu).matches)
            ≡ true)
          (sym same) (first_beats c cs bu vu)
    assign-beats (c ∷ cs) bu vu d (h, hs) (inr there) =
        elim (Bool-cases (bu c.bank_idx || vu c.voucher_idx)) [
          | inl e ↦ rw (assign-taken c cs bu vu e) (assign-beats cs bu vu d hs there)
          | inr e ↦ rw (assign-free c cs bu vu e) (
              beaten_later c cs bu vu d (sorted_score c d cs h there)
                (assign-beats cs (mark c.bank_idx bu) (mark c.voucher_idx vu) d hs there))
        ]

    pub assign-All :
        (P : Candidate F → Type 0) (Q : MatchPair F → Type 0) (cs : List (Candidate F))
        (bu vu : Used)
        → ((c : Candidate F) → P c → Q (accept F cfg c))
        → All P cs
        → All Q (assign F cfg cs bu vu).matches
    unfolding assign push
    assign-All P Q [] bu vu f h = tt
    assign-All P Q (c ∷ cs) bu vu f (p, h) = elim (Bool-cases (bu c.bank_idx || vu c.voucher_idx)) [
      | inl e ↦ rw (assign-taken c cs bu vu e) (assign-All P Q cs bu vu f h)
      | inr e ↦ rw (assign-free c cs bu vu e) (f c p, assign-All P Q cs _ _ f h)
    ]
