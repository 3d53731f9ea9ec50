-- ===== src/TextSafety/Prefix.antt =====
-- The longest prefix within a number of bytes (src/text_safety.rs, `safe_prefix`).
use bank_statement_processor.Prelude.{
  ℕ, zero, suc, ◌≤◌, true, false, some, [], ◌∷◌, ◌≡◌, inl, inr, refl, arith, length, Bool-cases,
}
use bank_statement_processor.TextSafety.Utf8.{
  Bytes, take, starts_at, is_char_boundary, slice_to, min, step_back, floor_char_boundary,
  safe_prefix,
}

starts_at_within : (s : Bytes) (i : ℕ) → starts_at s i ≡ true → i ≤ length s
unfolding starts_at
starts_at_within [] zero h = omega arith
starts_at_within [] (suc i) h = absurd (ground arith)
starts_at_within (b ∷ s) zero h = omega arith
starts_at_within (b ∷ s) (suc i) h = omega (arith, starts_at_within s i h)

pub is_char_boundary_within : (s : Bytes) (i : ℕ) → is_char_boundary s i ≡ true → i ≤ length s
unfolding is_char_boundary
is_char_boundary_within s zero h = omega arith
is_char_boundary_within s (suc i) h = starts_at_within s (suc i) h

-- A boundary up to a place that is none lies before this place.
boundary_before :
    (s : Bytes) (i j : ℕ)
    → is_char_boundary s (suc i) ≡ false
    → j ≤ suc i
    → is_char_boundary s j ≡ true
    → j ≤ i
boundary_before s i j e le h = grind arith

step_back_lem :
    (s : Bytes) (i : ℕ)
    → (step_back s i ≤ i)
      × (is_char_boundary s (step_back s i) ≡ true)
      × ((j : ℕ) → j ≤ i → is_char_boundary s j ≡ true → j ≤ step_back s i)
unfolding step_back is_char_boundary
step_back_lem s zero = (omega arith, refl, λ j le h. le)
step_back_lem s (suc i) = elim (Bool-cases (starts_at s (suc i))) [
  | inl e ↦ rw e (omega arith, e, λ j le h. le)
  | inr e ↦
      (let (le, bound, most) = step_back_lem s i in
        rw e (omega (arith, le), bound, λ j k h. most j (boundary_before s i j e k h) h))
]

-- For every number of bytes the prefix exists, is a part of the text up to a boundary within this
-- number, and no boundary within this number is further.
pub safe_prefix_longest :
    (s : Bytes) (max_bytes : ℕ)
    → (n : ℕ) × (safe_prefix s max_bytes ≡ some (take n s))
      × (n ≤ max_bytes)
      × (n ≤ length s)
      × (is_char_boundary s n ≡ true)
      × ((j : ℕ) → j ≤ max_bytes → is_char_boundary s j ≡ true → j ≤ n)
unfolding safe_prefix slice_to floor_char_boundary
safe_prefix_longest s max_bytes =
    let (le, bound, most) = step_back_lem s (min max_bytes (length s)) in
    (
      step_back s (min max_bytes (length s)),
      rw bound refl,
      ground (arith, le),
      ground (arith, le),
      bound,
      λ j k h. most j (ground (arith, k, is_char_boundary_within s j h)) h,
    )
