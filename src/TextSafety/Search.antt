-- ===== src/TextSafety/Search.antt =====
-- The first place of a pattern (src/text_safety.rs, `find_ascii_ci`).
use bank_statement_processor.Prelude.{
  range_from, ℕ, zero, suc, ◌+◌, ◌-◌, ◌≤◌, ◌<◌, Bool, true, false, none, some, [], ◌∷◌, ◌≡◌, ◌⊎◌,
  inl, inr, refl, arith, ltb, length, find, Bool-cases,
}
use bank_statement_processor.TextSafety.Utf8.{
  Bytes, take, drop, eq_ignore_ascii_case, is_char_boundary, is_match_at, find_ascii_ci,
}

length-take : (n : ℕ) (s : Bytes) → length (take n s) ≤ length s
unfolding take
length-take zero s = omega arith
length-take (suc n) [] = omega arith
length-take (suc n) (b ∷ s) = omega (arith, length-take n s)

length-drop : (n : ℕ) (s : Bytes) → length (drop n s) ≡ length s - n
unfolding drop
length-drop zero s = omega arith
length-drop (suc n) [] = omega arith
length-drop (suc n) (b ∷ s) = omega (arith, length-drop n s)

eq_ignore_ascii_case-length : (s t : Bytes) → eq_ignore_ascii_case s t ≡ true → length s ≡ length t
unfolding eq_ignore_ascii_case
eq_ignore_ascii_case-length [] [] h = refl
eq_ignore_ascii_case-length [] (b ∷ t) h = absurd (ground arith)
eq_ignore_ascii_case-length (a ∷ s) [] h = absurd (ground arith)
eq_ignore_ascii_case-length (a ∷ s) (b ∷ t) h =
    omega (arith, eq_ignore_ascii_case-length s t (ground arith))

match_within :
    (s pat : Bytes) (i : ℕ)
    → 0 < length pat
    → is_match_at s pat i ≡ true
    → i + length pat ≤ length s
unfolding is_match_at
match_within s pat i pos h = omega (
  arith,
  length-take (length pat) (drop i s),
  length-drop i s,
  eq_ignore_ascii_case-length (take (length pat) (drop i s)) pat (ground arith),
)

-- A place from `a` on that passes the test, when `a` does not, is past `a`.
beyond : (p : ℕ → Bool) (a j : ℕ) → p a ≡ false → a ≤ j → p j ≡ true → suc a ≤ j
beyond p a j e le k = grind arith

at_or_after :
    (p : ℕ → Bool) (a n j : ℕ)
    → p a ≡ false
    → ((j : ℕ) → suc a ≤ j → j < suc a + n → p j ≡ false)
    → a ≤ j
    → j < a + suc n
    → p j ≡ false
at_or_after p a n j e nowhere le lt = elim (Bool-cases (p j)) [
  | inl k ↦ nowhere j (beyond p a j e le k) (omega arith)
  | inr k ↦ k
]

range_first :
    (p : ℕ → Bool) (a n : ℕ)
    → ((find p (range_from a n) ≡ none) × ((j : ℕ) → a ≤ j → j < a + n → p j ≡ false))
      ⊎ ((i : ℕ) × (find p (range_from a n) ≡ some i)
          × (p i ≡ true)
          × ((j : ℕ) → a ≤ j → j < a + n → p j ≡ true → i ≤ j))
unfolding find range_from
range_first p a zero = inl (refl, λ j le lt. absurd (omega arith))
range_first p a (suc n) = elim (Bool-cases (p a)) [
  | inl e ↦ inr (a, rw e refl, e, λ j le lt h. le)
  | inr e ↦ elim (range_first p (suc a) n) [
    | inl (none_found, nowhere) ↦
        inl (rw e none_found, λ j le lt. at_or_after p a n j e nowhere le lt)
    | inr (i, found, h, least) ↦
        inr (i, rw e found, h, λ j le lt k. least j (beyond p a j e le k) (omega arith) k)
  ]
]

nowhere_but :
    (s pat : Bytes)
    → 0 < length pat
    → ((j : ℕ) → j + length pat ≤ length s → is_match_at s pat j ≡ false)
    → (j : ℕ) → is_match_at s pat j ≡ false
nowhere_but s pat pos inside j = elim (Bool-cases (is_match_at s pat j)) [
  | inl h ↦ inside j (match_within s pat j pos h)
  | inr h ↦ h
]

-- A pattern that is not empty is found at the first place where it stands, up to the case of its ASCII
-- letters, from a character's boundary on, and it ends within the text; when nothing is found it stands
-- nowhere.
pub find_ascii_ci_first :
    (s pat : Bytes)
    → 0 < length pat
    → ((find_ascii_ci s pat ≡ none) × ((j : ℕ) → is_match_at s pat j ≡ false))
      ⊎ ((i : ℕ) × (find_ascii_ci s pat ≡ some i)
          × (is_char_boundary s i ≡ true)
          × (eq_ignore_ascii_case (take (length pat) (drop i s)) pat ≡ true)
          × (i + length pat ≤ length s)
          × ((j : ℕ) → is_match_at s pat j ≡ true → i ≤ j))
unfolding find_ascii_ci is_match_at
find_ascii_ci_first s pat pos = elim (Bool-cases (ltb (length s) (length pat))) [
  | inl short ↦ inl (ground arith, nowhere_but s pat pos (λ j fits. absurd (ground arith)))
  | inr fits ↦ elim (range_first (is_match_at s pat) 0 (suc (length s - length pat))) [
    | inl (none_found, nowhere) ↦
        inl (ground arith, nowhere_but s pat pos (λ j h. nowhere j (omega arith) (omega arith)))
    | inr (i, found, h, least) ↦ inr (
      i,
      ground arith,
      ground (arith, h),
      ground (arith, h),
      match_within s pat i pos h,
      λ j k. least j (omega arith) (ground (arith, match_within s pat j pos k)) k,
    )
  ]
]
