-- ===== src/Tests/Texts.antt =====
-- The theorems on text at a rupee sign (three bytes) after the letter A.
use bank_statement_processor.Prelude.{
  range_from, ℕ, ◌+◌, ◌≤◌, true, false, none, some, [], ◌∷◌, ◌≡◌, ◌⊎◌, refl, arith, find,
}
use bank_statement_processor.TextSafety.Utf8.{
  slice_to, floor_char_boundary, step_back, starts_at, is_utf8_char_boundary, Bytes, take, drop,
  is_char_boundary, eq_ignore_ascii_case, is_match_at, safe_prefix, find_ascii_ci,
}
use bank_statement_processor.TextSafety.Prefix.{safe_prefix_longest}
use bank_statement_processor.TextSafety.Search.{find_ascii_ci_first}

abbrev a_rupee_upi : Bytes
a_rupee_upi = 65 ∷ 226 ∷ 130 ∷ 185 ∷ 85 ∷ 80 ∷ 73 ∷ []

abbrev upi : Bytes
upi = 117 ∷ 112 ∷ 105 ∷ []

-- Neither the second nor the third byte of the sign is kept alone.
prefix_rounds_down : safe_prefix a_rupee_upi 3 ≡ some (65 ∷ [])
unfolding safe_prefix slice_to floor_char_boundary step_back is_char_boundary starts_at
    is_utf8_char_boundary take
prefix_rounds_down = refl

found_after_rupee : find_ascii_ci a_rupee_upi upi ≡ some 4
unfolding find_ascii_ci is_match_at eq_ignore_ascii_case is_char_boundary starts_at
    is_utf8_char_boundary take drop range_from find
found_after_rupee = refl

find_ascii_ci_first_example :
    ((find_ascii_ci a_rupee_upi upi ≡ none) × ((j : ℕ) → is_match_at a_rupee_upi upi j ≡ false))
    ⊎ ((i : ℕ) × (find_ascii_ci a_rupee_upi upi ≡ some i)
        × (is_char_boundary a_rupee_upi i ≡ true)
        × (eq_ignore_ascii_case (take 3 (drop i a_rupee_upi)) upi ≡ true)
        × (i + 3 ≤ 7)
        × ((j : ℕ) → is_match_at a_rupee_upi upi j ≡ true → i ≤ j))
find_ascii_ci_first_example = find_ascii_ci_first a_rupee_upi upi (omega arith)

safe_prefix_longest_example :
    (n : ℕ) × (safe_prefix a_rupee_upi 3 ≡ some (take n a_rupee_upi))
    × (n ≤ 3)
    × (n ≤ 7)
    × (is_char_boundary a_rupee_upi n ≡ true)
    × ((j : ℕ) → j ≤ 3 → is_char_boundary a_rupee_upi j ≡ true → j ≤ n)
safe_prefix_longest_example = safe_prefix_longest a_rupee_upi 3
