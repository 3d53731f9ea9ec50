-- ===== src/TextSafety/Utf8.antt =====
-- The helpers of src/text_safety.rs. A text is the list of its UTF-8 bytes; what would panic in the
-- source is `none` of a slice.
use bank_statement_processor.Prelude.{
  range_from, ℕ, zero, suc, ◌+◌, ◌-◌, Bool, true, false, ◌&&◌, ◌||◌, Option, none, some, List, [],
  ◌∷◌, ltb, leb, ◌==◌, if◌then◌else◌, length, find,
}

abbrev pub Bytes : Type 0
Bytes = List ℕ

unfoldable pub take : ℕ → Bytes → Bytes
take zero s = []
take (suc n) [] = []
take (suc n) (b ∷ s) = b ∷ take n s

unfoldable pub drop : ℕ → Bytes → Bytes
drop zero s = s
drop (suc n) [] = []
drop (suc n) (b ∷ s) = drop n s

-- A byte that continues a character is 10xxxxxx in binary.
unfoldable pub is_utf8_char_boundary : ℕ → Bool
is_utf8_char_boundary b = ltb b 128 || leb 192 b

-- `str::is_char_boundary` beyond the first byte: the end, or a byte that starts a character.
unfoldable pub starts_at : Bytes → ℕ → Bool
starts_at [] zero = true
starts_at [] (suc i) = false
starts_at (b ∷ s) zero = is_utf8_char_boundary b
starts_at (b ∷ s) (suc i) = starts_at s i

unfoldable pub is_char_boundary : Bytes → ℕ → Bool
is_char_boundary s zero = true
is_char_boundary s (suc i) = starts_at s (suc i)

-- `&s[..i]`
unfoldable pub slice_to : Bytes → ℕ → Option Bytes
slice_to s i = if is_char_boundary s i then some (take i s) else none

abbrev pub min : ℕ → ℕ → ℕ
min a b = if leb a b then a else b

-- The loop of `floor_char_boundary`.
unfoldable pub step_back : Bytes → ℕ → ℕ
step_back s zero = zero
step_back s (suc i) = let rest = step_back s i in if is_char_boundary s (suc i) then suc i else rest

unfoldable pub floor_char_boundary : Bytes → ℕ → ℕ
floor_char_boundary s idx = step_back s (min idx (length s))

unfoldable pub safe_prefix : Bytes → ℕ → Option Bytes
safe_prefix s max_bytes = slice_to s (floor_char_boundary s max_bytes)

abbrev pub to_ascii_lowercase : ℕ → ℕ
to_ascii_lowercase b = if leb 65 b && leb b 90 then b + 32 else b

unfoldable pub eq_ignore_ascii_case : Bytes → Bytes → Bool
eq_ignore_ascii_case [] [] = true
eq_ignore_ascii_case (a ∷ s) (b ∷ t) =
    (to_ascii_lowercase a == to_ascii_lowercase b) && eq_ignore_ascii_case s t
eq_ignore_ascii_case _ _ = false

-- Whether the pattern is found at the index.
unfoldable pub is_match_at : Bytes → Bytes → ℕ → Bool
is_match_at s pat i =
    is_char_boundary s i && eq_ignore_ascii_case (take (length pat) (drop i s)) pat

unfoldable pub find_ascii_ci : Bytes → Bytes → Option ℕ
find_ascii_ci s pat =
    if (length pat == 0) || ltb (length s) (length pat)
    then none
    else find (is_match_at s pat) (range_from 0 (suc (length s - length pat)))
