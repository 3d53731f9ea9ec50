-- ===== src/Http/Signature.antt =====
-- The signature of a webhook call (server/src/auth/webhook_signature.rs), and the hexadecimal text of
-- bytes (server/src/auth/token.rs). A header is the list of its ASCII codes, and bytes are numbers below
-- 256.
use bank_statement_processor.Prelude.{
  ℕ, ◌+◌, ◌-◌, ◌*◌, ◌/◌, ◌%◌, String, Bool, true, false, Option, none, some, List, [], ◌∷◌, ◌&&◌,
  leb, ltb, ◌==◌, if◌then◌else◌, length,
}

-- `char::to_digit(16)`
unfoldable pub to_digit : ℕ → Option ℕ
to_digit c =
    if leb 48 c && leb c 57
    then some (c - 48)
    else if leb 97 c && leb c 102
    then some (c - 87)
    else if leb 65 c && leb c 70
    then some (c - 55)
    else none

abbrev pub two_digits : Option ℕ → Option ℕ → Option ℕ
two_digits (some a) (some b) = some (16 * a + b)
two_digits _ _ = none

-- `u8::from_str_radix(s, 16)` on a text of two characters: a plus sign may stand before the digits.
unfoldable pub from_str_radix : ℕ → ℕ → Option ℕ
from_str_radix a b = if a == 43 then to_digit b else two_digits (to_digit a) (to_digit b)

abbrev pub prepend : Option ℕ → Option (List ℕ) → Option (List ℕ)
prepend (some b) (some bs) = some (b ∷ bs)
prepend _ _ = none

-- The loop over the pairs, once the length is even.
unfoldable pub decode_pairs : List ℕ → Option (List ℕ)
decode_pairs [] = some []
decode_pairs (a ∷ []) = none
decode_pairs (a ∷ b ∷ s) = prepend (from_str_radix a b) (decode_pairs s)

unfoldable pub hex_decode : List ℕ → Option (List ℕ)
hex_decode s = if (length s % 2) == 0 then decode_pairs s else none

unfoldable pub hex_digit : ℕ → ℕ
hex_digit n = if ltb n 10 then 48 + n else 87 + n

-- `format!("{b:02x}")` of each byte.
unfoldable pub hex_encode : List ℕ → List ℕ
hex_encode [] = []
hex_encode (b ∷ bs) = hex_digit (b / 16) ∷ hex_digit (b % 16) ∷ hex_encode bs

-- `verify_slice`: the whole tag, byte by byte.
unfoldable pub bytes_eq : List ℕ → List ℕ → Bool
bytes_eq [] [] = true
bytes_eq (a ∷ xs) (b ∷ bs) = a == b && bytes_eq xs bs
bytes_eq _ _ = false

abbrev pub verify_slice : Option (List ℕ) → List ℕ → Bool
verify_slice none expected = false
verify_slice (some tag) expected = bytes_eq tag expected

abbrev pub verify_tag : Option (List ℕ) → Option (List ℕ) → Bool
verify_tag tag none = false
verify_tag tag (some expected) = verify_slice tag expected

-- `mac` is the HMAC-SHA256 of a body under a secret, unless no MAC could be set up.
unfoldable pub verify_webhook_signature :
    {Body : Type 0} → (String → Body → Option (List ℕ)) → String → Body → List ℕ → Bool
verify_webhook_signature mac secret raw_body signature_header =
    verify_tag (mac secret raw_body) (hex_decode signature_header)
