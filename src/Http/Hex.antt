-- ===== src/Http/Hex.antt =====
-- Decoding a hexadecimal text, and which signatures pass (server/src/auth/webhook_signature.rs,
-- server/src/auth/token.rs).
use bank_statement_processor.Prelude.{
  ℕ, ◌/◌, ◌%◌, ◌<◌, String, true, false, Option, some, List, [], ◌∷◌, ◌≡◌, ◌↔◌, ap, ◌∙◌, sym, refl,
  arith, ◌==◌, length, All, Option-cases, inl, inr,
}
use bank_statement_processor.Http.Signature.{
  to_digit, from_str_radix, decode_pairs, hex_decode, hex_digit, hex_encode, bytes_eq,
  verify_webhook_signature,
}

to_digit-hex_digit : (n : ℕ) → n < 16 → to_digit (hex_digit n) ≡ some n
unfolding to_digit hex_digit
to_digit-hex_digit n h = ground arith

no_plus : (n : ℕ) → (hex_digit n == 43) ≡ false
unfolding hex_digit
no_plus n = ground arith

from_str_radix-hex :
    (b : ℕ) → b < 256 → from_str_radix (hex_digit (b / 16)) (hex_digit (b % 16)) ≡ some b
unfolding from_str_radix
from_str_radix-hex b h =
    rw
      (
        no_plus (b / 16),
        to_digit-hex_digit (b / 16) (omega arith),
        to_digit-hex_digit (b % 16) (omega arith),
      )
      (ap some (omega arith))

decode_pairs-hex_encode :
    (bytes : List ℕ) → All (λ b. b < 256) bytes → decode_pairs (hex_encode bytes) ≡ some bytes
unfolding decode_pairs hex_encode
decode_pairs-hex_encode [] h = refl
decode_pairs-hex_encode (b ∷ bs) (h, hs) =
    rw (from_str_radix-hex b h, decode_pairs-hex_encode bs hs) refl

even_length : (bytes : List ℕ) → length (hex_encode bytes) % 2 ≡ 0
unfolding hex_encode
even_length [] = refl
even_length (b ∷ bs) = omega (arith, even_length bs)

-- Decoding the hexadecimal text of any bytes gives these bytes.
pub hex_decode-hex_encode :
    (bytes : List ℕ) → All (λ b. b < 256) bytes → hex_decode (hex_encode bytes) ≡ some bytes
unfolding hex_decode
hex_decode-hex_encode bytes h = rw (even_length bytes, decode_pairs-hex_encode bytes h) refl

bytes_eq_iff : (xs bs : List ℕ) → (bytes_eq xs bs ≡ true) ↔ (xs ≡ bs)
unfolding bytes_eq
bytes_eq_iff [] [] = ground arith
bytes_eq_iff [] (b ∷ bs) = ground arith
bytes_eq_iff (a ∷ xs) [] = ground arith
bytes_eq_iff (a ∷ xs) (b ∷ bs) = ground (arith, bytes_eq_iff xs bs)

module _ {Body : Type 0} (mac : String → Body → Option (List ℕ)) where
  -- A signature passes exactly when it decodes to the MAC of the body under the secret: no malformed
  -- header passes.
  pub verify_iff :
      (secret : String) (body : Body) (header : List ℕ)
      → (verify_webhook_signature mac secret body header ≡ true)
        ↔ ((tag : List ℕ) × (mac secret body ≡ some tag) × (hex_decode header ≡ some tag))
  unfolding verify_webhook_signature
  verify_iff secret body header = elim (Option-cases (hex_decode header)) [
    | inl d ↦ (λ h. absurd (ground (arith, d)), λ (tag, m, e). absurd (ground (arith, d)))
    | inr (expected, d) ↦ elim (Option-cases (mac secret body)) [
      | inl m ↦ (λ h. absurd (ground (arith, m, d)), λ (tag, e, x). absurd (ground (arith, m)))
      | inr (tag, m) ↦ (
        λ h. (tag, m, d ∙ ap some (sym ((bytes_eq_iff tag expected).0 (rw (m, d) at h)))),
        λ (t, e, x). rw (m, d) ((bytes_eq_iff tag expected).1 (ground (arith, m, d))),
      )
    ]
  ]
