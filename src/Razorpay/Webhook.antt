-- ===== src/Razorpay/Webhook.antt =====
-- The reading of a webhook's payload (server/src/razorpay/webhook.rs). JSON documents are those of the
-- crate serde_json: a parameter, with what the code relies on as laws.
use bank_statement_processor.Prelude.{
  String, ◌≡◌, Option, none, some, List, [], ◌∷◌, str_eq, if◌then◌else◌,
}
use bank_statement_processor.Prelude.Int.{ℤ}

abbrev pub field {ℓ} : {A : Type ℓ} → String → List (String × A) → Option A
field k [] = none
field k ((j, v) ∷ m) = if str_eq j k then some v else field k m

-- `Value::get`, `as_str`, `as_i64`, and the `json!` of an object, a string and `null`. A member of an
-- object literal is found under its key (no key stands twice in the literals of this program), a
-- string reads back as itself, and `null` is no string.
pub record Json : Type 1 where
  pub Value : Type 0
  pub get : Value → String → Option Value
  pub as_str : Value → Option String
  pub as_i64 : Value → Option ℤ
  pub object : List (String × Value) → Value
  pub string : String → Value
  pub null : Value
  pub get-object :
      (members : List (String × Value)) (k : String) → get (object members) k ≡ field k members
  pub as_str-string : (s : String) → as_str (string s) ≡ some s
  pub as_str-null : as_str null ≡ none

abbrev pub and_then {ℓ κ} : {A : Type ℓ} {B : Type κ} → Option A → (A → Option B) → Option B
and_then none f = none
and_then (some a) f = f a

abbrev pub or_else {ℓ} : {A : Type ℓ} → Option A → Option A → Option A
or_else none b = b
or_else (some a) b = some a

module _ (J : Json) where
  open J use {Value, get, as_str, as_i64}

  -- payload.<key>.entity
  unfoldable pub entity : Value → String → Option Value
  entity payload key = and_then (get payload key) (λ v. get v "entity")

  unfoldable pub extract_entity_ref : Value → String → Option String
  unfolding entity
  extract_entity_ref payload key =
      and_then (entity payload key)
        λ e. or_else (and_then (get e "order_id") as_str) (and_then (get e "id") as_str)

  unfoldable pub extract_entity_id : Value → String → Option String
  unfolding entity
  extract_entity_id payload key = and_then (entity payload key) λ e. and_then (get e "id") as_str

  unfoldable pub extract_entity_amount_minor : Value → String → Option ℤ
  unfolding entity
  extract_entity_amount_minor payload key =
      and_then (entity payload key) λ e. and_then (get e "amount") as_i64

  unfoldable pub extract_entity_currency : Value → String → Option String
  unfolding entity
  extract_entity_currency payload key =
      and_then (entity payload key) λ e. and_then (get e "currency") as_str

  unfoldable pub extract_dispute_status : Value → Option String
  unfolding entity
  extract_dispute_status payload =
      and_then (entity payload "dispute") λ e. and_then (get e "status") as_str

pub record RazorpayWebhookPayload (V : Type 0) : Type 0 where
  pub event : String
  pub payload : V
