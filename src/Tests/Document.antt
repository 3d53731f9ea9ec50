-- ===== src/Tests/Document.antt =====
-- A concrete JSON document type that meets the laws asked of the parameter `Json`.
use bank_statement_processor.Prelude.{
  String, ◌≡◌, refl, Option, none, some, List, [], ◌∷◌, arith, str_eq, if◌then◌else◌,
}
use bank_statement_processor.Prelude.Int.{ℤ}
use bank_statement_processor.Razorpay.Webhook.{Json, field}

mutual
  pub data Document : Type 0 where
    null : Document
    text : String → Document
    integer : ℤ → Document
    object : Members → Document

  pub data Members : Type 0 where
    end : Members
    member : String → Document → Members → Members

abbrev pub members : List (String × Document) → Members
members [] = end
members ((k, v) ∷ ms) = member k v (members ms)

abbrev pub look : Members → String → Option Document
look end k = none
look (member j v ms) k = if str_eq j k then some v else look ms k

abbrev pub get : Document → String → Option Document
get (object ms) k = look ms k
get _ k = none

abbrev pub as_str : Document → Option String
as_str (text s) = some s
as_str _ = none

abbrev pub as_i64 : Document → Option ℤ
as_i64 (integer n) = some n
as_i64 _ = none

pub get-object :
    (ms : List (String × Document)) (k : String) → get (object (members ms)) k ≡ field k ms
get-object [] k = refl
get-object ((j, v) ∷ ms) k = ground (arith, get-object ms k)

abbrev pub documents : Json
documents = record {
  Value = Document;
  get = get;
  as_str = as_str;
  as_i64 = as_i64;
  object = λ ms. object (members ms);
  string = text;
  null = null;
  get-object = get-object;
  as_str-string = λ s. refl;
  as_str-null = refl;
}
