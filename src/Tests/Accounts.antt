-- ===== src/Tests/Accounts.antt =====
-- The theorems on accounts and sessions, on the shop with its one account. A password matches the hash
-- that is the same text, and a token is its own hash.
use bank_statement_processor.Prelude.{
  ◌<◌, true, false, none, some, [], ◌∷◌, ◌≡◌, ◌≢◌, ◌↔◌, refl, str_eq, ◌==◌, find,
}
use bank_statement_processor.Domain.Status.{UserRole}
use bank_statement_processor.Domain.Records.{User, Session}
use bank_statement_processor.Repository.Db.{ok, err, Tables, fails, later, exec}
use bank_statement_processor.Repository.Sessions.{revoke}
use bank_statement_processor.Tests.Document.{Document}
use bank_statement_processor.Auth.Service.{
  Crypto, Call, LoginOutcome, AuthError, invalid_credentials, forbidden, login, validate_session,
  require_admin, logout,
}
use bank_statement_processor.Auth.Sessions.{stored_session, validate_session_iff, require_admin_iff}
use bank_statement_processor.Auth.Login.{account, Granted, login_sound, unknown_like_wrong}
use bank_statement_processor.Auth.Logout.{logout_ends_session}
use bank_statement_processor.Tests.Shop.{shop, buyer}

abbrev crypto : Crypto
crypto = record {
  verify_password = λ password hash. ok (str_eq password hash);
  hash_token = λ token. token;
}

abbrev call : Call
call = record { now = 100; db_now = 100; token = "t2" }

-- The buyer is logged in with the token "t1" until the instant 500.
abbrev open_session : Session
open_session = record {
  id = 1;
  user_id = 1;
  token_hash = "t1";
  created_at = 50;
  expires_at = 500;
  revoked_at = none;
}

abbrev open_shop : Tables Document
open_shop = record shop { sessions = open_session ∷ [] }

validate_session_iff_example :
    (((validate_session crypto 100 "t1" open_shop []).0 ≡ ok open_session) ↔ (
      (fails [] ≡ false)
      × (stored_session crypto "t1" open_shop ≡ some open_session)
      × (open_session.revoked_at ≡ none)
      × (100 < 500)))
    × ((validate_session crypto 100 "t1" open_shop []).1 ≡ open_shop)
validate_session_iff_example = validate_session_iff crypto 100 "t1" open_session open_shop []

require_admin_iff_example :
    (((require_admin crypto 100 "t1" open_shop []).0 ≡ ok open_session) ↔ (
      ((validate_session crypto 100 "t1" open_shop []).0 ≡ ok open_session)
      × (fails (later []) ≡ false)
      × ((u : User) × (find (λ u. u.id == 1) open_shop.users ≡ some u)
          × (u.role ≡ UserRole.admin))))
    × (((validate_session crypto 100 "t1" open_shop []).0 ≡ ok open_session)
        → fails (later []) ≡ false
        → (u : User) → find (λ u. u.id == 1) open_shop.users ≡ some u
        → u.role ≡ UserRole.customer
        → (require_admin crypto 100 "t1" open_shop []).0 ≡ err forbidden)
require_admin_iff_example = require_admin_iff crypto 100 "t1" open_session open_shop []

logout_ends_session_example :
    let t' = (logout 200 1 open_shop []).1 in
    (open_session.id ≡ 1 → (x : Session) → (validate_session crypto 300 "t1" t' []).0 ≢ ok x)
    × (open_session.id ≢ 1
        → (validate_session crypto 300 "t1" t' []).0
          ≡ (validate_session crypto 300 "t1" open_shop []).0)
unfolding logout revoke exec fails find
logout_ends_session_example =
    logout_ends_session crypto 200 "t1" open_session 1 open_shop [] refl refl 300 []

login_sound_example :
    let (r, t', o') = login crypto call "a@b.in" "h" open_shop [] in
    ((outcome : LoginOutcome)
      → r ≡ ok outcome
      → (u : User) × (account crypto "a@b.in" open_shop ≡ some u)
        × (crypto.verify_password "h" u.password_hash ≡ ok true)
        × Granted crypto call u outcome t')
    × ((e : AuthError) → r ≡ err e → t'.sessions ≡ open_session ∷ [])
login_sound_example = login_sound crypto call "a@b.in" "h" open_shop []

unknown_like_wrong_example :
    ((login crypto call "nobody@b.in" "guess" open_shop []).0
      ≡ (login crypto call "a@b.in" "guess" open_shop []).0)
    × ((login crypto call "nobody@b.in" "guess" open_shop []).0 ≡ err invalid_credentials)
    × ((login crypto call "nobody@b.in" "guess" open_shop []).1.sessions ≡ open_session ∷ [])
    × ((login crypto call "a@b.in" "guess" open_shop []).1.sessions ≡ open_session ∷ [])
unfolding find
unknown_like_wrong_example =
    unknown_like_wrong crypto call "nobody@b.in" "a@b.in" "guess" buyer false open_shop refl refl
      refl refl
