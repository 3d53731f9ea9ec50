-- ===== src/Auth/Service.antt =====
-- Login, session validation, the admin guard and logout (server/src/service/auth_service.rs).
use bank_statement_processor.Prelude.{
  ℕ, ◌+◌, String, Bool, true, false, Option, none, some, ◌||◌, leb, if◌then◌else◌,
}
use bank_statement_processor.Domain.Status.{UserRole}
use bank_statement_processor.Domain.Records.{User, Session}
use bank_statement_processor.Repository.Db.{
  RepositoryError, invalid_data, Result, ok, err, Query, Cmd, return, reads,
}
use bank_statement_processor.Repository.Cmd.{◌>>=◌, ◌>>◌}
use bank_statement_processor.Repository.Users
use bank_statement_processor.Repository.Sessions
use bank_statement_processor.Repository.Audit.{record_login}
use bank_statement_processor.Payment.Plans.{days}

-- What the service takes from argon2 and sha2: whether a password matches a stored hash (or why that
-- hash cannot be read), and the hash of a token.
pub record Crypto : Type 0 where
  pub verify_password : String → String → Result String Bool
  pub hash_token : String → String

-- The clock of the server and of the database, and the token that is drawn, during one call.
pub record Call : Type 0 where
  pub now : ℕ
  pub db_now : ℕ
  pub token : String

pub record LoginOutcome : Type 0 where
  pub session_token : String
  pub user_id : ℕ
  pub expires_at : ℕ

pub data AuthError : Type 0 where
  invalid_credentials unauthorized forbidden : AuthError
  repository : RepositoryError → AuthError

abbrev pub session_lifetime_days : ℕ
session_lifetime_days = 30

abbrev pub dummy_password_hash : String
dummy_password_hash =
    "$argon2id$v=19$m=19456,t=2,p=1$AR8yt1NfD9lMVlV1/oHSjw$4rwRmMWXaTJIQaKGaFNn0Dc8yoALxtlDBIfMMUUMYkA"

unfoldable pub hash_to_verify : Option User → String
hash_to_verify none = dummy_password_hash
hash_to_verify (some u) = u.password_hash

unfoldable pub is_admin : UserRole → Bool
is_admin UserRole.admin = true
is_admin UserRole.customer = false

unfoldable pub is_revoked : Session → Bool
is_revoked s = elim s.revoked_at [ none ↦ false | some at ↦ true ]

abbrev pub auth_result : {A : Type 0} → Result RepositoryError A → Result AuthError A
auth_result (ok a) = ok a
auth_result (err e) = err (repository e)

abbrev pub or_unauthorized : {A : Type 0} → Option A → Result AuthError A
or_unauthorized none = err unauthorized
or_unauthorized (some a) = ok a

abbrev pub password_result : {A : Type 0} → Result String A → Result AuthError A
password_result (ok a) = ok a
password_result (err e) = err (repository (invalid_data e))

unfoldable pub check_session : ℕ → Session → Result AuthError Session
check_session now s = if is_revoked s || leb s.expires_at now then err unauthorized else ok s

unfoldable pub check_role : Session → User → Result AuthError Session
check_role session user = if is_admin user.role then ok session else err forbidden

module _ {V : Type 0} where
  abbrev pub ask : {A : Type 0} → Query V RepositoryError A → Cmd V AuthError A
  ask q t o = let (r, o') = q t o in (auth_result r, t, o')

  abbrev pub run : {A : Type 0} → Cmd V RepositoryError A → Cmd V AuthError A
  run m t o = let (r, t', o') = m t o in (auth_result r, t', o')

  abbrev pub give : {A : Type 0} → Result AuthError A → Cmd V AuthError A
  give r = reads (return r)

  unfoldable pub logout : ℕ → ℕ → Cmd V AuthError Unit
  logout now session_id = run (Sessions.revoke session_id now)

module _ (crypto : Crypto) {V : Type 0} where
  open crypto use {verify_password, hash_token}

  -- The session of a login that is granted.
  unfoldable pub issue : Call → User → Cmd V AuthError LoginOutcome
  issue call user = do
    session ← run (
        Sessions.insert
          (record {
            user_id = user.id;
            token_hash = hash_token call.token;
            expires_at = call.now + days session_lifetime_days;
          })
          call.db_now)
    record_login user.id none true
    give (
        ok (record {
          session_token = call.token;
          user_id = user.id;
          expires_at = session.expires_at;
        }))

  -- The answer of the password check counts only for a user who was found.
  unfoldable pub decide : Call → Option User → Bool → Cmd V AuthError LoginOutcome
  decide call (some user) true = issue call user
  decide call (some user) false = do record_login user.id none false; give (err invalid_credentials)
  decide call none matches = give (err invalid_credentials)

  unfoldable pub login : Call → String → String → Cmd V AuthError LoginOutcome
  login call email password = do
    user ← ask (Users.find_by_email email)
    matches ← give (password_result (verify_password password (hash_to_verify user)))
    decide call user matches

  unfoldable pub validate_session : ℕ → String → Cmd V AuthError Session
  validate_session now token = do
    found ← ask (Sessions.find_by_token_hash (hash_token token))
    session ← give (or_unauthorized found)
    give (check_session now session)

  unfoldable pub require_admin : ℕ → String → Cmd V AuthError Session
  require_admin now token = do
    session ← validate_session now token
    found ← ask (Users.find_by_id session.user_id)
    user ← give (or_unauthorized found)
    give (check_role session user)
