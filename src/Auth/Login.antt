-- ===== src/Auth/Login.antt =====
-- What a login grants and what it refuses (server/src/service/auth_service.rs, `login`).
use bank_statement_processor.Prelude.{
  ℕ, suc, ◌⊎◌, ◌+◌, String, Bool, true, false, Option, none, some, [], ◌∷◌, ◌≡◌, refl, sym, ap, ◌∙◌,
  arith, inl, inr, str_eq, eq_iff, ◌==◌, not, ◌&&◌, find, any, Bool-cases,
}
use bank_statement_processor.Domain.Records.{User, Session, NewSession}
use bank_statement_processor.Repository.Db.{
  database, invalid_data, Result-cases, ok, err, Tables, Outages, query, exec, fails, later,
}
use bank_statement_processor.Repository.Sessions.{insert, insert_row, new_session_row}
use bank_statement_processor.Repository.Users.{find_by_email}
use bank_statement_processor.Repository.Audit.{record_login, insert_login}
use bank_statement_processor.Payment.Plans.{days}
use bank_statement_processor.Auth.Service.{
  Crypto, Call, LoginOutcome, AuthError, invalid_credentials, repository, hash_to_verify,
  dummy_password_hash, decide, issue, login,
}
use bank_statement_processor.Auth.Sessions.{stored_session}

abbrev asked : Crypto → Call → User → NewSession
asked crypto call user = record {
  user_id = user.id;
  token_hash = crypto.hash_token call.token;
  expires_at = call.now + days 30;
}

module _ (crypto : Crypto) {V : Type 0} where
  abbrev pub account : String → Tables V → Option User
  account email t = find (λ u. str_eq u.email email) t.users

  -- What a login leaves behind: on success the session of the outcome, stored for the user.
  abbrev pub Granted : Call → User → LoginOutcome → Tables V → Type 0
  Granted call user outcome t =
      (s : Session) × (stored_session crypto call.token t ≡ some s)
      × (s.user_id ≡ user.id)
      × (s.revoked_at ≡ none)
      × (s.expires_at ≡ call.now + days 30)
      × (outcome ≡ record {
        session_token = call.token;
        user_id = user.id;
        expires_at = call.now + days 30;
      })

  login_keeps :
      (id : ℕ) (device : Option String) (success : Bool) (t : Tables V) (o : Outages)
      → (record_login {E = AuthError} id device success t o).1.sessions ≡ t.sessions
  unfolding record_login insert_login
  login_keeps id device success t o = ground arith

  abbrev stored : Call → User → Tables V → Tables V
  stored call user t = record t {
    sessions = new_session_row (asked crypto call user) t.next_id.sessions call.db_now ∷ t.sessions;
    next_id = record t.next_id { sessions = suc t.next_id.sessions };
  }

  -- An issue fails on the tables it found, or stores one session.
  issue_cases :
      (call : Call) (user : User) (t : Tables V) (o : Outages)
      → ((issue crypto call user t o).0 ≡ err (repository database))
          × ((issue crypto call user t o).1 ≡ t)
        ⊎ ((issue crypto call user t o).0
            ≡ ok (record {
              session_token = call.token;
              user_id = user.id;
              expires_at = call.now + days 30;
            }))
          × ((issue crypto call user t o).1.sessions ≡ (stored call user t).sessions)
  unfolding issue insert exec insert_row new_session_row record_login
  issue_cases call user t o = elim (Bool-cases (fails o)) [
    | inl e ↦ inl (rw e (refl, refl))
    | inr e ↦
        elim (Bool-cases (
          any (λ u. u.id == user.id) t.users
          && not (any (λ s. str_eq s.token_hash (crypto.hash_token call.token)) t.sessions))) [
            | inl fresh ↦
                inr (
                  rw (e, fresh)
                    (refl, login_keeps user.id none true (stored call user t) (later o)))
            | inr taken ↦ inl (rw (e, taken) (refl, refl))
          ]
  ]

  issue_grants :
      (call : Call) (user : User) (outcome : LoginOutcome) (t : Tables V) (o : Outages)
      → (issue crypto call user t o).0 ≡ ok outcome
      → Granted call user outcome (issue crypto call user t o).1
  unfolding new_session_row find
  issue_grants call user outcome t o h = elim (issue_cases call user t o) [
    | inl (e, same) ↦ absurd (ground arith)
    | inr (e, same) ↦ (
      new_session_row (asked crypto call user) t.next_id.sessions call.db_now,
      rw (same, (eq_iff (crypto.hash_token call.token) _).1 refl) refl,
      refl,
      refl,
      refl,
      ground arith,
    )
  ]

  issue_error_keeps :
      (call : Call) (user : User) (e : AuthError) (t : Tables V) (o : Outages)
      → (issue crypto call user t o).0 ≡ err e
      → (issue crypto call user t o).1.sessions ≡ t.sessions
  issue_error_keeps call user e t o h = elim (issue_cases call user t o) [
    | inl (x, same) ↦ ap (λ y. y.sessions) same
    | inr (x, same) ↦ absurd (ground arith)
  ]

  refused_keeps :
      (call : Call) (user : Option User) (matches : Bool) (e : AuthError) (t : Tables V)
      (o : Outages)
      → (decide crypto call user matches t o).0 ≡ err e
      → (decide crypto call user matches t o).1.sessions ≡ t.sessions
  unfolding decide record_login
  refused_keeps call (some user) true e t o h = issue_error_keeps call user e t o h
  refused_keeps call (some user) false e t o h = login_keeps user.id none false t o
  refused_keeps call none matches e t o h = refl

  decide_grants :
      (call : Call) (user : Option User) (matches : Bool) (outcome : LoginOutcome) (t : Tables V)
      (o : Outages)
      → (decide crypto call user matches t o).0 ≡ ok outcome
      → (u : User) × (user ≡ some u)
        × (matches ≡ true)
        × Granted call u outcome (decide crypto call user matches t o).1
  unfolding decide
  decide_grants call (some user) true outcome t o h =
      (user, refl, refl, issue_grants call user outcome t o h)
  decide_grants call (some user) false outcome t o h = absurd (ground arith)
  decide_grants call none matches outcome t o h = absurd (ground arith)

  -- The ways a login can go: the database does not answer, the stored hash cannot be read, or the password
  -- was checked and the login is decided.
  login_cases :
      (call : Call) (email password : String) (t : Tables V) (o : Outages)
      → ((e : AuthError) × (login crypto call email password t o ≡ (err e, t, later o)))
        ⊎ ((matches : Bool) × (crypto.verify_password password (hash_to_verify (account email t))
              ≡ ok matches)
            × (login crypto call email password t o
                ≡ decide crypto call (account email t) matches t (later o)))
  unfolding login find_by_email query
  login_cases call email password t o = elim (Bool-cases (fails o)) [
    | inl e ↦ inl (repository database, rw e refl)
    | inr e ↦
        elim (Result-cases (crypto.verify_password password (hash_to_verify (account email t)))) [
          | inl (matches, v) ↦ inr (matches, v, rw (e, v) refl)
          | inr (x, v) ↦ inl (repository (invalid_data x), rw (e, v) refl)
        ]
  ]

  -- A login is sound, whichever statements fail. When it succeeds, an account with this e-mail address is
  -- stored, the password matches the hash stored for it, and the outcome's token belongs to a stored,
  -- unrevoked session of that account that expires thirty days from now. When it fails, the sessions are
  -- as they were: nothing is issued.
  pub login_sound :
      (call : Call) (email password : String) (t : Tables V) (o : Outages)
      → let (r, t', o') = login crypto call email password t o in
        ((outcome : LoginOutcome)
          → r ≡ ok outcome
          → (u : User) × (account email t ≡ some u)
            × (crypto.verify_password password u.password_hash ≡ ok true)
            × Granted call u outcome t')
        × ((e : AuthError) → r ≡ err e → t'.sessions ≡ t.sessions)
  unfolding hash_to_verify
  login_sound call email password t o = elim (login_cases call email password t o) [
    | inl (x, l) ↦ rw l (λ outcome h. absurd (ground arith), λ e h. refl)
    | inr (matches, v, l) ↦ rw l (
      λ outcome h.
          (let (u, found, m, g) =
              decide_grants call (account email t) matches outcome t (later o) h in
            (
              u,
              found,
              ap (λ a. crypto.verify_password password (hash_to_verify a)) (sym found)
                  ∙ v
                  ∙ ap ok m,
              g,
            )),
      λ e h. refused_keeps call (account email t) matches e t (later o) h,
    )
  ]

  -- An unknown e-mail address cannot be told from a wrong password. For two addresses, one with no account
  -- and one whose account has another password, a login with the same password gives the same error, when
  -- no statement fails and the dummy hash can be read; and in both cases no session is issued.
  pub unknown_like_wrong :
      (call : Call) (unknown known password : String) (u : User) (dummy : Bool) (t : Tables V)
      → account unknown t ≡ none
      → account known t ≡ some u
      → crypto.verify_password password dummy_password_hash ≡ ok dummy
      → crypto.verify_password password u.password_hash ≡ ok false
      → ((login crypto call unknown password t []).0 ≡ (login crypto call known password t []).0)
        × ((login crypto call unknown password t []).0 ≡ err invalid_credentials)
        × ((login crypto call unknown password t []).1.sessions ≡ t.sessions)
        × ((login crypto call known password t []).1.sessions ≡ t.sessions)
  unfolding login find_by_email query hash_to_verify decide fails record_login
  unknown_like_wrong call unknown known password u dummy t n k d w =
      rw (n, k, d, w) (refl, refl, refl, login_keeps u.id none false t (later []))
