-- ===== src/Auth/Logout.antt =====
-- What a logout does to the tokens (server/src/service/auth_service.rs, `logout`).
use bank_statement_processor.Prelude.{
  ℕ, String, Bool, Option, some, List, [], ◌∷◌, ◌≡◌, ◌≢◌, refl, ◌∙◌, arith, inl, inr, str_eq, ◌==◌,
  if◌then◌else◌, find, update_where, Bool-cases,
}
use bank_statement_processor.Domain.Records.{Session}
use bank_statement_processor.Repository.Db.{ok, Tables, Outages, exec, fails}
use bank_statement_processor.Repository.Sessions.{revoke, set_revoked}
use bank_statement_processor.Auth.Service.{Crypto, validate_session, logout}
use bank_statement_processor.Auth.Sessions.{
  stored_session, validate_session_iff, validate_session_by,
}

find-revoked :
    (p : Session → Bool) (now : ℕ) (ss : List Session) (s : Session) (id : ℕ)
    → ((x : Session) (at : Option ℕ) → p (record x { revoked_at = at }) ≡ p x)
    → find p ss ≡ some s
    → find p (set_revoked id now ss)
      ≡ some (if s.id == id then record s { revoked_at = some now } else s)
unfolding set_revoked update_where find
find-revoked p now [] s id k h = absurd (ground arith)
find-revoked p now (x ∷ xs) s id k h = elim (Bool-cases (p x)) [
  | inl e ↦ ground (arith, e, k x (some now))
  | inr e ↦ ground (arith, e, k x (some now), find-revoked p now xs s id k)
]

module _ (crypto : Crypto) {V : Type 0} where
  logout_tables :
      (now id : ℕ) (t : Tables V) (o : Outages)
      → (logout now id t o).0 ≡ ok tt
      → (logout now id t o).1 ≡ record t { sessions = set_revoked id now t.sessions }
  unfolding logout revoke exec
  logout_tables now id t o h = elim (Bool-cases (fails o)) [
    | inl e ↦ absurd (ground (arith, e))
    | inr e ↦ rw e refl
  ]

  stored_after :
      (now : ℕ) (token : String) (s : Session) (id : ℕ) (t : Tables V) (o : Outages)
      → stored_session crypto token t ≡ some s
      → (logout now id t o).0 ≡ ok tt
      → stored_session crypto token (logout now id t o).1
        ≡ some (if s.id == id then record s { revoked_at = some now } else s)
  stored_after now token s id t o stored h = rw (logout_tables now id t o h) (
      find-revoked (λ x. str_eq x.token_hash (crypto.hash_token token)) now t.sessions s id
        (λ x at. refl) stored)

  -- A logout ends its session and no other. After a logout that answered, the token of the session that
  -- was logged out is never accepted again, at any time; and a token that belongs to a stored session of
  -- another id is accepted or refused at any time exactly as if the logout had not happened.
  pub logout_ends_session :
      (now : ℕ) (token : String) (s : Session) (id : ℕ) (t : Tables V) (o : Outages)
      → stored_session crypto token t ≡ some s
      → (logout now id t o).0 ≡ ok tt
      → (later_now : ℕ) (outages : Outages)
      → let t' = (logout now id t o).1 in
        (s.id ≡ id → (x : Session) → (validate_session crypto later_now token t' outages).0 ≢ ok x)
        × (s.id ≢ id
            → (validate_session crypto later_now token t' outages).0
              ≡ (validate_session crypto later_now token t outages).0)
  logout_ends_session now token s id t o stored h later_now outages = (
    λ same x v.
        (let after = stored_after now token s id t o stored h in
          let (up, e, live, time) =
            (validate_session_iff crypto later_now token x _ outages).0.0 v in
          absurd (ground arith)),
    λ other.
        validate_session_by crypto later_now token _ t outages
          (stored_after now token s id t o stored h ∙ ground (arith, stored)),
  )
