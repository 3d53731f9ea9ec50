-- ===== src/Auth/Sessions.antt =====
-- Which tokens the server accepts, and what a logout does (server/src/service/auth_service.rs).
use bank_statement_processor.Prelude.{
  ℕ, String, false, Option, none, some, ◌≡◌, ◌↔◌, refl, sym, ap, ◌∙◌, ◌⊎◌, ◌<◌, arith, inl, inr,
  str_eq, ◌==◌, if◌then◌else◌, find, Option-cases,
}
use bank_statement_processor.Domain.Status.{UserRole}
use bank_statement_processor.Domain.Records.{User, Session}
use bank_statement_processor.Repository.Db.{
  database, Result-cases, ok, err, Tables, Outages, query, fails, later,
}
use bank_statement_processor.Repository.Sessions.{find_by_token_hash}
use bank_statement_processor.Repository.Users.{find_by_id}
use bank_statement_processor.Auth.Service.{
  Crypto, AuthError, unauthorized, forbidden, repository, is_revoked, is_admin, check_session,
  check_role, validate_session, require_admin,
}

is_revoked_iff : (s : Session) → (is_revoked s ≡ false) ↔ (s.revoked_at ≡ none)
unfolding is_revoked
is_revoked_iff s = elim (Option-cases s.revoked_at) [
  | inl e ↦ ground (arith, e)
  | inr (x, e) ↦ ground (arith, e)
]

check_session_iff :
    (now : ℕ) (s x : Session)
    → (check_session now s ≡ ok x) ↔ ((s ≡ x) × (s.revoked_at ≡ none) × (now < s.expires_at))
unfolding check_session
check_session_iff now s x = ground (arith, is_revoked_iff s)

role_cases : (r : UserRole) → (r ≡ UserRole.admin) ⊎ (r ≡ UserRole.customer)
role_cases UserRole.admin = inl refl
role_cases UserRole.customer = inr refl

check_role_iff :
    (s x : Session) (u : User) → check_role x u ≡ ok s → (x ≡ s) × (u.role ≡ UserRole.admin)
unfolding check_role is_admin
check_role_iff s x u h = elim (role_cases u.role) [
  | inl e ↦ ground (arith, e)
  | inr e ↦ absurd (ground (arith, e))
]

module _ (crypto : Crypto) {V : Type 0} where
  abbrev pub stored_session : String → Tables V → Option Session
  stored_session token t = find (λ s. str_eq s.token_hash (crypto.hash_token token)) t.sessions

  -- A token is accepted exactly when the session with its hash is stored, was not revoked and has not
  -- expired (and the database answers). The check changes no table.
  pub validate_session_iff :
      (now : ℕ) (token : String) (s : Session) (t : Tables V) (o : Outages)
      → (((validate_session crypto now token t o).0 ≡ ok s) ↔ (
          (fails o ≡ false)
          × (stored_session token t ≡ some s)
          × (s.revoked_at ≡ none)
          × (now < s.expires_at)))
        × ((validate_session crypto now token t o).1 ≡ t)
  unfolding validate_session find_by_token_hash query
  validate_session_iff now token s t o = elim (Option-cases (stored_session token t)) [
    | inl e ↦ ground (arith, e)
    | inr (x, e) ↦ ground (arith, e, check_session_iff now x s)
  ]

  -- The answer depends on the tables by the stored session only.
  pub validate_session_by :
      (now : ℕ) (token : String) (t t' : Tables V) (o : Outages)
      → stored_session token t ≡ stored_session token t'
      → (validate_session crypto now token t o).0 ≡ (validate_session crypto now token t' o).0
  unfolding validate_session find_by_token_hash query
  validate_session_by now token t t' o e = elim (Option-cases (stored_session token t')) [
    | inl n ↦ ground (arith, e, n)
    | inr (x, n) ↦ ground (arith, e, n)
  ]

  validate_session_reads :
      (now : ℕ) (token : String) (t : Tables V) (o : Outages)
      → validate_session crypto now token t o
        ≡ ((validate_session crypto now token t o).0, t, later o)
  unfolding validate_session find_by_token_hash query
  validate_session_reads now token t o = elim (Option-cases (stored_session token t)) [
    | inl e ↦ ground (arith, e)
    | inr (x, e) ↦ ground (arith, e)
  ]

  require_admin-accepted :
      (now : ℕ) (token : String) (s : Session) (t : Tables V) (o : Outages)
      → (validate_session crypto now token t o).0 ≡ ok s
      → (require_admin crypto now token t o).0 ≡ (
          if fails (later o)
          then err (repository database)
          else elim (find (λ u. u.id == s.user_id) t.users) [
            | none ↦ err unauthorized
            | some u ↦ check_role s u
          ])
  unfolding require_admin find_by_id query
  require_admin-accepted now token s t o h =
      elim (Option-cases (find (λ u. u.id == s.user_id) t.users)) [
        | inl e ↦ rw (validate_session_reads now token t o, h, e) (ground (arith, e))
        | inr (u, e) ↦ rw (validate_session_reads now token t o, h, e) (ground (arith, e))
      ]

  require_admin-refused :
      (now : ℕ) (token : String) (e : AuthError) (t : Tables V) (o : Outages)
      → (validate_session crypto now token t o).0 ≡ err e
      → (require_admin crypto now token t o).0 ≡ err e
  unfolding require_admin
  require_admin-refused now token e t o h = rw (validate_session_reads now token t o, h) refl

  admin_accepted :
      (now : ℕ) (token : String) (s : Session) (t : Tables V) (o : Outages)
      → (require_admin crypto now token t o).0 ≡ ok s
      → ((validate_session crypto now token t o).0 ≡ ok s)
        × (fails (later o) ≡ false)
        × ((u : User) × (find (λ u. u.id == s.user_id) t.users ≡ some u)
            × (u.role ≡ UserRole.admin))
  admin_accepted now token s t o h = elim (Result-cases (validate_session crypto now token t o).0) [
    | inr (e, v) ↦ (let r = require_admin-refused now token e t o v in absurd (ground arith))
    | inl (x, v) ↦
        (let r = sym (require_admin-accepted now token x t o v) ∙ h in
          elim (Option-cases (find (λ u. u.id == x.user_id) t.users)) [
            | inl e ↦ absurd (ground (arith, e))
            | inr (u, e) ↦
                (let up : fails (later o) ≡ false = ground (arith, e) in
                  let (same, role) = check_role_iff s x u (ground (arith, e)) in
                  (
                    v ∙ ap ok same,
                    up,
                    (u, ap (λ y. find (λ u. u.id == y.user_id) t.users) (sym same) ∙ e, role),
                  ))
          ])
  ]

  -- The admin guard lets a token through exactly when it is accepted and the account of its session is
  -- stored with the role of an admin (and the database answers both questions); an accepted token of an
  -- account with another role is forbidden, not unauthorized.
  pub require_admin_iff :
      (now : ℕ) (token : String) (s : Session) (t : Tables V) (o : Outages)
      → (((require_admin crypto now token t o).0 ≡ ok s) ↔ (
          ((validate_session crypto now token t o).0 ≡ ok s)
          × (fails (later o) ≡ false)
          × ((u : User) × (find (λ u. u.id == s.user_id) t.users ≡ some u)
              × (u.role ≡ UserRole.admin))))
        × (((validate_session crypto now token t o).0 ≡ ok s)
            → fails (later o) ≡ false
            → (u : User) → find (λ u. u.id == s.user_id) t.users ≡ some u
            → u.role ≡ UserRole.customer
            → (require_admin crypto now token t o).0 ≡ err forbidden)
  unfolding require_admin find_by_id query check_role is_admin
  require_admin_iff now token s t o = (
    (
      admin_accepted now token s t o,
      λ (h, up, (u, e, r)). rw (require_admin-accepted now token s t o h, up, e, r) refl,
    ),
    λ h up u e r. rw (require_admin-accepted now token s t o h, up, e, r) refl,
  )
