-- ===== src/Repository/Sessions.antt =====
-- The `sessions` table (server/src/repository/session.rs; the constraints from server/migrations).
use bank_statement_processor.Prelude.{
  ℕ, suc, String, Option, none, some, not, ◌&&◌, List, ◌∷◌, ◌==◌, str_eq, if◌then◌else◌, find, any,
  update_where,
}
use bank_statement_processor.Domain.Records.{Session, NewSession}
use bank_statement_processor.Repository.Db.{
  RepositoryError, database, Result, ok, err, Tables, Query, Cmd, query, exec,
}

unfoldable pub new_session_row : NewSession → ℕ → ℕ → Session
new_session_row n id now = record {
  id = id;
  user_id = n.user_id;
  token_hash = n.token_hash;
  created_at = now;
  expires_at = n.expires_at;
  revoked_at = none;
}

-- UPDATE sessions SET revoked_at = now() WHERE id = $1
unfoldable pub set_revoked : ℕ → ℕ → List Session → List Session
set_revoked id now = update_where (λ s. s.id == id) (λ s. record s { revoked_at = some now })

module _ {V : Type 0} where
  -- The user is referenced, and the hash of the token is UNIQUE.
  unfoldable pub insert_row : NewSession → ℕ → Tables V → Result RepositoryError Session × Tables V
  insert_row n now t =
      if any (λ u. u.id == n.user_id) t.users
        && not (any (λ s. str_eq s.token_hash n.token_hash) t.sessions)
      then (let row = new_session_row n t.next_id.sessions now in
          (
            ok row,
            record t {
              sessions = row ∷ t.sessions;
              next_id = record t.next_id { sessions = suc t.next_id.sessions };
            },
          ))
      else (err database, t)

  unfoldable pub insert : NewSession → ℕ → Cmd V RepositoryError Session
  insert n now = exec database (insert_row n now)

  unfoldable pub find_by_token_hash : String → Query V RepositoryError (Option Session)
  find_by_token_hash token_hash =
      query database (λ t. find (λ s. str_eq s.token_hash token_hash) t.sessions)

  unfoldable pub revoke : ℕ → ℕ → Cmd V RepositoryError Unit
  revoke id now =
      exec database (λ t. (ok tt, record t { sessions = set_revoked id now t.sessions }))
