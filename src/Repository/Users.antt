-- ===== src/Repository/Users.antt =====
-- The `users` table (server/src/repository/user.rs; the constraints from server/migrations).
use bank_statement_processor.Prelude.{
  ℕ, suc, String, Option, ◌∷◌, ◌==◌, str_eq, if◌then◌else◌, find, any,
}
use bank_statement_processor.Domain.Status.{UserRole}
use bank_statement_processor.Domain.Records.{User, NewUser}
use bank_statement_processor.Repository.Db.{
  RepositoryError, database, Result, ok, err, Tables, Query, Cmd, query, exec,
}

unfoldable pub new_user_row : NewUser → ℕ → ℕ → User
new_user_row n id now = record {
  id = id;
  email = n.email;
  password_hash = n.password_hash;
  full_name = n.full_name;
  company_name = n.company_name;
  role = UserRole.customer;
  created_at = now;
  updated_at = now;
}

module _ {V : Type 0} where
  unfoldable pub find_by_email : String → Query V RepositoryError (Option User)
  find_by_email email = query database (λ t. find (λ u. str_eq u.email email) t.users)

  unfoldable pub find_by_id : ℕ → Query V RepositoryError (Option User)
  find_by_id id = query database (λ t. find (λ u. u.id == id) t.users)

  -- The e-mail address is UNIQUE, and the role has the default 'customer'.
  unfoldable pub insert_row : NewUser → ℕ → Tables V → Result RepositoryError User × Tables V
  insert_row n now t =
      if any (λ u. str_eq u.email n.email) t.users
      then (err database, t)
      else (let row = new_user_row n t.next_id.users now in
          (
            ok row,
            record t {
              users = row ∷ t.users;
              next_id = record t.next_id { users = suc t.next_id.users };
            },
          ))

  unfoldable pub insert : NewUser → ℕ → Cmd V RepositoryError User
  insert n now = exec database (insert_row n now)
