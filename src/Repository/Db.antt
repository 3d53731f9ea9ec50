-- ===== src/Repository/Db.antt =====
-- The database behind the repositories (server/src/repository) and how a statement runs.
-- Each SQL statement of the source is a function on `Tables`. PostgreSQL itself may fail at any
-- statement: `Outages` says which of the statements to come fail (a list that has run out means that
-- all later ones succeed), so a theorem for every list covers every failure.
-- A `Query` only reads; a `Cmd` may write; `transaction` puts the tables back when its body fails.
use bank_statement_processor.Prelude.{
  ◌≡◌, refl, ◌⊎◌, inl, inr, ℕ, String, Bool, false, List, [], ◌∷◌, if◌then◌else◌,
}
use bank_statement_processor.Domain.Records.{
  User, Session, Payment, Subscription, License, Device, NewPaymentWebhookEvent,
  NewLicenseValidationLogEntry, NewLoginHistoryEntry,
}

-- repository/error.rs
pub data RepositoryError : Type 0 where
  database : RepositoryError
  invalid_data : String → RepositoryError
  duplicate_provider_reference : String → RepositoryError

pub data Result {ℓ} (E : Type ℓ) (A : Type ℓ) : Type ℓ where
  ok : A → Result E A
  err : E → Result E A

-- The next value of each BIGSERIAL.
pub record Sequences : Type 0 where
  pub users : ℕ
  pub sessions : ℕ
  pub payments : ℕ
  pub subscriptions : ℕ
  pub licenses : ℕ
  pub devices : ℕ

-- The newest row stands first.
pub record Tables (V : Type 0) : Type 0 where
  pub users : List User
  pub sessions : List Session
  pub payments : List Payment
  pub subscriptions : List Subscription
  pub licenses : List License
  pub devices : List Device
  pub payment_webhook_events : List (NewPaymentWebhookEvent V)
  pub license_validation_logs : List NewLicenseValidationLogEntry
  pub login_history : List NewLoginHistoryEntry
  pub next_id : Sequences

abbrev pub Outages : Type 0
Outages = List Bool

unfoldable pub fails : Outages → Bool
fails [] = false
fails (b ∷ o) = b

unfoldable pub later : Outages → Outages
later [] = []
later (b ∷ o) = o

abbrev pub Query : Type 0 → Type 0 → Type 0 → Type 0
Query V E A = Tables V → Outages → Result E A × Outages

abbrev pub Cmd : Type 0 → Type 0 → Type 0 → Type 0
Cmd V E A = Tables V → Outages → Result E A × Tables V × Outages

module _ {V E A : Type 0} where
  abbrev pub return : Result E A → Query V E A
  return r t o = (r, o)

  -- One SELECT, with the error that the caller reports for a database failure.
  unfoldable pub query : E → (Tables V → A) → Query V E A
  query e f t o = if fails o then (err e, later o) else (ok (f t), later o)

  -- One statement that writes; `err` is the refusal by a constraint.
  unfoldable pub exec : E → (Tables V → Result E A × Tables V) → Cmd V E A
  exec e f t o = if fails o then (err e, t, later o) else (let (r, t') = f t in (r, t', later o))

  abbrev pub reads : Query V E A → Cmd V E A
  reads q t o = let (r, o') = q t o in (r, t, o')

  abbrev pub settle : Tables V → Result E A × Tables V × Outages → Result E A × Tables V × Outages
  settle t (ok a, t', o') = (ok a, t', o')
  settle t (err e, t', o') = (err e, t, o')

  -- A failure of the body, a failed COMMIT included, rolls back.
  abbrev pub transaction : Cmd V E A → Cmd V E A
  transaction m t o = settle t (m t o)

module _ {V E : Type 0} where
  -- BEGIN, COMMIT and ROLLBACK can fail too.
  abbrev pub statement : E → Cmd V E Unit
  statement e = exec e (λ t. (ok tt, t))

module _ {V E A B : Type 0} where
  abbrev pub continue : Result E A → (A → Query V E B) → Query V E B
  continue (ok a) f t o = f a t o
  continue (err e) f t o = (err e, o)

  abbrev pub continue_cmd : Result E A → (A → Cmd V E B) → Cmd V E B
  continue_cmd (ok a) f t o = f a t o
  continue_cmd (err e) f t o = (err e, t, o)

pub Result-cases :
    {E A : Type 0} (r : Result E A) → ((a : A) × (r ≡ ok a)) ⊎ ((e : E) × (r ≡ err e))
Result-cases (ok a) = inl (a, refl)
Result-cases (err e) = inr (e, refl)
