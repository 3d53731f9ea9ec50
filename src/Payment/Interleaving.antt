-- ===== src/Payment/Interleaving.antt =====
-- Concurrent deliveries: any number of calls of `process_webhook_event` at once
-- (server/src/service/payment_service.rs). Each call first resolves what its event implies, by reads
-- outside any transaction, and later claims and applies it in one transaction; between the two, other
-- calls take their steps. A step relation over the tables and the phase of each call leaves the order,
-- the clocks and the failures open.
use bank_statement_processor.Prelude.{
  ℕ, String, true, false, ◌≡◌, ap, sym, ◌∙◌, ◌⊎◌, inl, inr, arith, ◌==◌, if◌then◌else◌,
}
use bank_statement_processor.Repository.Db.{Result, ok, err, Tables, Outages}
use bank_statement_processor.Repository.WebhookEvents.{WebhookMutation, ClaimOutcome}
use bank_statement_processor.Razorpay.Webhook.{Json, RazorpayWebhookPayload}
use bank_statement_processor.Payment.Resolve.{PaymentOperationError}
use bank_statement_processor.Payment.Process.{Env, resolve, claim}
use bank_statement_processor.Payment.Delivery.{seen, claim_changes, claim_remembers}

pub data Phase : Type 0 where
  waiting : Phase
  resolved : WebhookMutation → Phase
  finished : Result PaymentOperationError ClaimOutcome → Phase

abbrev pub enter : (ℕ → Phase) → ℕ → Phase → ℕ → Phase
enter phase i p j = if j == i then p else phase j

pub record System (V : Type 0) : Type 0 where
  pub tables : Tables V
  pub phase : ℕ → Phase

module _ (J : Json) (event_id : ℕ → String) (payload : ℕ → RazorpayWebhookPayload J.Value) where
  open J use {Value}

  -- Call `i` resolves, fails to, or claims.
  pub data Step (s s' : System Value) : Type 0 where
    resolves :
        (i : ℕ) (env : Env) (o : Outages) (m : WebhookMutation)
        → s.phase i ≡ waiting
        → (resolve J env (payload i) s.tables o).0 ≡ ok m
        → s'.tables ≡ s.tables
        → s'.phase ≡ enter s.phase i (resolved m)
        → Step s s'
    gives_up :
        (i : ℕ) (env : Env) (o : Outages) (x : PaymentOperationError)
        → s.phase i ≡ waiting
        → (resolve J env (payload i) s.tables o).0 ≡ err x
        → s'.tables ≡ s.tables
        → s'.phase ≡ enter s.phase i (finished (err x))
        → Step s s'
    claims :
        (i : ℕ) (env : Env) (o : Outages) (m : WebhookMutation)
        → s.phase i ≡ resolved m
        → s'.tables ≡ (claim J env (event_id i) (payload i) m s.tables o).1
        → s'.phase
          ≡ enter s.phase i (finished (claim J env (event_id i) (payload i) m s.tables o).0)
        → Step s s'

  pub data Reach (s : System Value) : System Value → Type 0 where
    here : Reach s s
    next : {u v : System Value} → Reach s u → Step u v → Reach s v

  -- The call that takes the step.
  abbrev pub mover : {s s' : System Value} → Step s s' → ℕ
  mover (resolves i env o m w r kept moved) = i
  mover (gives_up i env o x w r kept moved) = i
  mover (claims i env o m at_i written moved) = i

  -- A step leaves the tables alone, or its event id was not in the ledger and is there afterwards.
  Step-seen :
      (s s' : System Value) (st : Step s s')
      → (s'.tables ≡ s.tables)
        ⊎ ((seen J (event_id (mover st)) s.tables ≡ false)
            × (seen J (event_id (mover st)) s'.tables ≡ true))
  Step-seen s s' (resolves i env o m w r kept moved) = inl kept
  Step-seen s s' (gives_up i env o x w r kept moved) = inl kept
  Step-seen s s' (claims i env o m at_i written moved) =
      elim (claim_changes J env (event_id i) (payload i) m s.tables o) [
        | inl same ↦ inl (written ∙ same)
        | inr (before, after) ↦ inr (before, ap (seen J (event_id i)) written ∙ after)
      ]

  Step-remembers :
      (s s' : System Value) (id : String)
      → Step s s'
      → seen J id s.tables ≡ true
      → seen J id s'.tables ≡ true
  Step-remembers s s' id (resolves i env o m w r kept moved) h = ap (seen J id) kept ∙ h
  Step-remembers s s' id (gives_up i env o x w r kept moved) h = ap (seen J id) kept ∙ h
  Step-remembers s s' id (claims i env o m at_i written moved) h =
      ap (seen J id) written ∙ claim_remembers J env (event_id i) (payload i) m s.tables o id h

  Reach-remembers :
      {s s' : System Value} (id : String)
      → Reach s s'
      → seen J id s.tables ≡ true
      → seen J id s'.tables ≡ true
  Reach-remembers id here h = h
  Reach-remembers id (next {u} {v} r st) h = Step-remembers u v id st (Reach-remembers id r h)

  abbrev pub start : Tables Value → System Value
  start t = record { tables = t; phase = λ _. waiting }

  -- At most once: from any tables, with any number of calls at work and in any order of their steps,
  -- whatever fails on the way and whatever each call answers, of any two steps of a run that deliver
  -- one event id, be they of one call or of two, at least one leaves every table as it is.
  pub applied_once :
      (t : Tables Value) (s s' u u' : System Value)
      → Reach (start t) s
      → (st : Step s s') → Reach s' u
      → (st' : Step u u') → event_id (mover st) ≡ event_id (mover st')
      → (s'.tables ≡ s.tables) ⊎ (u'.tables ≡ u.tables)
  applied_once t s s' u u' r st between st' same = elim (Step-seen s s' st) [
    | inl kept ↦ inl kept
    | inr (_, recorded) ↦ elim (Step-seen u u' st') [
      | inl kept ↦ inr kept
      | inr (unseen, _) ↦
          (let known = Reach-remembers (event_id (mover st)) between recorded in
            let known' = ap (λ id. seen J id u.tables) (sym same) ∙ known in absurd (ground arith))
    ]
  ]
