-- ===== src/Payment/Retries.antt =====
-- Repeated deliveries of one webhook event, some of which fail (server/src/service/payment_service.rs).
use bank_statement_processor.Prelude.{String, List, [], ◌∷◌, ◌≡◌, ◌⊎◌, inl, inr, refl, ap, ◌∙◌}
use bank_statement_processor.Repository.Db.{ok, Tables, Outages}
use bank_statement_processor.Razorpay.Webhook.{Json, RazorpayWebhookPayload}
use bank_statement_processor.Payment.Process.{Env, process_webhook_event}
use bank_statement_processor.Payment.Delivery.{process_twice}
use bank_statement_processor.Payment.Outages.{process_all_or_nothing}

-- One attempt: its clock and key, and the statements that fail during it.
pub record Attempt : Type 0 where
  pub env : Env
  pub outages : Outages

-- The surroundings of one of the attempts, or of the last delivery.
abbrev pub IsMade : Env → List Attempt → Env → Type 0
IsMade e [] last = e ≡ last
IsMade e (a ∷ attempts) last = (e ≡ a.env) ⊎ IsMade e attempts last

module _ (J : Json) where
  open J use {Value}

  -- The tables after the provider has delivered the event in each attempt.
  unfoldable pub deliver_all :
      String → RazorpayWebhookPayload Value → List Attempt → Tables Value → Tables Value
  deliver_all id p [] t = t
  deliver_all id p (a ∷ attempts) t =
      deliver_all id p attempts (process_webhook_event J a.env id p t a.outages).1

  -- Once the event was processed, the later attempts change nothing.
  deliver_all-processed :
      (id : String) (p : RazorpayWebhookPayload Value) (attempts : List Attempt) (env : Env)
      (t : Tables Value) (o : Outages)
      → (process_webhook_event J env id p t o).0 ≡ ok tt
      → deliver_all id p attempts (process_webhook_event J env id p t o).1
        ≡ (process_webhook_event J env id p t o).1
  unfolding deliver_all
  deliver_all-processed id p [] env t o h = refl
  deliver_all-processed id p (a ∷ attempts) env t o h =
      ap (deliver_all id p attempts) (process_twice J env a.env id p p t o a.outages h)
      ∙ deliver_all-processed id p attempts env t o h

  -- Retries converge. However often the delivery of an event was attempted before, and whatever
  -- statements failed in each attempt, after one more delivery during which none fails the tables are
  -- just as after a single delivery, without a failure, at the clock of one of these deliveries.
  pub retries_converge :
      (id : String) (p : RazorpayWebhookPayload Value) (attempts : List Attempt) (last : Env)
      (t : Tables Value)
      → (env : Env) × IsMade env attempts last
        × ((process_webhook_event J last id p (deliver_all id p attempts t) []).1
            ≡ (process_webhook_event J env id p t []).1)
  unfolding deliver_all
  retries_converge id p [] last t = (last, refl, refl)
  retries_converge id p (a ∷ attempts) last t =
      elim (process_all_or_nothing J a.env id p t a.outages) [
        | inl (e, same) ↦
            (let (env, made, k) = retries_converge id p attempts last t in
              (env, inr made, rw same k))
        | inr (h, same) ↦ (
          a.env,
          inl refl,
          ap (λ x. (process_webhook_event J last id p x []).1)
                (deliver_all-processed id p attempts a.env t a.outages h)
              ∙ process_twice J a.env last id p p t a.outages [] h
              ∙ same,
        )
      ]
