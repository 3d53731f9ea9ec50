-- ===== src/Repository/Subscriptions.antt =====
-- The `subscriptions` table (server/src/repository/subscription.rs).
use bank_statement_processor.Prelude.{
  ℕ, suc, Bool, true, false, ◌&&◌, Option, List, ◌∷◌, ◌==◌, if◌then◌else◌, find, select, any,
  update_where,
}
use bank_statement_processor.Domain.Status.{SubscriptionStatus}
use bank_statement_processor.Domain.Records.{Subscription, NewSubscription}
use bank_statement_processor.Repository.Db.{
  RepositoryError, database, Result, ok, err, Tables, Query, Cmd, query, exec,
}
use bank_statement_processor.Repository.Sql.{latest_by}

is_active : SubscriptionStatus → Bool
is_active SubscriptionStatus.active = true
is_active _ = false

-- UPDATE subscriptions SET status = $2, current_period_end = $3, updated_at = now() WHERE id = $1
unfoldable pub set_subscription_status :
    ℕ → SubscriptionStatus → Option ℕ → ℕ → List Subscription → List Subscription
set_subscription_status id s period_end now =
    update_where (λ r. r.id == id)
      (λ r. record r { status = s; current_period_end = period_end; updated_at = now })

unfoldable pub new_subscription_row : NewSubscription → ℕ → ℕ → Subscription
new_subscription_row n id now = record {
  id = id;
  user_id = n.user_id;
  plan_type = n.plan_type;
  status = n.status;
  started_at = n.started_at;
  current_period_end = n.current_period_end;
  auto_renew = n.auto_renew;
  created_at = now;
  updated_at = now;
}

module _ {V : Type 0} where
  unfoldable pub find_by_id : ℕ → Query V RepositoryError (Option Subscription)
  find_by_id id = query database (λ t. find (λ s. s.id == id) t.subscriptions)

  unfoldable pub find_active_by_user : ℕ → Query V RepositoryError (Option Subscription)
  unfolding is_active
  find_active_by_user user_id = query database (λ t.
      latest_by (λ s. s.created_at)
        (select (λ s. s.user_id == user_id && is_active s.status) t.subscriptions))

  unfoldable pub find_latest_by_user : ℕ → Query V RepositoryError (Option Subscription)
  find_latest_by_user user_id =
      query database
        (λ t. latest_by (λ s. s.created_at) (select (λ s. s.user_id == user_id) t.subscriptions))

  unfoldable pub insert_subscription_row :
      NewSubscription → ℕ → Tables V → Result RepositoryError Subscription × Tables V
  insert_subscription_row n now t =
      if any (λ u. u.id == n.user_id) t.users
      then (let row = new_subscription_row n t.next_id.subscriptions now in
          (
            ok row,
            record t {
              subscriptions = row ∷ t.subscriptions;
              next_id = record t.next_id { subscriptions = suc t.next_id.subscriptions };
            },
          ))
      else (err database, t)

  unfoldable pub insert : NewSubscription → ℕ → Cmd V RepositoryError Subscription
  insert n now = exec database (insert_subscription_row n now)

  unfoldable pub update_status : ℕ → SubscriptionStatus → Option ℕ → ℕ → Cmd V RepositoryError Unit
  update_status id s period_end now = exec database (λ t. (
    ok tt,
    record t { subscriptions = set_subscription_status id s period_end now t.subscriptions },
  ))
