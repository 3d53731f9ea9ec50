-- ===== src/Licensing/Release.antt =====
-- What a deactivation of a device guarantees (server/src/service/license_service.rs, `deactivate`).
use bank_statement_processor.Prelude.{
  ℕ, String, Bool, true, not, ◌&&◌, Option, none, some, List, ◌≡◌, refl, arith, ◌==◌, ==_iff,
  eq_iff, [], ◌∷◌, select, find, any, update_where,
}
use bank_statement_processor.Domain.Records.{License, Device}
use bank_statement_processor.Repository.Db.{ok, later, Tables, Outages, query, exec}
use bank_statement_processor.Repository.Rows.{any-update_where, any-find}
use bank_statement_processor.Repository.Licenses
use bank_statement_processor.Repository.Subscriptions
use bank_statement_processor.Repository.Devices
use bank_statement_processor.Repository.Devices.{is_none, is_device_of, is_active_of}
use bank_statement_processor.Repository.Capacity.{active_count}
use bank_statement_processor.Licensing.Service.{
  owns_subscription, active_device, if_active, deactivate,
}
use bank_statement_processor.Licensing.Entitlement.{Owns}

-- The row of this id is no longer active.
abbrev pub is_released : ℕ → Device → Bool
is_released id d = d.id == id && not (is_none d.deactivated_at)

released_after :
    (id now : ℕ) (ds : List Device)
    → any (λ d. d.id == id) ds ≡ true
    → any
        (is_released id)
        (update_where (λ d. d.id == id) (λ d. record d { deactivated_at = some now }) ds)
      ≡ true
unfolding is_none
released_after id now ds h =
    any-update_where (λ d. d.id == id) (λ d. d.id == id) (is_released id) _ ds (λ d e. e)
      (λ d e. ground arith) h

-- An update by id leaves the rows of other ids as they are, in their order.
others-update_where :
    (id : ℕ) (f : Device → Device) (ds : List Device)
    → ((d : Device) → (f d).id ≡ d.id)
    → select (λ d. not (d.id == id)) (update_where (λ d. d.id == id) f ds)
      ≡ select (λ d. not (d.id == id)) ds
unfolding select update_where
others-update_where id f [] k = refl
others-update_where id f (d ∷ ds) k = ground (arith, k d, others-update_where id f ds k)

-- Nothing changes but the row of one device.
pub record OnlyDevice {V : Type 0} (id : ℕ) (t t' : Tables V) : Type 0 where
  pub other_devices :
      select (λ d. not (d.id == id)) t'.devices ≡ select (λ d. not (d.id == id)) t.devices
  pub users : t'.users ≡ t.users
  pub sessions : t'.sessions ≡ t.sessions
  pub payments : t'.payments ≡ t.payments
  pub subscriptions : t'.subscriptions ≡ t.subscriptions
  pub licenses : t'.licenses ≡ t.licenses
  pub payment_webhook_events : t'.payment_webhook_events ≡ t.payment_webhook_events
  pub license_validation_logs : t'.license_validation_logs ≡ t.license_validation_logs
  pub login_history : t'.login_history ≡ t.login_history

module _ {V : Type 0} where
  owned :
      (user : Option ℕ) (l : License) (t : Tables V) (o : Outages)
      → ((owns_subscription l.subscription_id user t o).1 ≡ t)
        × ((owns_subscription l.subscription_id user t o).0 ≡ ok true → Owns user l t)
  unfolding owns_subscription Subscriptions.find_by_id query
  owned none l t o = ground arith
  owned (some u) l t o = (ground arith, λ h. ground arith)

  deactivated_rows :
      (now license_id : ℕ) (device_id fingerprint : String) (user : Option ℕ) (l : License)
      (d : Device) (t : Tables V) (o : Outages) (n : ℕ)
      → find (λ l. l.id == license_id) t.licenses ≡ some l
      → find (is_device_of l.id device_id) t.devices ≡ some d
      → (deactivate now license_id device_id fingerprint user t o).0 ≡ ok n
      → Owns user l t
        × (d.machine_fingerprint ≡ fingerprint)
        × (is_none d.deactivated_at ≡ true)
        × ((deactivate now license_id device_id fingerprint user t o).1 ≡ record t {
          devices =
              update_where
                (λ x. x.id == d.id)
                (λ x. record x { deactivated_at = some now })
                t.devices;
        })
        × (n
            ≡ active_count l.id
                (deactivate now license_id device_id fingerprint user t o).1.devices)
  unfolding deactivate active_device if_active Licenses.find_by_id
      Devices.find_by_license_and_device_id Devices.deactivate Devices.count_active_by_license query
      exec
  deactivated_rows now license_id device_id fingerprint user l d t o n e f h =
      ground (arith, owned user l t (later o), eq_iff d.machine_fingerprint fingerprint)

  -- A deactivation that succeeds carried the fingerprint of the device, which was active and afterwards
  -- is not; if it was called for a user, this is the user of the license's subscription (a call without
  -- a user asks for no owner). It answers the number of devices of the license that are active
  -- afterwards, and every other device and every row of the other tables is as it was.
  pub deactivate_releases :
      (now license_id : ℕ) (device_id fingerprint : String) (user : Option ℕ) (l : License)
      (d : Device) (t : Tables V) (o : Outages) (n : ℕ)
      → find (λ l. l.id == license_id) t.licenses ≡ some l
      → find (is_device_of l.id device_id) t.devices ≡ some d
      → (deactivate now license_id device_id fingerprint user t o).0 ≡ ok n
      → Owns user l t
        × (d.machine_fingerprint ≡ fingerprint)
        × (is_none d.deactivated_at ≡ true)
        × (any
              (is_released d.id)
              (deactivate now license_id device_id fingerprint user t o).1.devices
            ≡ true)
        × (n
            ≡ active_count l.id
                (deactivate now license_id device_id fingerprint user t o).1.devices)
        × OnlyDevice d.id t (deactivate now license_id device_id fingerprint user t o).1
  deactivate_releases now license_id device_id fingerprint user l d t o n e f h =
      let (a, b, c, after, count) =
        deactivated_rows now license_id device_id fingerprint user l d t o n e f h in
      (
        a,
        b,
        c,
        rw after (
            released_after d.id now t.devices (
              any-find (is_device_of l.id device_id) (λ x. x.id == d.id) t.devices
                (λ k. ground (arith, ==_iff d.id d.id)) f)),
        count,
        rw after (record {
          other_devices =
              others-update_where d.id (λ x. record x { deactivated_at = some now }) t.devices
                (λ x. refl);
          users = refl;
          sessions = refl;
          payments = refl;
          subscriptions = refl;
          licenses = refl;
          payment_webhook_events = refl;
          license_validation_logs = refl;
          login_history = refl;
        }),
      )
