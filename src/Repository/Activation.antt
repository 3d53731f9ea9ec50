-- ===== src/Repository/Activation.antt =====
-- What `activate_device` leaves behind when it answers (server/src/repository/device.rs).
use bank_statement_processor.Prelude.{
  ℕ, String, Bool, true, false, ◌&&◌, Option, none, some, List, [], ◌∷◌, ◌≡◌, refl, str_eq, eq_iff,
  ==_iff, ◌==◌, arith, length, find, select, any, update_where,
}
use bank_statement_processor.Prelude.Int.{ℤ, leb_ℤ, as_i32}
use bank_statement_processor.Domain.Records.{Device}
use bank_statement_processor.Repository.Db.{ok, Tables, Outages, query, exec, later}
use bank_statement_processor.Repository.Devices.{
  activated, limit_reached, is_none, is_active_of, refresh, reactivate, new_device_row,
  insert_device_row, lock_license, decide_activation, activate_device,
}

-- An active device of the license with this id and fingerprint.
unfoldable pub is_bound : ℕ → String → String → Device → Bool
unfolding is_active_of
is_bound license_id device_id fingerprint d =
    is_active_of license_id d
    && str_eq d.device_id device_id
    && str_eq d.machine_fingerprint fingerprint

any-updated :
    (p q r : Device → Bool) (f : Device → Device) (ds : List Device) (x : Device)
    → (p x ≡ true → q x ≡ true → r (f x) ≡ true)
    → find p (select q ds) ≡ some x
    → any r (update_where (λ d. d.id == x.id) f ds) ≡ true
unfolding find select any update_where
any-updated p q r f [] x h e = absurd (ground arith)
any-updated p q r f (d ∷ ds) x h e = ground (arith, any-updated p q r f ds x h, ==_iff x.id x.id)

refresh-bound :
    (license_id : ℕ) (device_id fingerprint label : String) (now : ℕ) (d : Device)
    → is_none d.deactivated_at ≡ true
    → str_eq d.device_id device_id ≡ true
    → (d.license_id == license_id) ≡ true
    → is_bound license_id device_id fingerprint (refresh fingerprint label now d) ≡ true
unfolding is_bound is_active_of refresh
refresh-bound license_id device_id fingerprint label now d e f g =
    ground (arith, eq_iff fingerprint fingerprint)

reactivate-bound :
    (license_id : ℕ) (device_id fingerprint label : String) (now : ℕ) (d : Device)
    → str_eq d.device_id device_id ≡ true
    → (d.license_id == license_id) ≡ true
    → is_bound license_id device_id fingerprint (reactivate fingerprint label now d) ≡ true
unfolding is_bound is_active_of is_none reactivate
reactivate-bound license_id device_id fingerprint label now d f g =
    ground (arith, eq_iff fingerprint fingerprint)

abbrev pub as_list : Option Device → List Device
as_list none = []
as_list (some d) = d ∷ []

module _ {V : Type 0} where
  insert-bound :
      (license_id : ℕ) (device_id fingerprint label : String) (now : ℕ) (t : Tables V)
      → (insert_device_row license_id device_id fingerprint label now t).0 ≡ ok tt
      → any
          (is_bound license_id device_id fingerprint)
          (insert_device_row license_id device_id fingerprint label now t).1.devices
        ≡ true
  unfolding insert_device_row any is_bound is_active_of is_none new_device_row
  insert-bound license_id device_id fingerprint label now t h = ground (
    arith,
    eq_iff fingerprint fingerprint,
    eq_iff device_id device_id,
    ==_iff license_id license_id,
  )

  -- After the answer `activated` the device is active on the license with this fingerprint.
  decide-bound :
      (license_id : ℕ) (max_devices : ℤ) (device_id fingerprint label : String) (now : ℕ)
      (found : Option Device) (active : List Device) (t : Tables V) (o : Outages)
      → find
          (λ d. str_eq d.device_id device_id)
          (select (λ d. d.license_id == license_id) t.devices)
        ≡ found
      → (decide_activation license_id max_devices device_id fingerprint label now found active t
          o).0
        ≡ ok activated
      → any
          (is_bound license_id device_id fingerprint)
          (decide_activation license_id max_devices device_id fingerprint label now found active t
            o).1.devices
        ≡ true
  unfolding decide_activation exec
  decide-bound license_id max_devices device_id fingerprint label now (some x) active t o f h =
      ground (
        arith,
        any-updated (λ d. str_eq d.device_id device_id) (λ d. d.license_id == license_id)
            (is_bound license_id device_id fingerprint) (refresh fingerprint label now) t.devices x,
        refresh-bound license_id device_id fingerprint label now x,
        any-updated (λ d. str_eq d.device_id device_id) (λ d. d.license_id == license_id)
            (is_bound license_id device_id fingerprint) (reactivate fingerprint label now) t.devices
            x,
        reactivate-bound license_id device_id fingerprint label now x,
      )
  decide-bound license_id max_devices device_id fingerprint label now none active t o f h =
      ground (arith, insert-bound license_id device_id fingerprint label now t)

  -- After a call that answers `activated` the license has an active device with this id and
  -- fingerprint.
  pub activate_device-bound :
      (license_id : ℕ) (max_devices : ℤ) (device_id fingerprint label : String) (now : ℕ)
      (t : Tables V) (o : Outages)
      → (activate_device license_id max_devices device_id fingerprint label now t o).0
        ≡ ok activated
      → any
          (is_bound license_id device_id fingerprint)
          (activate_device license_id max_devices device_id fingerprint label now t o).1.devices
        ≡ true
  unfolding activate_device lock_license query exec
  activate_device-bound license_id max_devices device_id fingerprint label now t o h =
      let rows = select (λ d. d.license_id == license_id) t.devices in
      ground (
        arith,
        decide-bound license_id max_devices device_id fingerprint label now
            (find (λ d. str_eq d.device_id device_id) rows)
            (select (λ d. is_none d.deactivated_at) rows) t (later (later (later o))) refl,
      )

  decide-refused :
      (license_id : ℕ) (max_devices : ℤ) (device_id fingerprint label : String) (now : ℕ)
      (found : Option Device) (active existing : List Device) (t : Tables V) (o : Outages)
      → (decide_activation license_id max_devices device_id fingerprint label now found active t
          o).0
        ≡ ok (limit_reached existing)
      → ((decide_activation license_id max_devices device_id fingerprint label now found active t
            o).1
          ≡ t)
        × (existing ≡ active)
        × (leb_ℤ max_devices (as_i32 (length active)) ≡ true)
        × (any (λ d. is_none d.deactivated_at) (as_list found) ≡ false)
  unfolding decide_activation exec any
  decide-refused license_id max_devices device_id fingerprint label now (some x) active existing t o
        h =
      ground arith
  decide-refused license_id max_devices device_id fingerprint label now none active existing t o h =
      ground arith

  -- An answer that the limit is reached comes with all active devices of the license, at least as many
  -- as the license allows, and changes nothing.
  pub activate_device-refused :
      (license_id : ℕ) (max_devices : ℤ) (device_id fingerprint label : String) (now : ℕ)
      (existing : List Device) (t : Tables V) (o : Outages)
      → (activate_device license_id max_devices device_id fingerprint label now t o).0
        ≡ ok (limit_reached existing)
      → ((activate_device license_id max_devices device_id fingerprint label now t o).1 ≡ t)
        × (existing
            ≡ select
                (λ d. is_none d.deactivated_at)
                (select (λ d. d.license_id == license_id) t.devices))
        × (leb_ℤ max_devices (as_i32 (length existing)) ≡ true)
  unfolding activate_device lock_license query exec
  activate_device-refused license_id max_devices device_id fingerprint label now existing t o h =
      let rows = select (λ d. d.license_id == license_id) t.devices in
      ground (
        arith,
        decide-refused license_id max_devices device_id fingerprint label now
            (find (λ d. str_eq d.device_id device_id) rows)
            (select (λ d. is_none d.deactivated_at) rows) existing t (later (later (later o))),
      )
