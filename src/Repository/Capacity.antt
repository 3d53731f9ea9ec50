-- ===== src/Repository/Capacity.antt =====
-- The number of active devices of a license under `activate_device`
-- (server/src/repository/device.rs).
use bank_statement_processor.Prelude.{
  ℕ, suc, ◌≤◌, ◌<◌, ◌^◌, String, Bool, true, false, Option, none, some, List, [], ◌∷◌, ◌≡◌, refl,
  str_eq, subst, ◌==◌, ◌⊎◌, inl, inr, arith, length, find, select, update_where, All, Bool-cases,
}
use bank_statement_processor.Prelude.Int.{ℤ, pos, negsuc, ◌≤ℤ◌, leb_ℤ, as_i32, as_i32_small}
use bank_statement_processor.Domain.Records.{Device}
use bank_statement_processor.Repository.Db.{Tables, Outages, query, exec, later}
use bank_statement_processor.Repository.Devices.{
  is_none, is_active_of, refresh, reactivate, new_device_row, insert_device_row, lock_license,
  decide_activation, activate_device,
}

-- The primary keys of the rows differ.
abbrev pub DistinctIds : List Device → Type 0
DistinctIds [] = Unit
DistinctIds (d ∷ ds) = All (λ e. (e.id == d.id) ≡ false) ds × DistinctIds ds

-- The active devices of a license.
abbrev pub active_count : ℕ → List Device → ℕ
active_count license_id ds = length (select (is_active_of license_id) ds)

update_where-same_length :
    (p q : Device → Bool) (f : Device → Device) (ds : List Device)
    → ((d : Device) → q (f d) ≡ q d)
    → length (select q (update_where p f ds)) ≡ length (select q ds)
unfolding update_where select
update_where-same_length p q f [] h = refl
update_where-same_length p q f (d ∷ ds) h = ground (arith, h d, update_where-same_length p q f ds h)

update_where-absent :
    (id : ℕ) (f : Device → Device) (ds : List Device)
    → All (λ e. (e.id == id) ≡ false) ds
    → update_where (λ d. d.id == id) f ds ≡ ds
unfolding update_where
update_where-absent id f [] h = refl
update_where-absent id f (d ∷ ds) (h, hs) = rw (h, update_where-absent id f ds hs)

same_id :
    (id : ℕ) (d : Device) (ds : List Device)
    → (d.id == id) ≡ true
    → All (λ e. (e.id == d.id) ≡ false) ds
    → All (λ e. (e.id == id) ≡ false) ds
same_id id d ds e h = subst (λ i. All (λ x. (x.id == i) ≡ false) ds) (ground arith) h

-- An update of the row with one id adds at most one row to those that pass a test.
update_where-one_more :
    (id : ℕ) (q : Device → Bool) (f : Device → Device) (ds : List Device)
    → DistinctIds ds
    → length (select q (update_where (λ d. d.id == id) f ds)) ≤ suc (length (select q ds))
unfolding update_where select
update_where-one_more id q f [] h = omega arith
update_where-one_more id q f (d ∷ ds) (h, hs) = elim (Bool-cases (d.id == id)) [
  | inr e ↦ rw e (ground (arith, update_where-one_more id q f ds hs))
  | inl e ↦ rw (e, update_where-absent id f ds (same_id id d ds e h)) (ground arith)
]

select-select :
    (license_id : ℕ) (ds : List Device)
    → length (select (λ d. is_none d.deactivated_at) (select (λ d. d.license_id == license_id) ds))
      ≡ active_count license_id ds
unfolding select is_active_of
select-select license_id [] = refl
select-select license_id (d ∷ ds) = ground (arith, select-select license_id ds)

refresh-same_active :
    (license_id : ℕ) (fingerprint label : String) (now : ℕ) (d : Device)
    → is_active_of license_id (refresh fingerprint label now d) ≡ is_active_of license_id d
unfolding is_active_of refresh
refresh-same_active license_id fingerprint label now d = refl

cons_count :
    (license_id : ℕ) (d : Device) (ds : List Device)
    → active_count license_id (d ∷ ds) ≤ suc (active_count license_id ds)
unfolding select
cons_count license_id d ds = ground arith

module _ {V : Type 0} where
  insert_count :
      (license_id : ℕ) (device_id fingerprint label : String) (now : ℕ) (t : Tables V)
      → active_count license_id
          (insert_device_row license_id device_id fingerprint label now t).1.devices
        ≤ suc (active_count license_id t.devices)
  unfolding insert_device_row
  insert_count license_id device_id fingerprint label now t = ground (
    arith,
    cons_count license_id
        (new_device_row license_id device_id fingerprint label t.next_id.devices now) t.devices,
  )

  -- The count after the one write that a decision makes.
  decide-count :
      (license_id : ℕ) (max_devices : ℤ) (device_id fingerprint label : String) (now : ℕ)
      (found : Option Device) (active : List Device) (t : Tables V) (o : Outages)
      → DistinctIds t.devices
      → length active ≡ active_count license_id t.devices
      → let after =
          (decide_activation license_id max_devices device_id fingerprint label now found active t
            o).1 in
        (active_count license_id after.devices ≤ active_count license_id t.devices)
        ⊎ ((leb_ℤ max_devices (as_i32 (active_count license_id t.devices)) ≡ false)
            × (active_count license_id after.devices ≤ suc (active_count license_id t.devices)))
  unfolding decide_activation exec is_none
  decide-count license_id max_devices device_id fingerprint label now (some existing) active t o h
        e =
      rw e (
        ground (
          arith,
          update_where-same_length (λ d. d.id == existing.id) (is_active_of license_id)
              (refresh fingerprint label now) t.devices
              (refresh-same_active license_id fingerprint label now),
          update_where-one_more existing.id (is_active_of license_id)
              (reactivate fingerprint label now) t.devices h,
        ))
  decide-count license_id max_devices device_id fingerprint label now none active t o h e =
      rw e (ground (arith, insert_count license_id device_id fingerprint label now t))

  activate-count :
      (license_id : ℕ) (max_devices : ℤ) (device_id fingerprint label : String) (now : ℕ)
      (t : Tables V) (o : Outages)
      → DistinctIds t.devices
      → let after =
          (activate_device license_id max_devices device_id fingerprint label now t o).1 in
        (active_count license_id after.devices ≤ active_count license_id t.devices)
        ⊎ ((leb_ℤ max_devices (as_i32 (active_count license_id t.devices)) ≡ false)
            × (active_count license_id after.devices ≤ suc (active_count license_id t.devices)))
  unfolding activate_device lock_license query exec
  activate-count license_id max_devices device_id fingerprint label now t o h =
      let rows = select (λ d. d.license_id == license_id) t.devices in
      ground (
        arith,
        decide-count license_id max_devices device_id fingerprint label now
            (find (λ d. str_eq d.device_id device_id) rows)
            (select (λ d. is_none d.deactivated_at) rows) t (later (later (later o))) h
            (select-select license_id t.devices),
      )

  -- The device limit is an invariant of `activate_device`. If the rows of the table have different ids
  -- and the license has at most `max_devices` active devices, fewer than 2 ^ 31, before a call, then it
  -- has at most `max_devices` after it, whatever statements fail.
  pub activate_device-capacity :
      (license_id : ℕ) (max_devices : ℤ) (device_id fingerprint label : String) (now : ℕ)
      (t : Tables V) (o : Outages)
      → DistinctIds t.devices
      → active_count license_id t.devices < 2 ^ 31
      → pos (active_count license_id t.devices) ≤ℤ max_devices
      → pos (
          active_count license_id
            (activate_device license_id max_devices device_id fingerprint label now t o).1.devices)
        ≤ℤ max_devices
  activate_device-capacity license_id (pos m) device_id fingerprint label now t o h small c =
      ground (
        arith,
        activate-count license_id (pos m) device_id fingerprint label now t o h,
        as_i32_small (active_count license_id t.devices) small,
      )
  activate_device-capacity license_id (negsuc m) device_id fingerprint label now t o h small c =
      absurd (omega arith)
