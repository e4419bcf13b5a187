-- ===== src/StoredImageCache/Complete.antt =====
-- `complete` of src/transport/stored-image-cache.ts, branch by branch.
use eufy_sdk.Prelude.{
  ℕ, ◌+◌, ◌≡◌, ◌⊎◌, refl, sym, ap, ◌∙◌, Bool, true, ◌&&◌, List, none, some, arith, ◌==◌, length,
  inl, inr, Bool-cases, Option-cases, subst,
}
use eufy_sdk.KeyMap.{
  lookup, insert, without, IsKeyed, lookup-delete_inv, insert-IsKeyed, delete-IsKeyed,
  length-delete, has-without, without-IsDistinct, length-without,
}
use eufy_sdk.StoredImageCache.{
  Candidate, DeviceState, Cache, Settled, resolved, rejected, is_valid_jpeg, is_newer, is_flight,
  settle, settle_device, finish,
}
use eufy_sdk.StoredImageCache.Invariant.{DeviceInv, Inv, insert-DeviceInv}

module _ (lifecycle : ℕ → Bool) (now : ℕ) (c : Candidate) where
  -- What a settled download does to the image retained: nothing, or its own image takes the place,
  -- which is a valid one and newer.
  pub settled_retained :
      (r : Settled) (s : DeviceState)
      → ((settle lifecycle now c r s).retained ≡ s.retained)
        ⊎ ((image : List ℕ) × (r ≡ resolved image)
            × (is_valid_jpeg image ≡ true)
            × (is_newer c s.retained ≡ true)
            × ((settle lifecycle now c r s).retained ≡ some (c.sequence, image)))
  unfolding settle
  settled_retained (rejected none) s = inl refl
  settled_retained (rejected (some e)) s = elim (Bool-cases (lifecycle e)) [
    | inl y ↦ rw y (inl refl)
    | inr y ↦ rw y (inl refl)
  ]
  settled_retained (resolved image) s = elim (Bool-cases (is_valid_jpeg image)) [
    | inr y ↦ rw y (inl refl)
    | inl y ↦ elim (Bool-cases (is_newer c s.retained)) [
      | inl z ↦ rw (y, z) (inr (image, refl, y, refl, refl))
      | inr z ↦ rw (y, z) (inl refl)
    ]
  ]

  settled_fields :
      (r : Settled) (s : DeviceState)
      → let s' = settle lifecycle now c r s in
        (s'.device_key ≡ s.device_key) × (s'.queued ≡ s.queued)
  unfolding settle
  settled_fields (rejected none) s = (refl, refl)
  settled_fields (rejected (some e)) s = elim (Bool-cases (lifecycle e)) [
    | inl y ↦ rw y (refl, refl)
    | inr y ↦ rw y (refl, refl)
  ]
  settled_fields (resolved image) s = elim (Bool-cases (is_valid_jpeg image)) [
    | inr y ↦ rw y (refl, refl)
    | inl y ↦ elim (Bool-cases (is_newer c s.retained)) [
      | inl z ↦ rw (y, z) (refl, refl)
      | inr z ↦ rw (y, z) (refl, refl)
    ]
  ]

  settled-DeviceInv :
      (k : ℕ) (r : Settled) (s : DeviceState)
      → DeviceInv k s
      → DeviceInv k (settle lifecycle now c r (record s { in_flight = none }))
  settled-DeviceInv k r s d =
      let s0 : DeviceState = record s { in_flight = none } in
      let (a, q) = settled_fields r s0 in
      record {
        key = a ∙ d.key;
        queued = λ x h. d.queued x (sym q ∙ h);
        kept = λ n image h. elim (settled_retained r s0) [
          | inl same ↦ d.kept n image (sym same ∙ h)
          | inr (i, _, valid, _, put) ↦
              let e : some (c.sequence, i) ≡ some (n, image) = sym put ∙ h in
              let img : i ≡ image = ground (arith, e) in
              subst (λ x. is_valid_jpeg x ≡ true) img valid
        ];
      }

  -- The only state that a settled download may write is that of the device which waits for this very
  -- candidate, since the last `clear`.
  pub settle_device-cases :
      (r : Settled) (m : Cache)
      → (settle_device lifecycle now c r m ≡ m.devices)
        ⊎ ((s : DeviceState) × (lookup c.device_key m.devices ≡ some s)
            × (c.generation ≡ m.generation)
            × (settle_device lifecycle now c r m
                ≡ insert c.device_key
                    (settle lifecycle now c r (record s { in_flight = none }))
                    m.devices))
  unfolding settle_device
  settle_device-cases r m = elim (Option-cases (lookup c.device_key m.devices)) [
    | inl e ↦ inl (rw (e, settle_device))
    | inr (s, e) ↦ elim (Bool-cases ((c.generation == m.generation) && is_flight lifecycle c s)) [
      | inl y ↦ inr (s, e, ground (arith, y), rw (e, settle_device, y))
      | inr y ↦ inl (rw (e, settle_device, y))
    ]
  ]

  pub finish-Inv :
      (t : ℕ) (r : Settled) (m : Cache)
      → Inv m
      → lookup t m.downloads ≡ some c
      → Inv (finish lifecycle t now c r m)
  unfolding finish
  finish-Inv t r m v at = record {
    count = omega (arith, v.count, shorter);
    bound = omega (arith, v.bound);
    distinct = without-IsDistinct c.device_key m.active_devices v.distinct;
    outstanding = omega (arith, v.outstanding, length-delete t c m.downloads v.tickets at);
    tickets = delete-IsKeyed t m.downloads v.tickets;
    low = λ u d h. v.low u d (lookup-delete_inv t u d m.downloads h).1;
    active = λ u d h.
        let (other, old) = lookup-delete_inv t u d m.downloads h in
        elim (Bool-cases (c.device_key == d.device_key)) [
          | inl y ↦
              let same : t ≡ u = v.one t u c d at old (ground (arith, y)) in
              absurd (ground (arith, other, same))
          | inr y ↦
              ground
                (arith, y, has-without c.device_key d.device_key m.active_devices, v.active u d old)
        ];
    one = λ u w x y g h e.
        v.one u w x y (lookup-delete_inv t u x m.downloads g).1
          (lookup-delete_inv t w y m.downloads h).1 e;
    keyed = elim (settle_device-cases r m) [
      | inl e ↦ subst IsKeyed (sym e) v.keyed
      | inr (s, _, _, e) ↦ subst IsKeyed (sym e) (insert-IsKeyed c.device_key _ m.devices v.keyed)
    ];
    devices = λ k s h. elim (settle_device-cases r m) [
      | inl e ↦ v.devices k s (ap (lookup k) (sym e) ∙ h)
      | inr (x, found, _, e) ↦
          insert-DeviceInv c.device_key _ m.devices v.devices
            (settled-DeviceInv c.device_key r x (v.devices c.device_key x found)) k s
            (ap (lookup k) (sym e) ∙ h)
    ];
  }
    where
      shorter : length m.active_devices ≡ length (without c.device_key m.active_devices) + 1
      shorter = length-without c.device_key m.active_devices v.distinct (v.active t c at)
