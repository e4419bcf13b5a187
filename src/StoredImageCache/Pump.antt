-- ===== src/StoredImageCache/Pump.antt =====
-- `pump` of src/transport/stored-image-cache.ts, and the image that is retained for a device.
use eufy_sdk.Prelude.{
  ℕ, zero, suc, ◌+◌, ◌-◌, ◌<◌, ◌≡◌, refl, sym, ap, ◌∙◌, true, false, List, [], ◌∷◌, ◌++◌, Option,
  none, some, arith, ◌==◌, length-append, inl, inr, Bool-cases, Option-cases, subst,
}
use eufy_sdk.KeyMap.{
  lookup, has, lookup-insert, lookup-insert_inv, insert-IsKeyed, length-insert_new, has-snoc,
  snoc-IsDistinct,
}
use eufy_sdk.StoredImageCache.{Candidate, DeviceState, Cache, find_ready, launch, pump, pump_loop}
use eufy_sdk.StoredImageCache.Invariant.{
  DeviceInv, Inv, IsBusy, find_ready-eq-some, insert-DeviceInv,
}

-- The ticket that is handed out next is not in use.
fresh_ticket : (m : Cache) → Inv m → lookup m.fresh m.downloads ≡ none
fresh_ticket m v = elim (Option-cases (lookup m.fresh m.downloads)) [
  | inl e ↦ e
  | inr (c, e) ↦ absurd (omega (arith, v.low m.fresh c e))
]

launched-DeviceInv :
    (k : ℕ) (c : Candidate) (s : DeviceState)
    → DeviceInv k s
    → s.queued ≡ some c
    → DeviceInv k (record s { queued = none; in_flight = some c })
launched-DeviceInv k c s d q = record {
  key = d.key;
  queued = λ x h. absurd (ground (arith, h));
  kept = d.kept;
}

pub launch-Inv :
    (c : Candidate) (s : DeviceState) (m : Cache)
    → Inv m
    → m.active_downloads < 2
    → find_ready m.active_devices m.devices ≡ some (c, s)
    → Inv (launch c s m)
unfolding launch
launch-Inv c s m v room h =
    let (k, found, q, idle) = find_ready-eq-some m.active_devices m.devices c s v.keyed h in
    let d = v.devices k s found in
    let own : c.device_key ≡ s.device_key = d.queued c q ∙ sym d.key in
    let free : has c.device_key m.active_devices ≡ false =
      subst (λ x. has x m.active_devices ≡ false) (sym own) idle in
    record {
      count = omega (arith, v.count, length-append m.active_devices (c.device_key ∷ []));
      bound = omega arith;
      distinct = snoc-IsDistinct c.device_key m.active_devices v.distinct free;
      outstanding =
          omega (arith, v.outstanding, length-insert_new m.fresh c m.downloads (fresh_ticket m v));
      tickets = insert-IsKeyed m.fresh c m.downloads v.tickets;
      low = λ t x g. elim (lookup-insert_inv m.fresh t c x m.downloads g) [
        | inl (same, _) ↦ omega (arith, same)
        | inr (_, old) ↦ omega (arith, v.low t x old)
      ];
      active = λ t x g. elim (lookup-insert_inv m.fresh t c x m.downloads g) [
        | inl (_, same) ↦
            subst (λ y. has y.device_key (m.active_devices ++ (c.device_key ∷ [])) ≡ true) same
              (ground (arith, has-snoc c.device_key c.device_key m.active_devices))
        | inr (_, old) ↦
            ground (arith, v.active t x old, has-snoc x.device_key c.device_key m.active_devices)
      ];
      one = λ t u x y g g' e. elim (lookup-insert_inv m.fresh t c x m.downloads g) [
        | inl (tk, same) ↦ elim (lookup-insert_inv m.fresh u c y m.downloads g') [
          | inl (uk, _) ↦ sym tk ∙ uk
          | inr (_, old) ↦
              absurd (cc (v.active u y old, free, e, ap (λ (z : Candidate). z.device_key) same))
        ]
        | inr (_, old) ↦ elim (lookup-insert_inv m.fresh u c y m.downloads g') [
          | inl (_, same) ↦
              absurd (cc (v.active t x old, free, e, ap (λ (z : Candidate). z.device_key) same))
          | inr (_, old') ↦ v.one t u x y old old' e
        ]
      ];
      keyed = insert-IsKeyed s.device_key _ m.devices v.keyed;
      devices = insert-DeviceInv s.device_key _ m.devices v.devices (
          subst (λ i. DeviceInv i (record s { queued = none; in_flight = some c })) (sym d.key)
            (launched-DeviceInv k c s d q));
    }

pump_loop-Inv :
    (slots : ℕ) (m : Cache)
    → Inv m
    → slots + m.active_downloads ≡ 2
    → Inv (pump_loop slots m) × IsBusy (pump_loop slots m)
unfolding pump_loop
pump_loop-Inv zero m v h = (v, inl (omega (arith, h)))
pump_loop-Inv (suc slots) m v h = elim (Option-cases (find_ready m.active_devices m.devices)) [
  | inl e ↦ rw (e, pump_loop) (v, inr e)
  | inr ((c, s), e) ↦
      rw (e, pump_loop)
        (pump_loop-Inv slots (launch c s m) (launch-Inv c s m v (omega arith) e)
          (unfold launch in omega arith))
]

-- `pump` keeps the cache well formed, and leaves no slot free that a device waits for.
pub pump-Inv : (m : Cache) → Inv m → Inv (pump m) × IsBusy (pump m)
unfolding pump
pump-Inv m v = pump_loop-Inv (2 - m.active_downloads) m v (omega (arith, v.bound))

-- The image retained for a device, with its sequence number.
unfoldable pub retained_in : Option DeviceState → Option (ℕ × List ℕ)
retained_in none = none
retained_in (some s) = s.retained

unfoldable pub retained_of : ℕ → Cache → Option (ℕ × List ℕ)
retained_of k m = retained_in (lookup k m.devices)

retained_of-launch :
    (k : ℕ) (c : Candidate) (s : DeviceState) (m : Cache)
    → Inv m
    → find_ready m.active_devices m.devices ≡ some (c, s)
    → retained_of k (launch c s m) ≡ retained_of k m
unfolding retained_of retained_in launch
retained_of-launch k c s m v h =
    let (j, found, q, idle) = find_ready-eq-some m.active_devices m.devices c s v.keyed h in
    let own : s.device_key ≡ j = (v.devices j s found).key in
    elim (Bool-cases (s.device_key == k)) [
      | inl e ↦
          let same : j ≡ k = ground (arith, e, own) in
          let there : lookup k m.devices ≡ some s =
            ap (λ i. lookup i m.devices) (sym same) ∙ found in
          rw (
            lookup-insert s.device_key k (record s { queued = none; in_flight = some c }) m.devices,
            e,
            there,
          )
      | inr e ↦ rw (
        lookup-insert s.device_key k (record s { queued = none; in_flight = some c }) m.devices,
        e,
      )
    ]

retained_of-pump_loop :
    (k slots : ℕ) (m : Cache)
    → Inv m
    → slots + m.active_downloads ≡ 2
    → retained_of k (pump_loop slots m) ≡ retained_of k m
unfolding pump_loop
retained_of-pump_loop k zero m v h = refl
retained_of-pump_loop k (suc slots) m v h =
    elim (Option-cases (find_ready m.active_devices m.devices)) [
      | inl e ↦ rw (e, pump_loop)
      | inr ((c, s), e) ↦
          rw (e, pump_loop)
            (retained_of-pump_loop k slots (launch c s m) (launch-Inv c s m v (omega arith) e)
                (unfold launch in omega arith)
              ∙ retained_of-launch k c s m v e)
    ]

pub retained_of-pump : (k : ℕ) (m : Cache) → Inv m → retained_of k (pump m) ≡ retained_of k m
unfolding pump
retained_of-pump k m v =
    retained_of-pump_loop k (2 - m.active_downloads) m v (omega (arith, v.bound))
