-- ===== src/StoredImageCache/Reach.antt =====
-- Every history of the cache of src/transport/stored-image-cache.ts.
use eufy_sdk.Prelude.{
  ℕ, ◌+◌, ◌≡◌, ◌⊎◌, refl, sym, ap, ◌∙◌, Bool, true, List, Option, none, some, arith, ◌==◌, inl, inr,
  Bool-cases, Option-cases, if◌then◌else◌,
}
use eufy_sdk.KeyMap.{lookup, insert, has, lookup-nil, lookup-insert, insert-IsKeyed, insert_same}
use eufy_sdk.StoredImageCache.{
  Candidate, DeviceState, Cache, Settled, resolved, start, find_ready, observe, clear, enqueue,
  new_device, device_or_new, is_valid_jpeg, is_newer, settle, finish, complete,
}
use eufy_sdk.StoredImageCache.{snapshot_of, snapshot_stored, stored}
use eufy_sdk.StoredImageCache.Invariant.{DeviceInv, Inv, IsBusy, start-Inv, insert-DeviceInv}
use eufy_sdk.StoredImageCache.Pump.{pump-Inv, retained_in, retained_of, retained_of-pump}
use eufy_sdk.StoredImageCache.Complete.{settled_retained, settle_device-cases, finish-Inv}

device_or_new-DeviceInv : (k : ℕ) (m : Cache) → Inv m → DeviceInv k (device_or_new k m)
device_or_new-DeviceInv k m v = elim (Option-cases (lookup k m.devices)) [
  | inl e ↦
      rw (e, device_or_new)
        (record {
          key = refl;
          queued = λ c h. absurd (ground (arith, h));
          kept = λ n image h. absurd (ground (arith, h));
        })
  | inr (s, e) ↦ rw (e, device_or_new) (v.devices k s e)
]

abbrev key_in : ℕ → Option Candidate → ℕ
key_in k none = k
key_in k (some c) = c.device_key

queued-Inv :
    (k url now : ℕ) (m : Cache)
    → Inv m
    → Inv (record m {
      devices = insert k (enqueue k url now (device_or_new k m) m) m.devices;
      fresh = m.fresh + 1;
    })
queued-Inv k url now m v =
    let d = device_or_new-DeviceInv k m v in
    record {
      count = v.count;
      bound = v.bound;
      distinct = v.distinct;
      outstanding = v.outstanding;
      tickets = v.tickets;
      low = λ t c h. omega (arith, v.low t c h);
      active = v.active;
      one = v.one;
      keyed = insert-IsKeyed k _ m.devices v.keyed;
      devices =
          insert-DeviceInv k (enqueue k url now (device_or_new k m) m) m.devices v.devices
            (record { key = d.key; queued = λ c h. sym (ap (key_in k) h); kept = d.kept });
    }

-- A URL that was seen before changes nothing.
observe_seen :
    (k url now : ℕ) (m : Cache)
    → has url (device_or_new k m).seen_urls ≡ true
    → observe k url now m ≡ m
unfolding observe
observe_seen k url now m h = elim (Option-cases (lookup k m.devices)) [
  | inl e ↦
      let is : device_or_new k m ≡ new_device k = rw (e, device_or_new) in
      absurd (unfold has in ground (arith, h, ap (λ (x : DeviceState). has url x.seen_urls) is))
  | inr (s, e) ↦
      let is : device_or_new k m ≡ s = rw (e, device_or_new) in
      rw (h, is, insert_same k s m.devices e)
]

observe-Inv :
    (k url now : ℕ) (m : Cache)
    → Inv m
    → IsBusy m
    → Inv (observe k url now m) × IsBusy (observe k url now m)
observe-Inv k url now m v busy = elim (Bool-cases (has url (device_or_new k m).seen_urls)) [
  | inl y ↦ rw (observe_seen k url now m y) (v, busy)
  | inr y ↦ unfold observe in rw (observe, y) (pump-Inv _ (queued-Inv k url now m v))
]

clear-Inv : (m : Cache) → Inv m → Inv (clear m) × IsBusy (clear m)
unfolding clear
clear-Inv m v = (
  record {
    count = v.count;
    bound = v.bound;
    distinct = v.distinct;
    outstanding = v.outstanding;
    tickets = v.tickets;
    low = v.low;
    active = v.active;
    one = v.one;
    keyed = tt;
    devices = λ k s h. absurd (ground (arith, h, lookup-nil {V = DeviceState} k));
  },
  inr (unfold find_ready in refl),
)

-- One step: a push, a download that settles, or a `clear`.
pub data Step (lifecycle : ℕ → Bool) (m : Cache) : Cache → Type 0 where
  observes : (k url now : ℕ) → Step lifecycle m (observe k url now m)
  settles :
      (t now : ℕ) (c : Candidate) (r : Settled)
      → lookup t m.downloads ≡ some c
      → Step lifecycle m (complete lifecycle t now c r m)
  clears : Step lifecycle m (clear m)

pub data Reach (lifecycle : ℕ → Bool) : Cache → Type 0 where
  here : Reach lifecycle start
  next : {m n : Cache} → Reach lifecycle m → Step lifecycle m n → Reach lifecycle n

Step-Inv : (l : ℕ → Bool) {m n : Cache} → Step l m n → Inv m → IsBusy m → Inv n × IsBusy n
unfolding complete
Step-Inv l {m} (observes k url now) v b = observe-Inv k url now m v b
Step-Inv l {m} (settles t now c r at) v b = pump-Inv _ (finish-Inv l now c t r m v at)
Step-Inv l {m} clears v b = clear-Inv m v

pub Reach-IsBusy : (l : ℕ → Bool) {m : Cache} → Reach l m → Inv m × IsBusy m
Reach-IsBusy l here = (start-Inv, inr (unfold start find_ready in refl))
Reach-IsBusy l (next r s) = let (v, b) = Reach-IsBusy l r in Step-Inv l s v b

-- A download that settles changes no retained image but, at most, its own device's: then its candidate
-- was observed since the last `clear`, it is newer than what was retained, and its bytes, which passed
-- the JPEG check, are what is retained.
pub complete_retained :
    (l : ℕ → Bool) (t now : ℕ) (c : Candidate) (r : Settled) (k : ℕ) {m : Cache}
    → Reach l m
    → lookup t m.downloads ≡ some c
    → (retained_of k (complete l t now c r m) ≡ retained_of k m)
      ⊎ ((image : List ℕ) × (k ≡ c.device_key)
          × (c.generation ≡ m.generation)
          × (r ≡ resolved image)
          × (is_valid_jpeg image ≡ true)
          × (is_newer c (retained_of k m) ≡ true)
          × (retained_of k (complete l t now c r m) ≡ some (c.sequence, image)))
unfolding complete
complete_retained l t now c r k {m} reached at =
    let v = (Reach-IsBusy l reached).0 in
    let pumped = retained_of-pump k _ (finish-Inv l now c t r m v at) in
    rw pumped (elim (settle_device-cases l now c r m) [
      | inl e ↦ inl (unfold retained_of finish in ap (λ ds. retained_in (lookup k ds)) e)
      | inr (s, found, gen, e) ↦
          let s' = settle l now c r (record s { in_flight = none }) in
          let new : retained_of k (finish l t now c r m)
              ≡ retained_in (if c.device_key == k then some s' else lookup k m.devices) =
            unfold retained_of finish in
            (ap (λ ds. retained_in (lookup k ds)) e
              ∙ ap retained_in (lookup-insert c.device_key k s' m.devices)) in
          elim (Bool-cases (c.device_key == k)) [
            | inr y ↦ inl (new ∙ (unfold retained_of in rw y))
            | inl y ↦
                let key : k ≡ c.device_key = ground (arith, y) in
                let old : retained_of k m ≡ s.retained =
                  unfold retained_of retained_in in
                  ap (λ i. retained_in (lookup i m.devices)) key ∙ ap retained_in found in
                let new' : retained_of k (finish l t now c r m) ≡ s'.retained =
                  new ∙ (unfold retained_in in rw y) in
                elim (settled_retained l now c r (record s { in_flight = none })) [
                  | inl same ↦ inl (new' ∙ same ∙ sym old)
                  | inr (image, is, valid, newer, put) ↦
                      inr (image, key, gen, is, valid, ap (is_newer c) old ∙ newer, new' ∙ put)
                ]
          ]
    ])

snapshot_of-stored :
    (s : DeviceState) (image : List ℕ)
    → snapshot_of s ≡ stored image
    → (n : ℕ) × (s.retained ≡ some (n, image))
snapshot_of-stored s image h = elim (Option-cases s.retained) [
  | inl e ↦ absurd (ground (arith, e, h))
  | inr ((n, kept), e) ↦
      let same : kept ≡ image = ground (arith, e, h) in (n, e ∙ ap (λ i. some (n, i)) same)
]

-- In every reachable state, the bytes that a caller is handed are bytes that passed the JPEG check, and
-- they are what is retained for its device.
pub snapshot_stored-is_valid_jpeg :
    (l : ℕ → Bool) (k : ℕ) (image : List ℕ) {m : Cache}
    → Reach l m
    → snapshot_stored k m ≡ stored image
    → (is_valid_jpeg image ≡ true) × (n : ℕ) × (retained_of k m ≡ some (n, image))
unfolding snapshot_stored
snapshot_stored-is_valid_jpeg l k image {m} r h = elim (Option-cases (lookup k m.devices)) [
  | inl e ↦ absurd (ground (arith, e, h))
  | inr (s, e) ↦
      let of_device : snapshot_of s ≡ stored image = ground (arith, e, h) in
      let (n, kept) = snapshot_of-stored s image of_device in
      let held : retained_of k m ≡ s.retained =
        unfold retained_of retained_in in ap retained_in e in
      (((Reach-IsBusy l r).0.devices k s e).kept n image kept, n, held ∙ kept)
]
