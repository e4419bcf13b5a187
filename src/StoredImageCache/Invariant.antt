-- ===== src/StoredImageCache/Invariant.antt =====
-- The well-formedness of the cache of src/transport/stored-image-cache.ts.
use eufy_sdk.Prelude.{
  ℕ, ◌<◌, ◌≤◌, ◌≡◌, ◌⊎◌, refl, sym, ap, ◌∙◌, true, false, List, [], ◌∷◌, none, some, arith, ◌==◌,
  length, inl, inr, Bool-cases, Option-cases, subst,
}
use eufy_sdk.KeyMap.{lookup, insert, has, IsDistinct, IsKeyed, lookup-insert_inv}
use eufy_sdk.StoredImageCache.{Candidate, DeviceState, Cache, start, find_ready, is_valid_jpeg}

-- What holds of the state of the device `k`.
pub record DeviceInv (k : ℕ) (s : DeviceState) : Type 0 where
  pub key : s.device_key ≡ k
  pub queued : (c : Candidate) → s.queued ≡ some c → c.device_key ≡ k
  pub kept : (n : ℕ) (image : List ℕ) → s.retained ≡ some (n, image) → is_valid_jpeg image ≡ true

pub record Inv (m : Cache) : Type 0 where
  pub count : m.active_downloads ≡ length m.active_devices
  pub bound : m.active_downloads ≤ 2
  pub distinct : IsDistinct m.active_devices
  pub outstanding : length m.downloads ≡ m.active_downloads
  pub tickets : IsKeyed m.downloads
  pub low : (t : ℕ) (c : Candidate) → lookup t m.downloads ≡ some c → t < m.fresh
  pub active :
      (t : ℕ) (c : Candidate)
      → lookup t m.downloads ≡ some c
      → has c.device_key m.active_devices ≡ true
  pub one :
      (t u : ℕ) (c d : Candidate)
      → lookup t m.downloads ≡ some c
      → lookup u m.downloads ≡ some d
      → c.device_key ≡ d.device_key
      → t ≡ u
  pub keyed : IsKeyed m.devices
  pub devices : (k : ℕ) (s : DeviceState) → lookup k m.devices ≡ some s → DeviceInv k s

-- No slot is free while a device waits for one.
abbrev pub IsBusy : Cache → Type 0
IsBusy m = (m.active_downloads ≡ 2) ⊎ (find_ready m.active_devices m.devices ≡ none)

pub start-Inv : Inv start
unfolding start lookup
start-Inv = record {
  count = refl;
  bound = omega arith;
  distinct = tt;
  outstanding = refl;
  tickets = tt;
  low = λ t c h. absurd (ground arith);
  active = λ t c h. absurd (ground arith);
  one = λ t u c d h k e. absurd (ground arith);
  keyed = tt;
  devices = λ k s h. absurd (ground arith);
}

-- A state written under its own key keeps the devices well formed.
pub insert-DeviceInv :
    (k : ℕ) (s : DeviceState) (ds : List (ℕ × DeviceState))
    → ((j : ℕ) (x : DeviceState) → lookup j ds ≡ some x → DeviceInv j x)
    → DeviceInv k s
    → (j : ℕ) (x : DeviceState) → lookup j (insert k s ds) ≡ some x
    → DeviceInv j x
insert-DeviceInv k s ds all good j x h = elim (lookup-insert_inv k j s x ds h) [
  | inl (same, value) ↦ subst (λ i. DeviceInv i x) same (subst (DeviceInv k) value good)
  | inr (_, found) ↦ all j x found
]

-- What `find` found: a device of the map that has a candidate and no download.
pub find_ready-eq-some :
    (active : List ℕ) (ds : List (ℕ × DeviceState)) (c : Candidate) (s : DeviceState)
    → IsKeyed ds
    → find_ready active ds ≡ some (c, s)
    → (k : ℕ) × (lookup k ds ≡ some s) × (s.queued ≡ some c) × (has s.device_key active ≡ false)
unfolding find_ready lookup
find_ready-eq-some active [] c s d h = absurd (ground arith)
find_ready-eq-some active ((j, x) ∷ ds) c s (gone, rest) h = elim (Option-cases x.queued) [
  | inl q ↦ later (find_ready-eq-some active ds c s rest (ground (arith, q, h)))
  | inr (y, q) ↦ elim (Bool-cases (has x.device_key active)) [
    | inl a ↦ later (find_ready-eq-some active ds c s rest (ground (arith, q, a, h)))
    | inr a ↦
        let same : x ≡ s = ground (arith, q, a, h) in
        let cand : y ≡ c = ground (arith, q, a, h) in
        (
          j,
          ground (arith, same),
          ap (λ z. z.queued) (sym same) ∙ q ∙ ap some cand,
          subst (λ z. has z.device_key active ≡ false) same a,
        )
  ]
]
  where
    later :
        (k : ℕ) × (lookup k ds ≡ some s) × (s.queued ≡ some c) × (has s.device_key active ≡ false)
        → (k : ℕ) × (lookup k ((j, x) ∷ ds) ≡ some s)
          × (s.queued ≡ some c)
          × (has s.device_key active ≡ false)
    later (k, found, queued, free) = elim (Bool-cases (j == k)) [
      | inl y ↦
          let same : j ≡ k = ground (arith, y) in
          absurd (cc (gone, found, ap (λ i. lookup i ds) same))
      | inr y ↦ (k, ground (arith, y, found), queued, free)
    ]

-- Where it found none, each device with a candidate has a download running.
pub find_ready-eq-none :
    (active : List ℕ) (ds : List (ℕ × DeviceState)) (k : ℕ) (s : DeviceState) (c : Candidate)
    → find_ready active ds ≡ none
    → lookup k ds ≡ some s
    → s.queued ≡ some c
    → has s.device_key active ≡ true
unfolding find_ready lookup
find_ready-eq-none active [] k s c h found queued = absurd (ground arith)
find_ready-eq-none active ((j, x) ∷ ds) k s c h found queued = elim (Bool-cases (j == k)) [
  | inl y ↦
      let same : x ≡ s = ground (arith, y, found) in
      let q : x.queued ≡ some c = ap (λ z. z.queued) same ∙ queued in
      elim (Bool-cases (has x.device_key active)) [
        | inl a ↦ subst (λ z. has z.device_key active ≡ true) same a
        | inr a ↦ absurd (ground (arith, q, a, h))
      ]
  | inr y ↦
      let rest : find_ready active ds ≡ none = skipped in
      find_ready-eq-none active ds k s c rest (ground (arith, y, found)) queued
]
  where
    skipped : find_ready active ds ≡ none
    skipped = elim (Option-cases x.queued) [
      | inl q ↦ ground (arith, q, h)
      | inr (z, q) ↦ ground (arith, q, h)
    ]
