-- ===== src/StoredImageCache.antt =====
-- src/transport/stored-image-cache.ts: push thumbnails that are downloaded before a caller asks for
-- them. Devices, URLs and errors are numbers; the clock is an argument; `downloads` are the promises of
-- the downloader that have not settled, each under its own number with its candidate.
pub mod Invariant
pub mod Pump
pub mod Complete
pub mod Reach
mod Tests
use eufy_sdk.Prelude.{
  ℕ, zero, suc, ◌+◌, ◌-◌, ◌*◌, Bool, true, false, not, ◌&&◌, ◌||◌, List, [], ◌∷◌, ◌++◌, Option,
  none, some, ltb, leb, ◌==◌, if◌then◌else◌, length, get_or,
}
use eufy_sdk.KeyMap.{lookup, insert, delete, has, without}

pub record Candidate : Type 0 where
  pub id : ℕ
  pub device_key : ℕ
  pub url : ℕ
  pub sequence : ℕ
  pub observed_at : ℕ
  pub generation : ℕ

-- `StoredSnapshotUnavailableReason` of src/core/contracts.ts.
pub data Reason : Type 0 where
  not_observed pending download_failed invalid_image : Reason

-- `DeviceState`; `loggedFailures` is a field for each of the two reasons that are logged.
pub record DeviceState : Type 0 where
  pub device_key : ℕ
  pub next_sequence : ℕ
  pub seen_urls : List ℕ
  pub logged_download_failed : Option ℕ
  pub logged_invalid_image : Option ℕ
  pub queued : Option Candidate
  pub in_flight : Option Candidate
  pub retained : Option (ℕ × List ℕ)
  pub reason : Option Reason
  pub lifecycle_error : Option ℕ

pub record Cache : Type 0 where
  pub devices : List (ℕ × DeviceState)
  pub active_devices : List ℕ
  pub active_downloads : ℕ
  pub generation : ℕ
  pub downloads : List (ℕ × Candidate)
  pub fresh : ℕ

abbrev max_jpeg_bytes : ℕ
max_jpeg_bytes = 10 * 1024 * 1024

abbrev diagnostic_interval_ms : ℕ
diagnostic_interval_ms = 60000

pub start : Cache
start = record {
  devices = [];
  active_devices = [];
  active_downloads = 0;
  generation = 0;
  downloads = [];
  fresh = 0;
}

abbrev is_there {ℓ} : {A : Type ℓ} → Option A → Bool
is_there none = false
is_there (some a) = true

-- The `find` of `pump`: the first device that has a candidate queued and no download running.
pub find_ready : List ℕ → List (ℕ × DeviceState) → Option (Candidate × DeviceState)
find_ready active [] = none
find_ready active ((k, s) ∷ ds) =
    let rest = find_ready active ds in
    elim s.queued [ none ↦ rest | some c ↦ if has s.device_key active then rest else some (c, s) ]

-- The body of the loop of `pump`.
pub launch : Candidate → DeviceState → Cache → Cache
launch c s m = record m {
  devices = insert s.device_key (record s { queued = none; in_flight = some c }) m.devices;
  active_downloads = m.active_downloads + 1;
  active_devices = m.active_devices ++ (c.device_key ∷ []);
  downloads = insert m.fresh c m.downloads;
  fresh = m.fresh + 1;
}

-- The loop, by the number of downloads that may still be started: each round starts one.
pump_loop : ℕ → Cache → Cache
pump_loop zero m = m
pump_loop (suc slots) m = elim (find_ready m.active_devices m.devices) [
  | none ↦ m
  | some (c, s) ↦ pump_loop slots (launch c s m)
]

pub pump : Cache → Cache
pump m = pump_loop (2 - m.active_downloads) m

abbrev new_device : ℕ → DeviceState
new_device k = record {
  device_key = k;
  next_sequence = 0;
  seen_urls = [];
  logged_download_failed = none;
  logged_invalid_image = none;
  queued = none;
  in_flight = none;
  retained = none;
  reason = none;
  lifecycle_error = none;
}

-- `this.devices.get(deviceKey)`, or a new state.
abbrev device_or_new : ℕ → Cache → DeviceState
device_or_new k m = elim (lookup k m.devices) [ none ↦ new_device k | some s ↦ s ]

abbrev enqueue : ℕ → ℕ → ℕ → DeviceState → Cache → DeviceState
enqueue k url now s m = record s {
  next_sequence = s.next_sequence + 1;
  seen_urls = s.seen_urls ++ (url ∷ []);
  queued = some (record {
    id = m.fresh;
    device_key = k;
    url = url;
    sequence = s.next_sequence + 1;
    observed_at = now;
    generation = m.generation;
  });
}

pub observe : ℕ → ℕ → ℕ → Cache → Cache
observe k url now m =
    let s = device_or_new k m in
    if has url s.seen_urls
    then record m { devices = insert k s m.devices }
    else pump
        (record m { devices = insert k (enqueue k url now s m) m.devices; fresh = m.fresh + 1 })

pub clear : Cache → Cache
clear m = record m { generation = m.generation + 1; devices = [] }

pub is_valid_jpeg : List ℕ → Bool
is_valid_jpeg image =
    ltb 0 (length image)
    && leb (length image) max_jpeg_bytes
    && leb 5 (length image)
    && (get_or image 0 0 == 0xff)
    && (get_or image 1 0 == 0xd8)
    && (get_or image 2 0 == 0xff)
    && (get_or image (length image - 2) 0 == 0xff)
    && (get_or image (length image - 1) 0 == 0xd9)

-- The entry of `loggedFailures` that `diagnose` leaves behind for a failure at `now`.
abbrev diagnosed : ℕ → Option ℕ → Option ℕ
diagnosed now none = some now
diagnosed now (some last) = if ltb now (last + diagnostic_interval_ms) then some last else some now

-- How the downloader's promise settles; the error may be `undefined`.
pub data Settled : Type 0 where
  resolved : List ℕ → Settled
  rejected : Option ℕ → Settled

pub data Snapshot : Type 0 where
  stored : List ℕ → Snapshot
  unavailable : Reason → Snapshot
  broken : ℕ → Snapshot

abbrev fail_download : ℕ → DeviceState → DeviceState
fail_download now s = record s {
  lifecycle_error = none;
  reason = some download_failed;
  logged_download_failed = diagnosed now s.logged_download_failed;
}

-- Whether the candidate is newer than what is retained.
abbrev is_newer : Candidate → Option (ℕ × List ℕ) → Bool
is_newer c none = true
is_newer c (some (n, image)) = ltb n c.sequence

module _ (is_lifecycle_error : ℕ → Bool) where
  -- The branches of `complete` on the state of the candidate's device.
  pub settle : ℕ → Candidate → Settled → DeviceState → DeviceState
  settle now c (rejected none) s = fail_download now s
  settle now c (rejected (some e)) s =
      if is_lifecycle_error e
      then record s { lifecycle_error = some e; reason = none }
      else fail_download now s
  settle now c (resolved image) s =
      if not (is_valid_jpeg image)
      then record s {
        lifecycle_error = none;
        reason = some invalid_image;
        logged_invalid_image = diagnosed now s.logged_invalid_image;
      }
      else if is_newer c s.retained
      then record s { retained = some (c.sequence, image); lifecycle_error = none; reason = none }
      else s

  -- `state?.inFlight === candidate`, by the candidate's identity.
  abbrev is_flight : Candidate → DeviceState → Bool
  is_flight c s = elim s.in_flight [ none ↦ false | some d ↦ d.id == c.id ]

  pub settle_device : ℕ → Candidate → Settled → Cache → List (ℕ × DeviceState)
  settle_device now c r m = elim (lookup c.device_key m.devices) [
    | none ↦ m.devices
    | some s ↦
        if (c.generation == m.generation) && is_flight c s
        then insert c.device_key (settle now c r (record s { in_flight = none })) m.devices
        else m.devices
  ]

  -- `complete` ahead of its call of `pump`.
  pub finish : ℕ → ℕ → Candidate → Settled → Cache → Cache
  finish ticket now c r m = record m {
    active_downloads = m.active_downloads - 1;
    active_devices = without c.device_key m.active_devices;
    downloads = delete ticket m.downloads;
    devices = settle_device now c r m;
  }

  pub complete : ℕ → ℕ → Candidate → Settled → Cache → Cache
  complete ticket now c r m = pump (finish ticket now c r m)

abbrev reason_or : Option Reason → Reason
reason_or none = not_observed
reason_or (some r) = r

-- `snapshotStored` of a device that is known.
abbrev snapshot_of : DeviceState → Snapshot
snapshot_of s =
    let busy = is_there s.queued || is_there s.in_flight in
    let kept : Snapshot = elim s.retained [
      | none ↦ unavailable (if busy then pending else reason_or s.reason)
      | some (n, image) ↦ stored image
    ] in
    elim s.lifecycle_error [ none ↦ kept | some e ↦ if busy then kept else broken e ]

pub snapshot_stored : ℕ → Cache → Snapshot
snapshot_stored k m = elim (lookup k m.devices) [
  | none ↦ unavailable not_observed
  | some s ↦ snapshot_of s
]
