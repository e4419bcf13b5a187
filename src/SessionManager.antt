-- ===== src/SessionManager.antt =====
-- src/transport/p2p/session-manager.ts: when a station's P2P session is open. Serials, sessions,
-- timers and promises are numbers. What an operation does beside changing the state is a list of
-- effects; a timer fires by a call of `hold_expires` or `idle_expires`.
pub mod Invariant
pub mod Timers
pub mod Drops
pub mod Steps
pub mod Opens
pub mod Reach
pub mod Viewers
pub mod Generations
pub mod Settle
mod Tests
use eufy_sdk.Prelude.{
  ℕ, suc, ◌+◌, ◌-◌, ◌≡◌, Bool, true, false, not, ◌&&◌, List, [], ◌∷◌, ◌++◌, Option, none, some, map,
  ltb, leb, ◌==◌, if◌then◌else◌, length,
}
use eufy_sdk.KeyMap.{lookup, insert, delete, has, without}

-- `PowerTier`.
pub data PowerTier : Type 0 where
  wired battery : PowerTier

-- `SessionEntry`. `id` is the object's identity; `idle` says that the idle timer is pending, `reset`
-- that a deferred reset is; `connecting` is the promise of the open in flight.
pub record Entry : Type 0 where
  pub id : ℕ
  pub session : Option ℕ
  pub retained : ℕ
  pub hold_timers : List ℕ
  pub reset : Bool
  pub idle : Bool
  pub connecting : Option ℕ

-- A live timer of `hold`: the serial and the entry that its callback captured.
pub record HoldTimer : Type 0 where
  pub serial : ℕ
  pub owner : ℕ

-- The manager, and the runtime's live hold timers. `fresh` is above every identity handed out.
pub record Manager : Type 0 where
  pub entries : List (ℕ × Entry)
  pub timers : List (ℕ × HoldTimer)
  pub generation : ℕ
  pub fresh : ℕ

pub data Effect : Type 0 where
  -- `onAutoClose`.
  announced : ℕ → Effect
  -- `session.close()`.
  closed : ℕ → Effect
  -- The callers of `resetWhenUnused` are answered.
  reset_settled : ℕ → Effect

pub start : Manager
start = record { entries = []; timers = []; generation = 0; fresh = 0 }

abbrev put : ℕ → Entry → Manager → Manager
put sn e m = record m { entries = insert sn e m.entries }

abbrev new_entry : ℕ → Entry
new_entry id = record {
  id = id;
  session = none;
  retained = 0;
  hold_timers = [];
  reset = false;
  idle = false;
  connecting = none;
}

-- `entry`: get or create.
pub entry : ℕ → Manager → Entry × Manager
entry sn m = elim (lookup sn m.entries) [
  | some e ↦ (e, m)
  | none ↦ (new_entry m.fresh, put sn (new_entry m.fresh) (record m { fresh = m.fresh + 1 }))
]

abbrev pub session_of : Option Entry → Option ℕ
session_of none = none
session_of (some e) = e.session

pub get : ℕ → Manager → Option ℕ
get sn m = session_of (lookup sn m.entries)

-- `liveSessions`: the stations that have a session, with it.
pub live_sessions : List (ℕ × Entry) → List (ℕ × ℕ)
live_sessions [] = []
live_sessions ((sn, e) ∷ rest) =
    let more = live_sessions rest in elim e.session [ none ↦ more | some s ↦ (sn, s) ∷ more ]

-- `keys`.
pub keys : Manager → List ℕ
keys m = map (λ p. p.0) (live_sessions m.entries)

pub register : ℕ → ℕ → Manager → Manager
register sn session m = let (e, m') = entry sn m in put sn (record e { session = some session }) m'

pub retain : ℕ → Manager → Manager
retain sn m =
    let (e, m') = entry sn m in put sn (record e { retained = e.retained + 1; idle = false }) m'

-- The loop of `clearTimeout` over the entry's hold timers.
abbrev clear_timers : List ℕ → List (ℕ × HoldTimer) → List (ℕ × HoldTimer)
clear_timers [] live = live
clear_timers (t ∷ ts) live = clear_timers ts (delete t live)

pub discard : ℕ → Manager → Option Entry × Manager
discard sn m = elim (lookup sn m.entries) [
  | none ↦ (none, m)
  | some e ↦ (
    some (record e { idle = false; hold_timers = [] }),
    record m { entries = delete sn m.entries; timers = clear_timers e.hold_timers m.timers },
  )
]

-- `settleReset`.
abbrev settle_reset : Entry → List Effect
settle_reset e = if e.reset then reset_settled e.id ∷ [] else []

-- `closeEntry`: the session is closed and then the reset's callers are answered.
abbrev close_entry : Entry → List Effect
close_entry e = elim e.session [ none ↦ [] | some s ↦ closed s ∷ [] ] ++ settle_reset e

abbrev auto_close_entry : ℕ → Entry → List Effect
auto_close_entry sn e = elim e.session [ none ↦ [] | some s ↦ announced sn ∷ [] ] ++ close_entry e

abbrev on_discarded : (Entry → List Effect) → Option Entry → List Effect
on_discarded f none = []
on_discarded f (some e) = f e

pub auto_close : ℕ → Manager → Manager × List Effect
auto_close sn m = let (e, m') = discard sn m in (m', on_discarded (auto_close_entry sn) e)

pub remove : ℕ → Manager → Manager × List Effect
remove sn m = let (e, m') = discard sn m in (m', on_discarded settle_reset e)

pub close : ℕ → Manager → Manager × List Effect
close sn m = let (e, m') = discard sn m in (m', on_discarded close_entry e)

-- `(this.opts.poweredFor?.(parentSn) ?? "wired") === "battery"`
abbrev pub is_battery : (ℕ → Option PowerTier) → ℕ → Bool
is_battery powered_for sn = elim (powered_for sn) [
  | none ↦ false
  | some tier ↦ elim tier [ wired ↦ false | battery ↦ true ]
]

module _ (powered_for : ℕ → Option PowerTier) where
  -- `armIdle`.
  pub arm_idle : ℕ → Entry → Manager → Manager
  arm_idle sn e m = put sn (record e { idle = is_battery powered_for sn }) m

  -- `release`, for an entry that is there and retained.
  release_entry : ℕ → Entry → Manager → Manager × List Effect
  release_entry sn e m =
      let e' = record e { retained = e.retained - 1 } in
      if e'.reset && leb e'.retained (length e'.hold_timers)
      then auto_close sn (put sn e' m)
      else if e'.retained == 0
      then (arm_idle sn e' m, [])
      else (put sn e' m, [])

  pub release : ℕ → Manager → Manager × List Effect
  release sn m = elim (lookup sn m.entries) [
    | none ↦ (m, [])
    | some e ↦ if e.retained == 0 then (m, []) else release_entry sn e m
  ]

  pub hold : ℕ → Manager → Manager
  hold sn m =
      let (e, m') = entry sn (retain sn m) in
      let timer = m'.fresh in
      put sn (record e { hold_timers = e.hold_timers ++ (timer ∷ []) })
        (record m' {
          timers = insert timer (record { serial = sn; owner = e.id }) m'.timers;
          fresh = m'.fresh + 1;
        })

  -- `bumpCommand`: a hold for the keep-alive of a command.
  pub bump_command : ℕ → Manager → Manager
  bump_command sn m = hold sn m

  -- The callback of a hold's timer: it deletes the timer from the entry that it captured, which may be
  -- on the map no more, and releases by serial.
  pub hold_expires : ℕ → Manager → Manager × List Effect
  hold_expires timer m = elim (lookup timer m.timers) [
    | none ↦ (m, [])
    | some h ↦
        let sn = h.serial in
        let m' = record m { timers = delete timer m.timers } in
        elim (lookup sn m.entries) [
          | none ↦ (m', [])
          | some e ↦
              if e.id == h.owner
              then release sn (put sn (record e { hold_timers = without timer e.hold_timers }) m')
              else release sn m'
        ]
  ]

  -- The callback of an entry's idle timer, which clears its own handle and runs `onIdle`.
  pub idle_expires : ℕ → Manager → Manager × List Effect
  idle_expires sn m = elim (lookup sn m.entries) [
    | none ↦ (m, [])
    | some e ↦
        let m' = put sn (record e { idle = false }) m in
        if ltb 0 e.retained then (m', []) else auto_close sn m'
  ]

  pub reset_when_unused : ℕ → Manager → Manager × List Effect
  reset_when_unused sn m = elim (lookup sn m.entries) [
    | none ↦ (m, [])
    | some e ↦
        if leb e.retained (length e.hold_timers)
        then auto_close sn m
        else (put sn (record e { reset = true }) m, [])
  ]

pub close_each : List ℕ → Manager → Manager × List Effect
close_each [] m = (m, [])
close_each (sn ∷ sns) m =
    let (m', out) = close sn m in let (m'', out') = close_each sns m' in (m'', out ++ out')

pub close_all : Manager → Manager × List Effect
close_all m = close_each (map (λ p. p.0) m.entries) (record m { generation = m.generation + 1 })
