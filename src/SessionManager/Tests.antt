-- ===== src/SessionManager/Tests.antt =====
-- src/transport/p2p/session-manager.ts: a station on battery with a session, a hold and a viewer.
use eufy_sdk.Prelude.{
  ℕ, ◌+◌, ◌≡◌, ◌≢◌, refl, inl, inr, Bool-cases, ◌==◌, true, false, [], ◌∷◌, Option, none, some,
  length, arith,
}
use eufy_sdk.KeyMap.{lookup, insert, delete}
use eufy_sdk.SessionManager.{
  PowerTier, battery, Entry, Manager, announced, closed, reset_settled, start, entry, get, register,
  retain, release, hold, hold_expires, discard, reset_when_unused, close_all, close, release_entry,
  arm_idle,
}
use eufy_sdk.SessionManager.Invariant.{Inv}
use eufy_sdk.SessionManager.Opens.{Open, superseded, opening, acquire, start_open, open_resolves}
use eufy_sdk.SessionManager.Settle.{now, after, Shares, close_all_supersedes, open_is_shared}
use eufy_sdk.SessionManager.Reach.{
  Reach, here, next, registers, holds, retains, releases, closes, acquires, Reach-Inv,
}
use eufy_sdk.SessionManager.Viewers.{
  IsCounted, discard_no_timer, hold_expires_keeps, release_completes_reset,
}

abbrev on_battery : ℕ → Option PowerTier
on_battery sn = some battery

-- Session 5 of station 1, with a hold and a viewer.
abbrev watched : Manager
watched = retain 1 (hold on_battery 1 (register 1 5 start))

watched_reached : Reach watched
watched_reached = next (next (next here (registers 1 5)) (holds on_battery 1)) (retains 1)

abbrev viewed : Entry
viewed = record {
  id = 0;
  session = some 5;
  retained = 2;
  hold_timers = 1 ∷ [];
  reset = false;
  idle = false;
  connecting = none;
}

watched_entry : lookup 1 watched.entries ≡ some viewed
unfolding retain hold register entry start lookup insert
watched_entry = refl

Reach-Inv_example : Inv watched
Reach-Inv_example = Reach-Inv watched_reached

watched-IsCounted : IsCounted watched
unfolding retain hold register entry start lookup insert
watched-IsCounted sn e h = elim (Bool-cases (1 == sn)) [
  | inl y ↦ ground (arith, y, h)
  | inr y ↦ absurd (ground (arith, y, h))
]

hold_expires_keeps_example :
    ((hold_expires on_battery 1 watched).1 ≡ [])
    × (e' : Entry) × (lookup 1 (hold_expires on_battery 1 watched).0.entries ≡ some e')
    × (e'.session ≡ some 5)
    × (e'.reset ≡ false)
    × (e'.retained + 1 ≡ 2 + length e'.hold_timers)
hold_expires_keeps_example =
    hold_expires_keeps on_battery 1 1 viewed watched_reached watched-IsCounted watched_entry

abbrev other : Manager
other = hold on_battery 2 watched

other_reached : Reach other
other_reached = next watched_reached (holds on_battery 2)

other_timer : lookup 3 (discard 1 other).1.timers ≡ some (record { serial = 2; owner = 2 })
unfolding discard retain hold register entry start lookup insert delete
other_timer = refl

discard_no_timer_example : ◌≢◌ {A = ℕ} 2 1
discard_no_timer_example =
    discard_no_timer 1 other_reached 3 (record { serial = 2; owner = 2 }) other_timer

-- The same with a reset that waits for the viewer.
abbrev waiting : Manager
waiting = (reset_when_unused on_battery 1 watched).0

waiting_entry : lookup 1 waiting.entries ≡ some (record viewed { reset = true })
unfolding reset_when_unused retain hold register entry start lookup insert
waiting_entry = refl

release_completes_reset_example :
    ((release on_battery 1 waiting).1 ≡ announced 1 ∷ closed 5 ∷ reset_settled 0 ∷ [])
    × (lookup 1 (release on_battery 1 waiting).0.entries ≡ none)
release_completes_reset_example =
    release_completes_reset on_battery 1 5 waiting (record viewed { reset = true }) waiting_entry
      refl refl refl

-- The open of station 7.
abbrev asked : Manager
asked = (acquire 7 start).1

abbrev call : Open
call = record { serial = 7; owner = 0; generation = 0; promise = 1 }

asked_opening : (acquire 7 start).0 ≡ opening call
unfolding acquire start_open entry start lookup
asked_opening = refl

-- `closeAll`, and then another open of the station.
abbrev reopened : Manager
reopened = (acquire 7 (close_all asked).0).1

close_all_supersedes_example :
    ((open_resolves call 9 reopened).0 ≡ superseded)
    × ((open_resolves call 9 reopened).2 ≡ closed 9 ∷ [])
    × ((k : ℕ) → get k (open_resolves call 9 reopened).1 ≡ get k reopened)
close_all_supersedes_example =
    close_all_supersedes 7 9 call start asked_opening now (after now (acquires 7))

open_is_shared_example : Shares 7 asked call
open_is_shared_example = open_is_shared 7 call start asked_opening

-- A viewer of a session that its caller closes releases on the entry that took its place, whose one
-- reason is a hold: the hold is still pending then, and nothing is retained.
abbrev unearned : Manager
unearned = (release on_battery 1 (hold on_battery 1 (close 1 (retain 1 (register 1 5 start))).0)).0

unearned_reached : Reach unearned
unearned_reached =
    next
      (next (next (next (next here (registers 1 5)) (retains 1)) (closes 1)) (holds on_battery 1))
      (releases on_battery 1)

unearned_entry :
    (e : Entry) × (lookup 1 unearned.entries ≡ some e)
    × (e.retained ≡ 0)
    × (length e.hold_timers ≡ 1)
unfolding release release_entry arm_idle close discard retain hold register entry start lookup
    insert delete
unearned_entry = (
  record {
    id = 1;
    session = none;
    retained = 0;
    hold_timers = 2 ∷ [];
    reset = false;
    idle = true;
    connecting = none;
  },
  refl,
  refl,
  refl,
)
