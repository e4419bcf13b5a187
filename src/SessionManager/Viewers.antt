-- ===== src/SessionManager/Viewers.antt =====
-- src/transport/p2p/session-manager.ts: the viewers of a station, and how it is let go.
use eufy_sdk.Prelude.{
  ℕ, ◌+◌, ◌-◌, ◌<◌, ◌≤◌, ◌≡◌, ◌≢◌, refl, sym, ap, ◌∙◌, true, false, ◌&&◌, List, [], ◌∷◌, Option,
  none, some, ltb, leb, ◌==◌, if◌then◌else◌, length, arith, Bool-cases, Option-cases, inl, inr,
}
use eufy_sdk.KeyMap.{
  lookup, delete, without, lookup-insert, lookup-insert_self, length-without, lookup-delete_self,
}
use eufy_sdk.SessionManager.{
  Entry, Manager, HoldTimer, PowerTier, announced, closed, reset_settled, put, discard, release,
  release_entry, hold_expires, idle_expires, auto_close, arm_idle, is_battery,
}
use eufy_sdk.SessionManager.Drops.{discard-Inv, lookup-discard}
use eufy_sdk.SessionManager.Reach.{Reach, Reach-Inv}

-- Once an entry is discarded none of its hold timers is left to fire.
pub discard_no_timer :
    (sn : ℕ) {m : Manager}
    → Reach m
    → (t : ℕ) (h : HoldTimer) → lookup t (discard sn m).1.timers ≡ some h
    → h.serial ≢ sn
discard_no_timer sn {m} r t h live same =
    let (low, e, found, owner, mine) = (discard-Inv sn m (Reach-Inv r)).live t h live in
    cc (found, same, lookup-discard sn m)

-- A release that leaves something retained, or meets no deferred reset, changes the count alone.
record Released (p : ℕ → Option PowerTier) (sn : ℕ) (m : Manager) (f : Entry) : Type 0 where
  after : Entry
  is : release p sn m ≡ (put sn after m, [])
  session : after.session ≡ f.session
  reset : after.reset ≡ f.reset
  holds : after.hold_timers ≡ f.hold_timers
  count : after.retained + 1 ≡ f.retained

release_keeps :
    (p : ℕ → Option PowerTier) (sn : ℕ) (m : Manager) (f : Entry)
    → lookup sn m.entries ≡ some f
    → 0 < f.retained
    → (f.reset ≡ true → length f.hold_timers + 1 < f.retained)
    → Released p sn m f
unfolding release release_entry arm_idle
release_keeps p sn m f at pos waits =
    let z : (f.retained == 0) ≡ false = ground arith in
    let w : (f.reset && leb (f.retained - 1) (length f.hold_timers)) ≡ false =
      ground (arith, waits) in
    elim (Bool-cases ((f.retained - 1) == 0)) [
      | inl last ↦ record {
        after = record f { retained = f.retained - 1; idle = is_battery p sn };
        is = rw (at, release, z, w, last);
        session = refl;
        reset = refl;
        holds = refl;
        count = omega arith;
      }
      | inr more ↦ record {
        after = record f { retained = f.retained - 1 };
        is = rw (at, release, z, w, more);
        session = refl;
        reset = refl;
        holds = refl;
        count = omega arith;
      }
    ]

-- Every hold of every entry is among what the entry counts as retained, as it is while callers release
-- only what they retained on that entry.
abbrev pub IsCounted : Manager → Type 0
IsCounted m =
    (sn : ℕ) (e : Entry) → lookup sn m.entries ≡ some e → length e.hold_timers ≤ e.retained

-- In a reachable state in which every entry's holds are among what it counts as retained, a timer that
-- fires as a hold's closes nothing, and takes no viewer's reason away: what is retained beside the holds
-- is as before, on every station, and so are the session and a deferred reset.
pub hold_expires_keeps :
    (p : ℕ → Option PowerTier) (t sn : ℕ) {m : Manager} (e : Entry)
    → Reach m
    → IsCounted m
    → lookup sn m.entries ≡ some e
    → ((hold_expires p t m).1 ≡ [])
      × (e' : Entry) × (lookup sn (hold_expires p t m).0.entries ≡ some e')
      × (e'.session ≡ e.session)
      × (e'.reset ≡ e.reset)
      × (e'.retained + length e.hold_timers ≡ e.retained + length e'.hold_timers)
unfolding hold_expires
hold_expires_keeps p t sn {m} e r counted at = elim (Option-cases (lookup t m.timers)) [
  | inl q ↦ rw (q, hold_expires) (refl, e, at, refl, refl, refl)
  | inr (h, q) ↦
      let v = Reach-Inv r in
      let (low, f, found, owner, mine) = v.live t h q in
      let (good, _) = v.each h.serial f found in
      let is : (f.id == h.owner) ≡ true = ground (arith, owner) in
      let f1 : Entry = record f { hold_timers = without t f.hold_timers } in
      let m1 : Manager = put h.serial f1 (record m { timers = delete t m.timers }) in
      let less = length-without t f.hold_timers good.distinct mine in
      let rel =
        release_keeps p h.serial m1 f1 (lookup-insert_self h.serial f1 m.entries)
          (omega (arith, counted h.serial f found)) (λ z. omega (arith, good.reset z)) in
      let now : lookup sn (put h.serial rel.after m1).entries
          ≡ (if h.serial == sn then some rel.after else lookup sn m.entries) =
        ground (
          arith,
          lookup-insert h.serial sn rel.after m1.entries,
          lookup-insert h.serial sn f1 m.entries,
        ) in
      elim (Bool-cases (h.serial == sn)) [
        | inl y ↦
            let key : h.serial ≡ sn = ground (arith, y) in
            let same : f ≡ e = ground (arith, sym found ∙ ap (λ j. lookup j m.entries) key ∙ at) in
            rw (q, hold_expires, found, is, rel.is)
              (
                refl,
                rel.after,
                now ∙ ground (arith, y),
                rel.session ∙ ap (λ x. x.session) same,
                rel.reset ∙ ap (λ x. x.reset) same,
                omega (
                  arith,
                  rel.count,
                  less,
                  ap (λ (x : List ℕ). length x) rel.holds,
                  ap (λ (x : Entry). x.retained) same,
                  ap (λ (x : Entry). length x.hold_timers) same,
                ),
              )
        | inr y ↦
            rw (q, hold_expires, found, is, rel.is)
              (refl, e, now ∙ ground (arith, y, at), refl, refl, refl)
      ]
]

-- An idle timer that fires while anything is retained closes nothing.
pub idle_expires_busy :
    (p : ℕ → Option PowerTier) (sn : ℕ) (m : Manager) (e : Entry)
    → lookup sn m.entries ≡ some e
    → 0 < e.retained
    → idle_expires p sn m ≡ (put sn (record e { idle = false }) m, [])
unfolding idle_expires
idle_expires_busy p sn m e at busy =
    let z : ltb 0 e.retained ≡ true = ground arith in rw (at, idle_expires, z)

-- The release of the last viewer completes a deferred reset, holds or no holds: the entry leaves the
-- map, the owner is told, the session is closed and the reset's callers are answered, in this order.
pub release_completes_reset :
    (p : ℕ → Option PowerTier) (sn session : ℕ) (m : Manager) (e : Entry)
    → lookup sn m.entries ≡ some e
    → e.retained ≡ length e.hold_timers + 1
    → e.reset ≡ true
    → e.session ≡ some session
    → ((release p sn m).1 ≡ announced sn ∷ closed session ∷ reset_settled e.id ∷ [])
      × (lookup sn (release p sn m).0.entries ≡ none)
unfolding release release_entry auto_close discard
release_completes_reset p sn session m e at last waiting live =
    let z : (e.retained == 0) ≡ false = ground (arith, last) in
    let w : (e.reset && leb (e.retained - 1) (length e.hold_timers)) ≡ true =
      ground (arith, last, waiting) in
    rw
      (
        at,
        release,
        z,
        w,
        lookup-insert_self sn (record e { retained = e.retained - 1 }) m.entries,
        discard,
      )
      (ground (arith, live, waiting), lookup-delete_self sn _)

-- The release of the last reason, with no hold and no deferred reset, closes nothing at once: it arms the
-- idle timer of a station on battery, and leaves any other station without one.
pub release_last :
    (p : ℕ → Option PowerTier) (sn : ℕ) (m : Manager) (e : Entry)
    → lookup sn m.entries ≡ some e
    → e.retained ≡ 1
    → e.reset ≡ false
    → release p sn m ≡ (put sn (record e { retained = 0; idle = is_battery p sn }) m, [])
unfolding release release_entry arm_idle
release_last p sn m e at one calm =
    let z : (e.retained == 0) ≡ false = ground (arith, one) in
    let w : (e.reset && leb (e.retained - 1) (length e.hold_timers)) ≡ false =
      ground (arith, calm) in
    let y : ((e.retained - 1) == 0) ≡ true = ground (arith, one) in
    let c : e.retained - 1 ≡ 0 = omega arith in rw (at, release, z, w, y, c)
