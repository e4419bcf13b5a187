-- ===== src/SessionManager/Opens.antt =====
-- `acquire` of src/transport/p2p/session-manager.ts: the open of a cold station, from the call of its
-- factory to the moment its promise settles. What the factory does between is the environment's.
use eufy_sdk.Prelude.{
  ℕ, ◌+◌, ◌<◌, ◌≡◌, refl, sym, ap, ◌∙◌, Bool, true, false, ◌&&◌, List, [], ◌∷◌, Option, none, some,
  ◌==◌, if◌then◌else◌, length, arith, Bool-cases, Option-cases, inl, inr, subst,
}
use eufy_sdk.KeyMap.{lookup, has, IsDistinct}
use eufy_sdk.SessionManager.{Entry, Manager, Effect, closed, put, entry, HoldTimer, get}
use eufy_sdk.SessionManager.Invariant.{EntryInv, Inv, put-Inv}
use eufy_sdk.SessionManager.Timers.{entry-Inv}

-- The variables that the call keeps across its await.
pub record Open : Type 0 where
  pub serial : ℕ
  pub owner : ℕ
  pub generation : ℕ
  pub promise : ℕ

pub data Started : Type 0 where
  joined : ℕ → Started
  already_open : ℕ → Started
  opening : Open → Started

abbrev pub bump : Manager → Manager
bump m = record m { fresh = m.fresh + 1 }

-- `acquire` behind `entry`, by the entry's `connecting` and `session`.
unfoldable pub start_open : ℕ → Entry → Option ℕ → Option ℕ → Manager → Started × Manager
start_open sn e (some p) session m = (joined p, m)
start_open sn e none (some s) m = (already_open s, m)
start_open sn e none none m = (
  opening (record { serial = sn; owner = e.id; generation = m.generation; promise = m.fresh }),
  put sn (record e { connecting = some m.fresh }) (bump m),
)

unfoldable pub acquire : ℕ → Manager → Started × Manager
acquire sn m = let (e, m') = entry sn m in start_open sn e e.connecting e.session m'

-- Whether the map still has the entry that the call captured.
unfoldable pub is_current : Open → Manager → Bool
is_current o m = elim (lookup o.serial m.entries) [ none ↦ false | some e ↦ e.id == o.owner ]

-- A write to the captured entry; it is seen only while that entry is on the map.
unfoldable pub on_owner : Open → (Entry → Entry) → Manager → Manager
on_owner o f m = elim (lookup o.serial m.entries) [
  | none ↦ m
  | some e ↦ if e.id == o.owner then put o.serial (f e) m else m
]

-- The `register` callback handed to the factory.
unfoldable pub register_early : Open → ℕ → Manager → Manager
register_early o s = on_owner o (λ e. record e { session = some s })

-- `if (e.connecting === p) e.connecting = undefined`
abbrev pub settle_connecting : ℕ → Entry → Entry
settle_connecting p e = record e {
  connecting = elim e.connecting [ none ↦ none | some q ↦ if q == p then none else some q ];
}

-- `e.session ??= session`
abbrev pub or_else : Option ℕ → ℕ → ℕ
or_else none s = s
or_else (some q) s = q

abbrev pub adopt : ℕ → Entry → Entry
adopt s e = record e { session = some (or_else e.session s) }

pub data Outcome : Type 0 where
  superseded : Outcome
  opened : Option ℕ → Outcome
  failed : Outcome

-- The factory's promise resolves to the session `s`.
unfoldable pub open_resolves : Open → ℕ → Manager → Outcome × Manager × List Effect
open_resolves o s m =
    if (o.generation == m.generation) && is_current o m
    then (let m' = on_owner o (λ e. settle_connecting o.promise (adopt s e)) m in
        (opened (get o.serial m'), m', []))
    else (superseded, on_owner o (settle_connecting o.promise) m, closed s ∷ [])

-- It rejects.
unfoldable pub open_fails : Open → Manager → Outcome × Manager × List Effect
open_fails o m = (failed, on_owner o (settle_connecting o.promise) m, [])

-- A write to the captured entry that keeps its identity, its hold timers and its invariant.
record Keeps (f : Entry → Entry) : Type 0 where
  good : (e : Entry) → EntryInv e → EntryInv (f e)
  same_id : (e : Entry) → (f e).id ≡ e.id
  same_timers : (e : Entry) → (f e).hold_timers ≡ e.hold_timers

on_owner-Inv : (o : Open) (f : Entry → Entry) (m : Manager) → Keeps f → Inv m → Inv (on_owner o f m)
unfolding on_owner
on_owner-Inv o f m k v = elim (Option-cases (lookup o.serial m.entries)) [
  | inl q ↦ rw (q, on_owner) v
  | inr (e, q) ↦ elim (Bool-cases (e.id == o.owner)) [
    | inl z ↦
        rw (q, on_owner, z)
          (put-Inv o.serial m e (f e) v q (k.good e (v.each o.serial e q).0) (k.same_id e)
            (k.same_timers e))
    | inr z ↦ rw (q, on_owner, z) v
  ]
]

same_counts :
    (e e' : Entry)
    → EntryInv e
    → e'.retained ≡ e.retained
    → e'.hold_timers ≡ e.hold_timers
    → e'.idle ≡ e.idle
    → e'.reset ≡ e.reset
    → EntryInv e'
same_counts e e' g r h i s = record {
  idle = λ q. r ∙ g.idle (sym i ∙ q);
  reset = λ q. omega (arith, g.reset (sym s ∙ q), ap (λ (x : List ℕ). length x) h, r);
  distinct = subst IsDistinct (sym h) g.distinct;
}

settle_connecting-Keeps : (p : ℕ) → Keeps (settle_connecting p)
settle_connecting-Keeps p = record {
  good = λ e g. same_counts e _ g refl refl refl refl;
  same_id = λ e. refl;
  same_timers = λ e. refl;
}

adopted-Keeps : (p s : ℕ) → Keeps (λ e. settle_connecting p (adopt s e))
adopted-Keeps p s = record {
  good = λ e g. same_counts e _ g refl refl refl refl;
  same_id = λ e. refl;
  same_timers = λ e. refl;
}

pub register_early-Inv : (o : Open) (s : ℕ) (m : Manager) → Inv m → Inv (register_early o s m)
unfolding register_early
register_early-Inv o s m = on_owner-Inv o _ m (record {
  good = λ e g. same_counts e _ g refl refl refl refl;
  same_id = λ e. refl;
  same_timers = λ e. refl;
})

pub open_resolves-Inv : (o : Open) (s : ℕ) (m : Manager) → Inv m → Inv (open_resolves o s m).1
unfolding open_resolves
open_resolves-Inv o s m v = elim (Bool-cases ((o.generation == m.generation) && is_current o m)) [
  | inl z ↦ rw z (on_owner-Inv o _ m (adopted-Keeps o.promise s) v)
  | inr z ↦ rw z (on_owner-Inv o _ m (settle_connecting-Keeps o.promise) v)
]

pub open_fails-Inv : (o : Open) (m : Manager) → Inv m → Inv (open_fails o m).1
unfolding open_fails
open_fails-Inv o m v = on_owner-Inv o _ m (settle_connecting-Keeps o.promise) v

bump-Inv : (m : Manager) → Inv m → Inv (bump m)
bump-Inv m v = record {
  each = λ k x h. let (good, low) = v.each k x h in (good, omega arith);
  live = λ t h q. let (low, rest) = live_in t h q in (omega arith, rest.0, rest.1, rest.2, rest.3);
  owned = v.owned;
}
  where
    live_in :
        (t : ℕ) (h : HoldTimer)
        → lookup t m.timers ≡ some h
        → (t < m.fresh)
          × ((e : Entry) × (lookup h.serial m.entries ≡ some e)
              × (e.id ≡ h.owner)
              × (has t e.hold_timers ≡ true))
    live_in t h q = let (low, e, a, b, c) = v.live t h q in (low, (e, a, b, c))

start_open-Inv :
    (sn : ℕ) (e : Entry) (c session : Option ℕ) (m : Manager)
    → Inv m
    → lookup sn m.entries ≡ some e
    → Inv (start_open sn e c session m).1
unfolding start_open
start_open-Inv sn e (some p) session m v at = v
start_open-Inv sn e none (some s) m v at = v
start_open-Inv sn e none none m v at =
    put-Inv sn (bump m) e (record e { connecting = some m.fresh }) (bump-Inv m v) at
      (same_counts e _ (v.each sn e at).0 refl refl refl refl) refl refl

pub acquire-Inv : (sn : ℕ) (m : Manager) → Inv m → Inv (acquire sn m).1
unfolding acquire
acquire-Inv sn m v =
    let (w, at) = entry-Inv sn m v in
    let e = (entry sn m).0 in start_open-Inv sn e e.connecting e.session (entry sn m).1 w at
