-- ===== src/SessionManager/Generations.antt =====
-- The generation of src/transport/p2p/session-manager.ts only grows, and grows at each `closeAll`.
use eufy_sdk.Prelude.{
  ℕ, ◌+◌, ◌-◌, ◌≤◌, ◌≡◌, refl, ◌∙◌, ◌&&◌, List, [], ◌∷◌, Option, none, some, ltb, leb, ◌==◌, length,
  map, arith, Option-cases, inl, inr, false,
}
use eufy_sdk.KeyMap.{lookup, delete}
use eufy_sdk.LiveConsumer.{choose}
use eufy_sdk.SessionManager.{
  Entry, Manager, Effect, PowerTier, put, entry, register, retain, discard, auto_close, remove,
  close, close_each, close_all, arm_idle, release_entry, release, hold, bump_command, hold_expires,
  idle_expires, reset_when_unused,
}
use eufy_sdk.SessionManager.Opens.{
  Open, start_open, acquire, on_owner, register_early, open_resolves, open_fails, is_current,
  settle_connecting, Outcome,
}
use eufy_sdk.SessionManager.Reach.{
  Step, registers, acquires, registers_early, resolves, fails, retains, releases, holds, bumps,
  hold_fires, idle_fires, resets, removes, closes, closes_all,
}

-- The managers of the generation of `m`.
abbrev Keeps : Manager → Manager → Type 0
Keeps m n = n.generation ≡ m.generation

pub entry-Keeps : (sn : ℕ) (m : Manager) → (entry sn m).1.generation ≡ m.generation
unfolding entry
entry-Keeps sn m = elim (Option-cases (lookup sn m.entries)) [
  | inl q ↦ rw (q, entry) refl
  | inr (e, q) ↦ rw (q, entry) refl
]

discard-Keeps : (sn : ℕ) (m : Manager) → Keeps m (discard sn m).1
unfolding discard
discard-Keeps sn m = elim (Option-cases (lookup sn m.entries)) [
  | inl q ↦ rw (q, discard) refl
  | inr (e, q) ↦ rw (q, discard) refl
]

retain-Keeps : (sn : ℕ) (m : Manager) → Keeps m (retain sn m)
unfolding retain
retain-Keeps sn m = entry-Keeps sn m

on_owner-Keeps : (o : Open) (f : Entry → Entry) (m : Manager) → Keeps m (on_owner o f m)
unfolding on_owner
on_owner-Keeps o f m = elim (Option-cases (lookup o.serial m.entries)) [
  | inl q ↦ rw (q, on_owner) refl
  | inr (e, q) ↦
      rw (q, on_owner)
        (choose (Keeps m) (e.id == o.owner) (put o.serial (f e) m) m (λ _. refl) (λ _. refl))
]

start_open-Keeps :
    (sn : ℕ) (e : Entry) (c session : Option ℕ) (m : Manager)
    → Keeps m (start_open sn e c session m).1
unfolding start_open
start_open-Keeps sn e (some p) session m = refl
start_open-Keeps sn e none (some s) m = refl
start_open-Keeps sn e none none m = refl

pub acquire-Keeps : (sn : ℕ) (m : Manager) → (acquire sn m).1.generation ≡ m.generation
unfolding acquire
acquire-Keeps sn m =
    let e = (entry sn m).0 in
    start_open-Keeps sn e e.connecting e.session (entry sn m).1 ∙ entry-Keeps sn m

open_resolves-Keeps : (o : Open) (s : ℕ) (m : Manager) → Keeps m (open_resolves o s m).1
unfolding open_resolves
open_resolves-Keeps o s m =
    choose {A = Outcome × Manager × List Effect} (λ r. Keeps m r.1)
      ((o.generation == m.generation) && is_current o m) _ _ (λ _. on_owner-Keeps o _ m)
      (λ _. on_owner-Keeps o _ m)

hold-Keeps : (p : ℕ → Option PowerTier) (sn : ℕ) (m : Manager) → Keeps m (hold p sn m)
unfolding hold
hold-Keeps p sn m = entry-Keeps sn (retain sn m) ∙ retain-Keeps sn m

release-Keeps : (p : ℕ → Option PowerTier) (sn : ℕ) (m : Manager) → Keeps m (release p sn m).0
unfolding release release_entry auto_close arm_idle
release-Keeps p sn m = elim (Option-cases (lookup sn m.entries)) [
  | inl q ↦ rw (q, release) refl
  | inr (e, q) ↦
      let e' : Entry = record e { retained = e.retained - 1 } in
      let P = λ (r : Manager × List Effect). Keeps m r.0 in
      rw (q, release)
        (choose P (e.retained == 0) (m, []) _ (λ _. refl)
          (λ _.
            choose P (e'.reset && leb e'.retained (length e'.hold_timers)) _ _
              (λ _. discard-Keeps sn (put sn e' m))
              (λ _. choose P (e'.retained == 0) _ (put sn e' m, []) (λ _. refl) (λ _. refl))))
]

hold_expires-Keeps :
    (p : ℕ → Option PowerTier) (t : ℕ) (m : Manager) → Keeps m (hold_expires p t m).0
unfolding hold_expires
hold_expires-Keeps p t m = elim (Option-cases (lookup t m.timers)) [
  | inl q ↦ rw (q, hold_expires) refl
  | inr (h, q) ↦
      let m' : Manager = record m { timers = delete t m.timers } in
      elim (Option-cases (lookup h.serial m.entries)) [
        | inl z ↦ rw (q, hold_expires, z) refl
        | inr (e, z) ↦
            rw (q, hold_expires, z)
              (choose (λ (r : Manager × List Effect). Keeps m r.0) (e.id == h.owner) _
                (release p h.serial m') (λ _. release-Keeps p h.serial _)
                (λ _. release-Keeps p h.serial m'))
      ]
]

idle_expires-Keeps :
    (p : ℕ → Option PowerTier) (sn : ℕ) (m : Manager) → Keeps m (idle_expires p sn m).0
unfolding idle_expires auto_close
idle_expires-Keeps p sn m = elim (Option-cases (lookup sn m.entries)) [
  | inl q ↦ rw (q, idle_expires) refl
  | inr (e, q) ↦
      rw (q, idle_expires)
        (choose (λ (r : Manager × List Effect). Keeps m r.0) (ltb 0 e.retained) _ _ (λ _. refl)
          (λ _. discard-Keeps sn (put sn (record e { idle = false }) m)))
]

reset_when_unused-Keeps :
    (p : ℕ → Option PowerTier) (sn : ℕ) (m : Manager) → Keeps m (reset_when_unused p sn m).0
unfolding reset_when_unused auto_close
reset_when_unused-Keeps p sn m = elim (Option-cases (lookup sn m.entries)) [
  | inl q ↦ rw (q, reset_when_unused) refl
  | inr (e, q) ↦
      rw (q, reset_when_unused)
        (choose (λ (r : Manager × List Effect). Keeps m r.0) (leb e.retained (length e.hold_timers))
          _ _ (λ _. discard-Keeps sn m) (λ _. refl))
]

close_each-Keeps : (sns : List ℕ) (m : Manager) → Keeps m (close_each sns m).0
unfolding close_each close
close_each-Keeps [] m = refl
close_each-Keeps (sn ∷ sns) m = close_each-Keeps sns (discard sn m).1 ∙ discard-Keeps sn m

pub close_all-generation : (m : Manager) → (close_all m).0.generation ≡ m.generation + 1
unfolding close_all
close_all-generation m =
    close_each-Keeps (map (λ p. p.0) m.entries) (record m { generation = m.generation + 1 })

pub Step-generation : {m n : Manager} → Step m n → m.generation ≤ n.generation
unfolding register register_early open_fails bump_command remove close
Step-generation {m} (registers sn s) = omega (arith, entry-Keeps sn m)
Step-generation {m} (acquires sn) = omega (arith, acquire-Keeps sn m)
Step-generation {m} (registers_early o s) =
    omega (arith, on_owner-Keeps o (λ e. record e { session = some s }) m)
Step-generation {m} (resolves o s) = omega (arith, open_resolves-Keeps o s m)
Step-generation {m} (fails o) = omega (arith, on_owner-Keeps o (settle_connecting o.promise) m)
Step-generation {m} (retains sn) = omega (arith, retain-Keeps sn m)
Step-generation {m} (releases p sn) = omega (arith, release-Keeps p sn m)
Step-generation {m} (holds p sn) = omega (arith, hold-Keeps p sn m)
Step-generation {m} (bumps p sn) = omega (arith, hold-Keeps p sn m)
Step-generation {m} (hold_fires p t) = omega (arith, hold_expires-Keeps p t m)
Step-generation {m} (idle_fires p sn) = omega (arith, idle_expires-Keeps p sn m)
Step-generation {m} (resets p sn) = omega (arith, reset_when_unused-Keeps p sn m)
Step-generation {m} (removes sn) = omega (arith, discard-Keeps sn m)
Step-generation {m} (closes sn) = omega (arith, discard-Keeps sn m)
Step-generation {m} closes_all = omega (arith, close_all-generation m)
