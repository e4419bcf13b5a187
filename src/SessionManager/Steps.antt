-- ===== src/SessionManager/Steps.antt =====
-- The lifecycle invariant over the operations of src/transport/p2p/session-manager.ts.
use eufy_sdk.Prelude.{
  ℕ, ◌+◌, ◌-◌, ◌≡◌, refl, sym, ap, ◌∙◌, true, false, ◌&&◌, List, [], ◌∷◌, ◌++◌, Option, none, some,
  ltb, leb, ◌==◌, if◌then◌else◌, length, arith, Bool-cases, Option-cases, inl, inr, length-append,
}
use eufy_sdk.KeyMap.{
  lookup, insert, has, lookup-insert, lookup-delete, lookup-insert_self, snoc-IsDistinct,
}
use eufy_sdk.SessionManager.{
  Entry, Manager, PowerTier, put, entry, retain, discard, auto_close, close, close_each, close_all,
  arm_idle, release_entry, release, hold, hold_expires, idle_expires, reset_when_unused, register,
  is_battery,
}
use eufy_sdk.SessionManager.Invariant.{Inv, put-Inv}
use eufy_sdk.SessionManager.Timers.{entry-Inv, add_timer-Inv, unheld}
use eufy_sdk.SessionManager.Drops.{drop_timer-Inv, discard-Inv, lookup-clear_timers}

pub retain-Inv : (sn : ℕ) (m : Manager) → Inv m → Inv (retain sn m)
unfolding retain
retain-Inv sn m v =
    let (w, at) = entry-Inv sn m v in
    let e = (entry sn m).0 in
    let (good, low) = w.each sn e at in
    put-Inv sn (entry sn m).1 e (record e { retained = e.retained + 1; idle = false }) w at
      (record {
        idle = λ q. absurd (cc);
        reset = λ q. omega (arith, good.reset q);
        distinct = good.distinct;
      })
      refl refl

pub register-Inv : (sn session : ℕ) (m : Manager) → Inv m → Inv (register sn session m)
unfolding register
register-Inv sn session m v =
    let (w, at) = entry-Inv sn m v in
    let e = (entry sn m).0 in
    let (good, low) = w.each sn e at in
    put-Inv sn (entry sn m).1 e (record e { session = some session }) w at
      (record { idle = good.idle; reset = good.reset; distinct = good.distinct }) refl refl

-- The invariant reads the two maps by their lookups only.
Inv-ext :
    (m n : Manager)
    → ((k : ℕ) → lookup k m.entries ≡ lookup k n.entries)
    → ((t : ℕ) → lookup t m.timers ≡ lookup t n.timers)
    → m.fresh ≡ n.fresh
    → Inv m
    → Inv n
Inv-ext m n es ts fr v = record {
  each = λ k x h. let (good, low) = v.each k x (es k ∙ h) in (good, omega arith);
  live = λ t h q.
      let (low, x, found, owner, mine) = v.live t h (ts t ∙ q) in
      (omega arith, x, sym (es h.serial) ∙ found, owner, mine);
  owned = λ k t x h q. sym (ts t) ∙ v.owned k t x (es k ∙ h) q;
}

-- Discarding an entry does not look at what was last written to it, its hold timers apart.
discard-put-Inv :
    (sn : ℕ) (m : Manager) (e e' : Entry)
    → Inv m
    → lookup sn m.entries ≡ some e
    → e'.hold_timers ≡ e.hold_timers
    → Inv (discard sn (put sn e' m)).1
unfolding discard
discard-put-Inv sn m e e' v at same =
    rw (lookup-insert_self sn e' m.entries, discard)
      (Inv-ext (discard sn m).1 _
        (λ k.
          rw (at, discard)
            (ground (
              arith,
              lookup-delete sn k m.entries,
              lookup-delete sn k (insert sn e' m.entries),
              lookup-insert sn k e' m.entries,
            )))
        (λ t.
          rw (at, discard)
            (lookup-clear_timers t e.hold_timers m.timers
              ∙ ap (λ s. if has t s then none else lookup t m.timers) (sym same)
              ∙ sym (lookup-clear_timers t e'.hold_timers m.timers)))
        (rw (at, discard)) (discard-Inv sn m v))

module _ (powered_for : ℕ → Option PowerTier) where
  release_entry-Inv :
      (sn : ℕ) (e : Entry) (m : Manager)
      → Inv m
      → lookup sn m.entries ≡ some e
      → Inv (release_entry powered_for sn e m).0
  unfolding release_entry auto_close arm_idle
  release_entry-Inv sn e m v at =
      let (good, low) = v.each sn e at in
      let e' : Entry = record e { retained = e.retained - 1 } in
      elim (Bool-cases (e.reset && leb (e.retained - 1) (length e.hold_timers))) [
        | inl q ↦ rw q (discard-put-Inv sn m e e' v at refl)
        | inr q ↦ elim (Bool-cases ((e.retained - 1) == 0)) [
          | inl z ↦
              rw (q, z)
                (put-Inv sn m e (record e' { idle = is_battery powered_for sn }) v at
                  (record {
                    idle = λ _. ground (arith, z);
                    reset = λ r. ground (arith, q, r);
                    distinct = good.distinct;
                  })
                  refl refl)
          | inr z ↦
              rw (q, z)
                (put-Inv sn m e e' v at
                  (record {
                    idle = λ r. absurd (ground (arith, good.idle r, z));
                    reset = λ r. ground (arith, q, r);
                    distinct = good.distinct;
                  })
                  refl refl)
        ]
      ]

module _ (powered_for : ℕ → Option PowerTier) where
  pub release-Inv : (sn : ℕ) (m : Manager) → Inv m → Inv (release powered_for sn m).0
  unfolding release
  release-Inv sn m v = elim (Option-cases (lookup sn m.entries)) [
    | inl q ↦ rw (q, release) v
    | inr (e, q) ↦ elim (Bool-cases (e.retained == 0)) [
      | inl z ↦ rw (q, release, z) v
      | inr z ↦ rw (q, release, z) (release_entry-Inv powered_for sn e m v q)
    ]
  ]

  pub hold-Inv : (sn : ℕ) (m : Manager) → Inv m → Inv (hold powered_for sn m)
  unfolding hold
  hold-Inv sn m v =
      let (w, at) = entry-Inv sn m v in
      let e = (entry sn m).0 in
      let (good, low) = w.each sn e at in
      let kept : Entry = record e { retained = e.retained + 1; idle = false } in
      let there : lookup sn (retain sn m).entries ≡ some kept =
        unfold retain in lookup-insert_self sn _ (entry sn m).1.entries in
      let found : entry sn (retain sn m) ≡ (kept, retain sn m) =
        unfold entry in rw (there, entry) in
      rw found (
        add_timer-Inv sn (retain sn m) kept (retain-Inv sn m v) there
          (record kept { hold_timers = kept.hold_timers ++ ((retain sn m).fresh ∷ []) })
          (record {
            idle = λ q. absurd (cc);
            reset = λ q.
                omega (arith, good.reset q, length-append e.hold_timers ((retain sn m).fresh ∷ []));
            distinct =
                snoc-IsDistinct (retain sn m).fresh e.hold_timers good.distinct
                  (unheld sn (retain sn m) kept (retain-Inv sn m v) there sn kept there);
          })
          refl refl)

  -- A live timer fires: the hold that it stands for is given back on the entry that it was taken on.
  pub hold_expires-Inv : (t : ℕ) (m : Manager) → Inv m → Inv (hold_expires powered_for t m).0
  unfolding hold_expires
  hold_expires-Inv t m v = elim (Option-cases (lookup t m.timers)) [
    | inl q ↦ rw (q, hold_expires) v
    | inr (h, q) ↦
        let (low, e, at, owner, mine) = v.live t h q in
        let (good, _) = v.each h.serial e at in
        let is : (e.id == h.owner) ≡ true = ground (arith, owner) in
        rw (q, hold_expires, at, is)
          (release-Inv h.serial _ (drop_timer-Inv h.serial m e v at t mine))
  ]

  pub idle_expires-Inv : (sn : ℕ) (m : Manager) → Inv m → Inv (idle_expires powered_for sn m).0
  unfolding idle_expires auto_close
  idle_expires-Inv sn m v = elim (Option-cases (lookup sn m.entries)) [
    | inl q ↦ rw (q, idle_expires) v
    | inr (e, q) ↦
        let (good, _) = v.each sn e q in
        let w =
          put-Inv sn m e (record e { idle = false }) v q
            (record { idle = λ r. absurd (cc); reset = good.reset; distinct = good.distinct }) refl
            refl in
        elim (Bool-cases (ltb 0 e.retained)) [
          | inl z ↦ rw (q, idle_expires, z) w
          | inr z ↦ rw (q, idle_expires, z) (discard-Inv sn _ w)
        ]
  ]

  pub reset_when_unused-Inv :
      (sn : ℕ) (m : Manager) → Inv m → Inv (reset_when_unused powered_for sn m).0
  unfolding reset_when_unused auto_close
  reset_when_unused-Inv sn m v = elim (Option-cases (lookup sn m.entries)) [
    | inl q ↦ rw (q, reset_when_unused) v
    | inr (e, q) ↦
        let (good, _) = v.each sn e q in
        elim (Bool-cases (leb e.retained (length e.hold_timers))) [
          | inl z ↦ rw (q, reset_when_unused, z) (discard-Inv sn m v)
          | inr z ↦
              rw (q, reset_when_unused, z)
                (put-Inv sn m e (record e { reset = true }) v q
                  (record {
                    idle = good.idle;
                    reset = λ _. ground (arith, z);
                    distinct = good.distinct;
                  })
                  refl refl)
        ]
  ]

pub close_each-Inv : (sns : List ℕ) (m : Manager) → Inv m → Inv (close_each sns m).0
unfolding close_each close
close_each-Inv [] m v = v
close_each-Inv (sn ∷ sns) m v = close_each-Inv sns _ (discard-Inv sn m v)

pub close_all-Inv : (m : Manager) → Inv m → Inv (close_all m).0
unfolding close_all
close_all-Inv m v = close_each-Inv _ _ (record { each = v.each; live = v.live; owned = v.owned })
