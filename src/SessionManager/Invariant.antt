-- ===== src/SessionManager/Invariant.antt =====
-- The lifecycle invariant of src/transport/p2p/session-manager.ts.
use eufy_sdk.Prelude.{
  ℕ, ◌<◌, ◌≡◌, sym, ap, ◌∙◌, true, some, ◌==◌, length, arith, Bool-cases, inl, inr, subst,
}
use eufy_sdk.KeyMap.{
  lookup, insert, has, IsDistinct, lookup-insert, lookup-nil, lookup-insert_inv, lookup-insert_ne,
}
use eufy_sdk.SessionManager.{Entry, Manager, HoldTimer, put, start}

-- The idle timer runs only where nothing is retained; a deferred reset waits only while more is retained
-- than there are holds.
pub record EntryInv (e : Entry) : Type 0 where
  pub idle : e.idle ≡ true → e.retained ≡ 0
  pub reset : e.reset ≡ true → length e.hold_timers < e.retained
  pub distinct : IsDistinct e.hold_timers

-- A live hold timer belongs to the entry that is on the map under its serial, and an entry's hold
-- timers are live and its own.
pub record Inv (m : Manager) : Type 0 where
  pub each : (sn : ℕ) (e : Entry) → lookup sn m.entries ≡ some e → EntryInv e × (e.id < m.fresh)
  pub live :
      (t : ℕ) (h : HoldTimer)
      → lookup t m.timers ≡ some h
      → (t < m.fresh)
        × (e : Entry) × (lookup h.serial m.entries ≡ some e)
        × (e.id ≡ h.owner)
        × (has t e.hold_timers ≡ true)
  pub owned :
      (sn t : ℕ) (e : Entry)
      → lookup sn m.entries ≡ some e
      → has t e.hold_timers ≡ true
      → lookup t m.timers ≡ some (record { serial = sn; owner = e.id })

pub start-Inv : Inv start
unfolding start
start-Inv = record {
  each = λ sn e h. absurd (cc (lookup-nil {V = Entry} sn));
  live = λ t h q. absurd (cc (lookup-nil {V = HoldTimer} t));
  owned = λ sn t e h q. absurd (cc (lookup-nil {V = Entry} sn));
}

-- An entry put back with the same identity and the same hold timers keeps the invariant.
module _ (sn : ℕ) (m : Manager) (e e' : Entry) (v : Inv m) (at : lookup sn m.entries ≡ some e) where
  pub put-Inv : EntryInv e' → e'.id ≡ e.id → e'.hold_timers ≡ e.hold_timers → Inv (put sn e' m)
  put-Inv good same_id same_timers = record {
    each = λ k x h. elim (lookup-insert_inv sn k e' x m.entries h) [
      | inl (_, q) ↦
          subst (λ y. EntryInv y × (y.id < m.fresh)) q
            (good, omega (arith, (v.each sn e at).1, same_id))
      | inr (_, q) ↦ v.each k x q
    ];
    live = λ t h q. live_after t h q;
    owned = λ k t x h q. elim (lookup-insert_inv sn k e' x m.entries h) [
      | inl (p, r) ↦
          let was : has t e.hold_timers ≡ true =
            ap (has t) (sym same_timers ∙ ap (λ y. y.hold_timers) r) ∙ q in
          v.owned sn t e at was ∙ ap some (named_as p (sym same_id ∙ ap (λ y. y.id) r))
      | inr (_, r) ↦ v.owned k t x r q
    ];
  }
    where
      named_as :
          {k i j : ℕ}
          → sn ≡ k
          → i ≡ j
          → ◌≡◌ {A = HoldTimer}
              (record { serial = sn; owner = i })
              (record { serial = k; owner = j })
      named_as p q = cc

      live_after :
          (t : ℕ) (h : HoldTimer)
          → lookup t m.timers ≡ some h
          → (t < m.fresh)
            × (x : Entry) × (lookup h.serial (insert sn e' m.entries) ≡ some x)
            × (x.id ≡ h.owner)
            × (has t x.hold_timers ≡ true)
      live_after t h q =
          let (low, x, found, owner, mine) = v.live t h q in
          elim (Bool-cases (sn == h.serial)) [
            | inl p ↦
                let same : sn ≡ h.serial = ground (arith, p) in
                let xe : x ≡ e =
                  ground (arith, sym found ∙ ap (λ k. lookup k m.entries) (sym same) ∙ at) in
                (
                  low,
                  e',
                  ground (arith, p, lookup-insert sn h.serial e' m.entries),
                  same_id ∙ sym (ap (λ y. y.id) xe) ∙ owner,
                  ap (has t) (same_timers ∙ sym (ap (λ y. y.hold_timers) xe)) ∙ mine,
                )
            | inr p ↦ (low, x, lookup-insert_ne sn h.serial e' m.entries p ∙ found, owner, mine)
          ]
