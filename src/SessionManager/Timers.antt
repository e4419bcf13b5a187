-- ===== src/SessionManager/Timers.antt =====
-- The writes that change which hold timers are live: a new entry, a new hold, a hold that expires, and
-- an entry that is discarded.
use eufy_sdk.Prelude.{
  ℕ, ◌+◌, ◌<◌, ◌≡◌, refl, sym, ap, ◌∙◌, true, false, [], ◌∷◌, ◌++◌, none, some, ◌==◌, arith,
  Bool-cases, Option-cases, inl, inr, subst,
}
use eufy_sdk.KeyMap.{
  lookup, insert, has, lookup-insert, lookup-insert_inv, lookup-insert_ne, lookup-insert_self,
  has-snoc,
}
use eufy_sdk.SessionManager.{Entry, Manager, HoldTimer, new_entry, put, entry}
use eufy_sdk.SessionManager.Invariant.{EntryInv, Inv}

new_entry-EntryInv : (id : ℕ) → EntryInv (new_entry id)
new_entry-EntryInv id = record { idle = λ e. refl; reset = λ e. absurd (cc); distinct = tt }

-- A serial with no entry gets one that has a new identity.
add_entry-Inv :
    (sn : ℕ) (m : Manager)
    → Inv m
    → lookup sn m.entries ≡ none
    → Inv (put sn (new_entry m.fresh) (record m { fresh = m.fresh + 1 }))
add_entry-Inv sn m v absent = record {
  each = λ k x h. elim (lookup-insert_inv sn k _ x m.entries h) [
    | inl (_, q) ↦
        subst (λ y. EntryInv y × (y.id < m.fresh + 1)) q (new_entry-EntryInv m.fresh, omega arith)
    | inr (_, q) ↦ let (good, low) = v.each k x q in (good, omega arith)
  ];
  live = λ t h q.
      let (low, x, found, owner, mine) = v.live t h q in
      (
        omega arith,
        x,
        lookup-insert_ne sn h.serial _ m.entries (elsewhere h.serial x found) ∙ found,
        owner,
        mine,
      );
  owned = λ k t x h q. elim (lookup-insert_inv sn k _ x m.entries h) [
    | inl (_, r) ↦ absurd (nothing_held t x r q)
    | inr (_, r) ↦ v.owned k t x r q
  ];
}
  where
    elsewhere : (k : ℕ) (x : Entry) → lookup k m.entries ≡ some x → (sn == k) ≡ false
    elsewhere k x found = elim (Bool-cases (sn == k)) [
      | inl e ↦ let same : sn ≡ k = ground (arith, e) in absurd (cc (absent, found, same))
      | inr e ↦ e
    ]

    nothing_held : (t : ℕ) (x : Entry) → new_entry m.fresh ≡ x → has t x.hold_timers ≡ true → ⊥
    nothing_held t x r q = unfold has in cc (ap (λ y. has t y.hold_timers) r, q)

-- `entry` finds the entry or adds one, which is then on the map.
pub entry-Inv :
    (sn : ℕ) (m : Manager)
    → Inv m
    → Inv (entry sn m).1 × (lookup sn (entry sn m).1.entries ≡ some (entry sn m).0)
unfolding entry
entry-Inv sn m v = elim (Option-cases (lookup sn m.entries)) [
  | inl e ↦ rw (e, entry) (add_entry-Inv sn m v e, lookup-insert_self sn _ m.entries)
  | inr (x, e) ↦ rw (e, entry) (v, e)
]

abbrev pub timer_for : ℕ → Entry → HoldTimer
timer_for sn e = record { serial = sn; owner = e.id }

module _ (sn : ℕ) (m : Manager) (e : Entry) (v : Inv m) (at : lookup sn m.entries ≡ some e) where
  -- The next timer's identity is held by nobody.
  pub unheld : (k : ℕ) (x : Entry) → lookup k m.entries ≡ some x → has m.fresh x.hold_timers ≡ false
  unheld k x h = elim (Bool-cases (has m.fresh x.hold_timers)) [
    | inl q ↦ absurd (omega (arith, (v.live m.fresh (timer_for k x) (v.owned k m.fresh x h q)).0))
    | inr q ↦ q
  ]

  pub same_entry : (k : ℕ) (x : Entry) → (sn == k) ≡ true → lookup k m.entries ≡ some x → e ≡ x
  same_entry k x p h =
      let same : sn ≡ k = ground (arith, p) in
      ground (arith, sym at ∙ ap (λ j. lookup j m.entries) same ∙ h)

  -- `e'` is `e` with one more hold, whose timer is new.
  pub add_timer-Inv :
      (e' : Entry)
      → EntryInv e'
      → e'.id ≡ e.id
      → e'.hold_timers ≡ e.hold_timers ++ (m.fresh ∷ [])
      → Inv (
          put sn e'
            (record m { timers = insert m.fresh (timer_for sn e) m.timers; fresh = m.fresh + 1 }))
  add_timer-Inv e' good same_id same_timers = record {
    each = λ k x h. elim (lookup-insert_inv sn k e' x m.entries h) [
      | inl (_, q) ↦
          subst (λ y. EntryInv y × (y.id < m.fresh + 1)) q
            (good, omega (arith, (v.each sn e at).1, same_id))
      | inr (_, q) ↦ let (fine, low) = v.each k x q in (fine, omega arith)
    ];
    live = λ t h q. elim (lookup-insert_inv m.fresh t (timer_for sn e) h m.timers q) [
      | inl (p, r) ↦ (
        omega arith,
        e',
        ap (λ (y : HoldTimer). lookup y.serial (insert sn e' m.entries)) (sym r)
            ∙ lookup-insert_self sn e' m.entries,
        same_id ∙ ap (λ (y : HoldTimer). y.owner) r,
        ap (has t) same_timers ∙ has-snoc t m.fresh e.hold_timers ∙ ground (arith, p),
      )
      | inr (p, r) ↦
          let (low, x, found, owner, mine) = v.live t h r in
          elim (Bool-cases (sn == h.serial)) [
            | inl s ↦
                let xe = same_entry h.serial x s found in
                (
                  omega arith,
                  e',
                  ground (arith, s, lookup-insert sn h.serial e' m.entries),
                  same_id ∙ ap (λ y. y.id) xe ∙ owner,
                  ap (has t) same_timers
                      ∙ has-snoc t m.fresh e.hold_timers
                      ∙ ground (arith, p, ap (λ y. has t y.hold_timers) xe ∙ mine),
                )
            | inr s ↦
                (omega arith, x, lookup-insert_ne sn h.serial e' m.entries s ∙ found, owner, mine)
          ]
    ];
    owned = λ k t x h q. elim (lookup-insert_inv sn k e' x m.entries h) [
      | inl (p, r) ↦ held_after k t x p r q
      | inr (p, r) ↦ lookup-insert_ne m.fresh t _ m.timers (not_new k t x r q) ∙ v.owned k t x r q
    ];
  }
    where
      not_new :
          (k t : ℕ) (x : Entry)
          → lookup k m.entries ≡ some x
          → has t x.hold_timers ≡ true
          → (m.fresh == t) ≡ false
      not_new k t x r q = elim (Bool-cases (m.fresh == t)) [
        | inl w ↦ let z : m.fresh ≡ t = ground (arith, w) in absurd (cc (unheld k x r, z, q))
        | inr w ↦ w
      ]

      held_after :
          (k t : ℕ) (x : Entry)
          → sn ≡ k
          → e' ≡ x
          → has t x.hold_timers ≡ true
          → lookup t (insert m.fresh (timer_for sn e) m.timers) ≡ some (timer_for k x)
      held_after k t x p r q = elim (Bool-cases (m.fresh == t)) [
        | inl w ↦ ground (
          arith,
          w,
          p,
          sym same_id ∙ ap (λ y. y.id) r,
          lookup-insert m.fresh t (timer_for sn e) m.timers,
        )
        | inr w ↦
            let was : has t e.hold_timers ≡ true = ground (
              arith,
              w,
              has-snoc t m.fresh e.hold_timers,
              ap (has t) (sym same_timers ∙ ap (λ y. y.hold_timers) r) ∙ q,
            ) in
            lookup-insert_ne m.fresh t _ m.timers w
            ∙ v.owned sn t e at was
            ∙ ground (arith, p, sym same_id ∙ ap (λ y. y.id) r)
      ]
