-- ===== src/SessionManager/Drops.antt =====
-- A hold that expires, and an entry that is discarded with its timers.
use eufy_sdk.Prelude.{
  ℕ, ◌<◌, ◌≡◌, refl, sym, ap, ◌∙◌, true, false, List, [], ◌∷◌, none, some, ◌==◌, if◌then◌else◌,
  arith, Bool-cases, Option-cases, inl, inr, subst,
}
use eufy_sdk.KeyMap.{
  lookup, delete, has, without, lookup-insert, lookup-delete, lookup-insert_inv, lookup-insert_ne,
  lookup-delete_inv, lookup-delete_self, lookup-delete_ne, has-without, length-without,
  without-IsDistinct,
}
use eufy_sdk.SessionManager.{Entry, Manager, HoldTimer, put, clear_timers, discard}
use eufy_sdk.SessionManager.Invariant.{EntryInv, Inv}
use eufy_sdk.SessionManager.Timers.{same_entry}

pub lookup-clear_timers :
    (t : ℕ) (ts : List ℕ) (live : List (ℕ × HoldTimer))
    → lookup t (clear_timers ts live) ≡ (if has t ts then none else lookup t live)
unfolding has
lookup-clear_timers t [] live = refl
lookup-clear_timers t (u ∷ ts) live =
    ground (arith, lookup-clear_timers t ts (delete u live), lookup-delete u t live)

module _ (sn : ℕ) (m : Manager) (e : Entry) (v : Inv m) (at : lookup sn m.entries ≡ some e) where
  drop_hold-EntryInv :
      (t : ℕ)
      → EntryInv e
      → has t e.hold_timers ≡ true
      → EntryInv (record e { hold_timers = without t e.hold_timers })
  drop_hold-EntryInv t good h =
      let less = length-without t e.hold_timers good.distinct h in
      record {
        idle = good.idle;
        reset = λ r. omega (arith, good.reset r);
        distinct = without-IsDistinct t e.hold_timers good.distinct;
      }

  -- The timer `t` of the entry is spent: it is live no more, and the entry holds it no more.
  pub drop_timer-Inv :
      (t : ℕ)
      → has t e.hold_timers ≡ true
      → Inv (
          put sn
            (record e { hold_timers = without t e.hold_timers })
            (record m { timers = delete t m.timers }))
  drop_timer-Inv t mine = record {
    each = λ k x h. elim (lookup-insert_inv sn k _ x m.entries h) [
      | inl (_, q) ↦
          subst (λ y. EntryInv y × (y.id < m.fresh)) q
            (drop_hold-EntryInv t (v.each sn e at).0 mine, (v.each sn e at).1)
      | inr (_, q) ↦ v.each k x q
    ];
    live = λ u h q.
        let (other, was) = lookup-delete_inv t u h m.timers q in
        let (low, x, found, owner, has_u) = v.live u h was in
        elim (Bool-cases (sn == h.serial)) [
          | inl s ↦
              let xe = same_entry sn m e v at h.serial x s found in
              (
                low,
                record e { hold_timers = without t e.hold_timers },
                ground (
                  arith,
                  s,
                  lookup-insert sn h.serial (record e { hold_timers = without t e.hold_timers })
                      m.entries,
                ),
                ap (λ y. y.id) xe ∙ owner,
                has-without t u e.hold_timers
                    ∙ ground (arith, other, ap (λ y. has u y.hold_timers) xe ∙ has_u),
              )
          | inr s ↦ (low, x, lookup-insert_ne sn h.serial _ m.entries s ∙ found, owner, has_u)
        ];
    owned = λ k u x h q. elim (lookup-insert_inv sn k _ x m.entries h) [
      | inl (p, r) ↦
          let kept = sym (has-without t u e.hold_timers) ∙ ap (λ y. has u y.hold_timers) r ∙ q in
          let other : (t == u) ≡ false = ground (arith, kept) in
          let was : has u e.hold_timers ≡ true = ground (arith, kept) in
          lookup-delete_ne t u m.timers other
          ∙ v.owned sn u e at was
          ∙ ground (arith, p, ap (λ y. y.id) r)
      | inr (p, r) ↦ lookup-delete_ne t u m.timers (others k u x p r q) ∙ v.owned k u x r q
    ];
  }
    where
      others :
          (k u : ℕ) (x : Entry)
          → (sn == k) ≡ false
          → lookup k m.entries ≡ some x
          → has u x.hold_timers ≡ true
          → (t == u) ≡ false
      others k u x p r q = elim (Bool-cases (t == u)) [
        | inl w ↦
            let z : t ≡ u = ground (arith, w) in
            let first = v.owned sn t e at mine in
            let second = v.owned k u x r q in
            absurd (ground (arith, p, sym first ∙ ap (λ j. lookup j m.timers) z ∙ second))
        | inr w ↦ w
      ]

  pub discarded : Manager
  discarded = record m {
    entries = delete sn m.entries;
    timers = clear_timers e.hold_timers m.timers;
  }

  discarded-Inv : Inv discarded
  unfolding discarded
  discarded-Inv = record {
    each = λ k x h. v.each k x (lookup-delete_inv sn k x m.entries h).1;
    live = λ u h q.
        let was : lookup u m.timers ≡ some h =
          ground (arith, q, lookup-clear_timers u e.hold_timers m.timers) in
        let gone : has u e.hold_timers ≡ false =
          ground (arith, q, lookup-clear_timers u e.hold_timers m.timers) in
        let (low, x, found, owner, has_u) = v.live u h was in
        elim (Bool-cases (sn == h.serial)) [
          | inl s ↦ absurd (
              cc (
                gone,
                ap (λ y. has u y.hold_timers) (same_entry sn m e v at h.serial x s found),
                has_u,
              ))
          | inr s ↦ (low, x, lookup-delete_ne sn h.serial m.entries s ∙ found, owner, has_u)
        ];
    owned = λ k u x h q.
        let (p, r) = lookup-delete_inv sn k x m.entries h in
        lookup-clear_timers u e.hold_timers m.timers
        ∙ ground (arith, not_held k u x p r q)
        ∙ v.owned k u x r q;
  }
    where
      not_held :
          (k u : ℕ) (x : Entry)
          → (sn == k) ≡ false
          → lookup k m.entries ≡ some x
          → has u x.hold_timers ≡ true
          → has u e.hold_timers ≡ false
      not_held k u x p r q = elim (Bool-cases (has u e.hold_timers)) [
        | inl w ↦ absurd (ground (arith, p, sym (v.owned sn u e at w) ∙ v.owned k u x r q))
        | inr w ↦ w
      ]

-- `discard` keeps the invariant, and takes the entry off the map.
pub discard-Inv : (sn : ℕ) (m : Manager) → Inv m → Inv (discard sn m).1
unfolding discard discarded
discard-Inv sn m v = elim (Option-cases (lookup sn m.entries)) [
  | inl q ↦ rw (q, discard) v
  | inr (e, q) ↦ rw (q, discard) (discarded-Inv sn m e v q)
]

pub lookup-discard : (sn : ℕ) (m : Manager) → lookup sn (discard sn m).1.entries ≡ none
unfolding discard
lookup-discard sn m = elim (Option-cases (lookup sn m.entries)) [
  | inl q ↦ rw (q, discard) q
  | inr (e, q) ↦ rw (q, discard) (lookup-delete_self sn m.entries)
]
