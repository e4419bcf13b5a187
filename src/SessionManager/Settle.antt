-- ===== src/SessionManager/Settle.antt =====
-- What becomes of an open of src/transport/p2p/session-manager.ts: who shares it, and what supersedes it.
use eufy_sdk.Prelude.{
  ℕ, ◌<◌, ◌≤◌, ◌≡◌, refl, sym, ap, ◌∙◌, subst, true, false, ◌&&◌, [], ◌∷◌, Option, none, some, ◌==◌,
  arith, Bool-cases, Option-cases, inl, inr,
}
use eufy_sdk.KeyMap.{lookup, insert, lookup-insert, lookup-insert_self}
use eufy_sdk.SessionManager.{Entry, Manager, closed, put, get, session_of, entry, close_all}
use eufy_sdk.SessionManager.Opens.{
  Open, Started, joined, already_open, opening, superseded, opened, bump, is_current, on_owner,
  settle_connecting, or_else, adopt, acquire, start_open, register_early, open_resolves,
}
use eufy_sdk.SessionManager.Reach.{Step}
use eufy_sdk.SessionManager.Generations.{
  acquire-Keeps, entry-Keeps, close_all-generation, Step-generation,
}

-- An entry put back with the same session changes no station's session.
get-put_same :
    (sn : ℕ) (m : Manager) (e e' : Entry)
    → lookup sn m.entries ≡ some e
    → e'.session ≡ e.session
    → (k : ℕ) → get k (put sn e' m) ≡ get k m
unfolding get
get-put_same sn m e e' at same k = elim (Bool-cases (sn == k)) [
  | inl y ↦
      let key : sn ≡ k = ground (arith, y) in
      let new : lookup k (insert sn e' m.entries) ≡ some e' =
        ground (arith, y, lookup-insert sn k e' m.entries) in
      let old : lookup k m.entries ≡ some e = ap (λ j. lookup j m.entries) (sym key) ∙ at in
      ap session_of new ∙ same ∙ sym (ap session_of old)
  | inr y ↦
      let new : lookup k (insert sn e' m.entries) ≡ lookup k m.entries =
        ground (arith, y, lookup-insert sn k e' m.entries) in
      ap session_of new
]

-- Any number of steps.
pub data Later (m : Manager) : Manager → Type 0 where
  now : Later m m
  after : {n k : Manager} → Later m n → Step n k → Later m k

Later-generation : {m n : Manager} → Later m n → m.generation ≤ n.generation
Later-generation now = omega arith
Later-generation (after l step) = omega (arith, Later-generation l, Step-generation step)

-- An open of an earlier generation closes the session that it built.
resolves_late :
    (o : Open) (s : ℕ) (m : Manager)
    → o.generation < m.generation
    → ((open_resolves o s m).0 ≡ superseded)
      × ((open_resolves o s m).2 ≡ closed s ∷ [])
      × ((k : ℕ) → get k (open_resolves o s m).1 ≡ get k m)
unfolding open_resolves
resolves_late o s m h =
    let z : ((o.generation == m.generation) && is_current o m) ≡ false = ground (arith, h) in
    rw z (refl, refl, unchanged)
  where
    unchanged : (k : ℕ) → get k (on_owner o (settle_connecting o.promise) m) ≡ get k m
    unchanged k = elim (Option-cases (lookup o.serial m.entries)) [
      | inl q ↦ unfold on_owner in rw (q, on_owner)
      | inr (e, q) ↦ elim (Bool-cases (e.id == o.owner)) [
        | inr y ↦ unfold on_owner in rw (q, on_owner, y)
        | inl y ↦
            unfold on_owner in
            rw (q, on_owner, y) (get-put_same o.serial m e (settle_connecting o.promise e) q refl k)
      ]
    ]

abbrev generation_of : Started → ℕ → ℕ
generation_of (joined p) n = n
generation_of (already_open s) n = n
generation_of (opening o) n = o.generation

start_open-generation :
    (sn : ℕ) (e : Entry) (c session : Option ℕ) (m : Manager)
    → generation_of (start_open sn e c session m).0 m.generation ≡ m.generation
unfolding start_open
start_open-generation sn e (some p) session m = refl
start_open-generation sn e none (some s) m = refl
start_open-generation sn e none none m = refl

acquire-generation :
    (sn : ℕ) (o : Open) (m : Manager)
    → (acquire sn m).0 ≡ opening o
    → o.generation ≡ (acquire sn m).1.generation
unfolding acquire
acquire-generation sn o m h =
    let e = (entry sn m).0 in
    let m' = (entry sn m).1 in
    sym (ap (λ x. generation_of x m'.generation) h)
    ∙ start_open-generation sn e e.connecting e.session m'
    ∙ entry-Keeps sn m
    ∙ sym (acquire-Keeps sn m)

-- An open that is in flight when `closeAll` is called never installs its session, whatever happened
-- before the call and whatever happens after it, a new entry for the station included: when its factory
-- resolves, it is superseded, the session that it built is closed, and no station's session changes.
pub close_all_supersedes :
    (sn s : ℕ) (o : Open) (m : Manager) {before later : Manager}
    → (acquire sn m).0 ≡ opening o
    → Later (acquire sn m).1 before
    → Later (close_all before).0 later
    → ((open_resolves o s later).0 ≡ superseded)
      × ((open_resolves o s later).2 ≡ closed s ∷ [])
      × ((k : ℕ) → get k (open_resolves o s later).1 ≡ get k later)
close_all_supersedes sn s o m {before} {later} started upto since = resolves_late o s later (
    omega (
      arith,
      acquire-generation sn o m started,
      Later-generation upto,
      close_all-generation before,
      Later-generation since,
    ))

-- What the caller of an open is given, and those who come while it is in flight and after it.
abbrev pub Shares : ℕ → Manager → Open → Type 0
Shares sn m o =
    (acquire sn m ≡ (joined o.promise, m))
    × ((s : ℕ)
        → ((open_resolves o s m).0 ≡ opened (some s))
          × ((acquire sn (open_resolves o s m).1).0 ≡ already_open s))
    × ((r s : ℕ)
        → ((acquire sn (register_early o r m)) ≡ (joined o.promise, register_early o r m))
          × ((open_resolves o s (register_early o r m)).0 ≡ opened (some r))
          × ((acquire sn (open_resolves o s (register_early o r m)).1).0 ≡ already_open r))

-- `acquire` on an entry that is there.
acquire_at :
    (sn : ℕ) (e : Entry) (m : Manager)
    → lookup sn m.entries ≡ some e
    → acquire sn m ≡ start_open sn e e.connecting e.session m
unfolding acquire entry
acquire_at sn e m at = rw (at, entry) refl

-- A factory that resolves for the entry that is there under its open.
resolves_at :
    (sn p s : ℕ) (e : Entry) (m : Manager)
    → lookup sn m.entries ≡ some e
    → let o : Open = record { serial = sn; owner = e.id; generation = m.generation; promise = p } in
      open_resolves o s m
      ≡ (opened (some (or_else e.session s)), put sn (settle_connecting p (adopt s e)) m, [])
unfolding open_resolves is_current on_owner get
resolves_at sn p s e m at =
    let same : (m.generation == m.generation) ≡ true = ground arith in
    let mine : (e.id == e.id) ≡ true = ground arith in
    rw
      (
        at,
        same,
        is_current,
        mine,
        on_owner,
        lookup-insert_self sn (settle_connecting p (adopt s e)) m.entries,
      )
      refl

abbrev open_of : Open → Started → Open
open_of o (joined p) = o
open_of o (already_open s) = o
open_of o (opening o') = o'

-- The open in flight of an entry that is there: it resolves, and then the session is there to reuse.
module _ (sn p : ℕ) (e : Entry) (m : Manager) where
  flight : Open
  flight = record { serial = sn; owner = e.id; generation = m.generation; promise = p }

  joins_at : lookup sn m.entries ≡ some e → e.connecting ≡ some p → acquire sn m ≡ (joined p, m)
  unfolding start_open
  joins_at at flying = acquire_at sn e m at ∙ rw flying refl

  reuses_at :
      (s : ℕ)
      → lookup sn m.entries ≡ some e
      → e.connecting ≡ some p
      → ((open_resolves flight s m).0 ≡ opened (some (or_else e.session s)))
        × ((acquire sn (open_resolves flight s m).1).0 ≡ already_open (or_else e.session s))
  unfolding flight start_open
  reuses_at s at flying =
      let e' = settle_connecting p (adopt s e) in
      let idle : e'.connecting ≡ none = ground (arith, flying) in
      let settles : acquire sn (put sn e' m) ≡ (already_open (or_else e.session s), put sn e' m) =
        acquire_at sn e' (put sn e' m) (lookup-insert_self sn e' m.entries) ∙ (rw idle refl) in
      rw (resolves_at sn p s e m at) (refl, ap (λ (x : Started × Manager). x.0) settles)

  registers_at :
      (r : ℕ)
      → lookup sn m.entries ≡ some e
      → register_early flight r m ≡ put sn (record e { session = some r }) m
  unfolding flight register_early on_owner
  registers_at r at =
      let mine : (e.id == e.id) ≡ true = ground arith in rw (at, on_owner, mine) refl

start_open-Shares :
    (sn : ℕ) (e : Entry) (c session : Option ℕ) (m : Manager) (o : Open)
    → e.session ≡ session
    → (start_open sn e c session m).0 ≡ opening o
    → Shares sn (start_open sn e c session m).1 o
unfolding start_open flight
start_open-Shares sn e (some p) session m o t h = absurd (cc h)
start_open-Shares sn e none (some x) m o t h = absurd (cc h)
start_open-Shares sn e none none m o t h =
    let p = m.fresh in
    let e1 : Entry = record e { connecting = some p } in
    let m1 = put sn e1 (bump m) in
    let at = lookup-insert_self sn e1 m.entries in
    subst (Shares sn m1) (ap (open_of o) h) (
      joins_at sn p e1 m1 at refl,
      (λ s.
          subst
            (λ v.
              ((open_resolves (flight sn p e1 m1) s m1).0 ≡ opened (some v))
              × ((acquire sn (open_resolves (flight sn p e1 m1) s m1).1).0 ≡ already_open v))
            (ap (λ x. or_else x s) t) (reuses_at sn p e1 m1 s at refl)),
      (λ r s.
          let e2 : Entry = record e1 { session = some r } in
          let there = lookup-insert_self sn e2 m1.entries in
          let (got, reused) = reuses_at sn p e2 (put sn e2 m1) s there refl in
          rw (registers_at sn p e1 m1 r at)
            (joins_at sn p e2 (put sn e2 m1) there refl, got, reused)),
    )

-- An open of a cold station is shared: a call that comes next joins it, and when its factory resolves
-- with nothing else between, its caller is handed the session that it built, and so is a call after
-- that. The same holds where the factory registered a session early, which is handed out in its place.
pub open_is_shared :
    (sn : ℕ) (o : Open) (m : Manager) → (acquire sn m).0 ≡ opening o → Shares sn (acquire sn m).1 o
unfolding acquire
open_is_shared sn o m h =
    let e = (entry sn m).0 in start_open-Shares sn e e.connecting e.session (entry sn m).1 o refl h
