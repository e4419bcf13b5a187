-- ===== src/VacuumMapStore/Coherent.antt =====
-- Maps and revisions in the store of src/model/vacuum-map-store.ts.
use eufy_sdk.Prelude.{
  ℕ, ◌≡◌, ◌⊎◌, refl, sym, ◌∙◌, Bool, false, ◌||◌, List, [], ◌∷◌, Option, none, some, ◌==◌, arith,
  Bool-cases, inl, inr, subst,
}
use eufy_sdk.KeyMap.{lookup, lookup-nil, lookup-insert}
use eufy_sdk.VacuumMapStore.{
  VacuumMapSnapshot, StampedKind, plane, outline, rooms, zones, description, Stamped, MapPose,
  VacuumMapPiece, stamped, pose, backup, Store, start, kind_number, kind_of, map_id_of, releases_of,
  is_switch, or_current, switched, put, put_all, pieces_of, apply, clear,
}
use eufy_sdk.VacuumMapStore.Pieces.{
  held, held-with_piece, held-empty, with_piece_rest, switched_same, switched_other, taken,
  put-cases,
}

-- A piece that is held is of its kind, belongs to the map of the store or names none, and is of the
-- last revision taken.
pub record IsHeld (s : Store) (k : StampedKind) (q : Stamped) : Type 0 where
  pub kind : kind_number (kind_of q) ≡ kind_number k
  pub map : (map_id_of q ≡ none) ⊎ (map_id_of q ≡ s.current.map_id)
  pub revision : lookup (kind_number k) s.revisions ≡ some (releases_of q)

pub record Coherent (s : Store) : Type 0 where
  pub each : (k : StampedKind) (q : Stamped) → held k s.current ≡ some q → IsHeld s k q
  pub unseen :
      (k : StampedKind) → held k s.current ≡ none → lookup (kind_number k) s.revisions ≡ none

pub no_switch : (id : Option ℕ) → is_switch id id ≡ false
unfolding is_switch
no_switch none = refl
no_switch (some a) = ground arith

-- What a held piece names is also what the store names after a piece that is no switch.
same_map :
    (p q cur : Option ℕ)
    → is_switch p cur ≡ false
    → ((q ≡ none) ⊎ (q ≡ cur))
    → (q ≡ none) ⊎ (q ≡ or_current p cur)
unfolding is_switch
same_map none q cur e h = h
same_map (some a) q none e h = inl (ground (arith, h))
same_map (some a) q (some b) e h = ground (arith, e, h)

own_map : (p cur : Option ℕ) → (p ≡ none) ⊎ (p ≡ or_current p cur)
own_map none cur = inl refl
own_map (some a) cur = inr refl

switched-no_switch :
    (id : Option ℕ) (s : Store) → is_switch id (switched id s).current.map_id ≡ false
switched-no_switch id s = elim (Bool-cases (is_switch id s.current.map_id)) [
  | inl e ↦ rw (switched_other id s e) (no_switch id)
  | inr e ↦ rw (switched_same id s e) e
]

switched-Coherent : (id : Option ℕ) (s : Store) → Coherent s → Coherent (switched id s)
switched-Coherent id s v = elim (Bool-cases (is_switch id s.current.map_id)) [
  | inl e ↦ rw (switched_other id s e) (record {
    each = λ k q h. absurd (ground (arith, h, held-empty k s id));
    unseen = λ k h. lookup-nil {V = ℕ} (kind_number k);
  })
  | inr e ↦ rw (switched_same id s e) v
]

taken-Coherent :
    (p : Stamped) (s : Store)
    → Coherent s
    → is_switch (map_id_of p) s.current.map_id ≡ false
    → Coherent (taken p s)
taken-Coherent p s v calm =
    let id = or_current (map_id_of p) s.current.map_id in
    let now : (taken p s).current.map_id ≡ id =
      (with_piece_rest p (record s.current { map_id = id })).0 in
    record {
      each = λ k q h. elim (Bool-cases (kind_number (kind_of p) == kind_number k)) [
        | inl y ↦
            let key : kind_number (kind_of p) ≡ kind_number k = ground (arith, y) in
            let same : p ≡ q = ground (arith, y, h, held-with_piece k p s.current id) in
            subst (IsHeld (taken p s) k) same (record {
              kind = key;
              map =
                  subst (λ m. (map_id_of p ≡ none) ⊎ (map_id_of p ≡ m)) (sym now)
                    (own_map (map_id_of p) s.current.map_id);
              revision = ground (
                arith,
                y,
                lookup-insert (kind_number (kind_of p)) (kind_number k) (releases_of p) s.revisions,
              );
            })
        | inr y ↦
            let old : held k s.current ≡ some q =
              ground (arith, y, h, held-with_piece k p s.current id) in
            let was = v.each k q old in
            record {
              kind = was.kind;
              map =
                  subst (λ m. (map_id_of q ≡ none) ⊎ (map_id_of q ≡ m)) (sym now)
                    (same_map (map_id_of p) (map_id_of q) s.current.map_id calm was.map);
              revision = ground (
                arith,
                y,
                was.revision,
                lookup-insert (kind_number (kind_of p)) (kind_number k) (releases_of p) s.revisions,
              );
            }
      ];
      unseen = λ k h. elim (Bool-cases (kind_number (kind_of p) == kind_number k)) [
        | inl y ↦ absurd (ground (arith, y, h, held-with_piece k p s.current id))
        | inr y ↦
            let old : held k s.current ≡ none =
              ground (arith, y, h, held-with_piece k p s.current id) in
            ground (
              arith,
              y,
              v.unseen k old,
              lookup-insert (kind_number (kind_of p)) (kind_number k) (releases_of p) s.revisions,
            )
      ];
    }

put-Coherent : (p : Stamped) (s : Store) → Coherent s → Coherent (put p s).1
put-Coherent p s v = elim (put-cases p s) [
  | inl (e, _, _) ↦ rw e v
  | inr (e, _) ↦ rw e (
      taken-Coherent p (switched (map_id_of p) s) (switched-Coherent (map_id_of p) s v)
        (switched-no_switch (map_id_of p) s))
]

put_all-Coherent :
    (ps : List Stamped) (changed : Bool) (s : Store)
    → Coherent s
    → Coherent (put_all ps changed s).1
unfolding put_all
put_all-Coherent [] changed s v = v
put_all-Coherent (p ∷ ps) changed s v =
    put_all-Coherent ps ((put p s).0 || changed) (put p s).1 (put-Coherent p s v)

apply-Coherent : (p : VacuumMapPiece) (s : Store) → Coherent s → Coherent (apply p s).1
unfolding apply
apply-Coherent (stamped p) s v = put-Coherent p s v
apply-Coherent (pose at) s v = record {
  each = λ k q h.
      let was = v.each k q (sym (held-pose k s.current at) ∙ h) in
      record { kind = was.kind; map = was.map; revision = was.revision };
  unseen = λ k h. v.unseen k (sym (held-pose k s.current at) ∙ h);
}
  where
    held-pose :
        (k : StampedKind) (c : VacuumMapSnapshot) (at : MapPose)
        → held k (record c { pose = some at }) ≡ held k c
    held-pose plane c at = refl
    held-pose outline c at = refl
    held-pose rooms c at = refl
    held-pose zones c at = refl
    held-pose description c at = refl
apply-Coherent (backup b) s v = put_all-Coherent (pieces_of b) false s v

-- The stores that a sequence of pieces and clears leads to.
pub data Reach : Store → Type 0 where
  here : Reach start
  applies : {s : Store} (p : VacuumMapPiece) → Reach s → Reach (apply p s).1
  clears : {s : Store} → Reach s → Reach (clear s)

start-Coherent : Coherent start
unfolding start
start-Coherent = record {
  each = λ k q h. absurd (ground (arith, h, held-empty k start none));
  unseen = λ k h. lookup-nil {V = ℕ} (kind_number k);
}

-- Whatever the pieces and their order, every piece that the store holds names the store's map or none,
-- is held under its own kind, and is of the last revision taken of its kind; and of a kind that it does
-- not hold it remembers no revision.
pub Reach-Coherent : {s : Store} → Reach s → Coherent s
unfolding clear
Reach-Coherent here = start-Coherent
Reach-Coherent (applies p r) = apply-Coherent p _ (Reach-Coherent r)
Reach-Coherent (clears r) = start-Coherent
