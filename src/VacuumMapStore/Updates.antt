-- ===== src/VacuumMapStore/Updates.antt =====
-- What one piece does to the store of src/model/vacuum-map-store.ts.
use eufy_sdk.Prelude.{
  ℕ, ◌≡◌, refl, sym, ap, ◌∙◌, Bool, true, false, ◌||◌, List, [], ◌∷◌, Option, none, some, ◌==◌,
  if◌then◌else◌, arith, Bool-cases, inl, inr,
}
use eufy_sdk.KeyMap.{lookup, insert, lookup-insert_self, insert_same}
use eufy_sdk.VacuumMapStore.{
  VacuumMapSnapshot, StampedKind, Stamped, of_plane, of_outline, of_rooms, of_zones, of_description,
  VacuumMapPiece, stamped, pose, backup, empty, Store, kind_number, kind_of, map_id_of, releases_of,
  with_piece, is_switch, or_current, switched, is_stale, put, put_all, pieces_of, apply,
}
use eufy_sdk.VacuumMapStore.Pieces.{
  held, held-with_piece, held-empty, with_piece_rest, switched_same, switched_other, taken,
  put-cases,
}

put-false : (p : Stamped) (s : Store) → (put p s).0 ≡ false → (put p s).1 ≡ s
put-false p s h = elim (put-cases p s) [
  | inl (e, _, _) ↦ ap (λ (x : Bool × Store). x.1) e
  | inr (e, _) ↦ absurd (cc (h, ap (λ (x : Bool × Store). x.0) e))
]

put_all-true : (ps : List Stamped) (s : Store) → (put_all ps true s).0 ≡ true
unfolding put_all
put_all-true [] s = refl
put_all-true (p ∷ ps) s = elim (Bool-cases (put p s).0) [
  | inl e ↦ rw (e, put_all) (put_all-true ps (put p s).1)
  | inr e ↦ rw (e, put_all) (put_all-true ps (put p s).1)
]

put_all-false :
    (ps : List Stamped) (s : Store) → (put_all ps false s).0 ≡ false → (put_all ps false s).1 ≡ s
unfolding put_all
put_all-false [] s h = refl
put_all-false (p ∷ ps) s h = elim (Bool-cases (put p s).0) [
  | inl e ↦ absurd (
      cc (
        put_all-true ps (put p s).1,
        sym (ap (λ c. (put_all ps (c || false) (put p s).1).0) e) ∙ h,
      ))
  | inr e ↦
      let same = put-false p s e in
      let rest : (put_all ps false (put p s).1).0 ≡ false =
        sym (ap (λ c. (put_all ps (c || false) (put p s).1).0) e) ∙ h in
      rw (e, put_all) (put_all-false ps (put p s).1 rest ∙ same)
]

-- Where `apply` answers false, for whichever kind of piece, the store is as it was.
pub apply-false : (p : VacuumMapPiece) (s : Store) → (apply p s).0 ≡ false → (apply p s).1 ≡ s
unfolding apply
apply-false (stamped p) s h = put-false p s h
apply-false (pose at) s h = absurd (ground (arith, h))
apply-false (backup b) s h = put_all-false (pieces_of b) s h

-- A piece of another map is always taken: the store then names its map, holds it and no other piece,
-- and keeps the pose.
pub put_switch :
    (p : Stamped) (s : Store)
    → is_switch (map_id_of p) s.current.map_id ≡ true
    → ((put p s).0 ≡ true)
      × ((put p s).1.current.map_id ≡ map_id_of p)
      × ((put p s).1.current.pose ≡ s.current.pose)
      × ((k : StampedKind)
          → held k (put p s).1.current
            ≡ (if kind_number (kind_of p) == kind_number k then some p else none))
put_switch p s h = elim (put-cases p s) [
  | inl (_, e, _) ↦ absurd (cc (h, e))
  | inr (e, _) ↦
      let is = switched_other (map_id_of p) s h in
      let id = or_current (map_id_of p) (map_id_of p) in
      let base : VacuumMapSnapshot = record empty { pose = s.current.pose; map_id = map_id_of p } in
      let new : (put p s).1.current ≡ with_piece p (record base { map_id = id }) =
        ap (λ (x : Bool × Store). x.1.current) e ∙ ap (λ z. (taken p z).current) is in
      let (now, there) = with_piece_rest p (record base { map_id = id }) in
      (
        ap (λ (x : Bool × Store). x.0) e,
        ap (λ (x : VacuumMapSnapshot). x.map_id) new ∙ now ∙ once (map_id_of p),
        ap (λ (x : VacuumMapSnapshot). x.pose) new ∙ there,
        λ k.
            ap (held k) new
            ∙ held-with_piece k p base id
            ∙ ground (arith, held-empty k s (map_id_of p)),
      )
]
  where
    once : (i : Option ℕ) → or_current i i ≡ i
    once none = refl
    once (some a) = refl

again : (id cur : Option ℕ) → or_current id (or_current id cur) ≡ or_current id cur
again none cur = refl
again (some a) cur = refl

insert_again : (k v : ℕ) (m : List (ℕ × ℕ)) → insert k v (insert k v m) ≡ insert k v m
insert_again k v m = insert_same k v (insert k v m) (lookup-insert_self k v m)

taken_twice : (p : Stamped) (s : Store) → taken p (taken p s) ≡ taken p s
unfolding with_piece
taken_twice (of_plane v) s =
    rw (again v.map_id s.current.map_id, insert_again 0 v.releases s.revisions)
taken_twice (of_outline v) s =
    rw (again v.map_id s.current.map_id, insert_again 1 v.releases s.revisions)
taken_twice (of_rooms v) s =
    rw (again v.map_id s.current.map_id, insert_again 2 v.releases s.revisions)
taken_twice (of_zones v) s =
    rw (again v.map_id s.current.map_id, insert_again 3 v.releases s.revisions)
taken_twice (of_description v) s =
    rw (again v.map_id s.current.map_id, insert_again 4 v.releases s.revisions)

calm_after : (id cur : Option ℕ) → is_switch id (or_current id cur) ≡ false
unfolding is_switch
calm_after none cur = refl
calm_after (some a) cur = ground arith

-- The repeat of a piece that was just taken is taken as well, and leaves the store as it is.
pub put_repeat :
    (p : Stamped) (s : Store) → (put p s).0 ≡ true → put p (put p s).1 ≡ (true, (put p s).1)
put_repeat p s h = elim (put-cases p s) [
  | inl (e, _, _) ↦ absurd (cc (h, ap (λ (x : Bool × Store). x.0) e))
  | inr (e, _) ↦ rw e (repeated (switched (map_id_of p) s))
]
  where
    repeated : (z : Store) → put p (taken p z) ≡ (true, taken p z)
    repeated z =
        let id = or_current (map_id_of p) z.current.map_id in
        let named : (taken p z).current.map_id ≡ id =
          (with_piece_rest p (record z.current { map_id = id })).0 in
        let calm : is_switch (map_id_of p) (taken p z).current.map_id ≡ false =
          ap (is_switch (map_id_of p)) named ∙ calm_after (map_id_of p) z.current.map_id in
        let is = switched_same (map_id_of p) (taken p z) calm in
        let seen = lookup-insert_self (kind_number (kind_of p)) (releases_of p) z.revisions in
        let new : is_stale (releases_of p) (lookup (kind_number (kind_of p)) (taken p z).revisions)
            ≡ false =
          ap (is_stale (releases_of p)) seen ∙ ground arith in
        elim (put-cases p (taken p z)) [
          | inl (_, _, stale) ↦ absurd (cc (new, stale))
          | inr (e, _) ↦ e ∙ ap (λ (x : Store). (true, x)) (ap (taken p) is ∙ taken_twice p z)
        ]
