-- ===== src/VacuumMapStore/Pieces.antt =====
-- The pieces that the store of src/model/vacuum-map-store.ts holds, by their kind.
use eufy_sdk.Prelude.{
  ℕ, ◌≡◌, refl, true, false, [], Option, none, some, ◌==◌, if◌then◌else◌, ◌⊎◌, Bool-cases, inl, inr,
}
use eufy_sdk.KeyMap.{lookup, insert, lookup-nil}
use eufy_sdk.VacuumMapStore.{
  VacuumMapSnapshot, StampedKind, plane, outline, rooms, zones, description, Stamped, of_plane,
  of_outline, of_rooms, of_zones, of_description, empty, Store, kind_number, kind_of, map_id_of,
  releases_of, with_piece, is_switch, or_current, switched, is_stale, store_piece, put,
}

abbrev pub held_as {ℓ} : {A : Type ℓ} → (A → Stamped) → Option A → Option Stamped
held_as f none = none
held_as f (some a) = some (f a)

-- The piece of a kind that a snapshot holds.
abbrev pub held : StampedKind → VacuumMapSnapshot → Option Stamped
held plane s = held_as of_plane s.plane
held outline s = held_as of_outline s.outline
held rooms s = held_as of_rooms s.rooms
held zones s = held_as of_zones s.zones
held description s = held_as of_description s.description

pub held-with_piece :
    (k : StampedKind) (p : Stamped) (s : VacuumMapSnapshot) (id : Option ℕ)
    → held k (with_piece p (record s { map_id = id }))
      ≡ (if kind_number (kind_of p) == kind_number k then some p else held k s)
unfolding with_piece
held-with_piece plane (of_plane v) s id = refl
held-with_piece plane (of_outline v) s id = refl
held-with_piece plane (of_rooms v) s id = refl
held-with_piece plane (of_zones v) s id = refl
held-with_piece plane (of_description v) s id = refl
held-with_piece outline (of_plane v) s id = refl
held-with_piece outline (of_outline v) s id = refl
held-with_piece outline (of_rooms v) s id = refl
held-with_piece outline (of_zones v) s id = refl
held-with_piece outline (of_description v) s id = refl
held-with_piece rooms (of_plane v) s id = refl
held-with_piece rooms (of_outline v) s id = refl
held-with_piece rooms (of_rooms v) s id = refl
held-with_piece rooms (of_zones v) s id = refl
held-with_piece rooms (of_description v) s id = refl
held-with_piece zones (of_plane v) s id = refl
held-with_piece zones (of_outline v) s id = refl
held-with_piece zones (of_rooms v) s id = refl
held-with_piece zones (of_zones v) s id = refl
held-with_piece zones (of_description v) s id = refl
held-with_piece description (of_plane v) s id = refl
held-with_piece description (of_outline v) s id = refl
held-with_piece description (of_rooms v) s id = refl
held-with_piece description (of_zones v) s id = refl
held-with_piece description (of_description v) s id = refl

pub held-empty :
    (k : StampedKind) (s : Store) (id : Option ℕ)
    → held k (record empty { pose = s.current.pose; map_id = id }) ≡ none
unfolding empty
held-empty plane s id = refl
held-empty outline s id = refl
held-empty rooms s id = refl
held-empty zones s id = refl
held-empty description s id = refl

pub with_piece_rest :
    (p : Stamped) (s : VacuumMapSnapshot)
    → ((with_piece p s).map_id ≡ s.map_id) × ((with_piece p s).pose ≡ s.pose)
unfolding with_piece
with_piece_rest (of_plane v) s = (refl, refl)
with_piece_rest (of_outline v) s = (refl, refl)
with_piece_rest (of_rooms v) s = (refl, refl)
with_piece_rest (of_zones v) s = (refl, refl)
with_piece_rest (of_description v) s = (refl, refl)

with_piece_twice :
    (p : Stamped) (s : VacuumMapSnapshot) (id : Option ℕ)
    → with_piece p (record (with_piece p (record s { map_id = id })) { map_id = id })
      ≡ with_piece p (record s { map_id = id })
unfolding with_piece
with_piece_twice (of_plane v) s id = refl
with_piece_twice (of_outline v) s id = refl
with_piece_twice (of_rooms v) s id = refl
with_piece_twice (of_zones v) s id = refl
with_piece_twice (of_description v) s id = refl

pub switched_same :
    (id : Option ℕ) (s : Store) → is_switch id s.current.map_id ≡ false → switched id s ≡ s
unfolding switched
switched_same id s e = rw e

pub switched_other :
    (id : Option ℕ) (s : Store)
    → is_switch id s.current.map_id ≡ true
    → switched id s
      ≡ (record { current = record empty { pose = s.current.pose; map_id = id }; revisions = [] })
unfolding switched
switched_other id s e = rw e

-- What `store_piece` leaves behind where it takes the piece.
abbrev pub taken : Stamped → Store → Store
taken p s = record {
  current = with_piece p (record s.current { map_id = or_current (map_id_of p) s.current.map_id });
  revisions = insert (kind_number (kind_of p)) (releases_of p) s.revisions;
}

-- The two ways in which `put` ends: the piece is stale and nothing changes, or it is taken.
pub put-cases :
    (p : Stamped) (s : Store)
    → ((put p s ≡ (false, s))
        × (is_switch (map_id_of p) s.current.map_id ≡ false)
        × (is_stale (releases_of p) (lookup (kind_number (kind_of p)) s.revisions) ≡ true))
      ⊎ ((put p s ≡ (true, taken p (switched (map_id_of p) s)))
          × (is_stale
                (releases_of p)
                (lookup (kind_number (kind_of p)) (switched (map_id_of p) s).revisions)
              ≡ false))
unfolding put store_piece
put-cases p s = elim (Bool-cases (is_switch (map_id_of p) s.current.map_id)) [
  | inl e ↦
      let is = switched_other (map_id_of p) s e in
      let new : is_stale (releases_of p)
            (lookup (kind_number (kind_of p)) (switched (map_id_of p) s).revisions)
          ≡ false =
        rw (is, lookup-nil {V = ℕ} (kind_number (kind_of p))) in
      inr (rw new, new)
  | inr e ↦
      let is = switched_same (map_id_of p) s e in
      elim (Bool-cases (is_stale (releases_of p) (lookup (kind_number (kind_of p)) s.revisions))) [
        | inl y ↦ inl (rw (is, y), e, y)
        | inr y ↦ inr (rw (is, y), rw (is, y))
      ]
]
