-- ===== src/VacuumMapStore.antt =====
-- src/model/vacuum-map-store.ts: one robot's map, held as the pieces that the device sends. What a piece
-- says beside its map, its revision and its cells is a number that stands for the rest of it.
pub mod Pieces
pub mod Coherent
pub mod Updates
mod Tests
use eufy_sdk.Prelude.{
  ℕ, Bool, true, false, not, ◌&&◌, ◌||◌, List, [], ◌∷◌, ◌++◌, Option, none, some, ltb, ◌==◌,
  if◌then◌else◌,
}
use eufy_sdk.KeyMap.{lookup, insert}
use eufy_sdk.MapPixels.{
  ℤ, MapPoint, VacuumMapPlane, VacuumRoomOutline, VacuumRoom, VacuumRoomParams, room_at_point,
}

-- `MapPose`: the `MapPoint` that it extends, and the heading.
pub record MapPose : Type 0 where
  pub point : MapPoint
  pub theta : ℤ

pub record VacuumRestrictedZones : Type 0 where
  pub map_id : Option ℕ
  pub releases : ℕ
  pub rest : ℕ

pub record VacuumMapDescription : Type 0 where
  pub map_id : Option ℕ
  pub releases : ℕ
  pub rest : ℕ

pub record VacuumMapSnapshot : Type 0 where
  pub map_id : Option ℕ
  pub plane : Option VacuumMapPlane
  pub outline : Option VacuumRoomOutline
  pub rooms : Option VacuumRoomParams
  pub zones : Option VacuumRestrictedZones
  pub description : Option VacuumMapDescription
  pub pose : Option MapPose

-- `StampedKind`.
pub data StampedKind : Type 0 where
  plane outline rooms zones description : StampedKind

-- The pieces that name a map and a revision.
pub data Stamped : Type 0 where
  of_plane : VacuumMapPlane → Stamped
  of_outline : VacuumRoomOutline → Stamped
  of_rooms : VacuumRoomParams → Stamped
  of_zones : VacuumRestrictedZones → Stamped
  of_description : VacuumMapDescription → Stamped

pub record VacuumMapBackup : Type 0 where
  pub description : Option VacuumMapDescription
  pub map : Option VacuumMapPlane
  pub outline : Option VacuumRoomOutline
  pub rooms : Option VacuumRoomParams
  pub zones : Option VacuumRestrictedZones

-- `VacuumMapPiece`.
pub data VacuumMapPiece : Type 0 where
  stamped : Stamped → VacuumMapPiece
  pose : MapPose → VacuumMapPiece
  backup : VacuumMapBackup → VacuumMapPiece

-- `EMPTY`.
pub empty : VacuumMapSnapshot
empty = record {
  map_id = none;
  plane = none;
  outline = none;
  rooms = none;
  zones = none;
  description = none;
  pose = none;
}

-- The store: `revisions` is keyed by the number of the kind.
pub record Store : Type 0 where
  pub current : VacuumMapSnapshot
  pub revisions : List (ℕ × ℕ)

pub start : Store
start = record { current = empty; revisions = [] }

abbrev pub kind_number : StampedKind → ℕ
kind_number plane = 0
kind_number outline = 1
kind_number rooms = 2
kind_number zones = 3
kind_number description = 4

abbrev pub kind_of : Stamped → StampedKind
kind_of (of_plane v) = plane
kind_of (of_outline v) = outline
kind_of (of_rooms v) = rooms
kind_of (of_zones v) = zones
kind_of (of_description v) = description

abbrev pub map_id_of : Stamped → Option ℕ
map_id_of (of_plane v) = v.map_id
map_id_of (of_outline v) = v.map_id
map_id_of (of_rooms v) = v.map_id
map_id_of (of_zones v) = v.map_id
map_id_of (of_description v) = v.map_id

abbrev pub releases_of : Stamped → ℕ
releases_of (of_plane v) = v.releases
releases_of (of_outline v) = v.releases
releases_of (of_rooms v) = v.releases
releases_of (of_zones v) = v.releases
releases_of (of_description v) = v.releases

-- `{ ...current, [kind]: value }`.
pub with_piece : Stamped → VacuumMapSnapshot → VacuumMapSnapshot
with_piece (of_plane v) s = record s { plane = some v }
with_piece (of_outline v) s = record s { outline = some v }
with_piece (of_rooms v) s = record s { rooms = some v }
with_piece (of_zones v) s = record s { zones = some v }
with_piece (of_description v) s = record s { description = some v }

-- `mapId !== undefined && current.mapId !== undefined && mapId !== current.mapId`.
pub is_switch : Option ℕ → Option ℕ → Bool
is_switch (some a) (some b) = not (a == b)
is_switch _ _ = false

-- `mapId ?? current.mapId`.
abbrev pub or_current : Option ℕ → Option ℕ → Option ℕ
or_current none c = c
or_current (some a) c = some a

-- The reset of a map switch: all but the pose.
pub switched : Option ℕ → Store → Store
switched id s =
    if is_switch id s.current.map_id
    then record { current = record empty { pose = s.current.pose; map_id = id }; revisions = [] }
    else s

-- The revision test.
abbrev is_stale : ℕ → Option ℕ → Bool
is_stale releases none = false
is_stale releases (some seen) = ltb releases seen

-- What `put` does behind the map switch.
pub store_piece : Stamped → Store → Bool × Store
store_piece p s =
    if is_stale (releases_of p) (lookup (kind_number (kind_of p)) s.revisions)
    then (false, s)
    else (
      true,
      record {
        current =
            with_piece p (record s.current { map_id = or_current (map_id_of p) s.current.map_id });
        revisions = insert (kind_number (kind_of p)) (releases_of p) s.revisions;
      },
    )

pub put : Stamped → Store → Bool × Store
put p s = store_piece p (switched (map_id_of p) s)

-- `piecesOf`.
abbrev part {ℓ} : {A : Type ℓ} → (A → Stamped) → Option A → List Stamped
part f none = []
part f (some a) = f a ∷ []

pub pieces_of : VacuumMapBackup → List Stamped
pieces_of b =
    part of_description b.description
    ++ part of_plane b.map
    ++ part of_outline b.outline
    ++ part of_rooms b.rooms
    ++ part of_zones b.zones

-- The loop of `applyBackup`, with `changed` so far.
pub put_all : List Stamped → Bool → Store → Bool × Store
put_all [] changed s = (changed, s)
put_all (p ∷ ps) changed s = let (took, s') = put p s in put_all ps (took || changed) s'

pub apply : VacuumMapPiece → Store → Bool × Store
apply (stamped p) s = put p s
apply (pose at) s = (true, record s { current = record s.current { pose = some at } })
apply (backup b) s = put_all (pieces_of b) false s

pub clear : Store → Store
clear s = start

-- The getter `currentRoom`.
pub current_room : VacuumMapSnapshot → Option VacuumRoom
current_room s = elim s.pose [
  | none ↦ none
  | some at ↦ elim s.outline [
    | none ↦ none
    | some o ↦ elim s.rooms [ none ↦ none | some r ↦ room_at_point o r at.point ]
  ]
]
