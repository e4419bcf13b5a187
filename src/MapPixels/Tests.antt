-- ===== src/MapPixels/Tests.antt =====
-- src/model/map-pixels.ts: a plane of three by two cells, whose origin is at (-20, 10).
use eufy_sdk.Prelude.{ℕ, ◌≡◌, refl, List, [], ◌∷◌, some, arith}
use eufy_sdk.MapPixels.{
  pos, negsuc, MapCell, PlacedPlane, cell_at_point, point_at_cell, VacuumMapPlane,
  VacuumRoomOutline, VacuumRoomParams, map_cell_value, map_cell_value_at, map_cell_values,
  room_at_point, find_room,
}
use eufy_sdk.MapPixels.Points.{IsPlaced, anchor, cell_at_point-point_at_cell}
use eufy_sdk.MapPixels.Cells.{pack, map_cell_value-pack, room_at_point-anchor}

abbrev placed : PlacedPlane
placed = record {
  width = 3;
  height = 2;
  resolution = some 5;
  origin = record { x = negsuc 19; y = pos 10 };
}

abbrev corner : MapCell
corner = record { col = pos 2; row = pos 1 }

corner-IsPlaced : IsPlaced placed 5 corner
corner-IsPlaced = record { resolution = refl; positive = omega arith; wide = refl; high = refl }

cell_at_point-point_at_cell_example :
    (point_at_cell placed corner ≡ some (anchor placed 5 corner))
    × (cell_at_point placed (anchor placed 5 corner) ≡ some corner)
cell_at_point-point_at_cell_example = cell_at_point-point_at_cell placed 5 corner corner-IsPlaced

abbrev values : List ℕ
values = 0 ∷ 1 ∷ 2 ∷ 3 ∷ 2 ∷ 1 ∷ []

abbrev map : VacuumMapPlane
map = record { map_id = some 1; releases = 3; geometry = placed; cells = pack values }

map_cell_value-pack_example :
    (map_cell_value map corner ≡ map_cell_values 1)
    × (map_cell_value_at map (anchor placed 5 corner) ≡ map_cell_values 1)
map_cell_value-pack_example =
    map_cell_value-pack map values 5 corner 1 refl (omega arith) corner-IsPlaced refl

abbrev outline : VacuumRoomOutline
outline = record {
  map_id = some 1;
  releases = 3;
  placed = placed;
  cells = 0 ∷ 0 ∷ 0 ∷ 0 ∷ 0 ∷ 19 ∷ [];
}

abbrev rooms : VacuumRoomParams
rooms = record { map_id = some 1; releases = 3; rooms = record { id = 4; rest = 0 } ∷ [] }

room_at_point-anchor_example :
    room_at_point outline rooms (anchor placed 5 corner) ≡ find_room 4 rooms.rooms
room_at_point-anchor_example =
    room_at_point-anchor outline rooms 5 corner 4 3 corner-IsPlaced refl (omega arith) (omega arith)
