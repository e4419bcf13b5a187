-- ===== src/MapPixels.antt =====
-- src/model/map-pixels.ts, and the records of src/model/vacuum-map.ts as far as it reads them. The wire
-- carries whole centimetres: a coordinate is an integer and a resolution a natural number, and `none`
-- or 0 is a resolution that the device omitted.
pub mod Cells
pub mod Points
mod Tests
use eufy_sdk.Prelude.{
  ℕ, zero, suc, ◌+◌, ◌-◌, ◌*◌, ◌/◌, ◌%◌, ◌^◌, Bool, true, false, ◌&&◌, ◌||◌, List, [], ◌∷◌, Option,
  none, some, ltb, leb, ◌==◌, if◌then◌else◌, get_elem?,
}

-- An integer: `pos n` is n and `negsuc n` is -(n + 1).
pub data ℤ : Type 0 where
  pos : ℕ → ℤ
  negsuc : ℕ → ℤ

-- The two natural numbers whose difference an integer is.
abbrev pub pos_part : ℤ → ℕ
pos_part (pos n) = n
pos_part (negsuc n) = 0

abbrev pub neg_part : ℤ → ℕ
neg_part (pos n) = 0
neg_part (negsuc n) = n + 1

-- An integer moved up by `k`.
pub shift : ℤ → ℕ → ℤ
shift (pos n) k = pos (n + k)
shift (negsuc n) k = if leb k n then negsuc (n - k) else pos (k - n - 1)

pub record MapPoint : Type 0 where
  pub x : ℤ
  pub y : ℤ

pub record MapCell : Type 0 where
  pub col : ℤ
  pub row : ℤ

pub record PlacedPlane : Type 0 where
  pub width : ℕ
  pub height : ℕ
  pub resolution : Option ℕ
  pub origin : MapPoint

-- `Math.round((x - o) / r)` for a positive `r`, which is ⌊(2 (x - o) + r) / 2 r⌋.
pub round_offset : ℤ → ℤ → ℕ → ℤ
round_offset x o r =
    let up = 2 * pos_part x + 2 * neg_part o + r in
    let down = 2 * pos_part o + 2 * neg_part x in
    if ltb up down then negsuc ((down - up - 1) / (2 * r)) else pos ((up - down) / (2 * r))

-- Neither below 0 nor at the limit or above it.
abbrev pub is_below : ℤ → ℕ → Bool
is_below (pos n) limit = ltb n limit
is_below (negsuc n) limit = false

-- Behind this test the numbers of a cell are their positive parts.
abbrev in_bounds : ℕ → ℕ → MapCell → Bool
in_bounds width height cell = is_below cell.col width && is_below cell.row height

pub cell_at_point : PlacedPlane → MapPoint → Option MapCell
cell_at_point plane point = elim plane.resolution [
  | none ↦ none
  | some r ↦
      let cell : MapCell = record {
        col = round_offset point.x plane.origin.x r;
        row = round_offset point.y plane.origin.y r;
      } in
      if r == 0 then none else if in_bounds plane.width plane.height cell then some cell else none
]

pub point_at_cell : PlacedPlane → MapCell → Option MapPoint
point_at_cell plane cell = elim plane.resolution [
  | none ↦ none
  | some r ↦
      if r == 0
      then none
      else if in_bounds plane.width plane.height cell
      then some (record {
        x = shift plane.origin.x (pos_part cell.col * r);
        y = shift plane.origin.y (pos_part cell.row * r);
      })
      else none
]

pub data MapCellValue : Type 0 where
  unknown obstacle free carpet : MapCellValue

-- `MAP_CELL_VALUES[n]`, which is read below 4 only.
pub map_cell_values : ℕ → Option MapCellValue
map_cell_values n = get_elem? (unknown ∷ obstacle ∷ free ∷ carpet ∷ []) n

-- A map frame, with the fields that the lookups and the store read.
pub record VacuumMapPlane : Type 0 where
  pub map_id : Option ℕ
  pub releases : ℕ
  pub geometry : PlacedPlane
  pub cells : List ℕ

pub record VacuumRoomOutline : Type 0 where
  pub map_id : Option ℕ
  pub releases : ℕ
  pub placed : PlacedPlane
  pub cells : List ℕ

-- A room, by its id and what else the device says of it.
pub record VacuumRoom : Type 0 where
  pub id : ℕ
  pub rest : ℕ

pub record VacuumRoomParams : Type 0 where
  pub map_id : Option ℕ
  pub releases : ℕ
  pub rooms : List VacuumRoom

-- `(byte >> ((i & 3) * 2)) & 3` of byte `i >> 2`.
pub map_cell_value : VacuumMapPlane → MapCell → Option MapCellValue
map_cell_value map cell =
    let i = pos_part cell.row * map.geometry.width + pos_part cell.col in
    if in_bounds map.geometry.width map.geometry.height cell
    then elim (get_elem? map.cells (i / 4)) [
      | none ↦ none
      | some byte ↦ map_cell_values (byte / 2 ^ (i % 4 * 2) % 4)
    ]
    else none

pub map_cell_value_at : VacuumMapPlane → MapPoint → Option MapCellValue
map_cell_value_at map point = elim (cell_at_point map.geometry point) [
  | none ↦ none
  | some cell ↦ map_cell_value map cell
]

-- A byte's room id: what is left above its two low bits, and 0 is no room.
abbrev id_of_byte : ℕ → Option ℕ
id_of_byte byte = if byte / 4 == 0 then none else some (byte / 4)

pub room_id_at : VacuumRoomOutline → MapCell → Option ℕ
room_id_at outline cell =
    if in_bounds outline.placed.width outline.placed.height cell
    then elim (get_elem? outline.cells
        (pos_part cell.row * outline.placed.width + pos_part cell.col)) [
          | none ↦ none
          | some byte ↦ id_of_byte byte
        ]
    else none

pub room_id_at_point : VacuumRoomOutline → MapPoint → Option ℕ
room_id_at_point outline point = elim (cell_at_point outline.placed point) [
  | none ↦ none
  | some cell ↦ room_id_at outline cell
]

-- `rooms.find((r) => r.id === id)`.
pub find_room : ℕ → List VacuumRoom → Option VacuumRoom
find_room id [] = none
find_room id (r ∷ rs) = if r.id == id then some r else find_room id rs

pub room_at_point : VacuumRoomOutline → VacuumRoomParams → MapPoint → Option VacuumRoom
room_at_point outline rooms point = elim (room_id_at_point outline point) [
  | none ↦ none
  | some id ↦ find_room id rooms.rooms
]
