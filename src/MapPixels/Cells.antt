-- ===== src/MapPixels/Cells.antt =====
-- The packed planes of src/model/map-pixels.ts, against an encoder that packs them as they say.
use eufy_sdk.Prelude.{
  ℕ, zero, suc, ◌+◌, ◌*◌, ◌/◌, ◌%◌, ◌^◌, ◌<◌, ◌≡◌, refl, ap, ◌∙◌, false, List, [], ◌∷◌, some, arith,
  ◌==◌, get_elem?, All,
}
use eufy_sdk.MapPixels.{
  pos_part, MapCell, map_cell_values, VacuumMapPlane, VacuumRoomOutline, VacuumRoomParams,
  map_cell_value, map_cell_value_at, room_id_at, room_id_at_point, room_at_point, find_room,
}
use eufy_sdk.MapPixels.Points.{IsPlaced, anchor, cell_at_point-point_at_cell}

-- Four two-bit values to a byte, the first one lowest.
unfoldable pub pack : List ℕ → List ℕ
pack [] = []
pack (a ∷ []) = a ∷ []
pack (a ∷ b ∷ []) = (a + 4 * b) ∷ []
pack (a ∷ b ∷ c ∷ []) = (a + 4 * b + 16 * c) ∷ []
pack (a ∷ b ∷ c ∷ d ∷ vs) = (a + 4 * b + 16 * c + 64 * d) ∷ pack vs

abbrev pub IsTwoBit : ℕ → Type 0
IsTwoBit v = v < 4

-- The byte that holds the i-th value, and the value in it.
pack-get :
    (vs : List ℕ) (i v : ℕ)
    → All IsTwoBit vs
    → get_elem? vs i ≡ some v
    → (byte : ℕ) × (get_elem? (pack vs) (i / 4) ≡ some byte) × (byte / 2 ^ (i % 4 * 2) % 4 ≡ v)
unfolding pack
pack-get [] i v h e = absurd (ground (arith, e))
pack-get (a ∷ []) zero v (ha, _) e = (a, refl, ground (arith, e))
pack-get (a ∷ []) (suc i) v (ha, _) e = absurd (ground (arith, e))
pack-get (a ∷ b ∷ []) zero v (ha, (hb, _)) e = (_, refl, ground (arith, e))
pack-get (a ∷ b ∷ []) (suc zero) v (ha, (hb, _)) e = (_, refl, ground (arith, e))
pack-get (a ∷ b ∷ []) (suc (suc i)) v h e = absurd (ground (arith, e))
pack-get (a ∷ b ∷ c ∷ []) zero v (ha, (hb, (hc, _))) e = (_, refl, ground (arith, e))
pack-get (a ∷ b ∷ c ∷ []) (suc zero) v (ha, (hb, (hc, _))) e = (_, refl, ground (arith, e))
pack-get (a ∷ b ∷ c ∷ []) (suc (suc zero)) v (ha, (hb, (hc, _))) e = (_, refl, ground (arith, e))
pack-get (a ∷ b ∷ c ∷ []) (suc (suc (suc i))) v h e = absurd (ground (arith, e))
pack-get (a ∷ b ∷ c ∷ d ∷ vs) zero v (ha, (hb, (hc, (hd, _)))) e = (_, refl, ground (arith, e))
pack-get (a ∷ b ∷ c ∷ d ∷ vs) (suc zero) v (ha, (hb, (hc, (hd, _)))) e =
    (_, refl, ground (arith, e))
pack-get (a ∷ b ∷ c ∷ d ∷ vs) (suc (suc zero)) v (ha, (hb, (hc, (hd, _)))) e =
    (_, refl, ground (arith, e))
pack-get (a ∷ b ∷ c ∷ d ∷ vs) (suc (suc (suc zero))) v (ha, (hb, (hc, (hd, _)))) e =
    (_, refl, ground (arith, e))
pack-get (a ∷ b ∷ c ∷ d ∷ vs) (suc (suc (suc (suc i)))) v (_, (_, (_, (_, h)))) e =
    let (byte, found, is) = pack-get vs i v h e in
    let above : suc (suc (suc (suc i))) / 4 ≡ suc (i / 4) = omega arith in
    let within : suc (suc (suc (suc i))) % 4 ≡ i % 4 = omega arith in
    (byte, rw above found, rw within is)

-- In a map whose plane is packed, the lookup at a cell, and the one at the world position of the cell's
-- anchor, find the value that was packed for the cell: that of row times width plus column.
pub map_cell_value-pack :
    (map : VacuumMapPlane) (vs : List ℕ) (r : ℕ) (cell : MapCell) (v : ℕ)
    → map.cells ≡ pack vs
    → All IsTwoBit vs
    → IsPlaced map.geometry r cell
    → get_elem? vs (pos_part cell.row * map.geometry.width + pos_part cell.col) ≡ some v
    → (map_cell_value map cell ≡ map_cell_values v)
      × (map_cell_value_at map (anchor map.geometry r cell) ≡ map_cell_values v)
unfolding map_cell_value map_cell_value_at
map_cell_value-pack map vs r cell v packed small placed at =
    let i = pos_part cell.row * map.geometry.width + pos_part cell.col in
    let (byte, found, is) = pack-get vs i v small at in
    let w = placed.wide in
    let t = placed.high in
    let there = ap (λ cs. get_elem? cs (i / 4)) packed ∙ found in
    let back = (cell_at_point-point_at_cell map.geometry r cell placed).1 in
    let here : map_cell_value map cell ≡ map_cell_values v = rw (w, t, there, map_cell_value, is) in
    (here, rw (back, map_cell_value_at) here)

-- Where the outline's byte for a cell carries the room id, which is not 0, above two bits of sub-type,
-- the room at the world position of the cell's anchor is the first of the list with that id.
pub room_at_point-anchor :
    (outline : VacuumRoomOutline) (rooms : VacuumRoomParams) (r : ℕ) (cell : MapCell) (id sub : ℕ)
    → IsPlaced outline.placed r cell
    → get_elem? outline.cells (pos_part cell.row * outline.placed.width + pos_part cell.col)
      ≡ some (4 * id + sub)
    → IsTwoBit sub
    → 0 < id
    → room_at_point outline rooms (anchor outline.placed r cell) ≡ find_room id rooms.rooms
unfolding room_at_point room_id_at_point room_id_at
room_at_point-anchor outline rooms r cell id sub placed at small some_room =
    let w = placed.wide in
    let t = placed.high in
    let back = (cell_at_point-point_at_cell outline.placed r cell placed).1 in
    let same : (4 * id + sub) / 4 ≡ id = omega (arith, small) in
    let z : (id == 0) ≡ false = ground (arith, some_room) in
    let found : room_id_at_point outline (anchor outline.placed r cell) ≡ some id =
      rw (back, room_id_at_point, room_id_at, w, t, at, same, z) in
    rw (found, room_at_point)
