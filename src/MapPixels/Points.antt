-- ===== src/MapPixels/Points.antt =====
-- Cells and world positions of src/model/map-pixels.ts: from a cell to its anchor and back.
use eufy_sdk.Prelude.{
  ℕ, ◌+◌, ◌-◌, ◌*◌, ◌/◌, ◌<◌, ◌≡◌, refl, ap, ◌∙◌, true, false, some, arith, leb, ltb, ◌==◌, inl,
  inr, Bool-cases,
}
use native.Mathlib.Nat.{mul-add-div_right, div-eq_of_lt}
use eufy_sdk.MapPixels.{
  ℤ, pos, negsuc, pos_part, neg_part, shift, MapPoint, MapCell, PlacedPlane, round_offset, is_below,
  cell_at_point, point_at_cell,
}

-- The cell is there, and the plane has a resolution to place it by.
pub record IsPlaced (plane : PlacedPlane) (r : ℕ) (cell : MapCell) : Type 0 where
  pub resolution : plane.resolution ≡ some r
  pub positive : 0 < r
  pub wide : is_below cell.col plane.width ≡ true
  pub high : is_below cell.row plane.height ≡ true

abbrev pub anchor : PlacedPlane → ℕ → MapCell → MapPoint
anchor plane r cell = record {
  x = shift plane.origin.x (pos_part cell.col * r);
  y = shift plane.origin.y (pos_part cell.row * r);
}

-- How a shift moves the two parts.
shift-parts :
    (o : ℤ) (k : ℕ) → pos_part (shift o k) + neg_part o ≡ pos_part o + neg_part (shift o k) + k
unfolding shift
shift-parts (pos n) k = omega arith
shift-parts (negsuc n) k = elim (Bool-cases (leb k n)) [
  | inl e ↦ rw e (ground (arith, e))
  | inr e ↦ rw e (ground (arith, e))
]

half_up : (c r : ℕ) → 0 < r → (c * (2 * r) + r) / (2 * r) ≡ c
half_up c r h =
    mul-add-div_right {m = 2 * r} (omega (arith, h)) c r
    ∙ omega (arith, div-eq_of_lt {n = r} {m = 2 * r} (omega (arith, h)))

round_offset-shift : (o : ℤ) (c r : ℕ) → 0 < r → round_offset (shift o (c * r)) o r ≡ pos c
unfolding round_offset
round_offset-shift o c r h =
    let up = 2 * pos_part (shift o (c * r)) + 2 * neg_part o + r in
    let down = 2 * pos_part o + 2 * neg_part (shift o (c * r)) in
    let gap : up ≡ down + (c * (2 * r) + r) = omega (arith, shift-parts o (c * r)) in
    let above : ltb up down ≡ false = ground (arith, gap) in
    let apart : up - down ≡ c * (2 * r) + r = omega (arith, gap) in
    rw (above, apart) (ap pos (half_up c r h))

is_below-pos : (z : ℤ) (limit : ℕ) → is_below z limit ≡ true → pos (pos_part z) ≡ z
is_below-pos (pos n) limit h = refl
is_below-pos (negsuc n) limit h = absurd (ground (arith, h))

-- A cell of a plane that has a resolution has a world position, and that position is in this cell.
pub cell_at_point-point_at_cell :
    (plane : PlacedPlane) (r : ℕ) (cell : MapCell)
    → IsPlaced plane r cell
    → (point_at_cell plane cell ≡ some (anchor plane r cell))
      × (cell_at_point plane (anchor plane r cell) ≡ some cell)
unfolding point_at_cell cell_at_point
cell_at_point-point_at_cell plane r cell h =
    let z : (r == 0) ≡ false = ground (arith, h.positive) in
    let c = is_below-pos cell.col plane.width h.wide in
    let d = is_below-pos cell.row plane.height h.high in
    let x = round_offset-shift plane.origin.x (pos_part cell.col) r h.positive ∙ c in
    let y = round_offset-shift plane.origin.y (pos_part cell.row) r h.positive ∙ d in
    (
      rw (h.resolution, point_at_cell, z, h.wide, h.high),
      rw (h.resolution, cell_at_point, z, x, y, h.wide, h.high),
    )
