-- ===== src/Annexb/Geometry.antt =====
-- The picture geometry of src/transport/p2p/annexb.ts. A size that the crop may make negative is an
-- integer; `none` is `undefined`. The numbers are far below 2^53, so that `Number.isInteger` holds.
pub mod Plausible
use eufy_sdk.Prelude.{
  ℕ, zero, suc, ◌+◌, ◌-◌, ◌*◌, Bool, true, false, not, ◌&&◌, ◌||◌, List, [], ◌∷◌, Option, none,
  some, ltb, leb, ◌==◌, if◌then◌else◌, get_or,
}
use eufy_sdk.MapPixels.{ℤ, pos, negsuc}
use eufy_sdk.Annexb.{VideoCodec, h264, h265, av1, ParamSets}
use eufy_sdk.Annexb.Rbsp.{Rbsp, reader, u, ue, se, scaling_list, negate}

pub record Size : Type 0 where
  pub width : ℕ
  pub height : ℕ

-- `CropWindow`.
pub record CropWindow : Type 0 where
  pub left : ℕ
  pub right : ℕ
  pub top : ℕ
  pub bottom : ℕ

pub record CodedGeometry : Type 0 where
  pub width : ℤ
  pub height : ℤ
  pub coded : Size
  pub crop : CropWindow

-- `MAX_CODED_DIMENSION`.
abbrev pub max_coded_dimension : ℕ
max_coded_dimension = 32768

-- `H264_CHROMA_PROFILES`.
abbrev h264_chroma_profiles : List ℕ
h264_chroma_profiles =
    100 ∷ 110 ∷ 122 ∷ 244 ∷ 44 ∷ 83 ∷ 86 ∷ 118 ∷ 128 ∷ 138 ∷ 139 ∷ 134 ∷ 135 ∷ 144 ∷ []

unfoldable pub is_one_of : List ℕ → ℕ → Bool
is_one_of [] n = false
is_one_of (p ∷ ps) n = (p == n) || is_one_of ps n

-- `CHROMA_SUBSAMPLING`.
unfoldable pub chroma_subsampling : ℕ → Option Size
chroma_subsampling n =
    if n == 0
    then some (record { width = 1; height = 1 })
    else if n == 1
    then some (record { width = 2; height = 2 })
    else if n == 2
    then some (record { width = 2; height = 1 })
    else if n == 3
    then some (record { width = 1; height = 1 })
    else none

-- A read whose value is not used, or is a flag.
abbrev skip_u : ℕ → Rbsp → Rbsp
skip_u n r = (u n r).1

abbrev skip_ue : Rbsp → Rbsp
skip_ue r = (ue r).1

abbrev flag : Rbsp → Bool × Rbsp
flag r = let (b, after) = u 1 r in (b == 1, after)

unfoldable pub crop_window : Rbsp → CropWindow × Rbsp
crop_window r =
    let (present, after) = flag r in
    let (left, r1) = ue after in
    let (right, r2) = ue r1 in
    let (top, r3) = ue r2 in
    let (bottom, r4) = ue r3 in
    if present
    then (record { left = left; right = right; top = top; bottom = bottom }, r4)
    else (record { left = 0; right = 0; top = 0; bottom = 0 }, after)

-- `a - b`.
unfoldable pub minus : ℕ → ℕ → ℤ
minus a b = if leb b a then pos (a - b) else negate (b - a)

-- The result of `h264Geometry` and `h265Geometry`, with their factors and offsets.
unfoldable pub cropped : Size → ℕ → Size → CropWindow → CodedGeometry
cropped subsampling factor coded w =
    let left = subsampling.width * w.left in
    let right = subsampling.width * w.right in
    let top = subsampling.height * factor * w.top in
    let bottom = subsampling.height * factor * w.bottom in
    record {
      width = minus coded.width (left + right);
      height = minus coded.height (top + bottom);
      coded = coded;
      crop = record { left = left; right = right; top = top; bottom = bottom };
    }

-- The end of `h264Geometry` and of `h265Geometry`, from `if (r.failed)` on.
unfoldable pub answer : Bool → Option Size → ℕ → Size → CropWindow → Option CodedGeometry
answer true subsampling factor coded w = none
answer false none factor coded w = none
answer false (some subsampling) factor coded w = some (cropped subsampling factor coded w)

-- The loop over the scaling matrices from index `i`, with `count` to go.
unfoldable pub scaling_lists : ℕ → ℕ → Rbsp → Rbsp
scaling_lists zero i r = r
scaling_lists (suc count) i r =
    let (present, after) = flag r in
    scaling_lists count (i + 1)
      (if present then scaling_list (if ltb i 6 then 16 else 64) after else after)

-- What a chroma profile adds: `chromaFormatIdc` and `separateColourPlane`.
unfoldable pub chroma_fields : Rbsp → (ℕ × Bool) × Rbsp
chroma_fields r =
    let (chroma_format_idc, r1) = ue r in
    let (plane, r2) = flag r1 in
    let three = chroma_format_idc == 3 in
    let r3 = if three then r2 else r1 in
    let (matrices, r4) = flag (skip_u 1 (skip_ue (skip_ue r3))) in
    let r5 = scaling_lists (if three then 12 else 8) 0 r4 in
    ((chroma_format_idc, three && plane), if matrices then r5 else r4)

-- `for (let i = 0; i < cycle && !r.failed; i++) r.se()`
unfoldable pub skip_cycle : ℕ → Rbsp → Rbsp
skip_cycle zero r = r
skip_cycle (suc cycle) r = elim r.failed [ true ↦ r | false ↦ skip_cycle cycle (se r).1 ]

-- The fields of the picture order count.
unfoldable pub skip_picture_order : Rbsp → Rbsp
skip_picture_order r =
    let (picture_order_count_type, r1) = ue r in
    if picture_order_count_type == 0
    then skip_ue r1
    else if picture_order_count_type == 1
    then (let (cycle, r2) = ue (se (se (skip_u 1 r1)).1).1 in skip_cycle cycle r2)
    else r1

unfoldable pub h264_geometry : List ℕ → Option CodedGeometry
h264_geometry sps =
    let (profile_idc, r1) = u 8 (reader sps 1) in
    let r2 = skip_ue (skip_u 8 (skip_u 8 r1)) in
    let (chroma, r3) =
      if is_one_of h264_chroma_profiles profile_idc then chroma_fields r2 else ((1, false), r2) in
    let (chroma_format_idc, separate_colour_plane) = chroma in
    let (width_mbs, r4) = ue (skip_u 1 (skip_ue (skip_picture_order (skip_ue r3)))) in
    let (height_map_units, r5) = ue r4 in
    let (frame_mbs_only, r6) = flag r5 in
    let (crop, r7) = crop_window (skip_u 1 (if frame_mbs_only then r6 else skip_u 1 r6)) in
    let factor = if frame_mbs_only then 1 else 2 in
    answer r7.failed (chroma_subsampling (if separate_colour_plane then 0 else chroma_format_idc))
      factor
      (record { width = (width_mbs + 1) * 16; height = factor * (height_map_units + 1) * 16 }) crop

-- The loop that pushes `profilePresent` and `levelPresent`.
pub sub_layer_flags : ℕ → Rbsp → List (Bool × Bool) × Rbsp
sub_layer_flags zero r = ([], r)
sub_layer_flags (suc n) r =
    let (profile, r1) = flag r in
    let (level, r2) = flag r1 in
    let (rest, r3) = sub_layer_flags n r2 in ((profile, level) ∷ rest, r3)

pub skip_pairs : ℕ → Rbsp → Rbsp
skip_pairs zero r = r
skip_pairs (suc n) r = skip_pairs n (skip_u 2 r)

abbrev skip_profile : Rbsp → Rbsp
skip_profile r = skip_u 24 (skip_u 32 (skip_u 32 r))

pub skip_sub_layers : List (Bool × Bool) → Rbsp → Rbsp
skip_sub_layers [] r = r
skip_sub_layers ((profile, level) ∷ rest) r =
    let after = if profile then skip_profile r else r in
    skip_sub_layers rest (if level then skip_u 8 after else after)

pub h265_geometry : List ℕ → Option CodedGeometry
h265_geometry sps =
    let (max_sub_layers_minus1, r1) = u 3 (skip_u 4 (reader sps 2)) in
    let (present, r2) =
      sub_layer_flags max_sub_layers_minus1 (skip_u 8 (skip_profile (skip_u 1 r1))) in
    let r3 =
      if ltb 0 max_sub_layers_minus1 then skip_pairs (8 - max_sub_layers_minus1) r2 else r2 in
    let (chroma_format_idc, r4) = ue (skip_ue (skip_sub_layers present r3)) in
    let (width, r5) = ue (if chroma_format_idc == 3 then skip_u 1 r4 else r4) in
    let (height, r6) = ue r5 in
    let (window, r7) = crop_window r6 in
    answer r7.failed (chroma_subsampling chroma_format_idc) 1
      (record { width = width; height = height }) window

-- `sets.sps[sets.sps.length - 1]`
unfoldable pub last_nal : List (List ℕ) → Option (List ℕ)
last_nal [] = none
last_nal (nal ∷ nals) = elim (last_nal nals) [ none ↦ some nal | some l ↦ some l ]

-- One dimension's part of `plausible`.
abbrev pub is_plausible : ℤ → Bool
is_plausible (pos n) = ltb 0 n && leb n max_coded_dimension
is_plausible (negsuc n) = false

unfoldable pub geometry_of : VideoCodec → List ℕ → Option CodedGeometry
geometry_of h264 sps = h264_geometry sps
geometry_of h265 sps = h265_geometry sps
geometry_of av1 sps = none

unfoldable pub if_plausible : Option CodedGeometry → Option CodedGeometry
if_plausible none = none
if_plausible (some g) = if is_plausible g.width && is_plausible g.height then some g else none

unfoldable pub coded_geometry : ParamSets → Option CodedGeometry
coded_geometry sets = elim (last_nal sets.sps) [
  | none ↦ none
  | some sps ↦ if_plausible (geometry_of sets.codec sps)
]
