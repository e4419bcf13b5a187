-- ===== src/DeviceFamily.antt =====
-- src/model/device-family.ts: the family predicates over the vendor's device type. A category is a
-- string that is compared with one other only.
pub mod Types
pub mod Exclusive
mod Tests
use eufy_sdk.Prelude.{ℕ, Bool, true, false, not, ◌||◌, List, [], ◌∷◌, Option, none, some, ◌==◌}
use eufy_sdk.DeviceFamily.Types.{
  DeviceType, code, camera_4g_s330, camera_s4, doorbell, floodlight, floodlight_camera_8422,
  floodlight_camera_8423, floodlight_camera_8424, floodlight_camera_8425, floodlight_camera_8426,
  hb3, homebase_mini, indoor_camera, indoor_camera_1080, indoor_cost_down_camera,
  indoor_outdoor_camera_1080p, indoor_outdoor_camera_1080p_no_light, indoor_outdoor_camera_2k,
  indoor_pt_camera, indoor_pt_camera_1080, indoor_pt_camera_c210, indoor_pt_camera_c220,
  indoor_pt_camera_c220_v2, indoor_pt_camera_e30, indoor_pt_camera_s350, minibase_chime,
  outdoor_pt_camera, solo_camera_e30, solocam_e42, station, wall_light_cam, wall_light_cam_81a0,
}

pub data Category : Type 0 where
  eufy_home_tuya : Category
  other : ℕ → Category

pub record FamilyContext : Type 0 where
  pub device_type : Option ℕ
  pub category : Option Category

abbrev pub indoor_camera_types : List DeviceType
indoor_camera_types =
    indoor_camera ∷ indoor_camera_1080 ∷ indoor_pt_camera ∷ indoor_pt_camera_1080
    ∷ indoor_outdoor_camera_1080p ∷ indoor_outdoor_camera_1080p_no_light ∷ indoor_outdoor_camera_2k
    ∷ indoor_cost_down_camera ∷ indoor_pt_camera_s350 ∷ indoor_pt_camera_e30 ∷ indoor_pt_camera_c210
    ∷ indoor_pt_camera_c220 ∷ indoor_pt_camera_c220_v2 ∷ []

abbrev pub indoor_pt_s350_types : List DeviceType
indoor_pt_s350_types =
    indoor_pt_camera_s350 ∷ indoor_pt_camera_e30 ∷ indoor_pt_camera_c210 ∷ indoor_pt_camera_c220
    ∷ indoor_pt_camera_c220_v2 ∷ []

abbrev pub outdoor_pt_types : List DeviceType
outdoor_pt_types =
    outdoor_pt_camera ∷ solo_camera_e30 ∷ camera_s4 ∷ solocam_e42 ∷ camera_4g_s330 ∷ []

abbrev pub floodlight_types : List DeviceType
floodlight_types =
    floodlight ∷ floodlight_camera_8422 ∷ floodlight_camera_8423 ∷ floodlight_camera_8424
    ∷ floodlight_camera_8425 ∷ floodlight_camera_8426 ∷ []

abbrev pub wall_light_types : List DeviceType
wall_light_types = wall_light_cam ∷ wall_light_cam_81a0 ∷ []

abbrev pub homebase_types : List DeviceType
homebase_types = station ∷ hb3 ∷ minibase_chime ∷ homebase_mini ∷ []

-- `set.has(t)` of a set of types.
pub in_types : List DeviceType → ℕ → Bool
in_types [] t = false
in_types (d ∷ ds) t = (code d == t) || in_types ds t

-- `has`.
pub has : List DeviceType → Option ℕ → Bool
has set none = false
has set (some t) = in_types set t

pub is_indoor_camera : FamilyContext → Bool
is_indoor_camera ctx = has indoor_camera_types ctx.device_type

-- `ctx.deviceType === DeviceType.X`.
pub is_type : DeviceType → Option ℕ → Bool
is_type d none = false
is_type d (some t) = t == code d

pub is_indoor_cam_mini : FamilyContext → Bool
is_indoor_cam_mini ctx = is_type indoor_cost_down_camera ctx.device_type

pub is_indoor_pan_tilt_s350 : FamilyContext → Bool
is_indoor_pan_tilt_s350 ctx = has indoor_pt_s350_types ctx.device_type

pub is_outdoor_pan_tilt : FamilyContext → Bool
is_outdoor_pan_tilt ctx = has outdoor_pt_types ctx.device_type

pub is_flood_light : FamilyContext → Bool
is_flood_light ctx = has floodlight_types ctx.device_type

pub is_home_base : FamilyContext → Bool
is_home_base ctx = has homebase_types ctx.device_type

pub is_wired_doorbell : FamilyContext → Bool
is_wired_doorbell ctx = is_type doorbell ctx.device_type

-- `category === "eufy_home_tuya"`.
pub is_tuya_vacuum : FamilyContext → Bool
is_tuya_vacuum ctx = elim ctx.category [
  | none ↦ false
  | some c ↦ elim c [ eufy_home_tuya ↦ true | other n ↦ false ]
]

pub is_aiot_vacuum : FamilyContext → Bool
is_aiot_vacuum ctx = not (is_tuya_vacuum ctx)
