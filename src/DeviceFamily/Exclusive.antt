-- ===== src/DeviceFamily/Exclusive.antt =====
-- How the families of src/model/device-family.ts lie to each other.
use eufy_sdk.Prelude.{
  ℕ, ◌+◌, ◌≤◌, ◌≡◌, refl, ap, ◌∙◌, Bool, true, false, not, ◌&&◌, List, [], ◌∷◌, Option, none, some,
  ◌==◌, if◌then◌else◌, arith, Bool-cases, inl, inr, subst,
}
use eufy_sdk.DeviceFamily.Types.{DeviceType, code, indoor_cost_down_camera, doorbell}
use eufy_sdk.DeviceFamily.{
  FamilyContext, indoor_camera_types, indoor_pt_s350_types, outdoor_pt_types, floodlight_types,
  homebase_types, in_types, has, is_type, is_indoor_camera, is_indoor_cam_mini,
  is_indoor_pan_tilt_s350, is_outdoor_pan_tilt, is_flood_light, is_home_base, is_wired_doorbell,
}

-- A test that holds of the number of each type of a set.
holds_of : (ℕ → Bool) → List DeviceType → Bool
holds_of p [] = true
holds_of p (d ∷ ds) = p (code d) && holds_of p ds

in_types-holds_of :
    (p : ℕ → Bool) (ds : List DeviceType) (t : ℕ)
    → holds_of p ds ≡ true
    → in_types ds t ≡ true
    → p t ≡ true
unfolding holds_of in_types
in_types-holds_of p [] t h e = absurd (ground (arith, e))
in_types-holds_of p (d ∷ ds) t h e = elim (Bool-cases (code d == t)) [
  | inl y ↦
      let same : code d ≡ t = ground (arith, y) in subst (λ n. p n ≡ true) same (ground (arith, h))
  | inr y ↦ in_types-holds_of p ds t (ground (arith, h)) (ground (arith, e, y))
]

-- Every pan/tilt camera of the S350 family is an indoor camera and no mini, and every mini is an indoor
-- camera.
indoor_nested :
    (ctx : FamilyContext)
    → (is_indoor_pan_tilt_s350 ctx ≡ true
        → (is_indoor_camera ctx ≡ true) × (is_indoor_cam_mini ctx ≡ false))
      × (is_indoor_cam_mini ctx ≡ true → is_indoor_camera ctx ≡ true)
unfolding is_indoor_pan_tilt_s350 is_indoor_camera is_indoor_cam_mini
indoor_nested ctx = (s350 ctx.device_type, mini ctx.device_type)
  where
    s350 :
        (t : Option ℕ)
        → has indoor_pt_s350_types t ≡ true
        → (has indoor_camera_types t ≡ true) × (is_type indoor_cost_down_camera t ≡ false)
    s350 none h = absurd (unfold has in ground (arith, h))
    s350 (some t) h =
        let both : (in_types indoor_camera_types t && not (t == code indoor_cost_down_camera))
            ≡ true =
          unfold has in
          (in_types-holds_of
            (λ n. in_types indoor_camera_types n && not (n == code indoor_cost_down_camera))
            indoor_pt_s350_types t (unfold holds_of in_types code in refl) h) in
        unfold has is_type in (ground (arith, both), ground (arith, both))

    mini :
        (t : Option ℕ) → is_type indoor_cost_down_camera t ≡ true → has indoor_camera_types t ≡ true
    mini none h = absurd (unfold is_type in ground (arith, h))
    mini (some t) h =
        let same : t ≡ code indoor_cost_down_camera = unfold is_type in ground (arith, h) in
        unfold has in ap (in_types indoor_camera_types) same ∙ (unfold in_types code in refl)

-- The predicates of the families that stand side by side.
abbrev pub families : FamilyContext → List Bool
families ctx =
    is_indoor_camera ctx
    ∷ is_outdoor_pan_tilt ctx
    ∷ is_flood_light ctx
    ∷ is_home_base ctx
    ∷ is_wired_doorbell ctx
    ∷ []

abbrev pub count_true : List Bool → ℕ
count_true [] = 0
count_true (b ∷ bs) = (if b then 1 else 0) + count_true bs

-- Whether a number is none of the types of any of the sets.
none_of : List (List DeviceType) → ℕ → Bool
none_of [] n = true
none_of (ds ∷ rest) n = not (in_types ds n) && none_of rest n

-- How many of the sets a number is in, where each set is clear of those behind it.
is_clear : List (List DeviceType) → Bool
is_clear [] = true
is_clear (ds ∷ rest) = holds_of (none_of rest) ds && is_clear rest

count_in : List (List DeviceType) → ℕ → ℕ
count_in [] n = 0
count_in (ds ∷ rest) n = (if in_types ds n then 1 else 0) + count_in rest n

count_in-none_of :
    (sets : List (List DeviceType)) (n : ℕ) → none_of sets n ≡ true → count_in sets n ≡ 0
unfolding none_of count_in
count_in-none_of [] n h = refl
count_in-none_of (ds ∷ rest) n h = ground (arith, h, count_in-none_of rest n)

count_in-is_clear :
    (sets : List (List DeviceType)) (n : ℕ) → is_clear sets ≡ true → count_in sets n ≤ 1
unfolding is_clear count_in
count_in-is_clear [] n h = omega arith
count_in-is_clear (ds ∷ rest) n h = elim (Bool-cases (in_types ds n)) [
  | inl y ↦
      let away = in_types-holds_of (none_of rest) ds n (ground (arith, h)) y in
      ground (arith, y, count_in-none_of rest n away)
  | inr y ↦ ground (arith, y, h, count_in-is_clear rest n)
]

abbrev sides : List (List DeviceType)
sides =
    indoor_camera_types
    ∷ outdoor_pt_types
    ∷ floodlight_types
    ∷ homebase_types
    ∷ (doorbell ∷ [])
    ∷ []

sides_clear : is_clear sides ≡ true
unfolding is_clear holds_of none_of in_types code
sides_clear = refl

one_type : (d : DeviceType) (t : ℕ) → in_types (d ∷ []) t ≡ (t == code d)
unfolding in_types
one_type d t = ground arith

abbrev count_of : Option ℕ → ℕ
count_of t = count_true (
    has indoor_camera_types t
    ∷ has outdoor_pt_types t
    ∷ has floodlight_types t
    ∷ has homebase_types t
    ∷ is_type doorbell t
    ∷ [])

-- A device is in one at most of the families indoor camera, outdoor pan/tilt, floodlight, HomeBase and
-- wired doorbell, whatever its type, and in none where the type is not known.
pub families_exclusive :
    (ctx : FamilyContext)
    → (count_true (families ctx) ≤ 1) × (ctx.device_type ≡ none → count_true (families ctx) ≡ 0)
unfolding is_indoor_camera is_outdoor_pan_tilt is_flood_light is_home_base is_wired_doorbell
families_exclusive ctx =
    (at_most ctx.device_type, λ e. ap count_of e ∙ (unfold has is_type in refl))
  where
    at_most : (t : Option ℕ) → count_of t ≤ 1
    at_most none = unfold has is_type in omega arith
    at_most (some t) =
        let one = count_in-is_clear sides t sides_clear in
        let last = one_type doorbell t in unfold has is_type count_in in ground (arith, last, one)
