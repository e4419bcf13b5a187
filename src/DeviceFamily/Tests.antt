-- ===== src/DeviceFamily/Tests.antt =====
-- src/model/device-family.ts: an S350, and a device whose type is not known.
use eufy_sdk.Prelude.{◌≤◌, ◌≡◌, none, some}
use eufy_sdk.DeviceFamily.{FamilyContext}
use eufy_sdk.DeviceFamily.Exclusive.{families_exclusive, families, count_true}

abbrev s350 : FamilyContext
s350 = record { device_type = some 104; category = none }

families_exclusive_example :
    (count_true (families s350) ≤ 1) × (s350.device_type ≡ none → count_true (families s350) ≡ 0)
families_exclusive_example = families_exclusive s350
