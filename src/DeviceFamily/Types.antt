-- ===== src/DeviceFamily/Types.antt =====
-- `DeviceType` of src/model/device-types.ts: the vendor's product types and their numbers.
use eufy_sdk.Prelude.{ℕ}

pub data DeviceType : Type 0 where
  station camera sensor floodlight camera_e doorbell : DeviceType
  battery_doorbell camera2c camera2 motion_sensor keypad camera2_pro : DeviceType
  camera2c_pro battery_doorbell_2 hb3 camera3 water_freeze_sensor_8920 siren_sensor : DeviceType
  smoke_sensor camera3c professional_247 minibase_chime camera3_pro homebase_mini : DeviceType
  indoor_camera indoor_pt_camera solo_camera solo_camera_pro indoor_camera_1080
        indoor_pt_camera_1080 :
      DeviceType
  floodlight_camera_8422 floodlight_camera_8423 floodlight_camera_8424
        indoor_outdoor_camera_1080p_no_light indoor_outdoor_camera_2k indoor_outdoor_camera_1080p :
      DeviceType
  floodlight_camera_8425 outdoor_pt_camera camera_e40 lock_ble lock_wifi lock_ble_no_finger :
      DeviceType
  lock_wifi_no_finger lock_8503 lock_8530 lock_85a3 lock_8592 lock_8504 : DeviceType
  solo_camera_spotlight_1080 solo_camera_spotlight_2k solo_camera_spotlight_solar solo_camera_solar
        solo_camera_c210 floodlight_camera_8426 :
      DeviceType
  solo_camera_e30 camera_s4 smart_drop battery_doorbell_plus doorbell_solo
        battery_doorbell_plus_e340 :
      DeviceType
  battery_doorbell_c30 battery_doorbell_c31 solocam_e42 indoor_cost_down_camera camera_gun
        camera_snail :
      DeviceType
  indoor_pt_camera_s350 indoor_pt_camera_e30 camera_fg camera_4g_s330 siren_sensor_e20
        entry_sensor_e20 :
      DeviceType
  pir_sensor_e20 camera_garage_t8453_common camera_garage_t8452 camera_garage_t8453 smart_safe_7400
        smart_safe_7401 :
      DeviceType
  smart_safe_7402 smart_safe_7403 wall_light_cam smart_track_link smart_track_card tracker_87b4 :
      DeviceType
  tracker_87b5 lock_8502 lock_8506 lock_8531 lock_85l0 lock_85d0 : DeviceType
  lock_85v0 lock_85p0 nvr_s4_max camera_poe_s4 wall_light_cam_81a0 indoor_8w11 : DeviceType
  indoor_pt_camera_c220 indoor_pt_camera_c210 indoor_pt_camera_c220_v2 indoor_pt_camera_c220_v3
        camera_c35 :
      DeviceType

unfoldable pub code : DeviceType → ℕ
code station = 0
code camera = 1
code sensor = 2
code floodlight = 3
code camera_e = 4
code doorbell = 5
code battery_doorbell = 7
code camera2c = 8
code camera2 = 9
code motion_sensor = 10
code keypad = 11
code camera2_pro = 14
code camera2c_pro = 15
code battery_doorbell_2 = 16
code hb3 = 18
code camera3 = 19
code water_freeze_sensor_8920 = 20
code siren_sensor = 21
code smoke_sensor = 22
code camera3c = 23
code professional_247 = 24
code minibase_chime = 25
code camera3_pro = 26
code homebase_mini = 28
code indoor_camera = 30
code indoor_pt_camera = 31
code solo_camera = 32
code solo_camera_pro = 33
code indoor_camera_1080 = 34
code indoor_pt_camera_1080 = 35
code floodlight_camera_8422 = 37
code floodlight_camera_8423 = 38
code floodlight_camera_8424 = 39
code indoor_outdoor_camera_1080p_no_light = 44
code indoor_outdoor_camera_2k = 45
code indoor_outdoor_camera_1080p = 46
code floodlight_camera_8425 = 47
code outdoor_pt_camera = 48
code camera_e40 = 49
code lock_ble = 50
code lock_wifi = 51
code lock_ble_no_finger = 52
code lock_wifi_no_finger = 53
code lock_8503 = 54
code lock_8530 = 55
code lock_85a3 = 56
code lock_8592 = 57
code lock_8504 = 58
code solo_camera_spotlight_1080 = 60
code solo_camera_spotlight_2k = 61
code solo_camera_spotlight_solar = 62
code solo_camera_solar = 63
code solo_camera_c210 = 64
code floodlight_camera_8426 = 87
code solo_camera_e30 = 88
code camera_s4 = 89
code smart_drop = 90
code battery_doorbell_plus = 91
code doorbell_solo = 93
code battery_doorbell_plus_e340 = 94
code battery_doorbell_c30 = 95
code battery_doorbell_c31 = 96
code solocam_e42 = 98
code indoor_cost_down_camera = 100
code camera_gun = 101
code camera_snail = 102
code indoor_pt_camera_s350 = 104
code indoor_pt_camera_e30 = 105
code camera_fg = 110
code camera_4g_s330 = 111
code siren_sensor_e20 = 123
code entry_sensor_e20 = 126
code pir_sensor_e20 = 127
code camera_garage_t8453_common = 131
code camera_garage_t8452 = 132
code camera_garage_t8453 = 133
code smart_safe_7400 = 140
code smart_safe_7401 = 141
code smart_safe_7402 = 142
code smart_safe_7403 = 143
code wall_light_cam = 151
code smart_track_link = 157
code smart_track_card = 159
code tracker_87b4 = 161
code tracker_87b5 = 162
code lock_8502 = 180
code lock_8506 = 184
code lock_8531 = 189
code lock_85l0 = 201
code lock_85d0 = 202
code lock_85v0 = 203
code lock_85p0 = 209
code nvr_s4_max = 300
code camera_poe_s4 = 301
code wall_light_cam_81a0 = 10005
code indoor_8w11 = 10006
code indoor_pt_camera_c220 = 10008
code indoor_pt_camera_c210 = 10009
code indoor_pt_camera_c220_v2 = 10010
code indoor_pt_camera_c220_v3 = 10011
code camera_c35 = 10035
