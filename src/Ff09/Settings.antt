-- ===== src/Ff09/Settings.antt =====
-- The commands as the device reads them, and the read-modify-write of the auto-lock.
use eufy_sdk.Prelude.{
  ℕ, ◌+◌, ◌*◌, ◌<◌, ◌≤◌, ◌≡◌, ◌≢◌, refl, ap, ◌∙◌, Bool, true, false, List, [], ◌∷◌, Option, none,
  some, arith, All, length, ok,
}
use eufy_sdk.Bytes.{IsByte, ascii, ascii-IsByte, length-ascii}
use eufy_sdk.Util.{u16le, u32le, u16le-bytes}
use eufy_sdk.Ff09.{
  Cipher, Ff09Frame, Now, or_else, identity_of, check_identity, resolve_identity, is_empty,
  settings_fields, build_settings_frame, flag_byte,
}
use eufy_sdk.Ff09.Reply.{
  decrypt_frame, map_get, parse_settings_response, SettingsResponse, read_u16le,
  build_autolock_set_frame, no_overrides,
}
use eufy_sdk.Ff09.Seal.{seal-opens, IsField, total_length}
use eufy_sdk.Ff09.LockCommandCode
use eufy_sdk.Ff09.LockApiCommand

-- What every builder asks of the two identifiers, and the length byte of the owner's id.
pub record IsIdentity (admin sn : List ℕ) : Type 0 where
  pub long : 12 ≤ length admin
  pub short : length admin < 256
  pub named : sn ≢ []
  pub fits : length sn ≤ 16

check_identity-IsIdentity :
    (admin sn : List ℕ) → IsIdentity admin sn → check_identity admin sn ≡ ok tt
unfolding check_identity is_empty
check_identity-IsIdentity [] sn h = absurd (omega (arith, h.long))
check_identity-IsIdentity (a ∷ admin) [] h = absurd (h.named refl)
check_identity-IsIdentity (a ∷ admin) (s ∷ sn) h = ground (arith, h.long, h.fits)

ascii-IsField : (s : List ℕ) → length s < 256 → IsField (ascii s)
ascii-IsField s h = (omega (arith, length-ascii s), ascii-IsByte s)

flag_byte-IsField : (b : Bool) → IsField (flag_byte b)
flag_byte-IsField true = omega arith
flag_byte-IsField false = omega arith

u16le-IsField : (n : ℕ) → IsField (u16le n)
unfolding u16le
u16le-IsField n = omega arith

u32le-IsField : (n : ℕ) → IsField (u32le n)
unfolding u32le
u32le-IsField n = omega arith

settings_fields-IsField :
    (admin : List ℕ) (time : ℕ) (enabled : Bool) (delay a7 a8 : ℕ)
    → length admin < 256
    → All IsField (settings_fields admin time enabled delay a7 a8)
unfolding settings_fields
settings_fields-IsField admin time enabled delay a7 a8 h = (
  u32le-IsField time,
  (
    ascii-IsField admin h,
    (
      omega arith,
      (
        flag_byte-IsField enabled,
        (
          u16le-IsField delay,
          (omega arith, (u16le-IsField a7, (u16le-IsField a8, (omega arith, tt)))),
        ),
      ),
    ),
  ),
)

settings_fields_size :
    (admin : List ℕ) (time : ℕ) (enabled : Bool) (delay a7 a8 : ℕ)
    → length admin < 256
    → (length (settings_fields admin time enabled delay a7 a8) ≤ 95)
      × (total_length (settings_fields admin time enabled delay a7 a8) < 60000)
unfolding settings_fields total_length u16le u32le
settings_fields_size admin time enabled delay a7 a8 h = omega (arith, length-ascii admin)

-- What the auto-lock write sends back of the settings that it read, and what it does not.
-- From a reply that opens to `plain` and reads as `r`, whose delay and two schedule times start with the
-- bytes d0 d1, a0 a1 and b0 b1, the frame that is built opens, under its own time, to nine fields: A4 is
-- the flag, A5 the given delay or else d0 d1, A7 is a0 a1 and A8 is b0 b1; A3, A6 (which the reply has
-- under 0xa3) and A9 are one zero byte whatever the reply says, and there is no field AA.
pub build_autolock_set_frame_keeps :
    (cipher : Cipher) (now : Now) (payload : List ℕ) (key_time : ℕ) (admin sn plain : List ℕ)
    (r : SettingsResponse) (enabled : Bool) (delay : Option ℕ) (d0 d1 a0 a1 b0 b1 : ℕ)
    (ds as' bs : List ℕ) (status : ℕ)
    → IsIdentity admin sn
    → decrypt_frame cipher payload key_time admin sn ≡ ok plain
    → parse_settings_response plain ≡ ok r
    → map_get 0xa2 r.fields ≡ some (d0 ∷ d1 ∷ ds)
    → map_get 0xa4 r.fields ≡ some (a0 ∷ a1 ∷ as')
    → map_get 0xa5 r.fields ≡ some (b0 ∷ b1 ∷ bs)
    → All IsByte (a0 ∷ a1 ∷ b0 ∷ b1 ∷ [])
    → (f : Ff09Frame) × (plain' : List ℕ) × (r' : SettingsResponse) × (build_autolock_set_frame
          cipher now payload key_time admin sn enabled delay
        ≡ ok f)
      × (decrypt_frame cipher f.lock_payload f.time admin sn ≡ ok plain')
      × (parse_settings_response (status ∷ plain') ≡ ok r')
      × (map_get 0xa4 r'.fields ≡ some (flag_byte enabled))
      × (map_get 0xa5 r'.fields ≡ some (u16le (or_else delay (d0 + 256 * d1))))
      × (map_get 0xa7 r'.fields ≡ some (a0 ∷ a1 ∷ []))
      × (map_get 0xa8 r'.fields ≡ some (b0 ∷ b1 ∷ []))
      × (map_get 0xa3 r'.fields ≡ some (0 ∷ []))
      × (map_get 0xa6 r'.fields ≡ some (0 ∷ []))
      × (map_get 0xa9 r'.fields ≡ some (0 ∷ []))
      × (map_get 0xaa r'.fields ≡ none)
unfolding build_autolock_set_frame build_settings_frame resolve_identity read_u16le settings_fields
build_autolock_set_frame_keeps cipher now payload key_time admin sn plain r enabled delay d0 d1 a0
      a1 b0 b1 ds as' bs status who opened parsed delay_is start_is end_is
      (ha0, (ha1, (hb0, (hb1, _)))) =
    let id = identity_of now no_overrides in
    let a7 = a0 + 256 * a1 in
    let a8 = b0 + 256 * b1 in
    let used = or_else delay (d0 + 256 * d1) in
    let (few, small) = settings_fields_size admin id.unix_time enabled used a7 a8 who.short in
    let (f, plain', r', sealed, opens, reads, found) =
      seal-opens cipher now admin sn no_overrides LockCommandCode.set_settings
        LockApiCommand.set_settings id (settings_fields admin id.unix_time enabled used a7 a8)
        status (settings_fields-IsField admin id.unix_time enabled used a7 a8 who.short) few small
        who.long who.named in
    (
      f,
      plain',
      r',
      rw (opened, parsed, delay_is, start_is, end_is, check_identity-IsIdentity admin sn who)
          sealed,
      opens,
      reads,
      found 3,
      found 4,
      found 6 ∙ ap some (u16le-bytes a0 a1 ha0 ha1),
      found 7 ∙ ap some (u16le-bytes b0 b1 hb0 hb1),
      found 2,
      found 5,
      found 8,
      found 9,
    )
