-- ===== src/Ff09/Reply.antt =====
-- src/transport/ff09.ts: reading a device's reply, and the read-modify-write of the auto-lock.
use eufy_sdk.Prelude.{
  ℕ, suc, ◌+◌, ◌-◌, ◌*◌, ◌%◌, ◌^◌, Bool, not, ◌&&◌, List, [], ◌∷◌, Option, none, some, ltb, leb,
  ◌==◌, if◌then◌else◌, length, take, drop, get_or, Result, ok, err, ◌>>=◌, ◌>>◌, guard,
}
use eufy_sdk.Bytes.{from_hex, xor_all}
use eufy_sdk.Ff09.{
  Cipher, Error, Ff09Frame, Now, Overrides, or_else, is_empty, key_of, iv_of, build_settings_frame,
}

-- `if (x === undefined) throw e`
abbrev pub or_throw {ℓ} : {E A : Type ℓ} → Option A → E → Result E A
or_throw none e = err e
or_throw (some a) e = ok a

-- `decryptFf09Frame` behind `Buffer.from(lockPayload, "hex")`, which does not throw.
unfoldable pub open_frame : Cipher → List ℕ → ℕ → List ℕ → List ℕ → Result Error (List ℕ)
open_frame cipher buf key_time admin_user_id device_sn =
    let head = take (length buf - 1) buf in
    do
      guard (not (is_empty admin_user_id)) Error.admin_user_id_required
      guard (not (is_empty device_sn)) Error.device_sn_required
      guard (leb 12 (length admin_user_id)) Error.admin_user_id_too_short
      guard (leb 10 (length buf) && (get_or buf 0 0 == 0xff) && (get_or buf 1 0 == 0x09))
          Error.missing_magic
      guard (get_or buf 2 0 + 256 * get_or buf 3 0 == length buf) Error.size_mismatch
      guard (xor_all 0 head == get_or buf (length buf - 1) 0) Error.bad_checksum
      or_throw
          (cipher.decrypt (key_of admin_user_id (key_time % 2 ^ 32)) (iv_of device_sn)
            (drop 9 head))
          Error.bad_padding

unfoldable pub decrypt_frame : Cipher → List ℕ → ℕ → List ℕ → List ℕ → Result Error (List ℕ)
decrypt_frame cipher lock_payload = open_frame cipher (from_hex lock_payload)

-- A JavaScript `Map`: a key that is set again keeps its place and takes the new value.
unfoldable pub map_get : ℕ → List (ℕ × List ℕ) → Option (List ℕ)
map_get k [] = none
map_get k ((j, v) ∷ m) = if j == k then some v else map_get k m

unfoldable pub map_set : ℕ → List ℕ → List (ℕ × List ℕ) → List (ℕ × List ℕ)
map_set k v [] = (k, v) ∷ []
map_set k v ((j, w) ∷ m) = if j == k then (k, v) ∷ m else (j, w) ∷ map_set k v m

pub record SettingsResponse : Type 0 where
  pub status : ℕ
  pub fields : List (ℕ × List ℕ)

-- The loop on the bytes from `i` on; each round takes two bytes at least, so as much fuel as there are
-- bytes is enough.
unfoldable pub parse_loop : ℕ → List ℕ → List (ℕ × List ℕ) → List (ℕ × List ℕ)
parse_loop (suc fuel) (sep ∷ len ∷ rest) fields =
    let more = parse_loop fuel (drop len rest) (map_set sep (take len rest) fields) in
    if sep == 0 then fields else if ltb (length rest) len then fields else more
parse_loop _ _ fields = fields

unfoldable pub parse_settings_response : List ℕ → Result Error SettingsResponse
parse_settings_response [] = err Error.response_too_short
parse_settings_response (status ∷ rest) =
    ok (record { status = status; fields = parse_loop (length rest) rest [] })

-- The readers: `tag` stands for the field's name in the message.
unfoldable pub read_u16le : Option (List ℕ) → ℕ → Result Error ℕ
read_u16le (some (b0 ∷ b1 ∷ bs)) tag = ok (b0 + 256 * b1)
read_u16le _ tag = err (Error.missing_field tag)

unfoldable pub read_u8 : Option (List ℕ) → ℕ → Result Error ℕ
read_u8 (some (b0 ∷ bs)) tag = ok b0
read_u8 _ tag = err (Error.missing_field tag)

unfoldable pub read_hour_minute : Option (List ℕ) → ℕ → Result Error (ℕ × ℕ)
read_hour_minute (some (b0 ∷ b1 ∷ bs)) tag = ok (b0, b1)
read_hour_minute _ tag = err (Error.missing_field tag)

pub record AutoLockSnapshot : Type 0 where
  pub enabled : Bool
  pub delay_seconds : ℕ
  pub is_schedule : Bool
  pub schedule_start_time : ℕ × ℕ
  pub schedule_end_time : ℕ × ℕ

unfoldable pub decode_auto_lock_snapshot : SettingsResponse → Result Error AutoLockSnapshot
decode_auto_lock_snapshot parsed = do
  enabled ← read_u8 (map_get 0xa1 parsed.fields) 0xa1
  delay ← read_u16le (map_get 0xa2 parsed.fields) 0xa2
  is_schedule ← read_u8 (map_get 0xa3 parsed.fields) 0xa3
  start_time ← read_hour_minute (map_get 0xa4 parsed.fields) 0xa4
  end_time ← read_hour_minute (map_get 0xa5 parsed.fields) 0xa5
  ok (record {
    enabled = not (enabled == 0);
    delay_seconds = delay;
    is_schedule = not (is_schedule == 0);
    schedule_start_time = start_time;
    schedule_end_time = end_time;
  })

-- The overrides of a call that passes none.
abbrev pub no_overrides : Overrides
no_overrides = record { unix_time = none; nonce = none; seq_num = none }

unfoldable pub build_autolock_set_frame :
    Cipher → Now → List ℕ → ℕ → List ℕ → List ℕ → Bool → Option ℕ → Result Error Ff09Frame
build_autolock_set_frame cipher now lock_payload key_time admin_user_id device_sn enabled delay = do
  plain ← decrypt_frame cipher lock_payload key_time admin_user_id device_sn
  parsed ← parse_settings_response plain
  current_delay ← read_u16le (map_get 0xa2 parsed.fields) 0xa2
  current_a7 ← read_u16le (map_get 0xa4 parsed.fields) 0xa4
  current_a8 ← read_u16le (map_get 0xa5 parsed.fields) 0xa5
  build_settings_frame cipher now admin_user_id device_sn no_overrides enabled
      (or_else delay current_delay) current_a7 current_a8
