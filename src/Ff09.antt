-- ===== src/Ff09.antt =====
-- src/transport/ff09.ts: the framed control protocol of locks and garage doors. AES-128-CBC is a
-- parameter; the clock and the random nonce are arguments; a string is the list of its code units.

pub mod LockApiCommand
pub mod LockCommandCode
pub mod Reply
pub mod Tlv
pub mod Frame
pub mod Seal
pub mod Settings
mod Tests
use eufy_sdk.Prelude.{
  ℕ, zero, suc, ◌+◌, ◌-◌, ◌*◌, ◌/◌, ◌%◌, ◌^◌, ◌<◌, ◌≤◌, ◌≡◌, Bool, true, false, not, ◌&&◌, ◌||◌,
  List, [], ◌∷◌, ◌++◌, Option, none, some, ltb, leb, ◌==◌, if◌then◌else◌, bit_or, All, length, take,
  drop, get_or, replicate, Result, ok, err, ◌>>=◌, ◌>>◌, guard,
}
use eufy_sdk.Bytes.{IsByte, ascii, to_hex, from_hex, hex_value, xor_all}
use eufy_sdk.Util.{u16le, u16be, u32le, u32be}

-- `createCipheriv` and `createDecipheriv` with "aes-128-cbc" and the automatic padding: what they
-- document is that a text comes back under the same key and vector, that a ciphertext is a byte
-- string of whole blocks, and that PKCS#7 always adds at least one byte.
pub record Cipher : Type 0 where
  pub encrypt : List ℕ → List ℕ → List ℕ → List ℕ
  pub decrypt : List ℕ → List ℕ → List ℕ → Option (List ℕ)
  pub decrypt-encrypt :
      (key iv plain : List ℕ)
      → All IsByte plain
      → decrypt key iv (encrypt key iv plain) ≡ some plain
  pub encrypt-IsByte :
      (key iv plain : List ℕ) → All IsByte plain → All IsByte (encrypt key iv plain)
  pub length-encrypt :
      (key iv plain : List ℕ) → length (encrypt key iv plain) ≡ (length plain / 16 + 1) * 16

pub data Error : Type 0 where
  admin_user_id_required device_sn_required admin_user_id_too_short device_sn_too_long : Error
  user_fields_required bad_short_user_id field_too_long : Error
  missing_magic size_mismatch bad_checksum bad_padding : Error
  response_too_short : Error
  missing_field : ℕ → Error

-- `writeTlv`: each field behind its separator, which counts up from `sep`, and its length byte.
pub write_tlv : ℕ → List (List ℕ) → Result Error (List ℕ)
write_tlv sep [] = ok []
write_tlv sep (f ∷ fs) =
    let rest = write_tlv (sep + 1) fs in
    if ltb 0xff (length f)
    then err field_too_long
    else rest >>= λ bs. ok ((sep % 256) ∷ (length f % 256) ∷ (f ++ bs))

-- `Math.ceil(n / d)`
abbrev pub ceil_div : ℕ → ℕ → ℕ
ceil_div n d = (n + d - 1) / d

-- `data.copy(Buffer.alloc(size))`: the first `size` bytes, and zeros behind them.
abbrev pub copy_into : ℕ → List ℕ → List ℕ
copy_into size bs = take size (bs ++ replicate size 0)

pub zero_pad_to_block : List ℕ → List ℕ
zero_pad_to_block bs =
    let size = if ltb (length bs) 16 then 16 else ceil_div (length bs) 16 * 16 in copy_into size bs

pub record Ff09Frame : Type 0 where
  pub lock_payload : List ℕ
  pub time : ℕ
  pub seq_num : ℕ
  pub api_command : ℕ

-- `key = admin_user_id[-12:] ‖ uint32_BE(keyTime)`
pub key_of : List ℕ → ℕ → List ℕ
key_of admin_user_id key_time =
    ascii (drop (length admin_user_id - 12) admin_user_id) ++ u32be key_time

-- `iv = deviceSn` zero-padded to 16.
pub iv_of : List ℕ → List ℕ
iv_of device_sn = copy_into 16 (ascii device_sn)

-- The frame's bytes ahead of the checksum, for a ciphertext.
pub pre_xor : ℕ → List ℕ → List ℕ
pre_xor command_code ct =
    let body = (0x03 ∷ 0x00 ∷ 0x02 ∷ u16be (bit_or 0x4000 command_code)) ++ ct in
    (0xff ∷ 0x09 ∷ u16le (2 + 2 + length body + 1)) ++ body

pub assemble_frame : Cipher → ℕ → ℕ → List ℕ → List ℕ → List ℕ → ℕ → ℕ → Ff09Frame
assemble_frame cipher command_code api_command plain admin_user_id device_sn key_time seq_num =
    let ct = cipher.encrypt (key_of admin_user_id key_time) (iv_of device_sn) plain in
    let head = pre_xor command_code ct in
    record {
      lock_payload = to_hex (head ++ (xor_all 0 head % 256 ∷ []));
      time = key_time;
      seq_num = seq_num;
      api_command = api_command;
    }

-- `Math.floor(Date.now() / 1000)` and `Math.floor(Math.random() * 100)` at the time of the call.
pub record Now : Type 0 where
  pub seconds : ℕ
  pub nonce : ℕ

-- The optional overrides that every builder's input has.
pub record Overrides : Type 0 where
  pub unix_time : Option ℕ
  pub nonce : Option ℕ
  pub seq_num : Option ℕ

abbrev pub or_else {ℓ} : {A : Type ℓ} → Option A → A → A
or_else none d = d
or_else (some a) d = a

pub record Identity : Type 0 where
  pub unix_time : ℕ
  pub key_time : ℕ
  pub seq_num : ℕ

-- `(unixTime | nonce) >>> 0`, and the other two fields `>>> 0`.
pub identity_of : Now → Overrides → Identity
identity_of now over =
    let unix_time = or_else over.unix_time now.seconds % 2 ^ 32 in
    record {
      unix_time = unix_time;
      key_time = bit_or unix_time (or_else over.nonce now.nonce) % 2 ^ 32;
      seq_num = or_else over.seq_num unix_time % 2 ^ 32;
    }

pub is_empty : List ℕ → Bool
is_empty [] = true
is_empty (c ∷ cs) = false

-- The identity checks of every builder.
pub check_identity : List ℕ → List ℕ → Result Error (Unit {0})
check_identity admin_user_id device_sn = do
  guard (not (is_empty admin_user_id)) admin_user_id_required
  guard (not (is_empty device_sn)) device_sn_required
  guard (leb 12 (length admin_user_id)) admin_user_id_too_short
  guard (leb (length device_sn) 16) device_sn_too_long

pub resolve_identity : Now → List ℕ → List ℕ → Overrides → Result Error Identity
resolve_identity now admin_user_id device_sn over =
    check_identity admin_user_id device_sn >> ok (identity_of now over)

-- `/^([0-9a-fA-F]{2})+$/`
abbrev is_hex_char : ℕ → Bool
is_hex_char c = elim (hex_value c) [ none ↦ false | some v ↦ true ]

pub is_hex_pairs : List ℕ → Bool
is_hex_pairs (c ∷ d ∷ []) = is_hex_char c && is_hex_char d
is_hex_pairs (c ∷ d ∷ cs) = is_hex_char c && is_hex_char d && is_hex_pairs cs
is_hex_pairs _ = false

-- `if (!omitUserFields && …) throw` twice, and the two fields where they are sent.
pub user_fields : Bool → Option (List ℕ) → Option (List ℕ) → Result Error (List (List ℕ))
user_fields true username short_user_id = ok []
user_fields false username short_user_id =
    let name = or_else username [] in
    let short = or_else short_user_id [] in
    do
      guard (not (is_empty name) && not (is_empty short)) user_fields_required
      guard (is_hex_pairs short) bad_short_user_id
      ok (ascii name ∷ from_hex short ∷ [])

-- `Buffer.from([test ? 1 : 0])`
abbrev pub flag_byte : Bool → List ℕ
flag_byte b = (if b then 1 else 0) ∷ []

-- The fields of the settings write, `A1` to `A9`.
pub settings_fields : List ℕ → ℕ → Bool → ℕ → ℕ → ℕ → List (List ℕ)
settings_fields admin_user_id unix_time enabled delay a7 a8 =
    u32le unix_time
    ∷ ascii admin_user_id
    ∷ (0x00 ∷ [])
    ∷ flag_byte enabled
    ∷ u16le delay
    ∷ (0x00 ∷ [])
    ∷ u16le a7
    ∷ u16le a8
    ∷ (0x00 ∷ [])
    ∷ []

module _ (cipher : Cipher) (now : Now) (admin_user_id device_sn : List ℕ) (over : Overrides) where
  pub seal : ℕ → ℕ → Identity → List (List ℕ) → Result Error Ff09Frame
  seal command_code api_command id fields = do
    tlv ← write_tlv 0xa1 fields
    ok (
        assemble_frame cipher command_code api_command (zero_pad_to_block tlv) admin_user_id
          device_sn id.key_time id.seq_num)

  pub build_frame : Bool → Option (List ℕ) → Option (List ℕ) → Bool → Result Error Ff09Frame
  build_frame engage username short_user_id omit_user_fields = do
    check_identity admin_user_id device_sn
    extra ← user_fields omit_user_fields username short_user_id
    let id = identity_of now over
    seal LockCommandCode.on_off_lock LockApiCommand.on_off_lock id
        ((u32le id.unix_time ∷ ascii admin_user_id ∷ flag_byte (not engage) ∷ []) ++ extra)

  pub build_query_frame : Result Error Ff09Frame
  build_query_frame = do
    id ← resolve_identity now admin_user_id device_sn over
    seal LockCommandCode.get_settings LockApiCommand.get_settings id
        (u32le id.unix_time ∷ ascii admin_user_id ∷ [])

  pub build_settings_frame : Bool → ℕ → ℕ → ℕ → Result Error Ff09Frame
  build_settings_frame enabled delay a7 a8 = do
    id ← resolve_identity now admin_user_id device_sn over
    seal LockCommandCode.set_settings LockApiCommand.set_settings id
        (settings_fields admin_user_id id.unix_time enabled delay a7 a8)

  pub build_setting_toggle_frame : ℕ → Bool → Result Error Ff09Frame
  build_setting_toggle_frame setting_id value = do
    id ← resolve_identity now admin_user_id device_sn over
    seal LockCommandCode.set_settings LockApiCommand.set_settings id
        (u32le id.unix_time ∷ ascii admin_user_id ∷ (setting_id % 256 ∷ []) ∷ flag_byte value ∷ [])
