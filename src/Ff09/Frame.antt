-- ===== src/Ff09/Frame.antt =====
-- A frame that a builder assembles, opened with the key and vector that it was sealed with.
use eufy_sdk.Prelude.{
  ℕ, ◌+◌, ◌-◌, ◌*◌, ◌%◌, ◌^◌, ◌<◌, ◌≤◌, ◌≡◌, ◌≢◌, refl, sym, ◌∙◌, List, [], ◌∷◌, ◌++◌, some, arith,
  All, All-append, length, take, drop, get_or, take-append_self, length-append, get_or-append_self,
  ok,
}
use eufy_sdk.Bytes.{IsByte, from_hex-to_hex, xor_all, xor_all-IsByte}
use eufy_sdk.Util.{u16le, u16be, u32be-mod}
use eufy_sdk.Ff09.{Cipher, pre_xor, assemble_frame, key_of, iv_of, is_empty}
use eufy_sdk.Ff09.Reply.{decrypt_frame, open_frame}

key_of-mod : (admin : List ℕ) (k : ℕ) → key_of admin (k % 2 ^ 32) ≡ key_of admin k
unfolding key_of
key_of-mod admin k = rw (u32be-mod k)

pre_xor-IsByte : (code : ℕ) (ct : List ℕ) → All IsByte ct → All IsByte (pre_xor code ct)
unfolding pre_xor u16le u16be
pre_xor-IsByte code ct h = (
  omega arith,
  (
    omega arith,
    (
      omega arith,
      (omega arith, (omega arith, (omega arith, (omega arith, (omega arith, (omega arith, h)))))),
    ),
  ),
)

length-pre_xor : (code : ℕ) (ct : List ℕ) → length (pre_xor code ct) ≡ length ct + 9
unfolding pre_xor u16le u16be
length-pre_xor code ct = omega arith

-- What `open_frame` reads off the bytes of a frame.
record Opens (code : ℕ) (ct buf : List ℕ) : Type 0 where
  magic0 : get_or buf 0 0 ≡ 0xff
  magic1 : get_or buf 1 0 ≡ 0x09
  size : get_or buf 2 0 + 256 * get_or buf 3 0 ≡ length buf
  len : length buf ≡ length ct + 10
  head : take (length buf - 1) buf ≡ pre_xor code ct
  check : get_or buf (length buf - 1) 0 ≡ xor_all 0 (pre_xor code ct)
  body : drop 9 (pre_xor code ct) ≡ ct

frame_bytes : ℕ → List ℕ → List ℕ
frame_bytes code ct = pre_xor code ct ++ (xor_all 0 (pre_xor code ct) % 256 ∷ [])

declared :
    (code : ℕ) (ct tail : List ℕ)
    → length ct + 10 < 2 ^ 16
    → get_or (pre_xor code ct ++ tail) 2 0 + 256 * get_or (pre_xor code ct ++ tail) 3 0
      ≡ length ct + 10
unfolding pre_xor u16le u16be
declared code ct tail fits = omega arith

frame_bytes-Opens :
    (code : ℕ) (ct : List ℕ)
    → All IsByte ct
    → length ct + 10 < 2 ^ 16
    → Opens code ct (frame_bytes code ct)
unfolding frame_bytes
frame_bytes-Opens code ct h fits =
    let byte : IsByte (xor_all 0 (pre_xor code ct)) =
      xor_all-IsByte 0 _ (omega arith) (pre_xor-IsByte code ct h) in
    let tail = xor_all 0 (pre_xor code ct) % 256 ∷ [] in
    let len : length (pre_xor code ct ++ tail) ≡ length ct + 10 =
      omega (arith, length-append (pre_xor code ct) tail, length-pre_xor code ct) in
    let last : length (pre_xor code ct ++ tail) - 1 ≡ length (pre_xor code ct) =
      omega (arith, len, length-pre_xor code ct) in
    record {
      magic0 = unfold pre_xor in refl;
      magic1 = unfold pre_xor in refl;
      size = declared code ct tail fits ∙ sym len;
      len = len;
      head = rw last (take-append_self (pre_xor code ct) tail);
      check = rw (last, get_or-append_self) (omega (arith, byte));
      body = unfold pre_xor u16le u16be in refl;
    }

open_frame-Opens :
    (cipher : Cipher) (code : ℕ) (ct buf plain admin sn : List ℕ) (key_time : ℕ)
    → Opens code ct buf
    → cipher.decrypt (key_of admin key_time) (iv_of sn) ct ≡ some plain
    → 12 ≤ length admin
    → sn ≢ []
    → open_frame cipher buf key_time admin sn ≡ ok plain
unfolding open_frame is_empty
open_frame-Opens cipher code ct buf plain [] sn key_time o opened long named = absurd (omega arith)
open_frame-Opens cipher code ct buf plain (a ∷ admin) [] key_time o opened long named =
    absurd (named refl)
open_frame-Opens cipher code ct buf plain (a ∷ admin) (s ∷ sn) key_time o opened long named =
    rw (o.head, o.body, key_of-mod (a ∷ admin) key_time, opened)
      (ground (arith, o.magic0, o.magic1, o.size, o.len, o.check))

-- The reader gets back the plain text that was sealed, whichever builder sealed it: from the frame's
-- own hex text and time, for an owner's id of twelve characters at least and a serial number, as long as
-- the plain text is a byte string below 65000 bytes.
pub decrypt_frame-assemble_frame :
    (cipher : Cipher) (code api : ℕ) (plain admin sn : List ℕ) (key_time seq_num : ℕ)
    → All IsByte plain
    → length plain < 65000
    → 12 ≤ length admin
    → sn ≢ []
    → let f = assemble_frame cipher code api plain admin sn key_time seq_num in
      decrypt_frame cipher f.lock_payload f.time admin sn ≡ ok plain
unfolding assemble_frame decrypt_frame frame_bytes
decrypt_frame-assemble_frame cipher code api plain admin sn key_time seq_num h fits long named =
    let ct = cipher.encrypt (key_of admin key_time) (iv_of sn) plain in
    let bytes = cipher.encrypt-IsByte (key_of admin key_time) (iv_of sn) plain h in
    rw
      (from_hex-to_hex (frame_bytes code ct)
        (All-append IsByte _ _ (pre_xor-IsByte code ct bytes) (omega arith)))
      (open_frame-Opens cipher code ct _ plain admin sn key_time
        (frame_bytes-Opens code ct bytes
          (omega (arith, cipher.length-encrypt (key_of admin key_time) (iv_of sn) plain)))
        (cipher.decrypt-encrypt _ _ plain h) long named)
