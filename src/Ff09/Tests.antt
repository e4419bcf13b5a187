-- ===== src/Ff09/Tests.antt =====
-- src/transport/ff09.ts: the builders and the readers under a concrete cipher.
use eufy_sdk.Prelude.{
  ℕ, zero, suc, ap, ◌+◌, ◌-◌, ◌%◌, ◌≡◌, ◌≢◌, refl, true, List, [], ◌∷◌, ◌++◌, Option, none, some,
  arith, All, All-append, length, drop, get_elem?, replicate, ok, length-append,
}
use eufy_sdk.Bytes.{IsByte}
use eufy_sdk.Util.{u16le}
use eufy_sdk.Ff09.{Cipher, Ff09Frame, Now, assemble_frame, write_tlv, flag_byte}
use eufy_sdk.Ff09.Reply.{
  decrypt_frame, map_get, map_set, parse_loop, parse_settings_response, SettingsResponse,
  build_autolock_set_frame,
}
use eufy_sdk.Ff09.Frame.{decrypt_frame-assemble_frame}
use eufy_sdk.Ff09.Tlv.{parse-write_tlv}
use eufy_sdk.Ff09.Settings.{build_autolock_set_frame_keeps, IsIdentity}

-- The padding of a text, ahead of it: its first byte is its length.
pad_front : ℕ → List ℕ
pad_front k = k ∷ replicate (k - 1) 0

pad_size : List ℕ → ℕ
pad_size plain = 16 - length plain % 16

unpad : List ℕ → Option (List ℕ)
unpad [] = none
unpad (k ∷ bs) = some (drop (k - 1) bs)

zeros-IsByte : (k : ℕ) → All IsByte (replicate k 0)
zeros-IsByte zero = tt
zeros-IsByte (suc k) = (omega arith, zeros-IsByte k)

drop_zeros : (k : ℕ) (bs : List ℕ) → drop k (replicate k 0 ++ bs) ≡ bs
drop_zeros zero bs = refl
drop_zeros (suc k) bs = drop_zeros k bs

length_zeros : (k : ℕ) → length {A = ℕ} (replicate k 0) ≡ k
length_zeros zero = refl
length_zeros (suc k) = omega (arith, length_zeros k)

-- A cipher that pads and does nothing else.
abbrev padding_only : Cipher
padding_only = record {
  encrypt = λ key iv plain. pad_front (pad_size plain) ++ plain;
  decrypt = λ key iv ct. unpad ct;
  decrypt-encrypt =
      λ key iv plain h. unfold unpad pad_front in ap some (drop_zeros (pad_size plain - 1) plain);
  encrypt-IsByte = λ key iv plain h.
      unfold pad_front pad_size in (omega arith, All-append IsByte _ plain (zeros-IsByte _) h);
  length-encrypt = λ key iv plain.
      unfold pad_front pad_size in
      omega (
        arith,
        length-append (replicate (16 - length plain % 16 - 1) 0) plain,
        length_zeros (16 - length plain % 16 - 1),
      );
}

abbrev owner : List ℕ
owner = 0x61 ∷ 0x62 ∷ 0x63 ∷ 0x64 ∷ 0x65 ∷ 0x66 ∷ 0x67 ∷ 0x68 ∷ 0x69 ∷ 0x6a ∷ 0x6b ∷ 0x6c ∷ []

abbrev lock : List ℕ
lock = 0x54 ∷ 0x31 ∷ []

abbrev noon : Now
noon = record { seconds = 1700000000; nonce = 42 }

-- A device's reply: status 0, the flag, a delay of 30, no schedule, 06:30 to 22:15.
abbrev reply : List ℕ
reply =
    0 ∷ 0xa1 ∷ 1 ∷ 1 ∷ 0xa2 ∷ 2 ∷ 30 ∷ 0 ∷ 0xa3 ∷ 1 ∷ 0 ∷ 0xa4 ∷ 2 ∷ 6 ∷ 30 ∷ 0xa5 ∷ 2 ∷ 22 ∷ 15
    ∷ []

abbrev reply_fields : List (ℕ × List ℕ)
reply_fields =
    (0xa1, 1 ∷ [])
    ∷ (0xa2, 30 ∷ 0 ∷ [])
    ∷ (0xa3, 0 ∷ [])
    ∷ (0xa4, 6 ∷ 30 ∷ [])
    ∷ (0xa5, 22 ∷ 15 ∷ [])
    ∷ []

abbrev read_reply : SettingsResponse
read_reply = record { status = 0; fields = reply_fields }

reply_parsed : parse_settings_response reply ≡ ok read_reply
unfolding parse_settings_response parse_loop map_set
reply_parsed = refl

lock_named : lock ≢ []
lock_named e = cc

abbrev answer : Ff09Frame
answer = assemble_frame padding_only 0x21 7 reply owner lock 1699999999 3

reply_bytes : All IsByte reply
reply_bytes = omega arith

decrypt_frame-assemble_frame_example :
    decrypt_frame padding_only answer.lock_payload answer.time owner lock ≡ ok reply
decrypt_frame-assemble_frame_example =
    decrypt_frame-assemble_frame padding_only 0x21 7 reply owner lock 1699999999 3 reply_bytes
      (omega arith) (omega arith) lock_named

opened : decrypt_frame padding_only answer.lock_payload 1699999999 owner lock ≡ ok reply
unfolding assemble_frame
opened = decrypt_frame-assemble_frame_example

owner-IsIdentity : IsIdentity owner lock
owner-IsIdentity = record {
  long = omega arith;
  short = omega arith;
  named = lock_named;
  fits = omega arith;
}

build_autolock_set_frame_keeps_example :
    (f : Ff09Frame) × (plain : List ℕ) × (r : SettingsResponse) × (build_autolock_set_frame
        padding_only noon answer.lock_payload 1699999999 owner lock true none
      ≡ ok f)
    × (decrypt_frame padding_only f.lock_payload f.time owner lock ≡ ok plain)
    × (parse_settings_response (0 ∷ plain) ≡ ok r)
    × (map_get 0xa4 r.fields ≡ some (flag_byte true))
    × (map_get 0xa5 r.fields ≡ some (u16le 30))
    × (map_get 0xa7 r.fields ≡ some (6 ∷ 30 ∷ []))
    × (map_get 0xa8 r.fields ≡ some (22 ∷ 15 ∷ []))
    × (map_get 0xa3 r.fields ≡ some (0 ∷ []))
    × (map_get 0xa6 r.fields ≡ some (0 ∷ []))
    × (map_get 0xa9 r.fields ≡ some (0 ∷ []))
    × (map_get 0xaa r.fields ≡ none)
build_autolock_set_frame_keeps_example =
    build_autolock_set_frame_keeps padding_only noon answer.lock_payload 1699999999 owner lock reply
      read_reply true none 30 0 6 30 22 15 [] [] [] 0 owner-IsIdentity opened reply_parsed
      (unfold map_get in refl) (unfold map_get in refl) (unfold map_get in refl) (omega arith)

written : write_tlv 0xa1 ((1 ∷ []) ∷ (2 ∷ 3 ∷ []) ∷ []) ≡ ok (0xa1 ∷ 1 ∷ 1 ∷ 0xa2 ∷ 2 ∷ 2 ∷ 3 ∷ [])
unfolding write_tlv
written = refl

parse-write_tlv_example :
    (r : SettingsResponse) × (parse_settings_response
        (0 ∷ ((0xa1 ∷ 1 ∷ 1 ∷ 0xa2 ∷ 2 ∷ 2 ∷ 3 ∷ []) ++ replicate 4 0))
      ≡ ok r)
    × (r.status ≡ 0)
    × ((i : ℕ) → map_get (0xa1 + i) r.fields ≡ get_elem? ((1 ∷ []) ∷ (2 ∷ 3 ∷ []) ∷ []) i)
parse-write_tlv_example =
    parse-write_tlv ((1 ∷ []) ∷ (2 ∷ 3 ∷ []) ∷ []) 0 4 (0xa1 ∷ 1 ∷ 1 ∷ 0xa2 ∷ 2 ∷ 2 ∷ 3 ∷ [])
      written (omega arith)
