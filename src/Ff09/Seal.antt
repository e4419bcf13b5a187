-- ===== src/Ff09/Seal.antt =====
-- The fields of a built frame, as the frame opens to them (src/transport/ff09.ts).
use eufy_sdk.Prelude.{
  ℕ, zero, suc, ◌+◌, ◌-◌, ◌*◌, ◌%◌, ◌<◌, ◌≤◌, ◌≡◌, ◌≢◌, refl, ap, ◌∙◌, List, [], ◌∷◌, ◌++◌, arith,
  All, All-append, length, get_elem?, length-append, take-append_ge, take-replicate_le, length-take,
  Bool-cases, ltb, ltb→lt, ok, replicate, inl, inr,
}
use eufy_sdk.Bytes.{IsByte}
use eufy_sdk.Ff09.{
  Cipher, Ff09Frame, Now, Overrides, Identity, write_tlv, zero_pad_to_block, assemble_frame,
  ceil_div, seal,
}
use eufy_sdk.Ff09.Reply.{decrypt_frame, map_get, parse_settings_response, SettingsResponse}
use eufy_sdk.Ff09.Frame.{decrypt_frame-assemble_frame}
use eufy_sdk.Ff09.Tlv.{parse-write_tlv}

-- Every field fits its length byte, and is a byte string.
abbrev pub IsField : List ℕ → Type 0
IsField f = (length f < 256) × All IsByte f

unfoldable pub total_length : List (List ℕ) → ℕ
total_length [] = 0
total_length (f ∷ fs) = length f + 2 + total_length fs

write_tlv-total :
    (sep : ℕ) (fs : List (List ℕ))
    → All IsField fs
    → (bs : List ℕ) × (write_tlv sep fs ≡ ok bs) × All IsByte bs × (length bs ≡ total_length fs)
unfolding write_tlv total_length
write_tlv-total sep [] h = ([], refl, tt, refl)
write_tlv-total sep (f ∷ fs) ((short, bytes), hfs) =
    let (bs, e, all, len) = write_tlv-total (sep + 1) fs hfs in
    (
      (sep % 256) ∷ (length f % 256) ∷ (f ++ bs),
      ground (arith, e),
      (omega arith, (omega arith, All-append IsByte f bs bytes all)),
      omega (arith, len, length-append f bs),
    )

-- Padding to a block adds zeros only, at most up to the next multiple of sixteen.
zero_pad_to_block_lem :
    (bs : List ℕ)
    → (k : ℕ) × (zero_pad_to_block bs ≡ bs ++ replicate k 0)
      × (length (zero_pad_to_block bs) ≤ length bs + 16)
unfolding zero_pad_to_block
zero_pad_to_block_lem bs = elim (Bool-cases (ltb (length bs) 16)) [
  | inl e ↦ (
    16 - length bs,
    rw e (
        take-append_ge 16 bs _ (omega (arith, ltb→lt _ _ e))
        ∙ ap (◌++◌ bs) (take-replicate_le _ 16 0 (omega arith))),
    rw e (omega (arith, length-take 16 (bs ++ replicate 16 0))),
  )
  | inr e ↦ (
    ceil_div (length bs) 16 * 16 - length bs,
    rw e (
        take-append_ge _ bs _ (omega arith) ∙ ap (◌++◌ bs) (take-replicate_le _ _ 0 (omega arith))),
    rw e (
        omega (
          arith,
          length-take (ceil_div (length bs) 16 * 16)
              (bs ++ replicate (ceil_div (length bs) 16 * 16) 0),
        )),
  )
]

zeros-IsByte : (k : ℕ) → All IsByte (replicate k 0)
zeros-IsByte zero = tt
zeros-IsByte (suc k) = (omega arith, zeros-IsByte k)

-- What a builder seals from its fields opens to those fields again, padded, and reads as them.
pub seal-opens :
    (cipher : Cipher) (now : Now) (admin sn : List ℕ) (over : Overrides) (code api : ℕ)
    (id : Identity) (fs : List (List ℕ)) (status : ℕ)
    → All IsField fs
    → length fs ≤ 95
    → total_length fs < 60000
    → 12 ≤ length admin
    → sn ≢ []
    → (f : Ff09Frame) × (plain : List ℕ) × (r : SettingsResponse) × (seal cipher now admin sn over
          code api id fs
        ≡ ok f)
      × (decrypt_frame cipher f.lock_payload f.time admin sn ≡ ok plain)
      × (parse_settings_response (status ∷ plain) ≡ ok r)
      × ((i : ℕ) → map_get (0xa1 + i) r.fields ≡ get_elem? fs i)
unfolding seal
seal-opens cipher now admin sn over code api id fs status fields few small long named =
    let (bs, written, bytes, len) = write_tlv-total 0xa1 fs fields in
    let (k, padded, size) = zero_pad_to_block_lem bs in
    let (r, parsed, same_status, found) = parse-write_tlv fs status k bs written few in
    (
      assemble_frame cipher code api (zero_pad_to_block bs) admin sn id.key_time id.seq_num,
      zero_pad_to_block bs,
      r,
      rw written,
      decrypt_frame-assemble_frame cipher code api (zero_pad_to_block bs) admin sn id.key_time
          id.seq_num (rw padded (All-append IsByte bs _ bytes (zeros-IsByte k))) (omega arith) long
          named,
      rw padded parsed,
      found,
    )
