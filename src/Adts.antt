-- ===== src/Adts.antt =====
-- src/transport/p2p/adts.ts: the header parser and the incremental frame scanner. A buffer is a
-- list of byte values; `subarray` is `take` after `drop`.
pub mod Split
mod Loop
pub mod Stream
mod Tests
use eufy_sdk.Prelude.{
  ℕ, zero, suc, ◌+◌, ◌*◌, ◌/◌, ◌^◌, Bool, ◌&&◌, List, [], ◌∷◌, ◌++◌, Option, none, some, length,
  get_or, take, drop, ltb, ◌==◌, if◌then◌else◌, bit_and, bit_or,
}

-- `PROFILE_AAC_LC`, `FREQ_INDEX_16K`, `CHANNELS_MONO`, `HEADER_LEN_NO_CRC`.
abbrev pub profile_aac_lc : ℕ
profile_aac_lc = 1

abbrev pub freq_index_16k : ℕ
freq_index_16k = 8

abbrev pub channels_mono : ℕ
channels_mono = 1

abbrev pub header_len_no_crc : ℕ
header_len_no_crc = 7

pub record AdtsHeader : Type 0 where
  pub frame_length : ℕ
  pub header_length : ℕ
  pub profile : ℕ
  pub frequency_index : ℕ
  pub channels : ℕ

-- `buf[i]`; every read below stands behind the length test of `parse_adts_header`.
abbrev pub byte_at : List ℕ → ℕ → ℕ
byte_at buf i = get_or buf i 0

-- `buf[offset] === 0xff && (buf[offset + 1] & 0xf0) === 0xf0`
pub has_syncword : List ℕ → ℕ → Bool
has_syncword buf offset =
    (byte_at buf offset == 0xff) && (bit_and (byte_at buf (offset + 1)) 0xf0 == 0xf0)

pub header_length_at : List ℕ → ℕ → ℕ
header_length_at buf offset = if bit_and (byte_at buf (offset + 1)) 0x01 == 0 then 9 else 7

pub frame_length_at : List ℕ → ℕ → ℕ
frame_length_at buf offset =
    bit_or
      (bit_or (bit_and (byte_at buf (offset + 3)) 0x03 * 2 ^ 11) (byte_at buf (offset + 4) * 2 ^ 3))
      (bit_and (byte_at buf (offset + 5)) 0xe0 / 2 ^ 5)

pub header_at : List ℕ → ℕ → AdtsHeader
header_at buf offset = record {
  frame_length = frame_length_at buf offset;
  header_length = header_length_at buf offset;
  profile = bit_and (byte_at buf (offset + 2)) 0xc0 / 2 ^ 6;
  frequency_index = bit_and (byte_at buf (offset + 2)) 0x3c / 2 ^ 2;
  channels =
      bit_or (bit_and (byte_at buf (offset + 2)) 0x01 * 2 ^ 2)
        (bit_and (byte_at buf (offset + 3)) 0xc0 / 2 ^ 6);
}

pub parse_adts_header : List ℕ → ℕ → Option AdtsHeader
parse_adts_header buf offset =
    if ltb (length buf) (offset + header_len_no_crc)
    then none
    else if has_syncword buf offset
    then if ltb (frame_length_at buf offset) (header_length_at buf offset)
      then none
      else some (header_at buf offset)
    else none

pub is_supported_adts : AdtsHeader → Bool
is_supported_adts h =
    (h.profile == profile_aac_lc)
    && (h.frequency_index == freq_index_16k)
    && (h.channels == channels_mono)

-- What one round of the loop of `push` does at `at`.
pub data Round : Type 0 where
  halt : Round
  skip : Round
  frame : ℕ → Round

pub round_at : List ℕ → ℕ → Round
round_at buf at = elim (parse_adts_header buf at) [
  | none ↦ if ltb (length buf) (at + header_len_no_crc) then halt else skip
  | some h ↦ if ltb (length buf) (at + h.frame_length) then halt else frame h.frame_length
]

-- The loop of `push` from `at`, with the frames pushed so far; `none` means that the fuel ran out.
pub push_loop : ℕ → List ℕ → ℕ → List (List ℕ) → Option (List (List ℕ) × ℕ)
push_loop zero buf at frames = none
push_loop (suc fuel) buf at frames = elim (round_at buf at) [
  | halt ↦ some (frames, at)
  | skip ↦ push_loop fuel buf (at + 1) frames
  | frame n ↦ push_loop fuel buf (at + n) (frames ++ (take n (drop at buf) ∷ []))
]

-- The state `this.buffered` after the loop, beside the frames that `push` returns.
abbrev finish : List ℕ → List (List ℕ) × ℕ → List (List ℕ) × List ℕ
finish buf (frames, at) = (frames, if at == 0 then buf else drop at buf)

abbrev refill : List ℕ → List ℕ → List ℕ
refill [] chunk = chunk
refill (b ∷ bs) chunk = (b ∷ bs) ++ chunk

scan : List ℕ → Option (List (List ℕ) × List ℕ)
scan buf = elim (push_loop (suc (length buf)) buf 0 []) [
  | none ↦ none
  | some r ↦ some (finish buf r)
]

pub push : List ℕ → List ℕ → Option (List (List ℕ) × List ℕ)
push buffered chunk = scan (refill buffered chunk)

-- The getter `pending`.
pub pending : List ℕ → ℕ
pending buffered = length buffered
