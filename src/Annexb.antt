-- ===== src/Annexb.antt =====
-- src/transport/p2p/annexb.ts: the scan for start codes and the parameter sets. A buffer is a list of
-- byte values; `Rbsp` reads the syntax of a parameter set and `Geometry` the picture size.
pub mod Rbsp
pub mod Geometry
pub mod Sets
mod Tests
use eufy_sdk.Prelude.{
  ℕ, ◌+◌, ◌-◌, ◌/◌, Bool, true, false, ◌&&◌, ◌||◌, List, [], ◌∷◌, ◌++◌, Option, none, some, length,
  get_or, take, drop, ltb, leb, ◌==◌, if◌then◌else◌, bit_and,
}

-- `VideoCodec` of src/core/contracts.ts.
pub data VideoCodec : Type 0 where
  h264 h265 av1 : VideoCodec

unfoldable pub same_codec : VideoCodec → VideoCodec → Bool
same_codec h264 h264 = true
same_codec h265 h265 = true
same_codec av1 av1 = true
same_codec _ _ = false

-- `ANNEXB_START`.
abbrev pub annexb_start : List ℕ
annexb_start = 0 ∷ 0 ∷ 0 ∷ 1 ∷ []

-- `buf[i]`.
abbrev pub byte_at : List ℕ → ℕ → ℕ
byte_at buf i = get_or buf i 0

-- The tests of `nalStarts`, on what is left of the buffer at its index.
pub is_three_byte_code : List ℕ → Bool
is_three_byte_code rest =
    ltb 3 (length rest) && (byte_at rest 0 == 0) && (byte_at rest 1 == 0) && (byte_at rest 2 == 1)

pub is_four_byte_code : List ℕ → Bool
is_four_byte_code rest =
    ltb 4 (length rest)
    && (byte_at rest 0 == 0)
    && (byte_at rest 1 == 0)
    && (byte_at rest 2 == 0)
    && (byte_at rest 3 == 1)

-- `nalStarts` from index `i`, where `rest` is what is left of the buffer.
pub starts_from : ℕ → List ℕ → List ℕ
starts_from i [] = []
starts_from i (b ∷ rest) =
    let more = starts_from (i + 1) rest in
    if is_three_byte_code (b ∷ rest)
    then (i + 3) ∷ more
    else if is_four_byte_code (b ∷ rest)
    then (i + 4) ∷ more
    else more

pub nal_starts : List ℕ → List ℕ
nal_starts buf = starts_from 0 buf

-- `startCodeBegin`; an offset that `nalStarts` yields is 3 at least.
pub start_code_begin : List ℕ → ℕ → ℕ
start_code_begin buf payload_offset =
    let three_byte = payload_offset - 3 in
    if leb 1 three_byte && (byte_at buf (three_byte - 1) == 0) then three_byte - 1 else three_byte

-- `offsets[k + 1]`, backed up over its start code, or the end of the buffer.
abbrev pub nal_end : List ℕ → List ℕ → ℕ
nal_end buf [] = length buf
nal_end buf (next ∷ _) = start_code_begin buf next

-- `if (nal.length) nals.push(nal)`
abbrev pub if_any : List ℕ → List (List ℕ) → List (List ℕ)
if_any [] nals = nals
if_any (b ∷ bs) nals = (b ∷ bs) ∷ nals

-- The loop of `splitAnnexbNals` and of `extractParamSets` over the offsets.
pub nals_at : List ℕ → List ℕ → List (List ℕ)
nals_at buf [] = []
nals_at buf (start ∷ offsets) =
    let more = nals_at buf offsets in
    if_any (take (nal_end buf offsets - start) (drop start buf)) more

pub split_annexb_nals : List ℕ → List (List ℕ)
split_annexb_nals buf = nals_at buf (nal_starts buf)

-- `(b >> 1) & 0x3f` and `b & 0x1f`.
abbrev pub h265_type : ℕ → ℕ
h265_type b = bit_and (b / 2) 0x3f

abbrev pub h264_type : ℕ → ℕ
h264_type b = bit_and b 0x1f

-- What the byte at an offset says of the codec.
abbrev codec_of_byte : ℕ → Option VideoCodec
codec_of_byte b =
    if (h265_type b == 32) || (h265_type b == 33) || (h265_type b == 34)
    then some h265
    else if (h264_type b == 7) || (h264_type b == 8)
    then some h264
    else none

pub sniff_loop : List ℕ → List ℕ → Option VideoCodec
sniff_loop buf [] = none
sniff_loop buf (p ∷ offsets) =
    let rest = sniff_loop buf offsets in
    if ltb 64 p
    then none
    else elim (codec_of_byte (byte_at buf p)) [ some c ↦ some c | none ↦ rest ]

pub sniff_annexb_codec : List ℕ → Option VideoCodec
sniff_annexb_codec buf = sniff_loop buf (nal_starts buf)

pub record ParamSets : Type 0 where
  pub codec : VideoCodec
  pub sps : List (List ℕ)
  pub pps : List (List ℕ)
  pub vps : List (List ℕ)

-- One round of the loop of `extractParamSets` on a NAL that is not empty.
pub with_nal : List ℕ → ParamSets → ParamSets
with_nal nal s = elim s.codec [
  | h265 ↦
      let t = h265_type (byte_at nal 0) in
      if t == 32
      then record s { vps = s.vps ++ (nal ∷ []) }
      else if t == 33
      then record s { sps = s.sps ++ (nal ∷ []) }
      else if t == 34
      then record s { pps = s.pps ++ (nal ∷ []) }
      else s
  | _ ↦
      let t = h264_type (byte_at nal 0) in
      if t == 7
      then record s { sps = s.sps ++ (nal ∷ []) }
      else if t == 8
      then record s { pps = s.pps ++ (nal ∷ []) }
      else s
]

pub with_nals : List (List ℕ) → ParamSets → ParamSets
with_nals [] s = s
with_nals (nal ∷ nals) s = with_nals nals (with_nal nal s)

abbrev pub no_sets : VideoCodec → ParamSets
no_sets codec = record { codec = codec; sps = []; pps = []; vps = [] }

-- `if (!sps.length && !pps.length) return undefined`
pub unless_bare : ParamSets → Option ParamSets
unless_bare s = if (length s.sps == 0) && (length s.pps == 0) then none else some s

-- A codec is sniffed at an offset, so that the test for no offsets is met by it.
pub extract_param_sets : List ℕ → Option ParamSets
extract_param_sets buf = elim (sniff_annexb_codec buf) [
  | none ↦ none
  | some codec ↦ unless_bare (with_nals (split_annexb_nals buf) (no_sets codec))
]

-- `announced.length ? announced : current`
abbrev pub if_announced : List (List ℕ) → List (List ℕ) → List (List ℕ)
if_announced [] current = current
if_announced (nal ∷ nals) current = nal ∷ nals

pub folded : ParamSets → ParamSets → ParamSets
folded announced current = record {
  codec = announced.codec;
  sps = if_announced announced.sps current.sps;
  pps = if_announced announced.pps current.pps;
  vps = if_announced announced.vps current.vps;
}

pub updated_param_sets : List ℕ → Option ParamSets → Option ParamSets
updated_param_sets buf current = elim (extract_param_sets buf) [
  | none ↦ current
  | some announced ↦ elim current [
    | none ↦ some announced
    | some c ↦
        if same_codec c.codec announced.codec then some (folded announced c) else some announced
  ]
]

-- The list `prefix` with `annexb` behind it, concatenated.
pub prefixed : List (List ℕ) → List ℕ → List ℕ
prefixed [] annexb = annexb
prefixed (nal ∷ nals) annexb = annexb_start ++ nal ++ prefixed nals annexb

-- Sets with no NAL give the input, as `prefixed` does.
pub prefix_param_sets : List ℕ → ParamSets → List ℕ
prefix_param_sets annexb sets = prefixed (sets.vps ++ sets.sps ++ sets.pps) annexb

abbrev is_idr : VideoCodec → ℕ → Bool
is_idr h265 b = (h265_type b == 19) || (h265_type b == 20)
is_idr _ b = h264_type b == 5

pub idr_loop : VideoCodec → List ℕ → List ℕ → Bool
idr_loop codec buf [] = false
idr_loop codec buf (p ∷ offsets) =
    let rest = idr_loop codec buf offsets in is_idr codec (byte_at buf p) || rest

pub has_idr : List ℕ → VideoCodec → Bool
has_idr buf codec = idr_loop codec buf (nal_starts buf)
