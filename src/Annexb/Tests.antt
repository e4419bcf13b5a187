-- ===== src/Annexb/Tests.antt =====
-- src/transport/p2p/annexb.ts: small buffers, and the parameter set of a 1080p stream.
use eufy_sdk.Prelude.{ℕ, ◌≡◌, refl, true, List, [], ◌∷◌, ◌++◌, some, arith}
use eufy_sdk.MapPixels.{pos}
use eufy_sdk.Annexb.{
  ParamSets, h264, nal_starts, starts_from, is_three_byte_code, is_four_byte_code, start_code_begin,
  nals_at, split_annexb_nals, sniff_annexb_codec, sniff_loop, prefixed, prefix_param_sets,
  extract_param_sets, with_nal, with_nals, unless_bare,
}
use eufy_sdk.Annexb.Rbsp.{
  reader, unescape, is_escape, u, u_loop, ue, ue_loop, bit_at, scaling_list, se_of, se,
}
use eufy_sdk.Annexb.Rbsp.Bits.{bits, digits, exp_golomb, reads_at, ue-exp_golomb}
use eufy_sdk.Annexb.Rbsp.Escape.{escape, has_no_three, unescape-escape}
use eufy_sdk.Annexb.Geometry.{
  CodedGeometry, coded_geometry, last_nal, geometry_of, if_plausible, h264_geometry, answer,
  cropped, chroma_subsampling, is_one_of, minus, crop_window, chroma_fields, scaling_lists,
  skip_picture_order,
}
use eufy_sdk.Annexb.Geometry.Plausible.{IsPlausible, coded_geometry-IsPlausible}
use eufy_sdk.Annexb.Sets.{is_clean, are_clean, split-prefix_param_sets}

-- An SPS and a PPS, which the camera sends once, and a slice.
abbrev some_sets : ParamSets
some_sets = record {
  codec = h264;
  sps = (0x67 ∷ 0x42 ∷ []) ∷ [];
  pps = (0x68 ∷ 0xce ∷ []) ∷ [];
  vps = [];
}

abbrev some_unit : List (List ℕ)
some_unit = (0x65 ∷ 0x88 ∷ []) ∷ []

are_clean_here : are_clean ((some_sets.vps ++ some_sets.sps ++ some_sets.pps) ++ some_unit) ≡ true
unfolding are_clean is_clean
are_clean_here = refl

split-prefix_param_sets_example :
    split_annexb_nals (prefix_param_sets (prefixed some_unit []) some_sets)
    ≡ (0x67 ∷ 0x42 ∷ []) ∷ (0x68 ∷ 0xce ∷ []) ∷ (0x65 ∷ 0x88 ∷ []) ∷ []
split-prefix_param_sets_example = split-prefix_param_sets some_unit some_sets are_clean_here

-- The start code at the end of a buffer has no body.
starts_short : nal_starts (9 ∷ 0 ∷ 0 ∷ 1 ∷ []) ≡ []
unfolding nal_starts starts_from is_three_byte_code is_four_byte_code
starts_short = refl

found_again :
    extract_param_sets (prefix_param_sets (prefixed some_unit []) some_sets) ≡ some some_sets
unfolding extract_param_sets prefix_param_sets prefixed sniff_annexb_codec sniff_loop nal_starts
    starts_from is_three_byte_code is_four_byte_code split_annexb_nals nals_at start_code_begin
    with_nals with_nal unless_bare
found_again = refl

-- The code 00110 of 5.
five_coded : bits (0b00110000 ∷ []) ≡ exp_golomb 2 2 ++ (0 ∷ 0 ∷ 0 ∷ [])
unfolding bits exp_golomb digits
five_coded = refl

ue-exp_golomb_example : ue (reads_at (0b00110000 ∷ []) 0) ≡ (5, reads_at (0b00110000 ∷ []) 5)
ue-exp_golomb_example =
    ue-exp_golomb 2 2 (0b00110000 ∷ []) 0 (0 ∷ 0 ∷ 0 ∷ []) (omega arith) (omega arith) five_coded

-- Two zeros and a 1 in a payload.
no_three_here : has_no_three 0 (7 ∷ 0 ∷ 0 ∷ 1 ∷ []) ≡ true
unfolding has_no_three
no_three_here = refl

unescape-escape_example : unescape [] (escape 0 (7 ∷ 0 ∷ 0 ∷ 1 ∷ [])) ≡ 7 ∷ 0 ∷ 0 ∷ 1 ∷ []
unescape-escape_example = unescape-escape (7 ∷ 0 ∷ 0 ∷ 1 ∷ []) no_three_here

-- A payload byte 3 behind two zeros is lost.
three_lost : unescape [] (escape 0 (0 ∷ 0 ∷ 3 ∷ 9 ∷ [])) ≡ 0 ∷ 0 ∷ 9 ∷ []
unfolding unescape escape is_escape
three_lost = refl

-- 1920 by 1080, coded as 1088 rows.
abbrev hd_sets : ParamSets
hd_sets = record {
  codec = h264;
  sps =
      (0x67 ∷ 0x64 ∷ 0x00 ∷ 0x28 ∷ 0xac ∷ 0xd9 ∷ 0x40 ∷ 0x78 ∷ 0x02 ∷ 0x27 ∷ 0xe5 ∷ 0x84 ∷ 0x00
        ∷ 0x00 ∷ 0x03 ∷ 0x00 ∷ 0x04 ∷ [])
      ∷ [];
  pps = [];
  vps = [];
}

abbrev hd : CodedGeometry
hd = record {
  width = pos 1920;
  height = pos 1080;
  coded = record { width = 1920; height = 1088 };
  crop = record { left = 0; right = 0; top = 0; bottom = 8 };
}

hd_read : coded_geometry hd_sets ≡ some hd
unfolding coded_geometry last_nal geometry_of if_plausible h264_geometry answer cropped
    chroma_subsampling is_one_of minus crop_window chroma_fields scaling_lists skip_picture_order
    reader unescape is_escape u u_loop ue ue_loop bit_at scaling_list se_of se
hd_read = refl

coded_geometry-IsPlausible_example : IsPlausible hd
coded_geometry-IsPlausible_example = coded_geometry-IsPlausible hd_sets hd hd_read
