-- ===== src/Adts/Tests.antt =====
-- src/transport/p2p/adts.ts: the reader on two concrete frames.
use eufy_sdk.Prelude.{ℕ, ◌≡◌, refl, List, [], ◌∷◌, ◌++◌, some, All}
use eufy_sdk.Adts.{
  parse_adts_header, has_syncword, frame_length_at, header_length_at, round_at, push_loop, scan,
  header_at, push,
}
use eufy_sdk.Adts.Split.{prepend}
use eufy_sdk.Adts.Stream.{
  push-total, push-append, push-concat_frames, push-IsFrame, IsFrame, IsWaiting, concat_frames,
}

abbrev one : List ℕ
one = 0xff ∷ 0xf1 ∷ 0x60 ∷ 0x40 ∷ 0x01 ∷ 0x00 ∷ 0xfc ∷ 7 ∷ []

abbrev two : List ℕ
two = 0xff ∷ 0xf1 ∷ 0x60 ∷ 0x40 ∷ 0x01 ∷ 0x20 ∷ 0xfc ∷ 8 ∷ 9 ∷ []

abbrev half : List ℕ
half = 0xff ∷ 0xf1 ∷ 0x60 ∷ []

one-IsFrame : IsFrame one
unfolding IsFrame parse_adts_header has_syncword frame_length_at header_length_at header_at
one-IsFrame = (header_at one 0, refl, refl)

two-IsFrame : IsFrame two
unfolding IsFrame parse_adts_header has_syncword frame_length_at header_length_at header_at
two-IsFrame = (header_at two 0, refl, refl)

-- The second frame is cut behind its third byte.
push-half : push [] (one ++ half) ≡ some (one ∷ [], half)
unfolding push scan push_loop round_at parse_adts_header has_syncword frame_length_at
    header_length_at header_at
push-half = refl

push-append_example :
    push [] ((one ++ half) ++ (0x40 ∷ 0x01 ∷ []))
    ≡ prepend (one ∷ []) (push half (0x40 ∷ 0x01 ∷ []))
push-append_example = push-append [] (one ++ half) (0x40 ∷ 0x01 ∷ []) (one ∷ []) half push-half

push-concat_frames_example : push [] (concat_frames (one ∷ two ∷ [])) ≡ some (one ∷ two ∷ [], [])
push-concat_frames_example = push-concat_frames (one ∷ two ∷ []) (one-IsFrame, (two-IsFrame, tt))

push-IsFrame_example : All IsFrame (one ∷ []) × IsWaiting half
push-IsFrame_example = push-IsFrame [] (one ++ half) (one ∷ []) half push-half

push-total_example : (r : List (List ℕ) × List ℕ) × (push half (0xff ∷ []) ≡ some r)
push-total_example = push-total half (0xff ∷ [])
