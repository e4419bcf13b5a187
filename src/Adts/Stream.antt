-- ===== src/Adts/Stream.antt =====
-- `AdtsFrameReader` of src/transport/p2p/adts.ts over a stream of chunks.
use eufy_sdk.Prelude.{
  ℕ, zero, suc, ◌<◌, ◌≡◌, refl, ap, ◌∙◌, sym, ◌⊎◌, inl, inr, List, [], ◌∷◌, ◌++◌, append_assoc,
  some, length, take, drop, arith, length-append, length-take, take-append-drop, subst, All,
  take-append_self, drop-append_self, Option-cases,
}
use eufy_sdk.Adts.{AdtsHeader, halt, frame, round_at, parse_adts_header, push}
use eufy_sdk.Adts.Split.{
  split, prepend, split-append, split-total, split_halt, split_frame, prepend-eq-some, parse_short,
  round_at_frame, round_at-append, Round-cases, split_skip, halt_inversion, round_at_header,
  round_at_halted, parse-append,
}
use eufy_sdk.Adts.Loop.{push-split}

-- `push` always returns: its loop never runs out of fuel.
pub push-total : (b c : List ℕ) → (r : List (List ℕ) × List ℕ) × (push b c ≡ some r)
push-total b c = elim (Option-cases (push b c)) [
  | inl e ↦ absurd (split-total _ (b ++ c) (omega arith) (sym (push-split b c) ∙ e))
  | inr found ↦ found
]

-- Two chunks, one after the other, give the frames and the state of the two joined into one chunk.
pub push-append :
    (b c d : List ℕ) (fs : List (List ℕ)) (rest : List ℕ)
    → push b c ≡ some (fs, rest)
    → push b (c ++ d) ≡ prepend fs (push rest d)
push-append b c d fs rest h =
    rw (push-split b (c ++ d), push-split rest d, ← append_assoc)
      (split-append _ _ (b ++ c) d fs rest (omega arith) (sym (push-split b c) ∙ h))

-- A byte run that is one ADTS frame: its header is there, and declares its length.
unfoldable pub IsFrame : List ℕ → Type 0
IsFrame f = (h : AdtsHeader) × (parse_adts_header f 0 ≡ some h) × (h.frame_length ≡ length f)

round_at-IsFrame : (f : List ℕ) → IsFrame f → round_at f 0 ≡ frame (length f)
unfolding IsFrame round_at
round_at-IsFrame f (h, e, l) = ground (arith, e, l)

-- Whole frames, in any number, come back one by one and leave nothing behind.
pub concat_frames : List (List ℕ) → List ℕ
concat_frames [] = []
concat_frames (f ∷ fs) = f ++ concat_frames fs

round_at-halt : round_at [] 0 ≡ halt
unfolding round_at
round_at-halt = ground (arith, parse_short [])

split-concat_frames :
    (fuel : ℕ) (fs : List (List ℕ))
    → All IsFrame fs
    → length (concat_frames fs) < fuel
    → split fuel (concat_frames fs) ≡ some (fs, [])
unfolding concat_frames
split-concat_frames zero fs h k = absurd (omega arith)
split-concat_frames (suc fuel) [] h k = split_halt fuel [] round_at-halt
split-concat_frames (suc fuel) (f ∷ fs) (hf, hfs) k =
    let e = round_at-IsFrame f hf in
    let whole = round_at-append f (concat_frames fs) (λ z. cc) ∙ e in
    split_frame fuel (length f) _ whole
    ∙ rw
        (
          take-append_self,
          drop-append_self,
          split-concat_frames fuel fs hfs
              (omega (arith, round_at_frame f _ e, length-append f (concat_frames fs))),
        )
        (unfold prepend in refl)

-- A stream of whole frames, in one chunk to an empty reader, comes back frame by frame, and nothing is
-- held back.
pub push-concat_frames :
    (fs : List (List ℕ)) → All IsFrame fs → push [] (concat_frames fs) ≡ some (fs, [])
push-concat_frames fs h =
    push-split [] (concat_frames fs) ∙ split-concat_frames _ fs h (omega arith)

take-IsFrame : (r : List ℕ) (n : ℕ) → round_at r 0 ≡ frame n → IsFrame (take n r)
unfolding IsFrame
take-IsFrame r n e =
    let (h, parsed, len) = round_at_header r n e in
    let (low, high) = round_at_frame r n e in
    let short : length (take n r) ≡ n = omega (arith, length-take n r) in
    let same : parse_adts_header r 0 ≡ parse_adts_header (take n r) 0 =
      ap (λ x. parse_adts_header x 0) (sym (take-append-drop n r))
      ∙ parse-append (take n r) (drop n r) (omega arith) in
    (h, sym same ∙ parsed, len ∙ sym short)

-- What the reader keeps: less than a header, or a header whose frame has not arrived in full.
abbrev pub IsWaiting : List ℕ → Type 0
IsWaiting rest =
    (length rest < 7)
    ⊎ ((h : AdtsHeader) × (parse_adts_header rest 0 ≡ some h) × (length rest < h.frame_length))

split-IsFrame :
    (fuel : ℕ) (r : List ℕ) (fs : List (List ℕ)) (rest : List ℕ)
    → split fuel r ≡ some (fs, rest)
    → All IsFrame fs × IsWaiting rest
split-IsFrame zero r fs rest h = unfold split in cc
split-IsFrame (suc fuel) r fs rest h = elim (Round-cases (round_at r 0)) [
  | inl e ↦
      let (none_yet, all) = halt_inversion fuel r fs rest e h in
      (subst (All IsFrame) none_yet tt, subst IsWaiting all (round_at_halted r e))
  | inr (inl e) ↦ split-IsFrame fuel (drop 1 r) fs rest (sym (split_skip fuel r e) ∙ h)
  | inr (inr (n, e)) ↦
      let (gs, found, joined) = prepend-eq-some _ _ fs rest (sym (split_frame fuel n r e) ∙ h) in
      let (whole, waiting) = split-IsFrame fuel (drop n r) gs rest found in
      (subst (All IsFrame) joined (take-IsFrame r n e, whole), waiting)
]

-- Every frame that `push` returns is one whole ADTS frame, and what it holds back is waiting.
pub push-IsFrame :
    (b c : List ℕ) (fs : List (List ℕ)) (rest : List ℕ)
    → push b c ≡ some (fs, rest)
    → All IsFrame fs × IsWaiting rest
push-IsFrame b c fs rest h = split-IsFrame _ (b ++ c) fs rest (sym (push-split b c) ∙ h)
