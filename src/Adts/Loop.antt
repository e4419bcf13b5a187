-- ===== src/Adts/Loop.antt =====
-- The loop of `push` over offsets, related to `split` over the unread bytes.
use eufy_sdk.Prelude.{
  ℕ, zero, suc, ◌+◌, ◌≤◌, ◌≡◌, refl, ap, ◌∙◌, inl, inr, List, [], ◌∷◌, ◌++◌, append-nil, Option,
  none, some, length, take, drop, arith, length-drop, drop-drop,
}
use eufy_sdk.Adts.{halt, skip, frame, round_at, push_loop, push, refill, finish, scan}
use eufy_sdk.Adts.Split.{
  split, prepend, split_halt, split_skip, split_frame, round_at-drop, round_at_frame, round_at_skip,
  Round-cases, prepend-prepend, prepend-nil,
}

loop_result : List ℕ → Option (List (List ℕ) × ℕ) → Option (List (List ℕ) × List ℕ)
loop_result buf none = none
loop_result buf (some (fs, at)) = some (fs, drop at buf)

module _ (fuel : ℕ) (buf : List ℕ) (at : ℕ) (frames : List (List ℕ)) where
  push_loop_halt : round_at buf at ≡ halt → push_loop (suc fuel) buf at frames ≡ some (frames, at)
  unfolding push_loop
  push_loop_halt e = ground (arith, e)

  push_loop_skip :
      round_at buf at ≡ skip
      → push_loop (suc fuel) buf at frames ≡ push_loop fuel buf (at + 1) frames
  unfolding push_loop
  push_loop_skip e = ground (arith, e)

  push_loop_frame :
      (n : ℕ)
      → round_at buf at ≡ frame n
      → push_loop (suc fuel) buf at frames
        ≡ push_loop fuel buf (at + n) (frames ++ (take n (drop at buf) ∷ []))
  unfolding push_loop
  push_loop_frame n e = ground (arith, e)

-- The loop over offsets computes the split of the bytes from its offset on.
push_loop-split :
    (fuel : ℕ) (buf : List ℕ) (at : ℕ) (frames : List (List ℕ))
    → at ≤ length buf
    → loop_result buf (push_loop fuel buf at frames) ≡ prepend frames (split fuel (drop at buf))
push_loop-split zero buf at frames h = unfold push_loop split prepend loop_result in refl
push_loop-split (suc fuel) buf at frames h = elim (Round-cases (round_at (drop at buf) 0)) [
  | inl e ↦
      rw (push_loop_halt fuel buf at frames (round_at-drop buf at h ∙ e), split_halt fuel _ e)
        (unfold prepend loop_result in rw append-nil)
  | inr (inl e) ↦
      rw
        (
          push_loop_skip fuel buf at frames (round_at-drop buf at h ∙ e),
          split_skip fuel _ e,
          drop-drop at 1 buf,
        )
        (push_loop-split fuel buf (at + 1) frames
          (omega (arith, round_at_skip _ e, length-drop at buf)))
  | inr (inr (n, e)) ↦
      rw
        (
          push_loop_frame fuel buf at frames n (round_at-drop buf at h ∙ e),
          split_frame fuel n _ e,
          prepend-prepend,
          drop-drop at n buf,
        )
        (push_loop-split fuel buf (at + n) (frames ++ (take n (drop at buf) ∷ []))
          (omega (arith, round_at_frame _ n e, length-drop at buf)))
]

refill-append : (b c : List ℕ) → refill b c ≡ b ++ c
refill-append [] c = refl
refill-append (x ∷ b) c = refl

finish-loop_result :
    (buf : List ℕ) (o : Option (List (List ℕ) × ℕ))
    → elim o [ none ↦ none | some r ↦ some (finish buf r) ] ≡ loop_result buf o
unfolding loop_result
finish-loop_result buf none = refl
finish-loop_result buf (some (fs, zero)) = refl
finish-loop_result buf (some (fs, suc at)) = ground arith

scan-split : (buf : List ℕ) → scan buf ≡ split (suc (length buf)) buf
unfolding scan
scan-split buf = finish-loop_result buf _ ∙ push_loop-split _ buf 0 [] (omega arith) ∙ prepend-nil _

-- `push` is the split of all that is buffered.
pub push-split : (b c : List ℕ) → push b c ≡ split (suc (length (b ++ c))) (b ++ c)
unfolding push
push-split b c = ap scan (refill-append b c) ∙ scan-split (b ++ c)
