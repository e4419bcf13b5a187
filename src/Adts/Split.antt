-- ===== src/Adts/Split.antt =====
-- The scanner of `push` as a function of the unread bytes alone: a reference for its loop over
-- offsets.
use eufy_sdk.Prelude.{
  ℕ, zero, suc, ◌+◌, ◌≤◌, ◌<◌, ◌≡◌, refl, ap, ◌∙◌, sym, ◌≢◌, ◌⊎◌, inl, inr, List, [], ◌∷◌, ◌++◌,
  append_assoc, Option, none, some, length, get_or, take, drop, arith, length-append, length-drop,
  get_or-append_lt, take-append_le, drop-append_le, Option-cases,
}
use eufy_sdk.Adts.{
  AdtsHeader, AdtsHeader, Round, halt, skip, frame, round_at, parse_adts_header, has_syncword,
  header_length_at, frame_length_at, header_at,
}

-- Reads shift with the offset.
pub get_or-drop : (k i : ℕ) (xs : List ℕ) → get_or (drop k xs) i 0 ≡ get_or xs (k + i) 0
get_or-drop zero i xs = let e : 0 + i ≡ i = omega arith in rw e
get_or-drop (suc k) i [] = refl
get_or-drop (suc k) i (x ∷ xs) =
    let e : suc k + i ≡ suc (k + i) = omega arith in rw e (get_or-drop k i xs)

-- A round looks at the bytes from its offset on, and at nothing else.
pub round_at-drop :
    (buf : List ℕ) (at : ℕ) → at ≤ length buf → round_at buf at ≡ round_at (drop at buf) 0
unfolding round_at parse_adts_header has_syncword header_length_at frame_length_at header_at
round_at-drop buf at h = ground (
  arith,
  length-drop at buf,
  get_or-drop at 0 buf,
  get_or-drop at 1 buf,
  get_or-drop at 2 buf,
  get_or-drop at 3 buf,
  get_or-drop at 4 buf,
  get_or-drop at 5 buf,
)

pub parse-append :
    (r more : List ℕ) → 7 ≤ length r → parse_adts_header (r ++ more) 0 ≡ parse_adts_header r 0
unfolding parse_adts_header has_syncword header_length_at frame_length_at header_at
parse-append r more h = ground (
  arith,
  length-append r more,
  get_or-append_lt r more 0 0,
  get_or-append_lt r more 1 0,
  get_or-append_lt r more 2 0,
  get_or-append_lt r more 3 0,
  get_or-append_lt r more 4 0,
  get_or-append_lt r more 5 0,
)

pub parse_short : (r : List ℕ) → length r < 7 → parse_adts_header r 0 ≡ none
unfolding parse_adts_header
parse_short r h = ground arith

-- More input changes no round that was decided without it.
pub round_at-append :
    (r more : List ℕ) → round_at r 0 ≢ halt → round_at (r ++ more) 0 ≡ round_at r 0
unfolding round_at
round_at-append r more h =
    ground (arith, length-append r more, parse-append r more, parse_short r, h)

-- A round that yields a frame moves on by at least seven bytes, and within the input.
pub round_at_frame : (r : List ℕ) (n : ℕ) → round_at r 0 ≡ frame n → (7 ≤ n) × (n ≤ length r)
unfolding round_at parse_adts_header header_at header_length_at
round_at_frame r n h = ground arith

-- The header behind a round that yields a frame, and what is missing where the loop stops.
pub round_at_header :
    (r : List ℕ) (n : ℕ)
    → round_at r 0 ≡ frame n
    → (h : AdtsHeader) × (parse_adts_header r 0 ≡ some h) × (h.frame_length ≡ n)
unfolding round_at
round_at_header r n e = ground arith

pub round_at_halted :
    (r : List ℕ)
    → round_at r 0 ≡ halt
    → (length r < 7)
      ⊎ ((h : AdtsHeader) × (parse_adts_header r 0 ≡ some h) × (length r < h.frame_length))
unfolding round_at
round_at_halted r e = elim (Option-cases (parse_adts_header r 0)) [
  | inl q ↦ inl (ground (arith, q))
  | inr (h, q) ↦ inr (h, q, ground (arith, q))
]

pub round_at_skip : (r : List ℕ) → round_at r 0 ≡ skip → 7 ≤ length r
unfolding round_at parse_adts_header
round_at_skip r h = ground arith

-- The scanner on the bytes not yet read: the frames, and what is left.
unfoldable pub split : ℕ → List ℕ → Option (List (List ℕ) × List ℕ)
split zero r = none
split (suc fuel) r = elim (round_at r 0) [
  | halt ↦ some ([], r)
  | skip ↦ split fuel (drop 1 r)
  | frame n ↦ elim (split fuel (drop n r)) [
    | none ↦ none
    | some (fs, rest) ↦ some (take n r ∷ fs, rest)
  ]
]

pub Round-cases : (q : Round) → (q ≡ halt) ⊎ (q ≡ skip) ⊎ ((n : ℕ) × (q ≡ frame n))
Round-cases halt = inl refl
Round-cases skip = inr (inl refl)
Round-cases (frame n) = inr (inr (n, refl))

unfoldable pub prepend :
    List (List ℕ) → Option (List (List ℕ) × List ℕ) → Option (List (List ℕ) × List ℕ)
prepend fs none = none
prepend fs (some (gs, rest)) = some (fs ++ gs, rest)

pub split_halt : (fuel : ℕ) (r : List ℕ) → round_at r 0 ≡ halt → split (suc fuel) r ≡ some ([], r)
unfolding split
split_halt fuel r e = ground (arith, e)

pub split_skip :
    (fuel : ℕ) (r : List ℕ) → round_at r 0 ≡ skip → split (suc fuel) r ≡ split fuel (drop 1 r)
unfolding split
split_skip fuel r e = ground (arith, e)

pub split_frame :
    (fuel n : ℕ) (r : List ℕ)
    → round_at r 0 ≡ frame n
    → split (suc fuel) r ≡ prepend (take n r ∷ []) (split fuel (drop n r))
unfolding split prepend
split_frame fuel n r e = ground (arith, e)

-- What a round leaves is shorter than what it saw.
pub shorter_skip : (r : List ℕ) → round_at r 0 ≡ skip → length (drop 1 r) < length r
shorter_skip r e = omega (arith, round_at_skip r e, length-drop 1 r)

pub shorter_frame : (r : List ℕ) (n : ℕ) → round_at r 0 ≡ frame n → length (drop n r) < length r
shorter_frame r n e = omega (arith, round_at_frame r n e, length-drop n r)

prepend-ne-none :
    (fs : List (List ℕ)) (o : Option (List (List ℕ) × List ℕ)) → o ≢ none → prepend fs o ≢ none
unfolding prepend
prepend-ne-none fs none h e = h refl
prepend-ne-none fs (some p) h e = cc

pub split-total : (fuel : ℕ) (r : List ℕ) → length r < fuel → split fuel r ≢ none
split-total zero r h = absurd (omega arith)
split-total (suc fuel) r h = elim (Round-cases (round_at r 0)) [
  | inl e ↦ rw (split_halt fuel r e) (λ q. cc)
  | inr (inl e) ↦
      rw (split_skip fuel r e) (split-total fuel (drop 1 r) (omega (arith, shorter_skip r e)))
  | inr (inr (n, e)) ↦
      rw (split_frame fuel n r e)
        (prepend-ne-none _ _ (split-total fuel (drop n r) (omega (arith, shorter_frame r n e))))
]

-- Any fuel above the input's length gives the same result.
pub split_fuel : (f g : ℕ) (r : List ℕ) → length r < f → length r < g → split f r ≡ split g r
split_fuel zero g r h k = absurd (omega arith)
split_fuel (suc f) zero r h k = absurd (omega arith)
split_fuel (suc f) (suc g) r h k = elim (Round-cases (round_at r 0)) [
  | inl e ↦ split_halt f r e ∙ sym (split_halt g r e)
  | inr (inl e) ↦
      split_skip f r e
      ∙ split_fuel f g (drop 1 r) (omega (arith, shorter_skip r e))
          (omega (arith, shorter_skip r e))
      ∙ sym (split_skip g r e)
  | inr (inr (n, e)) ↦
      split_frame f n r e
      ∙ ap (prepend (take n r ∷ [])) (
          split_fuel f g (drop n r) (omega (arith, shorter_frame r n e))
            (omega (arith, shorter_frame r n e)))
      ∙ sym (split_frame g n r e)
]

pub prepend-prepend :
    (fs gs : List (List ℕ)) (o : Option (List (List ℕ) × List ℕ))
    → prepend fs (prepend gs o) ≡ prepend (fs ++ gs) o
unfolding prepend
prepend-prepend fs gs none = refl
prepend-prepend fs gs (some (hs, rest)) = rw append_assoc

pub prepend-nil : (o : Option (List (List ℕ) × List ℕ)) → prepend [] o ≡ o
unfolding prepend
prepend-nil none = refl
prepend-nil (some (gs, rest)) = refl

pub prepend-eq-some :
    (xs : List (List ℕ)) (o : Option (List (List ℕ) × List ℕ)) (fs : List (List ℕ)) (rest : List ℕ)
    → prepend xs o ≡ some (fs, rest)
    → (gs : List (List ℕ)) × (o ≡ some (gs, rest)) × (xs ++ gs ≡ fs)
unfolding prepend
prepend-eq-some xs none fs rest h = cc
prepend-eq-some xs (some (gs, rest')) fs rest h = (gs, ground arith, ground arith)

pub halt_inversion :
    (fuel : ℕ) (r : List ℕ) (fs : List (List ℕ)) (rest : List ℕ)
    → round_at r 0 ≡ halt
    → split (suc fuel) r ≡ some (fs, rest)
    → ([] ≡ fs) × (r ≡ rest)
halt_inversion fuel r fs rest e h = ground (arith, sym (split_halt fuel r e) ∙ h)

-- A round that is not the last is the same with more input behind it.
same_round :
    (r more : List ℕ) (q : Round) → round_at r 0 ≡ q → q ≢ halt → round_at (r ++ more) 0 ≡ q
same_round r more q e d = round_at-append r more (λ z. d (sym e ∙ z)) ∙ e

-- More input adds frames behind those that were found without it, and continues from what was left.
pub split-append :
    (f g : ℕ) (r more : List ℕ) (fs : List (List ℕ)) (rest : List ℕ)
    → length (r ++ more) < g
    → split f r ≡ some (fs, rest)
    → split g (r ++ more) ≡ prepend fs (split (suc (length (rest ++ more))) (rest ++ more))
split-append zero g r more fs rest k h = unfold split in cc
split-append (suc f) zero r more fs rest k h = absurd (omega arith)
split-append (suc f) (suc g) r more fs rest k h = elim (Round-cases (round_at r 0)) [
  | inl e ↦
      let (none_yet, all) = halt_inversion f r fs rest e h in
      rw (← none_yet, ← all) (rw prepend-nil (split_fuel (suc g) _ (r ++ more) k (omega arith)))
  | inr (inl e) ↦
      split_skip g (r ++ more) (same_round r more skip e (λ z. cc))
      ∙ rw (drop-append_le 1 r more (omega (arith, round_at_skip r e))) (
          split-append f g (drop 1 r) more fs rest
            (omega (arith, shorter_skip r e, length-append r more, length-append (drop 1 r) more))
            (sym (split_skip f r e) ∙ h))
  | inr (inr (n, e)) ↦
      let (gs, found, joined) = prepend-eq-some _ _ fs rest (sym (split_frame f n r e) ∙ h) in
      split_frame g n (r ++ more) (same_round r more (frame n) e (λ z. cc))
      ∙ rw
          (
            drop-append_le n r more (round_at_frame r n e).1,
            take-append_le n r more (round_at_frame r n e).1,
          )
          (ap (prepend (take n r ∷ [])) (
              split-append f g (drop n r) more gs rest
                (omega
                  (arith, shorter_frame r n e, length-append r more, length-append (drop n r) more))
                found)
            ∙ prepend-prepend _ gs _
            ∙ rw joined)
]
