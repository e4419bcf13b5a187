-- ===== src/Annexb/Rbsp/Escape.antt =====
-- The emulation-prevention bytes that `RbspReader` of src/transport/p2p/annexb.ts takes out.
use eufy_sdk.Prelude.{
  ℕ, ◌+◌, ◌-◌, ◌<◌, ◌≤◌, ◌≡◌, refl, sym, ◌∙◌, Bool, true, false, not, ◌&&◌, List, [], ◌∷◌, ◌++◌,
  length, arith, ltb, leb, ◌==◌, if◌then◌else◌, get_or, append_assoc, length-append, Bool-cases,
  inl, inr, get_or-append_lt, get_or-append_self, append-nil,
}
use eufy_sdk.Annexb.Rbsp.{is_escape, unescape}

-- What a device sends for a payload (ITU-T H.264 7.4.1): a 3 goes ahead of each byte of at most 3 that
-- two zeros precede in what is sent. `run` of the zeros end what is sent already.
unfoldable pub escape : ℕ → List ℕ → List ℕ
escape run [] = []
escape run (b ∷ bs) =
    let inside = escape (if b == 0 then 1 else 0) bs in
    let plain = escape (if b == 0 then run + 1 else 0) bs in
    if leb 2 run && leb b 3 then 3 ∷ b ∷ inside else b ∷ plain

-- No byte 3 of the payload stands behind two zeros of it; `run` of the zeros precede `bs`.
unfoldable pub has_no_three : ℕ → List ℕ → Bool
has_no_three run [] = true
has_no_three run (b ∷ bs) =
    not (leb 2 run && (b == 3)) && has_no_three (if b == 0 then run + 1 else 0) bs

-- `run` zeros end the bytes kept.
record EndsIn (kept : List ℕ) (run : ℕ) : Type 0 where
  two : is_escape kept 3 ≡ leb 2 run
  one : (ltb 0 (length kept) && (get_or kept (length kept - 1) 0 == 0)) ≡ ltb 0 run

last-snoc :
    (kept : List ℕ) (b : ℕ) → get_or (kept ++ (b ∷ [])) (length (kept ++ (b ∷ [])) - 1) 0 ≡ b
last-snoc kept b =
    let e : length (kept ++ (b ∷ [])) - 1 ≡ length kept =
      omega (arith, length-append kept (b ∷ [])) in
    rw e (get_or-append_self kept (b ∷ []) 0)

second-snoc :
    (kept : List ℕ) (b : ℕ)
    → 0 < length kept
    → get_or (kept ++ (b ∷ [])) (length (kept ++ (b ∷ [])) - 2) 0 ≡ get_or kept (length kept - 1) 0
second-snoc kept b h =
    let e : length (kept ++ (b ∷ [])) - 2 ≡ length kept - 1 =
      omega (arith, length-append kept (b ∷ [])) in
    rw e (get_or-append_lt kept (b ∷ []) (length kept - 1) 0 (omega arith))

EndsIn-nil : EndsIn [] 0
unfolding is_escape
EndsIn-nil = record { two = refl; one = refl }

EndsIn-snoc :
    (kept : List ℕ) (run b : ℕ)
    → EndsIn kept run
    → EndsIn (kept ++ (b ∷ [])) (if b == 0 then run + 1 else 0)
unfolding is_escape
EndsIn-snoc kept run b v = record {
  two = elim (Bool-cases (ltb 0 (length kept))) [
    | inl e ↦
        let low : 0 < length kept = ground (arith, e) in
        ground
          (arith, e, last-snoc kept b, second-snoc kept b low, length-append kept (b ∷ []), v.one)
    | inr e ↦ ground (arith, e, length-append kept (b ∷ []), v.one)
  ];
  one = ground (arith, last-snoc kept b, length-append kept (b ∷ []));
}

not_three : (kept : List ℕ) (b : ℕ) → (b == 3) ≡ false → is_escape kept b ≡ false
unfolding is_escape
not_three kept b h = rw h refl

-- A byte kept, behind bytes that end in `run` zeros.
step_plain :
    (kept bs : List ℕ) (b : ℕ)
    → is_escape kept b ≡ false
    → unescape kept (b ∷ bs) ≡ unescape (kept ++ (b ∷ [])) bs
unfolding unescape
step_plain kept bs b h = rw h refl

step_three :
    (kept bs : List ℕ) → is_escape kept 3 ≡ true → unescape kept (3 ∷ bs) ≡ unescape kept bs
unfolding unescape
step_three kept bs h = rw h refl

calm_byte :
    (kept : List ℕ) (run b : ℕ)
    → EndsIn kept run
    → (leb 2 run && (b == 3)) ≡ false
    → is_escape kept b ≡ false
calm_byte kept run b v h = elim (Bool-cases (b == 3)) [
  | inl e ↦ let same : b ≡ 3 = ground (arith, e) in rw same (v.two ∙ ground (arith, e, h))
  | inr e ↦ not_three kept b e
]

-- The zeros that end what is sent end the payload too.
unescape-escape_from :
    (sent run : ℕ) (kept bs : List ℕ)
    → sent ≤ run
    → EndsIn kept run
    → has_no_three run bs ≡ true
    → unescape kept (escape sent bs) ≡ kept ++ bs
unfolding unescape escape has_no_three
unescape-escape_from sent run kept [] low v h = sym (append-nil kept)
unescape-escape_from sent run kept (b ∷ bs) low v h =
    let calm : is_escape kept b ≡ false = calm_byte kept run b v (ground (arith, h)) in
    let rest : (s : ℕ)
        → s ≤ (if b == 0 then run + 1 else 0)
        → unescape (kept ++ (b ∷ [])) (escape s bs) ≡ kept ++ (b ∷ bs) =
      λ s l.
        unescape-escape_from s _ (kept ++ (b ∷ [])) bs l (EndsIn-snoc kept run b v)
          (ground (arith, h))
        ∙ append_assoc kept (b ∷ []) bs in
    let inside : ℕ = if b == 0 then 1 else 0 in
    let plain : ℕ = if b == 0 then sent + 1 else 0 in
    elim (Bool-cases (leb 2 sent && leb b 3)) [
      | inl e ↦ rw e (
          step_three kept (b ∷ escape inside bs) (v.two ∙ ground (arith, e, low))
          ∙ step_plain kept (escape inside bs) b calm
          ∙ rest inside (ground (arith, e, low)))
      | inr e ↦ rw e (step_plain kept (escape plain bs) b calm ∙ rest plain (ground (arith, low)))
    ]

-- The reader takes out exactly the emulation-prevention bytes that were put in, where the payload has
-- no byte 3 behind two zeros of its own.
pub unescape-escape :
    (payload : List ℕ) → has_no_three 0 payload ≡ true → unescape [] (escape 0 payload) ≡ payload
unescape-escape payload h = unescape-escape_from 0 0 [] payload (omega arith) EndsIn-nil h
