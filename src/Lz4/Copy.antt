-- ===== src/Lz4/Copy.antt =====
-- The overlapping copy of src/core/lz4-block.ts.
use eufy_sdk.Prelude.{
  ℕ, zero, suc, ◌+◌, ◌-◌, ◌<◌, ◌≤◌, ◌≡◌, refl, sym, ◌∙◌, List, [], ◌∷◌, ◌++◌, length, get_or, arith,
  length-append, get_or-append_lt, get_or-append_self, Bool-cases, inl, inr, ◌==◌,
}
use eufy_sdk.Lz4.{copy_match}

pub length-copy_match :
    (n offset : ℕ) (out : List ℕ) → length (copy_match n offset out) ≡ length out + n
unfolding copy_match
length-copy_match zero offset out = omega arith
length-copy_match (suc n) offset out = omega (
  arith,
  length-copy_match n offset (out ++ (get_or out (length out - offset) 0 ∷ [])),
  length-append out (get_or out (length out - offset) 0 ∷ []),
)

-- What is written stays.
copy_match-keeps :
    (n offset : ℕ) (out : List ℕ) (i : ℕ)
    → i < length out
    → get_or (copy_match n offset out) i 0 ≡ get_or out i 0
unfolding copy_match
copy_match-keeps zero offset out i h = refl
copy_match-keeps (suc n) offset out i h =
    let byte = get_or out (length out - offset) 0 ∷ [] in
    copy_match-keeps n offset (out ++ byte) i (omega (arith, length-append out byte))
    ∙ get_or-append_lt out byte i 0 h

copied :
    (n offset : ℕ) (out : List ℕ)
    → 0 < offset
    → offset ≤ length out
    → (i : ℕ) → length out ≤ i
    → i < length out + n
    → get_or (copy_match n offset out) i 0 ≡ get_or (copy_match n offset out) (i - offset) 0
unfolding copy_match
copied zero offset out pos near i low high = absurd (omega arith)
copied (suc n) offset out pos near i low high =
    let byte = get_or out (length out - offset) 0 ∷ [] in
    let len : length (out ++ byte) ≡ length out + 1 = length-append out byte in
    elim (Bool-cases (i == length out)) [
      | inl e ↦
          let same : i ≡ length out = ground (arith, e) in
          let before : length out - offset < length out = omega (arith, pos, near) in
          rw same (
            copy_match-keeps n offset (out ++ byte) (length out) (omega (arith, len))
            ∙ get_or-append_self out byte 0
            ∙ sym (
                copy_match-keeps n offset (out ++ byte) (length out - offset)
                  (omega (arith, len, before))
                ∙ get_or-append_lt out byte (length out - offset) 0 before))
      | inr e ↦
          let other : length out < i = ground (arith, e, low) in
          copied n offset (out ++ byte) pos (omega (arith, len, near)) i (omega (arith, len, other))
            (omega (arith, len, high))
    ]

-- The copied part repeats what stands `offset` before it, also where the two overlap: a match whose
-- offset is below its length repeats its own first bytes. What was there before stays.
pub copy_match-repeats :
    (n offset : ℕ) (out : List ℕ)
    → 0 < offset
    → offset ≤ length out
    → ((i : ℕ) → i < length out → get_or (copy_match n offset out) i 0 ≡ get_or out i 0)
      × ((i : ℕ)
          → length out ≤ i
          → i < length out + n
          → get_or (copy_match n offset out) i 0 ≡ get_or (copy_match n offset out) (i - offset) 0)
copy_match-repeats n offset out pos near =
    (copy_match-keeps n offset out, copied n offset out pos near)
