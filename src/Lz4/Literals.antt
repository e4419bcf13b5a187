-- ===== src/Lz4/Literals.antt =====
-- A block of one literal run, as a compressor writes bytes that it cannot shorten, and what the
-- decompressor of src/core/lz4-block.ts makes of it.
use eufy_sdk.Prelude.{
  ℕ, zero, suc, ◌+◌, ◌-◌, ◌*◌, ◌/◌, ◌%◌, ◌<◌, ◌≤◌, ◌≡◌, sym, ap, ◌∙◌, true, false, ◌||◌, List, [],
  ◌∷◌, ◌++◌, append-nil, some, ltb, ◌==◌, length, take, drop, arith, take-append_self,
  drop-append_self, Bool-cases, inl, inr, if◌then◌else◌,
}
use eufy_sdk.Lz4.{
  decoded, extend_chain, extend, offset_round, literal_round, round, finish, decode_loop,
  decompress, max_output,
}

-- A length's bytes behind its nibble of 15: as many of 255 as fit, and the remainder.
unfoldable pub chain : ℕ → ℕ → List ℕ
chain zero r = r ∷ []
chain (suc k) r = 255 ∷ chain k r

-- The token and the length of a run of `n` literals: k and r are the quotient and the remainder of what
-- exceeds 15.
unfoldable pub literal_head : ℕ → List ℕ
literal_head n = if ltb n 15 then (n * 16) ∷ [] else 240 ∷ chain ((n - 15) / 255) ((n - 15) % 255)

unfoldable pub encode_literals : List ℕ → List ℕ
encode_literals bs = literal_head (length bs) ++ bs

extend_chain-chain :
    (k r len : ℕ) (rest : List ℕ)
    → r < 255
    → extend_chain len (chain k r ++ rest) ≡ some (len + 255 * k + r, rest)
unfolding extend_chain chain
extend_chain-chain zero r len rest h =
    let z : (r == 255) ≡ false = ground (arith, h) in
    let sum : len + 255 * 0 + r ≡ len + r = omega arith in rw (z, sum)
extend_chain-chain (suc k) r len rest h =
    let sum : len + 255 + 255 * k + r ≡ len + 255 * suc k + r = omega arith in
    extend_chain-chain k r (len + 255) rest h ∙ ap (λ n. some (n, rest)) sum

round-literals :
    (size token : ℕ) (rest bs : List ℕ)
    → extend (token / 16) rest ≡ some (length bs, bs)
    → length bs ≤ size
    → round size token rest [] ≡ finish bs
unfolding round literal_round offset_round
round-literals size token rest bs h fits =
    let e : (ltb (length bs) (length bs) || ltb size (length {A = ℕ} [] + length bs)) ≡ false =
      ground (arith, fits) in
    let t : take (length bs) bs ≡ bs =
      ap (take (length bs)) (sym (append-nil bs)) ∙ take-append_self bs [] in
    let d : drop (length bs) bs ≡ [] =
      ap (drop (length bs)) (sym (append-nil bs)) ∙ drop-append_self bs [] in
    rw (h, round, literal_round, e, t, d, offset_round)

decode_loop-finish :
    (fuel size token : ℕ) (rest bs : List ℕ)
    → round size token rest [] ≡ finish bs
    → decode_loop (suc fuel) size (token ∷ rest) [] ≡ decoded bs
unfolding decode_loop
decode_loop-finish fuel size token rest bs h = rw (h, decode_loop)

decode_loop-literals :
    (fuel : ℕ) (bs : List ℕ)
    → decode_loop (suc fuel) (length bs) (encode_literals bs) [] ≡ decoded bs
unfolding encode_literals literal_head
decode_loop-literals fuel bs = elim (Bool-cases (ltb (length bs) 15)) [
  | inl e ↦
      let small : length bs * 16 / 16 ≡ length bs = omega arith in
      let plain : (length bs == 15) ≡ false = ground (arith, e) in
      let read : extend (length bs * 16 / 16) bs ≡ some (length bs, bs) =
        unfold extend in rw (small, plain) in
      rw e (
        decode_loop-finish fuel (length bs) (length bs * 16) bs bs
          (round-literals (length bs) (length bs * 16) bs bs read (omega arith)))
  | inr e ↦
      let k = (length bs - 15) / 255 in
      let r = (length bs - 15) % 255 in
      let sum : 15 + 255 * k + r ≡ length bs = ground (arith, e) in
      let read : extend (240 / 16) (chain k r ++ bs) ≡ some (length bs, bs) =
        unfold extend in
        (extend_chain-chain k r 15 bs (omega arith) ∙ ap (λ n. some (n, bs)) sum) in
      rw e (
        decode_loop-finish fuel (length bs) 240 (chain k r ++ bs) bs
          (round-literals (length bs) 240 (chain k r ++ bs) bs read (omega arith)))
]

-- Any bytes, written as one run of literals, come back from a request for their number, up to the
-- largest output.
pub decompress-encode_literals :
    (bs : List ℕ)
    → length bs ≤ max_output
    → decompress (encode_literals bs) (length bs) ≡ decoded bs
unfolding decompress
decompress-encode_literals bs h =
    let e : ltb max_output (length bs) ≡ false = ground (arith, h) in
    let z : (length bs == length bs) ≡ true = ground arith in
    rw (e, decode_loop-literals (length (encode_literals bs)) bs, z)
