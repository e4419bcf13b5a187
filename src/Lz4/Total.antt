-- ===== src/Lz4/Total.antt =====
-- The ends of the decompressor of src/core/lz4-block.ts, and the bounds of its output.
use eufy_sdk.Prelude.{
  ℕ, zero, suc, ◌+◌, ◌*◌, ◌/◌, ◌%◌, ◌^◌, ◌<◌, ◌≤◌, ◌≡◌, ◌⊎◌, refl, ap, ◌||◌, List, [], ◌∷◌, ◌++◌,
  some, ltb, ◌==◌, length, take, drop, arith, length-append, length-drop, length-take, Bool-cases,
  Option-cases, inl, inr, bit_or,
}
use eufy_sdk.Lz4.{
  Decoded, malformed, decoded, extend_chain, extend, Round, reject, finish, next, match_round,
  offset_round, literal_round, round, decode_loop, decompress, exactly, copy_match, max_output,
}
use eufy_sdk.Lz4.Copy.{length-copy_match}

extend_chain-shrinks :
    (len : ℕ) (rest : List ℕ) (m : ℕ) (more : List ℕ)
    → extend_chain len rest ≡ some (m, more)
    → length more < length rest
unfolding extend_chain
extend_chain-shrinks len [] m more h = absurd (ground (arith, h))
extend_chain-shrinks len (extra ∷ rest) m more h = elim (Bool-cases (extra == 255)) [
  | inl e ↦
      let tail = extend_chain-shrinks (len + extra) rest m more (ground (arith, e, h)) in
      omega (arith, tail)
  | inr e ↦
      let same : rest ≡ more = ground (arith, e, h) in
      omega (arith, ap (λ (x : List ℕ). length x) same)
]

extend-shrinks :
    (base : ℕ) (rest : List ℕ) (m : ℕ) (more : List ℕ)
    → extend base rest ≡ some (m, more)
    → length more ≤ length rest
unfolding extend
extend-shrinks base rest m more h = elim (Bool-cases (base == 15)) [
  | inl e ↦
      let less = extend_chain-shrinks 15 rest m more (ground (arith, e, h)) in omega (arith, less)
  | inr e ↦
      let same : rest ≡ more = ground (arith, e, h) in
      omega (arith, ap (λ (x : List ℕ). length x) same)
]

-- A round shrinks the block, and keeps the output within the size.
data Bounded (size : ℕ) (block : List ℕ) : Round → Type 0 where
  rejects : Bounded size block reject
  finishes : (done : List ℕ) → length done ≤ size → Bounded size block (finish done)
  goes_on :
      (more written : List ℕ)
      → length more ≤ length block
      → length written ≤ size
      → Bounded size block (next more written)

match_round-Bounded :
    (size nibble offset : ℕ) (rest out block : List ℕ)
    → length rest ≤ length block
    → Bounded size block (match_round size nibble offset rest out)
unfolding match_round
match_round-Bounded size nibble offset rest out block less =
    elim (Bool-cases ((offset == 0) || ltb (length out) offset)) [
      | inl e ↦ rw e rejects
      | inr e ↦ elim (Option-cases (extend nibble rest)) [
        | inl q ↦ rw (e, q) rejects
        | inr ((m, more), q) ↦ elim (Bool-cases (ltb size (length out + (m + 4)))) [
          | inl y ↦ rw (e, q, match_round, y) rejects
          | inr y ↦
              rw (e, q, match_round, y)
                (goes_on more (copy_match (m + 4) offset out)
                  (omega (arith, less, extend-shrinks nibble rest m more q))
                  (ground (arith, y, length-copy_match (m + 4) offset out)))
        ]
      ]
    ]

offset_round-Bounded :
    (size nibble : ℕ) (rest out block : List ℕ)
    → length rest ≤ length block
    → length out ≤ size
    → Bounded size block (offset_round size nibble rest out)
unfolding offset_round
offset_round-Bounded size nibble [] out block less fits = finishes out fits
offset_round-Bounded size nibble (lo ∷ []) out block less fits = rejects
offset_round-Bounded size nibble (lo ∷ hi ∷ rest) out block less fits =
    match_round-Bounded size nibble (bit_or lo (hi * 2 ^ 8)) rest out block (omega (arith, less))

literal_round-Bounded :
    (size nibble literals : ℕ) (rest out block : List ℕ)
    → length rest ≤ length block
    → Bounded size block (literal_round size nibble literals rest out)
unfolding literal_round
literal_round-Bounded size nibble literals rest out block less =
    elim (Bool-cases (ltb (length rest) literals || ltb size (length out + literals))) [
      | inl e ↦ rw e rejects
      | inr e ↦ rw e (
          offset_round-Bounded size nibble (drop literals rest) (out ++ take literals rest) block
            (omega (arith, less, length-drop literals rest))
            (ground (arith, e, length-append out (take literals rest), length-take literals rest)))
    ]

round-Bounded : (size token : ℕ) (rest out : List ℕ) → Bounded size rest (round size token rest out)
unfolding round
round-Bounded size token rest out = elim (Option-cases (extend (token / 16) rest)) [
  | inl e ↦ rw (e, round) rejects
  | inr ((m, more), e) ↦
      rw (e, round)
        (literal_round-Bounded size (token % 16) m more out rest
          (extend-shrinks (token / 16) rest m more e))
]

-- What the loop comes to, with enough fuel.
data Ends (size : ℕ) : Decoded → Type 0 where
  malformed_ends : Ends size malformed
  decoded_ends : (out : List ℕ) → length out ≤ size → Ends size (decoded out)

after_round :
    (fuel size : ℕ) (block out : List ℕ) (r : Round)
    → Bounded size block r
    → ((more written : List ℕ)
        → length more ≤ length block
        → length written ≤ size
        → Ends size (decode_loop fuel size more written))
    → Ends size (elim r [
      | reject ↦ malformed
      | finish done ↦ decoded done
      | next more written ↦ decode_loop fuel size more written
    ])
after_round fuel size block out _ rejects go = malformed_ends
after_round fuel size block out _ (finishes done fits) go = decoded_ends done fits
after_round fuel size block out _ (goes_on more written less fits) go = go more written less fits

decode_loop-Ends :
    (fuel size : ℕ) (block out : List ℕ)
    → length block < fuel
    → length out ≤ size
    → Ends size (decode_loop fuel size block out)
unfolding decode_loop
decode_loop-Ends zero size block out enough fits = absurd (omega arith)
decode_loop-Ends (suc fuel) size [] out enough fits = decoded_ends out fits
decode_loop-Ends (suc fuel) size (token ∷ rest) out enough fits =
    after_round fuel size rest out (round size token rest out) (round-Bounded size token rest out)
      (λ more written less small. decode_loop-Ends fuel size more written (omega arith) small)

-- Decompression always ends, for any bytes and any size: with a rejection, or with an output of exactly
-- the size asked for. And no round writes past that size: what the loop leaves is never longer.
pub decompress-total :
    (block : List ℕ) (size : ℕ)
    → ((decompress block size ≡ malformed)
        ⊎ ((out : List ℕ) × (decompress block size ≡ decoded out) × (length out ≡ size)))
      × ((out : List ℕ)
          → decode_loop (suc (length block)) size block [] ≡ decoded out
          → length out ≤ size)
unfolding decompress
decompress-total block size = (ends, within)
  where
    loop_ends : Ends size (decode_loop (suc (length block)) size block [])
    loop_ends = decode_loop-Ends (suc (length block)) size block [] (omega arith) (omega arith)

    exact :
        (d : Decoded)
        → Ends size d
        → (exactly size d ≡ malformed)
          ⊎ ((out : List ℕ) × (exactly size d ≡ decoded out) × (length out ≡ size))
    exact _ malformed_ends = inl refl
    exact _ (decoded_ends out fits) = elim (Bool-cases (length out == size)) [
      | inl y ↦ rw y (inr (out, refl, ground (arith, y)))
      | inr y ↦ rw y (inl refl)
    ]

    short : (d : Decoded) (out : List ℕ) → Ends size d → d ≡ decoded out → length out ≤ size
    short _ out malformed_ends e = absurd (cc)
    short _ out (decoded_ends done fits) e =
        let same : done ≡ out = ground (arith, e) in
        omega (arith, fits, ap (λ (x : List ℕ). length x) same)

    ends :
        (decompress block size ≡ malformed)
        ⊎ ((out : List ℕ) × (decompress block size ≡ decoded out) × (length out ≡ size))
    ends = elim (Bool-cases (ltb max_output size)) [
      | inl y ↦ inl (unfold decompress in rw y)
      | inr y ↦ unfold decompress in rw y (exact _ loop_ends)
    ]

    within :
        (out : List ℕ)
        → decode_loop (suc (length block)) size block [] ≡ decoded out
        → length out ≤ size
    within out e = short _ out loop_ends e
