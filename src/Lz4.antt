-- ===== src/Lz4.antt =====
-- src/core/lz4-block.ts: the decompressor of a raw LZ4 block. The block is the list of the bytes from
-- `pos` on, and the output the list of the bytes written.
pub mod Copy
pub mod Total
pub mod Literals
mod Tests
use eufy_sdk.Prelude.{
  ℕ, zero, suc, ◌+◌, ◌-◌, ◌*◌, ◌/◌, ◌%◌, ◌^◌, ◌||◌, Bool, List, [], ◌∷◌, ◌++◌, Option, none, some,
  ltb, ◌==◌, if◌then◌else◌, length, take, drop, get_or, bit_or,
}

-- `MAX_OUTPUT`.
abbrev pub max_output : ℕ
max_output = 64 * 1024 * 1024

pub data Decoded : Type 0 where
  out_of_fuel malformed : Decoded
  decoded : List ℕ → Decoded

-- The loop of `extend`.
pub extend_chain : ℕ → List ℕ → Option (ℕ × List ℕ)
extend_chain len [] = none
extend_chain len (extra ∷ rest) =
    let more = extend_chain (len + extra) rest in
    if extra == 255 then more else some (len + extra, rest)

pub extend : ℕ → List ℕ → Option (ℕ × List ℕ)
extend base rest = if base == 15 then extend_chain 15 rest else some (base, rest)

-- The copy of a match, a byte at a time, from `offset` behind the end.
pub copy_match : ℕ → ℕ → List ℕ → List ℕ
copy_match zero offset out = out
copy_match (suc n) offset out =
    copy_match n offset (out ++ (get_or out (length out - offset) 0 ∷ []))

-- What one round of the loop leads to: the end of the block, a rejection, or the next round.
pub data Round : Type 0 where
  reject : Round
  finish : List ℕ → Round
  next : List ℕ → List ℕ → Round

-- The match of a sequence, behind its offset.
match_round : ℕ → ℕ → ℕ → List ℕ → List ℕ → Round
match_round size nibble offset rest out =
    if (offset == 0) || ltb (length out) offset then reject else elim (extend nibble rest) [
      | none ↦ reject
      | some (m, more) ↦
          if ltb size (length out + (m + 4))
          then reject
          else next more (copy_match (m + 4) offset out)
    ]

-- A round behind its literals.
offset_round : ℕ → ℕ → List ℕ → List ℕ → Round
offset_round size nibble [] out = finish out
offset_round size nibble (lo ∷ []) out = reject
offset_round size nibble (lo ∷ hi ∷ rest) out =
    match_round size nibble (bit_or lo (hi * 2 ^ 8)) rest out

-- A round behind the length of its literals.
literal_round : ℕ → ℕ → ℕ → List ℕ → List ℕ → Round
literal_round size nibble literals rest out =
    if ltb (length rest) literals || ltb size (length out + literals)
    then reject
    else offset_round size nibble (drop literals rest) (out ++ take literals rest)

pub round : ℕ → ℕ → List ℕ → List ℕ → Round
round size token rest out = elim (extend (token / 16) rest) [
  | none ↦ reject
  | some (literals, more) ↦ literal_round size (token % 16) literals more out
]

-- The loop; a round takes its token at least.
pub decode_loop : ℕ → ℕ → List ℕ → List ℕ → Decoded
decode_loop zero size block out = out_of_fuel
decode_loop (suc fuel) size [] out = decoded out
decode_loop (suc fuel) size (token ∷ rest) out = elim (round size token rest out) [
  | reject ↦ malformed
  | finish done ↦ decoded done
  | next more written ↦ decode_loop fuel size more written
]

abbrev exactly : ℕ → Decoded → Decoded
exactly size out_of_fuel = out_of_fuel
exactly size malformed = malformed
exactly size (decoded out) = if length out == size then decoded out else malformed

pub decompress : List ℕ → ℕ → Decoded
decompress block size =
    if ltb max_output size
    then malformed
    else exactly size (decode_loop (suc (length block)) size block [])
