-- ===== src/Lz4/Tests.antt =====
-- src/core/lz4-block.ts: three literals, and a run of one byte.
use eufy_sdk.Prelude.{ℕ, ◌-◌, ◌<◌, ◌≤◌, ◌≡◌, ◌⊎◌, List, [], ◌∷◌, length, get_or, arith}
use eufy_sdk.Lz4.{malformed, decoded, copy_match, decode_loop, decompress}
use eufy_sdk.Lz4.Copy.{copy_match-repeats}
use eufy_sdk.Lz4.Total.{decompress-total}
use eufy_sdk.Lz4.Literals.{encode_literals, decompress-encode_literals}

copy_match-repeats_example :
    ((i : ℕ) → i < 2 → get_or (copy_match 6 1 (4 ∷ 9 ∷ [])) i 0 ≡ get_or (4 ∷ 9 ∷ []) i 0)
    × ((i : ℕ)
        → 2 ≤ i
        → i < 8
        → get_or (copy_match 6 1 (4 ∷ 9 ∷ [])) i 0 ≡ get_or (copy_match 6 1 (4 ∷ 9 ∷ [])) (i - 1) 0)
copy_match-repeats_example = copy_match-repeats 6 1 (4 ∷ 9 ∷ []) (omega arith) (omega arith)

decompress-total_example :
    ((decompress (0x10 ∷ 7 ∷ 1 ∷ 0 ∷ []) 5 ≡ malformed)
      ⊎ ((out : List ℕ) × (decompress (0x10 ∷ 7 ∷ 1 ∷ 0 ∷ []) 5 ≡ decoded out) × (length out ≡ 5)))
    × ((out : List ℕ) → decode_loop 5 5 (0x10 ∷ 7 ∷ 1 ∷ 0 ∷ []) [] ≡ decoded out → length out ≤ 5)
decompress-total_example = decompress-total (0x10 ∷ 7 ∷ 1 ∷ 0 ∷ []) 5

decompress-encode_literals_example :
    decompress (encode_literals (1 ∷ 2 ∷ 3 ∷ [])) 3 ≡ decoded (1 ∷ 2 ∷ 3 ∷ [])
decompress-encode_literals_example = decompress-encode_literals (1 ∷ 2 ∷ 3 ∷ []) (omega arith)
