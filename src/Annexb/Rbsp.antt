-- ===== src/Annexb/Rbsp.antt =====
-- The class `RbspReader` of src/transport/p2p/annexb.ts. A method is a function to its result and the
-- reader after it.
pub mod Bits
pub mod Escape
use eufy_sdk.Prelude.{
  ℕ, zero, suc, ◌+◌, ◌-◌, ◌*◌, ◌/◌, ◌%◌, ◌^◌, Bool, true, false, ◌&&◌, ◌||◌, List, [], ◌∷◌, ◌++◌,
  Option, none, some, length, get_or, drop, ltb, leb, ◌==◌, if◌then◌else◌,
}
use eufy_sdk.MapPixels.{ℤ, pos, negsuc, pos_part, neg_part}

pub record Rbsp : Type 0 where
  pub bytes : List ℕ
  pub bit : ℕ
  pub failed : Bool

-- The test `escape` of the constructor, on the bytes kept so far.
unfoldable pub is_escape : List ℕ → ℕ → Bool
is_escape bytes byte =
    let n = length bytes in
    (byte == 3) && leb 2 n && (get_or bytes (n - 1) 0 == 0) && (get_or bytes (n - 2) 0 == 0)

unfoldable pub unescape : List ℕ → List ℕ → List ℕ
unescape bytes [] = bytes
unescape bytes (byte ∷ rest) =
    unescape (if is_escape bytes byte then bytes else bytes ++ (byte ∷ [])) rest

-- The constructor.
unfoldable pub reader : List ℕ → ℕ → Rbsp
reader nal header_bytes = record {
  bytes = unescape [] (drop header_bytes nal);
  bit = 0;
  failed = false;
}

abbrev pub fail : Rbsp → Rbsp
fail r = record r { failed = true }

-- `(this.bytes[index]! >> (7 - (this.bit & 7))) & 1`
unfoldable pub bit_at : List ℕ → ℕ → ℕ
bit_at bytes i = get_or bytes (i / 8) 0 / 2 ^ (7 - i % 8) % 2

-- The loop of `u` with the value so far.
unfoldable pub u_loop : ℕ → ℕ → Rbsp → ℕ × Rbsp
u_loop zero value r = (value, r)
u_loop (suc count) value r =
    let more = u_loop count (value * 2 + bit_at r.bytes r.bit) (record r { bit = r.bit + 1 }) in
    if ltb (r.bit / 8) (length r.bytes) then more else (0, fail r)

unfoldable pub u : ℕ → Rbsp → ℕ × Rbsp
u count r = u_loop count 0 r

-- The loop of `ue` after `zeros` of the run, of which `left` more are allowed: `none` is its early
-- return.
unfoldable pub ue_loop : ℕ → ℕ → Rbsp → Option ℕ × Rbsp
ue_loop zero zeros r =
    let (b, after) = u 1 r in if b == 0 then (none, fail after) else (some zeros, after)
ue_loop (suc left) zeros r =
    let (b, after) = u 1 r in
    let more = ue_loop left (zeros + 1) after in
    if b == 0 then if after.failed then (none, fail after) else more else (some zeros, after)

abbrev ue_value : Option ℕ → Rbsp → ℕ × Rbsp
ue_value none r = (0, r)
ue_value (some zero) r = (0, r)
ue_value (some (suc n)) r = let (x, after) = u (suc n) r in (2 ^ suc n - 1 + x, after)

unfoldable pub ue : Rbsp → ℕ × Rbsp
ue r = let (zeros, after) = ue_loop 32 0 r in ue_value zeros after

-- `-n`.
abbrev pub negate : ℕ → ℤ
negate zero = pos 0
negate (suc n) = negsuc n

unfoldable pub se_of : ℕ → ℤ
se_of coded = if coded % 2 == 0 then negate (coded / 2) else pos ((coded + 1) / 2)

unfoldable pub se : Rbsp → ℤ × Rbsp
se r = let (coded, after) = ue r in (se_of coded, after)

-- `(next + delta + 256) % 256`, with the sign of the dividend.
unfoldable pub next_scale : ℤ → ℤ → ℤ
next_scale next delta =
    let up = pos_part next + pos_part delta + 256 in
    let down = neg_part next + neg_part delta in
    if ltb up down then negate ((down - up) % 256) else pos ((up - down) % 256)

abbrev is_zero : ℤ → Bool
is_zero (pos zero) = true
is_zero _ = false

-- The loop of `scalingList`.
unfoldable pub scaling_loop : ℕ → ℤ → Rbsp → Rbsp
scaling_loop zero next r = r
scaling_loop (suc coefficients) next r =
    let (delta, after) = se r in
    let more = scaling_loop coefficients (next_scale next delta) after in
    if is_zero next then r else if after.failed then after else more

unfoldable pub scaling_list : ℕ → Rbsp → Rbsp
scaling_list coefficients r = scaling_loop coefficients (pos 8) r
