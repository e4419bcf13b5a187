-- ===== src/Util.antt =====
-- src/core/util.ts: the fixed-width encoders of the wire protocols. `n & 0xffff` and `n >>> 0` of a
-- number that is not negative are the remainders by 2 ^ 16 and 2 ^ 32.
use eufy_sdk.Prelude.{ℕ, ◌+◌, ◌*◌, ◌/◌, ◌%◌, ◌^◌, ◌≡◌, List, [], ◌∷◌, All, arith}
use eufy_sdk.Bytes.{IsByte}

unfoldable pub u16le : ℕ → List ℕ
u16le n = let w = n % 2 ^ 16 in (w % 256) ∷ (w / 256) ∷ []

unfoldable pub u16be : ℕ → List ℕ
u16be n = let w = n % 2 ^ 16 in (w / 256) ∷ (w % 256) ∷ []

unfoldable pub u32le : ℕ → List ℕ
u32le n =
    let w = n % 2 ^ 32 in (w % 256) ∷ (w / 256 % 256) ∷ (w / 65536 % 256) ∷ (w / 16777216) ∷ []

unfoldable pub u32be : ℕ → List ℕ
u32be n =
    let w = n % 2 ^ 32 in (w / 16777216) ∷ (w / 65536 % 256) ∷ (w / 256 % 256) ∷ (w % 256) ∷ []

pub u16le-IsByte : (n : ℕ) → All IsByte (u16le n)
unfolding u16le
u16le-IsByte n = omega arith

pub u16be-IsByte : (n : ℕ) → All IsByte (u16be n)
unfolding u16be
u16be-IsByte n = omega arith

pub u32le-IsByte : (n : ℕ) → All IsByte (u32le n)
unfolding u32le
u32le-IsByte n = omega arith

pub u32be-IsByte : (n : ℕ) → All IsByte (u32be n)
unfolding u32be
u32be-IsByte n = omega arith

pub u32be-mod : (n : ℕ) → u32be (n % 2 ^ 32) ≡ u32be n
unfolding u32be
u32be-mod n = let e : n % 2 ^ 32 % 2 ^ 32 ≡ n % 2 ^ 32 = omega arith in rw e

-- Two bytes read as a word are written back as they were.
pub u16le-bytes : (b0 b1 : ℕ) → IsByte b0 → IsByte b1 → u16le (b0 + 256 * b1) ≡ b0 ∷ b1 ∷ []
unfolding u16le
u16le-bytes b0 b1 h0 h1 = ground arith
