-- ===== src/Bytes.antt =====
-- Bytes, and the parts of Node's `Buffer` and of JavaScript's strings that the sources call: hex and
-- ASCII text, unsigned words. A string is the list of its code units.
use eufy_sdk.Prelude.{
  ℕ, zero, suc, ◌+◌, ◌-◌, ◌*◌, ◌/◌, ◌%◌, ◌<◌, ◌≡◌, refl, ap, Bool, true, ◌&&◌, List, [], ◌∷◌, map,
  Option, none, some, arith, ltb, leb, if◌then◌else◌, bit_xor, All, length, ltb→lt, Bool-cases, inl,
  inr, ◌==◌,
}

abbrev pub IsByte : ℕ → Type 0
IsByte b = b < 256

-- `Buffer.from(s, "ascii")` keeps the low byte of each code unit.
pub ascii : List ℕ → List ℕ
ascii = map (λ c. c % 256)

-- One digit of `toString("hex")`.
pub hex_digit : ℕ → ℕ
hex_digit d = if ltb d 10 then b'0' + d else b'a' + (d - 10)

-- `buffer.toString("hex")`.
pub to_hex : List ℕ → List ℕ
to_hex [] = []
to_hex (b ∷ bs) = hex_digit (b / 16) ∷ hex_digit (b % 16) ∷ to_hex bs

-- The value of a hex digit in either case.
pub hex_value : ℕ → Option ℕ
hex_value c =
    if leb b'0' c && leb c b'9'
    then some (c - b'0')
    else if leb b'a' c && leb c b'f'
    then some (c - b'a' + 10)
    else if leb b'A' c && leb c b'F'
    then some (c - b'A' + 10)
    else none

-- `Buffer.from(s, "hex")`: it stops at the first pair that is not two hex digits.
pub from_hex : List ℕ → List ℕ
from_hex (c ∷ d ∷ cs) =
    let rest = from_hex cs in
    elim (hex_value c) [
      | none ↦ []
      | some h ↦ elim (hex_value d) [ none ↦ [] | some l ↦ (16 * h + l) ∷ rest ]
    ]
from_hex _ = []

hex_digit_value : (d : ℕ) → d < 16 → hex_value (hex_digit d) ≡ some d
unfolding hex_value hex_digit
hex_digit_value d h = ground arith

-- Bytes survive the way through hex text.
pub from_hex-to_hex : (bs : List ℕ) → All IsByte bs → from_hex (to_hex bs) ≡ bs
unfolding from_hex to_hex
from_hex-to_hex [] h = refl
from_hex-to_hex (b ∷ bs) (hb, hbs) = ground (
  arith,
  hex_digit_value (b / 16) (omega arith),
  hex_digit_value (b % 16) (omega arith),
  from_hex-to_hex bs hbs,
)

-- `for (const b of bytes) xor ^= b`
pub xor_all : ℕ → List ℕ → ℕ
xor_all acc [] = acc
xor_all acc (b ∷ bs) = xor_all (bit_xor acc b) bs

-- Whether x xor y is a byte for each y below a bound, and for each pair of bytes.
row_fits : ℕ → ℕ → Bool
row_fits x zero = true
row_fits x (suc bound) = row_fits x bound && ltb (bit_xor x bound) 256

table_fits : ℕ → Bool
table_fits zero = true
table_fits (suc rows) = row_fits rows 256 && table_fits rows

bytes_fit : table_fits 256 ≡ true
unfolding table_fits row_fits
bytes_fit = refl

row_of : (rows x : ℕ) → x < rows → table_fits rows ≡ true → row_fits x 256 ≡ true
unfolding table_fits
row_of zero x below h = absurd (omega arith)
row_of (suc rows) x below h = elim (Bool-cases (x == rows)) [
  | inl e ↦ let same : x ≡ rows = ground (arith, e) in rw same (ground (arith, h))
  | inr e ↦ row_of rows x (ground (arith, e)) (ground (arith, h))
]

cell_of : (bound x y : ℕ) → y < bound → row_fits x bound ≡ true → IsByte (bit_xor x y)
unfolding row_fits
cell_of zero x y below h = absurd (omega arith)
cell_of (suc bound) x y below h = elim (Bool-cases (y == bound)) [
  | inl e ↦ let same : y ≡ bound = ground (arith, e) in rw same (ltb→lt _ _ (ground (arith, h)))
  | inr e ↦ cell_of bound x y (ground (arith, e)) (ground (arith, h))
]

bit_xor-IsByte : (x y : ℕ) → IsByte x → IsByte y → IsByte (bit_xor x y)
bit_xor-IsByte x y hx hy = cell_of 256 x y hy (row_of 256 x hx bytes_fit)

pub xor_all-IsByte : (acc : ℕ) (bs : List ℕ) → IsByte acc → All IsByte bs → IsByte (xor_all acc bs)
unfolding xor_all
xor_all-IsByte acc [] h hs = h
xor_all-IsByte acc (b ∷ bs) h (hb, hbs) =
    xor_all-IsByte (bit_xor acc b) bs (bit_xor-IsByte acc b h hb) hbs

pub ascii-IsByte : (s : List ℕ) → All IsByte (ascii s)
unfolding ascii
ascii-IsByte [] = tt
ascii-IsByte (c ∷ s) = (omega arith, ascii-IsByte s)

pub length-ascii : (s : List ℕ) → length (ascii s) ≡ length s
unfolding ascii
length-ascii [] = refl
length-ascii (c ∷ s) = ap suc (length-ascii s)
