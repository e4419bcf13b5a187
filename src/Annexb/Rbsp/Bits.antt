-- ===== src/Annexb/Rbsp/Bits.antt =====
-- The bits that `RbspReader` of src/transport/p2p/annexb.ts reads.
use eufy_sdk.Prelude.{
  ℕ, zero, suc, ◌+◌, ◌-◌, ◌*◌, ◌/◌, ◌%◌, ◌^◌, ◌<◌, ◌≤◌, ◌≡◌, refl, sym, ◌∙◌, ap, true, false, List,
  [], ◌∷◌, ◌++◌, some, length, drop, replicate, arith, ltb, append_assoc, drop-drop, leb,
  if◌then◌else◌, Bool-cases, inl, inr,
}
use eufy_sdk.Annexb.Rbsp.{Rbsp, bit_at, u_loop, u, ue_loop, ue}

-- The bits of bytes, the most significant first.
unfoldable pub bits : List ℕ → List ℕ
bits [] = []
bits (b ∷ bs) =
    b / 2 ^ 7 % 2
    ∷ b / 2 ^ 6 % 2
    ∷ b / 2 ^ 5 % 2
    ∷ b / 2 ^ 4 % 2
    ∷ b / 2 ^ 3 % 2
    ∷ b / 2 ^ 2 % 2
    ∷ b / 2 ^ 1 % 2
    ∷ b / 2 ^ 0 % 2
    ∷ bits bs

-- The number that bits write behind those of `value`.
pub value_of : ℕ → List ℕ → ℕ
value_of value [] = value
value_of value (b ∷ rest) = value_of (value * 2 + b) rest

-- The `count` binary digits of an `n` below 2^count.
unfoldable pub digits : ℕ → ℕ → List ℕ
digits zero n = []
digits (suc count) n =
    if leb (2 ^ count) n then 1 ∷ digits count (n - 2 ^ count) else 0 ∷ digits count n

-- What stands at bit `i`: the bit that `bit_at` reads, inside the bytes.
record IsNext (bytes : List ℕ) (i x : ℕ) (rest : List ℕ) : Type 0 where
  inside : i / 8 < length bytes
  read : bit_at bytes i ≡ x
  after : drop (suc i) (bits bytes) ≡ rest

drop-bits :
    (bytes : List ℕ) (i x : ℕ) (rest : List ℕ)
    → drop i (bits bytes) ≡ x ∷ rest
    → IsNext bytes i x rest
unfolding bits bit_at
drop-bits [] zero x rest h = absurd (ground (arith, h))
drop-bits [] (suc i) x rest h = absurd (ground (arith, h))
drop-bits (b ∷ bs) zero x rest h = record {
  inside = omega arith;
  read = ground (arith, h);
  after = ground (arith, h);
}
drop-bits (b ∷ bs) (suc zero) x rest h = record {
  inside = omega arith;
  read = ground (arith, h);
  after = ground (arith, h);
}
drop-bits (b ∷ bs) (suc (suc zero)) x rest h = record {
  inside = omega arith;
  read = ground (arith, h);
  after = ground (arith, h);
}
drop-bits (b ∷ bs) (suc (suc (suc zero))) x rest h = record {
  inside = omega arith;
  read = ground (arith, h);
  after = ground (arith, h);
}
drop-bits (b ∷ bs) (suc (suc (suc (suc zero)))) x rest h = record {
  inside = omega arith;
  read = ground (arith, h);
  after = ground (arith, h);
}
drop-bits (b ∷ bs) (suc (suc (suc (suc (suc zero))))) x rest h = record {
  inside = omega arith;
  read = ground (arith, h);
  after = ground (arith, h);
}
drop-bits (b ∷ bs) (suc (suc (suc (suc (suc (suc zero)))))) x rest h = record {
  inside = omega arith;
  read = ground (arith, h);
  after = ground (arith, h);
}
drop-bits (b ∷ bs) (suc (suc (suc (suc (suc (suc (suc zero))))))) x rest h = record {
  inside = omega arith;
  read = ground (arith, h);
  after = ground (arith, h);
}
drop-bits (b ∷ bs) (suc (suc (suc (suc (suc (suc (suc (suc i)))))))) x rest h =
    let r = drop-bits bs i x rest h in
    let q : suc (suc (suc (suc (suc (suc (suc (suc i))))))) / 8 ≡ suc (i / 8) = omega arith in
    let m : suc (suc (suc (suc (suc (suc (suc (suc i))))))) % 8 ≡ i % 8 = omega arith in
    record { inside = omega (arith, r.inside); read = rw (q, m) r.read; after = r.after }

next_bit :
    (r : Rbsp) (rest : List ℕ)
    → drop (suc r.bit) (bits r.bytes) ≡ rest
    → drop (r.bit + 1) (bits r.bytes) ≡ rest
next_bit r rest h = let e : r.bit + 1 ≡ suc r.bit = omega arith in rw e h

-- A run of `u` reads the number that the next bits write.
u_loop-value_of :
    (code : List ℕ) (value : ℕ) (r : Rbsp) (rest : List ℕ)
    → drop r.bit (bits r.bytes) ≡ code ++ rest
    → u_loop (length code) value r ≡ (value_of value code, record r { bit = r.bit + length code })
unfolding u_loop value_of
u_loop-value_of [] value r rest h = let e : r.bit + 0 ≡ r.bit = omega arith in rw e
u_loop-value_of (b ∷ code) value r rest h =
    let next = drop-bits r.bytes r.bit b (code ++ rest) h in
    let more =
      u_loop-value_of code (value * 2 + b) (record r { bit = r.bit + 1 }) rest
        (next_bit r _ next.after) in
    let e : r.bit + suc (length code) ≡ r.bit + 1 + length code = omega arith in
    let t : ltb (r.bit / 8) (length r.bytes) ≡ true = ground (arith, next.inside) in
    rw (t, next.read, e) more

one_bit :
    (b : ℕ) (r : Rbsp) (rest : List ℕ)
    → drop r.bit (bits r.bytes) ≡ b ∷ rest
    → u 1 r ≡ (b, record r { bit = r.bit + 1 })
unfolding u value_of
one_bit b r rest h =
    let e : 0 * 2 + b ≡ b = omega arith in u_loop-value_of (b ∷ []) 0 r rest h ∙ rw e

one_bit_after :
    (b : ℕ) (r : Rbsp) (rest : List ℕ)
    → drop r.bit (bits r.bytes) ≡ b ∷ rest
    → drop (r.bit + 1) (bits r.bytes) ≡ rest
one_bit_after b r rest h = next_bit r rest (drop-bits r.bytes r.bit b rest h).after

-- A reader at bit `i` that has not failed.
abbrev pub reads_at : List ℕ → ℕ → Rbsp
reads_at bytes i = record { bytes = bytes; bit = i; failed = false }

-- The loop of `ue` counts the zeros before the first one.
ue_loop-replicate :
    (k left n : ℕ) (bytes : List ℕ) (i : ℕ) (rest : List ℕ)
    → k ≤ left
    → drop i (bits bytes) ≡ replicate k 0 ++ (1 ∷ rest)
    → ue_loop left n (reads_at bytes i) ≡ (some (n + k), reads_at bytes (i + (k + 1)))
unfolding ue_loop
ue_loop-replicate zero zero n bytes i rest low h =
    let e : n + 0 ≡ n = omega arith in rw (one_bit 1 (reads_at bytes i) rest h, e) refl
ue_loop-replicate zero (suc left) n bytes i rest low h =
    let e : n + 0 ≡ n = omega arith in rw (one_bit 1 (reads_at bytes i) rest h, e) refl
ue_loop-replicate (suc k) zero n bytes i rest low h = absurd (omega arith)
ue_loop-replicate (suc k) (suc left) n bytes i rest low h =
    let more =
      ue_loop-replicate k left (n + 1) bytes (i + 1) rest (omega arith)
        (one_bit_after 0 (reads_at bytes i) _ h) in
    let e : n + suc k ≡ n + 1 + k = omega arith in
    let t : i + (suc k + 1) ≡ i + 1 + (k + 1) = omega arith in
    rw (one_bit 0 (reads_at bytes i) _ h, e, t) more

drop-replicate : (k : ℕ) (code : List ℕ) → drop (suc k) (replicate k 0 ++ (1 ∷ code)) ≡ code
drop-replicate zero code = refl
drop-replicate (suc k) code = drop-replicate k code

drop_zeros :
    (k i : ℕ) (code xs : List ℕ)
    → drop i xs ≡ replicate k 0 ++ (1 ∷ code)
    → drop (i + (k + 1)) xs ≡ code
drop_zeros k i code xs h =
    let e : k + 1 ≡ suc k = omega arith in
    sym (drop-drop i (k + 1) xs) ∙ ap (drop (k + 1)) h ∙ rw e (drop-replicate k code)

-- `ue` reads the value 2^k - 1 + x from k zeros, a one and the k digits that write x.
ue-code :
    (code bytes : List ℕ) (i : ℕ) (rest : List ℕ)
    → length code ≤ 32
    → drop i (bits bytes) ≡ replicate (length code) 0 ++ (1 ∷ (code ++ rest))
    → ue (reads_at bytes i)
      ≡ (2 ^ length code - 1 + value_of 0 code, reads_at bytes (i + (2 * length code + 1)))
unfolding ue u value_of
ue-code [] bytes i rest low h = rw (ue_loop-replicate 0 32 0 bytes i rest low h) refl
ue-code (b ∷ code) bytes i rest low h =
    let n = length code in
    let e : 0 + suc n ≡ suc n = omega arith in
    let t : i + (suc n + 1) + suc n ≡ i + (2 * suc n + 1) = omega arith in
    let read =
      u_loop-value_of (b ∷ code) 0 (reads_at bytes (i + (suc n + 1))) rest
        (drop_zeros (suc n) i _ (bits bytes) h) in
    rw (ue_loop-replicate (suc n) 32 0 bytes i _ low h, e, read, t) refl

weigh : (v b p : ℕ) → (v * 2 + b) * p ≡ v * (p + p) + b * p
weigh v b p = grind arith

two_pow : (count : ℕ) → 2 ^ suc count ≡ 2 ^ count + 2 ^ count
two_pow count = omega arith

length-digits : (count n : ℕ) → length (digits count n) ≡ count
unfolding digits
length-digits zero n = refl
length-digits (suc count) n =
    ground (arith, length-digits count n, length-digits count (n - 2 ^ count))

value_of-digits :
    (count value n : ℕ) → n < 2 ^ count → value_of value (digits count n) ≡ value * 2 ^ count + n
unfolding value_of digits
value_of-digits zero value n h = omega arith
value_of-digits (suc count) value n h = elim (Bool-cases (leb (2 ^ count) n)) [
  | inl e ↦
      let low : 2 ^ count ≤ n = ground (arith, e) in
      rw e (
        value_of-digits count (value * 2 + 1) (n - 2 ^ count) (omega (arith, two_pow count))
        ∙ rw (two_pow count, weigh value 1 (2 ^ count)) (omega (arith, low)))
  | inr e ↦
      let low : n < 2 ^ count = ground (arith, e) in
      rw e (
        value_of-digits count (value * 2 + 0) n low
        ∙ rw (two_pow count, weigh value 0 (2 ^ count)) (omega (arith, low)))
]

-- The exp-Golomb code of 2^k - 1 + x for an x below 2^k.
unfoldable pub exp_golomb : ℕ → ℕ → List ℕ
exp_golomb k x = replicate k 0 ++ (1 ∷ digits k x)

-- At the exp-Golomb code of 2^k - 1 + x, where k is at most 32 and x below 2^k, `ue` reads that number and
-- stands behind the code, without failing.
pub ue-exp_golomb :
    (k x : ℕ) (bytes : List ℕ) (i : ℕ) (rest : List ℕ)
    → k ≤ 32
    → x < 2 ^ k
    → drop i (bits bytes) ≡ exp_golomb k x ++ rest
    → ue (reads_at bytes i) ≡ (2 ^ k - 1 + x, reads_at bytes (i + (2 * k + 1)))
unfolding exp_golomb
ue-exp_golomb k x bytes i rest low small h =
    let e = length-digits k x in
    let shape : drop i (bits bytes)
        ≡ replicate (length (digits k x)) 0 ++ (1 ∷ (digits k x ++ rest)) =
      rw e (h ∙ append_assoc (replicate k 0) (1 ∷ digits k x) rest) in
    let read = ue-code (digits k x) bytes i rest (omega (arith, e)) shape in
    let value : value_of 0 (digits k x) ≡ x = value_of-digits k 0 x small ∙ omega arith in
    let place : 2 ^ length (digits k x) - 1 + value_of 0 (digits k x) ≡ 2 ^ k - 1 + x =
      rw (e, value) refl in
    let last : i + (2 * length (digits k x) + 1) ≡ i + (2 * k + 1) = rw e refl in
    read ∙ rw (place, last) refl
