-- ===== src/Annexb/Sets.antt =====
-- Units written and split again by src/transport/p2p/annexb.ts.
use eufy_sdk.Prelude.{
  ℕ, suc, ◌+◌, ◌-◌, ◌≡◌, refl, sym, ◌∙◌, ap, ap₂, Bool, true, false, not, ◌&&◌, List, [], ◌∷◌, ◌++◌,
  length, take, drop, leb, ◌==◌, arith, append_assoc, append-nil, length-append, take-append_self,
  drop-append_self, get_or-append_self,
}
use eufy_sdk.Annexb.{
  annexb_start, is_three_byte_code, is_four_byte_code, starts_from, nal_starts, start_code_begin,
  nal_end, if_any, nals_at, split_annexb_nals, prefixed, prefix_param_sets, ParamSets,
}

-- A NAL body has a byte, ends in one other than 0, and holds no start code and no three zeros.
unfoldable pub is_clean : List ℕ → Bool
is_clean [] = false
is_clean (x ∷ []) = not (x == 0)
is_clean (x ∷ y ∷ []) = not (y == 0)
is_clean (x ∷ y ∷ z ∷ rest) = not ((x == 0) && (y == 0) && leb z 1) && is_clean (y ∷ z ∷ rest)

unfoldable pub are_clean : List (List ℕ) → Bool
are_clean [] = true
are_clean (nal ∷ nals) = is_clean nal && are_clean nals

-- The offsets found in units from index `i` on: the scan finds each body twice, behind the four bytes of
-- its start code and behind the last three of them.
offsets : ℕ → List (List ℕ) → List ℕ
offsets i [] = []
offsets i (nal ∷ nals) = (i + 4) ∷ (i + 1 + 3) ∷ offsets (i + 4 + length nal) nals

no_start :
    (i : ℕ) (x : ℕ) (rest : List ℕ)
    → is_three_byte_code (x ∷ rest) ≡ false
    → is_four_byte_code (x ∷ rest) ≡ false
    → starts_from i (x ∷ rest) ≡ starts_from (i + 1) rest
unfolding starts_from
no_start i x rest h3 h4 = rw (h3, h4) refl

starts-clean :
    (i : ℕ) (nal tail : List ℕ)
    → is_clean nal ≡ true
    → starts_from i (nal ++ tail) ≡ starts_from (i + length nal) tail
unfolding is_clean is_three_byte_code is_four_byte_code
starts-clean i [] tail h = absurd (ground (arith, h))
starts-clean i (x ∷ []) tail h = no_start i x tail (ground (arith, h)) (ground (arith, h))
starts-clean i (x ∷ y ∷ []) tail h =
    no_start i x (y ∷ tail) (ground (arith, h)) (ground (arith, h))
    ∙ no_start (i + 1) y tail (ground (arith, h)) (ground (arith, h))
    ∙ ap (λ k. starts_from k tail) (omega arith)
starts-clean i (x ∷ y ∷ z ∷ rest) tail h =
    let e : i + suc (suc (suc (length rest))) ≡ i + 1 + suc (suc (length rest)) = omega arith in
    no_start i x (y ∷ z ∷ (rest ++ tail)) (ground (arith, h)) (ground (arith, h))
    ∙ starts-clean (i + 1) (y ∷ z ∷ rest) tail (ground (arith, h))
    ∙ ap (λ k. starts_from k tail) (sym e)

-- The four bytes of a start code that a body follows.
starts-code :
    (i : ℕ) (nal tail : List ℕ)
    → is_clean nal ≡ true
    → starts_from i (annexb_start ++ nal ++ tail)
      ≡ (i + 4) ∷ (i + 1 + 3) ∷ starts_from (i + 4) (nal ++ tail)
unfolding is_clean is_three_byte_code is_four_byte_code
starts-code i [] tail h = absurd (ground (arith, h))
starts-code i (n ∷ nal) tail h =
    let rest = n ∷ (nal ++ tail) in
    let first : starts_from i (0 ∷ 0 ∷ 0 ∷ 1 ∷ rest)
        ≡ (i + 4) ∷ starts_from (i + 1) (0 ∷ 0 ∷ 1 ∷ rest) =
      unfold starts_from in ground arith in
    let second : starts_from (i + 1) (0 ∷ 0 ∷ 1 ∷ rest)
        ≡ (i + 1 + 3) ∷ starts_from (i + 1 + 1) (0 ∷ 1 ∷ rest) =
      unfold starts_from in ground arith in
    first
    ∙ ap (λ z. (i + 4) ∷ z)
        (second
          ∙ ap (λ z. (i + 1 + 3) ∷ z)
              (no_start (i + 1 + 1) 0 (1 ∷ rest) (ground arith) (ground arith)
                ∙ no_start (i + 1 + 1 + 1) 1 rest (ground arith) (ground arith)
                ∙ ap (λ k. starts_from k rest) (omega arith)))

starts-prefixed :
    (i : ℕ) (nals : List (List ℕ))
    → are_clean nals ≡ true
    → starts_from i (prefixed nals []) ≡ offsets i nals
unfolding prefixed are_clean offsets
starts-prefixed i [] h = unfold starts_from in refl
starts-prefixed i (nal ∷ nals) h =
    let clean : is_clean nal ≡ true = ground (arith, h) in
    starts-code i nal (prefixed nals []) clean
    ∙ ap (λ z. (i + 4) ∷ (i + 1 + 3) ∷ z)
        (starts-clean (i + 4) nal (prefixed nals []) clean
          ∙ starts-prefixed (i + 4 + length nal) nals (ground (arith, h)))

-- The end of a body, and of the empty one between the two offsets of a unit.
code_begin :
    (front back : List ℕ) → start_code_begin (front ++ (0 ∷ back)) (length front + 4) ≡ length front
unfolding start_code_begin
code_begin front back =
    let e : length front + 4 - 3 - 1 ≡ length front = omega arith in
    let t : leb 1 (length front + 4 - 3) ≡ true = ground arith in
    rw (t, e, get_or-append_self front (0 ∷ back) 0) refl

nal_end-offsets :
    (front : List ℕ) (nals : List (List ℕ))
    → nal_end (front ++ prefixed nals []) (offsets (length front) nals) ≡ length front
unfolding prefixed offsets
nal_end-offsets front [] = rw (append-nil front) refl
nal_end-offsets front (nal ∷ nals) = code_begin front _

-- One unit behind `front`, with others behind it.
module _ (front nal : List ℕ) (nals : List (List ℕ)) where
  whole : List ℕ
  whole = front ++ (annexb_start ++ nal ++ prefixed nals [])

  passed : List ℕ
  passed = front ++ (annexb_start ++ nal)

  whole-passed : whole ≡ passed ++ prefixed nals []
  unfolding whole passed
  whole-passed = sym (append_assoc front (annexb_start ++ nal) (prefixed nals []))

  length-passed : length passed ≡ length front + 4 + length nal
  unfolding passed
  length-passed = omega (arith, length-append front (annexb_start ++ nal))

  drop-whole : drop (length front + 1 + 3) whole ≡ nal ++ prefixed nals []
  unfolding whole
  drop-whole =
      let e : length front + 1 + 3 ≡ length (front ++ annexb_start) =
        omega (arith, length-append front annexb_start) in
      rw (e, sym (append_assoc front annexb_start (nal ++ prefixed nals [])))
        (drop-append_self (front ++ annexb_start) (nal ++ prefixed nals []))

  nal_end-whole :
      nal_end whole (offsets (length front + 4 + length nal) nals) ≡ length front + 4 + length nal
  nal_end-whole = rw (whole-passed, sym length-passed) (nal_end-offsets passed nals)

  empty_body :
      take
        (start_code_begin whole (length front + 1 + 3) - (length front + 4))
        (drop (length front + 4) whole)
      ≡ []
  unfolding whole
  empty_body =
      let e : length front + 1 + 3 ≡ length front + 4 = omega arith in
      let z : length front - (length front + 4) ≡ 0 = omega arith in
      rw (e, code_begin front (0 ∷ 0 ∷ 1 ∷ (nal ++ prefixed nals [])), z) refl

  body :
      take
        (nal_end whole (offsets (length front + 4 + length nal) nals) - (length front + 1 + 3))
        (drop (length front + 1 + 3) whole)
      ≡ nal
  body =
      let z : length front + 4 + length nal - (length front + 1 + 3) ≡ length nal = omega arith in
      rw (nal_end-whole, drop-whole, z) (take-append_self nal (prefixed nals []))

if_any_clean :
    (nal : List ℕ) (nals : List (List ℕ)) → is_clean nal ≡ true → if_any nal nals ≡ nal ∷ nals
unfolding is_clean
if_any_clean [] nals h = absurd (ground (arith, h))
if_any_clean (b ∷ nal) nals h = refl

nals_at-prefixed :
    (front : List ℕ) (nals : List (List ℕ))
    → are_clean nals ≡ true
    → nals_at (front ++ prefixed nals []) (offsets (length front) nals) ≡ nals
unfolding prefixed offsets are_clean nals_at whole
nals_at-prefixed front [] h = refl
nals_at-prefixed front (nal ∷ nals) h =
    let clean : is_clean nal ≡ true = ground (arith, h) in
    let more : nals_at (passed front nal nals ++ prefixed nals [])
          (offsets (length (passed front nal nals)) nals)
        ≡ nals =
      nals_at-prefixed (passed front nal nals) nals (ground (arith, h)) in
    let rest : nals_at (whole front nal nals) (offsets (length front + 4 + length nal) nals)
        ≡ nals =
      rw (whole-passed front nal nals, sym (length-passed front nal nals)) more in
    ap₂ if_any (empty_body front nal nals)
      (ap₂ if_any (body front nal nals) rest ∙ if_any_clean nal nals clean)

split-prefixed :
    (nals : List (List ℕ)) → are_clean nals ≡ true → split_annexb_nals (prefixed nals []) ≡ nals
unfolding split_annexb_nals nal_starts
split-prefixed nals h = rw (starts-prefixed 0 nals h) (nals_at-prefixed [] nals h)

prefixed-append :
    (nals more : List (List ℕ)) → prefixed nals (prefixed more []) ≡ prefixed (nals ++ more) []
unfolding prefixed
prefixed-append [] more = refl
prefixed-append (nal ∷ nals) more = ap (λ z. annexb_start ++ nal ++ z) (prefixed-append nals more)

-- A unit of bodies with start codes, prefixed with parameter sets, is split into the sets' bodies, VPS
-- before SPS before PPS, and then its own, where each body has a byte, ends in one other than 0, and holds
-- neither a start code nor three zeros.
pub split-prefix_param_sets :
    (unit : List (List ℕ)) (sets : ParamSets)
    → are_clean ((sets.vps ++ sets.sps ++ sets.pps) ++ unit) ≡ true
    → split_annexb_nals (prefix_param_sets (prefixed unit []) sets)
      ≡ (sets.vps ++ sets.sps ++ sets.pps) ++ unit
unfolding prefix_param_sets
split-prefix_param_sets unit sets h =
    let parts = sets.vps ++ sets.sps ++ sets.pps in
    ap split_annexb_nals (prefixed-append parts unit) ∙ split-prefixed (parts ++ unit) h
