-- ===== src/Ff09/Tlv.antt =====
-- The fields that `write_tlv` writes, read back by `parse_settings_response`.
use eufy_sdk.Prelude.{
  ℕ, zero, suc, ◌+◌, ◌%◌, ◌<◌, ◌≤◌, ◌≡◌, refl, ap, ◌∙◌, List, [], ◌∷◌, ◌++◌, none, some, arith,
  length, get_elem?, take-append_self, drop-append_self, length-append, ok, replicate, ◌==◌,
  if◌then◌else◌, append_assoc, Result-cases, inl, inr,
}
use eufy_sdk.Ff09.{write_tlv}
use eufy_sdk.Ff09.Reply.{map_get, map_set, parse_loop, parse_settings_response, SettingsResponse}

pub map_get-map_set :
    (j k : ℕ) (v : List ℕ) (m : List (ℕ × List ℕ))
    → map_get j (map_set k v m) ≡ (if k == j then some v else map_get j m)
unfolding map_get map_set
map_get-map_set j k v [] = refl
map_get-map_set j k v ((i, w) ∷ m) = ground (arith, map_get-map_set j k v m)

-- The map after setting the fields in order, under the separators from `sep` on.
set_all : ℕ → List (List ℕ) → List (ℕ × List ℕ) → List (ℕ × List ℕ)
set_all sep [] m = m
set_all sep (f ∷ fs) m = set_all (sep + 1) fs (map_set sep f m)

map_get-set_all_lt :
    (sep j : ℕ) (fs : List (List ℕ)) (m : List (ℕ × List ℕ))
    → j < sep
    → map_get j (set_all sep fs m) ≡ map_get j m
unfolding set_all
map_get-set_all_lt sep j [] m h = refl
map_get-set_all_lt sep j (f ∷ fs) m h =
    map_get-set_all_lt (sep + 1) j fs (map_set sep f m) (omega arith)
    ∙ map_get-map_set j sep f m
    ∙ ground arith

map_get-set_all :
    (sep i : ℕ) (fs : List (List ℕ)) (m : List (ℕ × List ℕ))
    → ((j : ℕ) → sep ≤ j → map_get j m ≡ none)
    → map_get (sep + i) (set_all sep fs m) ≡ get_elem? fs i
unfolding set_all
map_get-set_all sep i [] m fresh = fresh (sep + i) (omega arith)
map_get-set_all sep zero (f ∷ fs) m fresh =
    let e : sep + 0 ≡ sep = omega arith in
    rw e (
      map_get-set_all_lt (sep + 1) sep fs (map_set sep f m) (omega arith)
      ∙ map_get-map_set sep sep f m
      ∙ ground arith)
map_get-set_all sep (suc i) (f ∷ fs) m fresh =
    let e : sep + suc i ≡ sep + 1 + i = omega arith in
    rw e (
      map_get-set_all (sep + 1) i fs (map_set sep f m)
        (λ j h. map_get-map_set j sep f m ∙ ground (arith, fresh j (omega arith))))

parse_loop_padding : (fuel k : ℕ) (m : List (ℕ × List ℕ)) → parse_loop fuel (replicate k 0) m ≡ m
unfolding parse_loop
parse_loop_padding zero k m = refl
parse_loop_padding (suc fuel) zero m = refl
parse_loop_padding (suc fuel) (suc zero) m = refl
parse_loop_padding (suc fuel) (suc (suc k)) m = refl

parse_loop_field :
    (fuel sep : ℕ) (f rest : List ℕ) (m : List (ℕ × List ℕ))
    → 0 < sep
    → parse_loop (suc fuel) (sep ∷ length f ∷ (f ++ rest)) m
      ≡ parse_loop fuel rest (map_set sep f m)
unfolding parse_loop
parse_loop_field fuel sep f rest m h =
    rw (drop-append_self f rest, take-append_self f rest) (ground (arith, length-append f rest))

write_tlv-cons :
    (sep : ℕ) (f : List ℕ) (fs : List (List ℕ)) (bs : List ℕ)
    → write_tlv sep (f ∷ fs) ≡ ok bs
    → (cs : List ℕ) × (write_tlv (sep + 1) fs ≡ ok cs)
      × (length f < 256)
      × (bs ≡ (sep % 256) ∷ length f ∷ (f ++ cs))
unfolding write_tlv
write_tlv-cons sep f fs bs h = elim (Result-cases (write_tlv (sep + 1) fs)) [
  | inl (cs, e) ↦ (cs, e, ground (arith, e, h), ground (arith, e, h))
  | inr (x, e) ↦ absurd (ground (arith, e, h))
]

write_tlv-nil : (sep : ℕ) (bs : List ℕ) → write_tlv sep [] ≡ ok bs → [] ≡ bs
unfolding write_tlv
write_tlv-nil sep bs h = ground (arith, h)

parse_loop-write_tlv :
    (fs : List (List ℕ)) (sep fuel k : ℕ) (bs : List ℕ) (m : List (ℕ × List ℕ))
    → write_tlv sep fs ≡ ok bs
    → 0 < sep
    → sep + length fs ≤ 256
    → length (bs ++ replicate k 0) ≤ fuel
    → parse_loop fuel (bs ++ replicate k 0) m ≡ set_all sep fs m
unfolding set_all
parse_loop-write_tlv [] sep fuel k bs m h pos fits enough =
    rw (← write_tlv-nil sep bs h) (parse_loop_padding fuel k m)
parse_loop-write_tlv (f ∷ fs) sep zero k bs m h pos fits enough =
    let (cs, written, short, shape) = write_tlv-cons sep f fs bs h in
    absurd (omega (arith, enough, ap length shape, length-append bs (replicate k 0)))
parse_loop-write_tlv (f ∷ fs) sep (suc fuel) k bs m h pos fits enough =
    let (cs, written, short, shape) = write_tlv-cons sep f fs bs h in
    let tag : sep % 256 ≡ sep = omega arith in
    let len : length bs ≡ length f + length cs + 2 =
      omega (arith, ap length shape, length-append f cs) in
    rw (shape, tag, append_assoc)
      (parse_loop_field fuel sep f (cs ++ replicate k 0) m pos
        ∙ parse_loop-write_tlv fs (sep + 1) fuel k cs (map_set sep f m) written (omega arith)
            (omega arith)
            (omega
              (arith, len, length-append bs (replicate k 0), length-append cs (replicate k 0))))

-- A device's reply of a status byte, at most 95 fields that could be written from 0xa1 on, and any zero
-- padding reads back as the status, and under the i-th separator the i-th field, or nothing past the
-- last. With more fields the separator wraps to zero.
pub parse-write_tlv :
    (fs : List (List ℕ)) (status k : ℕ) (bs : List ℕ)
    → write_tlv 0xa1 fs ≡ ok bs
    → length fs ≤ 95
    → (r : SettingsResponse) × (parse_settings_response (status ∷ (bs ++ replicate k 0)) ≡ ok r)
      × (r.status ≡ status)
      × ((i : ℕ) → map_get (0xa1 + i) r.fields ≡ get_elem? fs i)
unfolding parse_settings_response
parse-write_tlv fs status k bs h few = (
  record { status = status; fields = set_all 0xa1 fs [] },
  rw (
      parse_loop-write_tlv fs 0xa1 (length (bs ++ replicate k 0)) k bs [] h (omega arith)
        (omega arith) (omega arith)),
  refl,
  λ i. map_get-set_all 0xa1 i fs [] (λ j _. unfold map_get in refl),
)
