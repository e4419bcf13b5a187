-- ===== src/KeyMap.antt =====
-- A JavaScript `Map` or `Set` whose keys are compared for equality only (serials, timers, URLs): the
-- keys stand for themselves as numbers, in the order of insertion.
use eufy_sdk.Prelude.{
  ◌⊎◌, ℕ, ◌+◌, ◌≡◌, refl, Bool, true, false, List, [], ◌∷◌, ◌++◌, Option, none, some, arith, ◌==◌,
  if◌then◌else◌, length, Bool-cases, inl, inr, subst,
}

module _ {ℓ} {V : Type ℓ} where
  unfoldable pub lookup : ℕ → List (ℕ × V) → Option V
  lookup k [] = none
  lookup k ((j, v) ∷ m) = if j == k then some v else lookup k m

  -- `map.set(k, v)`: a key that is there keeps its place.
  unfoldable pub insert : ℕ → V → List (ℕ × V) → List (ℕ × V)
  insert key new [] = (key, new) ∷ []
  insert key new ((j, old) ∷ rest) =
      if j == key then (key, new) ∷ rest else (j, old) ∷ insert key new rest

  -- `map.delete(k)`.
  unfoldable pub delete : ℕ → List (ℕ × V) → List (ℕ × V)
  delete k [] = []
  delete k ((j, w) ∷ m) = if j == k then delete k m else (j, w) ∷ delete k m

  pub lookup-nil : (k : ℕ) → lookup k [] ≡ none
  unfolding lookup
  lookup-nil k = refl

  pub lookup-insert :
      (written asked : ℕ) (new : V) (entries : List (ℕ × V))
      → lookup asked (insert written new entries)
        ≡ (if written == asked then some new else lookup asked entries)
  unfolding lookup insert
  lookup-insert written asked new [] = refl
  lookup-insert written asked new (first ∷ rest) =
      ground (arith, lookup-insert written asked new rest)

  pub lookup-delete :
      (k j : ℕ) (m : List (ℕ × V)) → lookup j (delete k m) ≡ (if k == j then none else lookup j m)
  unfolding lookup delete
  lookup-delete k j [] = ground arith
  lookup-delete k j ((i, w) ∷ m) = ground (arith, lookup-delete k j m)

  pub lookup-insert_self : (k : ℕ) (v : V) (m : List (ℕ × V)) → lookup k (insert k v m) ≡ some v
  lookup-insert_self k v m = ground (arith, lookup-insert k k v m)

  pub lookup-insert_ne :
      (k j : ℕ) (v : V) (m : List (ℕ × V)) → (k == j) ≡ false → lookup j (insert k v m) ≡ lookup j m
  lookup-insert_ne k j v m h = ground (arith, lookup-insert k j v m)

  -- What a lookup after a write found: the value written, or what was there.
  pub lookup-insert_inv :
      (k j : ℕ) (v x : V) (m : List (ℕ × V))
      → lookup j (insert k v m) ≡ some x
      → ((k ≡ j) × (v ≡ x)) ⊎ (((k == j) ≡ false) × (lookup j m ≡ some x))
  lookup-insert_inv k j v x m h = elim (Bool-cases (k == j)) [
    | inl e ↦ inl (ground (arith, e), ground (arith, e, h, lookup-insert k j v m))
    | inr e ↦ inr (e, ground (arith, e, h, lookup-insert k j v m))
  ]

  pub lookup-delete_inv :
      (k j : ℕ) (x : V) (m : List (ℕ × V))
      → lookup j (delete k m) ≡ some x
      → ((k == j) ≡ false) × (lookup j m ≡ some x)
  lookup-delete_inv k j x m h = ground (arith, h, lookup-delete k j m)

  pub lookup-delete_self : (k : ℕ) (m : List (ℕ × V)) → lookup k (delete k m) ≡ none
  lookup-delete_self k m = ground (arith, lookup-delete k k m)

  pub lookup-delete_ne :
      (k j : ℕ) (m : List (ℕ × V)) → (k == j) ≡ false → lookup j (delete k m) ≡ lookup j m
  lookup-delete_ne k j m h = ground (arith, lookup-delete k j m)

  -- No two entries have the same key.
  abbrev pub IsKeyed : List (ℕ × V) → Type ℓ
  IsKeyed [] = Unit {ℓ}
  IsKeyed ((j, w) ∷ m) = (lookup j m ≡ none) × IsKeyed m

  pub insert-IsKeyed : (k : ℕ) (v : V) (m : List (ℕ × V)) → IsKeyed m → IsKeyed (insert k v m)
  unfolding insert
  insert-IsKeyed k v [] h = (lookup-nil k, tt)
  insert-IsKeyed k v ((j, w) ∷ m) (gone, rest) = elim (Bool-cases (j == k)) [
    | inl e ↦
        let same : j ≡ k = ground (arith, e) in
        rw e (subst (λ x. lookup x m ≡ none) same gone, rest)
    | inr e ↦ rw e (ground (arith, e, gone, lookup-insert k j v m), insert-IsKeyed k v m rest)
  ]

  pub delete-IsKeyed : (k : ℕ) (m : List (ℕ × V)) → IsKeyed m → IsKeyed (delete k m)
  unfolding delete
  delete-IsKeyed k [] h = tt
  delete-IsKeyed k ((j, w) ∷ m) (gone, rest) =
      ground (arith, delete-IsKeyed k m rest, gone, lookup-delete k j m)

  pub delete_absent : (k : ℕ) (m : List (ℕ × V)) → lookup k m ≡ none → delete k m ≡ m
  unfolding lookup delete
  delete_absent k [] h = refl
  delete_absent k ((j, w) ∷ m) h = ground (arith, delete_absent k m)

  pub length-delete :
      (k : ℕ) (v : V) (m : List (ℕ × V))
      → IsKeyed m
      → lookup k m ≡ some v
      → length m ≡ length (delete k m) + 1
  unfolding lookup delete
  length-delete k v [] d h = absurd (ground arith)
  length-delete k v ((j, w) ∷ m) (gone, rest) h = elim (Bool-cases (j == k)) [
    | inl e ↦
        let same : j ≡ k = ground (arith, e) in
        rw (e, delete_absent k m (subst (λ x. lookup x m ≡ none) same gone)) (omega arith)
    | inr e ↦ ground (arith, length-delete k v m rest, e)
  ]

  pub length-insert_new :
      (k : ℕ) (v : V) (m : List (ℕ × V)) → lookup k m ≡ none → length (insert k v m) ≡ length m + 1
  unfolding lookup insert
  length-insert_new k v [] h = refl
  length-insert_new k v ((j, w) ∷ m) h = ground (arith, length-insert_new k v m)

  pub insert_same : (k : ℕ) (v : V) (m : List (ℕ × V)) → lookup k m ≡ some v → insert k v m ≡ m
  unfolding lookup insert
  insert_same k v [] h = absurd (ground arith)
  insert_same k v ((j, w) ∷ m) h = elim (Bool-cases (j == k)) [
    | inl e ↦
        let same : j ≡ k = ground (arith, e) in
        let value : w ≡ v = ground (arith, e, h) in rw (e, same, value)
    | inr e ↦ ground (arith, insert_same k v m, e)
  ]

-- A `Set` of such keys.
unfoldable pub has : ℕ → List ℕ → Bool
has k [] = false
has k (j ∷ s) = if j == k then true else has k s

unfoldable pub without : ℕ → List ℕ → List ℕ
without k [] = []
without k (j ∷ s) = if j == k then without k s else j ∷ without k s

abbrev pub IsDistinct : List ℕ → Type 0
IsDistinct [] = Unit {0}
IsDistinct (j ∷ s) = (has j s ≡ false) × IsDistinct s

pub has-without : (k j : ℕ) (s : List ℕ) → has j (without k s) ≡ (if k == j then false else has j s)
unfolding has without
has-without k j [] = ground arith
has-without k j (i ∷ s) = ground (arith, has-without k j s)

pub without-IsDistinct : (k : ℕ) (s : List ℕ) → IsDistinct s → IsDistinct (without k s)
unfolding without
without-IsDistinct k [] h = tt
without-IsDistinct k (i ∷ s) (fresh, rest) =
    ground (arith, without-IsDistinct k s rest, has-without k i s)

pub without_absent : (k : ℕ) (s : List ℕ) → has k s ≡ false → without k s ≡ s
unfolding has without
without_absent k [] h = refl
without_absent k (i ∷ s) h = ground (arith, without_absent k s)

pub length-without :
    (k : ℕ) (s : List ℕ) → IsDistinct s → has k s ≡ true → length s ≡ length (without k s) + 1
unfolding has without
length-without k [] d h = absurd (ground arith)
length-without k (i ∷ s) (fresh, rest) h = elim (Bool-cases (i == k)) [
  | inl e ↦
      let same : i ≡ k = ground (arith, e) in
      let gone : has k s ≡ false = subst (λ x. has x s ≡ false) same fresh in
      rw (e, without_absent k s gone) (omega arith)
  | inr e ↦ ground (arith, length-without k s rest, e)
]

pub has-snoc : (j k : ℕ) (s : List ℕ) → has j (s ++ (k ∷ [])) ≡ (if k == j then true else has j s)
unfolding has
has-snoc j k [] = refl
has-snoc j k (i ∷ s) = ground (arith, has-snoc j k s)

pub snoc-IsDistinct :
    (k : ℕ) (s : List ℕ) → IsDistinct s → has k s ≡ false → IsDistinct (s ++ (k ∷ []))
unfolding has
snoc-IsDistinct k [] d h = (refl, tt)
snoc-IsDistinct k (i ∷ s) (fresh, rest) h = ground (arith, has-snoc i k s, snoc-IsDistinct k s rest)
