-- ===== src/LiveSource/Window/Covers.antt =====
-- A suffix that answers the drains of src/transport/p2p/shared-live-source.ts as the whole does.
use eufy_sdk.Prelude.{
  ℕ, ◌+◌, ◌≤◌, ◌≡◌, ◌⊎◌, refl, sym, ◌∙◌, ap, true, false, List, [], ◌∷◌, ◌++◌, none, some, All, leb,
  arith, Bool-cases, Option-cases, inl, inr, All-append,
}
use eufy_sdk.LiveConsumer.{TimedFrame, is_keyframe}
use eufy_sdk.LiveSource.{time_of, retained, window_start}
use eufy_sdk.LiveSource.Window.{
  IsOrdered, from_oldest, is_early, from_newest, run_of, loop_newest, loop_oldest,
}

-- A suffix `ring` of `before ++ ring` that answers every drain whose window starts at `now - span` or
-- later: what is missing has no keyframe, or the suffix starts at a keyframe of that time or earlier.
abbrev pub Covers : ℕ → ℕ → List TimedFrame → List TimedFrame → Type 0
Covers now span before ring =
    All (λ x. is_keyframe x ≡ false) before
    ⊎ ((x : TimedFrame) × (rest : List TimedFrame) × (ring ≡ x ∷ rest)
        × (is_early now span x ≡ true))

newest_of :
    (now span : ℕ) (before ring run : List TimedFrame)
    → from_newest now span ring ≡ some run
    → from_newest now span (before ++ ring) ≡ some run
unfolding from_newest
newest_of now span [] ring run h = h
newest_of now span (x ∷ before) ring run h = rw (newest_of now span before ring run h) refl

head_early :
    (now span : ℕ) (x : TimedFrame) (rest : List TimedFrame)
    → is_early now span x ≡ true
    → (run : List TimedFrame) × (from_newest now span (x ∷ rest) ≡ some run)
unfolding from_newest
head_early now span x rest h = elim (Option-cases (from_newest now span rest)) [
  | inr (run, e) ↦ (run, rw e refl)
  | inl e ↦ (x ∷ rest, rw (e, h) refl)
]

run_of-skip :
    (now span : ℕ) (before ring : List TimedFrame)
    → All (λ x. is_keyframe x ≡ false) before
    → run_of now span (before ++ ring) ≡ run_of now span ring
unfolding run_of from_newest from_oldest is_early
run_of-skip now span [] ring h = refl
run_of-skip now span (x ∷ before) ring (plain, h) =
    ground (arith, plain, run_of-skip now span before ring h)

-- A suffix that covers answers as the whole does.
run_some :
    (now span : ℕ) (ring run : List TimedFrame)
    → from_newest now span ring ≡ some run
    → run_of now span ring ≡ run
unfolding run_of
run_some now span ring run h = rw (h, run_of) refl

pub run_of-Covers :
    (now span : ℕ) (before ring : List TimedFrame)
    → Covers now span before ring
    → run_of now span (before ++ ring) ≡ run_of now span ring
run_of-Covers now span before ring (inl h) = run_of-skip now span before ring h
run_of-Covers now span before ring (inr (x, rest, e, early)) =
    let (run, found) = head_early now span x rest early in
    let here : from_newest now span ring ≡ some run = rw e found in
    let there = newest_of now span before ring run here in
    run_some now span (before ++ ring) run there ∙ sym (run_some now span ring run here)

pub later-Covers :
    (now span now' span' : ℕ) (before ring : List TimedFrame)
    → now + span' ≤ now' + span
    → Covers now span before ring
    → Covers now' span' before ring
later-Covers now span now' span' before ring h (inl a) = inl a
later-Covers now span now' span' before ring h (inr (x, rest, e, early)) =
    inr (x, rest, e, unfold is_early in ground (arith, h, early))

pub snoc-Covers :
    (now span : ℕ) (before ring : List TimedFrame) (item : TimedFrame)
    → Covers now span before ring
    → Covers now span before (ring ++ (item ∷ []))
snoc-Covers now span before ring item (inl a) = inl a
snoc-Covers now span before ring item (inr (x, rest, e, early)) =
    inr (x, rest ++ (item ∷ []), rw e refl, early)

-- A part of ordered frames is ordered.
pub IsOrdered-back : (front back : List TimedFrame) → IsOrdered (front ++ back) → IsOrdered back
unfolding IsOrdered
IsOrdered-back [] back o = o
IsOrdered-back (x ∷ front) back (_, o) = IsOrdered-back front back o

later_front :
    (t : ℕ) (front back : List TimedFrame)
    → All (λ y. t ≤ time_of y) (front ++ back)
    → All (λ y. t ≤ time_of y) front
later_front t [] back h = tt
later_front t (x ∷ front) back (low, h) = (low, later_front t front back h)

pub IsOrdered-front : (front back : List TimedFrame) → IsOrdered (front ++ back) → IsOrdered front
unfolding IsOrdered
IsOrdered-front [] back o = tt
IsOrdered-front (x ∷ front) back (low, o) =
    (later_front (time_of x) front back low, IsOrdered-front front back o)

-- A run is a suffix that covers.
pub record IsSuffix (now span : ℕ) (ring run : List TimedFrame) : Type 0 where
  pub before : List TimedFrame
  pub whole : ring ≡ before ++ run
  pub covers : Covers now span before run

newest_before :
    (now span : ℕ) (ring run : List TimedFrame)
    → from_newest now span ring ≡ some run
    → (before : List TimedFrame) × (ring ≡ before ++ run)
unfolding from_newest
newest_before now span [] run h = absurd (ground (arith, h))
newest_before now span (x ∷ ring) run h = elim (Option-cases (from_newest now span ring)) [
  | inr (r, e) ↦
      let (before, whole) = newest_before now span ring run (ground (arith, e, h)) in
      (x ∷ before, ap (◌∷◌ x) whole)
  | inl e ↦ ([], ground (arith, e, h))
]

newest_head :
    (now span : ℕ) (ring run : List TimedFrame)
    → from_newest now span ring ≡ some run
    → (x : TimedFrame) × (rest : List TimedFrame) × (run ≡ x ∷ rest) × (is_early now span x ≡ true)
unfolding from_newest
newest_head now span [] run h = absurd (ground (arith, h))
newest_head now span (x ∷ ring) run h = elim (Option-cases (from_newest now span ring)) [
  | inr (r, e) ↦ newest_head now span ring run (ground (arith, e, h))
  | inl e ↦ (x, ring, ground (arith, e, h), ground (arith, e, h))
]

oldest_before :
    (ring : List TimedFrame)
    → (before : List TimedFrame) × (ring ≡ before ++ from_oldest ring)
      × All (λ x. is_keyframe x ≡ false) before
unfolding from_oldest
oldest_before [] = ([], refl, tt)
oldest_before (x ∷ ring) = elim (Bool-cases (is_keyframe x)) [
  | inl k ↦ rw k ([], refl, tt)
  | inr k ↦
      let (before, whole, plain) = oldest_before ring in
      rw k (x ∷ before, ap (◌∷◌ x) whole, (k, plain))
]

-- What is retained of the ring and one frame more.
pub retained-IsSuffix :
    (pre_buffer_ms : ℕ) (item : TimedFrame) (ring : List TimedFrame)
    → leb pre_buffer_ms 0 ≡ false
    → IsOrdered (ring ++ (item ∷ []))
    → IsSuffix (time_of item) pre_buffer_ms (ring ++ (item ∷ [])) (retained pre_buffer_ms item ring)
unfolding retained window_start
retained-IsSuffix pre item ring on o =
    let all = ring ++ (item ∷ []) in
    let now = time_of item in
    elim (Option-cases (from_newest now pre all)) [
      | inr (run, e) ↦
          let at = loop_newest now pre 0 none all all run o refl e in
          let (before, whole) = newest_before now pre all run e in
          rw (on, at.is_index, at.begins)
            (record {
              before = before;
              whole = whole;
              covers = inr (newest_head now pre all run e);
            })
      | inl e ↦ elim (loop_oldest now pre 0 all all refl e) [
        | inl (no_index, _) ↦
            rw (on, no_index) (record { before = []; whole = refl; covers = inl tt })
        | inr at ↦
            let (before, whole, plain) = oldest_before all in
            rw (on, at.is_index, at.begins)
              (record { before = before; whole = whole; covers = inl plain })
      ]
    ]

pub trim-Covers :
    (now span : ℕ) (before ring mid kept : List TimedFrame)
    → Covers now span before ring
    → ring ≡ mid ++ kept
    → Covers now span mid kept
    → Covers now span (before ++ mid) kept
trim-Covers now span before ring mid kept c e (inr early) = inr early
trim-Covers now span before ring mid kept (inl plain) e (inl more) =
    inl (All-append (λ x. is_keyframe x ≡ false) before mid plain more)
trim-Covers now span before ring [] kept (inr (x, rest, h, early)) e (inl more) =
    inr (x, rest, sym e ∙ h, early)
trim-Covers now span before ring (z ∷ mid) kept (inr (x, rest, h, early)) e (inl (plain, more)) =
    absurd (unfold is_early in ground (arith, h, e, plain, early))
