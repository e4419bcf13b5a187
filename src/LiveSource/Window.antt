-- ===== src/LiveSource/Window.antt =====
-- `windowStart` and the ring of src/transport/p2p/shared-live-source.ts.
pub mod Covers
pub mod Retention
use eufy_sdk.Prelude.{
  ℕ, zero, suc, ◌+◌, ◌-◌, ◌<◌, ◌≤◌, ◌≡◌, refl, sym, ◌∙◌, ap, subst, Bool, true, false, not, ◌&&◌,
  List, [], ◌∷◌, ◌++◌, Option, none, some, All, length, drop, ltb, leb, if◌then◌else◌, arith, ◌⊎◌,
  Bool-cases, Option-cases, inl, inr, drop-drop, drop_all,
}
use eufy_sdk.LiveConsumer.{choose, TimedFrame, is_keyframe}
use eufy_sdk.LiveSource.{
  time_of, window_loop, window_start, is_some, or_zero, starts_decodable, retained, drained,
}

-- The frames are in the order of their arrival.
unfoldable pub IsOrdered : List TimedFrame → Type 0
IsOrdered [] = Unit {0}
IsOrdered (x ∷ rest) = All (λ y. time_of x ≤ time_of y) rest × IsOrdered rest

-- From the oldest keyframe on.
unfoldable pub from_oldest : List TimedFrame → List TimedFrame
from_oldest [] = []
from_oldest (x ∷ ring) = let rest = from_oldest ring in if is_keyframe x then x ∷ ring else rest

-- A keyframe that arrived at or before `now - span`.
unfoldable pub is_early : ℕ → ℕ → TimedFrame → Bool
is_early now span x = is_keyframe x && leb (time_of x + span) now

-- From the newest such keyframe on.
unfoldable pub from_newest : ℕ → ℕ → List TimedFrame → Option (List TimedFrame)
from_newest now span [] = none
from_newest now span (x ∷ ring) = elim (from_newest now span ring) [
  | some run ↦ some run
  | none ↦ if is_early now span x then some (x ∷ ring) else none
]

-- The decodable run that covers the window: from the newest keyframe at or before its start on, or, where
-- there is none, from the oldest keyframe on.
unfoldable pub run_of : ℕ → ℕ → List TimedFrame → List TimedFrame
run_of now span ring = elim (from_newest now span ring) [ none ↦ from_oldest ring | some run ↦ run ]

-- What the search has found: the index at which `run` begins in `all`.
pub record IsAt (all run : List TimedFrame) (found : Option ℕ) : Type 0 where
  pub index : ℕ
  pub is_index : found ≡ some index
  pub begins : drop index all ≡ run

pub newest-late :
    (now span t : ℕ) (ring run : List TimedFrame)
    → All (λ y. t ≤ time_of y) ring
    → from_newest now span ring ≡ some run
    → t + span ≤ now
unfolding from_newest is_early
newest-late now span t [] run later h = absurd (ground (arith, h))
newest-late now span t (x ∷ ring) run (first, later) h =
    elim (Option-cases (from_newest now span ring)) [
      | inr (r, e) ↦ newest-late now span t ring r later e
      | inl e ↦ ground (arith, e, h, first)
    ]

-- No keyframe is early any more: the search keeps what it has.
loop_keeps :
    (now span i k : ℕ) (ring : List TimedFrame)
    → from_newest now span ring ≡ none
    → window_loop now span i (some k) ring ≡ some k
unfolding window_loop from_newest is_early
loop_keeps now span i k [] h = refl
loop_keeps now span i k (x ∷ ring) h = elim (Option-cases (from_newest now span ring)) [
  | inr (r, e) ↦ absurd (ground (arith, e, h))
  | inl e ↦
      ground
        (arith, e, h, loop_keeps now span (i + 1) k ring e, loop_keeps now span (i + 1) i ring e)
]

next_drop :
    (i : ℕ) (all ring : List TimedFrame) (x : TimedFrame)
    → drop i all ≡ x ∷ ring
    → drop (i + 1) all ≡ ring
next_drop i all ring x h = sym (drop-drop i 1 all) ∙ ap (drop 1) h

pub loop_newest :
    (now span i : ℕ) (start : Option ℕ) (all ring run : List TimedFrame)
    → IsOrdered ring
    → drop i all ≡ ring
    → from_newest now span ring ≡ some run
    → IsAt all run (window_loop now span i start ring)
unfolding window_loop from_newest is_early IsOrdered
loop_newest now span i start all [] run o at h = absurd (ground (arith, h))
loop_newest now span i start all (x ∷ ring) run (later, o) at h =
    elim (Option-cases (from_newest now span ring)) [
      | inr (r, e) ↦
          let same : r ≡ run = ground (arith, e, h) in
          let low = newest-late now span (time_of x) ring r later e in
          let early : ltb now (time_of x + span) ≡ false = ground (arith, low) in
          let next_i = next_drop i all ring x at in
          let e' : from_newest now span ring ≡ some run = e ∙ ap some same in
          choose (IsAt all run) (is_keyframe x) _ _
            (λ k. rw early (loop_newest now span (i + 1) (some i) all ring run o next_i e'))
            (λ k. loop_newest now span (i + 1) start all ring run o next_i e')
      | inl e ↦
          let kept = loop_keeps now span (i + 1) i ring e in
          let key : is_keyframe x ≡ true = ground (arith, e, h) in
          let early : ltb now (time_of x + span) ≡ false = ground (arith, e, h) in
          let same : x ∷ ring ≡ run = ground (arith, e, h) in
          rw (key, early) (record { index = i; is_index = kept; begins = at ∙ same })
    ]

pub loop_oldest :
    (now span i : ℕ) (all ring : List TimedFrame)
    → drop i all ≡ ring
    → from_newest now span ring ≡ none
    → ((window_loop now span i none ring ≡ none) × (from_oldest ring ≡ []))
      ⊎ IsAt all (from_oldest ring) (window_loop now span i none ring)
unfolding window_loop from_newest from_oldest
loop_oldest now span i all [] at h = inl (refl, refl)
loop_oldest now span i all (x ∷ ring) at h = elim (Option-cases (from_newest now span ring)) [
  | inr (r, e) ↦ absurd (ground (arith, e, h))
  | inl e ↦ elim (Bool-cases (is_keyframe x)) [
    | inl k ↦ rw k (
        inr (record {
          index = i;
          is_index = ground (arith, loop_keeps now span (i + 1) i ring e);
          begins = at;
        }))
    | inr k ↦ rw k (loop_oldest now span (i + 1) all ring (next_drop i all ring x at) e)
  ]
]

newest_decodable :
    (now span : ℕ) (ring run : List TimedFrame)
    → from_newest now span ring ≡ some run
    → starts_decodable run ≡ true
unfolding from_newest is_early
newest_decodable now span [] run h = absurd (ground (arith, h))
newest_decodable now span (x ∷ ring) run h = elim (Option-cases (from_newest now span ring)) [
  | inr (r, e) ↦ newest_decodable now span ring run (ground (arith, e, h))
  | inl e ↦
      let same : x ∷ ring ≡ run = ground (arith, e, h) in
      subst (λ r. starts_decodable r ≡ true) same (ground (arith, e, h))
]

-- The run from the oldest keyframe on is empty or starts at it.
oldest_decodable :
    (ring : List TimedFrame)
    → (if starts_decodable (from_oldest ring) then from_oldest ring else []) ≡ from_oldest ring
unfolding from_oldest
oldest_decodable [] = refl
oldest_decodable (x ∷ ring) = elim (Bool-cases (is_keyframe x)) [
  | inl k ↦ rw k (rw k refl)
  | inr k ↦ rw k (oldest_decodable ring)
]

pub oldest_none : (ring : List TimedFrame) → from_oldest ring ≡ [] → starts_decodable ring ≡ false
unfolding from_oldest
oldest_none [] h = refl
oldest_none (x ∷ ring) h = ground (arith, h)

-- A drain of frames in the order of arrival hands over the run from the newest keyframe at or before
-- the start of the window on; where there is none, the run from the oldest keyframe on; and nothing
-- where there is no keyframe.
pub drained-run_of :
    (now span : ℕ) (ring : List TimedFrame)
    → IsOrdered ring
    → drained now span ring ≡ run_of now span ring
unfolding drained window_start run_of
drained-run_of now span ring o = elim (Option-cases (from_newest now span ring)) [
  | inr (run, e) ↦
      let at = loop_newest now span 0 none ring ring run o refl e in
      let spec : run_of now span ring ≡ run = rw (e, run_of) refl in
      let found : drained now span ring ≡ run =
        rw (at.is_index, at.begins, newest_decodable now span ring run e) refl in
      found ∙ sym spec
  | inl e ↦
      let spec : run_of now span ring ≡ from_oldest ring = rw (e, run_of) refl in
      elim (loop_oldest now span 0 ring ring refl e) [
        | inl (no_index, none_there) ↦
            let nothing : (if starts_decodable ring then ring else []) ≡ [] =
              rw (oldest_none ring none_there) refl in
            let found : drained now span ring ≡ [] = rw no_index nothing in
            found ∙ sym none_there ∙ sym spec
        | inr at ↦
            let found : drained now span ring ≡ from_oldest ring =
              rw (at.is_index, at.begins) (oldest_decodable ring) in
            found ∙ sym spec
      ]
]
