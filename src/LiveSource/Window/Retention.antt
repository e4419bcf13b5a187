-- ===== src/LiveSource/Window/Retention.antt =====
-- What `pushRing` of src/transport/p2p/shared-live-source.ts retains.
use eufy_sdk.Prelude.{
  ℕ, ◌≤◌, ◌≡◌, sym, ◌∙◌, ap, subst, false, List, [], ◌∷◌, ◌++◌, All, leb, arith, inl, append_assoc,
  append-nil,
}
use eufy_sdk.LiveConsumer.{TimedFrame}
use eufy_sdk.LiveSource.{time_of, drained, retained}
use eufy_sdk.LiveSource.Window.{IsOrdered, run_of, drained-run_of}
use eufy_sdk.LiveSource.Window.Covers.{
  Covers, run_of-Covers, later-Covers, snoc-Covers, IsOrdered-back, IsOrdered-front, trim-Covers,
  retained-IsSuffix, IsSuffix,
}

-- The ring after frames were pushed to it.
pub pushed : ℕ → List TimedFrame → List TimedFrame → List TimedFrame
pushed pre_buffer_ms ring [] = ring
pushed pre_buffer_ms ring (item ∷ items) =
    pushed pre_buffer_ms (retained pre_buffer_ms item ring) items

-- A frame more, in three ways of grouping.
regroup :
    (before ring mid kept items : List TimedFrame) (item : TimedFrame)
    → ring ++ (item ∷ []) ≡ mid ++ kept
    → (before ++ ring) ++ (item ∷ items) ≡ ((before ++ mid) ++ kept) ++ items
regroup before ring mid kept items item e =
    append_assoc before ring (item ∷ items)
    ∙ ap (λ z. before ++ z) (sym (append_assoc ring (item ∷ []) items) ∙ ap (λ z. z ++ items) e)
    ∙ sym (append_assoc before (mid ++ kept) items)
    ∙ ap (λ z. z ++ items) (sym (append_assoc before mid kept))

pushed-IsSuffix :
    (pre_buffer_ms now last : ℕ) (before ring items : List TimedFrame)
    → leb pre_buffer_ms 0 ≡ false
    → Covers now pre_buffer_ms before ring
    → now ≤ last
    → All (λ y. now ≤ time_of y) items
    → All (λ y. time_of y ≤ last) items
    → IsOrdered ((before ++ ring) ++ items)
    → IsSuffix last pre_buffer_ms ((before ++ ring) ++ items) (pushed pre_buffer_ms ring items)
unfolding pushed IsOrdered
pushed-IsSuffix pre now last before ring [] on c low later early o = record {
  before = before;
  whole = append-nil (before ++ ring);
  covers = later-Covers now pre last pre before ring (omega (arith, low)) c;
}
pushed-IsSuffix pre now last before ring (item ∷ items) on c low (here, later) (fit, early) o =
    let t = time_of item in
    let o1 : IsOrdered (ring ++ (item ∷ [])) = IsOrdered-front (ring ++ (item ∷ [])) items (
      IsOrdered-back before ((ring ++ (item ∷ [])) ++ items) (
        subst IsOrdered
          (append_assoc before ring (item ∷ items)
            ∙ ap (λ z. before ++ z) (sym (append_assoc ring (item ∷ []) items)))
          o)) in
    let s = retained-IsSuffix pre item ring on o1 in
    let kept = retained pre item ring in
    let c1 =
      snoc-Covers t pre before ring item
        (later-Covers now pre t pre before ring (omega (arith, here)) c) in
    let c2 = trim-Covers t pre before (ring ++ (item ∷ [])) s.before kept c1 s.whole s.covers in
    let e = regroup before ring s.before kept items item s.whole in
    let rest =
      pushed-IsSuffix pre t last (before ++ s.before) kept items on c2 fit
        (IsOrdered-back (before ++ ring) (item ∷ items) o).0 early (subst IsOrdered e o) in
    record { before = rest.before; whole = e ∙ rest.whole; covers = rest.covers }

All-from_zero : (items : List TimedFrame) → All (λ y. 0 ≤ time_of y) items
All-from_zero [] = tt
All-from_zero (x ∷ items) = (omega arith, All-from_zero items)

-- The retained ring answers as all that ever arrived would: when frames were pushed in the order of their
-- arrival, the last of them at `now` or earlier, a drain of at most the configured window hands over
-- exactly what a drain of the whole history would.
pub drained-pushed :
    (pre_buffer_ms now span : ℕ) (history : List TimedFrame)
    → leb pre_buffer_ms 0 ≡ false
    → IsOrdered history
    → All (λ y. time_of y ≤ now) history
    → span ≤ pre_buffer_ms
    → drained now span (pushed pre_buffer_ms [] history) ≡ drained now span history
drained-pushed pre now span history on o early fits =
    let s =
      pushed-IsSuffix pre 0 now [] [] history on (inl tt) (omega arith) (All-from_zero history)
        early o in
    let ring = pushed pre [] history in
    let c = later-Covers now pre now span s.before ring (omega (arith, fits)) s.covers in
    let ring_ordered = IsOrdered-back s.before ring (subst IsOrdered s.whole o) in
    drained-run_of now span ring ring_ordered
    ∙ sym (run_of-Covers now span s.before ring c)
    ∙ ap (run_of now span) (sym s.whole)
    ∙ sym (drained-run_of now span history o)
