-- ===== src/Recording/Run.antt =====
-- Every history of a recording of src/transport/p2p/fragment-recording.ts: the source's answer, frames,
-- failures, budget notices, stops and the owner's iteration, in any order.
use eufy_sdk.Prelude.{
  ℕ, ◌≡◌, refl, sym, ap, ◌∙◌, Bool, true, false, not, List, [], ◌∷◌, ◌++◌, append_assoc, Option,
  none, some, inl, inr, arith,
}
use eufy_sdk.LiveConsumer.{TimedFrame, choose}
use eufy_sdk.Recording.{
  Muxer, Recording, Answer, Pulled, yields, throws, returns, waits, new_recording, fail, take,
  iterate, on_budget, ingest, stop, on_source, on_empty, from_queue, pull, leave,
}
use eufy_sdk.Recording.Muxing.{Action, frame, stops, fails, made_of, muxer_after}
use eufy_sdk.Recording.Effects.{live, Same, same, release-Same, Sound, ingest-Does}
use eufy_sdk.Recording.Faithful.{
  Faithful, answered, unaffected-Faithful, stop-Faithful, fail-Faithful, on_source-Faithful,
  does-Faithful,
}

-- The fragment that a pull hands over.
unfoldable pub handed_by : {F : Type 0} → Pulled F → List F
handed_by (yields fragment) = fragment ∷ []
handed_by (throws error) = []
handed_by returns = []
handed_by waits = []

-- A recording with what has happened to it and the fragments its owner has.
module _ {M F : Type 0} (muxer : Muxer M F) (m : M) where
  pub data Run : List Action → List F → Recording M F → Type 0 where
    fresh : Run [] [] (new_recording m)
    sourced :
        {acts : List Action} {handed : List F} {r : Recording M F} (answer : Answer)
        → Run acts handed r
        → Run (acts ++ answered muxer m answer) handed (on_source muxer answer r)
    ingested :
        {acts : List Action} {handed : List F} {r : Recording M F} (item : TimedFrame)
        → Run acts handed r
        → Run (acts ++ (frame item ∷ [])) handed (ingest muxer item r)
    failed :
        {acts : List Action} {handed : List F} {r : Recording M F} (error : ℕ)
        → Run acts handed r
        → Run (acts ++ (fails ∷ [])) handed (fail error r)
    stopped :
        {acts : List Action} {handed : List F} {r : Recording M F}
        → Run acts handed r
        → Run (acts ++ (stops ∷ [])) handed (stop muxer r)
    left :
        {acts : List Action} {handed : List F} {r : Recording M F}
        → Run acts handed r
        → Run (acts ++ (stops ∷ [])) handed (leave muxer r)
    noticed :
        {acts : List Action} {handed : List F} {r : Recording M F} (notice : ℕ)
        → Run acts handed r
        → Run acts handed (on_budget notice r)
    iterates :
        {acts : List Action} {handed : List F} {r : Recording M F}
        → Run acts handed r
        → Run acts handed (iterate r).1
    pulled :
        {acts : List Action} {handed : List F} {r : Recording M F}
        → Run acts handed r
        → Run acts (handed ++ handed_by (pull muxer r).0) (pull muxer r).1

module _ {M F : Type 0} where
  -- A pull moves a fragment to the owner and changes nothing else that matters to the muxer.
  record Hands (r : Recording M F) (p : Pulled F × Recording M F) : Type 0 where
    queued : handed_by p.0 ++ p.1.queue ≡ r.queue
    muxed : p.1.mux ≡ r.mux
    at_end : p.1.ended ≡ r.ended
    failing : p.1.failure ≡ r.failure

  nothing_handed :
      (r after : Recording M F) (answer : Pulled F)
      → handed_by answer ≡ []
      → Same r after
      → Hands r (answer, after)
  nothing_handed r after answer h s = record {
    queued = rw h s.queued;
    muxed = s.muxed;
    at_end = s.at_end;
    failing = s.failing;
  }

  stop-Same :
      (muxer : Muxer M F) (r : Recording M F)
      → r.ended ≡ true
      → Same r (stop muxer (record r { finished = true }))
  unfolding stop
  stop-Same muxer r e =
      choose (Same r) r.ended (record r { finished = true }) _
        (λ _. record { queued = refl; muxed = refl; at_end = refl; failing = refl })
        (λ off. absurd (ground (arith, e, off)))

  on_empty-Hands :
      (muxer : Muxer M F) (failure : Option ℕ) (r : Recording M F)
      → r.failure ≡ failure
      → Sound r
      → r.queue ≡ []
      → Hands r (on_empty muxer failure r)
  unfolding on_empty Sound handed_by
  on_empty-Hands muxer (some error) r e (inl none_there) q = absurd (cc (e, none_there))
  on_empty-Hands muxer (some error) r e (inr over) q =
      nothing_handed r _ (throws error) refl (stop-Same muxer r over)
  on_empty-Hands muxer none r e s q =
      choose (Hands r) r.ended (returns, stop muxer (record r { finished = true })) _
        (λ over. nothing_handed r _ returns refl (stop-Same muxer r over))
        (λ _.
          nothing_handed r (record r { waiting = true }) waits refl
            (record { queued = refl; muxed = refl; at_end = refl; failing = refl }))

  from_queue-Hands :
      (muxer : Muxer M F) (queue : List F) (r : Recording M F)
      → r.queue ≡ queue
      → Sound r
      → Hands r (from_queue muxer queue r)
  unfolding from_queue handed_by take
  from_queue-Hands muxer [] r e s = on_empty-Hands muxer r.failure r refl s e
  from_queue-Hands muxer (fragment ∷ rest) r e s =
      let t = release-Same (record r { queue = rest }) in
      record {
        queued = ap (λ xs. fragment ∷ xs) t.queued ∙ sym e;
        muxed = t.muxed;
        at_end = t.at_end;
        failing = t.failing;
      }

  pull-Hands : (muxer : Muxer M F) (r : Recording M F) → Sound r → Hands r (pull muxer r)
  unfolding pull handed_by
  pull-Hands muxer r s =
      choose (Hands r) r.finished (returns, r) _ (λ _. nothing_handed r r returns refl (same r))
        (λ _.
          choose (Hands r) (not r.ready) (waits, r) _ (λ _. nothing_handed r r waits refl (same r))
            (λ _. from_queue-Hands muxer r.queue r refl s))

module _ {M F : Type 0} (muxer : Muxer M F) (m : M) where
  pull-Faithful :
      (acts : List Action) (handed : List F) (r : Recording M F)
      → Faithful muxer m acts handed r
      → Faithful muxer m acts (handed ++ handed_by (pull muxer r).0) (pull muxer r).1
  unfolding live Sound
  pull-Faithful acts handed r f =
      let h = pull-Hands muxer r f.sound in
      record {
        fragments =
            append_assoc handed (handed_by (pull muxer r).0) (pull muxer r).1.queue
            ∙ ap (λ xs. handed ++ xs) h.queued
            ∙ f.fragments;
        lives = rw (h.at_end, h.muxed) f.lives;
        sound = rw (h.failing, h.at_end) f.sound;
      }

  unchanged :
      (acts : List Action) (handed : List F) (r after : Recording M F)
      → Faithful muxer m acts handed r
      → after.queue ≡ r.queue
      → after.mux ≡ r.mux
      → after.ended ≡ r.ended
      → after.failure ≡ r.failure
      → Faithful muxer m acts handed after
  unchanged acts handed r after f q x e g =
      unaffected-Faithful muxer m acts handed r after
        (record { queued = q; muxed = x; at_end = e; failing = g }) f

  faithful :
      {acts : List Action} {handed : List F} {r : Recording M F}
      → Run muxer m acts handed r
      → Faithful muxer m acts handed r
  unfolding new_recording on_budget iterate leave
  faithful fresh = record {
    fragments = unfold made_of in refl;
    lives = unfold live muxer_after in refl;
    sound = unfold Sound in inl refl;
  }
  faithful (sourced {acts} {handed} {r} answer h) =
      on_source-Faithful muxer m answer acts handed r (faithful h)
  faithful (ingested {acts} {handed} {r} item h) =
      let f = faithful h in
      does-Faithful muxer m (frame item) acts handed r _ f (ingest-Does muxer item r f.sound)
  faithful (failed {acts} {handed} {r} error h) =
      fail-Faithful muxer m error acts handed r (faithful h)
  faithful (stopped {acts} {handed} {r} h) = stop-Faithful muxer m acts handed r (faithful h)
  faithful (left {acts} {handed} {r} h) =
      stop-Faithful muxer m acts handed (record r { finished = true })
        (unchanged acts handed r (record r { finished = true }) (faithful h) refl refl refl refl)
  faithful (noticed {acts} {handed} {r} notice h) =
      unchanged acts handed r (on_budget notice r) (faithful h) refl refl refl refl
  faithful (iterates {acts} {handed} {r} h) =
      choose {A = Bool × Recording M F} (λ p. Faithful muxer m acts handed p.1) r.iterated
        (false, r) _ (λ _. faithful h)
        (λ _.
          unchanged acts handed r (record r { iterated = true }) (faithful h) refl refl refl refl)
  faithful (pulled {acts} {handed} {r} h) = pull-Faithful acts handed r (faithful h)

-- The fragments that the owner of a recording has, and behind them those that wait in its queue, are
-- exactly what the muxer alone makes of the frames that came up to the first failure, frame that the
-- muxer throws at, or stop at which it does not throw, with the tail that it flushes at that stop.
pub Run-made_of :
    {M F : Type 0} (muxer : Muxer M F) (m : M) {acts : List Action} {handed : List F}
    {r : Recording M F}
    → Run muxer m acts handed r
    → handed ++ r.queue ≡ made_of muxer acts (some m)
Run-made_of muxer m h = (faithful muxer m h).fragments
