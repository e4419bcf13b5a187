-- ===== src/Recording/Effects.antt =====
-- What each step of a recording of src/transport/p2p/fragment-recording.ts does, against its muxer alone.
use eufy_sdk.Prelude.{
  ℕ, ◌≡◌, ◌⊎◌, refl, sym, ap, ◌∙◌, true, false, not, ◌&&◌, ◌++◌, append-nil, Option, none, some,
  length, ltb, leb, if◌then◌else◌, inr,
}
use eufy_sdk.LiveConsumer.{TimedFrame, choose}
use eufy_sdk.Recording.{
  Muxed, made, threw, Muxer, max_pending_fragments, pauses, resumes, detaches, ConsumerCall,
  Recording, to_list, ask, nudge, fail, hold, with_muxed, release, ingest, with_tail, stop,
}
use eufy_sdk.Recording.Muxing.{Action, frame, stops, fails, after_push, after_flush, muxes}

module _ {M F : Type 0} where
  unfoldable pub live : Recording M F → Option M
  live r = if r.ended then none else some r.mux

  live-muxer : (r : Recording M F) → r.ended ≡ false → live r ≡ some r.mux
  unfolding live
  live-muxer r e = rw e refl

  -- The same fragments, muxer and end.
  pub record Same (r after : Recording M F) : Type 0 where
    pub queued : after.queue ≡ r.queue
    pub muxed : after.mux ≡ r.mux
    pub at_end : after.ended ≡ r.ended
    pub failing : after.failure ≡ r.failure

  pub same : (r : Recording M F) → Same r r
  same r = record { queued = refl; muxed = refl; at_end = refl; failing = refl }

  pub ask-Same : (call : ConsumerCall) (r : Recording M F) → Same r (ask call r)
  unfolding ask
  ask-Same call r =
      choose (Same r) r.attached _ r
        (λ _. record { queued = refl; muxed = refl; at_end = refl; failing = refl }) (λ _. same r)

  pub hold-Same : (r : Recording M F) → Same r (hold r)
  unfolding hold
  hold-Same r =
      choose (Same r) (not r.held && leb max_pending_fragments (length r.queue)) _ r
        (λ _.
          let s = ask-Same pauses (record r { held = true }) in
          record { queued = s.queued; muxed = s.muxed; at_end = s.at_end; failing = s.failing })
        (λ _. same r)

  pub release-Same : (r : Recording M F) → Same r (release r)
  unfolding release
  release-Same r =
      choose (Same r) (r.held && ltb (length r.queue) max_pending_fragments) _ r
        (λ _.
          let s = ask-Same resumes (record r { held = false }) in
          record { queued = s.queued; muxed = s.muxed; at_end = s.at_end; failing = s.failing })
        (λ _. same r)

  -- A recording that failed is over.
  unfoldable pub Sound : Recording M F → Type 0
  Sound r = (r.failure ≡ none) ⊎ (r.ended ≡ true)

  -- One action, against the muxer alone.
  pub record Does (muxer : Muxer M F) (a : Action) (r after : Recording M F) : Type 0 where
    pub queued : after.queue ≡ r.queue ++ (muxes muxer a (live r)).0
    pub lives : live after ≡ (muxes muxer a (live r)).1
    pub sound : Sound after

  -- An action on a recording that is over.
  pub over :
      (muxer : Muxer M F) (a : Action) (r : Recording M F)
      → Sound r
      → r.ended ≡ true
      → Does muxer a r r
  unfolding live muxes
  over muxer a r s e = record {
    queued = rw e (sym (append-nil r.queue));
    lives = rw e refl;
    sound = s;
  }

  pub fail-Does :
      (muxer : Muxer M F) (error : ℕ) (r : Recording M F)
      → Sound r
      → Does muxer fails r (fail error r)
  unfolding fail nudge live muxes Sound
  fail-Does muxer error r s =
      choose (Does muxer fails r) r.ended r _ (λ e. over muxer fails r s e)
        (λ e.
          let t = ask-Same detaches (record r { failure = some error; ended = true }) in
          record {
            queued = t.queued ∙ (rw e (sym (append-nil r.queue)));
            lives = rw (t.at_end, e) refl;
            sound = inr t.at_end;
          })

  with_muxed-after_push :
      (x : Muxed F × M) (r : Recording M F)
      → r.ended ≡ false
      → Sound r
      → ((with_muxed x r).queue ≡ r.queue ++ (after_push x).0)
        × (live (with_muxed x r) ≡ (after_push x).1)
        × Sound (with_muxed x r)
  unfolding with_muxed after_push nudge live Sound fail
  with_muxed-after_push (made fragment, m) r e s =
      let t = hold-Same (record r { mux = m; queue = r.queue ++ to_list fragment }) in
      (t.queued, rw (t.at_end, t.muxed, e) refl, rw (t.failing, t.at_end) s)
  with_muxed-after_push (threw error, m) r e s =
      let t = ask-Same detaches (record r { mux = m; failure = some error; ended = true }) in
      rw e (t.queued ∙ sym (append-nil r.queue), rw t.at_end refl, inr t.at_end)

  pub ingest-Does :
      (muxer : Muxer M F) (item : TimedFrame) (r : Recording M F)
      → Sound r
      → Does muxer (frame item) r (ingest muxer item r)
  unfolding ingest muxes
  ingest-Does muxer item r s =
      choose (Does muxer (frame item) r) r.ended r _ (λ e. over muxer (frame item) r s e)
        (λ e.
          let t = with_muxed-after_push (muxer.push item r.mux) r e s in
          let on = sym (live-muxer r e) in
          record {
            queued = t.0 ∙ ap (λ o. r.queue ++ (muxes muxer (frame item) o).0) on;
            lives = t.1 ∙ ap (λ o. (muxes muxer (frame item) o).1) on;
            sound = t.2;
          })

  with_tail-after_flush :
      (muxer : Muxer M F) (x : Muxed F × M) (r : Recording M F)
      → r.ended ≡ false
      → Sound r
      → ((with_tail muxer x r).queue ≡ r.queue ++ (after_flush x).0)
        × (live (with_tail muxer x r) ≡ (after_flush x).1)
        × Sound (with_tail muxer x r)
  unfolding with_tail after_flush nudge live Sound
  with_tail-after_flush muxer (made tail, m) r e s =
      let t =
        ask-Same detaches (record r { mux = m; queue = r.queue ++ to_list tail; ended = true }) in
      (t.queued, rw t.at_end refl, inr t.at_end)
  with_tail-after_flush muxer (threw error, m) r e s = (sym (append-nil r.queue), rw e refl, s)

  pub stop-Does :
      (muxer : Muxer M F) (r : Recording M F) → Sound r → Does muxer stops r (stop muxer r)
  unfolding stop muxes
  stop-Does muxer r s =
      choose (Does muxer stops r) r.ended r _ (λ e. over muxer stops r s e)
        (λ e.
          let t = with_tail-after_flush muxer (muxer.flush r.mux) r e s in
          let on = sym (live-muxer r e) in
          record {
            queued = t.0 ∙ ap (λ o. r.queue ++ (muxes muxer stops o).0) on;
            lives = t.1 ∙ ap (λ o. (muxes muxer stops o).1) on;
            sound = t.2;
          })
