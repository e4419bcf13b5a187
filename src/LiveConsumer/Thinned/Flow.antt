-- ===== src/LiveConsumer/Thinned/Flow.antt =====
-- The delivery of src/transport/p2p/shared-live-source.ts keeps what a consumer is handed thinned.
use eufy_sdk.Prelude.{
  ℕ, ◌≡◌, refl, sym, ◌∙◌, subst, true, false, List, [], ◌∷◌, ◌++◌, length, ltb, not, ◌&&◌, ◌==◌,
  if◌then◌else◌, arith, Bool-cases, inl, inr, append_assoc, append-nil,
}
use eufy_sdk.LiveConsumer.{
  VideoItem, TimedFrame, video, audio, Event, media, Reaction, carries_on, pauses, detaches,
  Consumer, detach, pause, react, emit, is_keyframe, flush, drop_backlog_past_bound,
  retain_undelivered, drain, resume, accept, deliver_video, deliver_audio,
}
use eufy_sdk.LiveConsumer.Thinned.{
  media_of, over, phase_of, IsThinned, kept, restarted, skipped, left, ignored, Good,
  emit-IsEmitted, react-Good, detach_again, detach_first, phase-over, phase-waiting, phase-flowing,
  lose, either, in_phase, of_phase,
}

module _ (sink : Consumer → Event → Reaction) (max_queue : ℕ) where
  flush-Good :
      (sent : List TimedFrame) (item : TimedFrame) (c : Consumer)
      → IsThinned (phase_of c) sent (media_of c.heard ++ (item ∷ c.queue))
      → Good sent (flush sink max_queue item c)
  unfolding flush phase_of media_of
  flush-Good sent item c g =
      let e = emit-IsEmitted item c in
      let start : Good sent (emit item c) =
        unfold Good in
        rw (e.given, e.queue, e.phase, append_assoc (media_of c.heard) (item ∷ []) c.queue) g in
      react-Good sent (sink (emit item c) (media item)) (emit item c) start

  drop_backlog-Good :
      (sent : List TimedFrame) (c : Consumer)
      → Good sent c
      → Good sent (drop_backlog_past_bound sink max_queue c)
  unfolding drop_backlog_past_bound
  drop_backlog-Good sent c g =
      either sent (ltb max_queue (length c.queue)) _ c (λ _. lose sent c.queue c (unfold Good in g))
        (λ _. g)

  react_kept :
      (sent got : List TimedFrame) (r : Reaction) (c : Consumer)
      → IsThinned (phase_of c) sent got
      → IsThinned (phase_of (react r c)) sent got
  unfolding react
  react_kept sent got carries_on c g = g
  react_kept sent got pauses c g = unfold pause phase_of in g
  react_kept sent got detaches c g = elim (Bool-cases c.detached) [
    | inl e ↦ subst (λ x. IsThinned (phase_of x) sent got) (sym (detach_again c e)) g
    | inr e ↦
        subst (λ x. IsThinned (phase_of x) sent got) (sym (detach_first c e))
          (unfold phase_of in left [] (subst (IsThinned _ sent) (sym (append-nil got)) g))
  ]

  react_heard : (r : Reaction) (c : Consumer) → (react r c).heard ≡ c.heard
  unfolding react pause detach
  react_heard carries_on c = refl
  react_heard pauses c = refl
  react_heard detaches c = ground arith

  flush-handed :
      (sent : List TimedFrame) (item : TimedFrame) (rest : List TimedFrame) (c : Consumer)
      → IsThinned (phase_of c) sent (media_of c.heard ++ (item ∷ rest))
      → IsThinned
          (phase_of (flush sink max_queue item c))
          sent
          (media_of (flush sink max_queue item c).heard ++ rest)
  unfolding flush
  flush-handed sent item rest c g =
      let e = emit-IsEmitted item c in
      let c' = emit item c in
      let r = sink c' (media item) in
      let same : media_of c.heard ++ (item ∷ rest) ≡ media_of (react r c').heard ++ rest =
        rw (react_heard r c', e.given) (sym (append_assoc (media_of c.heard) (item ∷ []) rest)) in
      react_kept sent _ r c' (
        rw⁻¹ same
          (subst (λ p. IsThinned p sent (media_of c.heard ++ (item ∷ rest))) (sym e.phase) g))

  react-queue : (r : Reaction) (c : Consumer) → c.queue ≡ [] → (react r c).queue ≡ []
  unfolding react detach pause
  react-queue carries_on c h = h
  react-queue pauses c h = h
  react-queue detaches c h = ground (arith, h)

  flush-queue :
      (item : TimedFrame) (c : Consumer) → c.queue ≡ [] → (flush sink max_queue item c).queue ≡ []
  unfolding flush
  flush-queue item c h =
      react-queue (sink (emit item c) (media item)) (emit item c)
        ((emit-IsEmitted item c).queue ∙ h)

  retain-Good :
      (sent rest : List TimedFrame) (c : Consumer)
      → c.queue ≡ []
      → IsThinned (phase_of c) sent (media_of c.heard ++ rest)
      → Good sent (retain_undelivered sink max_queue rest c)
  unfolding retain_undelivered
  retain-Good sent rest c h g =
      drop_backlog-Good sent
        (record c { queue = if ltb 0 (length c.queue) then rest ++ c.queue else rest })
        (unfold Good phase_of in rw h g)

  drain-Good :
      (sent rest : List TimedFrame) (c : Consumer)
      → c.queue ≡ []
      → IsThinned (phase_of c) sent (media_of c.heard ++ rest)
      → Good sent (drain sink max_queue rest c)
  unfolding drain
  drain-Good sent [] c h g =
      unfold Good in subst (λ q. IsThinned (phase_of c) sent (media_of c.heard ++ q)) (sym h) g
  drain-Good sent (item ∷ rest) c h g =
      either sent c.detached c _ (λ e. unfold Good in gone e)
        (λ e.
          either sent c.paused _ _ (λ _. retain-Good sent (item ∷ rest) c h g)
            (λ _.
              drain-Good sent rest (flush sink max_queue item c) (flush-queue item c h)
                (flush-handed sent item rest c g)))
    where
      gone : c.detached ≡ true → IsThinned (phase_of c) sent (media_of c.heard ++ c.queue)
      gone e =
          subst (λ q. IsThinned (phase_of c) sent (media_of c.heard ++ q)) (sym h)
            (subst (λ p. IsThinned p sent (media_of c.heard ++ [])) (sym (phase-over c e))
              (subst (IsThinned over sent) (sym (append-nil (media_of c.heard)))
                (left (item ∷ rest) g)))

  pub resume-Good :
      (sent : List TimedFrame) (c : Consumer) → Good sent c → Good sent (resume sink max_queue c)
  unfolding resume
  resume-Good sent c g =
      either sent c.detached c _ (λ _. g)
        (λ _.
          drain-Good sent c.queue (record c { paused = false; queue = [] }) refl
            (unfold Good phase_of in g))

  empty : (q : List TimedFrame) → (length q == 0) ≡ true → q ≡ []
  empty [] h = refl
  empty (x ∷ q) h = absurd (ground (arith, h))

  accept-Good :
      (sent : List TimedFrame) (item : TimedFrame) (c : Consumer)
      → IsThinned (phase_of c) sent (media_of c.heard ++ (c.queue ++ (item ∷ [])))
      → Good sent (accept sink max_queue item c)
  unfolding accept
  accept-Good sent item c g =
      either sent (not c.paused && (length c.queue == 0)) _ _
        (λ e. flush-Good sent item c (
          let q : c.queue ≡ [] = empty c.queue (ground (arith, e)) in
          subst (λ x. IsThinned (phase_of c) sent (media_of c.heard ++ x)) (rw q refl) g))
        (λ e.
          drop_backlog-Good sent (record c { queue = c.queue ++ (item ∷ []) })
            (unfold Good phase_of in g))

  -- A frame behind all that was sent, which the consumer takes.
  taken :
      (sent : List TimedFrame) (item : TimedFrame) (c : Consumer)
      → IsThinned (phase_of c) (sent ++ (item ∷ [])) ((media_of c.heard ++ c.queue) ++ (item ∷ []))
      → Good (sent ++ (item ∷ [])) (accept sink max_queue item c)
  taken sent item c g =
      accept-Good (sent ++ (item ∷ [])) item c
        (rw⁻¹ (append_assoc (media_of c.heard) c.queue (item ∷ [])) g)

  pub deliver_video-Good :
      (sent : List TimedFrame) (v : VideoItem) (c : Consumer)
      → Good sent c
      → Good (sent ++ (video v ∷ [])) (deliver_video sink max_queue v c)
  unfolding deliver_video
  deliver_video-Good sent v c g =
      let all = sent ++ (video v ∷ []) in
      either all c.detached c _
        (λ e.
          of_phase all c (phase-over c e) (ignored (video v) (in_phase sent c (phase-over c e) g)))
        (λ e.
          either all c.awaiting_keyframe _ _
            (λ w.
              let wait = in_phase sent c (phase-waiting c e w) g in
              either all v.frame.keyframe _ c
                (λ k.
                  let ready = record c { awaiting_keyframe = false } in
                  taken sent (video v) ready (
                    rw (phase-flowing ready e refl)
                      (restarted (video v) (unfold is_keyframe in k) wait)))
                (λ k.
                  of_phase all c (phase-waiting c e w)
                    (skipped (video v) (unfold is_keyframe in k) wait)))
            (λ w. taken sent (video v) c (
              rw (phase-flowing c e w) (kept (video v) (in_phase sent c (phase-flowing c e w) g)))))

  pub deliver_audio-Good :
      (sent : List TimedFrame) (frame at : ℕ) (c : Consumer)
      → Good sent c
      → Good (sent ++ (audio frame at ∷ [])) (deliver_audio sink max_queue frame at c)
  unfolding deliver_audio
  deliver_audio-Good sent frame at c g =
      let item = audio frame at in
      let all = sent ++ (item ∷ []) in
      either all c.detached c _
        (λ e. of_phase all c (phase-over c e) (ignored item (in_phase sent c (phase-over c e) g)))
        (λ e.
          either all c.awaiting_keyframe c _
            (λ w.
              of_phase all c (phase-waiting c e w) (
                skipped item (unfold is_keyframe in refl)
                  (in_phase sent c (phase-waiting c e w) g)))
            (λ w.
              taken sent item c
                (rw (phase-flowing c e w) (kept item (in_phase sent c (phase-flowing c e w) g)))))
