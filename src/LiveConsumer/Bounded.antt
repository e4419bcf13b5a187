-- ===== src/LiveConsumer/Bounded.antt =====
-- The bound of a consumer's queue in src/transport/p2p/shared-live-source.ts.
use eufy_sdk.Prelude.{
  ℕ, ◌≤◌, ◌≡◌, refl, true, false, not, ◌&&◌, List, [], ◌∷◌, length, ◌==◌, arith, Option-cases, inl,
  inr,
}
use eufy_sdk.LiveConsumer.{
  choose, VideoItem, TimedFrame, video, audio, Event, media, failed, stopped, budget, Reaction,
  carries_on, pauses, detaches, Consumer, listen_video, schedule, detach, pause, react, hear,
  announce, emit, VideoConfig, flush, drop_backlog_past_bound, retain_undelivered, drain, resume,
  accept, deliver_video, deliver_audio, fail, end, notify_budget,
}

abbrev pub IsBounded : ℕ → Consumer → Type 0
IsBounded max_queue c = length c.queue ≤ max_queue

announce-queue : (config : VideoConfig) (c : Consumer) → (announce config c).queue ≡ c.queue
unfolding announce
announce-queue config c = ground arith

emit-queue : (item : TimedFrame) (c : Consumer) → (emit item c).queue ≡ c.queue
unfolding emit
emit-queue (video v) c = announce-queue v.config c
emit-queue (audio frame at) c = refl

module _ (sink : Consumer → Event → Reaction) (max_queue : ℕ) where
  react-IsBounded :
      (r : Reaction) (c : Consumer) → IsBounded max_queue c → IsBounded max_queue (react r c)
  unfolding react pause detach
  react-IsBounded carries_on c h = h
  react-IsBounded pauses c h = h
  react-IsBounded detaches c h = ground (arith, h)

  flush-IsBounded :
      (item : TimedFrame) (c : Consumer)
      → IsBounded max_queue c
      → IsBounded max_queue (flush sink max_queue item c)
  unfolding flush
  flush-IsBounded item c h =
      react-IsBounded (sink (emit item c) (media item)) (emit item c) (rw (emit-queue item c) h)

  drop_backlog-IsBounded :
      (c : Consumer) → IsBounded max_queue (drop_backlog_past_bound sink max_queue c)
  unfolding drop_backlog_past_bound
  drop_backlog-IsBounded c = ground arith

  drain-IsBounded :
      (rest : List TimedFrame) (c : Consumer)
      → IsBounded max_queue c
      → IsBounded max_queue (drain sink max_queue rest c)
  unfolding drain retain_undelivered
  drain-IsBounded [] c h = h
  drain-IsBounded (item ∷ rest) c h =
      choose (IsBounded max_queue) c.detached c _ (λ _. h)
        (λ _.
          choose (IsBounded max_queue) c.paused _ _ (λ _. drop_backlog-IsBounded _)
            (λ _. drain-IsBounded rest (flush sink max_queue item c) (flush-IsBounded item c h)))

  pub resume-IsBounded :
      (c : Consumer) → IsBounded max_queue c → IsBounded max_queue (resume sink max_queue c)
  unfolding resume
  resume-IsBounded c h =
      choose (IsBounded max_queue) c.detached c _ (λ _. h)
        (λ _. drain-IsBounded c.queue (record c { paused = false; queue = [] }) (omega arith))

  accept-IsBounded :
      (item : TimedFrame) (c : Consumer)
      → IsBounded max_queue c
      → IsBounded max_queue (accept sink max_queue item c)
  unfolding accept
  accept-IsBounded item c h =
      choose (IsBounded max_queue) (not c.paused && (length c.queue == 0)) _ _
        (λ _. flush-IsBounded item c h) (λ _. drop_backlog-IsBounded _)

  pub deliver_video-IsBounded :
      (v : VideoItem) (c : Consumer)
      → IsBounded max_queue c
      → IsBounded max_queue (deliver_video sink max_queue v c)
  unfolding deliver_video
  deliver_video-IsBounded v c h =
      choose (IsBounded max_queue) c.detached c _ (λ _. h)
        (λ _.
          choose (IsBounded max_queue) c.awaiting_keyframe _ _
            (λ _.
              choose (IsBounded max_queue) v.frame.keyframe _ c
                (λ _. accept-IsBounded (video v) (record c { awaiting_keyframe = false }) h)
                (λ _. h))
            (λ _. accept-IsBounded (video v) c h))

  pub deliver_audio-IsBounded :
      (frame at : ℕ) (c : Consumer)
      → IsBounded max_queue c
      → IsBounded max_queue (deliver_audio sink max_queue frame at c)
  unfolding deliver_audio
  deliver_audio-IsBounded frame at c h =
      choose (IsBounded max_queue) c.detached c _ (λ _. h)
        (λ _.
          choose (IsBounded max_queue) c.awaiting_keyframe c _ (λ _. h)
            (λ _. accept-IsBounded (audio frame at) c h))

  notify-IsBounded :
      (event : Event) (c : Consumer)
      → IsBounded max_queue c
      → IsBounded max_queue (react (sink (hear (event ∷ []) c) event) (hear (event ∷ []) c))
  notify-IsBounded event c h = react-IsBounded _ (hear (event ∷ []) c) h

  pub fail-IsBounded :
      (e : ℕ) (c : Consumer) → IsBounded max_queue c → IsBounded max_queue (fail sink max_queue e c)
  unfolding fail
  fail-IsBounded e c h =
      choose (IsBounded max_queue) c.detached c _ (λ _. h)
        (λ _.
          choose (IsBounded max_queue) c.hears_errors _ c (λ _. notify-IsBounded (failed e) c h)
            (λ _. h))

  pub end-IsBounded :
      (c : Consumer) → IsBounded max_queue c → IsBounded max_queue (end sink max_queue c)
  unfolding end
  end-IsBounded c h =
      choose (IsBounded max_queue) c.detached c _ (λ _. h) (λ _. notify-IsBounded stopped c h)

  pub notify_budget-IsBounded :
      (n : ℕ) (c : Consumer)
      → IsBounded max_queue c
      → IsBounded max_queue (notify_budget sink max_queue n c)
  unfolding notify_budget
  notify_budget-IsBounded n c h =
      choose (IsBounded max_queue) c.detached c _ (λ _. h) (λ _. notify-IsBounded (budget n) c h)

pub listen_video-queue : (c : Consumer) → (listen_video c).queue ≡ c.queue
unfolding listen_video
listen_video-queue c =
    choose (λ x. x.queue ≡ c.queue) c.hears_video c (record (schedule c) { hears_video = true })
      (λ _. refl)
      (λ _. elim (Option-cases c.pending_prime) [ inl e ↦ rw e refl | inr (v, e) ↦ rw e refl ])
