-- ===== src/LiveConsumer/Run.antt =====
-- Every history of a consumer of src/transport/p2p/shared-live-source.ts: calls, deliveries and the
-- microtask, in any order.
use eufy_sdk.Prelude.{
  ℕ, ◌≤◌, ◌≡◌, refl, List, [], ◌∷◌, ◌++◌, true, none, some, length, arith, append-nil, Option-cases,
  inl, inr,
}
use eufy_sdk.LiveConsumer.{
  VideoItem, TimedFrame, video, audio, Event, failed, stopped, budget, Reaction, Consumer,
  new_consumer, prime, listen_errors, listen_video, detach, pause, react, hear, resume,
  deliver_video, deliver_audio, replay, schedule, fail, end, notify_budget,
}
use eufy_sdk.LiveConsumer.Thinned.{
  media_of, media_of-append, phase_of, IsThinned, nothing_yet, Good, detach-Good, react-Good,
  either,
}
use eufy_sdk.LiveConsumer.Bounded.{
  listen_video-queue, resume-IsBounded, deliver_video-IsBounded, deliver_audio-IsBounded,
  fail-IsBounded, end-IsBounded, notify_budget-IsBounded,
}
use eufy_sdk.LiveConsumer.Announced.{
  IsAnnounced, Told, new_consumer-Told, detach-Told, listen_video-Told, resume-Told,
  deliver_video-Told, deliver_audio-Told, fail-Told, end-Told, notify_budget-Told,
}
use eufy_sdk.LiveConsumer.Thinned.Flow.{resume-Good, deliver_video-Good, deliver_audio-Good}

-- A consumer with what the source sent it. `sink` is how its listeners react and `max_queue` the bound.
module _ (sink : Consumer → Event → Reaction) (max_queue : ℕ) where
  pub data Run : List TimedFrame → Consumer → Type 0 where
    fresh : Run [] new_consumer
    primes :
        {sent : List TimedFrame} {c : Consumer} (v : VideoItem) → Run sent c → Run sent (prime v c)
    listens_errors :
        {sent : List TimedFrame} {c : Consumer} → Run sent c → Run sent (listen_errors c)
    listens_video : {sent : List TimedFrame} {c : Consumer} → Run sent c → Run sent (listen_video c)
    detached : {sent : List TimedFrame} {c : Consumer} → Run sent c → Run sent (detach c)
    paused : {sent : List TimedFrame} {c : Consumer} → Run sent c → Run sent (pause c)
    resumed :
        {sent : List TimedFrame} {c : Consumer} → Run sent c → Run sent (resume sink max_queue c)
    video_sent :
        {sent : List TimedFrame} {c : Consumer} (v : VideoItem)
        → Run sent c
        → Run (sent ++ (video v ∷ [])) (deliver_video sink max_queue v c)
    audio_sent :
        {sent : List TimedFrame} {c : Consumer} (frame at : ℕ)
        → Run sent c
        → Run (sent ++ (audio frame at ∷ [])) (deliver_audio sink max_queue frame at c)
    replayed :
        {sent : List TimedFrame} {c : Consumer} (v : VideoItem)
        → Run sent c
        → c.scheduled ≡ some v
        → Run (sent ++ (video v ∷ [])) (replay sink max_queue v c)
    fails :
        {sent : List TimedFrame} {c : Consumer} (e : ℕ)
        → Run sent c
        → Run sent (fail sink max_queue e c)
    ends : {sent : List TimedFrame} {c : Consumer} → Run sent c → Run sent (end sink max_queue c)
    budgets :
        {sent : List TimedFrame} {c : Consumer} (n : ℕ)
        → Run sent c
        → Run sent (notify_budget sink max_queue n c)

-- A consumer that differs in other fields.
same-Good :
    (sent : List TimedFrame) (c after : Consumer)
    → after.detached ≡ c.detached
    → after.awaiting_keyframe ≡ c.awaiting_keyframe
    → after.heard ≡ c.heard
    → after.queue ≡ c.queue
    → Good sent c
    → Good sent after
unfolding Good phase_of
same-Good sent c after d a h q g = rw (d, a, h, q) g

listen_video-Good :
    (sent : List TimedFrame) (c : Consumer) → Good sent c → Good sent (listen_video c)
unfolding listen_video
listen_video-Good sent c g =
    either sent c.hears_video c (record (schedule c) { hears_video = true }) (λ _. g)
      (λ _. elim (Option-cases c.pending_prime) [
        | inl e ↦ same-Good sent c _ (rw e refl) (rw e refl) (rw e refl) (rw e refl) g
        | inr (v, e) ↦ same-Good sent c _ (rw e refl) (rw e refl) (rw e refl) (rw e refl) g
      ])

failed_media : (e : ℕ) → media_of (failed e ∷ []) ≡ []
unfolding media_of
failed_media e = refl

stopped_media : media_of (stopped ∷ []) ≡ []
unfolding media_of
stopped_media = refl

budget_media : (n : ℕ) → media_of (budget n ∷ []) ≡ []
unfolding media_of
budget_media n = refl

fresh-Good : Good [] new_consumer
unfolding Good phase_of media_of new_consumer
fresh-Good = nothing_yet

-- An event without media.
notify-Good :
    (sent : List TimedFrame) (sink : Consumer → Event → Reaction) (event : Event) (c : Consumer)
    → media_of (event ∷ []) ≡ []
    → Good sent c
    → Good sent (react (sink (hear (event ∷ []) c) event) (hear (event ∷ []) c))
notify-Good sent sink event c h g = react-Good sent _ (hear (event ∷ []) c) (
    unfold Good phase_of in
    rw (media_of-append c.heard (event ∷ []), h, append-nil (media_of c.heard)) g)

handed :
    (sink : Consumer → Event → Reaction) (max_queue : ℕ) {sent : List TimedFrame} {c : Consumer}
    → Run sink max_queue sent c
    → Good sent c
unfolding prime listen_errors pause fail end notify_budget replay
handed sink max_queue fresh = fresh-Good
handed sink max_queue (primes {sent} {c} v r) =
    same-Good sent c (prime v c) refl refl refl refl (handed sink max_queue r)
handed sink max_queue (listens_errors {sent} {c} r) =
    same-Good sent c (listen_errors c) refl refl refl refl (handed sink max_queue r)
handed sink max_queue (listens_video {c} r) = listen_video-Good _ c (handed sink max_queue r)
handed sink max_queue (detached {c} r) = detach-Good _ c (handed sink max_queue r)
handed sink max_queue (paused {sent} {c} r) =
    same-Good sent c (pause c) refl refl refl refl (handed sink max_queue r)
handed sink max_queue (resumed {c} r) = resume-Good sink max_queue _ c (handed sink max_queue r)
handed sink max_queue (video_sent {sent} {c} v r) =
    deliver_video-Good sink max_queue sent v c (handed sink max_queue r)
handed sink max_queue (audio_sent {sent} {c} frame at r) =
    deliver_audio-Good sink max_queue sent frame at c (handed sink max_queue r)
handed sink max_queue (replayed {sent} {c} v r _) =
    deliver_video-Good sink max_queue sent v (record c { scheduled = none })
      (same-Good sent c (record c { scheduled = none }) refl refl refl refl
        (handed sink max_queue r))
handed sink max_queue (fails {sent} {c} e r) =
    either sent c.detached c _ (λ _. handed sink max_queue r)
      (λ _.
        either sent c.hears_errors _ c
          (λ _. notify-Good sent sink (failed e) c (failed_media e) (handed sink max_queue r))
          (λ _. handed sink max_queue r))
handed sink max_queue (ends {sent} {c} r) =
    either sent c.detached c _ (λ _. handed sink max_queue r)
      (λ _. notify-Good sent sink stopped c stopped_media (handed sink max_queue r))
handed sink max_queue (budgets {sent} {c} n r) =
    either sent c.detached c _ (λ _. handed sink max_queue r)
      (λ _. notify-Good sent sink (budget n) c (budget_media n) (handed sink max_queue r))

-- What a consumer was handed and what waits in its queue are the frames sent to it with gaps, each of
-- which ends at a keyframe or with the consumer's leave; a consumer that has neither left nor waits for
-- a keyframe is inside no gap.
pub Run-IsThinned :
    (sink : Consumer → Event → Reaction) (max_queue : ℕ) {sent : List TimedFrame} {c : Consumer}
    → Run sink max_queue sent c
    → IsThinned (phase_of c) sent (media_of c.heard ++ c.queue)
Run-IsThinned sink max_queue r = unfold Good in handed sink max_queue r

-- The queue of a consumer holds at most `max_queue` frames, in whatever state.
pub Run-IsBounded :
    (sink : Consumer → Event → Reaction) (max_queue : ℕ) {sent : List TimedFrame} {c : Consumer}
    → Run sink max_queue sent c
    → length c.queue ≤ max_queue
unfolding new_consumer prime listen_errors pause detach replay
Run-IsBounded sink q fresh = omega arith
Run-IsBounded sink q (primes v r) = Run-IsBounded sink q r
Run-IsBounded sink q (listens_errors r) = Run-IsBounded sink q r
Run-IsBounded sink q (listens_video {c} r) = rw (listen_video-queue c) (Run-IsBounded sink q r)
Run-IsBounded sink q (detached {c} r) = ground (arith, Run-IsBounded sink q r)
Run-IsBounded sink q (paused r) = Run-IsBounded sink q r
Run-IsBounded sink q (resumed {c} r) = resume-IsBounded sink q c (Run-IsBounded sink q r)
Run-IsBounded sink q (video_sent {c} v r) =
    deliver_video-IsBounded sink q v c (Run-IsBounded sink q r)
Run-IsBounded sink q (audio_sent {c} frame at r) =
    deliver_audio-IsBounded sink q frame at c (Run-IsBounded sink q r)
Run-IsBounded sink q (replayed {c} v r _) =
    deliver_video-IsBounded sink q v (record c { scheduled = none }) (Run-IsBounded sink q r)
Run-IsBounded sink q (fails {c} e r) = fail-IsBounded sink q e c (Run-IsBounded sink q r)
Run-IsBounded sink q (ends {c} r) = end-IsBounded sink q c (Run-IsBounded sink q r)
Run-IsBounded sink q (budgets {c} n r) = notify_budget-IsBounded sink q n c (Run-IsBounded sink q r)

told :
    (sink : Consumer → Event → Reaction) (max_queue : ℕ) {sent : List TimedFrame} {c : Consumer}
    → Run sink max_queue sent c
    → Told c
unfolding new_consumer prime listen_errors pause replay
told sink q fresh = new_consumer-Told
told sink q (primes v r) =
    let t = told sink q r in record { announced = t.announced; current = t.current }
told sink q (listens_errors r) =
    let t = told sink q r in record { announced = t.announced; current = t.current }
told sink q (listens_video {c} r) = listen_video-Told c (told sink q r)
told sink q (detached {c} r) = detach-Told c (told sink q r)
told sink q (paused r) =
    let t = told sink q r in record { announced = t.announced; current = t.current }
told sink q (resumed {c} r) = resume-Told sink q c (told sink q r)
told sink q (video_sent {c} v r) = deliver_video-Told sink q v c (told sink q r)
told sink q (audio_sent {c} frame at r) = deliver_audio-Told sink q frame at c (told sink q r)
told sink q (replayed {c} v r _) =
    let t = told sink q r in
    deliver_video-Told sink q v (record c { scheduled = none })
      (record { announced = t.announced; current = t.current })
told sink q (fails {c} e r) = fail-Told sink q e c (told sink q r)
told sink q (ends {c} r) = end-Told sink q c (told sink q r)
told sink q (budgets {c} n r) = notify_budget-Told sink q n c (told sink q r)

-- A consumer's listeners are told of a video frame with its own configuration announced last, and of a
-- configuration only when it differs from the one announced before.
pub Run-IsAnnounced :
    (sink : Consumer → Event → Reaction) (max_queue : ℕ) {sent : List TimedFrame} {c : Consumer}
    → Run sink max_queue sent c
    → IsAnnounced none c.heard
Run-IsAnnounced sink q r = (told sink q r).announced
