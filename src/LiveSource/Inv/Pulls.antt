-- ===== src/LiveSource/Inv/Pulls.antt =====
-- The calls and timers of `SharedLiveSource` in src/transport/p2p/shared-live-source.ts start and stop
-- streams in turn.
use eufy_sdk.Prelude.{
  ℕ, ◌+◌, ◌≡◌, refl, subst, Bool, true, false, not, ◌||◌, [], Option, none, some, length, ltb, ◌==◌,
  if◌then◌else◌, arith, Option-cases, inl, inr,
}
use eufy_sdk.KeyMap.{insert}
use eufy_sdk.SessionManager.{PowerTier, wired, battery}
use eufy_sdk.LiveConsumer.{choose, VideoFrame, VideoItem, Event, Reaction, Consumer, end}
use eufy_sdk.LiveSource.Calls.{
  push_ring, reissue, reissue_start, nudge_reused, watch_reused_stream, end_linger, primed, join,
  attach_consumer, on_start_unacknowledged, rewarm, on_warm_timeout, on_budget_expire,
  on_grace_expire, extend_budget, config_of, start_budget, on_keyframe, with_param_sets, on_video,
  on_audio, on_upstream_end, on_upstream_error, dispose,
}
use eufy_sdk.LiveSource.{
  nudged, on_active, on_idle, on_session_unreachable, Source, Options, is_some, is_warming,
  arm_warm_watch, open_stream, warm, settle_reuse_watch, all_consumers, stop_stream, teardown,
  clear_delivered, clear_warm_watch, stopped, live,
}
use eufy_sdk.LiveSource.Inv.Streams.{
  Pulls, IsPulled, is_silent, starts, stop_stream-Pulls, teardown-Pulls, all-Pulls, act-Pulls,
}

module _ (sink : Consumer → Event → Reaction) (opts : Options) where
  reissue-Pulls : (stream : Option ℕ) (s : Source) → Pulls s → Pulls (reissue sink opts stream s)
  unfolding is_silent
  reissue-Pulls none s v = v
  reissue-Pulls (some id) s v =
      choose Pulls opts.nudges _ s (λ _. act-Pulls (nudged id _) s refl v) (λ _. v)

  pub reissue_start-Pulls : (s : Source) → Pulls s → Pulls (reissue_start sink opts s)
  unfolding reissue_start
  reissue_start-Pulls s v = reissue-Pulls s.stream s v

  nudge_reused-Pulls :
      (stream : Option ℕ) (s : Source) → Pulls s → Pulls (nudge_reused sink opts stream s)
  unfolding is_silent
  nudge_reused-Pulls none s v = v
  nudge_reused-Pulls (some id) s v =
      choose Pulls opts.nudges _ s (λ _. act-Pulls (nudged id false) s refl v) (λ _. v)

  watch_reused_stream-Pulls : (s : Source) → Pulls s → Pulls (watch_reused_stream sink opts s)
  unfolding watch_reused_stream
  watch_reused_stream-Pulls s v =
      choose Pulls (s.deadline || s.retry) s _ (λ _. v)
        (λ _.
          nudge_reused-Pulls s.stream
            (arm_warm_watch
              (record (clear_delivered s) { fruitless = 0; reuse = true; attempts = 0 }))
            v)

  pub warm-Pulls : (s : Source) → is_some s.stream ≡ false → Pulls s → Pulls (warm s)
  unfolding warm open_stream
  warm-Pulls s cold v = starts s.fresh s.done (elim (Option-cases s.stream) [
    | inl e ↦ subst (λ st. IsPulled st s.fresh s.done) e v
    | inr (id, e) ↦ absurd (ground (arith, cold, e))
  ])

  end_linger-Pulls : (s : Source) → Pulls s → Pulls (end_linger sink opts s)
  unfolding end_linger
  end_linger-Pulls s v = choose Pulls s.linger _ s (λ _. v) (λ _. v)

  join-Pulls : (c : Consumer) (s : Source) → Pulls s → Pulls (join sink opts s.fresh c s)
  unfolding join is_silent
  join-Pulls c s v =
      let joined : Source = record s {
        consumers = insert s.fresh c s.consumers;
        fresh = s.fresh + 1;
      } in
      let w : Pulls joined = record {
        next = v.next;
        replays = v.replays;
        below = omega (arith, v.below);
      } in
      choose Pulls (length s.consumers == 0) _ _ (λ _. act-Pulls on_active joined refl w) (λ _. w)

  pub attach_consumer-Pulls :
      (with_prime : Bool) (s : Source) → Pulls s → Pulls (attach_consumer sink opts with_prime s).1
  unfolding attach_consumer
  attach_consumer-Pulls with_prime s v =
      let joined = join sink opts s.fresh (primed sink opts with_prime s.last_keyframe) s in
      let ready = end_linger sink opts joined in
      let w : Pulls ready = end_linger-Pulls joined (join-Pulls _ s v) in
      choose {A = Option ℕ × Source} (λ r. Pulls r.1) s.disposed (none, s) _ (λ _. v)
        (λ _.
          choose Pulls (is_some ready.stream) (watch_reused_stream sink opts ready) (warm ready)
            (λ _. watch_reused_stream-Pulls ready w) (λ cold. warm-Pulls ready cold w))

  pub on_start_unacknowledged-Pulls :
      (s : Source) → Pulls s → Pulls (on_start_unacknowledged sink opts s)
  unfolding on_start_unacknowledged is_silent
  on_start_unacknowledged-Pulls s v =
      choose Pulls (s.disposed || s.asked) s _ (λ _. v)
        (λ _.
          choose Pulls (s.video_seen || s.audio_seen || s.keyframe_seen) s _ (λ _. v)
            (λ _.
              choose Pulls opts.replaces _ s (λ _. act-Pulls on_session_unreachable s refl v)
                (λ _. v)))

  pub rewarm-Pulls : (s : Source) → Pulls s → Pulls (rewarm sink opts s)
  unfolding rewarm open_stream
  rewarm-Pulls s v =
      choose Pulls (s.disposed || not s.asked || not (is_warming s.state)) s _ (λ _. v)
        (λ _.
          let down = stop_stream s.stream (record s { stream = none; fruitless = 0 }) in
          starts down.fresh down.done
            (stop_stream-Pulls s.stream (record s { stream = none; fruitless = 0 }) v))

  pub on_warm_timeout-Pulls : (s : Source) → Pulls s → Pulls (on_warm_timeout sink opts s)
  unfolding on_warm_timeout
  on_warm_timeout-Pulls s v =
      choose Pulls (s.disposed || not (is_some s.stream)) (record s { deadline = false }) _ (λ _. v)
        (λ _. teardown-Pulls true _ (all-Pulls _ (record s { deadline = false }) v))

  pub on_budget_expire-Pulls : (s : Source) → Pulls s → Pulls (on_budget_expire sink opts s)
  unfolding on_budget_expire
  on_budget_expire-Pulls s v =
      choose Pulls (s.disposed || not (is_some s.stream)) (record s { budget_timer = false }) _
        (λ _. v) (λ _. all-Pulls _ (record s { budget_timer = false; grace = true }) v)

  pub on_grace_expire-Pulls : (s : Source) → Pulls s → Pulls (on_grace_expire sink opts s)
  unfolding on_grace_expire
  on_grace_expire-Pulls s v = teardown-Pulls true _ (all-Pulls _ (record s { grace = false }) v)

  pub extend_budget-Pulls : (s : Source) → Pulls s → Pulls (extend_budget sink opts s)
  unfolding extend_budget
  extend_budget-Pulls s v =
      choose Pulls (s.disposed || not (is_some s.stream)) s _ (λ _. v) (λ _. v)

  settle_reuse_watch-Pulls : (s : Source) → Pulls s → Pulls (settle_reuse_watch s)
  unfolding settle_reuse_watch
  settle_reuse_watch-Pulls s v = choose Pulls s.reuse _ s (λ _. v) (λ _. v)

  start_budget-Pulls : (p : PowerTier) (s : Source) → Pulls s → Pulls (start_budget sink opts p s)
  start_budget-Pulls wired s v = v
  start_budget-Pulls battery s v = v

  on_keyframe-Pulls :
      (item : VideoItem) (s : Source) → Pulls s → Pulls (on_keyframe sink opts item s)
  unfolding on_keyframe
  on_keyframe-Pulls item s v =
      let s' : Source = record s {
        last_keyframe = some item;
        keyframe_seen = true;
        state = if is_warming s.state then live else s.state;
      } in
      choose Pulls (s.retry || s.deadline)
        (start_budget sink opts opts.powered (clear_warm_watch s')) s'
        (λ _. start_budget-Pulls opts.powered (clear_warm_watch s') v) (λ _. v)

  pub on_video-Pulls :
      (now : ℕ) (frame : VideoFrame) (s : Source) → Pulls s → Pulls (on_video sink opts now frame s)
  unfolding on_video push_ring
  on_video-Pulls now frame s v =
      let seen : Source = record s { video_seen = true; fruitless = 0 } in
      let s1 = with_param_sets sink opts frame (settle_reuse_watch seen) in
      let v1 : Pulls s1 = settle_reuse_watch-Pulls seen v in
      let item : VideoItem = record {
        frame = frame;
        timestamp = now;
        config = config_of sink opts frame s1.param_sets;
      } in
      let v2 : Pulls (if frame.keyframe then on_keyframe sink opts item s1 else s1) =
        choose Pulls frame.keyframe (on_keyframe sink opts item s1) s1
          (λ _. on_keyframe-Pulls item s1 v1) (λ _. v1) in
      all-Pulls _ _ v2

  pub on_audio-Pulls :
      (now frame : ℕ) (s : Source) → Pulls s → Pulls (on_audio sink opts now frame s)
  unfolding on_audio push_ring
  on_audio-Pulls now frame s v =
      all-Pulls _ _ (settle_reuse_watch-Pulls (record s { audio_seen = true; fruitless = 0 }) v)

  pub on_upstream_end-Pulls : (s : Source) → Pulls s → Pulls (on_upstream_end sink opts s)
  unfolding on_upstream_end
  on_upstream_end-Pulls s v =
      choose Pulls (s.disposed || not (is_some s.stream)) s _ (λ _. v)
        (λ _.
          teardown-Pulls true _
            (all-Pulls _ _ (choose Pulls s.keyframe_seen s _ (λ _. v) (λ _. all-Pulls _ s v))))

  pub on_upstream_error-Pulls :
      (error : ℕ) (s : Source) → Pulls s → Pulls (on_upstream_error sink opts error s)
  unfolding on_upstream_error
  on_upstream_error-Pulls error s v =
      choose Pulls s.disposed s _ (λ _. v) (λ _. teardown-Pulls true _ (all-Pulls _ s v))

  pub dispose-Pulls : (s : Source) → Pulls s → Pulls (dispose sink opts s)
  unfolding dispose is_silent
  dispose-Pulls s v =
      let told = all_consumers (end sink opts.max_queue) (record s { disposed = true }) in
      let down =
        teardown-Pulls false (record told { consumers = [] })
          (all-Pulls _ (record s { disposed = true }) v) in
      choose Pulls s.disposed s _ (λ _. v)
        (λ _.
          choose Pulls (ltb 0 (length s.consumers)) _ _
            (λ _.
              act-Pulls on_idle (teardown stopped false (record told { consumers = [] })) refl down)
            (λ _. down))
