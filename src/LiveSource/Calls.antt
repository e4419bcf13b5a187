-- ===== src/LiveSource/Calls.antt =====
-- The methods and timer callbacks of `SharedLiveSource` in src/transport/p2p/shared-live-source.ts.
use eufy_sdk.Prelude.{
  ℕ, ◌+◌, Bool, true, false, not, ◌&&◌, ◌||◌, List, [], ◌∷◌, Option, none, some, length, min, ltb,
  leb, ◌==◌, if◌then◌else◌,
}
use eufy_sdk.KeyMap.{insert}
use eufy_sdk.MapPixels.{pos}
use eufy_sdk.SessionManager.{PowerTier, wired, battery}
use eufy_sdk.Annexb.{ParamSets, updated_param_sets}
use eufy_sdk.Annexb.Geometry.{coded_geometry}
use eufy_sdk.LiveConsumer.{
  VideoFrame, VideoConfig, VideoItem, TimedFrame, video, audio, Event, Reaction, Consumer,
  new_consumer, prime, deliver_video, deliver_audio, fail, end, notify_budget,
}
use eufy_sdk.LiveSource.{
  Reason, Options, Source, act, is_some, is_warming, is_lingering, clear_delivered, open_stream,
  start_retry, arm_warm_watch, warm, clear_warm_watch, clear_budget, settle_reuse_watch,
  all_consumers, stop_stream, teardown, drained, retained, warming, live, stopped,
  awaiting_keyframe, audio_only, awaiting_first_frame, nudged, on_active, on_idle,
  on_session_unreachable, warm_timeout, source_ended, source_error,
}

module _ (sink : Consumer → Event → Reaction) (opts : Options) where
  unfoldable pub push_ring : TimedFrame → Source → Source
  push_ring item s = record s { ring = retained opts.pre_buffer_ms item s.ring }

  -- `duration_ms` is `durationMs(seconds)`.
  pub buffered_media : ℕ → ℕ → Source → List TimedFrame
  buffered_media now duration_ms s =
      let requested = min duration_ms opts.pre_buffer_ms in
      if leb requested 0 then [] else drained now requested s.ring

  -- The `filter` and `map` of `ringBuffer`.
  pub videos_of : List TimedFrame → List VideoFrame
  videos_of [] = []
  videos_of (video v ∷ rest) = v.frame ∷ videos_of rest
  videos_of (audio frame at ∷ rest) = videos_of rest

  pub ring_buffer : ℕ → ℕ → Source → List VideoFrame
  ring_buffer now duration_ms s = videos_of (buffered_media now duration_ms s)

  -- `startFailure`.
  pub start_failure : Reason → Source → ℕ
  start_failure reason s =
      opts.start_error reason
        (if s.video_seen
          then awaiting_keyframe
          else if s.audio_seen
          then audio_only
          else awaiting_first_frame)
        s.attempts

  abbrev pub reissue : Option ℕ → Source → Source
  reissue none s = s
  reissue (some id) s =
      let arrived = s.video_seen || s.audio_seen in
      let fruitless = if arrived then 0 else s.fruitless + 1 in
      if opts.nudges
      then act (nudged id (not arrived && ltb 1 fruitless))
          (record s { attempts = s.attempts + 1; fruitless = fruitless })
      else s

  unfoldable pub reissue_start : Source → Source
  reissue_start s = reissue s.stream s

  abbrev pub nudge_reused : Option ℕ → Source → Source
  nudge_reused none s = s
  nudge_reused (some id) s =
      if opts.nudges then act (nudged id false) (record s { attempts = s.attempts + 1 }) else s

  unfoldable pub watch_reused_stream : Source → Source
  watch_reused_stream s =
      if s.deadline || s.retry
      then s
      else nudge_reused s.stream (
          arm_warm_watch (record (clear_delivered s) { fruitless = 0; reuse = true; attempts = 0 }))

  -- The part of `attachConsumer` that ends a linger.
  unfoldable pub end_linger : Source → Source
  end_linger s =
      if s.linger
      then record s {
        linger = false;
        state =
            if is_lingering s.state
            then if is_some s.last_keyframe then live else warming
            else s.state;
      }
      else s

  abbrev pub primed : Bool → Option VideoItem → Consumer
  primed false item = new_consumer
  primed true none = new_consumer
  primed true (some item) = prime item new_consumer

  -- `attachConsumer`: the new consumer among the others, and then its number, or `none` where the
  -- source throws.
  unfoldable pub join : ℕ → Consumer → Source → Source
  join id c s =
      let joined = record s { consumers = insert id c s.consumers; fresh = id + 1 } in
      if length s.consumers == 0 then act on_active joined else joined

  unfoldable pub attach_consumer : Bool → Source → Option ℕ × Source
  attach_consumer with_prime s =
      let id = s.fresh in
      let ready = end_linger (join id (primed with_prime s.last_keyframe) s) in
      if s.disposed
      then (none, s)
      else (some id, if is_some ready.stream then watch_reused_stream ready else warm ready)

  unfoldable pub attach : Source → Option ℕ × Source
  attach s = attach_consumer true s

  unfoldable pub attach_with_prebuffer : ℕ → ℕ → Source → Option (ℕ × List TimedFrame) × Source
  attach_with_prebuffer now duration_ms s =
      let (id, s') = attach_consumer false s in
      (elim id [ none ↦ none | some i ↦ some (i, buffered_media now duration_ms s') ], s')

  unfoldable pub on_start_unacknowledged : Source → Source
  on_start_unacknowledged s =
      if s.disposed || s.asked
      then s
      else if s.video_seen || s.audio_seen || s.keyframe_seen
      then s
      else if opts.replaces
      then act on_session_unreachable (record s { asked = true; retry = false })
      else s

  unfoldable pub rewarm : Source → Source
  rewarm s =
      if s.disposed || not s.asked || not (is_warming s.state)
      then s
      else let s' =
          open_stream (stop_stream s.stream (record s { stream = none; fruitless = 0 })) in
        start_retry (record s' { attempts = s'.attempts + 1 })

  -- The timers' callbacks; a single-shot timer is pending no more.
  unfoldable pub on_warm_timeout : Source → Source
  on_warm_timeout s =
      let s' = record s { deadline = false } in
      if s'.disposed || not (is_some s'.stream)
      then s'
      else teardown stopped true
          (all_consumers (fail sink opts.max_queue (start_failure warm_timeout s')) s')

  unfoldable pub on_linger_expire : Source → Source
  on_linger_expire s = teardown stopped true (record s { linger = false })

  unfoldable pub on_budget_expire : Source → Source
  on_budget_expire s =
      let s' = record s { budget_timer = false } in
      if s'.disposed || not (is_some s'.stream)
      then s'
      else all_consumers (notify_budget sink opts.max_queue opts.grace_ms)
          (record s' { grace = true })

  unfoldable pub on_grace_expire : Source → Source
  on_grace_expire s =
      teardown stopped true (all_consumers (end sink opts.max_queue) (record s { grace = false }))

  unfoldable pub extend_budget : Source → Source
  extend_budget s =
      if s.disposed || not (is_some s.stream)
      then s
      else record (clear_budget s) { budget_timer = true }

  -- `configOf`.
  pub config_of : VideoFrame → Option ParamSets → VideoConfig
  config_of frame none = record {
    codec = frame.codec;
    width = pos frame.width;
    height = pos frame.height;
  }
  config_of frame (some sets) = elim (coded_geometry sets) [
    | none ↦ record { codec = frame.codec; width = pos frame.width; height = pos frame.height }
    | some g ↦ record { codec = sets.codec; width = g.width; height = g.height }
  ]

  abbrev pub start_budget : PowerTier → Source → Source
  start_budget wired s = s
  start_budget battery s = record (clear_budget s) { budget_timer = true }

  -- What a keyframe does in `onVideo`.
  unfoldable pub on_keyframe : VideoItem → Source → Source
  on_keyframe item s =
      let s' = record s {
        last_keyframe = some item;
        keyframe_seen = true;
        state = if is_warming s.state then live else s.state;
      } in
      if s.retry || s.deadline then start_budget opts.powered (clear_warm_watch s') else s'

  abbrev pub with_param_sets : VideoFrame → Source → Source
  with_param_sets frame s = record s { param_sets = updated_param_sets frame.bytes s.param_sets }

  unfoldable pub on_video : ℕ → VideoFrame → Source → Source
  on_video now frame s =
      let s1 =
        with_param_sets frame
          (settle_reuse_watch (record s { video_seen = true; fruitless = 0 })) in
      let item : VideoItem = record {
        frame = frame;
        timestamp = now;
        config = config_of frame s1.param_sets;
      } in
      let s2 = if frame.keyframe then on_keyframe item s1 else s1 in
      all_consumers (deliver_video sink opts.max_queue item) (push_ring (video item) s2)

  unfoldable pub on_audio : ℕ → ℕ → Source → Source
  on_audio now frame s = all_consumers (deliver_audio sink opts.max_queue frame now) (
      push_ring (audio frame now)
        (settle_reuse_watch (record s { audio_seen = true; fruitless = 0 })))

  unfoldable pub on_upstream_end : Source → Source
  on_upstream_end s =
      if s.disposed || not (is_some s.stream)
      then s
      else let s1 =
          if s.keyframe_seen
          then s
          else all_consumers (fail sink opts.max_queue (start_failure source_ended s)) s in
        teardown stopped true (all_consumers (end sink opts.max_queue) s1)

  unfoldable pub on_upstream_error : ℕ → Source → Source
  on_upstream_error error s =
      let e = if s.keyframe_seen then error else start_failure source_error s in
      if s.disposed then s else teardown stopped true (all_consumers (fail sink opts.max_queue e) s)

  unfoldable pub dispose : Source → Source
  dispose s =
      let held = ltb 0 (length s.consumers) in
      let told = all_consumers (end sink opts.max_queue) (record s { disposed = true }) in
      let down = teardown stopped false (record told { consumers = [] }) in
      if s.disposed then s else if held then act on_idle down else down
