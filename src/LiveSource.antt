-- ===== src/LiveSource.antt =====
-- The class `SharedLiveSource` of src/transport/p2p/shared-live-source.ts. Consumers, streams and
-- errors are numbers; what the source does to its surroundings is the list `done`. A timer that is
-- pending may fire at any step, and the clock is an argument. How listeners react is an argument too;
-- one that calls back into the source does so as the next step.
pub mod Calls
pub mod Window
pub mod Inv
pub mod Reach
mod Tests
use eufy_sdk.Prelude.{
  ℕ, suc, ◌+◌, ◌-◌, ◌*◌, Bool, true, false, not, ◌&&◌, ◌||◌, List, [], ◌∷◌, ◌++◌, Option, none,
  some, map, length, drop, get_elem?, min, ltb, leb, ◌==◌, if◌then◌else◌,
}
use eufy_sdk.KeyMap.{lookup, insert, delete}
use eufy_sdk.MapPixels.{pos}
use eufy_sdk.SessionManager.{PowerTier, wired, battery}
use eufy_sdk.Annexb.{ParamSets, updated_param_sets}
use eufy_sdk.Annexb.Geometry.{coded_geometry}
use eufy_sdk.LiveConsumer.{
  VideoFrame, VideoConfig, VideoItem, TimedFrame, video, audio, Event, Reaction, Consumer,
  new_consumer, prime, detach, is_keyframe, deliver_video, deliver_audio, fail, end, notify_budget,
}

-- `SharedLiveState`.
pub data LiveState : Type 0 where
  idle warming live lingering stopped : LiveState

-- `stage` of `LiveStreamStartError`.
pub data Stage : Type 0 where
  awaiting_keyframe audio_only awaiting_first_frame : Stage

-- `LiveStreamStartFailureReason`.
pub data Reason : Type 0 where
  warm_timeout source_ended source_error : Reason

-- What the source does: `makeStream` with `start`, `stop` and `nudge` of a stream, and the callbacks of
-- its owner.
pub data Action : Type 0 where
  started : ℕ → Action
  ended : ℕ → Action
  nudged : ℕ → Bool → Action
  on_active on_idle on_start_failed on_session_unreachable : Action

-- The options that choose a branch. `nudges` says that streams have `nudge`, `replaces` that there is
-- `onSessionUnreachable`; a reported error is `start_error` of its reason, stage and
-- attempts.
pub record Options : Type 0 where
  pub max_queue : ℕ
  pub pre_buffer_ms : ℕ
  pub powered : PowerTier
  pub nudges : Bool
  pub replaces : Bool
  pub grace_ms : ℕ
  pub start_error : Reason → Stage → ℕ → ℕ

-- The fields of the class. `linger`, `retry`, `deadline`, `budget` and `grace` say that a timer is
-- pending; `keyframe`, `video` and `audio` are `delivered`. `retry` is about the interval whose handle the
-- source has, and `leaked` counts those whose handle was overwritten, which nothing clears. `declaredGeometry` and `configuredFrom`
-- only save work, as they are a function of `param_sets`.
pub record Source : Type 0 where
  pub stream : Option ℕ
  pub consumers : List (ℕ × Consumer)
  pub linger : Bool
  pub state : LiveState
  pub disposed : Bool
  pub keyframe_seen : Bool
  pub video_seen : Bool
  pub audio_seen : Bool
  pub last_keyframe : Option VideoItem
  pub param_sets : Option ParamSets
  pub ring : List TimedFrame
  pub retry : Bool
  pub leaked : ℕ
  pub asked : Bool
  pub reuse : Bool
  pub fruitless : ℕ
  pub deadline : Bool
  pub attempts : ℕ
  pub budget_timer : Bool
  pub grace : Bool
  pub fresh : ℕ
  pub done : List Action

pub new_source : Source
new_source = record {
  stream = none;
  consumers = [];
  linger = false;
  state = idle;
  disposed = false;
  keyframe_seen = false;
  video_seen = false;
  audio_seen = false;
  last_keyframe = none;
  param_sets = none;
  ring = [];
  retry = false;
  leaked = 0;
  asked = false;
  reuse = false;
  fruitless = 0;
  deadline = false;
  attempts = 0;
  budget_timer = false;
  grace = false;
  fresh = 0;
  done = [];
}

abbrev pub act : Action → Source → Source
act a s = record s { done = s.done ++ (a ∷ []) }

abbrev pub is_some : {A : Type 0} → Option A → Bool
is_some none = false
is_some (some a) = true

abbrev pub is_warming : LiveState → Bool
is_warming warming = true
is_warming _ = false

abbrev pub is_lingering : LiveState → Bool
is_lingering lingering = true
is_lingering _ = false

abbrev pub clear_delivered : Source → Source
clear_delivered s = record s { keyframe_seen = false; video_seen = false; audio_seen = false }

pub open_stream : Source → Source
open_stream s = act (started s.fresh) (record s { stream = some s.fresh; fresh = s.fresh + 1 })

-- `this.warmRetryTimer = setInterval(…)`, whether or not there is one.
abbrev pub start_retry : Source → Source
start_retry s = record s { retry = true; leaked = if s.retry then s.leaked + 1 else s.leaked }

abbrev pub arm_warm_watch : Source → Source
arm_warm_watch s = start_retry (record s { deadline = true })

pub warm : Source → Source
warm s = arm_warm_watch (
    open_stream (record (clear_delivered s) {
      state = warming;
      asked = false;
      reuse = false;
      fruitless = 0;
      attempts = 1;
    }))

abbrev pub clear_warm_watch : Source → Source
clear_warm_watch s = record s { retry = false; deadline = false }

abbrev pub clear_budget : Source → Source
clear_budget s = record s { budget_timer = false; grace = false }

pub settle_reuse_watch : Source → Source
settle_reuse_watch s =
    if s.reuse
    then clear_warm_watch
        (record s { reuse = false; state = if is_warming s.state then live else s.state })
    else s

-- `arm`.
abbrev pub arm : Source → Source
arm s = record s { state = lingering; linger = true }

pub on_detach : ℕ → Source → Source
on_detach id s =
    let s' = record s { consumers = delete id s.consumers } in
    if (length s'.consumers == 0) && not s.disposed then arm (act on_idle s') else s'

-- The source after something was done to a consumer, which may have detached.
pub settle : ℕ → Consumer → Source → Source
settle id c s =
    if c.detached then on_detach id s else record s { consumers = insert id c s.consumers }

-- Something is done to a consumer that is attached.
pub on_consumer : (Consumer → Consumer) → ℕ → Source → Source
on_consumer f id s = elim (lookup id s.consumers) [ none ↦ s | some c ↦ settle id (f c) s ]

-- A loop over consumers.
pub each_consumer : (Consumer → Consumer) → List ℕ → Source → Source
each_consumer f [] s = s
each_consumer f (id ∷ ids) s = each_consumer f ids (on_consumer f id s)

abbrev pub all_consumers : (Consumer → Consumer) → Source → Source
all_consumers f s = each_consumer f (map (λ p. p.0) s.consumers) s

abbrev pub stop_stream : Option ℕ → Source → Source
stop_stream none s = s
stop_stream (some id) s = act (ended id) s

-- `teardown` up to the stop of the stream, which is then dropped: the "stop" event that `stop()` emits
-- at once finds no stream.
pub release_stream : Source → Source
release_stream s =
    stop_stream s.stream
      (record (clear_budget (clear_warm_watch s)) { stream = none; linger = false })

pub teardown : LiveState → Bool → Source → Source
teardown next report s =
    let failed = is_some s.stream && not s.keyframe_seen in
    let s' = record (release_stream s) {
      last_keyframe = none;
      param_sets = none;
      ring = [];
      state = next;
    } in
    if failed && report then act on_start_failed s' else s'

abbrev pub time_of : TimedFrame → ℕ
time_of (video v) = v.timestamp
time_of (audio frame at) = at

-- The loop of `windowStart` at index `i`; the cutoff is `now - span`.
pub window_loop : ℕ → ℕ → ℕ → Option ℕ → List TimedFrame → Option ℕ
window_loop now span i start [] = start
window_loop now span i start (x ∷ ring) =
    let next = window_loop now span (i + 1) start ring in
    let here = window_loop now span (i + 1) (some i) ring in
    if is_keyframe x
    then if ltb now (time_of x + span) && is_some start then start else here
    else next

abbrev pub or_zero : Option ℕ → ℕ
or_zero none = 0
or_zero (some i) = i

unfoldable pub window_start : ℕ → ℕ → List TimedFrame → ℕ
window_start now span ring = or_zero (window_loop now span 0 none ring)

abbrev pub starts_decodable : List TimedFrame → Bool
starts_decodable [] = false
starts_decodable (x ∷ rest) = is_keyframe x

-- `this.isKeyframe(this.ring[start]) ? this.ring.slice(start) : []`
pub drained : ℕ → ℕ → List TimedFrame → List TimedFrame
drained now requested ring =
    let run = drop (window_start now requested ring) ring in
    if starts_decodable run then run else []

-- What `pushRing` makes of the ring.
unfoldable pub retained : ℕ → TimedFrame → List TimedFrame → List TimedFrame
retained pre_buffer_ms item ring =
    let all = ring ++ (item ∷ []) in
    if leb pre_buffer_ms 0 then ring else drop (window_start (time_of item) pre_buffer_ms all) all
