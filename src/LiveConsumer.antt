-- ===== src/LiveConsumer.antt =====
-- The class `ConsumerImpl` of src/transport/p2p/shared-live-source.ts, with the frames of
-- src/core/contracts.ts. What its listeners are told is the list `heard`; how the sink reacts to a
-- delivery is an argument. An audio frame, an error and a duration are numbers.
mod Choose
pub use Choose.*
pub mod Thinned
pub mod Announced
pub mod Bounded
pub mod Run
mod Tests
use eufy_sdk.Prelude.{
  ℕ, ◌+◌, Bool, true, false, not, ◌&&◌, List, [], ◌∷◌, ◌++◌, Option, none, some, length, ltb, ◌==◌,
  if◌then◌else◌,
}
use eufy_sdk.MapPixels.{ℤ, pos, negsuc}
use eufy_sdk.Annexb.{VideoCodec, same_codec}

-- `LiveVideoFrame`.
pub record VideoFrame : Type 0 where
  pub keyframe : Bool
  pub width : ℕ
  pub height : ℕ
  pub codec : VideoCodec
  pub bytes : List ℕ

-- `LiveVideoConfig`.
pub record VideoConfig : Type 0 where
  pub codec : VideoCodec
  pub width : ℤ
  pub height : ℤ

-- The two kinds of `TimedMediaFrame`.
pub record VideoItem : Type 0 where
  pub frame : VideoFrame
  pub timestamp : ℕ
  pub config : VideoConfig

pub data TimedFrame : Type 0 where
  video : VideoItem → TimedFrame
  audio : ℕ → ℕ → TimedFrame

pub same_number : ℤ → ℤ → Bool
same_number (pos m) (pos n) = m == n
same_number (negsuc m) (negsuc n) = m == n
same_number _ _ = false

-- `sameConfig`.
pub same_config : VideoConfig → Option VideoConfig → Bool
same_config a none = false
same_config a (some b) =
    same_codec a.codec b.codec && same_number a.width b.width && same_number a.height b.height

-- What a listener is called with.
pub data Event : Type 0 where
  video_config : VideoConfig → Event
  video_frame : VideoFrame → Event
  audio_frame : ℕ → Event
  media : TimedFrame → Event
  failed : ℕ → Event
  stopped : Event
  budget : ℕ → Event

-- What a listener does to its consumer before it returns.
pub data Reaction : Type 0 where
  carries_on pauses detaches : Reaction

-- `scheduled` is the microtask that replays the primed keyframe; the two flags say which listeners
-- there are.
pub record Consumer : Type 0 where
  pub queue : List TimedFrame
  pub paused : Bool
  pub detached : Bool
  pub primed : Bool
  pub awaiting_keyframe : Bool
  pub config : Option VideoConfig
  pub pending_prime : Option VideoItem
  pub scheduled : Option VideoItem
  pub hears_video : Bool
  pub hears_errors : Bool
  pub heard : List Event

unfoldable pub new_consumer : Consumer
new_consumer = record {
  queue = [];
  paused = false;
  detached = false;
  primed = false;
  awaiting_keyframe = false;
  config = none;
  pending_prime = none;
  scheduled = none;
  hears_video = false;
  hears_errors = false;
  heard = [];
}

pub prime : VideoItem → Consumer → Consumer
prime item c = record c { primed = true; pending_prime = some item }

-- `on("error", …)`, and `on("video", …)` with the "newListener" handler of the constructor.
pub listen_errors : Consumer → Consumer
listen_errors c = record c { hears_errors = true }

abbrev pub schedule : Consumer → Consumer
schedule c = elim c.pending_prime [
  | none ↦ c
  | some item ↦ record c { pending_prime = none; scheduled = some item }
]

pub listen_video : Consumer → Consumer
listen_video c = if c.hears_video then c else record (schedule c) { hears_video = true }

-- `detach` as far as the consumer goes; the source's part is `on_detach`.
unfoldable pub detach : Consumer → Consumer
detach c = if c.detached then c else record c { detached = true; queue = [] }

unfoldable pub pause : Consumer → Consumer
pause c = record c { paused = true }

unfoldable pub react : Reaction → Consumer → Consumer
react carries_on c = c
react pauses c = pause c
react detaches c = detach c

abbrev pub hear : List Event → Consumer → Consumer
hear events c = record c { heard = c.heard ++ events }

-- The part of `flush` that announces a configuration.
pub announce : VideoConfig → Consumer → Consumer
announce config c =
    if same_config config c.config
    then c
    else record c { config = some config; heard = c.heard ++ (video_config config ∷ []) }

-- The events of `flush`, before the sink's reaction.
pub emit : TimedFrame → Consumer → Consumer
emit (video v) c = hear (video_frame v.frame ∷ media (video v) ∷ []) (announce v.config c)
emit (audio frame timestamp) c = hear (audio_frame frame ∷ media (audio frame timestamp) ∷ []) c

unfoldable pub is_keyframe : TimedFrame → Bool
is_keyframe (video v) = v.frame.keyframe
is_keyframe (audio frame timestamp) = false

module _ (sink : Consumer → Event → Reaction) (max_queue : ℕ) where
  pub flush : TimedFrame → Consumer → Consumer
  flush item c = let c' = emit item c in react (sink c' (media item)) c'

  pub drop_backlog_past_bound : Consumer → Consumer
  drop_backlog_past_bound c =
      if ltb max_queue (length c.queue)
      then record c { queue = []; awaiting_keyframe = true }
      else c

  pub retain_undelivered : List TimedFrame → Consumer → Consumer
  retain_undelivered undelivered c =
      drop_backlog_past_bound (record c {
        queue = if ltb 0 (length c.queue) then undelivered ++ c.queue else undelivered;
      })

  -- The loop of `resume`.
  pub drain : List TimedFrame → Consumer → Consumer
  drain [] c = c
  drain (item ∷ rest) c =
      let more = drain rest (flush item c) in
      if c.detached then c else if c.paused then retain_undelivered (item ∷ rest) c else more

  pub resume : Consumer → Consumer
  resume c = if c.detached then c else drain c.queue (record c { paused = false; queue = [] })

  pub accept : TimedFrame → Consumer → Consumer
  accept item c =
      if not c.paused && (length c.queue == 0)
      then flush item c
      else drop_backlog_past_bound (record c { queue = c.queue ++ (item ∷ []) })

  pub deliver_video : VideoItem → Consumer → Consumer
  deliver_video item c =
      if c.detached
      then c
      else if c.awaiting_keyframe
      then if item.frame.keyframe
        then accept (video item) (record c { awaiting_keyframe = false })
        else c
      else accept (video item) c

  pub deliver_audio : ℕ → ℕ → Consumer → Consumer
  deliver_audio frame timestamp c =
      if c.detached then c else if c.awaiting_keyframe then c else accept (audio frame timestamp) c

  -- The microtask of a primed keyframe runs.
  pub replay : VideoItem → Consumer → Consumer
  replay item c = deliver_video item (record c { scheduled = none })

  -- An event that goes to one kind of listener, and the sink's reaction.
  abbrev notify : Event → Consumer → Consumer
  notify event c = let c' = hear (event ∷ []) c in react (sink c' event) c'

  pub fail : ℕ → Consumer → Consumer
  fail error c = if c.detached then c else if c.hears_errors then notify (failed error) c else c

  unfoldable pub end : Consumer → Consumer
  end c = if c.detached then c else notify stopped c

  pub notify_budget : ℕ → Consumer → Consumer
  notify_budget grace_ms c = if c.detached then c else notify (budget grace_ms) c
