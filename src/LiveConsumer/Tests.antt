-- ===== src/LiveConsumer/Tests.antt =====
-- src/transport/p2p/shared-live-source.ts: a consumer that pauses, overflows and takes up at a keyframe.
use eufy_sdk.Prelude.{ℕ, ◌≤◌, ◌≡◌, refl, Bool, true, false, List, [], ◌∷◌, ◌++◌, none, length}
use eufy_sdk.MapPixels.{pos}
use eufy_sdk.Annexb.{h264, same_codec}
use eufy_sdk.LiveConsumer.{
  VideoItem, TimedFrame, video, Event, Reaction, carries_on, Consumer, new_consumer, pause, resume,
  deliver_video, flush, drain, accept, drop_backlog_past_bound, emit, announce, react, same_config,
  same_number,
}
use eufy_sdk.LiveConsumer.Thinned.{media_of, phase_of, IsThinned}
use eufy_sdk.LiveConsumer.Announced.{IsAnnounced}
use eufy_sdk.LiveConsumer.Run.{
  Run, fresh, paused, resumed, video_sent, Run-IsThinned, Run-IsBounded, Run-IsAnnounced,
}

abbrev calm : Consumer → Event → Reaction
calm c event = carries_on

-- The frame at a time; one that starts a group is a keyframe.
abbrev item_at : Bool → ℕ → VideoItem
item_at keyframe at = record {
  frame = record { keyframe = keyframe; width = 640; height = 360; codec = h264; bytes = [] };
  timestamp = at;
  config = record { codec = h264; width = pos 640; height = pos 360 };
}

-- A queue of one frame: 2 and 3 arrive while the sink is paused and are lost with 4, and 5 is a keyframe.
abbrev sent_there : List TimedFrame
sent_there =
    video (item_at true 1)
    ∷ video (item_at false 2)
    ∷ video (item_at false 3)
    ∷ video (item_at false 4)
    ∷ video (item_at true 5)
    ∷ []

abbrev behind : Consumer
behind = deliver_video calm 1 (item_at true 5) (
    resume calm 1 (
      deliver_video calm 1 (item_at false 4) (
        deliver_video calm 1 (item_at false 3) (
          deliver_video calm 1 (item_at false 2)
            (pause (deliver_video calm 1 (item_at true 1) new_consumer))))))

behind-Run : Run calm 1 sent_there behind
behind-Run = video_sent (item_at true 5) (
    resumed (
      video_sent (item_at false 4) (
        video_sent (item_at false 3)
          (video_sent (item_at false 2) (paused (video_sent (item_at true 1) fresh))))))

-- What it was handed: the keyframes.
behind_media : media_of behind.heard ≡ video (item_at true 1) ∷ video (item_at true 5) ∷ []
unfolding media_of deliver_video resume pause flush drain accept drop_backlog_past_bound emit
    announce react same_config same_number new_consumer same_codec
behind_media = refl

Run-IsThinned_example :
    IsThinned (phase_of behind) sent_there (media_of behind.heard ++ behind.queue)
Run-IsThinned_example = Run-IsThinned calm 1 behind-Run

Run-IsBounded_example : length behind.queue ≤ 1
Run-IsBounded_example = Run-IsBounded calm 1 behind-Run

Run-IsAnnounced_example : IsAnnounced none behind.heard
Run-IsAnnounced_example = Run-IsAnnounced calm 1 behind-Run
