-- ===== src/LiveSource/Tests.antt =====
-- src/transport/p2p/shared-live-source.ts: a source on battery, from its first consumer to its linger.
use eufy_sdk.Prelude.{ℕ, ◌≤◌, ◌≡◌, refl, Bool, true, false, List, [], ◌∷◌, All, arith}
use eufy_sdk.KeyMap.{lookup, insert, delete}
use eufy_sdk.MapPixels.{pos}
use eufy_sdk.SessionManager.{battery}
use eufy_sdk.Annexb.{h264}
use eufy_sdk.LiveConsumer.{
  TimedFrame, video, audio, Event, Reaction, carries_on, Consumer, new_consumer, is_keyframe, end,
  react,
}
use eufy_sdk.LiveSource.Calls.{
  attach, attach_consumer, join, end_linger, on_start_unacknowledged, rewarm, dispose,
}
use eufy_sdk.LiveSource.{
  Source, Options, new_source, release_stream, teardown, each_consumer, warm, open_stream, time_of,
  on_consumer, settle, on_detach, drained,
}
use eufy_sdk.LiveSource.Inv.{Inv}
use eufy_sdk.LiveSource.Inv.Streams.{Pulls}
use eufy_sdk.LiveSource.Reach.{
  Reach, here, next, attaches, calls, unacknowledged, rewarms, disposes, detaches, call,
  Reach-Inv_live,
}
use eufy_sdk.LiveSource.Window.{
  IsOrdered, run_of, from_newest, from_oldest, is_early, drained-run_of,
}
use eufy_sdk.LiveSource.Window.Retention.{pushed, drained-pushed}

abbrev calm : Consumer → Event → Reaction
calm c event = carries_on

abbrev opts : Options
opts = record {
  max_queue = 900;
  pre_buffer_ms = 10;
  powered = battery;
  nudges = true;
  replaces = false;
  grace_ms = 10000;
  start_error = λ reason stage attempts. attempts;
}

abbrev left_alone : Source
left_alone = on_consumer (call calm opts detaches) 0 (attach calm opts new_source).1

left_alone_reached : Reach calm opts left_alone
left_alone_reached = next (next here attaches) (calls detaches 0)

Reach-Inv_live_example : Inv left_alone × Pulls left_alone
Reach-Inv_live_example = Reach-Inv_live calm opts left_alone_reached

-- A second `rewarm` overwrites the handle of the first one's interval, which then outlives the source.
abbrev replacing : Options
replacing = record opts { replaces = true }

abbrev rewarmed_twice : Source
rewarmed_twice = rewarm calm replacing (
    rewarm calm replacing
      (on_start_unacknowledged calm replacing (attach calm replacing new_source).1))

rewarmed_twice_reached : Reach calm replacing (dispose calm replacing rewarmed_twice)
rewarmed_twice_reached =
    next (next (next (next (next here attaches) unacknowledged) rewarms) rewarms) disposes

one_leaked : (dispose calm replacing rewarmed_twice).leaked ≡ 1
unfolding attach attach_consumer join end_linger warm open_stream on_start_unacknowledged rewarm
    dispose teardown release_stream each_consumer on_consumer settle on_detach end react new_source
    new_consumer lookup insert delete
one_leaked = refl

-- The frame at a time, every tenth of them a keyframe.
abbrev item_at : Bool → ℕ → TimedFrame
item_at keyframe at = video (record {
  frame = record { keyframe = keyframe; width = 640; height = 360; codec = h264; bytes = [] };
  timestamp = at;
  config = record { codec = h264; width = pos 640; height = pos 360 };
})

abbrev some_history : List TimedFrame
some_history =
    item_at true 10
    ∷ audio 7 15
    ∷ item_at true 20
    ∷ item_at false 25
    ∷ item_at true 30
    ∷ item_at false 35
    ∷ []

some_history-IsOrdered : IsOrdered some_history
unfolding IsOrdered
some_history-IsOrdered = (
  (omega arith, (omega arith, (omega arith, (omega arith, (omega arith, tt))))),
  (
    (omega arith, (omega arith, (omega arith, (omega arith, tt)))),
    (
      (omega arith, (omega arith, (omega arith, tt))),
      ((omega arith, (omega arith, tt)), ((omega arith, tt), (tt, tt))),
    ),
  ),
)

some_history_past : All (λ y. time_of y ≤ 36) some_history
some_history_past =
    (omega arith, (omega arith, (omega arith, (omega arith, (omega arith, (omega arith, tt))))))

-- The last eight milliseconds start at 28, in the group of the keyframe at 20.
drained-run_of_example : drained 36 8 some_history ≡ run_of 36 8 some_history
drained-run_of_example = drained-run_of 36 8 some_history some_history-IsOrdered

run_here :
    run_of 36 8 some_history
    ≡ item_at true 20 ∷ item_at false 25 ∷ item_at true 30 ∷ item_at false 35 ∷ []
unfolding run_of from_newest from_oldest is_early is_keyframe
run_here = refl

drained-pushed_example : drained 36 8 (pushed 10 [] some_history) ≡ drained 36 8 some_history
drained-pushed_example =
    drained-pushed 10 36 8 some_history refl some_history-IsOrdered some_history_past (omega arith)
