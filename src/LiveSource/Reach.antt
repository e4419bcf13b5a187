-- ===== src/LiveSource/Reach.antt =====
-- Every history of `SharedLiveSource` in src/transport/p2p/shared-live-source.ts: its calls, those of its
-- consumers, the stream's events and the timers that are pending, in any order.
use eufy_sdk.Prelude.{ℕ, ◌<◌, ◌≡◌, ◌⊎◌, true, false}
use eufy_sdk.LiveConsumer.{
  Event, Reaction, Consumer, VideoFrame, VideoItem, detach, pause, resume, listen_video,
  listen_errors, replay,
}
use eufy_sdk.LiveSource.Calls.{
  attach, attach_with_prebuffer, reissue_start, on_start_unacknowledged, rewarm, on_warm_timeout,
  on_linger_expire, on_budget_expire, on_grace_expire, extend_budget, on_video, on_audio,
  on_upstream_end, on_upstream_error, dispose,
}
use eufy_sdk.LiveSource.{Source, Options, new_source, on_consumer}
use eufy_sdk.LiveSource.Inv.{Inv, new_source-Inv, on_consumer-Inv}
use eufy_sdk.LiveSource.Inv.Steps.{reissue_start-Inv, on_video-Inv, on_audio-Inv}
use eufy_sdk.LiveSource.Inv.Calls.{
  attach_consumer-Inv, on_start_unacknowledged-Inv, rewarm-Inv, on_warm_timeout-Inv,
}
use eufy_sdk.LiveSource.Inv.Expiries.{
  on_linger_expire-Inv, on_budget_expire-Inv, on_grace_expire-Inv, extend_budget-Inv,
  on_upstream_end-Inv, on_upstream_error-Inv,
}
use eufy_sdk.LiveSource.Inv.Dispose.{dispose-Inv}
use eufy_sdk.LiveSource.Inv.Streams.{Pulls, new_source-Pulls, on_consumer-Pulls, teardown-Pulls}
use eufy_sdk.LiveSource.Inv.Pulls.{
  attach_consumer-Pulls, reissue_start-Pulls, on_warm_timeout-Pulls, on_budget_expire-Pulls,
  on_grace_expire-Pulls, extend_budget-Pulls, on_start_unacknowledged-Pulls, rewarm-Pulls,
  on_video-Pulls, on_audio-Pulls, on_upstream_end-Pulls, on_upstream_error-Pulls, dispose-Pulls,
}

-- What a host calls on a consumer, and the microtask of its primed keyframe.
pub data Call : Type 0 where
  detaches pauses resumes listens_video listens_errors : Call
  replays : VideoItem → Call

module _ (sink : Consumer → Event → Reaction) (opts : Options) where
  unfoldable pub call : Call → Consumer → Consumer
  call detaches c = detach c
  call pauses c = pause c
  call resumes c = resume sink opts.max_queue c
  call listens_video c = listen_video c
  call listens_errors c = listen_errors c
  call (replays item) c = replay sink opts.max_queue item c

  pub data Step (s : Source) : Source → Type 0 where
    attaches : Step s (attach sink opts s).1
    attaches_with_prebuffer :
        (now duration_ms : ℕ) → Step s (attach_with_prebuffer sink opts now duration_ms s).1
    calls : (c : Call) (id : ℕ) → Step s (on_consumer (call c) id s)
    retries : (s.retry ≡ true) ⊎ (0 < s.leaked) → Step s (reissue_start sink opts s)
    warm_times_out : s.deadline ≡ true → Step s (on_warm_timeout sink opts s)
    linger_expires : s.linger ≡ true → Step s (on_linger_expire sink opts s)
    budget_expires : s.budget_timer ≡ true → Step s (on_budget_expire sink opts s)
    grace_expires : s.grace ≡ true → Step s (on_grace_expire sink opts s)
    extends : Step s (extend_budget sink opts s)
    unacknowledged : Step s (on_start_unacknowledged sink opts s)
    rewarms : Step s (rewarm sink opts s)
    shows : (now : ℕ) (frame : VideoFrame) → Step s (on_video sink opts now frame s)
    sounds : (now frame : ℕ) → Step s (on_audio sink opts now frame s)
    upstream_ends : Step s (on_upstream_end sink opts s)
    upstream_fails : (error : ℕ) → Step s (on_upstream_error sink opts error s)
    disposes : Step s (dispose sink opts s)

  pub data Reach : Source → Type 0 where
    here : Reach new_source
    next : {s t : Source} → Reach s → Step s t → Reach t

  Step-Inv : {s t : Source} → Step s t → Inv s → Inv t
  unfolding attach attach_with_prebuffer
  Step-Inv {s} attaches v = attach_consumer-Inv sink opts true s v
  Step-Inv {s} (attaches_with_prebuffer now n) v = attach_consumer-Inv sink opts false s v
  Step-Inv {s} (calls c id) v = on_consumer-Inv (call c) id s v
  Step-Inv {s} (retries _) v = reissue_start-Inv sink opts s v
  Step-Inv {s} (warm_times_out _) v = on_warm_timeout-Inv sink opts s v
  Step-Inv {s} (linger_expires _) v = on_linger_expire-Inv sink opts s v
  Step-Inv {s} (budget_expires _) v = on_budget_expire-Inv sink opts s v
  Step-Inv {s} (grace_expires _) v = on_grace_expire-Inv sink opts s v
  Step-Inv {s} extends v = extend_budget-Inv sink opts s v
  Step-Inv {s} unacknowledged v = on_start_unacknowledged-Inv sink opts s v
  Step-Inv {s} rewarms v = rewarm-Inv sink opts s v
  Step-Inv {s} (shows now frame) v = on_video-Inv sink opts now frame s v
  Step-Inv {s} (sounds now frame) v = on_audio-Inv sink opts now frame s v
  Step-Inv {s} upstream_ends v = on_upstream_end-Inv sink opts s v
  Step-Inv {s} (upstream_fails e) v = on_upstream_error-Inv sink opts e s v
  Step-Inv {s} disposes v = dispose-Inv sink opts s v

  Step-Pulls : {s t : Source} → Step s t → Pulls s → Pulls t
  unfolding attach attach_with_prebuffer on_linger_expire
  Step-Pulls {s} attaches v = attach_consumer-Pulls sink opts true s v
  Step-Pulls {s} (attaches_with_prebuffer now n) v = attach_consumer-Pulls sink opts false s v
  Step-Pulls {s} (calls c id) v = on_consumer-Pulls (call c) id s v
  Step-Pulls {s} (retries _) v = reissue_start-Pulls sink opts s v
  Step-Pulls {s} (warm_times_out _) v = on_warm_timeout-Pulls sink opts s v
  Step-Pulls {s} (linger_expires _) v = teardown-Pulls true (record s { linger = false }) v
  Step-Pulls {s} (budget_expires _) v = on_budget_expire-Pulls sink opts s v
  Step-Pulls {s} (grace_expires _) v = on_grace_expire-Pulls sink opts s v
  Step-Pulls {s} extends v = extend_budget-Pulls sink opts s v
  Step-Pulls {s} unacknowledged v = on_start_unacknowledged-Pulls sink opts s v
  Step-Pulls {s} rewarms v = rewarm-Pulls sink opts s v
  Step-Pulls {s} (shows now frame) v = on_video-Pulls sink opts now frame s v
  Step-Pulls {s} (sounds now frame) v = on_audio-Pulls sink opts now frame s v
  Step-Pulls {s} upstream_ends v = on_upstream_end-Pulls sink opts s v
  Step-Pulls {s} (upstream_fails e) v = on_upstream_error-Pulls sink opts e s v
  Step-Pulls {s} disposes v = dispose-Pulls sink opts s v

  lives : {s : Source} → Reach s → Inv s × Pulls s
  lives here = (new_source-Inv, new_source-Pulls)
  lives (next r step) = let (v, w) = lives r in (Step-Inv step v, Step-Pulls step w)

  -- In every reachable state: a source that is warming or live has a stream and a consumer; the linger
  -- timer is pending exactly in the lingering state, in which there is no consumer; a stream is there
  -- only in those three states; a timer of the stream that the source has the handle of is pending only
  -- while the stream is there; a source that is disposed has neither a consumer nor a stream. Its owner
  -- was told of a first consumer as often as of the last's leave, and once more where there is a
  -- consumer; and at most one failed start was reported for each stream that is gone. The streams were
  -- started under ever new numbers, each when none ran, and a stop went only to the stream that ran; the
  -- one left running by all these starts and stops is the source's current stream.
  pub Reach-Inv_live : {s : Source} → Reach s → Inv s × Pulls s
  Reach-Inv_live r = lives r
