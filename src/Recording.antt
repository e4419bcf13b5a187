-- ===== src/Recording.antt =====
-- The class `FragmentRecording` of src/transport/p2p/fragment-recording.ts. The muxer of
-- src/transport/p2p/fmp4.ts is an argument. What the recording asks of its consumer is the list
-- `calls`; a fragment has any type, and an error and a notice are numbers.
pub mod Muxing
pub mod Effects
pub mod Faithful
pub mod Run
mod Tests
use eufy_sdk.Prelude.{
  ℕ, Bool, true, false, not, ◌&&◌, List, [], ◌∷◌, ◌++◌, Option, none, some, length, ltb, leb,
  if◌then◌else◌,
}
use eufy_sdk.LiveConsumer.{TimedFrame}

-- What the muxer makes of a frame, or of its tail: perhaps a fragment, or it throws.
pub data Muxed (F : Type 0) : Type 0 where
  made : Option F → Muxed F
  threw : ℕ → Muxed F

-- `push` and `pushAudio` by the kind of the frame, and `flush`, with the muxer after the call.
pub record Muxer (M F : Type 0) : Type 0 where
  pub push : TimedFrame → M → Muxed F × M
  pub flush : M → Muxed F × M

pub max_pending_fragments : ℕ
max_pending_fragments = 8

pub data ConsumerCall : Type 0 where
  pauses resumes detaches : ConsumerCall

-- `attached` says whether there is a consumer, `ready` whether `attach` has settled, `waiting` whether
-- there is a `wake`, and `finished` whether the iteration is over.
pub record Recording (M F : Type 0) : Type 0 where
  pub mux : M
  pub queue : List F
  pub attached : Bool
  pub waiting : Bool
  pub failure : Option ℕ
  pub ended : Bool
  pub iterated : Bool
  pub held : Bool
  pub ready : Bool
  pub finished : Bool
  pub calls : List ConsumerCall
  pub notices : List ℕ

-- What a source gives for `attachWithPrebuffer`: the buffered frames, or an error.
pub data Answer : Type 0 where
  gives : List TimedFrame → Answer
  refuses : ℕ → Answer

-- What the owner's `next` comes to.
pub data Pulled (F : Type 0) : Type 0 where
  yields : F → Pulled F
  throws : ℕ → Pulled F
  returns waits : Pulled F

pub to_list : {F : Type 0} → Option F → List F
to_list none = []
to_list (some f) = f ∷ []

module _ {M F : Type 0} where
  pub new_recording : M → Recording M F
  new_recording m = record {
    mux = m;
    queue = [];
    attached = false;
    waiting = false;
    failure = none;
    ended = false;
    iterated = false;
    held = false;
    ready = false;
    finished = false;
    calls = [];
    notices = [];
  }

  -- `this.consumer?.…`.
  pub ask : ConsumerCall → Recording M F → Recording M F
  ask call r = if r.attached then record r { calls = r.calls ++ (call ∷ []) } else r

  pub nudge : Recording M F → Recording M F
  nudge r = record r { waiting = false }

  pub fail : ℕ → Recording M F → Recording M F
  fail error r =
      if r.ended then r else nudge (ask detaches (record r { failure = some error; ended = true }))

  pub hold : Recording M F → Recording M F
  hold r =
      if not r.held && leb max_pending_fragments (length r.queue)
      then ask pauses (record r { held = true })
      else r

  -- The `try` of `ingest`, from the muxer's answer.
  pub with_muxed : Muxed F × M → Recording M F → Recording M F
  with_muxed (made fragment, m) r =
      nudge (hold (record r { mux = m; queue = r.queue ++ to_list fragment }))
  with_muxed (threw error, m) r = fail error (record r { mux = m })

  pub release : Recording M F → Recording M F
  release r =
      if r.held && ltb (length r.queue) max_pending_fragments
      then ask resumes (record r { held = false })
      else r

  -- `take`, on the queue without its first fragment.
  pub take : List F → Recording M F → Recording M F
  take rest r = release (record r { queue = rest })

  -- The first call of `next`, up to the wait for `ready`; false for a second iteration.
  pub iterate : Recording M F → Bool × Recording M F
  iterate r = if r.iterated then (false, r) else (true, record r { iterated = true })

  pub on_budget : ℕ → Recording M F → Recording M F
  on_budget notice r = record r { notices = r.notices ++ (notice ∷ []) }

module _ {M F : Type 0} (muxer : Muxer M F) where
  pub ingest : TimedFrame → Recording M F → Recording M F
  ingest item r = if r.ended then r else with_muxed (muxer.push item r.mux) r

  pub ingest_all : List TimedFrame → Recording M F → Recording M F
  ingest_all [] r = r
  ingest_all (item ∷ rest) r = ingest_all rest (ingest item r)

  -- A `flush` that throws leaves the recording on.
  pub with_tail : Muxed F × M → Recording M F → Recording M F
  with_tail (made tail, m) r =
      nudge (ask detaches (record r { mux = m; queue = r.queue ++ to_list tail; ended = true }))
  with_tail (threw error, m) r = record r { mux = m }

  pub stop : Recording M F → Recording M F
  stop r = if r.ended then r else with_tail (muxer.flush r.mux) r

  -- `attach` once the source is there.
  pub on_source : Answer → Recording M F → Recording M F
  on_source (gives buffered) r =
      if r.ended
      then record r { ready = true }
      else ingest_all buffered (record r { attached = true; ready = true })
  on_source (refuses error) r = fail error (record r { ready = true })

  -- A round of the loop of the iterator with nothing queued, by the failure; and any round, by the queue.
  pub on_empty : Option ℕ → Recording M F → Pulled F × Recording M F
  on_empty (some error) r = (throws error, stop (record r { finished = true }))
  on_empty none r =
      if r.ended
      then (returns, stop (record r { finished = true }))
      else (waits, record r { waiting = true })

  pub from_queue : List F → Recording M F → Pulled F × Recording M F
  from_queue [] r = on_empty r.failure r
  from_queue (fragment ∷ rest) r = (yields fragment, take rest r)

  pub pull : Recording M F → Pulled F × Recording M F
  pull r =
      if r.finished then (returns, r) else if not r.ready then (waits, r) else from_queue r.queue r

  -- The owner leaves the iteration.
  pub leave : Recording M F → Recording M F
  leave r = stop (record r { finished = true })
