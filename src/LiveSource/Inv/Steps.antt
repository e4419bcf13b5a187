-- ===== src/LiveSource/Inv/Steps.antt =====
-- The operations of `SharedLiveSource` in src/transport/p2p/shared-live-source.ts keep its invariant.
use eufy_sdk.Prelude.{
  ℕ, ◌≡◌, refl, subst, Bool, true, false, ◌||◌, List, [], ◌∷◌, ◌++◌, Option, none, some, map,
  if◌then◌else◌, arith,
}
use eufy_sdk.SessionManager.{wired, battery, PowerTier}
use eufy_sdk.LiveConsumer.{choose, Event, Reaction, Consumer, VideoFrame, VideoItem}
use eufy_sdk.LiveSource.Calls.{
  start_budget, reissue, reissue_start, on_keyframe, on_video, on_audio, push_ring, with_param_sets,
  config_of,
}
use eufy_sdk.LiveSource.{
  LiveState, idle, warming, live, lingering, stopped, Action, nudged, Source, Options, is_some,
  is_warming, open_stream, warm, settle_reuse_watch, clear_warm_watch, all_consumers,
}
use eufy_sdk.LiveSource.Inv.{
  is_running, is_active, is_idle, is_started, is_ended, is_failure, is_lonely, IsBalanced, Shape,
  Inv, Shape-of, started_balance, other_balance, each_consumer-Inv,
}

pub warm-Inv :
    (s : Source)
    → is_some s.stream ≡ false
    → is_lonely s.consumers ≡ false
    → s.linger ≡ false
    → s.disposed ≡ false
    → IsBalanced (is_some s.stream) (is_lonely s.consumers) s.done
    → Inv (warm s)
unfolding warm open_stream
warm-Inv s none_yet busy calm there b = record {
  shape = Shape-of _ _ _ _ _ _ (unfold is_running in ground (arith, busy, calm, there));
  balance =
      started_balance true (is_lonely s.consumers) s.done s.fresh
        (subst (λ st. IsBalanced st (is_lonely s.consumers) s.done) none_yet b);
}

-- A warming source becomes live; timers run with a stream only.
live-Shape :
    (stream lonely linger : Bool) (state : LiveState) (disposed timers timers' : Bool)
    → (timers' ≡ true → stream ≡ true)
    → Shape stream lonely linger state disposed timers
    → Shape stream lonely linger (if is_warming state then live else state) disposed timers'
unfolding is_running
live-Shape st lo li idle d t t' h v =
    Shape-of _ _ _ _ _ _ (v.running, v.lingers, v.unattended, v.pulled, h, v.retired)
live-Shape st lo li warming d t t' h v =
    Shape-of _ _ _ _ _ _ (v.running, v.lingers, v.unattended, v.pulled, h, v.retired)
live-Shape st lo li live d t t' h v =
    Shape-of _ _ _ _ _ _ (v.running, v.lingers, v.unattended, v.pulled, h, v.retired)
live-Shape st lo li lingering d t t' h v =
    Shape-of _ _ _ _ _ _ (v.running, v.lingers, v.unattended, v.pulled, h, v.retired)
live-Shape st lo li stopped d t t' h v =
    Shape-of _ _ _ _ _ _ (v.running, v.lingers, v.unattended, v.pulled, h, v.retired)

pub timed-Shape :
    (stream lonely linger : Bool) (state : LiveState) (disposed timers timers' : Bool)
    → (timers' ≡ true → stream ≡ true)
    → Shape stream lonely linger state disposed timers
    → Shape stream lonely linger state disposed timers'
timed-Shape st lo li state d t t' h v = record {
  running = v.running;
  lingers = v.lingers;
  unattended = v.unattended;
  pulled = v.pulled;
  timed = h;
  retired = v.retired;
}

pub settle_reuse_watch-Inv : (s : Source) → Inv s → Inv (settle_reuse_watch s)
unfolding settle_reuse_watch
settle_reuse_watch-Inv s v =
    choose Inv s.reuse
      (clear_warm_watch
        (record s { reuse = false; state = if is_warming s.state then live else s.state }))
      s
      (λ _. record {
        shape = live-Shape _ _ _ s.state _ _ _ (λ h. v.shape.timed (ground (arith, h))) v.shape;
        balance = v.balance;
      })
      (λ _. v)

module _ (sink : Consumer → Event → Reaction) (opts : Options) where
  -- A nudge changes nothing that the invariant speaks of.
  pub nudged-balance :
      (id : ℕ) (real : Bool) (stream lonely : Bool) (done : List Action)
      → IsBalanced stream lonely done
      → IsBalanced stream lonely (done ++ (nudged id real ∷ []))
  nudged-balance id real st lo done b =
      other_balance st lo done (nudged id real)
        (unfold is_active is_idle is_started is_ended is_failure in refl) b

  reissue-Inv : (stream : Option ℕ) (s : Source) → Inv s → Inv (reissue sink opts stream s)
  reissue-Inv none s v = v
  reissue-Inv (some id) s v =
      choose Inv opts.nudges _ s
        (λ _. record { shape = v.shape; balance = nudged-balance id _ _ _ s.done v.balance })
        (λ _. v)

  pub reissue_start-Inv : (s : Source) → Inv s → Inv (reissue_start sink opts s)
  unfolding reissue_start
  reissue_start-Inv s v = reissue-Inv s.stream s v

  start_budget-Inv :
      (p : PowerTier) (s : Source)
      → is_some s.stream ≡ true
      → Inv s
      → Inv (start_budget sink opts p s)
  start_budget-Inv wired s h v = v
  start_budget-Inv battery s h v = record {
    shape = timed-Shape _ _ _ _ _ _ _ (λ _. h) v.shape;
    balance = v.balance;
  }

  pub on_keyframe-Inv : (item : VideoItem) (s : Source) → Inv s → Inv (on_keyframe sink opts item s)
  unfolding on_keyframe
  on_keyframe-Inv item s v =
      let s' : Source = record s {
        last_keyframe = some item;
        keyframe_seen = true;
        state = if is_warming s.state then live else s.state;
      } in
      let still : Inv s' = record {
        shape = live-Shape _ _ _ s.state _ _ _ v.shape.timed v.shape;
        balance = v.balance;
      } in
      choose Inv (s.retry || s.deadline) (start_budget sink opts opts.powered (clear_warm_watch s'))
        s'
        (λ e.
          let pulled : is_some s.stream ≡ true = v.shape.timed (ground (arith, e)) in
          start_budget-Inv opts.powered (clear_warm_watch s') pulled (record {
            shape = timed-Shape _ _ _ _ _ _ _ (λ _. pulled) still.shape;
            balance = v.balance;
          }))
        (λ _. still)

  -- Something is done to all consumers.
  pub all-Inv : (f : Consumer → Consumer) (s : Source) → Inv s → Inv (all_consumers f s)
  all-Inv f s v = each_consumer-Inv f (map (λ p. p.0) s.consumers) s v

  pub on_video-Inv :
      (now : ℕ) (frame : VideoFrame) (s : Source) → Inv s → Inv (on_video sink opts now frame s)
  unfolding on_video push_ring
  on_video-Inv now frame s v =
      let seen : Source = record s { video_seen = true; fruitless = 0 } in
      let s1 = with_param_sets sink opts frame (settle_reuse_watch seen) in
      let v0 : Inv (settle_reuse_watch seen) =
        settle_reuse_watch-Inv seen (record { shape = v.shape; balance = v.balance }) in
      let v1 : Inv s1 = record { shape = v0.shape; balance = v0.balance } in
      let item : VideoItem = record {
        frame = frame;
        timestamp = now;
        config = config_of sink opts frame s1.param_sets;
      } in
      let s2 = if frame.keyframe then on_keyframe sink opts item s1 else s1 in
      let v2 : Inv s2 =
        choose Inv frame.keyframe (on_keyframe sink opts item s1) s1
          (λ _. on_keyframe-Inv item s1 v1) (λ _. v1) in
      all-Inv _ _ (record { shape = v2.shape; balance = v2.balance })

  pub on_audio-Inv : (now frame : ℕ) (s : Source) → Inv s → Inv (on_audio sink opts now frame s)
  unfolding on_audio push_ring
  on_audio-Inv now frame s v =
      let seen : Source = record s { audio_seen = true; fruitless = 0 } in
      let v1 : Inv (settle_reuse_watch seen) =
        settle_reuse_watch-Inv seen (record { shape = v.shape; balance = v.balance }) in
      all-Inv _ _ (record { shape = v1.shape; balance = v1.balance })
