-- ===== src/LiveSource/Inv/Calls.antt =====
-- The calls and timers of `SharedLiveSource` in src/transport/p2p/shared-live-source.ts keep its
-- invariant.
use eufy_sdk.Prelude.{
  ℕ, ◌+◌, ◌≡◌, refl, sym, ◌∙◌, subst, Bool, true, false, not, ◌||◌, [], ◌∷◌, ◌++◌, Option, none,
  some, length, ◌==◌, arith,
}
use eufy_sdk.LiveConsumer.{choose, Event, Reaction, Consumer}
use eufy_sdk.LiveSource.Calls.{
  nudge_reused, watch_reused_stream, end_linger, primed, join, attach_consumer,
  on_start_unacknowledged, rewarm, on_warm_timeout,
}
use eufy_sdk.LiveSource.{
  ended, on_session_unreachable, Source, Options, is_some, is_lingering, is_warming, open_stream,
  warm, start_retry, stop_stream,
}
use eufy_sdk.LiveSource.Inv.{
  is_running, is_active, is_idle, is_started, is_ended, is_failure, is_lonely, IsBalanced, Shape,
  Inv, Shape-of, active_balance, started_balance, ended_balance, other_balance,
}
use eufy_sdk.LiveSource.Inv.{insert_busy, length-lonely}
use eufy_sdk.LiveSource.Inv.Teardown.{teardown_of}
use eufy_sdk.LiveSource.Inv.Steps.{warm-Inv, timed-Shape, all-Inv, nudged-balance}

module _ (sink : Consumer → Event → Reaction) (opts : Options) where
  nudge_reused-Inv :
      (stream : Option ℕ) (s : Source) → Inv s → Inv (nudge_reused sink opts stream s)
  nudge_reused-Inv none s v = v
  nudge_reused-Inv (some id) s v =
      choose Inv opts.nudges _ s
        (λ _. record {
          shape = v.shape;
          balance = nudged-balance sink opts id _ _ _ s.done v.balance;
        })
        (λ _. v)

  watch_reused_stream-Inv :
      (s : Source) → is_some s.stream ≡ true → Inv s → Inv (watch_reused_stream sink opts s)
  unfolding watch_reused_stream
  watch_reused_stream-Inv s pulled v =
      choose Inv (s.deadline || s.retry) s _ (λ _. v)
        (λ _.
          nudge_reused-Inv s.stream _ (record {
            shape = timed-Shape _ _ _ _ _ _ _ (λ _. pulled) v.shape;
            balance = v.balance;
          }))

  -- A source with a new consumer, as far as it does not yet need a stream.
  record IsJoined (s : Source) : Type 0 where
    busy : is_lonely s.consumers ≡ false
    there : s.disposed ≡ false
    lingers : s.linger ≡ is_lingering s.state
    pulled : is_some s.stream ≡ true → (is_running s.state || is_lingering s.state) ≡ true
    timed : (s.retry || s.deadline || s.budget_timer || s.grace) ≡ true → is_some s.stream ≡ true
    balance : IsBalanced (is_some s.stream) (is_lonely s.consumers) s.done

  join-IsJoined :
      (id : ℕ) (c : Consumer) (s : Source)
      → s.disposed ≡ false
      → Inv s
      → IsJoined (join sink opts id c s)
  unfolding join
  join-IsJoined id c s there v =
      let busy = insert_busy id c s.consumers in
      choose IsJoined (length s.consumers == 0) _ _
        (λ e. record {
          busy = busy;
          there = there;
          lingers = v.shape.lingers;
          pulled = v.shape.pulled;
          timed = v.shape.timed;
          balance = rw busy (
              active_balance (is_some s.stream) true s.done (
                subst (λ b. IsBalanced (is_some s.stream) b s.done)
                  (sym (length-lonely s.consumers) ∙ e) v.balance));
        })
        (λ e. record {
          busy = busy;
          there = there;
          lingers = v.shape.lingers;
          pulled = v.shape.pulled;
          timed = v.shape.timed;
          balance = rw busy (
              subst (λ b. IsBalanced (is_some s.stream) b s.done)
                (sym (length-lonely s.consumers) ∙ e) v.balance);
        })

  -- The same when the linger is over.
  record IsReady (s : Source) : Type 0 where
    joined : IsJoined s
    calm : s.linger ≡ false

  end_linger-IsReady : (s : Source) → IsJoined s → IsReady (end_linger sink opts s)
  unfolding end_linger
  end_linger-IsReady s j =
      choose IsReady s.linger _ s
        (λ e. record {
          joined = record {
            busy = j.busy;
            there = j.there;
            lingers = ground arith;
            pulled = unfold is_running in ground (arith, e, j.lingers);
            timed = j.timed;
            balance = j.balance;
          };
          calm = refl;
        })
        (λ e. record { joined = j; calm = e })

  ready-Inv : (s : Source) → is_some s.stream ≡ true → IsReady s → Inv s
  ready-Inv s pulled r = record {
    shape = Shape-of _ _ _ _ _ _ (
        unfold is_running in
        ground (
          arith, pulled, r.calm, r.joined.busy, r.joined.there, r.joined.lingers, r.joined.pulled,
        ));
    balance = r.joined.balance;
  }

  pub attach_consumer-Inv :
      (with_prime : Bool) (s : Source) → Inv s → Inv (attach_consumer sink opts with_prime s).1
  unfolding attach_consumer
  attach_consumer-Inv with_prime s v =
      let joined = join sink opts s.fresh (primed sink opts with_prime s.last_keyframe) s in
      let ready = end_linger sink opts joined in
      choose {A = Option ℕ × Source} (λ r. Inv r.1) s.disposed (none, s) _ (λ _. v)
        (λ e.
          let r = end_linger-IsReady joined (join-IsJoined s.fresh _ s e v) in
          choose Inv (is_some ready.stream) (watch_reused_stream sink opts ready) (warm ready)
            (λ pulled. watch_reused_stream-Inv ready pulled (ready-Inv ready pulled r))
            (λ cold. warm-Inv ready cold r.joined.busy r.calm r.joined.there r.joined.balance))

  pub on_start_unacknowledged-Inv : (s : Source) → Inv s → Inv (on_start_unacknowledged sink opts s)
  unfolding on_start_unacknowledged
  on_start_unacknowledged-Inv s v =
      choose Inv (s.disposed || s.asked) s _ (λ _. v)
        (λ _.
          choose Inv (s.video_seen || s.audio_seen || s.keyframe_seen) s _ (λ _. v)
            (λ _.
              choose Inv opts.replaces _ s
                (λ _. record {
                  shape =
                      timed-Shape _ _ _ _ _ _ _ (λ h. v.shape.timed (ground (arith, h))) v.shape;
                  balance =
                      other_balance _ _ s.done on_session_unreachable
                        (unfold is_active is_idle is_started is_ended is_failure in refl) v.balance;
                })
                (λ _. v)))

  reopened-Inv :
      (stream : Option ℕ) (s : Source)
      → is_warming s.state ≡ true
      → Shape
          (is_some stream)
          (is_lonely s.consumers)
          s.linger
          s.state
          s.disposed
          (s.retry || s.deadline || s.budget_timer || s.grace)
      → IsBalanced (is_some stream) (is_lonely s.consumers) s.done
      → let s' = open_stream (stop_stream stream s) in
        Inv (start_retry (record s' { attempts = s'.attempts + 1 }))
  unfolding open_stream
  reopened-Inv none s w v b = absurd (unfold is_running in ground (arith, w, v.running))
  reopened-Inv (some id) s w v b = record {
    shape = Shape-of _ _ _ _ _ _ (
        unfold is_running in
        ground (arith, w, v.running, v.lingers, v.unattended, v.pulled, v.retired));
    balance =
        started_balance true (is_lonely s.consumers) (s.done ++ (ended id ∷ [])) s.fresh
          (ended_balance true (is_lonely s.consumers) s.done id b);
  }

  pub rewarm-Inv : (s : Source) → Inv s → Inv (rewarm sink opts s)
  unfolding rewarm
  rewarm-Inv s v =
      choose Inv (s.disposed || not s.asked || not (is_warming s.state)) s _ (λ _. v)
        (λ e.
          reopened-Inv s.stream (record s { stream = none; fruitless = 0 }) (ground (arith, e))
            v.shape v.balance)

  pub on_warm_timeout-Inv : (s : Source) → Inv s → Inv (on_warm_timeout sink opts s)
  unfolding on_warm_timeout
  on_warm_timeout-Inv s v =
      let s' : Source = record s { deadline = false } in
      let v' : Inv s' = record {
        shape = timed-Shape _ _ _ _ _ _ _ (λ h. v.shape.timed (ground (arith, h))) v.shape;
        balance = v.balance;
      } in
      choose Inv (s'.disposed || not (is_some s'.stream)) s' _ (λ _. v')
        (λ _. teardown_of true _ (all-Inv sink opts _ s' v'))
