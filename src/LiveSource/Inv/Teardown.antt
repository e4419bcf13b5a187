-- ===== src/LiveSource/Inv/Teardown.antt =====
-- `teardown` of `SharedLiveSource` in src/transport/p2p/shared-live-source.ts keeps its invariant.
use eufy_sdk.Prelude.{
  ℕ, ◌+◌, ◌≤◌, ◌≡◌, refl, ap, Bool, true, false, not, ◌&&◌, ◌||◌, List, [], Option, none, some,
  arith, sym, ◌++◌, ◌∷◌, append-nil, Bool-cases, inl, inr, if◌then◌else◌,
}
use eufy_sdk.LiveConsumer.{choose}
use eufy_sdk.LiveSource.{
  stopped, Action, ended, on_start_failed, Source, act, is_some, release_stream, teardown,
  clear_warm_watch, clear_budget, stop_stream,
}
use eufy_sdk.LiveSource.Inv.{
  is_running, count, count-snoc, is_started, is_failure, is_lonely, IsBalanced, Shape, Inv,
  Shape-of, ended_balance, failed_balance,
}

-- The stop of a stream that is dropped leaves room for one failure.
pub record IsReleased (stream lonely : Bool) (done : List Action) : Type 0 where
  pub balance : IsBalanced false lonely done
  pub room : stream ≡ true → count is_failure done + 1 ≤ count is_started done

pub stop_stream-IsReleased :
    (stream : Option ℕ) (lonely : Bool) (s : Source)
    → IsBalanced (is_some stream) lonely s.done
    → IsReleased (is_some stream) lonely (stop_stream stream s).done
stop_stream-IsReleased none lonely s b = record {
  balance = b;
  room = λ h. absurd (ground (arith, h));
}
stop_stream-IsReleased (some id) lonely s b = record {
  balance = ended_balance (is_some (some id)) lonely s.done id b;
  room = λ _.
      unfold is_failure is_started in
      omega (
        arith,
        count-snoc is_failure (ended id) s.done,
        count-snoc is_started (ended id) s.done,
        b.failures,
      );
}

stop_stream_rest :
    (stream : Option ℕ) (s : Source)
    → s.stream ≡ none
    → s.linger ≡ false
    → (s.retry || s.deadline || s.budget_timer || s.grace) ≡ false
    → (s.disposed ≡ true → is_lonely s.consumers ≡ true)
    → let s' = record (stop_stream stream s) { state = stopped } in
      Shape
        (is_some s'.stream)
        (is_lonely s'.consumers)
        s'.linger
        s'.state
        s'.disposed
        (s'.retry || s'.deadline || s'.budget_timer || s'.grace)
unfolding is_running
stop_stream_rest none s st li ti quiet =
    rw (st, li, ti) (Shape-of _ _ _ _ _ _ (ground (arith, quiet)))
stop_stream_rest (some id) s st li ti quiet =
    rw (st, li, ti) (Shape-of _ _ _ _ _ _ (ground (arith, quiet)))

-- What `teardown` leaves; `lonely` is what the owner was told last.
pub record IsTornDown (lonely : Bool) (s : Source) : Type 0 where
  pub shape :
      Shape
        (is_some s.stream)
        (is_lonely s.consumers)
        s.linger
        s.state
        s.disposed
        (s.retry || s.deadline || s.budget_timer || s.grace)
  pub no_stream : is_some s.stream ≡ false
  pub balance : IsBalanced false lonely s.done

stop_stream_fields :
    (stream : Option ℕ) (s : Source)
    → ((stop_stream stream s).stream ≡ s.stream) × ((stop_stream stream s).consumers ≡ s.consumers)
stop_stream_fields none s = (refl, refl)
stop_stream_fields (some id) s = (refl, refl)

pub teardown-consumers :
    (report : Bool) (s : Source) → (teardown stopped report s).consumers ≡ s.consumers
unfolding teardown release_stream
teardown-consumers report s =
    let before : Source = record (clear_budget (clear_warm_watch s)) {
      stream = none;
      linger = false;
    } in
    choose {A = Source} (λ x. x.consumers ≡ s.consumers)
      (is_some s.stream && not s.keyframe_seen && report) _ _
      (λ _. (stop_stream_fields s.stream before).1) (λ _. (stop_stream_fields s.stream before).1)

pub teardown-IsTornDown :
    (report lonely : Bool) (s : Source)
    → IsBalanced (is_some s.stream) lonely s.done
    → (s.disposed ≡ true → is_lonely s.consumers ≡ true)
    → IsTornDown lonely (teardown stopped report s)
unfolding teardown release_stream
teardown-IsTornDown report lonely s b quiet =
    let before : Source = record (clear_budget (clear_warm_watch s)) {
      stream = none;
      linger = false;
    } in
    let down = stop_stream s.stream before in
    let s' : Source = record down {
      last_keyframe = none;
      param_sets = none;
      ring = [];
      state = stopped;
    } in
    let r = stop_stream-IsReleased s.stream lonely before b in
    let shape = stop_stream_rest s.stream before refl refl refl quiet in
    let gone : is_some s'.stream ≡ false = ap is_some (stop_stream_fields s.stream before).0 in
    choose (IsTornDown lonely) (is_some s.stream && not s.keyframe_seen && report)
      (act on_start_failed s') s'
      (λ e. record {
        shape = shape;
        no_stream = gone;
        balance = failed_balance false lonely down.done r.balance (r.room (ground (arith, e)));
      })
      (λ e. record { shape = shape; no_stream = gone; balance = r.balance })

-- What `teardown` needs of a source: one that is disposed has no consumers.
pub teardown-Inv :
    (report : Bool) (s : Source)
    → IsBalanced (is_some s.stream) (is_lonely s.consumers) s.done
    → (s.disposed ≡ true → is_lonely s.consumers ≡ true)
    → Inv (teardown stopped report s)
teardown-Inv report s b quiet =
    let t = teardown-IsTornDown report (is_lonely s.consumers) s b quiet in
    record { shape = t.shape; balance = rw (t.no_stream, teardown-consumers report s) t.balance }

pub teardown_of : (report : Bool) (s : Source) → Inv s → Inv (teardown stopped report s)
teardown_of report s v = teardown-Inv report s v.balance (λ d. (v.shape.retired d).0)

-- `teardown` stops the stream that runs, and reports a start that delivered no keyframe.
pub teardown_stops :
    (id : ℕ) (s : Source)
    → s.stream ≡ some id
    → ((teardown stopped true s).done
        ≡ (s.done ++ (ended id ∷ [])) ++ (if s.keyframe_seen then [] else on_start_failed ∷ []))
      × ((teardown stopped true s).stream ≡ none)
unfolding teardown release_stream
teardown_stops id s pulled = elim (Bool-cases s.keyframe_seen) [
  | inl seen ↦ rw (pulled, seen) (sym (append-nil (s.done ++ (ended id ∷ []))), refl)
  | inr unseen ↦ rw (pulled, unseen) (refl, refl)
]
