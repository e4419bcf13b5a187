-- ===== src/LiveSource/Inv/Streams.antt =====
-- The streams that `SharedLiveSource` in src/transport/p2p/shared-live-source.ts starts and stops.
use eufy_sdk.Prelude.{
  ℕ, ◌+◌, ◌≤◌, ◌≡◌, refl, ◌∙◌, ap, Bool, true, false, not, ◌&&◌, List, [], ◌∷◌, ◌++◌, Option, none,
  some, map, length, leb, ◌==◌, if◌then◌else◌, arith, Option-cases, inl, inr,
}
use eufy_sdk.KeyMap.{lookup, delete}
use eufy_sdk.LiveConsumer.{choose, Consumer}
use eufy_sdk.LiveSource.{
  Action, started, ended, nudged, on_active, on_idle, on_start_failed, on_session_unreachable,
  Source, new_source, is_some, act, on_detach, settle, on_consumer, each_consumer, all_consumers,
  release_stream, stop_stream, teardown, clear_warm_watch, clear_budget, stopped,
}

-- The log of what a source has done, replayed: the stream that runs, and a number above every stream's.
-- It breaks off where a stream is started while one runs or under a number used before, and where one is
-- stopped that does not run.
pub logged : Action → Option (Option ℕ × ℕ) → Option (Option ℕ × ℕ)
logged a none = none
logged (started id) (some (none, next)) = if leb next id then some (some id, id + 1) else none
logged (started id) (some (some other, next)) = none
logged (ended id) (some (none, next)) = none
logged (ended id) (some (some now, next)) = if now == id then some (none, next) else none
logged (nudged id real) (some log) = some log
logged on_active (some log) = some log
logged on_idle (some log) = some log
logged on_start_failed (some log) = some log
logged on_session_unreachable (some log) = some log

pub replay : List Action → Option (Option ℕ × ℕ) → Option (Option ℕ × ℕ)
replay [] log = log
replay (a ∷ more) log = replay more (logged a log)

replay-snoc :
    (xs : List Action) (a : Action) (log : Option (Option ℕ × ℕ))
    → replay (xs ++ (a ∷ [])) log ≡ logged a (replay xs log)
unfolding replay
replay-snoc [] a log = refl
replay-snoc (x ∷ xs) a log = replay-snoc xs a (logged x log)

-- The log replays to the stream that the source has.
pub record IsPulled (stream : Option ℕ) (fresh : ℕ) (done : List Action) : Type 0 where
  pub next : ℕ
  pub replays : replay done (some (none, 0)) ≡ some (stream, next)
  pub below : next ≤ fresh

abbrev pub Pulls : Source → Type 0
Pulls s = IsPulled s.stream s.fresh s.done

unfoldable pub is_silent : Action → Bool
is_silent (started id) = false
is_silent (ended id) = false
is_silent (nudged id real) = true
is_silent on_active = true
is_silent on_idle = true
is_silent on_start_failed = true
is_silent on_session_unreachable = true

logged-is_silent :
    (a : Action) (log : Option ℕ × ℕ) → is_silent a ≡ true → logged a (some log) ≡ some log
unfolding logged is_silent
logged-is_silent (started id) log h = absurd (ground (arith, h))
logged-is_silent (ended id) log h = absurd (ground (arith, h))
logged-is_silent (nudged id real) log h = refl
logged-is_silent on_active log h = refl
logged-is_silent on_idle log h = refl
logged-is_silent on_start_failed log h = refl
logged-is_silent on_session_unreachable log h = refl

silent :
    (a : Action) (stream : Option ℕ) (fresh : ℕ) (done : List Action)
    → is_silent a ≡ true
    → IsPulled stream fresh done
    → IsPulled stream fresh (done ++ (a ∷ []))
silent a stream fresh done h v = record {
  next = v.next;
  replays =
      replay-snoc done a (some (none, 0))
      ∙ ap (logged a) v.replays
      ∙ logged-is_silent a (stream, v.next) h;
  below = v.below;
}

ends :
    (id fresh : ℕ) (done : List Action)
    → IsPulled (some id) fresh done
    → IsPulled none fresh (done ++ (ended id ∷ []))
unfolding logged
ends id fresh done v = record {
  next = v.next;
  replays =
      replay-snoc done (ended id) (some (none, 0))
      ∙ ap (logged (ended id)) v.replays
      ∙ ground arith;
  below = v.below;
}

pub starts :
    (fresh : ℕ) (done : List Action)
    → IsPulled none fresh done
    → IsPulled (some fresh) (fresh + 1) (done ++ (started fresh ∷ []))
unfolding logged
starts fresh done v = record {
  next = fresh + 1;
  replays =
      replay-snoc done (started fresh) (some (none, 0))
      ∙ ap (logged (started fresh)) v.replays
      ∙ ground (arith, v.below);
  below = omega arith;
}

pub new_source-Pulls : Pulls new_source
unfolding new_source replay
new_source-Pulls = record { next = 0; replays = refl; below = omega arith }

pub stop_stream-Pulls :
    (stream : Option ℕ) (s : Source)
    → IsPulled stream s.fresh s.done
    → IsPulled none (stop_stream stream s).fresh (stop_stream stream s).done
stop_stream-Pulls none s v = v
stop_stream-Pulls (some id) s v = ends id s.fresh s.done v

pub stop_stream-none :
    (stream : Option ℕ) (s : Source) → s.stream ≡ none → (stop_stream stream s).stream ≡ none
stop_stream-none none s h = h
stop_stream-none (some id) s h = h

pub teardown-Pulls : (report : Bool) (s : Source) → Pulls s → Pulls (teardown stopped report s)
unfolding teardown release_stream
teardown-Pulls report s v =
    let before : Source = record (clear_budget (clear_warm_watch s)) {
      stream = none;
      linger = false;
    } in
    let gone = stop_stream-none s.stream before refl in
    let down : Pulls (stop_stream s.stream before) =
      rw gone (stop_stream-Pulls s.stream before v) in
    choose Pulls (is_some s.stream && not s.keyframe_seen && report) _ _
      (λ _. silent on_start_failed _ _ _ (unfold is_silent in refl) down) (λ _. down)

on_detach-Pulls : (id : ℕ) (s : Source) → Pulls s → Pulls (on_detach id s)
unfolding on_detach
on_detach-Pulls id s v =
    choose Pulls ((length (delete id s.consumers) == 0) && not s.disposed) _ _
      (λ _. silent on_idle _ _ _ (unfold is_silent in refl) v) (λ _. v)

pub on_consumer-Pulls :
    (f : Consumer → Consumer) (id : ℕ) (s : Source) → Pulls s → Pulls (on_consumer f id s)
unfolding on_consumer settle
on_consumer-Pulls f id s v = elim (Option-cases (lookup id s.consumers)) [
  | inl e ↦ rw (e, on_consumer) v
  | inr (c, e) ↦
      rw (e, on_consumer)
        (choose Pulls (f c).detached (on_detach id s) _ (λ _. on_detach-Pulls id s v) (λ _. v))
]

each_consumer-Pulls :
    (f : Consumer → Consumer) (ids : List ℕ) (s : Source) → Pulls s → Pulls (each_consumer f ids s)
unfolding each_consumer
each_consumer-Pulls f [] s v = v
each_consumer-Pulls f (id ∷ ids) s v =
    each_consumer-Pulls f ids (on_consumer f id s) (on_consumer-Pulls f id s v)

pub all-Pulls : (f : Consumer → Consumer) (s : Source) → Pulls s → Pulls (all_consumers f s)
all-Pulls f s v = each_consumer-Pulls f (map (λ p. p.0) s.consumers) s v

-- One more silent action.
pub act-Pulls : (a : Action) (s : Source) → is_silent a ≡ true → Pulls s → Pulls (act a s)
act-Pulls a s h v = silent a s.stream s.fresh s.done h v
