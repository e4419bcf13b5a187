-- ===== src/LiveSource/Inv/Dispose.antt =====
-- `dispose` of `SharedLiveSource` in src/transport/p2p/shared-live-source.ts keeps its invariant.
use eufy_sdk.Prelude.{
  ℕ, ◌≡◌, refl, ap, subst, true, false, not, ◌&&◌, List, [], ◌∷◌, map, length, ltb, ◌==◌, arith,
  Option-cases, inl, inr,
}
use eufy_sdk.KeyMap.{lookup, delete}
use eufy_sdk.LiveConsumer.{choose, Event, Reaction, Consumer, end}
use eufy_sdk.LiveSource.Calls.{dispose}
use eufy_sdk.LiveSource.{
  Source, Options, act, on_idle, stopped, on_detach, settle, on_consumer, each_consumer,
  all_consumers, teardown,
}
use eufy_sdk.LiveSource.Inv.{IsBalanced, is_lonely, Inv, idle_balance, length-lonely}
use eufy_sdk.LiveSource.Inv.Teardown.{IsTornDown, teardown-IsTornDown, teardown-consumers}

-- What telling the consumers does to a source that is disposed: it is the same but for them.
record IsQuiet (before after : Source) : Type 0 where
  done : after.done ≡ before.done
  stream : after.stream ≡ before.stream
  disposed : after.disposed ≡ true

on_consumer-IsQuiet :
    (f : Consumer → Consumer) (id : ℕ) (before s : Source)
    → IsQuiet before s
    → IsQuiet before (on_consumer f id s)
unfolding on_consumer settle on_detach
on_consumer-IsQuiet f id before s q = elim (Option-cases (lookup id s.consumers)) [
  | inl e ↦ rw (e, on_consumer) q
  | inr (c, e) ↦
      rw (e, on_consumer)
        (choose (IsQuiet before) (f c).detached _ _
          (λ _.
            choose (IsQuiet before) ((length (delete id s.consumers) == 0) && not s.disposed) _ _
              (λ h. absurd (ground (arith, h, q.disposed)))
              (λ _. record { done = q.done; stream = q.stream; disposed = q.disposed }))
          (λ _. record { done = q.done; stream = q.stream; disposed = q.disposed }))
]

each_consumer-IsQuiet :
    (f : Consumer → Consumer) (ids : List ℕ) (before s : Source)
    → IsQuiet before s
    → IsQuiet before (each_consumer f ids s)
unfolding each_consumer
each_consumer-IsQuiet f [] before s q = q
each_consumer-IsQuiet f (id ∷ ids) before s q =
    each_consumer-IsQuiet f ids before (on_consumer f id s) (on_consumer-IsQuiet f id before s q)

pub dispose-Inv :
    (sink : Consumer → Event → Reaction) (opts : Options) (s : Source)
    → Inv s
    → Inv (dispose sink opts s)
unfolding dispose
dispose-Inv sink opts s v =
    let told = all_consumers (end sink opts.max_queue) (record s { disposed = true }) in
    let q : IsQuiet s told =
      each_consumer-IsQuiet (end sink opts.max_queue) (map (λ p. p.0) s.consumers) s
        (record s { disposed = true }) (record { done = refl; stream = refl; disposed = refl }) in
    let alone : Source = record told { consumers = [] } in
    let down = teardown stopped false alone in
    let t : IsTornDown (is_lonely s.consumers) down =
      teardown-IsTornDown false (is_lonely s.consumers) alone (rw (q.done, q.stream) v.balance)
        (λ _. refl) in
    let empty : is_lonely down.consumers ≡ true = ap is_lonely (teardown-consumers false alone) in
    choose Inv s.disposed s _ (λ _. v)
      (λ _.
        choose Inv (ltb 0 (length s.consumers)) (act on_idle down) down
          (λ h.
            let busy : is_lonely s.consumers ≡ false =
              ground (arith, h, length-lonely s.consumers) in
            record {
              shape = t.shape;
              balance =
                  rw (t.no_stream, empty)
                    (idle_balance false true down.done
                      (subst (λ b. IsBalanced false b down.done) busy t.balance));
            })
          (λ h.
            let none_held : is_lonely s.consumers ≡ true =
              ground (arith, h, length-lonely s.consumers) in
            record {
              shape = t.shape;
              balance =
                  rw (t.no_stream, empty)
                    (subst (λ b. IsBalanced false b down.done) none_held t.balance);
            }))
