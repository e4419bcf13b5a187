-- ===== src/LiveSource/Inv/Expiries.antt =====
-- The timers and endings of `SharedLiveSource` in src/transport/p2p/shared-live-source.ts keep its
-- invariant.
use eufy_sdk.Prelude.{ℕ, true, false, not, ◌||◌, arith}
use eufy_sdk.LiveConsumer.{choose, Event, Reaction, Consumer}
use eufy_sdk.LiveSource.Calls.{
  on_linger_expire, on_budget_expire, on_grace_expire, extend_budget, on_upstream_end,
  on_upstream_error,
}
use eufy_sdk.LiveSource.{Source, Options, is_some}
use eufy_sdk.LiveSource.Inv.{Inv}
use eufy_sdk.LiveSource.Inv.Teardown.{teardown-Inv, teardown_of}
use eufy_sdk.LiveSource.Inv.Steps.{timed-Shape, all-Inv}

module _ (sink : Consumer → Event → Reaction) (opts : Options) where
  -- The timer of the linger is pending, so there is no consumer that the source could lose.
  pub on_linger_expire-Inv : (s : Source) → Inv s → Inv (on_linger_expire sink opts s)
  unfolding on_linger_expire
  on_linger_expire-Inv s v =
      teardown-Inv true (record s { linger = false }) v.balance (λ d. (v.shape.retired d).0)

  pub on_budget_expire-Inv : (s : Source) → Inv s → Inv (on_budget_expire sink opts s)
  unfolding on_budget_expire
  on_budget_expire-Inv s v =
      let s' : Source = record s { budget_timer = false } in
      choose Inv (s'.disposed || not (is_some s'.stream)) s' _
        (λ _. record {
          shape = timed-Shape _ _ _ _ _ _ _ (λ h. v.shape.timed (ground (arith, h))) v.shape;
          balance = v.balance;
        })
        (λ e.
          all-Inv sink opts _ (record s' { grace = true })
            (record {
              shape = timed-Shape _ _ _ _ _ _ _ (λ _. ground (arith, e)) v.shape;
              balance = v.balance;
            }))

  pub on_grace_expire-Inv : (s : Source) → Inv s → Inv (on_grace_expire sink opts s)
  unfolding on_grace_expire
  on_grace_expire-Inv s v =
      let s' : Source = record s { grace = false } in
      let v' : Inv s' = record {
        shape = timed-Shape _ _ _ _ _ _ _ (λ h. v.shape.timed (ground (arith, h))) v.shape;
        balance = v.balance;
      } in
      teardown_of true _ (all-Inv sink opts _ s' v')

  pub extend_budget-Inv : (s : Source) → Inv s → Inv (extend_budget sink opts s)
  unfolding extend_budget
  extend_budget-Inv s v =
      choose Inv (s.disposed || not (is_some s.stream)) s _ (λ _. v)
        (λ e. record {
          shape = timed-Shape _ _ _ _ _ _ _ (λ _. ground (arith, e)) v.shape;
          balance = v.balance;
        })

  pub on_upstream_end-Inv : (s : Source) → Inv s → Inv (on_upstream_end sink opts s)
  unfolding on_upstream_end
  on_upstream_end-Inv s v =
      choose Inv (s.disposed || not (is_some s.stream)) s _ (λ _. v)
        (λ _. teardown_of true _ (
          all-Inv sink opts _ _
            (choose Inv s.keyframe_seen s _ (λ _. v) (λ _. all-Inv sink opts _ s v))))

  pub on_upstream_error-Inv :
      (error : ℕ) (s : Source) → Inv s → Inv (on_upstream_error sink opts error s)
  unfolding on_upstream_error
  on_upstream_error-Inv error s v =
      choose Inv s.disposed s _ (λ _. v) (λ _. teardown_of true _ (all-Inv sink opts _ s v))
