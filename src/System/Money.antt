-- ===== src/System/Money.antt =====
-- The methods of the refund and payment services, the door and the jobs, as sequences of steps.
use openseat.Base.{ℕ, any}
use openseat.Store.{Store, pending, failed}
use openseat.Store.Action.{
  Result, ok, err, require, require_some, return, handle, ◌>>=◌, not_found, conflict, bad_gateway,
  record_not_found, unique_violation,
}
use openseat.Access.{RoleName, manager, require_event_role, resolve_role, find_event}
use openseat.Orders.{find_order}
use openseat.Refunds.{
  CreateRefund, find_refund, claim_refund, send_money_leg, find_payment, retry, insert_refund,
  compensation, is_compensation, sent, compensate_unfulfilled_payment,
}
use openseat.System.{Step, Reach, here, Reach-step, Reach-trans}
use openseat.System.Runs.{Runs, continue-Reach, require-Runs, require_some-Runs, if-Runs}

resolve_role-Runs : (e u : ℕ) → Runs (resolve_role e u)
unfolding resolve_role
resolve_role-Runs e u s =
    continue-Reach s (require_some (find_event e s) (not_found "Event not found") s) _
      (require_some-Runs _ _ s) (λ event s₁. here)

pub require_event_role-Runs : (e u : ℕ) (role : RoleName) → Runs (require_event_role e u role)
unfolding require_event_role
require_event_role-Runs e u role s =
    continue-Reach s (resolve_role e u s) _ (resolve_role-Runs e u s) λ (event, found) s₁.
      continue-Reach s₁ (require_some found (not_found "Event not found") s₁) _
        (require_some-Runs _ _ s₁)
        λ held s₂. continue-Reach s₂ (require _ _ s₂) _ (require-Runs _ _ s₂) (λ _ s₃. here)

pub send_money_leg-Runs :
    (create_refund : CreateRefund) (refund_id intent_id amount : ℕ)
    → Runs (send_money_leg create_refund refund_id intent_id amount)
unfolding send_money_leg
send_money_leg-Runs create_refund refund_id intent_id amount s = caught _ (
    continue-Reach s (require_some (create_refund intent_id amount refund_id) bad_gateway s) _
      (require_some-Runs _ _ s)
      λ provider_id s₁. Reach-step (Step.name_refund refund_id provider_id))
  where
    caught :
        (r : Result (Unit {0}) × Store)
        → Reach s r.1
        → Reach s
            (handle r λ e. do
              marked ← claim_refund refund_id pending (λ x. record x { status = failed })
              return tt).1
    caught (ok u, s') h = h
    caught (err e, s') h = Reach-trans h (
        continue-Reach s' (claim_refund refund_id pending (λ x. record x { status = failed }) s') _
          (Reach-step (Step.move_refund refund_id pending failed)) (λ _ s''. here))

pub retry-Runs :
    (create_refund : CreateRefund) (refund_id user_id : ℕ)
    → Runs (retry create_refund refund_id user_id)
unfolding retry
retry-Runs create_refund refund_id user_id s =
    continue-Reach s (require_some (find_refund refund_id s) (not_found "Refund not found") s) _
      (require_some-Runs _ _ s)
      λ refund s₁.
        continue-Reach s₁ (require_some (find_order refund.order_id s₁) record_not_found s₁) _
          (require_some-Runs _ _ s₁)
          λ order s₂.
            continue-Reach s₂ (require_event_role order.event_id user_id manager s₂) _
              (require_event_role-Runs order.event_id user_id manager s₂)
              λ allowed s₃.
                continue-Reach s₃
                  (require_some (find_payment refund.order_id s₃)
                    (conflict "This refund has no payment to retry") s₃)
                  _ (require_some-Runs _ _ s₃)
                  λ payment s₄.
                    continue-Reach s₄
                      (claim_refund refund_id failed (λ x. record x { status = pending }) s₄) _
                      (Reach-step (Step.move_refund refund_id failed pending))
                      λ reopened s₅.
                        continue-Reach s₅
                          (require reopened (conflict "Only a failed refund can be retried") s₅) _
                          (require-Runs _ _ s₅)
                          λ _ s₆.
                            continue-Reach s₆
                              (send_money_leg create_refund refund_id payment.provider_intent_id
                                refund.amount_satang s₆)
                              _
                              (send_money_leg-Runs create_refund refund_id
                                payment.provider_intent_id refund.amount_satang s₆)
                              λ _ s₇.
                                require_some-Runs (find_refund refund_id s₇) record_not_found s₇

pub compensate_unfulfilled_payment-Runs :
    (create_refund : CreateRefund) (order_id amount intent_id : ℕ)
    → Runs (compensate_unfulfilled_payment create_refund order_id amount intent_id)
unfolding compensate_unfulfilled_payment
compensate_unfulfilled_payment-Runs create_refund order_id amount intent_id s =
    if-Runs (any (is_compensation order_id) s.refunds) _ _ (λ s. here)
      (λ s₁.
        after_insert (insert_refund (compensation order_id amount) s₁)
          (Reach-step (Step.compensate order_id amount)))
      s
  where
    after_insert :
        {s₁ : Store} (r : Result ℕ × Store)
        → Reach s₁ r.1
        → Reach s₁ (sent create_refund intent_id amount r).1
    after_insert (ok refund_id, s₂) h =
        Reach-trans h (send_money_leg-Runs create_refund refund_id intent_id amount s₂)
    after_insert (err unique_violation, s₂) h = h
    after_insert (err _, s₂) h = h
