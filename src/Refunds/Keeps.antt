-- ===== src/Refunds/Keeps.antt =====
-- Payments and webhook rows through the money leg of a refund and its settlement.
use openseat.Base.{ℕ, ◌≡◌, refl, List, any, update, arith, ◌==◌}
use openseat.Store.{
  Store, WebhookEvent, Refund, RefundStatus, pending, failed, Order, order_refunded,
}
use openseat.Store.Action.{
  Result, ok, err, unique_violation, bad_gateway, record_not_found, require_some,
}
use openseat.Store.Keeps.{Keeps, continue-Keeps, handle-Keeps, require_some-Keeps, if-Keeps}
use openseat.Orders.{find_order, is_refundable}
use openseat.Refunds.{
  CreateRefund, insert_refund, claim_refund, set_provider_id, find_refund, send_money_leg,
  compensation, is_compensation, sent, compensate_unfulfilled_payment, settle_in_tx, refresh_status,
  add_refunded,
}
use openseat.Inventory.{write_in_tx}

abbrev pub webhooks_of : Store → List WebhookEvent
webhooks_of s = s.webhook_events

abbrev pub refunds_of : Store → List Refund
refunds_of s = s.refunds

insert_refund-webhooks : (r : Refund) → Keeps webhooks_of (insert_refund r)
unfolding insert_refund
insert_refund-webhooks r s = ground arith

pub claim_refund-webhooks :
    (refund_id : ℕ) (from : RefundStatus) (change : Refund → Refund)
    → Keeps webhooks_of (claim_refund refund_id from change)
unfolding claim_refund
claim_refund-webhooks refund_id from change s = ground arith

set_provider_id-webhooks :
    (refund_id provider_id : ℕ) → Keeps webhooks_of (set_provider_id refund_id provider_id)
unfolding set_provider_id
set_provider_id-webhooks refund_id provider_id s =
    continue-Keeps webhooks_of _ (require_some (find_refund refund_id s) record_not_found s) _
      (require_some-Keeps webhooks_of _ _ s) (λ _ s₁. refl)

send_money_leg-webhooks :
    (create_refund : CreateRefund) (refund_id intent_id amount : ℕ)
    → Keeps webhooks_of (send_money_leg create_refund refund_id intent_id amount)
unfolding send_money_leg
send_money_leg-webhooks create_refund refund_id intent_id amount s =
    handle-Keeps webhooks_of _ _ _
      (continue-Keeps webhooks_of _
        (require_some (create_refund intent_id amount refund_id) bad_gateway s) _
        (require_some-Keeps webhooks_of _ _ s) (set_provider_id-webhooks refund_id))
      λ e s₁.
        continue-Keeps webhooks_of _
          (claim_refund refund_id pending (λ r. record r { status = failed }) s₁) _
          (claim_refund-webhooks refund_id pending _ s₁) (λ _ s₂. refl)

pub compensate-webhooks :
    (create_refund : CreateRefund) (order_id amount intent_id : ℕ)
    → Keeps webhooks_of (compensate_unfulfilled_payment create_refund order_id amount intent_id)
unfolding compensate_unfulfilled_payment
compensate-webhooks create_refund order_id amount intent_id s =
    if-Keeps webhooks_of (any (is_compensation order_id) s.refunds) _ _ (λ s₁. refl)
      (λ s₁.
        sent-webhooks s₁.webhook_events (insert_refund (compensation order_id amount) s₁)
          (insert_refund-webhooks (compensation order_id amount) s₁))
      s
  where
    sent-webhooks :
        (v : List WebhookEvent) (r : Result ℕ × Store)
        → webhooks_of r.1 ≡ v
        → webhooks_of (sent create_refund intent_id amount r).1 ≡ v
    sent-webhooks v (ok refund_id, s₂) h =
        rw (send_money_leg-webhooks create_refund refund_id intent_id amount s₂) h
    sent-webhooks v (err unique_violation, s₂) h = h
    sent-webhooks v (err _, s₂) h = h

abbrev pub refunds_and_webhooks : Store → List Refund × List WebhookEvent
refunds_and_webhooks s = (s.refunds, s.webhook_events)

write_in_tx-Keeps : (p : openseat.Store.OutboxPayload) → Keeps refunds_and_webhooks (write_in_tx p)
unfolding write_in_tx
write_in_tx-Keeps p s = refl

refresh_status-Keeps : (order_id : ℕ) → Keeps refunds_and_webhooks (refresh_status order_id)
unfolding refresh_status
refresh_status-Keeps order_id s = write_in_tx-Keeps _ _

pub settle_in_tx-Keeps :
    (order_id amount : ℕ) → Keeps refunds_and_webhooks (settle_in_tx order_id amount)
unfolding settle_in_tx
settle_in_tx-Keeps order_id amount s =
    continue-Keeps refunds_and_webhooks _ (require_some (find_order order_id s) record_not_found s)
      _ (require_some-Keeps refunds_and_webhooks _ _ s)
      λ order s₁.
        continue-Keeps refunds_and_webhooks _
          (write_in_tx (order_refunded order_id amount)
            (record s₁ { orders = update (λ o. o.id == order_id) (add_refunded amount) s₁.orders }))
          _ (write_in_tx-Keeps _ _)
          λ _.
            if-Keeps refunds_and_webhooks (is_refundable order.status) _ _
              (refresh_status-Keeps order_id) (λ s₂. refl)
