-- ===== src/Payments/Webhook.antt =====
-- The rows of the webhook through the handlers of its events.
use openseat.Base.{ℕ, refl, ap, inl, inr, Option, Option-cases, find, arith, List}
use openseat.Store.{Store, Payment, Order, OrderStatus, canceled, WebhookEvent, RefundStatus}
use openseat.Store.Action.{return, require_some, record_not_found, transaction}
use openseat.Store.Keeps.{Keeps, continue-Keeps, if-Keeps, require_some-Keeps, roll_back-Keeps}
use openseat.Orders.{claim_order, find_order, release_order_inventory_in_tx}
use openseat.Orders.Keeps.{Ledger, release_claimed-Keeps}
use openseat.Refunds.{CreateRefund, claim_refund, find_refund}
use openseat.Refunds.Keeps.{
  webhooks_of, settle_in_tx-Keeps, compensate-webhooks, claim_refund-webhooks,
}
use openseat.Payments.{
  PaymockEvent, EventType, payment_succeeded, payment_failed, payment_refunded, unknown,
  SucceededOutcome, ignored, paid, unfulfillable, claim_payment, has_intent, settle_order, fulfil,
  capture, cancel, compensate, settle_reference, settle_refund, dispatch, handle_succeeded,
  handle_failed, handle_refunded,
}
use openseat.Payments.Keeps.{fulfil-Keeps}
use openseat.Payments.Refunded.{credited}

claim_payment-webhooks :
    (intent_id : ℕ) (status : openseat.Store.PaymentStatus)
    → Keeps webhooks_of (claim_payment intent_id status)
unfolding claim_payment
claim_payment-webhooks intent_id status s = ground arith

claim_order-webhooks :
    (order_id : ℕ) (status : OrderStatus) → Keeps webhooks_of (claim_order order_id status)
unfolding claim_order
claim_order-webhooks order_id status s = ground arith

settle_order-webhooks : (payment : Payment) → Keeps webhooks_of (settle_order payment)
unfolding settle_order
settle_order-webhooks payment s =
    continue-Keeps webhooks_of _ (claim_order payment.order_id OrderStatus.paid s) _
      (claim_order-webhooks payment.order_id OrderStatus.paid s)
      λ claimed s₁.
        if-Keeps webhooks_of claimed _ _
          (λ s₂.
            continue-Keeps webhooks_of _
              (require_some (find_order payment.order_id s₁) record_not_found s₂) _
              (require_some-Keeps webhooks_of _ _ s₂)
              λ order s₃.
                continue-Keeps webhooks_of _ (fulfil order s₃) _
                  (ap (λ (l : Ledger). l.2) (fulfil-Keeps order s₃)) (λ _ s₄. refl))
          (λ s₂. refl) s₁

release_order-webhooks :
    (order_id : ℕ) (status : OrderStatus)
    → Keeps webhooks_of (release_order_inventory_in_tx order_id status)
unfolding release_order_inventory_in_tx
release_order-webhooks order_id status s =
    continue-Keeps webhooks_of _ (claim_order order_id status s) _
      (claim_order-webhooks order_id status s)
      λ claimed s₁.
        if-Keeps webhooks_of claimed _ _
          (λ s₂. ap (λ (l : Ledger). l.2) (release_claimed-Keeps order_id status s₂)) (λ s₂. refl)
          s₁

capture-webhooks : (intent_id : ℕ) → Keeps webhooks_of (capture intent_id)
unfolding capture
capture-webhooks intent_id s = elim (Option-cases (find (has_intent intent_id) s.payments)) [
  | inl missing ↦ rw missing refl
  | inr (payment, found) ↦ rw found (
      continue-Keeps webhooks_of _
        (claim_payment intent_id openseat.Store.PaymentStatus.succeeded s) _
        (claim_payment-webhooks intent_id openseat.Store.PaymentStatus.succeeded s)
        λ claimed.
          if-Keeps webhooks_of {A = SucceededOutcome} claimed (settle_order payment)
            (return ignored) (settle_order-webhooks payment) (λ s₂. refl))
]

cancel-webhooks : (intent_id : ℕ) → Keeps webhooks_of (cancel intent_id)
unfolding cancel
cancel-webhooks intent_id s = elim (Option-cases (find (has_intent intent_id) s.payments)) [
  | inl missing ↦ rw missing refl
  | inr (payment, found) ↦ rw found (
      continue-Keeps webhooks_of _ (claim_payment intent_id openseat.Store.PaymentStatus.failed s) _
        (claim_payment-webhooks intent_id openseat.Store.PaymentStatus.failed s)
        λ claimed.
          if-Keeps webhooks_of claimed _ _
            (λ s₂.
              continue-Keeps webhooks_of _
                (release_order_inventory_in_tx payment.order_id canceled s₂) _
                (release_order-webhooks payment.order_id canceled s₂) (λ _ s₃. refl))
            (λ s₂. refl))
]

credited-webhooks : (refund_id : ℕ) → Keeps webhooks_of (credited refund_id)
credited-webhooks refund_id s =
    continue-Keeps webhooks_of _ (require_some (find_refund refund_id s) record_not_found s) _
      (require_some-Keeps webhooks_of _ _ s)
      λ refund s₁.
        ap (λ (x : List openseat.Store.Refund × List WebhookEvent). x.1)
          (settle_in_tx-Keeps refund.order_id refund.amount_satang s₁)

settle_reference-webhooks :
    (now : ℕ) (provider_id : Option ℕ) (reference : ℕ)
    → Keeps webhooks_of (settle_reference now provider_id reference)
unfolding settle_reference
settle_reference-webhooks now provider_id reference s =
    continue-Keeps webhooks_of s.webhook_events
      (claim_refund reference RefundStatus.pending (settle_refund now provider_id) s) _
      (claim_refund-webhooks reference RefundStatus.pending (settle_refund now provider_id) s)
      λ claimed.
        if-Keeps webhooks_of {A = Unit {0}} claimed (credited reference) (return tt)
          (credited-webhooks reference) (λ s₂. refl)

pub dispatch-webhooks :
    (create_refund : CreateRefund) (now : ℕ) (e : PaymockEvent) (type : EventType)
    → Keeps webhooks_of (dispatch create_refund now e type)
unfolding dispatch handle_succeeded handle_failed handle_refunded compensate
dispatch-webhooks create_refund now e payment_succeeded s =
    continue-Keeps webhooks_of _ (transaction (capture e.intent_id) s) _
      (roll_back-Keeps webhooks_of s (capture e.intent_id s) (capture-webhooks e.intent_id s))
      compensated
  where
    compensated :
        (outcome : SucceededOutcome)
        → Keeps webhooks_of (compensate create_refund e.intent_id outcome)
    compensated ignored = λ s. refl
    compensated paid = λ s. refl
    compensated (unfulfillable order_id amount) =
        compensate-webhooks create_refund order_id amount e.intent_id
dispatch-webhooks create_refund now e payment_failed s =
    roll_back-Keeps webhooks_of s (cancel e.intent_id s) (cancel-webhooks e.intent_id s)
dispatch-webhooks create_refund now e payment_refunded s = elim (Option-cases e.reference) [
  | inl anonymous ↦ rw anonymous refl
  | inr (reference, named) ↦ rw named (
      roll_back-Keeps webhooks_of s (settle_reference now e.refund_id reference s)
        (settle_reference-webhooks now e.refund_id reference s))
]
dispatch-webhooks create_refund now e (unknown name) s = refl
