-- ===== src/System/Service.antt =====
-- The methods that `System.Calls` names, as sequences of steps.
use openseat.Base.{
  ℕ, refl, inl, inr, true, false, List, [], ◌∷◌, Option, none, some, find, Option-cases, ◌==◌, not,
  ◌||◌,
}
use openseat.Store.{Store, Text, Payment, Order, expired}
use openseat.Store.Action.{
  Result, ok, err, Error, require, require_some, return, transaction, ◌>>◌, not_found, bad_request,
  record_not_found,
}
use openseat.Access.{manager, staff, require_event_role}
use openseat.Holds.{release, sweep_expired, is_void}
use openseat.Orders.{release_order_inventory_in_tx, release_each, reconcile_expired, stranded}
use openseat.Refunds.{CreateRefund, find_refund}
use openseat.Refunds.Create as RefundCreate
use openseat.Payments.{
  PaymockEvent, EventType, payment_succeeded, payment_failed, payment_refunded, unknown,
  SucceededOutcome, ignored, paid, unfulfillable, RecordResult, fresh, unprocessed, processed,
  capture, compensate, dispatch, handle_succeeded, handle_failed, handle_refunded, process_event,
  record_event, webhook,
}
use openseat.Checkin.{claim_ticket, scanned, admit, check_in}
use openseat.System.{Step, Reach, here, Reach-step, Reach-trans}
use openseat.System.Plans.{refund_validate-Reads}
use openseat.System.Runs.{
  Runs, continue-Reach, reads-Reach, require-Runs, require_some-Runs, if-Runs,
}
use openseat.System.Money.{
  require_event_role-Runs, send_money_leg-Runs, compensate_unfulfilled_payment-Runs,
}

pub release-Runs : (event_id seat_id : ℕ) (key : Text) → Runs (release event_id seat_id key)
release-Runs event_id seat_id key s = Reach-step (Step.release_hold event_id seat_id key)

pub sweep_expired-Runs : (now : ℕ) → Runs (sweep_expired now)
sweep_expired-Runs now s = Reach-step (Step.sweep now)

pay_back-Runs :
    (create_refund : CreateRefund) (p : RefundCreate.Plan) (payment : Option Payment)
    (refund_id : ℕ)
    → Runs (RefundCreate.pay_back create_refund p payment refund_id)
unfolding RefundCreate.pay_back
pay_back-Runs create_refund p none refund_id = λ s. here
pay_back-Runs create_refund p (some payment) refund_id =
    if-Runs (RefundCreate.is_free p) _ _ (λ s. here)
      (send_money_leg-Runs create_refund refund_id payment.provider_intent_id p.amount_satang)

refund_finish-Runs :
    (create_refund : CreateRefund) (p : RefundCreate.Plan) (payment : Option Payment)
    (refund_id : ℕ)
    → Runs (RefundCreate.finish create_refund p payment refund_id)
unfolding RefundCreate.finish
refund_finish-Runs create_refund p payment refund_id s =
    continue-Reach s (RefundCreate.pay_back create_refund p payment refund_id s) _
      (pay_back-Runs create_refund p payment refund_id s)
      λ _ s₁.
        continue-Reach s₁ (require_some (find_refund refund_id s₁) record_not_found s₁) _
          (require_some-Runs _ _ s₁) (λ refund s₂. here)

refund_recover-Runs : (r : RefundCreate.Request) (e : Error) → Runs (RefundCreate.recover r e)
unfolding RefundCreate.recover
refund_recover-Runs r e s =
    elim (Option-cases (RefundCreate.find_replay r.order_id r.idempotency_key s)) [
      | inl lost ↦ rw lost here
      | inr (refund, found) ↦
          rw found (if-Runs (RefundCreate.is_unique_violation e) _ _ (λ s. here) (λ s. here) s)
    ]

refund_place-Runs :
    (now : ℕ) (create_refund : CreateRefund) (r : RefundCreate.Request)
    → Runs (RefundCreate.place now create_refund r)
unfolding RefundCreate.place
refund_place-Runs now create_refund r s =
    reads-Reach _ s (RefundCreate.validate r s) _ (refund_validate-Reads r s) λ (p, payment) plan.
      committed p payment (transaction (RefundCreate.reclaim now p) s)
        (Reach-step (Step.refund_tickets now p plan))
  where
    committed :
        (p : RefundCreate.Plan) (payment : Option Payment) (x : Result ℕ × Store)
        → Reach s x.1
        → Reach s (RefundCreate.reclaimed create_refund r p payment x).1
    committed p payment (ok refund_id, s₁) h =
        Reach-trans h (refund_finish-Runs create_refund p payment refund_id s₁)
    committed p payment (err e, s₁) h = Reach-trans h (refund_recover-Runs r e s₁)

pub refund_create-Runs :
    (now : ℕ) (create_refund : CreateRefund) (r : RefundCreate.Request)
    → Runs (RefundCreate.create now create_refund r)
unfolding RefundCreate.create
refund_create-Runs now create_refund r s =
    continue-Reach s (require_event_role r.event_id r.user_id manager s) _
      (require_event_role-Runs r.event_id r.user_id manager s)
      λ allowed s₁. elim (Option-cases (RefundCreate.find_replay r.order_id r.idempotency_key s₁)) [
        | inr (refund, found) ↦ rw found here
        | inl new ↦ rw new (refund_place-Runs now create_refund r s₁)
      ]

dispatch-Runs :
    (create_refund : CreateRefund) (now : ℕ) (e : PaymockEvent) (type : EventType)
    → Runs (dispatch create_refund now e type)
unfolding dispatch handle_succeeded handle_failed handle_refunded compensate
dispatch-Runs create_refund now e payment_succeeded s =
    continue-Reach s (transaction (capture e.intent_id) s) _
      (Reach-step (Step.capture_payment e.intent_id)) compensated
  where
    compensated : (outcome : SucceededOutcome) → Runs (compensate create_refund e.intent_id outcome)
    compensated ignored = λ s. here
    compensated paid = λ s. here
    compensated (unfulfillable order_id amount) =
        compensate_unfulfilled_payment-Runs create_refund order_id amount e.intent_id
dispatch-Runs create_refund now e payment_failed s = Reach-step (Step.cancel_payment e.intent_id)
dispatch-Runs create_refund now e payment_refunded s = elim (Option-cases e.reference) [
  | inl anonymous ↦ rw anonymous here
  | inr (reference, named) ↦ rw named (Reach-step (Step.settle_refund now e.refund_id reference))
]
dispatch-Runs create_refund now e (unknown name) s = here

process_event-Runs :
    (create_refund : CreateRefund) (now : ℕ) (e : PaymockEvent)
    → Runs (process_event create_refund now e)
unfolding process_event
process_event-Runs create_refund now e s =
    continue-Reach s (dispatch create_refund now e e.type s) _
      (dispatch-Runs create_refund now e e.type s) λ _ s₁. Reach-step (Step.mark_webhook now e.id)

pub webhook-Runs :
    (create_refund : CreateRefund) (now : ℕ) (e : PaymockEvent) → Runs (webhook create_refund now e)
unfolding webhook
webhook-Runs create_refund now e s =
    continue-Reach s (record_event e s) _ (Reach-step (Step.record_webhook e)) by_result
  where
    processes : Runs (do process_event create_refund now e; return false)
    processes s₁ =
        continue-Reach s₁ (process_event create_refund now e s₁) _
          (process_event-Runs create_refund now e s₁) (λ _ s₂. here)

    by_result :
        (recorded : RecordResult)
        → Runs (elim recorded [
          | processed ↦ return true
          | fresh ↦ (do process_event create_refund now e; return false)
          | unprocessed ↦ (do process_event create_refund now e; return false)
        ])
    by_result processed = λ s₁. here
    by_result fresh = processes
    by_result unprocessed = processes

scanned-Runs : (event_id qr_token : ℕ) → Runs (scanned event_id qr_token)
unfolding scanned
scanned-Runs event_id qr_token s =
    continue-Reach s
      (require_some (find (λ t. t.qr_token == qr_token) s.tickets)
        (not_found "Ticket not found for this event") s)
      _ (require_some-Runs _ _ s)
      λ ticket s₁.
        continue-Reach s₁
          (require (ticket.event_id == event_id) (not_found "Ticket not found for this event") s₁) _
          (require-Runs _ _ s₁)
          λ _ s₂.
            continue-Reach s₂
              (require (not (is_void ticket.status)) (bad_request "Ticket is void") s₂) _
              (require-Runs _ _ s₂) (λ _ s₃. here)

admit-Runs : (now ticket_id : ℕ) → Runs (admit now ticket_id)
unfolding admit
admit-Runs now ticket_id s =
    continue-Reach s (claim_ticket now ticket_id s) _ (Reach-step (Step.admit_ticket now ticket_id))
      λ updated s₁.
        continue-Reach s₁
          (require_some (find (λ t. t.id == ticket_id) s₁.tickets) record_not_found s₁) _
          (require_some-Runs _ _ s₁)
          λ fresh_row s₂.
            continue-Reach s₂
              (require (updated || not (is_void fresh_row.status)) (bad_request "Ticket is void")
                s₂)
              _ (require-Runs _ _ s₂) (λ _ s₃. here)

pub check_in-Runs :
    (now event_id user_id qr_token : ℕ) → Runs (check_in now event_id user_id qr_token)
unfolding check_in
check_in-Runs now event_id user_id qr_token s =
    continue-Reach s (require_event_role event_id user_id staff s) _
      (require_event_role-Runs event_id user_id staff s)
      λ allowed s₁.
        continue-Reach s₁ (scanned event_id qr_token s₁) _ (scanned-Runs event_id qr_token s₁)
          λ ticket s₂. admit-Runs now ticket.id s₂

release_each-Runs : (orders : List Order) (n : ℕ) → Runs (release_each orders n)
unfolding release_each
release_each-Runs [] n s = here
release_each-Runs (o ∷ os) n s =
    continue-Reach s (transaction (release_order_inventory_in_tx o.id expired) s) _
      (Reach-step (Step.close_order o.id expired refl)) λ released s₁. release_each-Runs os _ s₁

pub reconcile_expired-Runs : (now : ℕ) → Runs (reconcile_expired now)
unfolding reconcile_expired
reconcile_expired-Runs now s = release_each-Runs (stranded now s) 0 s
