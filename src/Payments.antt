-- ===== src/Payments.antt =====
-- apps/api/src/payments/payments.service.ts after the signature check, and the body of the webhook
-- handler of payments.controller.ts: what a verified event of the provider does.
pub mod Keeps
pub mod Once
pub mod Refunded
pub mod Webhook
pub mod Delivery
use openseat.Base.{
  ℕ, Bool, true, false, ◌&&◌, Option, none, some, List, [], ◌∷◌, ◌++◌, map, ◌==◌, ltb,
  if◌then◌else◌, is_some, find, select, update, any, length,
}
use openseat.Store.{
  Store, Text, Order, OrderItem, OrderStatus, canceled, Payment, PaymentStatus, requires_action,
  Refund, RefundStatus, WebhookEvent, Seat, ticket_issued, seats_sold, order_updated,
}
use openseat.Store.Action.{
  Action, record_not_found, ◌>>=◌, ◌>>◌, return, read, write, require_some, transaction, for_each,
}
use openseat.Inventory.{
  is_ga_type, decrement, ga_drafts, seat_drafts, issue_tickets, write_in_tx, write_if, counts_of,
}
use openseat.Orders.{
  find_order, claim_order, is_unfulfillable, take_holds, release_order_inventory_in_tx,
}
use openseat.Refunds.{
  find_refund, claim_refund, settle_in_tx, CreateRefund, compensate_unfulfilled_payment,
}

pub data EventType : Type 0 where
  payment_succeeded payment_failed payment_refunded : EventType
  unknown : Text → EventType

-- `PaymockWebhookEvent`; the payload's order and amount are not read.
pub record PaymockEvent : Type 0 where
  pub id : ℕ
  pub type : EventType
  pub type_name : Text
  pub intent_id : ℕ
  pub refund_id : Option ℕ
  pub reference : Option ℕ

pub data RecordResult : Type 0 where
  fresh unprocessed processed : RecordResult

pub data SucceededOutcome : Type 0 where
  ignored : SucceededOutcome
  paid : SucceededOutcome
  unfulfillable : ℕ → ℕ → SucceededOutcome

abbrev pub is_event : ℕ → WebhookEvent → Bool
is_event event_id e = e.provider_event_id == event_id

-- The row that a lost insert on the provider's id finds.
abbrev pub state_of : Option WebhookEvent → RecordResult
state_of none = unprocessed
state_of (some row) = if is_some row.processed_at then processed else unprocessed

unfoldable pub record_event : PaymockEvent → Action RecordResult
record_event e s =
    if any (is_event e.id) s.webhook_events
    then return (state_of (find (is_event e.id) s.webhook_events)) s
    else return fresh (record s {
      webhook_events =
          record { provider_event_id = e.id; type = e.type_name; processed_at = none }
          ∷ s.webhook_events;
    })

unfoldable pub mark_processed : ℕ → ℕ → Action (Unit {0})
mark_processed now event_id = write λ s. record s {
  webhook_events =
      update (is_event event_id) (λ e. record e { processed_at = some now }) s.webhook_events;
}

-- `providerRefundId: event.refundId`: an `undefined` leaves the column as it is.
abbrev pub settle_refund : ℕ → Option ℕ → Refund → Refund
settle_refund now provider_id r = record r {
  status = RefundStatus.succeeded;
  settled_at = some now;
  provider_refund_id = elim provider_id [ none ↦ r.provider_refund_id | some id ↦ some id ];
}

-- The transaction of `handleRefunded`, for the refund that the reference names.
unfoldable pub settle_reference : ℕ → Option ℕ → ℕ → Action (Unit {0})
settle_reference now provider_id reference = do
  claimed ← claim_refund reference RefundStatus.pending (settle_refund now provider_id)
  if claimed
      then (do
        found ← read (find_refund reference)
        refund ← require_some found record_not_found
        settle_in_tx refund.order_id refund.amount_satang)
      else return tt

unfoldable pub handle_refunded : ℕ → PaymockEvent → Action (Unit {0})
handle_refunded now e = elim e.reference [
  | none ↦ return tt
  | some reference ↦ transaction (settle_reference now e.refund_id reference)
]

abbrev pub requires_action_status : PaymentStatus → Bool
requires_action_status requires_action = true
requires_action_status _ = false

abbrev pub has_intent : ℕ → Payment → Bool
has_intent intent_id p = p.provider_intent_id == intent_id

abbrev pub is_open_payment : ℕ → Payment → Bool
is_open_payment intent_id p = has_intent intent_id p && requires_action_status p.status

-- `payment.updateMany({ where: { providerIntentId, status: 'requires_action' } })`
unfoldable pub claim_payment : ℕ → PaymentStatus → Action Bool
claim_payment intent_id status s =
    if any (is_open_payment intent_id) s.payments
    then return true (record s {
      payments = update (is_open_payment intent_id) (λ p. record p { status = status }) s.payments;
    })
    else return false s

-- `tx.seat.findMany({ where: { id: { in: seatIds } } })`
unfoldable pub seats_with : List ℕ → Store → List Seat
seats_with seat_ids s = select (λ x. any (λ i. i == x.id) seat_ids) s.seats

unfoldable pub ga_items : Store → List OrderItem → List OrderItem
ga_items s items = select (λ i. is_ga_type s.ticket_types i.ticket_type_id) items

-- What `handleSucceeded` does for the order that it has just marked as paid.
unfoldable pub fulfil : Order → Action (Unit {0})
fulfil order = do
  seat_ids ← take_holds order.id
  seats ← read (seats_with seat_ids)
  for_each (counts_of [] (map (λ x. x.ticket_type_id) seats)) (λ c. decrement c.0 c.1)
  items ← read (λ s. ga_items s order.items)
  issue_tickets
      (record {
        order_id = order.id;
        event_id = order.event_id;
        attendee_email = order.buyer_email;
        attendee_name = order.buyer_name;
      })
      (ga_drafts items ++ seat_drafts seats)
  write_in_tx (ticket_issued order.id)
  write_in_tx (order_updated order.id OrderStatus.paid)
  write_if (ltb 0 (length seat_ids)) (seats_sold order.event_id seat_ids)

-- A captured payment whose order does not wait for it.
abbrev pub stale_outcome : Payment → Option Order → SucceededOutcome
stale_outcome payment none = ignored
stale_outcome payment (some order) =
    if is_unfulfillable order.status
    then unfulfillable payment.order_id payment.amount_satang
    else ignored

unfoldable pub settle_order : Payment → Action SucceededOutcome
settle_order payment = do
  claimed ← claim_order payment.order_id OrderStatus.paid
  found ← read (find_order payment.order_id)
  if claimed
      then (do order ← require_some found record_not_found; fulfil order; return paid)
      else return (stale_outcome payment found)

-- The transaction of `handleSucceeded`.
unfoldable pub capture : ℕ → Action SucceededOutcome
capture intent_id = do
  found ← read (λ s. find (has_intent intent_id) s.payments)
  elim found [
    | none ↦ return ignored
    | some payment ↦ do
      claimed ← claim_payment intent_id PaymentStatus.succeeded
      if claimed then settle_order payment else return ignored
  ]

unfoldable pub compensate : CreateRefund → ℕ → SucceededOutcome → Action (Unit {0})
compensate create_refund intent_id (unfulfillable order_id amount_satang) =
    compensate_unfulfilled_payment create_refund order_id amount_satang intent_id
compensate create_refund intent_id _ = return tt

unfoldable pub handle_succeeded : CreateRefund → PaymockEvent → Action (Unit {0})
handle_succeeded create_refund e = do
  outcome ← transaction (capture e.intent_id)
  compensate create_refund e.intent_id outcome

-- The transaction of `handleFailed`.
unfoldable pub cancel : ℕ → Action (Unit {0})
cancel intent_id = do
  found ← read (λ s. find (has_intent intent_id) s.payments)
  elim found [
    | none ↦ return tt
    | some payment ↦ do
      claimed ← claim_payment intent_id PaymentStatus.failed
      if claimed
          then (do released ← release_order_inventory_in_tx payment.order_id canceled; return tt)
          else return tt
  ]

unfoldable pub handle_failed : PaymockEvent → Action (Unit {0})
handle_failed e = transaction (cancel e.intent_id)

-- The `switch` of `processEvent`.
unfoldable pub dispatch : CreateRefund → ℕ → PaymockEvent → EventType → Action (Unit {0})
dispatch create_refund now e payment_succeeded = handle_succeeded create_refund e
dispatch create_refund now e payment_failed = handle_failed e
dispatch create_refund now e payment_refunded = handle_refunded now e
dispatch create_refund now e (unknown name) = return tt

unfoldable pub process_event : CreateRefund → ℕ → PaymockEvent → Action (Unit {0})
process_event create_refund now e = do dispatch create_refund now e e.type; mark_processed now e.id

-- The webhook handler once the body is parsed: whether it answers "duplicate".
unfoldable pub webhook : CreateRefund → ℕ → PaymockEvent → Action Bool
webhook create_refund now e = do
  recorded ← record_event e
  elim recorded [
    | processed ↦ return true
    | fresh ↦ (do process_event create_refund now e; return false)
    | unprocessed ↦ (do process_event create_refund now e; return false)
  ]
