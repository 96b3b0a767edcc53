-- ===== src/Examples/Money.antt =====
-- The shop's order is paid, fails, is refunded and checked in: theorems at concrete inputs.
use openseat.Base.{
  ◌≡◌, refl, [], ◌∷◌, none, some, true, false, find, select, count, update, delete, any, sum_of,
  text_eq, is_text, arith, ◌≤◌, ◌-◌, ◌==◌,
}
use openseat.Store.{Store, Ticket, issued, TicketStatus, OrderStatus}
use openseat.Store.Action.{ok}
use openseat.Inventory.{
  find_type, is_ga_type, decrement, increment, ga_drafts, seat_drafts, seat_taken, issue_ticket,
  issue_tickets, write_in_tx, write_if, add_count, counts_of,
}
use openseat.Orders.{
  take_holds, claim_order, restore_item, release_claimed, release_order_inventory_in_tx,
}
use openseat.Orders.Once.{release_order-once}
use openseat.Refunds.{insert_refund, refund_key_taken, claim_refund, settle_in_tx, refresh_status}
use openseat.Refunds.Create.{Plan as RefundPlan, void_tickets, restore, seat_ids_of, reclaim}
use openseat.Refunds.Once.{IsAmong, reclaim-once}
use openseat.Payments.{
  SucceededOutcome, record_event, mark_processed, claim_payment, seats_with, ga_items, fulfil,
  settle_order, capture, compensate, handle_succeeded, cancel, dispatch, process_event, webhook,
  settle_reference,
}
use openseat.Payments.Once.{capture-once, cancel-once}
use openseat.Payments.Delivery.{webhook-once}
use openseat.Payments.Refunded.{settle_reference-once}
use openseat.Checkin.{CheckinResult, Outcome, already_checked_in, claim_ticket, result_of, admit}
use openseat.SeatMaps.Label.{seat_of, ticket_seat, type_name}
use openseat.Checkin.Once.{admit-once}
use openseat.Holds.Exclusive.{succeeds}
use openseat.Store.Returns.{Returns}
use openseat.Orders.{is_stranded, reconcile_expired, reconcile_batch_size}
use openseat.Orders.Reconcile.{reconcile_expired-Returns}
use openseat.Examples.{ann, with_order, no_refund, captured_event}

-- The order is paid: the store after its payment is captured.
abbrev with_tickets : Store
with_tickets = (capture 3 with_order).1

capture_test : capture 3 with_order ≡ (ok SucceededOutcome.paid, with_tickets)
unfolding capture claim_payment settle_order fulfil take_holds claim_order seats_with ga_items
    ga_drafts seat_drafts counts_of add_count decrement issue_tickets issue_ticket seat_taken
    write_in_tx write_if is_ga_type find_type find select count update delete any sum_of
capture_test = refl

capture-once_example :
    (capture 3 with_tickets ≡ (ok SucceededOutcome.ignored, with_tickets))
    × (cancel 3 with_tickets ≡ (ok tt, with_tickets))
capture-once_example = capture-once 3 with_order with_tickets SucceededOutcome.paid capture_test

-- The payment failed.
abbrev with_failure : Store
with_failure = (cancel 3 with_order).1

cancel_test : cancel 3 with_order ≡ (ok tt, with_failure)
unfolding cancel claim_payment release_order_inventory_in_tx release_claimed restore_item take_holds
    claim_order increment write_in_tx write_if is_ga_type find_type find select count update delete
    any sum_of
cancel_test = refl

cancel-once_example :
    (capture 3 with_failure ≡ (ok SucceededOutcome.ignored, with_failure))
    × (cancel 3 with_failure ≡ (ok tt, with_failure))
cancel-once_example = cancel-once 3 with_order with_failure cancel_test

abbrev after_webhook : Store
after_webhook = (webhook no_refund 1 captured_event with_order).1

webhook_test : webhook no_refund 1 captured_event with_order ≡ (ok false, after_webhook)
unfolding webhook record_event process_event dispatch handle_succeeded compensate mark_processed
    capture claim_payment settle_order fulfil take_holds claim_order seats_with ga_items ga_drafts
    seat_drafts counts_of add_count decrement issue_tickets issue_ticket seat_taken write_in_tx
    write_if is_ga_type find_type find select count update delete any sum_of
webhook_test = refl

webhook-once_example : webhook no_refund 9 captured_event after_webhook ≡ (ok true, after_webhook)
webhook-once_example =
    webhook-once no_refund no_refund 1 9 captured_event with_order after_webhook false webhook_test

abbrev released : Store
released = (release_order_inventory_in_tx 100 OrderStatus.expired with_order).1

release_test :
    release_order_inventory_in_tx 100 OrderStatus.expired with_order ≡ (ok true, released)
unfolding cancel claim_payment release_order_inventory_in_tx release_claimed restore_item take_holds
    claim_order increment write_in_tx write_if is_ga_type find_type find select count update delete
    any sum_of
release_test = refl

release_order-once_example :
    release_order_inventory_in_tx 100 OrderStatus.canceled released ≡ (ok false, released)
release_order-once_example =
    release_order-once 100 OrderStatus.expired OrderStatus.canceled with_order released true refl
      release_test

-- The first ticket of the order.
abbrev first_ticket : Ticket
first_ticket = record {
  id = 101;
  order_id = 100;
  event_id = 1;
  ticket_type_id = 10;
  seat_id = none;
  attendee_email = ann;
  attendee_name = ann;
  qr_token = 101;
  status = issued;
  refund_id = none;
  checked_in_at = none;
}

abbrev refund_plan : RefundPlan
refund_plan = record {
  event_id = 1;
  order_id = 100;
  order_status = OrderStatus.paid;
  ticket_ids = 101 ∷ [];
  tickets = first_ticket ∷ [];
  user_id = 9;
  idempotency_key = some ann;
  amount_satang = 500;
}

abbrev refunded : Store
refunded = (reclaim 2 refund_plan with_tickets).1

reclaim_test : reclaim 2 refund_plan with_tickets ≡ (ok 105, refunded)
unfolding reclaim insert_refund refund_key_taken void_tickets restore seat_ids_of counts_of
    add_count increment settle_in_tx refresh_status write_in_tx write_if is_text text_eq find select
    count update delete any sum_of capture claim_payment settle_order fulfil take_holds claim_order
    seats_with ga_items ga_drafts seat_drafts decrement issue_tickets issue_ticket seat_taken
    is_ga_type find_type
reclaim_test = refl

-- Another user asks for the same tickets, without a key and at another price.
abbrev other_plan : RefundPlan
other_plan = record refund_plan { idempotency_key = none; user_id = 8; amount_satang = 1 }

same_tickets : IsAmong refund_plan.ticket_ids other_plan.ticket_ids
unfolding any
same_tickets = ground arith

reclaim-once_example : succeeds (reclaim 3 other_plan refunded).0 ≡ false
reclaim-once_example =
    reclaim-once 2 3 refund_plan other_plan with_tickets refunded 105 refl same_tickets
      (omega arith) reclaim_test

abbrev settled : Store
settled = (settle_reference 4 (some 8) 105 refunded).1

settle_test : settle_reference 4 (some 8) 105 refunded ≡ (ok tt, settled)
unfolding settle_reference claim_refund reclaim insert_refund refund_key_taken void_tickets restore
    seat_ids_of counts_of add_count increment settle_in_tx refresh_status write_in_tx write_if
    is_text text_eq find select count update delete any sum_of capture claim_payment settle_order
    fulfil take_holds claim_order seats_with ga_items ga_drafts seat_drafts decrement issue_tickets
    issue_ticket seat_taken is_ga_type find_type
settle_test = refl

settle_reference-once_example : settle_reference 5 none 105 settled ≡ (ok tt, settled)
settle_reference-once_example =
    settle_reference-once 4 5 (some 8) none 105 refunded settled settle_test

abbrev scanned_once : Store
scanned_once = (admit 6 101 with_tickets).1

abbrev admitted : CheckinResult
admitted = record {
  outcome = Outcome.checked_in;
  ticket_id = 101;
  attendee_name = ann;
  ticket_type = [];
  seat = none;
  status = TicketStatus.checked_in;
  checked_in_at = some 6;
}

admit_test : admit 6 101 with_tickets ≡ (ok admitted, scanned_once)
unfolding admit claim_ticket result_of ticket_seat seat_of type_name capture claim_payment
    settle_order fulfil take_holds claim_order seats_with ga_items ga_drafts seat_drafts counts_of
    add_count decrement issue_tickets issue_ticket seat_taken write_in_tx write_if is_ga_type
    find_type find select count update delete any sum_of
admit_test = refl

one_ticket : count (λ t. t.id == 101) with_tickets.tickets ≤ 1
unfolding capture claim_payment settle_order fulfil take_holds claim_order seats_with ga_items
    ga_drafts seat_drafts counts_of add_count decrement issue_tickets issue_ticket seat_taken
    write_in_tx write_if is_ga_type find_type find select count update delete any sum_of
one_ticket = omega arith

admit-once_example :
    admit 7 101 scanned_once ≡ (ok (record admitted { outcome = already_checked_in }), scanned_once)
admit-once_example = admit-once 6 7 101 with_tickets scanned_once admitted one_ticket admit_test

-- The payment window of the order ends while it waits.
late_test : count (is_stranded 900000) with_order.orders ≡ 1
unfolding count
late_test = refl

reconcile_expired-Returns_example : Returns (reconcile_expired 900000 with_order) (λ _ s'.
    count (is_stranded 900000) s'.orders
    ≤ count (is_stranded 900000) with_order.orders - reconcile_batch_size)
reconcile_expired-Returns_example = reconcile_expired-Returns 900000 with_order
