-- ===== src/Examples/LostSeat.antt =====
-- A run in which an order is paid and no seat is issued: its hold ends with its payment window, another
-- holder takes the seat, and then the payment is captured.
use openseat.Base.{
  ℕ, ◌≡◌, refl, List, [], ◌∷◌, none, some, codes, map, find, select, count, update, delete, any,
  sum_of, text_eq, is_text, truthy, trim, is_space, trim_start, lower_code,
}
use openseat.Store.{Text, OrderStatus, Order}
use openseat.Inventory.{
  find_type, is_ga_type, price_of, claim_item, ga_drafts, seat_drafts, issue_tickets, write_in_tx,
  write_if, counts_of,
}
use openseat.Holds.{
  acquire, find_open_seat, held_by_key, claim_seat, drop_expired_hold, insert_hold, lost_claim,
}
use openseat.Orders.{take_holds, claim_order}
use openseat.Orders.Create.{
  key_taken, insert_order, bind_holds, settle_holds, issue_free, place_order, insert_payment,
  request_payment, open_payment, finish, place, create,
}
use openseat.Orders.Plan.{
  Request, distinct, find_replay, check_items, find_seats, priced, add_seat, seat_groups, total_of,
  plan_of, validate,
}
use openseat.Payments.{
  record_event, mark_processed, claim_payment, seats_with, ga_items, fulfil, settle_order, capture,
  compensate, handle_succeeded, dispatch, process_event, webhook,
}
use openseat.System.Calls.{Call, acquire_seat, create_order, receive, serve, serve_all}
use openseat.Examples.{shop, ann, intent, no_refund, captured_event}

abbrev bob : Text
bob = codes "bob"

abbrev seat_order : Request
seat_order = record {
  event_id = 1;
  items = [];
  seat_ids = 20 ∷ [];
  buyer_email = ann;
  buyer_name = ann;
  buyer_user_id = none;
  idempotency_key = none;
  holder_key = some ann;
}

abbrev late_payment : List (ℕ × Call)
late_payment =
    (0, acquire_seat 420000 1 20 ann)
    ∷ (0, create_order seat_order)
    ∷ (900000, acquire_seat 420000 1 20 bob)
    ∷ (900000, receive captured_event)
    ∷ []

-- The order is paid, and there is no ticket.
lost_seat :
    (map (λ (o : Order). o.status) (serve_all intent no_refund late_payment shop).orders
      ≡ OrderStatus.paid ∷ [])
    × ((serve_all intent no_refund late_payment shop).tickets ≡ [])
unfolding serve_all serve acquire find_open_seat held_by_key claim_seat drop_expired_hold
    insert_hold lost_claim create place validate place_order finish open_payment request_payment
    insert_payment settle_holds bind_holds issue_free insert_order key_taken claim_item check_items
    find_seats plan_of priced seat_groups total_of add_seat distinct find_replay find_type price_of
    webhook record_event process_event dispatch handle_succeeded compensate mark_processed capture
    claim_payment settle_order fulfil take_holds claim_order seats_with ga_items ga_drafts
    seat_drafts counts_of issue_tickets write_in_tx write_if is_ga_type find select count update
    delete any sum_of is_text text_eq truthy trim is_space trim_start lower_code
lost_seat = (refl, refl)
