-- ===== src/Examples.antt =====
-- A shop with one event, and a first order there; the children apply the theorems to concrete calls of it.
mod Money
mod Seats
mod Views
mod LostSeat
mod Accounts
mod Organizers
mod Reports
mod Door
mod Editor
use openseat.Base.{
  ℕ, ◌+◌, ◌≡◌, refl, List, [], ◌∷◌, none, some, true, false, codes, All, find, select, count,
  update, delete, any, sum_of, text_eq, is_text, truthy, trim, is_space, trim_start, lower_code,
  arith, ◌≤◌, ◌==◌, is_some, leb, ltb, ◌&&◌, ◌||◌, ◌++◌, ◌↔◌, map,
}
use openseat.Store.{
  Store, Text, Event, published, TicketType, ga, seated, Seat, Hold, Order, Ticket, issued,
  TicketStatus, OrderStatus, PaymentStatus,
}
use openseat.Store.Action.{ok}
use openseat.Inventory.{
  find_type, is_ga_type, price_of, claim_item, decrement, increment, ga_drafts, seat_drafts,
  seat_taken, issue_ticket, issue_tickets, write_in_tx, write_if, add_count, counts_of,
}
use openseat.Holds.{
  find_open_seat, held_by_key, drop_expired_hold, insert_hold, claim_seat, acquire, find_hold,
  holds_seat, seat_sold, max_held_per_key, by_event, sweep_expired,
}
use openseat.Holds.Claims.{IsHeld, acquire-IsHeld, claimed}
use openseat.Holds.Sweep.{group_of, by_event-groups, sweep_expired-holds}
use openseat.Orders.Totals.{amount, plan_of-total}
use openseat.Access.{manager, require_event_role}
use openseat.Books.{in_checkout, issued_of}
use openseat.System.{after, Reach, Reach-step, claim_hold}
use openseat.System.Inventory.{inventory_conserved}
use openseat.System.Calls.{Call, create_order, receive, serve, serve_all}
use openseat.System.Calls.Conserve.{IsFresh, IsFresh-Books, serve-Reach, runs_conserve}
use openseat.Orders.Create.{
  CreateIntent, key_taken, insert_order, settle_holds, issue_free, place_order, insert_payment,
  request_payment, open_payment, finish, place, create,
}
use openseat.Orders.Plan.{
  Request, distinct, find_replay, check_item, check_items, find_seats, priced, add_seat,
  seat_groups, total_of, plan_of, validate,
}
use openseat.Orders.Idempotent.{create-once}
use openseat.Orders.{
  take_holds, claim_order, restore_item, release_claimed, release_order_inventory_in_tx,
}
use openseat.Orders.Once.{release_order-once}
use openseat.Refunds.{
  CreateRefund, insert_refund, refund_key_taken, claim_refund, settle_in_tx, refresh_status,
}
use openseat.Refunds.Create.{Plan as RefundPlan, void_tickets, restore, seat_ids_of, reclaim}
use openseat.Refunds.Once.{reclaim-once}
use openseat.Payments.{
  PaymockEvent, payment_succeeded, SucceededOutcome, record_event, mark_processed, claim_payment,
  seats_with, ga_items, fulfil, settle_order, capture, compensate, handle_succeeded, cancel,
  dispatch, process_event, webhook, settle_reference,
}
use openseat.Payments.Once.{capture-once, cancel-once}
use openseat.Payments.Delivery.{webhook-once}
use openseat.Payments.Refunded.{settle_reference-once}
use openseat.Checkin.{CheckinResult, Outcome, already_checked_in, claim_ticket, admit}
use openseat.Checkin.Once.{admit-once}
use openseat.Holds.Exclusive.{succeeds, acquire-held, acquire-free}

abbrev concert : Event
concert = record {
  id = 1;
  organizer_id = 9;
  slug = codes "indie";
  title = codes "Indie";
  description = [];
  venue_name = codes "Bangkok";
  starts_at = 0;
  ends_at = none;
  status = published;
  drop_mode = false;
  created_at = 0;
}

abbrev standing : TicketType
standing = record {
  id = 10;
  event_id = 1;
  kind = ga;
  name = [];
  price_satang = 500;
  quantity = 5;
  remaining = 5;
  max_per_order = 4;
}

abbrev stalls : TicketType
stalls = record {
  id = 11;
  event_id = 1;
  kind = seated;
  name = [];
  price_satang = 900;
  quantity = 2;
  remaining = 2;
  max_per_order = 4;
}

abbrev seat_a : Seat
seat_a = record {
  id = 20;
  event_id = 1;
  ticket_type_id = 11;
  section = [];
  row_label = 1;
  number = 1;
  x = 0;
  y = 0;
}

abbrev shop : Store
shop = record {
  users = [];
  refresh_tokens = [];
  events = concert ∷ [];
  team_members = [];
  ticket_types = standing ∷ stalls ∷ [];
  seat_maps = [];
  seats = seat_a ∷ [];
  holds = [];
  orders = [];
  payments = [];
  webhook_events = [];
  tickets = [];
  refunds = [];
  outbox_events = [];
  seats_changed = [];
  next_id = 100;
}

abbrev ann : Text
ann = codes "ann"

-- Two standing tickets, under an idempotency key.
abbrev two_standing : Request
two_standing = record {
  event_id = 1;
  items = record { ticket_type_id = 10; quantity = 2 } ∷ [];
  seat_ids = [];
  buyer_email = ann;
  buyer_name = ann;
  buyer_user_id = some 7;
  idempotency_key = some ann;
  holder_key = none;
}

-- The provider names the intent 3 for each order.
abbrev intent : CreateIntent
intent order_id amount token = some (3, [])

abbrev awaiting_order : Order
awaiting_order = record {
  id = 100;
  event_id = 1;
  buyer_user_id = some 7;
  buyer_email = ann;
  buyer_name = ann;
  status = OrderStatus.awaiting_payment;
  total_satang = 1000;
  refunded_satang = 0;
  idempotency_key = some ann;
  guest_token = 100;
  expires_at = some 900000;
  items = record { ticket_type_id = 10; quantity = 2; unit_price_satang = 500 } ∷ [];
}

-- The shop after the order of two standing tickets.
abbrev with_order : Store
with_order = record shop {
  ticket_types = record standing { remaining = 3 } ∷ stalls ∷ [];
  orders = awaiting_order ∷ [];
  payments =
      record {
        order_id = 100;
        provider_intent_id = 3;
        checkout_url = [];
        status = PaymentStatus.requires_action;
        amount_satang = 1000;
      }
      ∷ [];
  next_id = 101;
}

create_test : create 0 intent two_standing shop ≡ (ok (awaiting_order, false), with_order)
unfolding create place validate place_order finish open_payment request_payment insert_payment
    settle_holds issue_free insert_order key_taken claim_item check_items check_item find_seats
    plan_of priced seat_groups total_of add_seat distinct find_replay find_type price_of find select
    count update delete any sum_of is_text text_eq truthy trim is_space trim_start lower_code
create_test = refl

abbrev no_refund : CreateRefund
no_refund intent_id amount reference = none

abbrev captured_event : PaymockEvent
captured_event = record {
  id = 50;
  type = payment_succeeded;
  type_name = [];
  intent_id = 3;
  refund_id = none;
  reference = none;
}

truthy-ann : truthy (some ann) ≡ true
unfolding truthy
truthy-ann = refl

create-once_example :
    create 5 intent two_standing with_order ≡ (ok (awaiting_order, true), with_order)
create-once_example =
    create-once 0 5 intent intent two_standing ann shop with_order (awaiting_order, false) refl
      truthy-ann create_test
