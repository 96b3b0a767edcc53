-- ===== src/Orders/Plan.antt =====
-- The checks of `OrdersService.create` (apps/api/src/orders/orders.service.ts), and the order that they
-- plan.
use openseat.Base.{
  ℕ, ◌+◌, ◌*◌, Bool, not, ◌&&◌, Option, none, some, List, [], ◌∷◌, map, ◌==◌, leb, ltb,
  if◌then◌else◌, is_some, find, select, delete, any, length, sum_of, is_text, truthy, trim,
  to_lower_case,
}
use openseat.Store.{Store, Text, Order, OrderItem, TicketType, Seat}
use openseat.Store.Action.{
  Action, bad_request, not_found, ◌>>=◌, ◌>>◌, return, read, require, require_some,
}
use openseat.Holds.{is_published}
use openseat.Inventory.{is_ga, find_type, price_of}
use mathlib.Core.Option

abbrev pub payment_window_ms : ℕ
payment_window_ms = 15 * 60000

-- An item of the request; its price is looked up.
pub record ItemInput : Type 0 where
  pub ticket_type_id : ℕ
  pub quantity : ℕ

-- The arguments of `create`; absent `items` or `seatIds` are empty.
pub record Request : Type 0 where
  pub event_id : ℕ
  pub items : List ItemInput
  pub seat_ids : List ℕ
  pub buyer_email : Text
  pub buyer_name : Text
  pub buyer_user_id : Option ℕ
  pub idempotency_key : Option Text
  pub holder_key : Option Text

-- `[...new Set(ids)]`
unfoldable pub distinct : List ℕ → List ℕ
distinct [] = []
distinct (x ∷ xs) = x ∷ delete (λ y. y == x) (distinct xs)

abbrev pub has_key : ℕ → Text → Order → Bool
has_key event_id key o = o.event_id == event_id && is_text o.idempotency_key key

-- `findByIdempotencyKey`, called when the key is truthy
unfoldable pub find_replay : ℕ → Option Text → Store → Option Order
find_replay event_id none s = none
find_replay event_id (some key) s =
    if truthy (some key) then find (has_key event_id key) s.orders else none

-- One round of the validation of the items.
unfoldable pub check_item : List TicketType → List ℕ → ItemInput → Action (Unit {0})
check_item types seen item = do
  type ←
      require_some (find_type item.ticket_type_id types)
        (bad_request "Unknown ticket type for this event")
  require (is_ga type.kind) (bad_request "Unknown ticket type for this event")
  require (not (any (λ x. x == item.ticket_type_id) seen))
      (bad_request "Duplicate ticket type in order")
  require (leb item.quantity type.max_per_order) (bad_request "At most n tickets per order")

unfoldable pub check_items : List TicketType → List ℕ → List ItemInput → Action (Unit {0})
unfolding check_item
check_items types seen [] = return tt
check_items types seen (item ∷ items) = do
  check_item types seen item
  check_items types (item.ticket_type_id ∷ seen) items

-- `event.ticketTypes`
abbrev pub event_types : ℕ → Store → List TicketType
event_types event_id s = select (λ t. t.event_id == event_id) s.ticket_types

unfoldable pub find_seats : ℕ → List ℕ → Store → List Seat
find_seats event_id seat_ids s =
    select (λ x. any (λ i. i == x.id) seat_ids && x.event_id == event_id) s.seats

-- An item with its price, as the order stores it.
unfoldable pub priced : List TicketType → ItemInput → OrderItem
priced types item = record {
  ticket_type_id = item.ticket_type_id;
  quantity = item.quantity;
  unit_price_satang = price_of types item.ticket_type_id;
}

-- One round of the loop that fills `seatGroups`.
unfoldable pub add_seat : ℕ → ℕ → List OrderItem → List OrderItem
add_seat type_id price [] =
    record { ticket_type_id = type_id; quantity = 1; unit_price_satang = price } ∷ []
add_seat type_id price (g ∷ gs) =
    if g.ticket_type_id == type_id
    then record g { quantity = g.quantity + 1 } ∷ gs
    else g ∷ add_seat type_id price gs

unfoldable pub seat_groups : List TicketType → List OrderItem → List Seat → List OrderItem
unfolding add_seat
seat_groups types groups [] = groups
seat_groups types groups (x ∷ xs) =
    seat_groups types (add_seat x.ticket_type_id (price_of types x.ticket_type_id) groups) xs

unfoldable pub total_of : List TicketType → List OrderItem → List Seat → ℕ
total_of types ga_items seats =
    sum_of (λ i. i.quantity * i.unit_price_satang) ga_items
    + sum_of (λ x. price_of types x.ticket_type_id) seats

-- What the validation hands to the transaction.
pub record Plan : Type 0 where
  pub event_id : ℕ
  pub buyer_user_id : Option ℕ
  pub buyer_email : Text
  pub buyer_name : Text
  pub idempotency_key : Option Text
  pub holder_key : Text
  pub ga_items : List OrderItem
  pub seat_ids : List ℕ
  pub seats : List Seat
  pub groups : List OrderItem
  pub total_satang : ℕ
  pub expires_at : Option ℕ

abbrev pub requires_payment : Plan → Bool
requires_payment p = is_some p.expires_at

-- The plan that a valid request leads to.
unfoldable pub plan_of : ℕ → Request → List ℕ → Store → Plan
unfolding priced seat_groups total_of find_seats
plan_of now r seat_ids s = record {
  event_id = r.event_id;
  buyer_user_id = r.buyer_user_id;
  buyer_email = to_lower_case (trim r.buyer_email);
  buyer_name = trim r.buyer_name;
  idempotency_key = r.idempotency_key;
  holder_key = Option.get_or r.holder_key [];
  ga_items = ga_items;
  seat_ids = seat_ids;
  seats = seats;
  groups = seat_groups s.ticket_types [] seats;
  total_satang = total;
  expires_at = if ltb 0 total then some (now + payment_window_ms) else none;
}
  where
    ga_items : List OrderItem
    ga_items = map (priced (event_types r.event_id s)) r.items

    seats : List Seat
    seats = find_seats r.event_id seat_ids s

    total : ℕ
    total = total_of s.ticket_types ga_items seats

-- The checks between the look-up of a replay and the transaction.
unfoldable pub validate : ℕ → Request → List ℕ → Action Plan
unfolding check_items find_seats
validate now r seat_ids = do
  published ← read (λ s. any (λ e. e.id == r.event_id && is_published e.status) s.events)
  require published (not_found "Event not found")
  types ← read (event_types r.event_id)
  check_items types [] r.items
  seats ← read (find_seats r.event_id seat_ids)
  require (length seats == length seat_ids) (bad_request "Unknown seat for this event")
  read (plan_of now r seat_ids)
