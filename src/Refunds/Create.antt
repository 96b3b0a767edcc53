-- ===== src/Refunds/Create.antt =====
-- `RefundsService.create` (apps/api/src/refunds/refunds.service.ts).
use openseat.Base.{
  ℕ, Bool, true, false, ◌&&◌, Option, none, some, List, [], ◌∷◌, map, ◌==◌, ltb, if◌then◌else◌,
  find, count, select, update, any, length, sum_of, truthy,
}
use openseat.Store.{
  Store, Text, OrderItem, OrderStatus, Payment, Refund, pending, succeeded, Ticket, TicketStatus,
  issued, void, seats_released, order_updated,
}
use openseat.Store.Action.{
  Action, Error, bad_request, not_found, conflict, unique_violation, record_not_found, ok, err,
  Result, ◌>>=◌, ◌>>◌, return, throw, read, write, require, require_some, transaction, for_each,
}
use openseat.Access.{manager, require_event_role}
use openseat.Inventory.{increment, write_in_tx, write_if, counts_of}
use openseat.Orders.{is_refundable}
use openseat.Refunds.{
  has_refund_key, insert_refund, CreateRefund, send_money_leg, settle_in_tx, find_payment,
  find_refund,
}

pub record Request : Type 0 where
  pub event_id : ℕ
  pub order_id : ℕ
  pub ticket_ids : List ℕ
  pub user_id : ℕ
  pub idempotency_key : Option Text

unfoldable pub find_replay : ℕ → Option Text → Store → Option Refund
find_replay order_id none s = none
find_replay order_id (some key) s =
    if truthy (some key) then find (has_refund_key order_id key) s.refunds else none

abbrev pub is_chosen : List ℕ → ℕ → Ticket → Bool
is_chosen ticket_ids order_id t = t.order_id == order_id && any (λ i. i == t.id) ticket_ids

-- `new Map(items.map(…)).get(type) ?? 0`: a later item of the same type wins.
unfoldable pub price_paid : List OrderItem → ℕ → ℕ
price_paid [] type_id = 0
price_paid (item ∷ items) type_id =
    if any (λ i. i.ticket_type_id == type_id) items
    then price_paid items type_id
    else if item.ticket_type_id == type_id
    then item.unit_price_satang
    else 0

unfoldable pub amount_of : List OrderItem → List Ticket → ℕ
unfolding price_paid
amount_of items tickets = sum_of (λ t. price_paid items t.ticket_type_id) tickets

abbrev pub is_issued : TicketStatus → Bool
is_issued issued = true
is_issued _ = false

abbrev pub is_voidable : List ℕ → ℕ → Ticket → Bool
is_voidable ticket_ids order_id t = is_chosen ticket_ids order_id t && is_issued t.status

abbrev pub void_for : ℕ → Ticket → Ticket
void_for refund_id t = record t { status = void; refund_id = some refund_id }

unfoldable pub seat_ids_of : List Ticket → List ℕ
seat_ids_of [] = []
seat_ids_of (t ∷ ts) = elim t.seat_id [
  | none ↦ seat_ids_of ts
  | some seat_id ↦ seat_id ∷ seat_ids_of ts
]

-- What `create` read before its transaction.
pub record Plan : Type 0 where
  pub event_id : ℕ
  pub order_id : ℕ
  pub order_status : OrderStatus
  pub ticket_ids : List ℕ
  pub tickets : List Ticket
  pub user_id : ℕ
  pub idempotency_key : Option Text
  pub amount_satang : ℕ

abbrev pub is_free : Plan → Bool
is_free p = p.amount_satang == 0

abbrev pub new_refund : ℕ → Plan → Refund
new_refund now p = record {
  id = 0;
  order_id = p.order_id;
  provider_refund_id = none;
  amount_satang = p.amount_satang;
  status = if is_free p then succeeded else pending;
  idempotency_key = p.idempotency_key;
  requested_by_id = some p.user_id;
  settled_at = if is_free p then some now else none;
}

-- Voids the chosen tickets, and throws unless all of them were issued.
unfoldable pub void_tickets : Plan → ℕ → Action (Unit {0})
void_tickets p refund_id = do
  voided ← read (λ s. count (is_voidable p.ticket_ids p.order_id) s.tickets)
  write λ s. record s {
    tickets = update (is_voidable p.ticket_ids p.order_id) (void_for refund_id) s.tickets;
  }
  require (voided == length p.ticket_ids) (conflict "A ticket was already used or refunded")

-- Gives the inventory of the tickets back, by ticket type.
unfoldable pub restore : List Ticket → Action (Unit {0})
restore tickets =
    for_each (counts_of [] (map (λ t. t.ticket_type_id) tickets)) (λ c. increment c.0 c.1)

-- The body of the transaction of `create`: the id of the refund.
unfoldable pub reclaim : ℕ → Plan → Action ℕ
reclaim now p = do
  refund_id ← insert_refund (new_refund now p)
  void_tickets p refund_id
  restore p.tickets
  let seat_ids = seat_ids_of p.tickets
  write_if (ltb 0 (length seat_ids)) (seats_released p.event_id seat_ids)
  if is_free p
      then settle_in_tx p.order_id 0
      else write_in_tx (order_updated p.order_id p.order_status)
  return refund_id

abbrev pub Reply : Type 0
Reply = Refund × Bool

-- The checks between the look-up of a replay and the transaction, and the order's payment.
unfoldable pub validate : Request → Action (Plan × Option Payment)
unfolding amount_of
validate r = do
  found ← read (λ s. find (λ o. o.id == r.order_id && o.event_id == r.event_id) s.orders)
  order ← require_some found (not_found "Order not found")
  require (is_refundable order.status) (conflict "Order is not refundable")
  tickets ← read (λ s. select (is_chosen r.ticket_ids r.order_id) s.tickets)
  require (length tickets == length r.ticket_ids) (bad_request "Unknown ticket for this order")
  payment ← read (find_payment r.order_id)
  return (
    record {
      event_id = r.event_id;
      order_id = r.order_id;
      order_status = order.status;
      ticket_ids = r.ticket_ids;
      tickets = tickets;
      user_id = r.user_id;
      idempotency_key = r.idempotency_key;
      amount_satang = amount_of order.items tickets;
    },
    payment,
  )

unfoldable pub pay_back : CreateRefund → Plan → Option Payment → ℕ → Action (Unit {0})
pay_back create_refund p none refund_id = return tt
pay_back create_refund p (some payment) refund_id =
    if is_free p
    then return tt
    else send_money_leg create_refund refund_id payment.provider_intent_id p.amount_satang

unfoldable pub finish : CreateRefund → Plan → Option Payment → ℕ → Action Reply
finish create_refund p payment refund_id = do
  pay_back create_refund p payment refund_id
  found ← read (find_refund refund_id)
  refund ← require_some found record_not_found
  return (refund, false)

abbrev pub is_unique_violation : Error → Bool
is_unique_violation unique_violation = true
is_unique_violation _ = false

unfoldable pub recover : Request → Error → Action Reply
recover r e = do
  existing ← read (find_replay r.order_id r.idempotency_key)
  elim existing [
    | none ↦ throw e
    | some refund ↦ if is_unique_violation e then return (refund, true) else throw e
  ]

abbrev pub reclaimed :
    CreateRefund → Request → Plan → Option Payment → Result ℕ × Store → Result Reply × Store
reclaimed create_refund r p payment (ok refund_id, s) = finish create_refund p payment refund_id s
reclaimed create_refund r p payment (err e, s) = recover r e s

unfoldable pub place : ℕ → CreateRefund → Request → Action Reply
place now create_refund r = do
  (p, payment) ← validate r
  λ s. reclaimed create_refund r p payment (transaction (reclaim now p) s)

unfoldable pub create : ℕ → CreateRefund → Request → Action Reply
create now create_refund r = do
  allowed ← require_event_role r.event_id r.user_id manager
  existing ← read (find_replay r.order_id r.idempotency_key)
  elim existing [ some refund ↦ return (refund, true) | none ↦ place now create_refund r ]
