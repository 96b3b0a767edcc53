-- ===== src/Orders.antt =====
-- apps/api/src/orders/order-status.ts and the parts of orders.service.ts that release or read an
-- order. `Orders.Create` is the method `create`.
pub mod Plan
pub mod Create
pub mod Keeps
pub mod Once
pub mod Reconcile
pub mod Totals
pub mod Replay
pub mod Idempotent
use openseat.Base.{
  take, ℕ, ◌+◌, Bool, true, false, not, ◌&&◌, ◌||◌, Option, none, some, List, [], ◌∷◌, map, zero,
  suc, ◌==◌, leb, ltb, if◌then◌else◌, is_just, is_some, find, count, select, update, delete, any,
  text_eq, length,
}
use openseat.Store.{
  Store, Text, Order, OrderItem, OrderStatus, awaiting_payment, paid, expired, canceled,
  partially_refunded, refunded, Hold, Ticket, OutboxPayload, seats_released, order_updated,
}
use openseat.Store.Action.{
  Action, Error, not_found, record_not_found, ok, err, continue, ◌>>=◌, ◌>>◌, return, throw, read,
  write, require, require_some, transaction, for_each,
}
use openseat.Inventory.{is_ga_type, increment, write_in_tx, write_if}

abbrev pub is_awaiting : OrderStatus → Bool
is_awaiting awaiting_payment = true
is_awaiting _ = false

-- `PAID_ORDER_STATUSES.includes`
abbrev pub is_paid_status : OrderStatus → Bool
is_paid_status paid = true
is_paid_status partially_refunded = true
is_paid_status refunded = true
is_paid_status _ = false

-- `REFUNDABLE_ORDER_STATUSES.includes`
abbrev pub is_refundable : OrderStatus → Bool
is_refundable paid = true
is_refundable partially_refunded = true
is_refundable _ = false

-- `UNFULFILLABLE_ORDER_STATUSES.includes`
abbrev pub is_unfulfillable : OrderStatus → Bool
is_unfulfillable expired = true
is_unfulfillable canceled = true
is_unfulfillable _ = false

abbrev pub find_order : ℕ → Store → Option Order
find_order order_id s = find (λ o. o.id == order_id) s.orders

abbrev pub is_awaiting_order : ℕ → Order → Bool
is_awaiting_order order_id o = o.id == order_id && is_awaiting o.status

abbrev pub set_order_status : OrderStatus → Order → Order
set_order_status status o = record o { status = status }

-- `updateMany({ where: { id, status: 'awaiting_payment' } })`: whether it hit a row.
unfoldable pub claim_order : ℕ → OrderStatus → Action Bool
claim_order order_id status s =
    if any (is_awaiting_order order_id) s.orders
    then return true (record s {
      orders = update (is_awaiting_order order_id) (set_order_status status) s.orders;
    })
    else return false s

-- `DELETE FROM holds WHERE order_id = … RETURNING seat_id`
unfoldable pub take_holds : ℕ → Action (List ℕ)
take_holds order_id s =
    return (map (λ h. h.seat_id) (select (λ h. is_just h.order_id order_id) s.holds))
      (record s { holds = delete (λ h. is_just h.order_id order_id) s.holds })

-- One round of the loop over the order's items.
unfoldable pub restore_item : OrderItem → Action (Unit {0})
restore_item item = do
  ga ← read (λ s. is_ga_type s.ticket_types item.ticket_type_id)
  if ga then increment item.ticket_type_id item.quantity else return tt

-- What follows the claim of the order.
unfoldable pub release_claimed : ℕ → OrderStatus → Action Bool
release_claimed order_id final_status = do
  found ← read (find_order order_id)
  order ← require_some found record_not_found
  for_each order.items restore_item
  seat_ids ← take_holds order_id
  write_if (ltb 0 (length seat_ids)) (seats_released order.event_id seat_ids)
  write_in_tx (order_updated order_id final_status)
  return true

unfoldable pub release_order_inventory_in_tx : ℕ → OrderStatus → Action Bool
release_order_inventory_in_tx order_id final_status = do
  claimed ← claim_order order_id final_status
  if claimed then release_claimed order_id final_status else return false

unfoldable pub expire_order : ℕ → OrderStatus → Action (Unit {0})
expire_order order_id final_status =
    transaction do released ← release_order_inventory_in_tx order_id final_status; return tt

abbrev pub reconcile_batch_size : ℕ
reconcile_batch_size = 100

-- `expiresAt: { lte: now }`: null is not less.
abbrev pub is_due : ℕ → Option ℕ → Bool
is_due now none = false
is_due now (some t) = leb t now

abbrev pub is_stranded : ℕ → Order → Bool
is_stranded now o = is_awaiting o.status && is_due now o.expires_at

abbrev expires_before : Order → Order → Bool
expires_before a b = elim b.expires_at [ none ↦ true | some t ↦ is_due t a.expires_at ]

insert_by_expiry : Order → List Order → List Order
insert_by_expiry o [] = o ∷ []
insert_by_expiry o (p ∷ ps) = if expires_before o p then o ∷ p ∷ ps else p ∷ insert_by_expiry o ps

-- `orderBy: { expiresAt: 'asc' }`
sort_by_expiry : List Order → List Order
unfolding insert_by_expiry
sort_by_expiry [] = []
sort_by_expiry (o ∷ os) = insert_by_expiry o (sort_by_expiry os)

unfoldable pub stranded : ℕ → Store → List Order
unfolding sort_by_expiry
stranded now s = take reconcile_batch_size (sort_by_expiry (select (is_stranded now) s.orders))

-- The loop of `reconcileExpired`: how many orders it released.
unfoldable pub release_each : List Order → ℕ → Action ℕ
release_each [] n = return n
release_each (o ∷ os) n = do
  released ← transaction (release_order_inventory_in_tx o.id expired)
  release_each os (if released then n + 1 else n)

unfoldable pub reconcile_expired : ℕ → Action ℕ
unfolding stranded release_each
reconcile_expired now = do orders ← read (stranded now); release_each orders 0

-- `viewer.userId !== null && order.buyerUserId === viewer.userId`
abbrev owned_by_user : Option ℕ → Option ℕ → Bool
owned_by_user buyer none = false
owned_by_user buyer (some u) = is_just buyer u

-- `getById`: the order, for its buyer or for who holds its guest token.
unfoldable pub get_by_id : ℕ → Option ℕ → Option ℕ → Action Order
get_by_id order_id user_id guest_token = do
  found ← read (find_order order_id)
  order ← require_some found (not_found "Order not found")
  require (owned_by_user order.buyer_user_id user_id || is_just guest_token order.guest_token)
      (not_found "Order not found")
  return order

-- `listMyTickets`: tickets whose order the user bought; rows are kept newest first.
unfoldable pub list_my_tickets : ℕ → Store → List Ticket
list_my_tickets user_id s =
    select (λ t. any (λ o. o.id == t.order_id && is_just o.buyer_user_id user_id) s.orders)
      s.tickets
