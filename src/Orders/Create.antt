-- ===== src/Orders/Create.antt =====
-- `OrdersService.create` (apps/api/src/orders/orders.service.ts): the transaction that claims
-- inventory and writes the order, and the payment intent.
use openseat.Base.{
  ℕ, suc, Bool, true, false, not, ◌&&◌, ◌||◌, Option, none, some, List, [], ◌∷◌, ◌++◌, ◌==◌, ltb,
  if◌then◌else◌, count, update, delete, any, length, text_eq, truthy,
}
use openseat.Store.{
  Store, Text, Order, awaiting_payment, paid, canceled, Hold, Payment, requires_action,
  ticket_issued, seats_sold,
}
use openseat.Store.Action.{
  Action, Result, ok, err, Error, bad_request, conflict, bad_gateway, unique_violation,
  record_not_found, ◌>>=◌, ◌>>◌, return, throw, read, write, require, require_some, transaction,
  catch, for_each,
}
use openseat.Inventory.{
  claim_item, decrement, Issue, ga_drafts, seat_drafts, issue_tickets, write_in_tx, write_if,
}
use openseat.Orders.{find_order, expire_order}
use openseat.Orders.Plan.{Request, distinct, has_key, find_replay, Plan, requires_payment, validate}

-- `order.create`, under the unique key `(event_id, idempotency_key)`
unfoldable pub key_taken : ℕ → Option Text → Store → Bool
key_taken event_id none s = false
key_taken event_id (some key) s = any (has_key event_id key) s.orders

abbrev pub new_order : Plan → ℕ → Order
new_order p id = record {
  id = id;
  event_id = p.event_id;
  buyer_user_id = p.buyer_user_id;
  buyer_email = p.buyer_email;
  buyer_name = p.buyer_name;
  status = if requires_payment p then awaiting_payment else paid;
  total_satang = p.total_satang;
  refunded_satang = 0;
  idempotency_key = p.idempotency_key;
  guest_token = id;
  expires_at = p.expires_at;
  items = p.ga_items ++ p.groups;
}

unfoldable pub insert_order : Plan → Action ℕ
unfolding key_taken
insert_order p s =
    if key_taken p.event_id p.idempotency_key s
    then throw unique_violation s
    else return s.next_id
        (record s { orders = new_order p s.next_id ∷ s.orders; next_id = suc s.next_id })

-- The holds that `UPDATE` and `DELETE` name: the holder's, in time, on the chosen seats.
abbrev pub is_mine : Plan → ℕ → Hold → Bool
is_mine p now h =
    h.event_id == p.event_id
    && text_eq h.holder_key p.holder_key
    && ltb now h.expires_at
    && any (λ i. i == h.seat_id) p.seat_ids

abbrev pub bind_hold : ℕ → ℕ → Hold → Hold
bind_hold order_id expires_at h = record h { order_id = some order_id; expires_at = expires_at }

-- Binds the holds to an order that awaits its payment.
unfoldable pub bind_holds : Plan → ℕ → ℕ → ℕ → Action (Unit {0})
bind_holds p now order_id expires_at = do
  bound ← read (λ s. count (is_mine p now) s.holds)
  write λ s. record s { holds = update (is_mine p now) (bind_hold order_id expires_at) s.holds }
  require (bound == length p.seat_ids) (conflict "HOLD_EXPIRED")

-- Turns the holds of a free order into sold seats.
unfoldable pub consume_holds : Plan → ℕ → Action (Unit {0})
consume_holds p now = do
  consumed ← read (λ s. count (is_mine p now) s.holds)
  write λ s. record s { holds = delete (is_mine p now) s.holds }
  require (consumed == length p.seat_ids) (conflict "HOLD_EXPIRED")
  for_each p.groups (λ g. decrement g.ticket_type_id g.quantity)

-- `if (seatIds.length > 0) { if (requiresPayment) … else … }`
unfoldable pub settle_holds : Plan → ℕ → ℕ → Option ℕ → List ℕ → Action (Unit {0})
unfolding bind_holds consume_holds
settle_holds p now order_id expires_at [] = return tt
settle_holds p now order_id (some expires_at) (_ ∷ _) = bind_holds p now order_id expires_at
settle_holds p now order_id none (_ ∷ _) = consume_holds p now

abbrev pub issue_of : Plan → ℕ → Issue
issue_of p order_id = record {
  order_id = order_id;
  event_id = p.event_id;
  attendee_email = p.buyer_email;
  attendee_name = p.buyer_name;
}

-- `if (!requiresPayment) …`
unfoldable pub issue_free : Plan → ℕ → Option ℕ → Action (Unit {0})
issue_free p order_id (some expires_at) = return tt
issue_free p order_id none = do
  issue_tickets (issue_of p order_id) (ga_drafts p.ga_items ++ seat_drafts p.seats)
  write_in_tx (ticket_issued order_id)
  write_if (ltb 0 (length p.seat_ids)) (seats_sold p.event_id p.seat_ids)

-- The body of the transaction of `create`: the id of the new order.
unfoldable pub place_order : ℕ → Plan → Action ℕ
unfolding insert_order settle_holds issue_free
place_order now p = do
  for_each p.ga_items claim_item
  order_id ← insert_order p
  settle_holds p now order_id p.expires_at p.seat_ids
  issue_free p order_id p.expires_at
  return order_id

abbrev pub is_unique_violation : Error → Bool
is_unique_violation unique_violation = true
is_unique_violation _ = false

-- An order, and whether an earlier request had created it.
abbrev pub Reply : Type 0
Reply = Order × Bool

-- The payment provider: the intent's id and checkout address for an order, an amount and a guest
-- token, or `none` where the client throws.
abbrev pub CreateIntent : Type 0
CreateIntent = ℕ → ℕ → ℕ → Option (ℕ × Text)

-- `payment.create`, under the unique keys on the order and on the provider's intent
unfoldable pub insert_payment : Payment → Action (Unit {0})
insert_payment p s =
    if any (λ q. q.order_id == p.order_id || q.provider_intent_id == p.provider_intent_id)
      s.payments
    then throw unique_violation s
    else return tt (record s { payments = p ∷ s.payments })

unfoldable pub request_payment : CreateIntent → ℕ → Plan → Action (Unit {0})
unfolding insert_payment
request_payment create_intent order_id p = do
  found ← read (find_order order_id)
  order ← require_some found record_not_found
  (intent_id, checkout_url) ←
      require_some (create_intent order_id p.total_satang order.guest_token) bad_gateway
  insert_payment (record {
    order_id = order_id;
    provider_intent_id = intent_id;
    checkout_url = checkout_url;
    status = requires_action;
    amount_satang = p.total_satang;
  })

-- `if (requiresPayment) try { … } catch (error) { expireOrder; throw error }`
unfoldable pub open_payment : CreateIntent → ℕ → Plan → Action (Unit {0})
unfolding request_payment
open_payment create_intent order_id p =
    if requires_payment p
    then catch (request_payment create_intent order_id p)
        (λ e. do expire_order order_id canceled; throw e)
    else return tt

-- What follows the transaction.
unfoldable pub finish : CreateIntent → Plan → ℕ → Action Reply
unfolding open_payment
finish create_intent p order_id = do
  open_payment create_intent order_id p
  found ← read (find_order order_id)
  order ← require_some found record_not_found
  return (order, false)

-- The `catch` around the transaction: a lost race on the idempotency key is a replay.
unfoldable pub recover : Request → Error → Action Reply
recover r e = do
  existing ← read (find_replay r.event_id r.idempotency_key)
  elim existing [
    | none ↦ throw e
    | some order ↦ if is_unique_violation e then return (order, true) else throw e
  ]

abbrev pub placed : CreateIntent → Request → Plan → Result ℕ × Store → Result Reply × Store
placed create_intent r p (ok order_id, s) = finish create_intent p order_id s
placed create_intent r p (err e, s) = recover r e s

unfoldable pub place : ℕ → CreateIntent → Request → List ℕ → Action Reply
place now create_intent r seat_ids = do
  p ← validate now r seat_ids
  λ s. placed create_intent r p (transaction (place_order now p) s)

unfoldable pub create : ℕ → CreateIntent → Request → Action Reply
unfolding distinct find_replay place
create now create_intent r = do
  let seat_ids = distinct r.seat_ids
  require (ltb 0 (length r.items) || ltb 0 (length seat_ids))
      (bad_request "Pick at least one ticket or seat")
  require (not (ltb 0 (length seat_ids)) || truthy r.holder_key)
      (bad_request "X-Hold-Key header is required for seat orders")
  existing ← read (find_replay r.event_id r.idempotency_key)
  elim existing [ some order ↦ return (order, true) | none ↦ place now create_intent r seat_ids ]
