-- ===== src/Refunds.antt =====
-- apps/api/src/refunds/refunds.service.ts: refunds void tickets and return their inventory at once;
-- the money leg goes to the payment provider.
pub mod Create
pub mod Keeps
pub mod Once
use openseat.Base.{
  ℕ, ◌+◌, Bool, true, false, not, ◌&&◌, ◌||◌, Option, none, some, List, [], ◌∷◌, ◌==◌, ltb,
  if◌then◌else◌, is_some, is_none, suc, find, count, update, any, is_text, codes,
}
use openseat.Store.{
  Store, Text, Order, OrderStatus, refunded, partially_refunded, Payment, Refund, RefundStatus,
  pending, succeeded, failed, Ticket, OutboxPayload, order_updated, order_refunded,
}
use openseat.Store.Action.{
  Action, Error, not_found, conflict, bad_gateway, unique_violation, record_not_found, ◌>>=◌, ◌>>◌,
  return, throw, read, write, require, require_some, catch, ok, err, Result,
}
use openseat.Access.{RoleName, manager, require_event_role}
use openseat.Holds.{is_void}
use openseat.Inventory.{write_in_tx}
use openseat.Orders.{find_order, is_refundable, set_order_status}

abbrev pub find_refund : ℕ → Store → Option Refund
find_refund refund_id s = find (λ r. r.id == refund_id) s.refunds

-- `REFUND` rows of an order under an idempotency key.
abbrev pub has_refund_key : ℕ → Text → Refund → Bool
has_refund_key order_id key r = r.order_id == order_id && is_text r.idempotency_key key

unfoldable pub refund_key_taken : ℕ → Option Text → Store → Bool
refund_key_taken order_id none s = false
refund_key_taken order_id (some key) s = any (has_refund_key order_id key) s.refunds

-- `refund.create`, under the unique key `(order_id, idempotency_key)`
unfoldable pub insert_refund : Refund → Action ℕ
unfolding refund_key_taken
insert_refund r s =
    if refund_key_taken r.order_id r.idempotency_key s
    then throw unique_violation s
    else return s.next_id
        (record s { refunds = record r { id = s.next_id } ∷ s.refunds; next_id = suc s.next_id })

abbrev pub has_status : RefundStatus → RefundStatus → Bool
has_status pending pending = true
has_status succeeded succeeded = true
has_status failed failed = true
has_status _ _ = false

abbrev pub is_refund_in : RefundStatus → ℕ → Refund → Bool
is_refund_in status refund_id r = r.id == refund_id && has_status status r.status

-- `refund.updateMany({ where: { id, status: from }, data })`: whether it hit a row.
unfoldable pub claim_refund : ℕ → RefundStatus → (Refund → Refund) → Action Bool
claim_refund refund_id from change s =
    if any (is_refund_in from refund_id) s.refunds
    then return true (record s { refunds = update (is_refund_in from refund_id) change s.refunds })
    else return false s

-- The provider: its id of the refund for an intent, an amount and our reference, or `none` where
-- the client throws.
abbrev pub CreateRefund : Type 0
CreateRefund = ℕ → ℕ → ℕ → Option ℕ

unfoldable pub set_provider_id : ℕ → ℕ → Action (Unit {0})
set_provider_id refund_id provider_id = do
  found ← read (find_refund refund_id)
  refund ← require_some found record_not_found
  write λ s. record s {
    refunds =
        update (λ r. r.id == refund_id) (λ r. record r { provider_refund_id = some provider_id })
          s.refunds;
  }

unfoldable pub send_money_leg : CreateRefund → ℕ → ℕ → ℕ → Action (Unit {0})
send_money_leg create_refund refund_id intent_id amount_satang =
    catch
      (do
        provider_id ← require_some (create_refund intent_id amount_satang refund_id) bad_gateway
        set_provider_id refund_id provider_id)
      λ e. do marked ← claim_refund refund_id pending (λ r. record r { status = failed }); return tt

-- A ticket of the order that is not void.
abbrev pub is_live_in : ℕ → Ticket → Bool
is_live_in order_id t = t.order_id == order_id && not (is_void t.status)

abbrev pub add_refunded : ℕ → Order → Order
add_refunded amount o = record o { refunded_satang = o.refunded_satang + amount }

abbrev pub status_after_refund : ℕ → OrderStatus
status_after_refund live_tickets = if live_tickets == 0 then refunded else partially_refunded

-- The last part of `settleInTx`, for a refundable order.
unfoldable pub refresh_status : ℕ → Action (Unit {0})
refresh_status order_id = do
  live_tickets ← read (λ s. count (is_live_in order_id) s.tickets)
  write λ s. record s {
    orders =
        update (λ o. o.id == order_id) (set_order_status (status_after_refund live_tickets))
          s.orders;
  }
  write_in_tx (order_updated order_id (status_after_refund live_tickets))

unfoldable pub settle_in_tx : ℕ → ℕ → Action (Unit {0})
unfolding refresh_status
settle_in_tx order_id amount_satang = do
  found ← read (find_order order_id)
  order ← require_some found record_not_found
  write λ s. record s {
    orders = update (λ o. o.id == order_id) (add_refunded amount_satang) s.orders;
  }
  write_in_tx (order_refunded order_id amount_satang)
  if is_refundable order.status then refresh_status order_id else return tt

abbrev pub find_payment : ℕ → Store → Option Payment
find_payment order_id s = find (λ p. p.order_id == order_id) s.payments

-- `retry`: the refund after its money leg was sent again.
unfoldable pub retry : CreateRefund → ℕ → ℕ → Action Refund
retry create_refund refund_id user_id = do
  found ← read (find_refund refund_id)
  refund ← require_some found (not_found "Refund not found")
  found_order ← read (find_order refund.order_id)
  order ← require_some found_order record_not_found
  allowed ← require_event_role order.event_id user_id manager
  found_payment ← read (find_payment refund.order_id)
  payment ← require_some found_payment (conflict "This refund has no payment to retry")
  reopened ← claim_refund refund_id failed (λ r. record r { status = pending })
  require reopened (conflict "Only a failed refund can be retried")
  send_money_leg create_refund refund_id payment.provider_intent_id refund.amount_satang
  after ← read (find_refund refund_id)
  require_some after record_not_found

abbrev pub system_compensation_key : Text
system_compensation_key = codes "system:compensation"

-- A refund that the system asked for.
abbrev pub is_compensation : ℕ → Refund → Bool
is_compensation order_id r = r.order_id == order_id && is_none r.requested_by_id

abbrev pub compensation : ℕ → ℕ → Refund
compensation order_id amount_satang = record {
  id = 0;
  order_id = order_id;
  provider_refund_id = none;
  amount_satang = amount_satang;
  status = pending;
  idempotency_key = some system_compensation_key;
  requested_by_id = none;
  settled_at = none;
}

-- `catch` a unique violation of the compensation and return.
abbrev pub sent : CreateRefund → ℕ → ℕ → Result ℕ × Store → Result (Unit {0}) × Store
sent create_refund intent_id amount_satang (ok refund_id, s) =
    send_money_leg create_refund refund_id intent_id amount_satang s
sent create_refund intent_id amount_satang (err unique_violation, s) = (ok tt, s)
sent create_refund intent_id amount_satang (err e, s) = (err e, s)

unfoldable pub compensate_unfulfilled_payment : CreateRefund → ℕ → ℕ → ℕ → Action (Unit {0})
compensate_unfulfilled_payment create_refund order_id amount_satang intent_id = do
  existing ← read (λ s. any (is_compensation order_id) s.refunds)
  if existing then return tt else λ s.
      sent create_refund intent_id amount_satang
        (insert_refund (compensation order_id amount_satang) s)
