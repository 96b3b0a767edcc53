-- ===== src/Orders/Keeps.antt =====
-- The ledger of orders, payments, webhook rows and refunds through a release and a fulfilment.
use openseat.Base.{ℕ, refl, Bool, true, false, List, ltb, length, arith}
use openseat.Store.{
  Store, Order, OrderItem, OrderStatus, Payment, WebhookEvent, Refund, OutboxPayload,
  seats_released, order_updated,
}
use openseat.Store.Action.{record_not_found, require_some, for_each}
use openseat.Store.Keeps.{Keeps, continue-Keeps, require_some-Keeps, if-Keeps, for_each-Keeps}
use openseat.Inventory.{
  Issue, Draft, decrement, increment, issue_ticket, issue_tickets, write_in_tx, write_if,
  is_ga_type,
}
use openseat.Orders.{take_holds, restore_item, release_claimed, find_order}

abbrev pub Ledger : Type 0
Ledger = List Order × List Payment × List WebhookEvent × List Refund

abbrev pub ledger : Store → Ledger
ledger s = (s.orders, s.payments, s.webhook_events, s.refunds)

pub write_in_tx-Keeps : (payload : OutboxPayload) → Keeps ledger (write_in_tx payload)
unfolding write_in_tx
write_in_tx-Keeps payload s = refl

pub write_if-Keeps : (test : Bool) (payload : OutboxPayload) → Keeps ledger (write_if test payload)
unfolding write_if
write_if-Keeps true payload s = write_in_tx-Keeps payload s
write_if-Keeps false payload s = refl

pub decrement-Keeps : (type_id n : ℕ) → Keeps ledger (decrement type_id n)
unfolding decrement
decrement-Keeps type_id n s = ground arith

increment-Keeps : (type_id n : ℕ) → Keeps ledger (increment type_id n)
unfolding increment
increment-Keeps type_id n s = ground arith

issue_ticket-Keeps : (i : Issue) (draft : Draft) → Keeps ledger (issue_ticket i draft)
unfolding issue_ticket
issue_ticket-Keeps i (type_id, seat_id) s = ground arith

pub issue_tickets-Keeps : (i : Issue) (drafts : List Draft) → Keeps ledger (issue_tickets i drafts)
unfolding issue_tickets
issue_tickets-Keeps i drafts = for_each-Keeps ledger drafts (issue_ticket i) (issue_ticket-Keeps i)

restore_item-Keeps : (item : OrderItem) → Keeps ledger (restore_item item)
unfolding restore_item
restore_item-Keeps item s =
    if-Keeps ledger (is_ga_type s.ticket_types item.ticket_type_id) _ _
      (increment-Keeps item.ticket_type_id item.quantity) (λ s. refl) s

pub take_holds-Keeps : (order_id : ℕ) → Keeps ledger (take_holds order_id)
unfolding take_holds
take_holds-Keeps order_id s = refl

pub release_claimed-Keeps :
    (order_id : ℕ) (status : OrderStatus) → Keeps ledger (release_claimed order_id status)
unfolding release_claimed
release_claimed-Keeps order_id status s =
    continue-Keeps ledger _ (require_some (find_order order_id s) record_not_found s) _
      (require_some-Keeps ledger _ _ s)
      λ order s₁.
        continue-Keeps ledger _ (for_each order.items restore_item s₁) _
          (for_each-Keeps ledger order.items restore_item restore_item-Keeps s₁)
          λ _ s₂.
            continue-Keeps ledger _ (take_holds order_id s₂) _ (take_holds-Keeps order_id s₂)
              λ seat_ids s₃.
                continue-Keeps ledger _
                  (write_if (ltb 0 (length seat_ids)) (seats_released order.event_id seat_ids) s₃) _
                  (write_if-Keeps _ _ s₃)
                  λ _ s₄.
                    continue-Keeps ledger _ (write_in_tx (order_updated order_id status) s₄) _
                      (write_in_tx-Keeps _ s₄) (λ _ s₅. refl)
