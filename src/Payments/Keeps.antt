-- ===== src/Payments/Keeps.antt =====
-- The ledger through the parts of the handlers that follow their claims.
use openseat.Base.{ℕ, List, [], map}
use openseat.Store.{Order, OrderStatus, ticket_issued, order_updated}
use openseat.Store.Action.{for_each}
use openseat.Store.Keeps.{Keeps, continue-Keeps, for_each-Keeps}
use openseat.Inventory.{decrement, issue_tickets, write_in_tx, counts_of}
use openseat.Orders.{take_holds}
use openseat.Orders.Keeps.{
  ledger, decrement-Keeps, issue_tickets-Keeps, take_holds-Keeps, write_in_tx-Keeps, write_if-Keeps,
}
use openseat.Payments.{fulfil, seats_with}

decrements-Keeps : (counts : List (ℕ × ℕ)) → Keeps ledger (for_each counts (λ c. decrement c.0 c.1))
decrements-Keeps counts =
    for_each-Keeps ledger counts (λ c. decrement c.0 c.1) (λ c. decrement-Keeps c.0 c.1)

pub fulfil-Keeps : (order : Order) → Keeps ledger (fulfil order)
unfolding fulfil
fulfil-Keeps order s =
    continue-Keeps ledger _ (take_holds order.id s) _ (take_holds-Keeps order.id s) λ seat_ids s₁.
      continue-Keeps ledger _
        (for_each (counts_of [] (map (λ x. x.ticket_type_id) (seats_with seat_ids s₁)))
          (λ c. decrement c.0 c.1) s₁)
        _
        (decrements-Keeps (counts_of [] (map (λ x. x.ticket_type_id) (seats_with seat_ids s₁))) s₁)
        λ _ s₂.
          continue-Keeps ledger _ (issue_tickets _ _ s₂) _ (issue_tickets-Keeps _ _ s₂) λ _ s₃.
            continue-Keeps ledger _ (write_in_tx (ticket_issued order.id) s₃) _
              (write_in_tx-Keeps _ s₃)
              λ _ s₄.
                continue-Keeps ledger _ (write_in_tx (order_updated order.id OrderStatus.paid) s₄) _
                  (write_in_tx-Keeps _ s₄) λ _. write_if-Keeps _ _
