-- ===== src/Books/Release.antt =====
-- The books when an order expires or is canceled, and when its payment is captured.
use openseat.Base.{ℕ, ◌≡◌, Bool, true, false, some, if◌then◌else◌, length, ltb, arith}
use openseat.Store.{Store, Order, OrderStatus, seats_released, order_updated}
use openseat.Store.Action.{Ends, continue-Ends, for_each, transaction, roll_back-keeps, return}
use openseat.Inventory.{write_in_tx, write_if}
use openseat.Orders.{
  is_awaiting, find_order, claim_order, take_holds, restore_item, release_claimed,
  release_order_inventory_in_tx,
}
use openseat.Books.{Offset, zero_offset, Books}
use openseat.Books.Types.{rebalance}
use openseat.Books.Orders.{Claimed, missed, taken, plus_items, claim_order-Books}
use openseat.Books.Loops.{restore_items-Books}
use openseat.Books.Counts.{only_if-sum}
use openseat.Books.Frame.{holds-Books, write_in_tx-Books, write_if-Books}

pub take_holds-Books :
    {d e : Offset} (order_id : ℕ) (s : Store)
    → Books d e s
    → Ends (take_holds order_id s) (λ _. Books d e)
unfolding take_holds
take_holds-Books order_id s b = holds-Books s _ b

release_claimed-Books :
    (order_id : ℕ) (status : OrderStatus) (o : Order) (s : Store)
    → find_order order_id s ≡ some o
    → Books (plus_items o.items zero_offset) zero_offset s
    → Ends (release_claimed order_id status s) (λ _. Books zero_offset zero_offset)
unfolding release_claimed
release_claimed-Books order_id status o s found b = rw found (
    continue-Ends _ (for_each o.items restore_item s) _ _ (restore_items-Books o.items _ _ s b)
      λ _ s₁ b₁.
        continue-Ends _ (take_holds order_id s₁) _ _
          (take_holds-Books order_id s₁ (
            rebalance zero_offset zero_offset s₁ (λ ga k _. omega (arith, only_if-sum ga k o.items))
              b₁))
          λ seat_ids s₂ b₂.
            continue-Ends _
              (write_if (ltb 0 (length seat_ids)) (seats_released o.event_id seat_ids) s₂) _ _
              (write_if-Books (ltb 0 (length seat_ids)) (seats_released o.event_id seat_ids) s₂ b₂)
              λ _ s₃ b₃.
                continue-Ends _ (write_in_tx (order_updated order_id status) s₃) _ _
                  (write_in_tx-Books (order_updated order_id status) s₃ b₃) (λ _ s₄ b₄. b₄))

pub release-Ends :
    (order_id : ℕ) (status : OrderStatus) (s : Store)
    → is_awaiting status ≡ false
    → Books zero_offset zero_offset s
    → Ends (release_order_inventory_in_tx order_id status s) (λ _. Books zero_offset zero_offset)
unfolding release_order_inventory_in_tx
release-Ends order_id status s closed b =
    continue-Ends _ (claim_order order_id status s) _ _
      (claim_order-Books s order_id status closed b) λ claimed s₁ c. after_claim claimed s₁ c
  where
    after_claim :
        (claimed : Bool) (s₁ : Store)
        → Claimed order_id zero_offset zero_offset s₁ claimed
        → Ends
            ((if claimed then release_claimed order_id status else return false) s₁)
            (λ _. Books zero_offset zero_offset)
    after_claim false s₁ (missed b₁) = b₁
    after_claim true s₁ (taken o found same b₁) =
        release_claimed-Books order_id status o s₁ found b₁

-- Releasing an order's inventory keeps the books balanced.
pub release_order-Books :
    (order_id : ℕ) (status : OrderStatus) (s : Store)
    → is_awaiting status ≡ false
    → Books zero_offset zero_offset s
    → Books zero_offset zero_offset
        (transaction (release_order_inventory_in_tx order_id status) s).1
release_order-Books order_id status s closed b =
    roll_back-keeps (Books zero_offset zero_offset) s _ b (release-Ends order_id status s closed b)
