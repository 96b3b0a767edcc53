-- ===== src/Orders/Once.antt =====
-- A second release of an order.
use openseat.Base.{
  ℕ, ◌≡◌, refl, inl, inr, Bool, false, Bool-cases, if◌then◌else◌, any, any-update, arith, List,
}
use openseat.Store.{Store, Order, OrderStatus}
use openseat.Store.Action.{Ends-at, Ends, Ends-mono, continue-Ends, ok, return}
use openseat.Store.Keeps.{if-Keeps, Keeps-Ends}
use openseat.Orders.{
  is_awaiting, is_awaiting_order, set_order_status, claim_order, release_claimed,
  release_order_inventory_in_tx,
}
use openseat.Orders.Keeps.{Ledger, ledger, release_claimed-Keeps}

-- No order of that id awaits payment.
abbrev pub IsClosed : ℕ → List Order → Type 0
IsClosed order_id orders = any (is_awaiting_order order_id) orders ≡ false

pub claim_order-closes :
    (order_id : ℕ) (status : OrderStatus) (s : Store)
    → is_awaiting status ≡ false
    → Ends (claim_order order_id status s) (λ _ s'. IsClosed order_id s'.orders)
unfolding claim_order
claim_order-closes order_id status s final =
    elim (Bool-cases (any (is_awaiting_order order_id) s.orders)) [
      | inr closed ↦ rw closed closed
      | inl waiting ↦ rw waiting (
          any-update (is_awaiting_order order_id) (set_order_status status)
            (λ o. ground (arith, final)) s.orders)
    ]

release_closed :
    (order_id : ℕ) (status : OrderStatus) (s : Store)
    → IsClosed order_id s.orders
    → release_order_inventory_in_tx order_id status s ≡ (ok false, s)
unfolding release_order_inventory_in_tx claim_order
release_closed order_id status s closed = rw closed refl

-- Once the inventory of an order is released, releasing it again, by the expiry job, the reconciler
-- or a failed payment, does nothing.
release_order-Ends :
    (order_id : ℕ) (status again : OrderStatus) (s : Store)
    → is_awaiting status ≡ false
    → Ends
        (release_order_inventory_in_tx order_id status s)
        (λ _ s'. release_order_inventory_in_tx order_id again s' ≡ (ok false, s'))
unfolding release_order_inventory_in_tx
release_order-Ends order_id status again s final =
    continue-Ends (λ _ s₁. IsClosed order_id s₁.orders) (claim_order order_id status s) _ _
      (claim_order-closes order_id status s final)
      λ claimed s₁ closed.
        Ends-mono _ _ ((if claimed then release_claimed order_id status else return false) s₁)
          (λ _ s₂. release_closed order_id again s₂)
          (Keeps-Ends ledger (λ (l : Ledger). IsClosed order_id l.0) s₁
            ((if claimed then release_claimed order_id status else return false) s₁)
            (if-Keeps ledger {A = Bool} claimed (release_claimed order_id status) (return false)
              (release_claimed-Keeps order_id status) (λ s₂. refl) s₁)
            closed)

-- When the release of an order's inventory returned, with a final status other than awaiting payment,
-- releasing it again under any status answers false and does nothing.
pub release_order-once :
    (order_id : ℕ) (status again : OrderStatus) (s s' : Store) (released : Bool)
    → is_awaiting status ≡ false
    → release_order_inventory_in_tx order_id status s ≡ (ok released, s')
    → release_order_inventory_in_tx order_id again s' ≡ (ok false, s')
release_order-once order_id status again s s' released final returned =
    Ends-at _ returned (release_order-Ends order_id status again s final)
