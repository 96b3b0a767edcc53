-- ===== src/Books/Settle.antt =====
-- The books when a refund settles: the order's status moves among those that claim nothing.
use openseat.Base.{
  ℕ, ◌≤◌, ◌≡◌, refl, inl, inr, Bool, true, false, List, [], ◌∷◌, Option, none, some, ◌==◌,
  if◌then◌else◌, Bool-cases, Option-cases, find, count, any, update, sum_of, All, All-mono, arith,
}
use openseat.Store.{Store, Order, OrderStatus, Refund, RefundStatus, order_updated, order_refunded}
use openseat.Store.Action.{
  Ends, continue-Ends, transaction, roll_back-keeps, return, require_some, record_not_found, ◌>>=◌,
  ◌>>◌,
}
use openseat.Inventory.{write_in_tx}
use openseat.Orders.{find_order, is_awaiting, is_refundable, set_order_status}
use openseat.Refunds.{
  find_refund, claim_refund, is_refund_in, settle_in_tx, refresh_status, status_after_refund,
  add_refunded, is_live_in,
}
use openseat.Payments.{settle_refund, settle_reference}
use openseat.Books.{claimed_in, Offset, Below, Books}
use openseat.Books.Orders.{Below-update}
use openseat.Books.Frame.{IsSame-Books, write_in_tx-Books}

-- The order claims nothing.
abbrev Closed : ℕ → List Order → Type 0
Closed id = All (λ o. o.id ≡ id → is_awaiting o.status ≡ false)

Closed-absent : (id n : ℕ) (os : List Order) → Below n os → n ≤ id → Closed id os
Closed-absent id n [] b h = tt
Closed-absent id n (o ∷ os) b h =
    (λ e. absurd (omega arith), Closed-absent id o.id os b.1 (omega arith))

Closed-find :
    (id n : ℕ) (os : List Order) (o : Order)
    → Below n os
    → find (λ o. o.id == id) os ≡ some o
    → is_refundable o.status ≡ true
    → Closed id os
unfolding find
Closed-find id n [] o b found r = tt
Closed-find id n (x ∷ os) o b found r = elim (Bool-cases (x.id == id)) [
  | inl here ↦ (λ e. ground arith, Closed-absent id x.id os b.1 (ground arith))
  | inr other ↦ (λ e. ground arith, Closed-find id x.id os o b.1 (ground arith) r)
]

-- Changes of one closed order that leave it closed claim as much as before.
claimed_same :
    (id k : ℕ) (f : Order → Order) (os : List Order)
    → ((o : Order) → is_awaiting o.status ≡ false → is_awaiting (f o).status ≡ false)
    → Closed id os
    → sum_of (claimed_in k) (update (λ o. o.id == id) f os) ≡ sum_of (claimed_in k) os
unfolding sum_of update
claimed_same id k f [] closed h = refl
claimed_same id k f (o ∷ os) closed h = elim (Bool-cases (o.id == id)) [
  | inr other ↦ rw other (omega (arith, claimed_same id k f os closed h.1))
  | inl here ↦
      let before = h.0 (ground arith) in
      rw (here, before, closed o before) (omega (arith, claimed_same id k f os closed h.1))
]

added_same :
    (id k amount : ℕ) (os : List Order)
    → sum_of (claimed_in k) (update (λ o. o.id == id) (add_refunded amount) os)
      ≡ sum_of (claimed_in k) os
unfolding sum_of update
added_same id k amount [] = refl
added_same id k amount (o ∷ os) = ground (arith, added_same id k amount os)

Closed-add :
    (id amount : ℕ) (os : List Order)
    → Closed id os
    → Closed id (update (λ o. o.id == id) (add_refunded amount) os)
unfolding update
Closed-add id amount [] h = tt
Closed-add id amount (o ∷ os) h = (λ e. ground (arith, h.0), Closed-add id amount os h.1)

module _ {d e : Offset} where
  write_orders :
      (s : Store) (os : List Order)
      → Below s.next_id os
      → ((k : ℕ) → sum_of (claimed_in k) os ≡ sum_of (claimed_in k) s.orders)
      → Books d e s
      → Books d e (record s { orders = os })
  write_orders s os below same b = record {
    types = b.types;
    orders = below;
    seats = b.seats;
    rows = All-mono s.ticket_types (λ t row. rw (same t.id) row) b.rows;
  }

  refresh_status-Books :
      (id : ℕ) (s : Store)
      → Closed id s.orders
      → Books d e s
      → Ends (refresh_status id s) (λ _. Books d e)
  unfolding refresh_status
  refresh_status-Books id s closed b = write_in_tx-Books (order_updated id status) _ (
      write_orders s _
        (Below-update _ (set_order_status status) s.next_id s.orders (λ o. refl) b.orders)
        (λ k. claimed_same id k (set_order_status status) s.orders (λ o _. is_closed) closed) b)
    where
      status : OrderStatus
      status = status_after_refund (count (is_live_in id) s.tickets)

      is_closed : is_awaiting status ≡ false
      is_closed = ground arith

  pub settle_in_tx-Books :
      (id amount : ℕ) (s : Store) → Books d e s → Ends (settle_in_tx id amount s) (λ _. Books d e)
  unfolding settle_in_tx
  settle_in_tx-Books id amount s b = elim (Option-cases (find_order id s)) [
    | inl missing ↦ rw missing tt
    | inr (o, found) ↦ rw found (by_status o found (is_refundable o.status) refl)
  ]
    where
      added : Store
      added = record s { orders = update (λ o. o.id == id) (add_refunded amount) s.orders }

      added-Books : Books d e added
      added-Books =
          write_orders s _
            (Below-update _ (add_refunded amount) s.next_id s.orders (λ o. refl) b.orders)
            (λ k. added_same id k amount s.orders) b

      by_status :
          (o : Order)
          → find_order id s ≡ some o
          → (refundable : Bool) → is_refundable o.status ≡ refundable
          → Ends
              ((do
                write_in_tx (order_refunded id amount)
                if refundable then refresh_status id else return tt)
                added)
              (λ _. Books d e)
      by_status o found false r =
          continue-Ends _ (write_in_tx (order_refunded id amount) added) _ _
            (write_in_tx-Books (order_refunded id amount) added added-Books) (λ _ s₁ b₁. b₁)
      by_status o found true r =
          unfold write_in_tx in
          refresh_status-Books id _
            (Closed-add id amount s.orders (Closed-find id s.next_id s.orders o b.orders found r))
            (write_in_tx-Books (order_refunded id amount) added added-Books)

-- Settling the refund that the provider's reference names keeps the books balanced.
pub settle_reference-Books :
    {d e : Offset} (now : ℕ) (provider_id : Option ℕ) (reference : ℕ) (s : Store)
    → Books d e s
    → Books d e (transaction (settle_reference now provider_id reference) s).1
unfolding settle_reference claim_refund
settle_reference-Books {d} {e} now provider_id reference s b =
    roll_back-keeps (Books d e) s (settle_reference now provider_id reference s) b
      (elim (Bool-cases (any (is_refund_in RefundStatus.pending reference) s.refunds)) [
        | inr settled ↦ rw settled b
        | inl pending_one ↦ rw pending_one (after_claim (find_refund reference claimed) refl)
      ])
  where
    claimed : Store
    claimed = record s {
      refunds =
          update (is_refund_in RefundStatus.pending reference) (settle_refund now provider_id)
            s.refunds;
    }

    after_claim :
        (found : Option Refund)
        → find_refund reference claimed ≡ found
        → Ends
            ((do
              refund ← require_some found record_not_found
              settle_in_tx refund.order_id refund.amount_satang)
              claimed)
            (λ _. Books d e)
    after_claim none e = tt
    after_claim (some refund) _ = settle_in_tx-Books refund.order_id refund.amount_satang claimed (
        IsSame-Books s claimed
          (record { types = refl; orders = refl; tickets = refl; seats = refl; next = omega arith })
          b)
