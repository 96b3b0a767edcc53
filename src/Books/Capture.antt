-- ===== src/Books/Capture.antt =====
-- The books when the provider reports that a payment succeeded or failed.
use openseat.Base.{
  ℕ, ◌+◌, ◌≡◌, refl, inl, inr, Bool, true, false, List, [], ◌++◌, map, if◌then◌else◌, Bool-cases,
  Option-cases, find, any, sum_of, length, ltb, arith,
}
use openseat.Store.{
  Store, Order, OrderStatus, Payment, PaymentStatus, Seat, ticket_issued, seats_sold, order_updated,
  canceled,
}
use openseat.Store.Action.{
  Ends, continue-Ends, for_each, transaction, roll_back-keeps, return, require_some,
  record_not_found, ◌>>=◌, ◌>>◌,
}
use openseat.Inventory.{
  is_ga_type, decrement, issue_tickets, Issue, ga_drafts, seat_drafts, write_in_tx, counts_of,
}
use openseat.Orders.{find_order, claim_order, take_holds, release_order_inventory_in_tx}
use openseat.Payments.{
  claim_payment, is_open_payment, has_intent, ga_items, seats_with, fulfil, settle_order, capture,
  cancel, stale_outcome, SucceededOutcome,
}
use openseat.Books.{qty_of, only_if, Offset, zero_offset, Books}
use openseat.Books.Types.{rebalance}
use openseat.Books.Orders.{Claimed, missed, taken, plus_items, claim_order-Books}
use openseat.Books.Loops.{at_type, decrements-Books, issue_tickets-Books}
use openseat.Books.Counts.{draft_of, counts_of-sum, drafts-sum, select-sum}
use openseat.Books.Frame.{IsSame-Books, write_in_tx-Books, write_if-Books}
use openseat.Books.Release.{take_holds-Books, release-Ends}

claim_payment-Books :
    {d e : Offset} (intent_id : ℕ) (status : PaymentStatus) (s : Store)
    → Books d e s
    → Ends (claim_payment intent_id status s) (λ _. Books d e)
unfolding claim_payment
claim_payment-Books intent_id status s b =
    elim (Bool-cases (any (is_open_payment intent_id) s.payments)) [
      | inr closed ↦ rw closed b
      | inl open_one ↦ rw open_one (
          IsSame-Books s _
            (record {
              types = refl;
              orders = refl;
              tickets = refl;
              seats = refl;
              next = omega arith;
            })
            b)
    ]

-- The seat tickets and the items of the order cancel what the claim and the decrements moved.
drafts_cancel :
    (o : Order) (seats : List Seat) (s : Store) (ga : Bool) (k : ℕ)
    → is_ga_type s.ticket_types k ≡ ga
    → only_if ga (sum_of (qty_of k) o.items)
        + sum_of (at_type k) (counts_of [] (map (λ x. x.ticket_type_id) seats))
      ≡ sum_of (draft_of k) (ga_drafts (ga_items s o.items) ++ seat_drafts seats)
unfolding ga_items sum_of
drafts_cancel o seats s ga k kind = omega (
  arith,
  drafts-sum k (ga_items s o.items) seats,
  select-sum ga k s.ticket_types o.items kind,
  counts_of-sum k [] (map (λ x. x.ticket_type_id) seats),
)

fulfil-Books :
    (o : Order) (s : Store)
    → Books (plus_items o.items zero_offset) zero_offset s
    → Ends (fulfil o s) (λ _. Books zero_offset zero_offset)
unfolding fulfil
fulfil-Books o s b =
    continue-Ends _ (take_holds o.id s) _ _ (take_holds-Books o.id s b) λ seat_ids s₁ b₁.
      let seats = seats_with seat_ids s₁ in
      continue-Ends _
        (for_each (counts_of [] (map (λ x. x.ticket_type_id) seats)) (λ c. decrement c.0 c.1) s₁) _
        _ (decrements-Books (counts_of [] (map (λ x. x.ticket_type_id) seats)) _ _ s₁ b₁)
        λ _ s₂ b₂.
          let drafts = ga_drafts (ga_items s₂ o.items) ++ seat_drafts seats in
          continue-Ends _ (issue_tickets (issue o) drafts s₂) _ _
            (issue_tickets-Books (issue o) drafts (λ ga k. sum_of (draft_of k) drafts) zero_offset
              s₂
              (rebalance _ _ s₂ (λ ga k kind. omega (arith, drafts_cancel o seats s₂ ga k kind))
                b₂))
            λ _ s₃ b₃.
              continue-Ends _ (write_in_tx (ticket_issued o.id) s₃) _ _
                (write_in_tx-Books (ticket_issued o.id) s₃
                  (rebalance zero_offset zero_offset s₃ (λ ga k _. omega arith) b₃))
                λ _ s₄ b₄.
                  continue-Ends _ (write_in_tx (order_updated o.id OrderStatus.paid) s₄) _ _
                    (write_in_tx-Books (order_updated o.id OrderStatus.paid) s₄ b₄)
                    λ _ s₅ b₅.
                      write_if-Books (ltb 0 (length seat_ids)) (seats_sold o.event_id seat_ids) s₅
                        b₅
  where
    issue : Order → Issue
    issue o = record {
      order_id = o.id;
      event_id = o.event_id;
      attendee_email = o.buyer_email;
      attendee_name = o.buyer_name;
    }

settle_order-Books :
    (payment : Payment) (s : Store)
    → Books zero_offset zero_offset s
    → Ends (settle_order payment s) (λ _. Books zero_offset zero_offset)
unfolding settle_order
settle_order-Books payment s b =
    continue-Ends _ (claim_order payment.order_id OrderStatus.paid s) _ _
      (claim_order-Books s payment.order_id OrderStatus.paid refl b) after_claim
  where
    after_claim :
        (claimed : Bool) (s₁ : Store)
        → Claimed payment.order_id zero_offset zero_offset s₁ claimed
        → Ends
            ((if claimed
                then (do
                  order ← require_some (find_order payment.order_id s₁) record_not_found
                  fulfil order
                  return SucceededOutcome.paid)
                else return (stale_outcome payment (find_order payment.order_id s₁)))
              s₁)
            (λ _. Books zero_offset zero_offset)
    after_claim false s₁ (missed b₁) = b₁
    after_claim true s₁ (taken o found same b₁) =
        rw found (continue-Ends _ (fulfil o s₁) _ _ (fulfil-Books o s₁ b₁) (λ _ s₂ b₂. b₂))

module _ (intent_id : ℕ) (s : Store) (b : Books zero_offset zero_offset s) where
  capture-Ends : Ends (capture intent_id s) (λ _. Books zero_offset zero_offset)
  unfolding capture
  capture-Ends = elim (Option-cases (find (has_intent intent_id) s.payments)) [
    | inl unknown_intent ↦ rw unknown_intent b
    | inr (payment, found) ↦ rw found (
        continue-Ends _ (claim_payment intent_id PaymentStatus.succeeded s) _ _
          (claim_payment-Books intent_id PaymentStatus.succeeded s b) (after_claim payment))
  ]
    where
      after_claim :
          (payment : Payment) (claimed : Bool) (s₁ : Store)
          → Books zero_offset zero_offset s₁
          → Ends
              ((if claimed then settle_order payment else return SucceededOutcome.ignored) s₁)
              (λ _. Books zero_offset zero_offset)
      after_claim payment true s₁ b₁ = settle_order-Books payment s₁ b₁
      after_claim payment false s₁ b₁ = b₁

  -- A captured payment keeps the books balanced.
  pub capture-Books : Books zero_offset zero_offset (transaction (capture intent_id) s).1
  capture-Books =
      roll_back-keeps (Books zero_offset zero_offset) s (capture intent_id s) b capture-Ends

  cancel-Ends : Ends (cancel intent_id s) (λ _. Books zero_offset zero_offset)
  unfolding cancel
  cancel-Ends = elim (Option-cases (find (has_intent intent_id) s.payments)) [
    | inl unknown_intent ↦ rw unknown_intent b
    | inr (payment, found) ↦ rw found (
        continue-Ends _ (claim_payment intent_id PaymentStatus.failed s) _ _
          (claim_payment-Books intent_id PaymentStatus.failed s b) (after_claim payment))
  ]
    where
      after_claim :
          (payment : Payment) (claimed : Bool) (s₁ : Store)
          → Books zero_offset zero_offset s₁
          → Ends
              ((if claimed
                  then (do
                    released ← release_order_inventory_in_tx payment.order_id canceled
                    return tt)
                  else return tt)
                s₁)
              (λ _. Books zero_offset zero_offset)
      after_claim payment true s₁ b₁ =
          continue-Ends _ (release_order_inventory_in_tx payment.order_id canceled s₁) _ _
            (release-Ends payment.order_id canceled s₁ refl b₁) (λ _ s₂ b₂. b₂)
      after_claim payment false s₁ b₁ = b₁

  -- A failed payment keeps the books balanced.
  pub cancel-Books : Books zero_offset zero_offset (transaction (cancel intent_id) s).1
  cancel-Books =
      roll_back-keeps (Books zero_offset zero_offset) s (cancel intent_id s) b cancel-Ends
