-- ===== src/System/Handlers.antt =====
-- The methods of the services of holds and orders, as sequences of the steps of `System`.
use openseat.Base.{
  ℕ, ◌+◌, ◌≡◌, refl, inl, inr, Bool, false, not, ◌||◌, List, [], ◌∷◌, Option, none, some, leb, ltb,
  is_some, length, truthy, text_eq, Bool-cases, Option-cases,
}
use openseat.Store.{Store, Text, Hold, OrderStatus, canceled}
use openseat.Store.Action.{
  Result, ok, err, Error, continue, roll_back, return, throw, require, require_some, transaction,
  handle, ◌>>◌, not_found, bad_request, bad_gateway, record_not_found,
}
use openseat.System.{
  Step, claim_hold, refresh, close_order, notify, Reach, here, Reach-trans, Reach-step,
}
use openseat.Orders.{is_awaiting, find_order, release_order_inventory_in_tx, expire_order}
use openseat.Orders.Create.{
  CreateIntent, open_payment, request_payment, finish, recover, place_order, create,
  is_unique_violation, place, placed,
}
use openseat.Orders.Plan.{Plan, requires_payment, find_replay, validate, Request, distinct}
use openseat.System.Plans.{validate-Reads}
use openseat.Books.{zero_offset, Books}
use openseat.System.Runs.{
  Runs, continue-Reach, reads-Reach, require-Runs, require_some-Runs, if-Runs,
}
use openseat.Holds.{
  acquire, claim_seat, lost_claim, refresh_hold, find_open_seat, held_by_key, find_hold,
  max_held_per_key, held_change,
}

lost_claim-Runs :
    (seat_id : ℕ) (key : Text) (t : ℕ) (existing : Option Hold)
    → Runs (lost_claim seat_id key t existing)
unfolding lost_claim
lost_claim-Runs seat_id key t none = λ s. here
lost_claim-Runs seat_id key t (some h) =
    if-Runs (text_eq h.holder_key key) _ _
      (λ s. continue-Reach s (refresh_hold h.id t s) _ (Reach-step (refresh h.id t)) (λ _ s'. here))
      (λ s. here)

pub acquire-Runs :
    (ttl event_id seat_id : ℕ) (key : Text) (now : ℕ) → Runs (acquire ttl event_id seat_id key now)
unfolding acquire
acquire-Runs ttl event_id seat_id key now s =
    continue-Reach s
      (require (is_some (find_open_seat event_id seat_id s)) (not_found "Seat not found") s) _
      (require-Runs _ _ s)
      λ _ s₁.
        continue-Reach s₁
          (require (not (leb max_held_per_key (held_by_key event_id key now s₁)))
            (bad_request "At most 8 seats can be held at once") s₁)
          _ (require-Runs _ _ s₁)
          λ _ s₂.
            continue-Reach s₂ (claim_seat event_id seat_id key (now + ttl) now s₂) _
              (Reach-step (claim_hold event_id seat_id key (now + ttl) now))
              λ inserted s₃.
                if-Runs inserted _ _
                  (λ s₄. Reach-step (notify event_id (held_change (seat_id ∷ []))))
                  (lost_claim-Runs seat_id key (now + ttl) (find_hold event_id seat_id s₃)) s₃

-- `expireOrder` drops the answer of the transaction.
same_release :
    (s : Store) (r : Result Bool × Store)
    → (roll_back s (continue r (λ _. return tt))).1 ≡ (roll_back s r).1
same_release s (ok b, s') = refl
same_release s (err e, s') = refl

pub expire_order-Runs :
    (order_id : ℕ) (status : OrderStatus)
    → is_awaiting status ≡ false
    → Runs (expire_order order_id status)
unfolding expire_order
expire_order-Runs order_id status closed s =
    rw (same_release s (release_order_inventory_in_tx order_id status s))
      (Reach-step (close_order order_id status closed))

open_payment-Runs :
    (create_intent : CreateIntent) (order_id : ℕ) (p : Plan)
    → Runs (open_payment create_intent order_id p)
unfolding open_payment request_payment
open_payment-Runs create_intent order_id p s =
    if-Runs (requires_payment p) _ _
      (λ s. caught s (request_payment create_intent order_id p s) (request-Reach s)) (λ s. here) s
  where
    request-Reach : Runs (request_payment create_intent order_id p)
    request-Reach s =
        continue-Reach s (require_some (find_order order_id s) record_not_found s) _
          (require_some-Runs _ _ s)
          λ order s₁.
            continue-Reach s₁
              (require_some (create_intent order_id p.total_satang order.guest_token) bad_gateway
                s₁)
              _ (require_some-Runs _ _ s₁) λ intent s₂. Reach-step (Step.open_payment _)

    caught :
        (s : Store) (r : Result (Unit {0}) × Store)
        → Reach s r.1
        → Reach s (handle r (λ e. do expire_order order_id canceled; throw e)).1
    caught s (ok u, s') h = h
    caught s (err e, s') h = Reach-trans h (
        continue-Reach s' (expire_order order_id canceled s') _
          (expire_order-Runs order_id canceled refl s') (λ _ s''. here))

finish-Runs :
    (create_intent : CreateIntent) (p : Plan) (order_id : ℕ)
    → Runs (finish create_intent p order_id)
unfolding finish
finish-Runs create_intent p order_id s =
    continue-Reach s (open_payment create_intent order_id p s) _
      (open_payment-Runs create_intent order_id p s)
      λ _ s₁.
        continue-Reach s₁ (require_some (find_order order_id s₁) record_not_found s₁) _
          (require_some-Runs _ _ s₁) (λ order s₂. here)

recover-Runs : (r : Request) (e : Error) → Runs (recover r e)
unfolding recover
recover-Runs r e s = elim (Option-cases (find_replay r.event_id r.idempotency_key s)) [
  | inl lost ↦ rw lost here
  | inr (order, found) ↦ rw found (if-Runs (is_unique_violation e) _ _ (λ s. here) (λ s. here) s)
]

place-Reach :
    (now : ℕ) (create_intent : CreateIntent) (r : Request) (seat_ids : List ℕ) (s : Store)
    → Books zero_offset zero_offset s
    → Reach s (place now create_intent r seat_ids s).1
unfolding place
place-Reach now create_intent r seat_ids s b =
    reads-Reach _ s (validate now r seat_ids s) _ (validate-Reads now r seat_ids s b)
      λ p plan. committed p (transaction (place_order now p) s) (Reach-step (Step.place now p plan))
  where
    committed :
        (p : Plan) (x : Result ℕ × Store) → Reach s x.1 → Reach s (placed create_intent r p x).1
    committed p (ok order_id, s₁) h = Reach-trans h (finish-Runs create_intent p order_id s₁)
    committed p (err e, s₁) h = Reach-trans h (recover-Runs r e s₁)

-- `OrdersService.create` is a sequence of steps.
pub create-Reach :
    (now : ℕ) (create_intent : CreateIntent) (r : Request) (s : Store)
    → Books zero_offset zero_offset s
    → Reach s (create now create_intent r s).1
unfolding create
create-Reach now create_intent r s b =
    elim (Bool-cases (ltb 0 (length r.items) || ltb 0 (length (distinct r.seat_ids)))) [
      | inr empty ↦ rw empty here
      | inl some_item ↦
          rw some_item
            (elim (Bool-cases (not (ltb 0 (length (distinct r.seat_ids))) || truthy r.holder_key)) [
              | inr keyless ↦ rw keyless here
              | inl keyed ↦
                  rw keyed (elim (Option-cases (find_replay r.event_id r.idempotency_key s)) [
                    | inr (order, found) ↦ rw found here
                    | inl new ↦ rw new (place-Reach now create_intent r (distinct r.seat_ids) s b)
                  ])
            ])
    ]
