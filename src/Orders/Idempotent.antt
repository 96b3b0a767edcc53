-- ===== src/Orders/Idempotent.antt =====
-- A repeated request of an order.
use openseat.Base.{
  ℕ, ◌≡◌, refl, inl, inr, true, not, ◌&&◌, ◌||◌, Bool-cases, some, Option-cases, any, find, List,
  [], ◌==◌, ltb, length, truthy, ◌∙◌, sym, subst,
}
use openseat.Store.{Store, Text, Order, canceled}
use openseat.Store.Action.{
  Ends-at, Result, ok, err, Error, Ends, Ends-mono, roll_back-Ends, continue-Ends, require-Ends,
  transaction, handle, require_some, throw, not_found, bad_request, bad_gateway, record_not_found,
  ◌>>◌, continue,
}
use openseat.Store.Keeps.{Keeps, continue-Keeps, require_some-Keeps, Keeps-Ends}
use openseat.Holds.{is_published}
use openseat.Orders.{find_order, expire_order}
use openseat.Orders.Create.{
  Reply, CreateIntent, place_order, request_payment, open_payment, finish, recover, placed, place,
  create, is_unique_violation,
}
use openseat.Orders.Plan.{
  Request, Plan, has_key, find_replay, validate, check_items, find_seats, event_types, plan_of,
  distinct, requires_payment,
}
use openseat.Orders.Replay.{orders_of, IsKeyed, place_order-IsKeyed, insert_payment-orders}

-- The plan has the event and the key of the request.
abbrev IsFor : Request → Plan → Type 0
IsFor r p = (p.event_id ≡ r.event_id) × (p.idempotency_key ≡ r.idempotency_key)

plan_of-IsFor :
    (now : ℕ) (r : Request) (seat_ids : List ℕ) (s : Store) → IsFor r (plan_of now r seat_ids s)
unfolding plan_of
plan_of-IsFor now r seat_ids s = (refl, refl)

validate-IsFor :
    (now : ℕ) (r : Request) (seat_ids : List ℕ) (s : Store)
    → Ends (validate now r seat_ids s) (λ p _. IsFor r p)
unfolding validate
validate-IsFor now r seat_ids s =
    require-Ends (any (λ e. e.id == r.event_id && is_published e.status) s.events)
      (not_found "Event not found") s _ _
      λ published.
        continue-Ends (λ _ _. Unit {0}) (check_items (event_types r.event_id s) [] r.items s) _ _
          (anything _)
          λ _ s₁ _.
            require-Ends (length (find_seats r.event_id seat_ids s₁) == length seat_ids)
              (bad_request "Unknown seat for this event") s₁ _ _
              λ known. plan_of-IsFor now r seat_ids s₁
  where
    anything : {A : Type 0} (r : Result A × Store) → Ends r (λ _ _. Unit {0})
    anything (ok a, s') = tt
    anything (err e, s') = tt

request_payment-orders :
    (create_intent : CreateIntent) (order_id : ℕ) (p : Plan)
    → Keeps orders_of (request_payment create_intent order_id p)
unfolding request_payment
request_payment-orders create_intent order_id p s =
    continue-Keeps orders_of s.orders (require_some (find_order order_id s) record_not_found s) _
      (require_some-Keeps orders_of (find_order order_id s) record_not_found s)
      λ order s₁.
        continue-Keeps orders_of s₁.orders
          (require_some (create_intent order_id p.total_satang order.guest_token) bad_gateway s₁) _
          (require_some-Keeps orders_of (create_intent order_id p.total_satang order.guest_token)
            bad_gateway s₁)
          λ intent s₂. insert_payment-orders _ s₂

open_payment-orders :
    (create_intent : CreateIntent) (order_id : ℕ) (p : Plan) (s : Store) (P : List Order → Type 0)
    → P s.orders
    → Ends (open_payment create_intent order_id p s) (λ _ s'. P s'.orders)
unfolding open_payment
open_payment-orders create_intent order_id p s P h = elim (Bool-cases (requires_payment p)) [
  | inr free ↦ rw free h
  | inl due ↦ rw due (
      caught (request_payment create_intent order_id p s) (
        Keeps-Ends orders_of P s (request_payment create_intent order_id p s)
          (request_payment-orders create_intent order_id p s) h))
]
  where
    thrown :
        (r : Result (Unit {0}) × Store) (e : Error)
        → Ends {A = Unit {0}} (continue r (λ _. throw e)) (λ _ s'. P s'.orders)
    thrown (ok u, s') e = tt
    thrown (err e', s') e = tt

    caught :
        (r : Result (Unit {0}) × Store)
        → Ends r (λ _ s'. P s'.orders)
        → Ends (handle r (λ e. do expire_order order_id canceled; throw e)) (λ _ s'. P s'.orders)
    caught (ok u, s') h = h
    caught (err e, s') h = thrown (expire_order order_id canceled s') e

-- The order that the key finds is the answer.
abbrev Answers : Request → Text → Reply → Store → Type 0
Answers r key reply s = find (has_key r.event_id key) s.orders ≡ some reply.0

finish-Answers :
    (create_intent : CreateIntent) (p : Plan) (r : Request) (key : Text) (order_id : ℕ) (s : Store)
    → IsKeyed r.event_id key order_id s.orders
    → Ends (finish create_intent p order_id s) (Answers r key)
unfolding finish
finish-Answers create_intent p r key order_id s keyed =
    continue-Ends (λ _ s₁. IsKeyed r.event_id key order_id s₁.orders)
      (open_payment create_intent order_id p s) _ _
      (open_payment-orders create_intent order_id p s (IsKeyed r.event_id key order_id) keyed)
      λ _ s₁ k. rw k.by_id k.by_key

find_replay-key :
    (r : Request) (key : Text) (s : Store)
    → r.idempotency_key ≡ some key
    → truthy (some key) ≡ true
    → find_replay r.event_id r.idempotency_key s ≡ find (has_key r.event_id key) s.orders
unfolding find_replay
find_replay-key r key s same real = rw (same, real) refl

recover-Answers :
    (r : Request) (key : Text) (e : Error) (s : Store)
    → r.idempotency_key ≡ some key
    → truthy (some key) ≡ true
    → Ends (recover r e s) (Answers r key)
unfolding recover
recover-Answers r key e s same real =
    elim (Option-cases (find_replay r.event_id r.idempotency_key s)) [
      | inl lost ↦ rw lost tt
      | inr (order, found) ↦ rw found (elim (Bool-cases (is_unique_violation e)) [
        | inl raced ↦ rw raced (sym (find_replay-key r key s same real) ∙ found)
        | inr other ↦ rw other tt
      ])
    ]

place-Answers :
    (now : ℕ) (create_intent : CreateIntent) (r : Request) (key : Text) (seat_ids : List ℕ)
    (s : Store)
    → r.idempotency_key ≡ some key
    → truthy (some key) ≡ true
    → Ends (place now create_intent r seat_ids s) (Answers r key)
unfolding place
place-Answers now create_intent r key seat_ids s same real =
    continue-Ends (λ p _. IsFor r p) (validate now r seat_ids s) _ _
      (validate-IsFor now r seat_ids s)
      λ p s₁ (event, its_key). committed p (transaction (place_order now p) s₁) (
        roll_back-Ends _ s₁ (place_order now p s₁) (
          subst
            (λ event_id.
              Ends (place_order now p s₁) (λ order_id s₂. IsKeyed event_id key order_id s₂.orders))
            event (place_order-IsKeyed now p key s₁ (its_key ∙ same))))
  where
    committed :
        (p : Plan) (x : Result ℕ × Store)
        → Ends x (λ order_id s'. IsKeyed r.event_id key order_id s'.orders)
        → Ends (placed create_intent r p x) (Answers r key)
    committed p (ok order_id, s₂) keyed = finish-Answers create_intent p r key order_id s₂ keyed
    committed p (err e, s₂) _ = recover-Answers r key e s₂ same real

-- With the key's order in the store, a request that passes the first checks is answered by it.
pub create-replays :
    (now : ℕ) (create_intent : CreateIntent) (r : Request) (key : Text) (s : Store) (reply : Reply)
    → r.idempotency_key ≡ some key
    → truthy (some key) ≡ true
    → (ltb 0 (length r.items) || ltb 0 (length (distinct r.seat_ids))) ≡ true
    → (not (ltb 0 (length (distinct r.seat_ids))) || truthy r.holder_key) ≡ true
    → Answers r key reply s
    → create now create_intent r s ≡ (ok (reply.0, true), s)
unfolding create
create-replays now create_intent r key s reply same real some_item keyed answers =
    rw (some_item, keyed, find_replay-key r key s same real, answers) refl

create-Ends :
    (now later : ℕ) (create_intent again : CreateIntent) (r : Request) (key : Text) (s : Store)
    → r.idempotency_key ≡ some key
    → truthy (some key) ≡ true
    → Ends
        (create now create_intent r s)
        (λ reply s'. create later again r s' ≡ (ok (reply.0, true), s'))
unfolding create
create-Ends now later create_intent again r key s same real =
    require-Ends (ltb 0 (length r.items) || ltb 0 (length (distinct r.seat_ids)))
      (bad_request "Pick at least one ticket or seat") s _ _
      λ some_item.
        require-Ends (not (ltb 0 (length (distinct r.seat_ids))) || truthy r.holder_key)
          (bad_request "X-Hold-Key header is required for seat orders") s _ _
          λ keyed. elim (Option-cases (find_replay r.event_id r.idempotency_key s)) [
            | inr (order, found) ↦ rw found (
                create-replays later again r key s (order, true) same real some_item keyed
                  (sym (find_replay-key r key s same real) ∙ found))
            | inl new ↦ rw new (
                Ends-mono _ _ (place now create_intent r (distinct r.seat_ids) s)
                  (λ reply s'. create-replays later again r key s' reply same real some_item keyed)
                  (place-Answers now create_intent r key (distinct r.seat_ids) s same real))
          ]

-- When a request with a non-empty idempotency key was answered, the same request again, at any time
-- and with any client of the provider, gets the same order as a replay and changes nothing.
pub create-once :
    (now later : ℕ) (create_intent again : CreateIntent) (r : Request) (key : Text) (s s' : Store)
    (reply : Reply)
    → r.idempotency_key ≡ some key
    → truthy (some key) ≡ true
    → create now create_intent r s ≡ (ok reply, s')
    → create later again r s' ≡ (ok (reply.0, true), s')
create-once now later create_intent again r key s s' reply same real created =
    Ends-at _ created (create-Ends now later create_intent again r key s same real)
