-- ===== src/Orders/Replay.antt =====
-- The row that an order with an idempotency key leaves.
use openseat.Base.{
  ℕ, ◌≡◌, refl, ap, inl, inr, true, Bool-cases, Option, none, some, find, arith, List, [], ◌∷◌,
  ◌++◌, ◌==◌, length, text_eq_refl, is_text, count, delete, update, ==_iff,
}
use openseat.Store.{Store, Text, Order, OrderItem, awaiting_payment, paid, canceled, Payment}
use openseat.Store.Action.{Result, ok, err, Ends, continue-Ends, require, for_each, conflict}
use openseat.Store.Keeps.{Keeps, continue-Keeps, for_each-Keeps, require-Keeps, Keeps-Ends}
use openseat.Inventory.{claim_item, decrement, issue_tickets, write_in_tx, ga_drafts, seat_drafts}
use openseat.Orders.Keeps.{
  Ledger, ledger, decrement-Keeps, issue_tickets-Keeps, write_in_tx-Keeps, write_if-Keeps,
}
use openseat.Orders.Create.{
  key_taken, new_order, insert_order, settle_holds, bind_holds, consume_holds, is_mine, bind_hold,
  issue_free, issue_of, place_order, insert_payment,
}
use openseat.Orders.Plan.{Plan, has_key}

abbrev pub orders_of : Store → List Order
orders_of s = s.orders

claim_item-orders : (item : OrderItem) → Keeps orders_of (claim_item item)
unfolding claim_item
claim_item-orders item s = ground arith

decrements-orders :
    (groups : List OrderItem)
    → Keeps orders_of (for_each groups (λ g. decrement g.ticket_type_id g.quantity))
decrements-orders groups =
    for_each-Keeps orders_of groups (λ g. decrement g.ticket_type_id g.quantity)
      λ g s. ap (λ (l : Ledger). l.0) (decrement-Keeps g.ticket_type_id g.quantity s)

consume_holds-orders : (p : Plan) (now : ℕ) → Keeps orders_of (consume_holds p now)
unfolding consume_holds
consume_holds-orders p now s =
    let left : Store = record s { holds = delete (is_mine p now) s.holds } in
    continue-Keeps orders_of {B = Unit {0}} s.orders
      (require (count (is_mine p now) s.holds == length p.seat_ids) (conflict "HOLD_EXPIRED") left)
      (λ _. for_each p.groups (λ g. decrement g.ticket_type_id g.quantity))
      (require-Keeps orders_of (count (is_mine p now) s.holds == length p.seat_ids)
        (conflict "HOLD_EXPIRED") left)
      (λ _. decrements-orders p.groups)

bind_holds-orders :
    (p : Plan) (now order_id expires_at : ℕ)
    → Keeps orders_of (bind_holds p now order_id expires_at)
unfolding bind_holds
bind_holds-orders p now order_id expires_at s =
    require-Keeps orders_of (count (is_mine p now) s.holds == length p.seat_ids)
      (conflict "HOLD_EXPIRED")
      (record s { holds = update (is_mine p now) (bind_hold order_id expires_at) s.holds })

settle_holds-orders :
    (p : Plan) (now order_id : ℕ) (expires_at : Option ℕ) (seat_ids : List ℕ)
    → Keeps orders_of (settle_holds p now order_id expires_at seat_ids)
unfolding settle_holds
settle_holds-orders p now order_id expires_at [] s = refl
settle_holds-orders p now order_id (some expires_at) (x ∷ xs) s =
    bind_holds-orders p now order_id expires_at s
settle_holds-orders p now order_id none (x ∷ xs) s = consume_holds-orders p now s

issue_free-orders :
    (p : Plan) (order_id : ℕ) (expires_at : Option ℕ)
    → Keeps orders_of (issue_free p order_id expires_at)
unfolding issue_free
issue_free-orders p order_id (some expires_at) s = refl
issue_free-orders p order_id none s =
    ap (λ (l : Ledger). l.0)
      (continue-Keeps ledger (ledger s)
        (issue_tickets (issue_of p order_id) (ga_drafts p.ga_items ++ seat_drafts p.seats) s) _
        (issue_tickets-Keeps _ _ s)
        λ _ s₁.
          continue-Keeps ledger (ledger s₁) (write_in_tx (openseat.Store.ticket_issued order_id) s₁)
            _ (write_in_tx-Keeps _ s₁) (λ _. write_if-Keeps _ _))

pub insert_payment-orders : (p : Payment) → Keeps orders_of (insert_payment p)
unfolding insert_payment
insert_payment-orders p s = ground arith

-- The order of that id is the one that the key finds.
pub record IsKeyed (event_id : ℕ) (key : Text) (order_id : ℕ) (orders : List Order) : Type 0 where
  pub order : Order
  pub by_id : find (λ o. o.id == order_id) orders ≡ some order
  pub by_key : find (has_key event_id key) orders ≡ some order

has_key-new_order :
    (p : Plan) (key : Text) (id : ℕ)
    → p.idempotency_key ≡ some key
    → has_key p.event_id key (new_order p id) ≡ true
unfolding is_text
has_key-new_order p key id same =
    rw (same, text_eq_refl key, (==_iff p.event_id p.event_id).1 refl) refl

insert_order-IsKeyed :
    (p : Plan) (key : Text) (s : Store)
    → p.idempotency_key ≡ some key
    → Ends (insert_order p s) (λ order_id s'. IsKeyed p.event_id key order_id s'.orders)
unfolding insert_order find is_text
insert_order-IsKeyed p key s same = elim (Bool-cases (key_taken p.event_id p.idempotency_key s)) [
  | inl taken ↦ rw taken tt
  | inr free ↦ rw free (record {
    order = new_order p s.next_id;
    by_id = rw ((==_iff s.next_id s.next_id).1 refl) refl;
    by_key = rw (has_key-new_order p key s.next_id same) refl;
  })
]

pub place_order-IsKeyed :
    (now : ℕ) (p : Plan) (key : Text) (s : Store)
    → p.idempotency_key ≡ some key
    → Ends (place_order now p s) (λ order_id s'. IsKeyed p.event_id key order_id s'.orders)
unfolding place_order
place_order-IsKeyed now p key s same =
    continue-Ends (λ _ _. Unit {0}) (for_each p.ga_items claim_item s) _ _ (anything _)
      λ _ s₁ _.
        continue-Ends (λ order_id s₂. IsKeyed p.event_id key order_id s₂.orders) (insert_order p s₁)
          _ _ (insert_order-IsKeyed p key s₁ same)
          λ order_id s₂ keyed.
            continue-Ends (λ _ s₃. IsKeyed p.event_id key order_id s₃.orders)
              (settle_holds p now order_id p.expires_at p.seat_ids s₂) _ _
              (Keeps-Ends orders_of (IsKeyed p.event_id key order_id) s₂
                (settle_holds p now order_id p.expires_at p.seat_ids s₂)
                (settle_holds-orders p now order_id p.expires_at p.seat_ids s₂) keyed)
              λ _ s₃ keyed.
                continue-Ends (λ _ s₄. IsKeyed p.event_id key order_id s₄.orders)
                  (issue_free p order_id p.expires_at s₃) _ _
                  (Keeps-Ends orders_of (IsKeyed p.event_id key order_id) s₃
                    (issue_free p order_id p.expires_at s₃)
                    (issue_free-orders p order_id p.expires_at s₃) keyed)
                  (λ _ s₄ keyed. keyed)
  where
    anything : {A : Type 0} (r : Result A × Store) → Ends r (λ _ _. Unit {0})
    anything (ok a, s') = tt
    anything (err e, s') = tt
