-- ===== src/Books/Orders.antt =====
-- The books when an order is written, or leaves `awaiting_payment`.
use openseat.Base.{
  ℕ, ◌+◌, ◌≤◌, ◌≡◌, refl, inl, inr, Bool, true, false, List, [], ◌∷◌, ◌++◌, some, ◌==◌,
  if◌then◌else◌, Bool-cases, find, update, any, sum_of, All-mono, arith,
}
use openseat.Store.{Store, TicketType, Order, OrderItem, OrderStatus}
use openseat.Store.Action.{Ends}
use openseat.Orders.{is_awaiting, find_order, is_awaiting_order, set_order_status, claim_order}
use openseat.Orders.Create.{key_taken, new_order, insert_order}
use openseat.Orders.Plan.{Plan, requires_payment}
use openseat.Books.{qty_of, claimed_in, only_if, Offset, RowBalanced, Below, Books}

-- The offset of an order's items, for types of general admission.
abbrev pub plus_items : List OrderItem → Offset → Offset
plus_items items d ga k = d ga k + only_if ga (sum_of (qty_of k) items)

pub Below-mono : {m n : ℕ} (os : List Order) → m ≤ n → Below m os → Below n os
Below-mono [] h b = tt
Below-mono (o ∷ os) h b = (omega arith, b.1)

-- Updates that keep the ids.
pub Below-update :
    (p : Order → Bool) (f : Order → Order) (n : ℕ) (os : List Order)
    → ((o : Order) → (f o).id ≡ o.id)
    → Below n os
    → Below n (update p f os)
unfolding update
Below-update p f n [] same b = tt
Below-update p f n (o ∷ os) same b = elim (Bool-cases (p o)) [
  | inl e ↦ rw (e, same o) (b.0, Below-update p f o.id os same b.1)
  | inr e ↦ rw e (b.0, Below-update p f o.id os same b.1)
]

module _ (id : ℕ) (status : OrderStatus) where
  any_absent :
      (n : ℕ) (os : List Order) → Below n os → n ≤ id → any (is_awaiting_order id) os ≡ false
  unfolding any
  any_absent n [] b h = refl
  any_absent n (o ∷ os) b h = ground (arith, any_absent o.id os b.1)

  claimed_absent :
      (n k : ℕ) (os : List Order)
      → Below n os
      → n ≤ id
      → sum_of (claimed_in k) (update (is_awaiting_order id) (set_order_status status) os)
        ≡ sum_of (claimed_in k) os
  unfolding update sum_of
  claimed_absent n k [] b h = refl
  claimed_absent n k (o ∷ os) b h = ground (arith, claimed_absent o.id k os b.1)

  -- The order that an update to another status found, and what it had claimed.
  pub record IsClaimed (os : List Order) : Type 0 where
    pub order : Order
    pub found :
        find (λ o. o.id == id) (update (is_awaiting_order id) (set_order_status status) os)
        ≡ some order
    pub same_id : order.id ≡ id
    pub claimed :
        (k : ℕ)
        → sum_of (claimed_in k) (update (is_awaiting_order id) (set_order_status status) os)
            + sum_of (qty_of k) order.items
          ≡ sum_of (claimed_in k) os

  IsClaimed-order :
      (n : ℕ) (os : List Order)
      → is_awaiting status ≡ false
      → Below n os
      → any (is_awaiting_order id) os ≡ true
      → IsClaimed os
  unfolding any update find sum_of
  IsClaimed-order n [] closed b h = cc
  IsClaimed-order n (o ∷ os) closed b h = elim (Bool-cases (is_awaiting_order id o)) [
    | inl here ↦
        let e : o.id ≡ id = ground arith in
        record {
          order = set_order_status status o;
          found = ground arith;
          same_id = e;
          claimed = λ k. ground (arith, claimed_absent o.id k os b.1);
        }
    | inr missed ↦
        let later : any (is_awaiting_order id) os ≡ true = ground arith in
        let c = IsClaimed-order o.id os closed b.1 later in
        record {
          order = c.order;
          found = ground (arith, c.found, any_absent o.id os b.1);
          same_id = c.same_id;
          claimed = λ k. ground (arith, c.claimed k);
        }
  ]

-- What is known after the claim of an order: nothing moved, or the order's items are in the offset.
pub data Claimed (id : ℕ) (d e : Offset) (s : Store) : Bool → Type 0 where
  missed : Books d e s → Claimed id d e s false
  taken :
      (o : Order)
      → find_order id s ≡ some o
      → o.id ≡ id
      → Books (plus_items o.items d) e s
      → Claimed id d e s true

module _ {d e : Offset} (s : Store) where
  pub claim_order-Books :
      (id : ℕ) (status : OrderStatus)
      → is_awaiting status ≡ false
      → Books d e s
      → Ends (claim_order id status s) (λ claimed s'. Claimed id d e s' claimed)
  unfolding claim_order
  claim_order-Books id status closed b = elim (Bool-cases (any (is_awaiting_order id) s.orders)) [
    | inr none_such ↦ rw none_such (missed b)
    | inl some_such ↦
        let c = IsClaimed-order id status s.next_id s.orders closed b.orders some_such in
        rw some_such (
          taken c.order c.found c.same_id (record {
            types = b.types;
            orders =
                Below-update (is_awaiting_order id) (set_order_status status) s.next_id s.orders
                  (λ o. refl) b.orders;
            seats = b.seats;
            rows = All-mono s.ticket_types (λ t row. ground (arith, c.claimed t.id)) b.rows;
          }))
  ]

  -- A new order that awaits payment has its items in the other offset.
  pub insert_order-Books :
      (p : Plan)
      → Books d e s
      → Ends (insert_order p s) (λ _. Books d (λ ga k.
        e ga k
        + (if requires_payment p
            then only_if ga (sum_of (qty_of k) (p.ga_items ++ p.groups))
            else 0)))
  unfolding insert_order sum_of
  insert_order-Books p b = elim (Bool-cases (key_taken p.event_id p.idempotency_key s)) [
    | inl taken_key ↦ rw taken_key tt
    | inr free ↦ rw free (record {
      types = b.types;
      orders = (omega arith, b.orders);
      seats = b.seats;
      rows = All-mono s.ticket_types (λ t row. new_row t row) b.rows;
    })
  ]
    where
      new_row :
          (t : TicketType)
          → RowBalanced d e s t
          → RowBalanced d
              (λ ga k.
                e ga k
                + (if requires_payment p
                    then only_if ga (sum_of (qty_of k) (p.ga_items ++ p.groups))
                    else 0))
              (record s { orders = new_order p s.next_id ∷ s.orders })
              t
      new_row t row = ground arith
