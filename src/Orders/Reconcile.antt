-- ===== src/Orders/Reconcile.antt =====
-- `reconcileExpired` of apps/api/src/orders/orders.service.ts, and the orders past their payment window.
use openseat.Base.{
  ◌-◌, ◌+◌, ◌&&◌, not, take, count, update-none, zero, ℕ, suc, ◌≤◌, ◌≡◌, refl, sym, ap, ◌∙◌, inl,
  inr, Bool, true, false, List, [], ◌∷◌, if◌then◌else◌, ◌==◌, Bool-cases, find, find-any, select,
  delete, update, any, All, All-mono, length, is_just, arith,
}
use openseat.Store.{Store, Order, OrderItem, OrderStatus, expired, seats_released, order_updated}
use openseat.Store.Action.{for_each, return, ◌>>◌, transaction}
use openseat.Store.Returns.{
  Returns, continue-Returns, roll_back-Returns, for_each-Returns, Returns-mono,
}
use openseat.Inventory.{find_type, is_ga_type, increment, write_if, write_in_tx}
use openseat.Orders.{
  is_awaiting_order, set_order_status, claim_order, take_holds, restore_item, release_claimed,
  release_order_inventory_in_tx, is_stranded, insert_by_expiry, sort_by_expiry, stranded,
  release_each, reconcile_expired, reconcile_batch_size,
}

-- The orders after a release.
abbrev closed_in : ℕ → List Order → List Order
closed_in k os = update (is_awaiting_order k) (set_order_status expired) os

known_type :
    (k : ℕ) (types : List openseat.Store.TicketType)
    → is_ga_type types k ≡ true
    → any (λ t. t.id == k) types ≡ true
unfolding is_ga_type find_type find any
known_type k [] h = ground (arith, h)
known_type k (t ∷ ts) h = elim (Bool-cases (t.id == k)) [
  | inl here ↦ rw here refl
  | inr other ↦ rw other (known_type k ts (ground (arith, other, h)))
]

-- A type of general admission exists, so its counter can be raised.
restore_item-Returns :
    (i : OrderItem) (s : Store) → Returns (restore_item i s) (λ _ s'. s'.orders ≡ s.orders)
unfolding restore_item increment
restore_item-Returns i s = elim (Bool-cases (is_ga_type s.ticket_types i.ticket_type_id)) [
  | inr seats ↦ rw seats refl
  | inl ga ↦ rw (ga, known_type i.ticket_type_id s.ticket_types ga) refl
]

-- The two messages of a release, written at its end.
announce-Returns :
    (b : Bool) (seats closed : openseat.Store.OutboxPayload) (os : List Order) (s : Store)
    → s.orders ≡ os
    → Returns ((write_if b seats >> (write_in_tx closed >> return true)) s) (λ _ s'. s'.orders ≡ os)
unfolding write_if write_in_tx
announce-Returns true seats closed os s same = same
announce-Returns false seats closed os s same = same

any-update_id :
    (k : ℕ) (os : List Order)
    → any (is_awaiting_order k) os ≡ true
    → any (λ o. o.id == k) (closed_in k os) ≡ true
unfolding any update
any-update_id k [] h = ground (arith, h)
any-update_id k (o ∷ os) h = elim (Bool-cases (is_awaiting_order k o)) [
  | inl here ↦ ground (arith, here)
  | inr other ↦ ground (arith, other, h, any-update_id k os)
]

release_claimed-Returns :
    (k : ℕ) (s : Store)
    → any (λ o. o.id == k) s.orders ≡ true
    → Returns (release_claimed k expired s) (λ _ s'. s'.orders ≡ s.orders)
unfolding release_claimed take_holds
release_claimed-Returns k s there =
    let (order, found, hit) = find-any (λ o. o.id == k) s.orders there in
    rw found (
      continue-Returns (λ _ s'. s'.orders ≡ s.orders) (for_each order.items restore_item s) _ _
        (for_each-Returns (λ _ s'. s'.orders ≡ s.orders) restore_item order.items s
          (λ i rest s₁ same.
            Returns-mono (λ _ s₂. s₂.orders ≡ s₁.orders) (λ _ s₂. s₂.orders ≡ s.orders)
              (restore_item i s₁) (λ _ s₂ e. e ∙ same) (restore_item-Returns i s₁))
          refl)
        λ _ s₁ same.
          announce-Returns _ _ _ s.orders
            (record s₁ { holds = delete (λ h. is_just h.order_id k) s₁.holds }) same)

-- A release returns, and closes the order if it awaited its payment.
release-Returns :
    (k : ℕ) (s : Store)
    → Returns (release_order_inventory_in_tx k expired s) (λ _ s'. s'.orders ≡ closed_in k s.orders)
unfolding release_order_inventory_in_tx claim_order
release-Returns k s = elim (Bool-cases (any (is_awaiting_order k) s.orders)) [
  | inr closed ↦ rw closed (sym (update-none _ _ s.orders closed))
  | inl waiting ↦ rw waiting (release_claimed-Returns k _ (any-update_id k s.orders waiting))
]

count-insert_by_expiry :
    (p : Order → Bool) (o : Order) (os : List Order)
    → count p (insert_by_expiry o os) ≡ count p (o ∷ os)
unfolding insert_by_expiry count
count-insert_by_expiry p o [] = refl
count-insert_by_expiry p o (q ∷ os) = ground (arith, count-insert_by_expiry p o os)

count-sort_by_expiry :
    (p : Order → Bool) (os : List Order) → count p (sort_by_expiry os) ≡ count p os
unfolding sort_by_expiry count
count-sort_by_expiry p [] = refl
count-sort_by_expiry p (o ∷ os) =
    count-insert_by_expiry p o (sort_by_expiry os)
    ∙ ap (λ n. (if p o then 1 else 0) + n) (count-sort_by_expiry p os)

length-insert_by_expiry :
    (o : Order) (os : List Order) → length (insert_by_expiry o os) ≡ suc (length os)
unfolding insert_by_expiry
length-insert_by_expiry o [] = refl
length-insert_by_expiry o (q ∷ os) = ground (arith, length-insert_by_expiry o os)

length-sort_by_expiry : (os : List Order) → length (sort_by_expiry os) ≡ length os
unfolding sort_by_expiry
length-sort_by_expiry [] = refl
length-sort_by_expiry (o ∷ os) =
    length-insert_by_expiry o (sort_by_expiry os) ∙ ap suc (length-sort_by_expiry os)

-- The order is one of the batch.
abbrev is_in : List Order → Order → Bool
is_in batch o = any (λ b. b.id == o.id) batch

own-batch : (os : List Order) → All (λ o. is_in os o ≡ true) os
unfolding any
own-batch [] = tt
own-batch (o ∷ os) = (ground arith, All-mono os (λ q h. ground (arith, h)) (own-batch os))

-- What a batch that covers the first `n` orders leaves of a list.
left_over :
    (batch : List Order) (n : ℕ) (os : List Order)
    → All (λ o. is_in batch o ≡ true) (take n os)
    → count (λ o. not (is_in batch o)) os ≤ length os - n
unfolding take count
left_over batch n [] h = ground arith
left_over batch zero (o ∷ os) h = ground (arith, left_over batch zero os tt)
left_over batch (suc n) (o ∷ os) h = rw h.0 (omega (arith, left_over batch n os h.1))

module _ (now : ℕ) where
  count-select :
      (p : Order → Bool) (os : List Order)
      → count p (select (is_stranded now) os) ≡ count (λ o. is_stranded now o && p o) os
  unfolding count select
  count-select p [] = refl
  count-select p (o ∷ os) = elim (Bool-cases (is_stranded now o)) [
    | inl late ↦ rw late (ap (λ n. (if p o then 1 else 0) + n) (count-select p os))
    | inr fine ↦ rw fine (ground (arith, count-select p os))
  ]

  length-select :
      (os : List Order) → length (select (is_stranded now) os) ≡ count (is_stranded now) os
  unfolding count select
  length-select [] = refl
  length-select (o ∷ os) = elim (Bool-cases (is_stranded now o)) [
    | inl late ↦ rw late (omega (arith, length-select os))
    | inr fine ↦ rw fine (omega (arith, length-select os))
  ]

  -- The stranded orders that are not of a batch.
  abbrev passed_over : List Order → List Order → ℕ
  passed_over batch os = count (λ o. is_stranded now o && not (is_in batch o)) os

  passed_over-closed :
      (b : Order) (batch os : List Order)
      → passed_over batch (closed_in b.id os) ≤ passed_over (b ∷ batch) os
  unfolding update count any
  passed_over-closed b batch [] = ground arith
  passed_over-closed b batch (o ∷ os) = elim (Bool-cases (is_awaiting_order b.id o)) [
    | inl hit ↦ ground (arith, hit, passed_over-closed b batch os)
    | inr other ↦ ground (arith, other, passed_over-closed b batch os)
  ]

  passed_over-none : (os : List Order) → count (is_stranded now) os ≤ passed_over [] os
  unfolding count any
  passed_over-none [] = ground arith
  passed_over-none (o ∷ os) = ground (arith, passed_over-none os)

  release_each-Returns :
      (batch : List Order) (n : ℕ) (s : Store)
      → Returns
          (release_each batch n s)
          (λ _ s'. count (is_stranded now) s'.orders ≤ passed_over batch s.orders)
  unfolding release_each
  release_each-Returns [] n s = passed_over-none s.orders
  release_each-Returns (b ∷ batch) n s =
      continue-Returns (λ _ s₁. s₁.orders ≡ closed_in b.id s.orders)
        (transaction (release_order_inventory_in_tx b.id expired) s) _ _
        (roll_back-Returns _ s (release_order_inventory_in_tx b.id expired s)
          (release-Returns b.id s))
        λ k s₁ same.
          let n' : ℕ = if k then n + 1 else n in
          Returns-mono (λ _ s'. count (is_stranded now) s'.orders ≤ passed_over batch s₁.orders)
            (λ _ s'. count (is_stranded now) s'.orders ≤ passed_over (b ∷ batch) s.orders)
            (release_each batch n' s₁)
            (λ _ s' fewer.
              let less : passed_over batch s₁.orders ≤ passed_over (b ∷ batch) s.orders =
                rw same (passed_over-closed b batch s.orders) in
              omega (arith, fewer, less))
            (release_each-Returns batch n' s₁)

  -- A run of the reconciler returns, and the number of orders that it leaves stranded, awaiting
  -- payment past their window, is at most the number before less a hundred: none, if there were at
  -- most a hundred.
  pub reconcile_expired-Returns :
      (s : Store)
      → Returns (reconcile_expired now s) (λ _ s'.
        count (is_stranded now) s'.orders ≤ count (is_stranded now) s.orders - reconcile_batch_size)
  unfolding reconcile_expired stranded
  reconcile_expired-Returns s =
      let late = select (is_stranded now) s.orders in
      let batch = take 100 (sort_by_expiry late) in
      let rest : count (λ o. not (is_in batch o)) (sort_by_expiry late)
          ≤ length (sort_by_expiry late) - 100 =
        left_over batch 100 (sort_by_expiry late) (own-batch batch) in
      let same : passed_over batch s.orders
          ≡ count (λ o. not (is_in batch o)) (sort_by_expiry late) =
        sym (count-select (λ o. not (is_in batch o)) s.orders)
        ∙ sym (count-sort_by_expiry (λ o. not (is_in batch o)) late) in
      let size : length (sort_by_expiry late) ≡ count (is_stranded now) s.orders =
        length-sort_by_expiry late ∙ length-select s.orders in
      Returns-mono (λ _ s'. count (is_stranded now) s'.orders ≤ passed_over batch s.orders)
        (λ _ s'. count (is_stranded now) s'.orders ≤ count (is_stranded now) s.orders - 100)
        (release_each batch 0 s) (λ _ s' fewer. omega (arith, fewer, rest, same, size))
        (release_each-Returns batch 0 s)
