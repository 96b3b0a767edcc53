-- ===== src/Books/Place.antt =====
-- The books through the transaction of `OrdersService.create`.
use openseat.Base.{
  ℕ, ◌+◌, ◌≡◌, refl, ◌∙◌, inl, inr, Bool, true, false, not, List, [], ◌∷◌, ◌++◌, Option, none, some,
  ◌==◌, if◌then◌else◌, is_some, Bool-cases, count, sum_of, sum_of-append, length, ltb, All, arith,
}
use openseat.Store.{Store, OrderItem, Seat, ticket_issued, seats_sold}
use openseat.Store.Action.{Ends, continue-Ends, for_each, transaction, roll_back-keeps}
use openseat.Inventory.{is_ga_type, claim_item, issue_tickets, ga_drafts, seat_drafts, write_in_tx}
use openseat.Orders.Create.{is_mine, insert_order, settle_holds, issue_free, issue_of, place_order}
use openseat.Orders.Plan.{Plan, requires_payment}
use openseat.Books.{qty_of, only_if, Offset, zero_offset, IsSeated, Books}
use openseat.Books.Types.{rebalance}
use openseat.Books.Orders.{insert_order-Books}
use openseat.Books.Loops.{plus, claim_items-Books, decrement_items-Books, issue_tickets-Books}
use openseat.Books.Counts.{seats_of, drafts-sum}
use openseat.Books.Frame.{holds-Books, write_in_tx-Books, write_if-Books}

-- A plan that the validation can hand over: the items are of general admission, the seats are not,
-- and the groups count the seats.
pub record IsPlan (s : Store) (p : Plan) : Type 0 where
  pub items : All (λ i. is_ga_type s.ticket_types i.ticket_type_id ≡ true) p.ga_items
  pub seats : All (λ x. IsSeated s.ticket_types x.ticket_type_id) p.seats
  pub groups : (k : ℕ) → sum_of (qty_of k) p.groups ≡ seats_of k p.seats
  pub chosen : p.seat_ids ≡ [] → p.seats ≡ []

module _ (d e : Offset) (p : Plan) where
  settle_holds-Books :
      (now order_id : ℕ) (expires_at : Option ℕ) (seat_ids : List ℕ) (s : Store)
      → (seat_ids ≡ [] → (k : ℕ) → sum_of (qty_of k) p.groups ≡ 0)
      → Books d e s
      → Ends (settle_holds p now order_id expires_at seat_ids s) (λ _.
        Books (plus d (λ ga k. if is_some expires_at then 0 else sum_of (qty_of k) p.groups)) e)
  unfolding settle_holds
  settle_holds-Books now order_id none [] s empty b =
      rebalance _ _ s (λ ga k _. omega (arith, empty refl k)) b
  settle_holds-Books now order_id (some t) [] s empty b = rebalance _ _ s (λ ga k _. omega arith) b
  settle_holds-Books now order_id (some t) (i ∷ is) s empty b =
      elim (Bool-cases (count (is_mine p now) s.holds == length p.seat_ids)) [
        | inr lost ↦ rw lost tt
        | inl bound ↦ rw bound (rebalance _ _ _ (λ ga k _. omega arith) (holds-Books s _ b))
      ]
  settle_holds-Books now order_id none (i ∷ is) s empty b =
      elim (Bool-cases (count (is_mine p now) s.holds == length p.seat_ids)) [
        | inr lost ↦ rw lost tt
        | inl consumed ↦ rw consumed (decrement_items-Books p.groups d e _ (holds-Books s _ b))
      ]

  issue_free-Books :
      (order_id : ℕ) (expires_at : Option ℕ) (s : Store)
      → Books d e s
      → Ends (issue_free p order_id expires_at s) (λ _. Books d (
          plus e (λ ga k.
            if is_some expires_at then 0 else sum_of (qty_of k) p.ga_items + seats_of k p.seats)))
  unfolding issue_free
  issue_free-Books order_id (some t) s b = rebalance _ _ s (λ ga k _. omega arith) b
  issue_free-Books order_id none s b =
      continue-Ends _ (issue_tickets (issue_of p order_id) drafts s) _ _
        (issue_tickets-Books (issue_of p order_id) drafts d e s b)
        λ _ s' b'.
          continue-Ends _ (write_in_tx (ticket_issued order_id) s') _ _
            (write_in_tx-Books (ticket_issued order_id) s' b')
            λ _ s'' b''.
              write_if-Books (ltb 0 (length p.seat_ids)) (seats_sold p.event_id p.seat_ids) s''
                (rebalance _ _ s'' (λ ga k _. omega (arith, drafts-sum k p.ga_items p.seats)) b'')
    where
      drafts : List (ℕ × Option ℕ)
      drafts = ga_drafts p.ga_items ++ seat_drafts p.seats

-- What a plan's rows allow before the transaction: seats are in no row of general admission, and
-- items in no seated row.
abbrev spare_left : Plan → Offset
spare_left p ga k = if requires_payment p then only_if ga (sum_of (qty_of k) p.groups) else 0

abbrev spare_right : Plan → Offset
spare_right p ga k =
    if requires_payment p then only_if (not ga) (sum_of (qty_of k) p.ga_items) else 0

items_of_seated :
    (s : Store) (k : ℕ) (items : List OrderItem)
    → All (λ i. is_ga_type s.ticket_types i.ticket_type_id ≡ true) items
    → is_ga_type s.ticket_types k ≡ false
    → sum_of (qty_of k) items ≡ 0
unfolding sum_of
items_of_seated s k [] h seated = refl
items_of_seated s k (i ∷ items) h seated =
    ground (arith, items_of_seated s k items h.1 seated, h.0, seated)

seats_of_ga :
    (s : Store) (k : ℕ) (seats : List Seat)
    → All (λ x. IsSeated s.ticket_types x.ticket_type_id) seats
    → is_ga_type s.ticket_types k ≡ true
    → seats_of k seats ≡ 0
unfolding count
seats_of_ga s k [] h ga = refl
seats_of_ga s k (x ∷ seats) h ga = ground (arith, seats_of_ga s k seats h.1 ga, h.0, ga)

spare :
    (s : Store) (p : Plan)
    → IsPlan s p
    → Books zero_offset zero_offset s
    → Books (spare_left p) (spare_right p) s
spare s p plan = rebalance _ _ s go
  where
    go :
        (ga : Bool) (k : ℕ)
        → is_ga_type s.ticket_types k ≡ ga
        → 0 + spare_right p ga k ≡ spare_left p ga k + 0
    go true k kind = ground (arith, plan.groups k, seats_of_ga s k p.seats plan.seats kind)
    go false k kind = ground (arith, items_of_seated s k p.ga_items plan.items kind)

no_groups :
    {s : Store} (p : Plan) → IsPlan s p → p.seat_ids ≡ [] → (k : ℕ) → sum_of (qty_of k) p.groups ≡ 0
unfolding count
no_groups p plan e k = plan.groups k ∙ rw (plan.chosen e)

place_order-Ends :
    (now : ℕ) (p : Plan) (s : Store)
    → IsPlan s p
    → Books zero_offset zero_offset s
    → Ends (place_order now p s) (λ _. Books zero_offset zero_offset)
unfolding place_order
place_order-Ends now p s plan b =
    continue-Ends _ (for_each p.ga_items claim_item s) _ _
      (claim_items-Books p.ga_items _ _ s (spare s p plan b))
      λ _ s₁ b₁. continue-Ends _ (insert_order p s₁) _ _ (insert_order-Books s₁ p b₁) λ id s₂ b₂.
        continue-Ends _ (settle_holds p now id p.expires_at p.seat_ids s₂) _ _
          (settle_holds-Books _ _ p now id p.expires_at p.seat_ids s₂ (no_groups p plan) b₂)
          λ _ s₃ b₃.
            continue-Ends _ (issue_free p id p.expires_at s₃) _ _
              (issue_free-Books _ _ p id p.expires_at s₃ b₃)
              λ _ s₄ b₄.
                rebalance _ _ s₄
                  (λ ga k _.
                    ground (arith, plan.groups k, sum_of-append (qty_of k) p.ga_items p.groups))
                  b₄

-- The transaction of `create` keeps the books balanced, whether it commits or not.
pub place_order-Books :
    (now : ℕ) (p : Plan) (s : Store)
    → IsPlan s p
    → Books zero_offset zero_offset s
    → Books zero_offset zero_offset (transaction (place_order now p) s).1
place_order-Books now p s plan b =
    roll_back-keeps (Books zero_offset zero_offset) s (place_order now p s) b
      (place_order-Ends now p s plan b)
