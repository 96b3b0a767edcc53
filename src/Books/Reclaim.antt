-- ===== src/Books/Reclaim.antt =====
-- The books when tickets are refunded, and when a refund settles.
use openseat.Base.{
  ℕ, suc, ◌+◌, ◌≤◌, ◌≡◌, refl, sym, ap, ◌∙◌, inl, inr, Bool, true, false, ◌&&◌, List, [], ◌∷◌, map,
  ◌==◌, ==_iff, if◌then◌else◌, Bool-cases, count, update, select, sum_of, length, ltb, All-mono,
  arith,
}
use openseat.Store.{Store, Ticket, Refund, seats_released, order_updated}
use openseat.Store.Action.{
  Action, Ends, Ends-mono, continue-Ends, for_each, transaction, roll_back-keeps,
}
use openseat.Inventory.{increment, write_in_tx, write_if, counts_of}
use openseat.Refunds.{insert_refund, refund_key_taken, settle_in_tx}
use openseat.Refunds.Create.{
  Plan, is_chosen, is_voidable, void_for, void_tickets, restore, seat_ids_of, reclaim, is_free,
  new_refund,
}
use openseat.Books.{is_live_of, Offset, zero_offset, Books}
use openseat.Books.Types.{rebalance}
use openseat.Books.Settle.{settle_in_tx-Books}
use openseat.Books.Loops.{plus, increments-Books}
use openseat.Books.Counts.{counts_of-sum}
use openseat.Books.Frame.{IsSame-Books, write_in_tx-Books, write_if-Books}

-- The refund's plan agrees with the store: its tickets have the types of the chosen rows.
pub record IsPlan (s : Store) (p : Plan) : Type 0 where
  pub types :
      map (λ t. t.ticket_type_id) p.tickets
      ≡ map (λ t. t.ticket_type_id) (select (is_chosen p.ticket_ids p.order_id) s.tickets)
  pub all_chosen : length p.tickets ≡ length p.ticket_ids

-- The tickets of a type that a refund voids.
abbrev voided_of : Plan → ℕ → List Ticket → ℕ
voided_of p k ts = count (λ t. t.ticket_type_id == k && is_voidable p.ticket_ids p.order_id t) ts

voided_rows :
    (p : Plan) (refund_id k : ℕ) (ts : List Ticket)
    → count (is_live_of k) (update (is_voidable p.ticket_ids p.order_id) (void_for refund_id) ts)
        + voided_of p k ts
      ≡ count (is_live_of k) ts
unfolding count update
voided_rows p refund_id k [] = refl
voided_rows p refund_id k (t ∷ ts) = ground (arith, voided_rows p refund_id k ts)

voidable-le-chosen :
    (p : Plan) (ts : List Ticket)
    → count (is_voidable p.ticket_ids p.order_id) ts
      ≤ length (select (is_chosen p.ticket_ids p.order_id) ts)
unfolding count select
voidable-le-chosen p [] = omega arith
voidable-le-chosen p (t ∷ ts) = ground (arith, voidable-le-chosen p ts)

-- If every chosen ticket is voided, each type loses as many as were chosen of it.
voided_all :
    (p : Plan) (k : ℕ) (ts : List Ticket)
    → count (is_voidable p.ticket_ids p.order_id) ts
      ≡ length (select (is_chosen p.ticket_ids p.order_id) ts)
    → voided_of p k ts
      ≡ count
          (λ j. j == k)
          (map (λ t. t.ticket_type_id) (select (is_chosen p.ticket_ids p.order_id) ts))
unfolding count select
voided_all p k [] h = refl
voided_all p k (t ∷ ts) h = ground (arith, voided_all p k ts, voidable-le-chosen p ts)

-- The chosen tickets of a type, as the plan counts them.
abbrev planned_of : Plan → ℕ → ℕ
planned_of p k = count (λ j. j == k) (map (λ t. t.ticket_type_id) p.tickets)

length-map {ℓ} : {A : Type ℓ} (f : A → ℕ) (xs : List A) → length (map f xs) ≡ length xs
length-map f [] = refl
length-map f (x ∷ xs) = ap suc (length-map f xs)

voided_planned :
    (s : Store) (p : Plan) (k : ℕ)
    → IsPlan s p
    → count (is_voidable p.ticket_ids p.order_id) s.tickets ≡ length p.ticket_ids
    → voided_of p k s.tickets ≡ planned_of p k
voided_planned s p k plan all =
    rw plan.types (voided_all p k s.tickets (all ∙ sym plan.all_chosen ∙ chosen_length))
  where
    chosen : List Ticket
    chosen = select (is_chosen p.ticket_ids p.order_id) s.tickets

    chosen_length : length p.tickets ≡ length chosen
    chosen_length =
        sym (length-map (λ t. t.ticket_type_id) p.tickets)
        ∙ ap length plan.types
        ∙ length-map (λ t. t.ticket_type_id) chosen

void_tickets-Books :
    (p : Plan) (refund_id : ℕ) (d e : Offset) (s : Store)
    → IsPlan s p
    → Books d e s
    → Ends (void_tickets p refund_id s) (λ _. Books (plus d (λ ga k. planned_of p k)) e)
unfolding void_tickets
void_tickets-Books p refund_id d e s plan b =
    elim (Bool-cases
      (count (is_voidable p.ticket_ids p.order_id) s.tickets == length p.ticket_ids)) [
        | inr used ↦ rw used tt
        | inl all ↦ rw all (record {
          types = b.types;
          orders = b.orders;
          seats = b.seats;
          rows =
              All-mono s.ticket_types
                (λ t row. omega (
                  arith,
                  voided_rows p refund_id t.id s.tickets,
                  voided_planned s p t.id plan ((==_iff _ _).0 all),
                ))
                b.rows;
        })
      ]

restore-Books :
    (p : Plan) (d e : Offset) (s : Store)
    → Books d e s
    → Ends (restore p.tickets s) (λ _. Books d (plus e (λ ga k. planned_of p k)))
unfolding restore sum_of
restore-Books p d e s b =
    Ends-mono _ _ (for_each counts (λ c. increment c.0 c.1) s)
      (λ _ s₁.
        rebalance _ _ s₁
          (λ ga k _. omega (arith, counts_of-sum k [] (map (λ t. t.ticket_type_id) p.tickets))))
      (increments-Books counts d e s b)
  where
    counts : List (ℕ × ℕ)
    counts = counts_of [] (map (λ t. t.ticket_type_id) p.tickets)

-- What is known after the refund's row is written.
record IsStarted (p : Plan) (s : Store) : Type 0 where
  books : Books zero_offset zero_offset s
  plan : IsPlan s p

insert_refund-IsStarted :
    (p : Plan) (r : Refund) (s : Store)
    → IsPlan s p
    → Books zero_offset zero_offset s
    → Ends (insert_refund r s) (λ _. IsStarted p)
unfolding insert_refund
insert_refund-IsStarted p r s plan b =
    elim (Bool-cases (refund_key_taken r.order_id r.idempotency_key s)) [
      | inl taken_key ↦ rw taken_key tt
      | inr free ↦ rw free (record {
        books =
            IsSame-Books s _
              (record {
                types = refl;
                orders = refl;
                tickets = refl;
                seats = refl;
                next = omega arith;
              })
              b;
        plan = record { types = plan.types; all_chosen = plan.all_chosen };
      })
    ]

settle_or_notify : Bool → Plan → Action (Unit {0})
settle_or_notify free p =
    if free
    then settle_in_tx p.order_id 0
    else write_in_tx (order_updated p.order_id p.order_status)

settle_or_notify-Books :
    (free : Bool) (p : Plan) (s : Store)
    → Books zero_offset zero_offset s
    → Ends (settle_or_notify free p s) (λ _. Books zero_offset zero_offset)
unfolding settle_or_notify
settle_or_notify-Books true p s b = settle_in_tx-Books p.order_id 0 s b
settle_or_notify-Books false p s b = write_in_tx-Books (order_updated p.order_id p.order_status) s b

reclaim-Ends :
    (now : ℕ) (p : Plan) (s : Store)
    → IsPlan s p
    → Books zero_offset zero_offset s
    → Ends (reclaim now p s) (λ _. Books zero_offset zero_offset)
unfolding reclaim settle_or_notify
reclaim-Ends now p s plan b =
    continue-Ends _ (insert_refund (new_refund now p) s) _ _
      (insert_refund-IsStarted p (new_refund now p) s plan b)
      λ id s₁ b₁.
        continue-Ends _ (void_tickets p id s₁) _ _ (void_tickets-Books p id _ _ s₁ b₁.plan b₁.books)
          λ _ s₂ b₂.
            continue-Ends _ (restore p.tickets s₂) _ _ (restore-Books p _ _ s₂ b₂) λ _ s₃ b₃.
              continue-Ends _
                (write_if (ltb 0 (length seat_ids)) (seats_released p.event_id seat_ids) s₃) _ _
                (write_if-Books (ltb 0 (length seat_ids)) (seats_released p.event_id seat_ids) s₃
                  (rebalance zero_offset zero_offset s₃ (λ ga k _. omega arith) b₃))
                λ _ s₄ b₄.
                  continue-Ends _ (settle_or_notify (is_free p) p s₄) _ _
                    (settle_or_notify-Books (is_free p) p s₄ b₄) (λ _ s₅ b₅. b₅)
  where
    seat_ids : List ℕ
    seat_ids = seat_ids_of p.tickets

-- The transaction of a refund keeps the books balanced, whether it commits or not.
pub reclaim-Books :
    (now : ℕ) (p : Plan) (s : Store)
    → IsPlan s p
    → Books zero_offset zero_offset s
    → Books zero_offset zero_offset (transaction (reclaim now p) s).1
reclaim-Books now p s plan b =
    roll_back-keeps (Books zero_offset zero_offset) s (reclaim now p s) b
      (reclaim-Ends now p s plan b)
