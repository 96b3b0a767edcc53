-- ===== src/Books/Loops.antt =====
-- The books through the loops over items, counts and ticket drafts.
use openseat.Base.{
  ℕ, ◌+◌, inl, inr, Bool, not, List, [], ◌∷◌, ◌==◌, if◌then◌else◌, Bool-cases, count, sum_of,
  All-mono, arith,
}
use openseat.Store.{Store, OrderItem}
use openseat.Store.Action.{Action, Ends, Ends-mono, continue-Ends, for_each}
use openseat.Inventory.{
  is_ga_type, claim_item, decrement, increment, Issue, Draft, seat_taken, issue_ticket,
  issue_tickets,
}
use openseat.Orders.{restore_item}
use openseat.Books.{qty_of, only_if, Offset, Books}
use openseat.Books.Types.{claim_item-Books, decrement-Books, increment-Books, rebalance}
use openseat.Books.Orders.{Below-mono}

abbrev pub plus : Offset → Offset → Offset
plus d w ga k = d ga k + w ga k

abbrev pub total : {A : Type 0} → (A → Offset) → List A → Offset
total w xs ga k = sum_of (λ x. w x ga k) xs

-- A round that moves `w x` for each element moves their sum in the loop.
module _ {A : Type 0} (f : A → Action (Unit {0})) (w : A → Offset) where
  loop-Books_left :
      ((x : A) (d e : Offset) (s : Store)
        → Books d e s
        → Ends (f x s) (λ _. Books (plus d (w x)) e))
      → (xs : List A) (d e : Offset) (s : Store) → Books d e s
      → Ends (for_each xs f s) (λ _. Books (plus d (total w xs)) e)
  unfolding sum_of
  loop-Books_left round [] d e s b = rebalance _ _ s (λ ga k _. omega arith) b
  loop-Books_left round (x ∷ xs) d e s b = continue-Ends _ (f x s) _ _ (round x d e s b) λ _ s' b'.
      Ends-mono _ _ (for_each xs f s') (λ _ s'' b''. rebalance _ _ s'' (λ ga k _. omega arith) b'')
        (loop-Books_left round xs _ _ s' b')

  loop-Books_right :
      ((x : A) (d e : Offset) (s : Store)
        → Books d e s
        → Ends (f x s) (λ _. Books d (plus e (w x))))
      → (xs : List A) (d e : Offset) (s : Store) → Books d e s
      → Ends (for_each xs f s) (λ _. Books d (plus e (total w xs)))
  unfolding sum_of
  loop-Books_right round [] d e s b = rebalance _ _ s (λ ga k _. omega arith) b
  loop-Books_right round (x ∷ xs) d e s b = continue-Ends _ (f x s) _ _ (round x d e s b) λ _ s' b'.
      Ends-mono _ _ (for_each xs f s') (λ _ s'' b''. rebalance _ _ s'' (λ ga k _. omega arith) b'')
        (loop-Books_right round xs _ _ s' b')

-- The number that a count holds for a type.
abbrev pub at_type : ℕ → ℕ × ℕ → ℕ
at_type k c = if c.0 == k then c.1 else 0

abbrev pub of_type : ℕ → Draft → Bool
of_type k x = x.0 == k

pub claim_items-Books :
    (items : List OrderItem) (d e : Offset) (s : Store)
    → Books d e s
    → Ends
        (for_each items claim_item s)
        (λ _. Books (plus d (total (λ i ga k. qty_of k i) items)) e)
claim_items-Books =
    loop-Books_left claim_item (λ i ga k. qty_of k i) (λ i d e s b. claim_item-Books s i b)

pub decrements-Books :
    (counts : List (ℕ × ℕ)) (d e : Offset) (s : Store)
    → Books d e s
    → Ends
        (for_each counts (λ c. decrement c.0 c.1) s)
        (λ _. Books (plus d (total (λ c ga k. at_type k c) counts)) e)
decrements-Books =
    loop-Books_left (λ c. decrement c.0 c.1) (λ c ga k. at_type k c)
      (λ c d e s b. decrement-Books s c.0 c.1 b)

pub decrement_items-Books :
    (items : List OrderItem) (d e : Offset) (s : Store)
    → Books d e s
    → Ends
        (for_each items (λ g. decrement g.ticket_type_id g.quantity) s)
        (λ _. Books (plus d (total (λ i ga k. qty_of k i) items)) e)
decrement_items-Books =
    loop-Books_left (λ g. decrement g.ticket_type_id g.quantity) (λ i ga k. qty_of k i)
      (λ g d e s b. decrement-Books s g.ticket_type_id g.quantity b)

pub increments-Books :
    (counts : List (ℕ × ℕ)) (d e : Offset) (s : Store)
    → Books d e s
    → Ends
        (for_each counts (λ c. increment c.0 c.1) s)
        (λ _. Books d (plus e (total (λ c ga k. at_type k c) counts)))
increments-Books =
    loop-Books_right (λ c. increment c.0 c.1) (λ c ga k. at_type k c)
      (λ c d e s b. increment-Books s c.0 c.1 b)

restore_item-Books :
    (i : OrderItem) (d e : Offset) (s : Store)
    → Books d e s
    → Ends (restore_item i s) (λ _. Books d (plus e (λ ga k. only_if ga (qty_of k i))))
unfolding restore_item
restore_item-Books i d e s b = elim (Bool-cases (is_ga_type s.ticket_types i.ticket_type_id)) [
  | inr seated ↦ rw seated (rebalance _ _ s (λ ga k kind. ground (arith, seated, kind)) b)
  | inl found ↦
      -- No seated row has this id, so an offset of such rows may be added before the increment.
      let b' : Books (plus d (λ ga k. only_if (not ga) (qty_of k i))) e s =
        rebalance _ _ s (λ ga k kind. ground (arith, found, kind)) b in
      rw found (
        Ends-mono _ _ (increment i.ticket_type_id i.quantity s)
          (λ _ s'. rebalance _ _ s' (λ ga k _. ground arith))
          (increment-Books s i.ticket_type_id i.quantity b'))
]

pub restore_items-Books :
    (items : List OrderItem) (d e : Offset) (s : Store)
    → Books d e s
    → Ends
        (for_each items restore_item s)
        (λ _. Books d (plus e (total (λ i ga k. only_if ga (qty_of k i)) items)))
restore_items-Books =
    loop-Books_right restore_item (λ i ga k. only_if ga (qty_of k i)) restore_item-Books

issue_ticket-Books :
    (i : Issue) (x : Draft) (d e : Offset) (s : Store)
    → Books d e s
    → Ends (issue_ticket i x s) (λ _. Books d (plus e (λ ga k. if x.0 == k then 1 else 0)))
unfolding issue_ticket count
issue_ticket-Books i (k, seat) d e s b = elim (Bool-cases (seat_taken i.event_id seat s.tickets)) [
  | inl double ↦ rw double tt
  | inr free ↦ rw free (record {
    types = b.types;
    orders = Below-mono s.orders (omega arith) b.orders;
    seats = b.seats;
    rows = All-mono s.ticket_types (λ t row. ground arith) b.rows;
  })
]

pub issue_tickets-Books :
    (i : Issue) (drafts : List Draft) (d e : Offset) (s : Store)
    → Books d e s
    → Ends
        (issue_tickets i drafts s)
        (λ _. Books d (plus e (total (λ x ga k. if x.0 == k then 1 else 0) drafts)))
unfolding issue_tickets
issue_tickets-Books i =
    loop-Books_right (issue_ticket i) (λ x ga k. if x.0 == k then 1 else 0) (issue_ticket-Books i)
