-- ===== src/Refunds/Once.antt =====
-- A second refund of the same tickets.
use openseat.Base.{
  ℕ, ◌≡◌, ◌<◌, refl, inl, inr, Bool, true, false, Bool-cases, if◌then◌else◌, count, update, length,
  List, [], ◌∷◌, ◌==◌, ==_iff, subst, any, All, ltb, map, arith,
}
use openseat.Store.{
  Store, Text, Ticket, TicketStatus, OutboxPayload, seats_released, order_updated, order_refunded,
}
use openseat.Store.Action.{
  Action, anything, Ends-at, Result, ok, err, Ends, Ends-mono, continue-Ends, require_some, return,
  continue, record_not_found, ◌>>◌,
}
use openseat.Store.Keeps.{
  Keeps, continue-Keeps, for_each-Keeps, require_some-Keeps, if-Keeps, Keeps-Ends,
}
use openseat.Holds.Exclusive.{succeeds}
use openseat.Inventory.{increment, write_in_tx, write_if, counts_of}
use openseat.Orders.{find_order, is_refundable}
use openseat.Refunds.{insert_refund, settle_in_tx, refresh_status, add_refunded}
use openseat.Refunds.Create.{
  Plan, is_voidable, void_for, void_tickets, restore, reclaim, new_refund, is_free, seat_ids_of,
}

abbrev tickets_of : Store → List Ticket
tickets_of s = s.tickets

write_in_tx-tickets : (payload : OutboxPayload) → Keeps tickets_of (write_in_tx payload)
unfolding write_in_tx
write_in_tx-tickets payload s = refl

write_if-tickets :
    (test : Bool) (payload : OutboxPayload) → Keeps tickets_of (write_if test payload)
unfolding write_if
write_if-tickets true payload s = write_in_tx-tickets payload s
write_if-tickets false payload s = refl

increment-tickets : (type_id n : ℕ) → Keeps tickets_of (increment type_id n)
unfolding increment
increment-tickets type_id n s = ground arith

restore-tickets : (tickets : List Ticket) → Keeps tickets_of (restore tickets)
unfolding restore
restore-tickets tickets =
    for_each-Keeps tickets_of {A = ℕ × ℕ} (counts_of [] (map (λ t. t.ticket_type_id) tickets))
      (λ c. increment c.0 c.1) (λ c. increment-tickets c.0 c.1)

refresh_status-tickets : (order_id : ℕ) → Keeps tickets_of (refresh_status order_id)
unfolding refresh_status
refresh_status-tickets order_id s = write_in_tx-tickets _ _

settle_in_tx-tickets : (order_id amount : ℕ) → Keeps tickets_of (settle_in_tx order_id amount)
unfolding settle_in_tx
settle_in_tx-tickets order_id amount s =
    continue-Keeps tickets_of _ (require_some (find_order order_id s) record_not_found s) _
      (require_some-Keeps tickets_of _ _ s)
      λ order s₁.
        continue-Keeps tickets_of _
          (write_in_tx (order_refunded order_id amount)
            (record s₁ { orders = update (λ o. o.id == order_id) (add_refunded amount) s₁.orders }))
          _ (write_in_tx-tickets _ _)
          λ _.
            if-Keeps tickets_of (is_refundable order.status) _ _ (refresh_status-tickets order_id)
              (λ s₂. refl)

-- No ticket of the request can be voided.
abbrev IsVoided : List ℕ → ℕ → List Ticket → Type 0
IsVoided ticket_ids order_id tickets = count (is_voidable ticket_ids order_id) tickets ≡ 0

voids :
    (ticket_ids : List ℕ) (order_id refund_id : ℕ) (ts : List Ticket)
    → IsVoided ticket_ids order_id
        (update (is_voidable ticket_ids order_id) (void_for refund_id) ts)
unfolding count update
voids ticket_ids order_id refund_id [] = refl
voids ticket_ids order_id refund_id (t ∷ ts) =
    ground (arith, voids ticket_ids order_id refund_id ts)

void_tickets-IsVoided :
    (p : Plan) (refund_id : ℕ) (s : Store)
    → Ends (void_tickets p refund_id s) (λ _ s'. IsVoided p.ticket_ids p.order_id s'.tickets)
unfolding void_tickets
void_tickets-IsVoided p refund_id s =
    elim (Bool-cases
      (count (is_voidable p.ticket_ids p.order_id) s.tickets == length p.ticket_ids)) [
        | inr some_used ↦ rw some_used tt
        | inl all ↦ rw all (voids p.ticket_ids p.order_id refund_id s.tickets)
      ]

insert_refund-tickets : (r : openseat.Store.Refund) → Keeps tickets_of (insert_refund r)
unfolding insert_refund
insert_refund-tickets r s = ground arith

-- What `reclaim` does once the tickets are void.
abbrev restored : ℕ → Plan → ℕ → Action ℕ
restored now p refund_id = do
  restore p.tickets
  let seat_ids = seat_ids_of p.tickets
  write_if (ltb 0 (length seat_ids)) (seats_released p.event_id seat_ids)
  if is_free p
      then settle_in_tx p.order_id 0
      else write_in_tx (order_updated p.order_id p.order_status)
  return refund_id

restored-tickets :
    (now : ℕ) (p : Plan) (refund_id : ℕ) → Keeps tickets_of (restored now p refund_id)
restored-tickets now p refund_id s =
    continue-Keeps tickets_of _ (restore p.tickets s) _ (restore-tickets p.tickets s) λ _ s₁.
      continue-Keeps tickets_of _
        (write_if (ltb 0 (length (seat_ids_of p.tickets)))
          (seats_released p.event_id (seat_ids_of p.tickets)) s₁)
        _ (write_if-tickets _ _ s₁)
        λ _ s₂.
          continue-Keeps tickets_of {A = Unit {0}} {B = ℕ} s₂.tickets
            ((if is_free p
                then settle_in_tx p.order_id 0
                else write_in_tx (order_updated p.order_id p.order_status))
              s₂)
            (λ _. return refund_id)
            (if-Keeps tickets_of {A = Unit {0}} (is_free p) (settle_in_tx p.order_id 0)
              (write_in_tx (order_updated p.order_id p.order_status))
              (settle_in_tx-tickets p.order_id 0) (write_in_tx-tickets _) s₂)
            (λ _ s₃. refl)

-- A list of ids that names tickets of another list only.
abbrev pub IsAmong : List ℕ → List ℕ → Type 0
IsAmong all = All (λ i. any (λ j. j == i) all ≡ true)

named_among :
    (all some_of : List ℕ) (k : ℕ)
    → IsAmong all some_of
    → any (λ i. i == k) some_of ≡ true
    → any (λ i. i == k) all ≡ true
unfolding any
named_among all [] k among h = absurd (ground (arith, h))
named_among all (i ∷ some_of) k among h = elim (Bool-cases (i == k)) [
  | inl same ↦ subst (λ j. any (λ i. i == j) all ≡ true) ((==_iff i k).0 same) among.0
  | inr other ↦ named_among all some_of k among.1 (ground (arith, other, h))
]

-- What voided the tickets of a list voided those of any part of it.
IsVoided-among :
    (all some_of : List ℕ) (order_id : ℕ) (ts : List Ticket)
    → IsAmong all some_of
    → IsVoided all order_id ts
    → IsVoided some_of order_id ts
unfolding count
IsVoided-among all some_of order_id [] among h = refl
IsVoided-among all some_of order_id (t ∷ ts) among h =
    ground
      (arith, h, named_among all some_of t.id among, IsVoided-among all some_of order_id ts among)

-- With one exception the chain stops.
stops :
    {A B : Type 0} (r : Result A × Store) (f : A → Action B)
    → succeeds r.0 ≡ false
    → succeeds (continue r f).0 ≡ false
stops (ok a, s') f h = ground (arith, h)
stops (err e, s') f h = refl

-- The next action refuses, whatever the first one does.
refused :
    {A B : Type 0} (r : Result A × Store) (f : A → Action B)
    → ((a : A) → succeeds (f a r.1).0 ≡ false)
    → succeeds (continue r f).0 ≡ false
refused (ok a, s') f h = h a
refused (err e, s') f h = refl

void_tickets-refuses :
    (p : Plan) (refund_id : ℕ) (s : Store)
    → 0 < length p.ticket_ids
    → IsVoided p.ticket_ids p.order_id s.tickets
    → succeeds (void_tickets p refund_id s).0 ≡ false
unfolding void_tickets
void_tickets-refuses p refund_id s some_ticket voided =
    rw (voided, differs (length p.ticket_ids) some_ticket) refl
  where
    differs : (n : ℕ) → 0 < n → (0 == n) ≡ false
    differs n h = ground (arith, h)

reclaim-refuses :
    (now : ℕ) (p : Plan) (s : Store)
    → 0 < length p.ticket_ids
    → IsVoided p.ticket_ids p.order_id s.tickets
    → succeeds (reclaim now p s).0 ≡ false
unfolding reclaim
reclaim-refuses now p s some_ticket voided =
    refused (insert_refund (new_refund now p) s) _ λ refund_id.
      stops (void_tickets p refund_id (insert_refund (new_refund now p) s).1) _ (
        void_tickets-refuses p refund_id (insert_refund (new_refund now p) s).1 some_ticket
          (rw (insert_refund-tickets (new_refund now p) s) voided))

reclaim-Ends :
    (now later : ℕ) (p q : Plan) (s : Store)
    → q.order_id ≡ p.order_id
    → IsAmong p.ticket_ids q.ticket_ids
    → 0 < length q.ticket_ids
    → Ends (reclaim now p s) (λ _ s'. succeeds (reclaim later q s').0 ≡ false)
unfolding reclaim
reclaim-Ends now later p q s same among some_ticket =
    continue-Ends (λ _ _. Unit {0}) (insert_refund (new_refund now p) s) _ _ (anything _)
      λ refund_id s₁ _.
        continue-Ends (λ _ s₂. IsVoided p.ticket_ids p.order_id s₂.tickets)
          (void_tickets p refund_id s₁) _ _ (void_tickets-IsVoided p refund_id s₁)
          λ _ s₂ voided.
            Ends-mono _ _ (restored now p refund_id s₂)
              (λ _ s₃ left. reclaim-refuses later q s₃ some_ticket (
                rw same
                  (IsVoided-among p.ticket_ids q.ticket_ids p.order_id s₃.tickets among left)))
              (Keeps-Ends tickets_of (IsVoided p.ticket_ids p.order_id) s₂
                (restored now p refund_id s₂) (restored-tickets now p refund_id s₂) voided)

-- In the store that the transaction of a refund left when it committed, the transaction of a
-- refund of the same order throws for any one or more of the same tickets, whatever its user, key
-- and amount, and whatever it read of the order and the tickets before.
pub reclaim-once :
    (now later : ℕ) (p q : Plan) (s s' : Store) (refund_id : ℕ)
    → q.order_id ≡ p.order_id
    → IsAmong p.ticket_ids q.ticket_ids
    → 0 < length q.ticket_ids
    → reclaim now p s ≡ (ok refund_id, s')
    → succeeds (reclaim later q s').0 ≡ false
reclaim-once now later p q s s' refund_id same among some_ticket reclaimed =
    Ends-at _ reclaimed (reclaim-Ends now later p q s same among some_ticket)
