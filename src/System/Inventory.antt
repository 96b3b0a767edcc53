-- ===== src/System/Inventory.antt =====
-- The inventory under interleavings of the steps.
use openseat.Base.{
  ℕ, ◌+◌, ◌≡◌, refl, inl, inr, List, [], ◌∷◌, ◌&&◌, leb, is_none, select, delete, Bool-cases, any,
  count, update, All, All-mono, arith,
}
use openseat.Store.{Store, TicketType, Hold, Ticket, RefundStatus}
use openseat.Store.Action.{for_each, ok}
use openseat.Holds.{
  claim_seat, refresh_hold, release, sweep_expired, by_event, seats_changed, released_change,
}
use openseat.Orders.Create.{insert_payment}
use openseat.Refunds.{claim_refund, set_provider_id, insert_refund, compensation}
use openseat.Payments.{record_event, mark_processed, is_event}
use openseat.Checkin.{claim_ticket, can_check_in, mark_checked_in}
use openseat.Books.{zero_offset, Books, in_checkout, issued_of, is_live_of}
use openseat.Books.Frame.{IsSame, IsSame-Books}
use openseat.Books.Place.{place_order-Books}
use openseat.Books.Release.{release_order-Books}
use openseat.Books.Capture.{capture-Books, cancel-Books}
use openseat.Books.Reclaim.{reclaim-Books}
use openseat.Books.Settle.{settle_reference-Books}
use openseat.Events.Capacity.{edit_in_tx-Books}
use openseat.Events.Added.{insert_type-Books, insert_event-IsSame, update_event-IsSame}
use openseat.System.{
  after, Step, claim_hold, refresh, release_hold, sweep, place, open_payment, close_order,
  capture_payment, cancel_payment, refund_tickets, compensate, move_refund, name_refund,
  settle_refund, record_webhook, mark_webhook, admit_ticket, notify, edit_capacity, edit_event,
  new_event, new_type, Reach, here, next,
}

-- Writes of holds, payments, webhook rows and refunds leave the books' tables alone.
claim_seat-IsSame :
    (e x : ℕ) (key : List ℕ) (t now : ℕ) (s : Store) → IsSame s (claim_seat e x key t now s).1
unfolding claim_seat
claim_seat-IsSame e x key t now s = ground arith

refresh_hold-IsSame : (h t : ℕ) (s : Store) → IsSame s (refresh_hold h t s).1
unfolding refresh_hold
refresh_hold-IsSame h t s = ground arith

release-IsSame : (e x : ℕ) (key : List ℕ) (s : Store) → IsSame s (release e x key s).1
unfolding release
release-IsSame e x key s = ground arith

insert_payment-IsSame : (p : openseat.Store.Payment) (s : Store) → IsSame s (insert_payment p s).1
unfolding insert_payment
insert_payment-IsSame p s = ground arith

record_event-IsSame :
    (e : openseat.Payments.PaymockEvent) (s : Store) → IsSame s (record_event e s).1
unfolding record_event
record_event-IsSame e s = ground arith

insert_refund-IsSame : (r : openseat.Store.Refund) (s : Store) → IsSame s (insert_refund r s).1
unfolding insert_refund
insert_refund-IsSame r s = ground arith

set_provider_id-IsSame : (r p : ℕ) (s : Store) → IsSame s (set_provider_id r p s).1
unfolding set_provider_id
set_provider_id-IsSame r p s = ground arith

claim_refund-IsSame :
    (r : ℕ) (from to : RefundStatus) (s : Store)
    → IsSame s (claim_refund r from (λ x. record x { status = to }) s).1
unfolding claim_refund
claim_refund-IsSame r from to s = ground arith

mark_processed-IsSame : (now e : ℕ) (s : Store) → IsSame s (mark_processed now e s).1
unfolding mark_processed
mark_processed-IsSame now e s = ground arith

notify-IsSame :
    (groups : List (ℕ × List ℕ)) (s : Store)
    → IsSame s (for_each groups (λ g. seats_changed g.0 (released_change g.1)) s).1
notify-IsSame [] s = ground arith
notify-IsSame (g ∷ groups) s =
    ground (arith, notify-IsSame groups (after (seats_changed g.0 (released_change g.1)) s))

for_each-ok :
    (groups : List (ℕ × List ℕ)) (s : Store)
    → (for_each groups (λ g. seats_changed g.0 (released_change g.1)) s).0 ≡ ok tt
for_each-ok [] s = refl
for_each-ok (g ∷ groups) s = for_each-ok groups (after (seats_changed g.0 (released_change g.1)) s)

sweep_expired-IsSame : (now : ℕ) (s : Store) → IsSame s (sweep_expired now s).1
unfolding sweep_expired
sweep_expired-IsSame now s =
    let expired = select (λ h. leb h.expires_at now && is_none h.order_id) s.holds in
    let swept = record s {
      holds = delete (λ h. leb h.expires_at now && is_none h.order_id) s.holds;
    } in
    ground
      (arith, notify-IsSame (by_event [] expired) swept, for_each-ok (by_event [] expired) swept)

issued_same :
    (now ticket_id k : ℕ) (ts : List Ticket)
    → count (is_live_of k) (update (can_check_in ticket_id) (mark_checked_in now) ts)
      ≡ count (is_live_of k) ts
unfolding count update
issued_same now ticket_id k [] = refl
issued_same now ticket_id k (t ∷ ts) = ground (arith, issued_same now ticket_id k ts)

claim_ticket-Books :
    (now ticket_id : ℕ) (s : Store)
    → Books zero_offset zero_offset s
    → Books zero_offset zero_offset (claim_ticket now ticket_id s).1
unfolding claim_ticket
claim_ticket-Books now ticket_id s b = elim (Bool-cases (any (can_check_in ticket_id) s.tickets)) [
  | inr closed ↦ rw closed b
  | inl issued ↦ rw issued (record {
    types = b.types;
    orders = b.orders;
    seats = b.seats;
    rows =
        All-mono s.ticket_types (λ t row. rw (issued_same now ticket_id t.id s.tickets) row) b.rows;
  })
]

-- Each step keeps the books balanced.
pub Step-Books :
    {s t : Store} → Step s t → Books zero_offset zero_offset s → Books zero_offset zero_offset t
Step-Books {s} (claim_hold e x key t now) b = IsSame-Books s _ (claim_seat-IsSame e x key t now s) b
Step-Books {s} (refresh h t) b = IsSame-Books s _ (refresh_hold-IsSame h t s) b
Step-Books {s} (release_hold e x key) b = IsSame-Books s _ (release-IsSame e x key s) b
Step-Books {s} (sweep now) b = IsSame-Books s _ (sweep_expired-IsSame now s) b
Step-Books {s} (place now p plan) b = place_order-Books now p s plan b
Step-Books {s} (open_payment p) b = IsSame-Books s _ (insert_payment-IsSame p s) b
Step-Books {s} (close_order o status closed) b = release_order-Books o status s closed b
Step-Books {s} (capture_payment i) b = capture-Books i s b
Step-Books {s} (cancel_payment i) b = cancel-Books i s b
Step-Books {s} (refund_tickets now p plan) b = reclaim-Books now p s plan b
Step-Books {s} (compensate o n) b = IsSame-Books s _ (insert_refund-IsSame (compensation o n) s) b
Step-Books {s} (move_refund r from to) b = IsSame-Books s _ (claim_refund-IsSame r from to s) b
Step-Books {s} (name_refund r p) b = IsSame-Books s _ (set_provider_id-IsSame r p s) b
Step-Books {s} (settle_refund now p r) b = settle_reference-Books now p r s b
Step-Books {s} (record_webhook e) b = IsSame-Books s _ (record_event-IsSame e s) b
Step-Books {s} (mark_webhook now e) b = IsSame-Books s _ (mark_processed-IsSame now e s) b
Step-Books {s} (admit_ticket now x) b = claim_ticket-Books now x s b
Step-Books {s} (edit_capacity e k dto) b = edit_in_tx-Books e k dto s b
Step-Books {s} (edit_event e f) b = IsSame-Books s _ (update_event-IsSame e f s) b
Step-Books {s} (new_event now u slug dto) b =
    IsSame-Books s _ (insert_event-IsSame now u slug dto s) b
Step-Books {s} (new_type e i fresh) b = insert_type-Books e i s fresh b
Step-Books {s} (notify e change) b = IsSame-Books s _ (ground arith) b

pub Reach-Books :
    {s t : Store} → Reach s t → Books zero_offset zero_offset s → Books zero_offset zero_offset t
Reach-Books here b = b
Reach-Books (next r st) b = Step-Books st (Reach-Books r b)

-- For every store that the steps of System.Step reach from a balanced one, in any order, for every
-- ticket type: remaining + claimed by unpaid orders (general admission only) + tickets that are
-- not void = quantity. The steps are the transactions and single writes of holds, orders,
-- payments, refunds, the webhook, the door, the edits of events and ticket types, and the creation
-- of an event's row and of a ticket type under an id that nothing refers to. A step that places an
-- order or refunds tickets takes a plan that fits the store in which it runs. The creation of seat
-- maps, the team, accounts and the outbox have no steps.
pub inventory_conserved :
    {s t : Store}
    → Books zero_offset zero_offset s
    → Reach s t
    → All (λ x. x.remaining + in_checkout t x + issued_of t x ≡ x.quantity) t.ticket_types
inventory_conserved {t} b r = All-mono t.ticket_types (λ x row. omega arith) (Reach-Books r b).rows
