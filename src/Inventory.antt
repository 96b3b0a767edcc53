-- ===== src/Inventory.antt =====
-- Writes on ticket types, tickets and the outbox that the services of apps/api/src share, with the
-- constraints that the database checks on them: `remaining >= 0`, and one ticket that is not void
-- for each seat of an event.
use openseat.Base.{
  ℕ, suc, ◌+◌, ◌-◌, Bool, true, false, not, ◌&&◌, Option, none, some, List, [], ◌∷◌, ◌++◌, map,
  ◌==◌, leb, if◌then◌else◌, find, update, any, replicate,
}
use openseat.Store.{
  Text, TicketType, TicketTypeKind, ga, seated, Seat, Ticket, issued, OrderItem, OutboxPayload,
}
use openseat.Store.Action.{
  Action, conflict, unique_violation, check_violation, record_not_found, return, throw, for_each,
}
use openseat.Holds.{is_live_on}

abbrev pub is_ga : TicketTypeKind → Bool
is_ga ga = true
is_ga seated = false

unfoldable pub find_type : ℕ → List TicketType → Option TicketType
find_type type_id types = find (λ t. t.id == type_id) types

-- `item.ticketType.kind === 'ga'`
unfoldable pub is_ga_type : List TicketType → ℕ → Bool
unfolding find_type
is_ga_type types type_id = elim (find_type type_id types) [ none ↦ false | some t ↦ is_ga t.kind ]

unfoldable pub price_of : List TicketType → ℕ → ℕ
unfolding find_type
price_of types type_id = elim (find_type type_id types) [ none ↦ 0 | some t ↦ t.price_satang ]

abbrev pub take_from : ℕ → TicketType → TicketType
take_from n t = record t { remaining = t.remaining - n }

abbrev pub give_back : ℕ → TicketType → TicketType
give_back n t = record t { remaining = t.remaining + n }

abbrev pub can_take : ℕ → ℕ → TicketType → Bool
can_take type_id n t = t.id == type_id && leb n t.remaining

-- `UPDATE ticket_types SET remaining = remaining - n WHERE id = … AND remaining >= n`
unfoldable pub claim_item : OrderItem → Action (Unit {0})
claim_item item s =
    if any (can_take item.ticket_type_id item.quantity) s.ticket_types
    then return tt (record s {
      ticket_types =
          update (can_take item.ticket_type_id item.quantity) (take_from item.quantity)
            s.ticket_types;
    })
    else throw (conflict "SOLD_OUT") s

-- `ticketType.update({ remaining: { decrement: n } })`, under the check `remaining >= 0`
unfoldable pub decrement : ℕ → ℕ → Action (Unit {0})
decrement type_id n s =
    if any (λ t. t.id == type_id) s.ticket_types
    then if any (λ t. t.id == type_id && not (leb n t.remaining)) s.ticket_types
      then throw check_violation s
      else return tt
          (record s { ticket_types = update (λ t. t.id == type_id) (take_from n) s.ticket_types })
    else throw record_not_found s

-- `ticketType.update({ remaining: { increment: n } })`
unfoldable pub increment : ℕ → ℕ → Action (Unit {0})
increment type_id n s =
    if any (λ t. t.id == type_id) s.ticket_types
    then return tt
        (record s { ticket_types = update (λ t. t.id == type_id) (give_back n) s.ticket_types })
    else throw record_not_found s

-- What the rows of one `ticket.createMany` share.
pub record Issue : Type 0 where
  pub order_id : ℕ
  pub event_id : ℕ
  pub attendee_email : Text
  pub attendee_name : Text

-- The ticket type and seat of one row.
abbrev pub Draft : Type 0
Draft = ℕ × Option ℕ

-- `gaItems.flatMap(item => Array.from({ length: item.quantity }, …))`
unfoldable pub ga_drafts : List OrderItem → List Draft
ga_drafts [] = []
ga_drafts (item ∷ items) = replicate item.quantity (item.ticket_type_id, none) ++ ga_drafts items

unfoldable pub seat_drafts : List Seat → List Draft
seat_drafts = map (λ seat. (seat.ticket_type_id, some seat.id))

-- The partial unique index `tickets_event_seat_unique`.
unfoldable pub seat_taken : ℕ → Option ℕ → List Ticket → Bool
seat_taken event_id none tickets = false
seat_taken event_id (some seat_id) tickets =
    any (λ t. t.event_id == event_id && is_live_on seat_id t) tickets

unfoldable pub issue_ticket : Issue → Draft → Action (Unit {0})
unfolding seat_taken
issue_ticket i (type_id, seat_id) s =
    if seat_taken i.event_id seat_id s.tickets
    then throw unique_violation s
    else return tt (record s {
      tickets =
          record {
            id = s.next_id;
            order_id = i.order_id;
            event_id = i.event_id;
            ticket_type_id = type_id;
            seat_id = seat_id;
            attendee_email = i.attendee_email;
            attendee_name = i.attendee_name;
            qr_token = s.next_id;
            status = issued;
            refund_id = none;
            checked_in_at = none;
          }
          ∷ s.tickets;
      next_id = suc s.next_id;
    })

-- `ticket.createMany`
unfoldable pub issue_tickets : Issue → List Draft → Action (Unit {0})
unfolding issue_ticket
issue_tickets i drafts = for_each drafts (issue_ticket i)

-- `OutboxService.writeInTx`
unfoldable pub write_in_tx : OutboxPayload → Action (Unit {0})
write_in_tx payload s = return tt (record s {
  outbox_events =
      record { id = s.next_id; payload = payload; attempts = 0; processed_at = none }
      ∷ s.outbox_events;
  next_id = suc s.next_id;
})

-- `if (test) await this.outbox.writeInTx(…)`
unfoldable pub write_if : Bool → OutboxPayload → Action (Unit {0})
unfolding write_in_tx
write_if test payload = if test then write_in_tx payload else return tt

-- One round of a loop that counts by ticket type in a `Map`.
unfoldable pub add_count : ℕ → List (ℕ × ℕ) → List (ℕ × ℕ)
add_count k [] = (k, 1) ∷ []
add_count k ((j, n) ∷ m) = if j == k then (j, n + 1) ∷ m else (j, n) ∷ add_count k m

unfoldable pub counts_of : List (ℕ × ℕ) → List ℕ → List (ℕ × ℕ)
unfolding add_count
counts_of m [] = m
counts_of m (k ∷ ks) = counts_of (add_count k m) ks
