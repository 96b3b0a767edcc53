-- ===== src/Events/Edit.antt =====
-- updateTicketType of apps/api/src/events/events.service.ts: a change of a ticket type and its capacity.
use openseat.Base.{
  ℕ, ◌+◌, ◌-◌, Bool, not, ◌&&◌, Option, none, some, if◌then◌else◌, ◌==◌, leb, find, update, any,
}
use openseat.Store.{TicketType}
use openseat.Store.Action.{
  Action, bad_request, not_found, conflict, record_not_found, ◌>>=◌, ◌>>◌, return, throw, read,
  write, require, require_some, transaction,
}
use openseat.Access.{manager, require_event_role}
use openseat.Inventory.{is_ga}
use openseat.Events.{UpdateTicketType, trimmed, or_else}

unfoldable pub check_quantity : TicketType → Option ℕ → Action (Unit {0})
check_quantity t none = return tt
check_quantity t (some quantity) =
    if is_ga t.kind
    then require (leb (t.quantity - t.remaining) quantity)
        (bad_request "Quantity cannot go below the tickets already claimed")
    else require (quantity == t.quantity)
        (bad_request "Seated capacity is set by the seat map — edit the map to change it")

-- `remaining + delta >= 0`, where the delta is `new - old` and may be negative
abbrev pub can_shift : ℕ → ℕ → ℕ → TicketType → Bool
can_shift type_id old new t = t.id == type_id && leb old (t.remaining + new)

abbrev pub shift : ℕ → ℕ → TicketType → TicketType
shift old new t = record t { remaining = t.remaining + new - old }

-- `UPDATE ticket_types SET remaining = remaining + delta WHERE id = … AND remaining + delta >= 0`
unfoldable pub shift_remaining : ℕ → ℕ → ℕ → Action (Unit {0})
shift_remaining type_id old new s =
    if any (can_shift type_id old new) s.ticket_types
    then return tt (record s {
      ticket_types = update (can_shift type_id old new) (shift old new) s.ticket_types;
    })
    else throw (conflict "Tickets sold while the quantity was changing — reload and try again") s

-- The delta is not 0.
unfoldable pub move_remaining : TicketType → Option ℕ → Action (Unit {0})
unfolding shift_remaining
move_remaining t none = return tt
move_remaining t (some quantity) =
    if is_ga t.kind && not (quantity == t.quantity)
    then shift_remaining t.id t.quantity quantity
    else return tt

abbrev pub edit_type : UpdateTicketType → TicketType → TicketType
edit_type dto t = record t {
  name = or_else (trimmed dto.name) t.name;
  max_per_order = or_else dto.max_per_order t.max_per_order;
  quantity = or_else dto.quantity t.quantity;
}

unfoldable pub write_type : ℕ → UpdateTicketType → Action TicketType
write_type type_id dto = do
  write
      λ s. record s { ticket_types = update (λ t. t.id == type_id) (edit_type dto) s.ticket_types }
  found ← read (λ s. find (λ t. t.id == type_id) s.ticket_types)
  require_some found record_not_found

-- The writes of the transaction, for the row that it read.
unfoldable pub apply_edit : TicketType → UpdateTicketType → Action TicketType
unfolding check_quantity move_remaining
apply_edit t dto = do
  check_quantity t dto.quantity
  move_remaining t dto.quantity
  write_type t.id dto

unfoldable pub edit_in_tx : ℕ → ℕ → UpdateTicketType → Action TicketType
unfolding apply_edit
edit_in_tx event_id type_id dto = do
  found ← read (λ s. find (λ t. t.id == type_id && t.event_id == event_id) s.ticket_types)
  t ← require_some found (not_found "Ticket type not found")
  apply_edit t dto

unfoldable pub update_ticket_type : ℕ → ℕ → ℕ → UpdateTicketType → Action TicketType
unfolding edit_in_tx
update_ticket_type event_id type_id user_id dto = do
  allowed ← require_event_role event_id user_id manager
  transaction (edit_in_tx event_id type_id dto)
