-- ===== src/SeatMaps/Label.antt =====
-- The text of a ticket's seat and type, as lists of attendees show them:
-- apps/api/src/checkin/checkin.service.ts and apps/api/src/dashboard/dashboard.service.ts.
use openseat.Base.{Option, none, some, [], ◌∷◌, ◌++◌, ◌==◌, find, decimal}
use openseat.Store.{Store, Text, Seat, Ticket}
use openseat.Inventory.{find_type}

unfoldable pub seat_label : Seat → Text
unfolding decimal
seat_label x = x.section ++ (b' ' ∷ x.row_label ∷ decimal x.number)

unfoldable pub seat_of : Ticket → Store → Option Seat
seat_of t s = elim t.seat_id [ none ↦ none | some seat_id ↦ find (λ x. x.id == seat_id) s.seats ]

-- `ticket.seat ? … : null`
unfoldable pub ticket_seat : Store → Ticket → Option Text
unfolding seat_of seat_label
ticket_seat s t = elim (seat_of t s) [ none ↦ none | some x ↦ some (seat_label x) ]

unfoldable pub type_name : Store → Ticket → Text
unfolding find_type
type_name s t = elim (find_type t.ticket_type_id s.ticket_types) [ none ↦ [] | some x ↦ x.name ]
