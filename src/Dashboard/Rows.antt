-- ===== src/Dashboard/Rows.antt =====
-- The lists of attendees and of orders of the dashboard.
use mathlib.Core.List.{reverse}
use openseat.Base.{
  take, ℕ, Option, List, [], ◌∷◌, ◌++◌, map, if◌then◌else◌, ◌==◌, ◌&&◌, not, min, max, select,
}
use openseat.Store.{Store, Text, Ticket, TicketStatus, Order, OrderItem, Refund}
use openseat.Store.Action.{Action, ◌>>=◌, read}
use openseat.Access.{RoleName, manager, require_event_role}
use openseat.Holds.{is_void}
use openseat.SeatMaps.Label.{ticket_seat, type_name}
use openseat.Dashboard.Cards.{is_paid_in, is_checked_in}

-- `Math.min(Math.max(limit, 1), most)`
abbrev pub clamp : ℕ → ℕ → ℕ
clamp most limit = min (max limit 1) most

pub record Attendee : Type 0 where
  pub ticket_id : ℕ
  pub name : Text
  pub email : Text
  pub ticket_type : Text
  pub seat : Option Text
  pub status : TicketStatus
  pub checked_in_at : Option ℕ

unfoldable pub to_attendee : Store → Ticket → Attendee
unfolding ticket_seat type_name
to_attendee s t = record {
  ticket_id = t.id;
  name = t.attendee_name;
  email = t.attendee_email;
  ticket_type = type_name s t;
  seat = ticket_seat s t;
  status = t.status;
  checked_in_at = t.checked_in_at;
}

-- `orderBy: [{ status: 'asc' }, { createdAt: 'asc' }]` where no ticket is void: those that are not
-- checked in come first, each part from the oldest on.
unfoldable pub by_status : List Ticket → List Ticket
by_status ts =
    select (λ t. not (is_checked_in t.status)) ts ++ select (λ t. is_checked_in t.status) ts

unfoldable pub event_attendees : ℕ → ℕ → ℕ → Action (List Attendee)
unfolding take by_status to_attendee
event_attendees event_id user_id limit = do
  allowed ← require_event_role event_id user_id RoleName.staff
  read (λ s. map (to_attendee s) (
      take (clamp 2000 limit) (
        by_status
          (reverse (select (λ t. t.event_id == event_id && not (is_void t.status)) s.tickets)))))

pub record TicketRow : Type 0 where
  pub id : ℕ
  pub ticket_type : Text
  pub seat : Option Text
  pub status : TicketStatus
  pub price_satang : ℕ

pub record OrderRow : Type 0 where
  pub order : Order
  pub tickets : List TicketRow
  pub refunds : List Refund

-- `new Map(order.items.map(…)).get(ticketTypeId) ?? 0`: of two items of one type the last counts.
unfoldable pub price_by_type : List OrderItem → ℕ → ℕ → ℕ
price_by_type [] type_id found = found
price_by_type (i ∷ items) type_id found =
    price_by_type items type_id (if i.ticket_type_id == type_id then i.unit_price_satang else found)

unfoldable pub to_ticket_row : Store → Order → Ticket → TicketRow
unfolding ticket_seat type_name price_by_type
to_ticket_row s o t = record {
  id = t.id;
  ticket_type = type_name s t;
  seat = ticket_seat s t;
  status = t.status;
  price_satang = price_by_type o.items t.ticket_type_id 0;
}

unfoldable pub to_order_row : Store → Order → OrderRow
unfolding to_ticket_row
to_order_row s o = record {
  order = o;
  tickets = map (to_ticket_row s o) (reverse (select (λ t. t.order_id == o.id) s.tickets));
  refunds = reverse (select (λ r. r.order_id == o.id) s.refunds);
}

unfoldable pub event_orders : ℕ → ℕ → ℕ → Action (List OrderRow)
unfolding take to_order_row
event_orders event_id user_id limit = do
  allowed ← require_event_role event_id user_id manager
  read (λ s. map (to_order_row s) (take (clamp 500 limit) (select (is_paid_in event_id) s.orders)))
