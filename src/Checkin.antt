-- ===== src/Checkin.antt =====
-- apps/api/src/checkin/checkin.service.ts: scanning a ticket at the door, and the attendee list.
pub mod Once
pub mod Counted
pub mod Csv
use openseat.Base.{
  ℕ, Bool, true, false, not, ◌&&◌, ◌||◌, Option, some, ◌==◌, if◌then◌else◌, find, update, any,
}
use openseat.Store.{Store, Text, Ticket, TicketStatus}
use openseat.Store.Action.{
  Action, bad_request, not_found, record_not_found, ◌>>=◌, ◌>>◌, return, read, require,
  require_some,
}
use openseat.Access.{staff, require_event_role}
use openseat.Holds.{is_void}
use openseat.Refunds.Create.{is_issued}
use openseat.SeatMaps.Label.{ticket_seat, type_name}

pub data Outcome : Type 0 where
  checked_in already_checked_in : Outcome

pub record CheckinResult : Type 0 where
  pub outcome : Outcome
  pub ticket_id : ℕ
  pub attendee_name : Text
  pub ticket_type : Text
  pub seat : Option Text
  pub status : TicketStatus
  pub checked_in_at : Option ℕ

abbrev pub can_check_in : ℕ → Ticket → Bool
can_check_in ticket_id t = t.id == ticket_id && is_issued t.status

abbrev pub mark_checked_in : ℕ → Ticket → Ticket
mark_checked_in now t = record t { status = TicketStatus.checked_in; checked_in_at = some now }

-- `ticket.updateMany({ where: { id, status: 'issued' } })`: whether it hit a row.
unfoldable pub claim_ticket : ℕ → ℕ → Action Bool
claim_ticket now ticket_id s =
    if any (can_check_in ticket_id) s.tickets
    then return true
        (record s { tickets = update (can_check_in ticket_id) (mark_checked_in now) s.tickets })
    else return false s

unfoldable pub scanned : ℕ → ℕ → Action Ticket
scanned event_id qr_token = do
  found ← read (λ s. find (λ t. t.qr_token == qr_token) s.tickets)
  ticket ← require_some found (not_found "Ticket not found for this event")
  require (ticket.event_id == event_id) (not_found "Ticket not found for this event")
  require (not (is_void ticket.status)) (bad_request "Ticket is void")
  return ticket

unfoldable pub result_of : Bool → Ticket → Store → CheckinResult
unfolding ticket_seat type_name
result_of updated fresh s = record {
  outcome = if updated then Outcome.checked_in else already_checked_in;
  ticket_id = fresh.id;
  attendee_name = fresh.attendee_name;
  ticket_type = type_name s fresh;
  seat = ticket_seat s fresh;
  status = fresh.status;
  checked_in_at = fresh.checked_in_at;
}

-- The part of `checkIn` after the ticket is found: its claim, and the answer.
unfoldable pub admit : ℕ → ℕ → Action CheckinResult
unfolding result_of
admit now ticket_id = do
  updated ← claim_ticket now ticket_id
  found ← read (λ s. find (λ t. t.id == ticket_id) s.tickets)
  fresh ← require_some found record_not_found
  require (updated || not (is_void fresh.status)) (bad_request "Ticket is void")
  read (result_of updated fresh)

unfoldable pub check_in : ℕ → ℕ → ℕ → ℕ → Action CheckinResult
check_in now event_id acting_user_id qr_token = do
  allowed ← require_event_role event_id acting_user_id staff
  ticket ← scanned event_id qr_token
  admit now ticket.id
