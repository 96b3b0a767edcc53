-- ===== src/Dashboard/Cards.antt =====
-- The list of an organizer's events with their sales, and the summary of one event.
use openseat.Base.{
  ℕ, Bool, true, false, not, ◌&&◌, Option, none, some, List, [], ◌∷◌, map, if◌then◌else◌, ◌==◌, ltb,
  is_just, find, select, count, sum_of, ℤ, sub_ℕ,
}
use openseat.Store.{Store, Event, Ticket, TicketStatus, checked_in, Order, TeamMember}
use openseat.Store.Action.{Action, ◌>>=◌, return, read}
use openseat.Access.{RoleName, owner, role_name, require_event_role}
use openseat.Holds.{is_void}
use openseat.Inventory.{counts_of}
use openseat.Orders.{is_paid_status}
use openseat.Events.{is_mine, types_of}

abbrev pub is_checked_in : TicketStatus → Bool
is_checked_in checked_in = true
is_checked_in _ = false

-- `new Map(rows).get(key) ?? 0`
unfoldable pub get_or_zero : ℕ → List (ℕ × ℕ) → ℕ
get_or_zero k [] = 0
get_or_zero k ((j, n) ∷ m) = if j == k then n else get_or_zero k m

-- `ticket.groupBy({ by: ['eventId'], _count })` over the tickets that satisfy a test
unfoldable pub tickets_by_event : (Ticket → Bool) → List Ticket → List (ℕ × ℕ)
unfolding counts_of
tickets_by_event p tickets = counts_of [] (map (λ t. t.event_id) (select p tickets))

abbrev pub is_sold : Ticket → Bool
is_sold t = not (is_void t.status)

abbrev pub is_admitted : Ticket → Bool
is_admitted t = is_checked_in t.status

abbrev pub is_paid_in : ℕ → Order → Bool
is_paid_in event_id o = o.event_id == event_id && is_paid_status o.status

-- `_sum.totalSatang - _sum.refundedSatang` of the paid orders
unfoldable pub gross_of : ℕ → List Order → ℤ
gross_of event_id orders =
    sub_ℕ (sum_of (λ o. o.total_satang) (select (is_paid_in event_id) orders))
      (sum_of (λ o. o.refunded_satang) (select (is_paid_in event_id) orders))

pub record EventCard : Type 0 where
  pub event : Event
  pub is_seated : Bool
  pub capacity : ℕ
  pub tickets_sold : ℕ
  pub tickets_checked_in : ℕ
  pub gross_satang : Option ℤ
  pub my_role : RoleName

unfoldable pub member_role : ℕ → ℕ → List TeamMember → RoleName
member_role event_id user_id members =
    elim (find (λ m. m.event_id == event_id && is_just m.user_id user_id) members) [
      | none ↦ RoleName.staff
      | some m ↦ role_name m.role
    ]

unfoldable pub card_role : ℕ → Store → Event → RoleName
unfolding member_role
card_role user_id s e =
    if e.organizer_id == user_id then owner else member_role e.id user_id s.team_members

abbrev pub hidden_from_staff : RoleName → ℤ → Option ℤ
hidden_from_staff RoleName.staff gross = none
hidden_from_staff _ gross = some gross

unfoldable pub card : ℕ → Store → Event → EventCard
unfolding get_or_zero tickets_by_event gross_of card_role types_of
card user_id s e = record {
  event = e;
  is_seated = ltb 0 (count (λ x. x.event_id == e.id) s.seats);
  capacity = sum_of (λ t. t.quantity) (types_of e.id s);
  tickets_sold = get_or_zero e.id (tickets_by_event is_sold s.tickets);
  tickets_checked_in = get_or_zero e.id (tickets_by_event is_admitted s.tickets);
  gross_satang = hidden_from_staff (card_role user_id s e) (gross_of e.id s.orders);
  my_role = card_role user_id s e;
}

unfoldable pub organizer_events : ℕ → Action (List EventCard)
unfolding card
organizer_events user_id = read (λ s. map (card user_id s) (select (is_mine user_id s) s.events))

pub record EventSummary : Type 0 where
  pub event : Event
  pub tickets_sold : ℕ
  pub tickets_checked_in : ℕ
  pub my_role : RoleName

unfoldable pub event_summary : ℕ → ℕ → Action EventSummary
event_summary event_id user_id = do
  (event, role) ← require_event_role event_id user_id RoleName.staff
  sold ← read (λ s. count (λ t. t.event_id == event_id && is_sold t) s.tickets)
  admitted ← read (λ s. count (λ t. t.event_id == event_id && is_admitted t) s.tickets)
  return
      (record { event = event; tickets_sold = sold; tickets_checked_in = admitted; my_role = role })
