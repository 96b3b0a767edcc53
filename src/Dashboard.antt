-- ===== src/Dashboard.antt =====
-- apps/api/src/dashboard/dashboard.service.ts: what organizers see of their events.
pub mod Cards
pub mod Timeline
pub mod Sections
pub mod Tiers
pub mod Agreement
pub mod Rows
use mathlib.Core.List.{reverse}
use openseat.Base.{
  ℕ, ◌+◌, ◌-◌, ◌*◌, ◌/◌, Bool, true, false, not, ◌&&◌, ◌||◌, Option, none, some, List, [], ◌∷◌, map,
  if◌then◌else◌, ◌==◌, ltb, is_none, is_just, find, select, count, any, sum_of, text_eq, ℤ, sub_ℕ,
  pos,
}
use openseat.Store.{
  Store, Text, Event, TicketType, TicketTypeKind, Ticket, TicketStatus, issued, checked_in, void,
  Order, OrderStatus, Seat, Hold, TeamMember,
}
use openseat.Store.Action.{Action, Error, bad_request, ◌>>=◌, return, read}
use openseat.Access.{RoleName, staff, manager, owner, role_name, require_event_role}
use openseat.Holds.{is_void}
use openseat.Inventory.{counts_of}
use openseat.Orders.{is_paid_status, is_awaiting}
use openseat.Events.{is_mine, types_of}
use openseat.Dashboard.Timeline.{
  TimelineBucket, OrderStamp, start_of_day, day_ms, max_timeline_days, build_timeline,
}
use openseat.Dashboard.Cards.{
  is_checked_in, get_or_zero, tickets_by_event, is_sold, is_admitted, is_paid_in, gross_of,
  EventCard, member_role, card_role, hidden_from_staff, card, organizer_events, EventSummary,
  event_summary,
}

pub record TierStat : Type 0 where
  pub tier : TicketType
  pub issued : ℕ
  pub claimed : ℤ
  pub gross_satang : ℕ

-- `issuedByTier.get(tier.id) ?? 0`, over the tickets of the event that are not void
unfoldable pub issued_by_tier : ℕ → List Ticket → List (ℕ × ℕ)
unfolding counts_of
issued_by_tier event_id tickets =
    counts_of []
      (map (λ t. t.ticket_type_id) (select (λ t. t.event_id == event_id && is_sold t) tickets))

unfoldable pub tier_stat : ℕ → Store → TicketType → TierStat
unfolding issued_by_tier get_or_zero
tier_stat event_id s t =
    let issued = get_or_zero t.id (issued_by_tier event_id s.tickets) in
    record {
      tier = t;
      issued = issued;
      claimed = sub_ℕ t.quantity t.remaining;
      gross_satang = issued * t.price_satang;
    }

pub record SectionOccupancy : Type 0 where
  pub name : Text
  pub capacity : ℕ
  pub sold : ℕ
  pub held : ℕ
  pub available : ℤ

-- An entry of `sectionMap`
pub record Entry : Type 0 where
  pub name : Text
  pub capacity : ℕ
  pub sold : ℕ
  pub held : ℕ

abbrev pub add_seat : Bool → Bool → Entry → Entry
add_seat is_sold is_held e = record e {
  capacity = e.capacity + 1;
  sold = e.sold + (if is_sold then 1 else 0);
  held = e.held + (if is_sold then 0 else if is_held then 1 else 0);
}

abbrev pub empty_entry : Text → Entry
empty_entry name = record { name = name; capacity = 0; sold = 0; held = 0 }

-- `sectionMap.set(seat.section, …)`
unfoldable pub add_to_section : Text → Bool → Bool → List Entry → List Entry
add_to_section name is_sold is_held [] = add_seat is_sold is_held (empty_entry name) ∷ []
add_to_section name is_sold is_held (e ∷ es) =
    if text_eq e.name name
    then add_seat is_sold is_held e ∷ es
    else e ∷ add_to_section name is_sold is_held es

-- `soldSet.has(seat.id)`
abbrev pub seat_is_sold : ℕ → Store → ℕ → Bool
seat_is_sold event_id s seat_id =
    any (λ t. t.event_id == event_id && (is_just t.seat_id seat_id && is_sold t)) s.tickets

-- `heldSet.has(seat.id)`: a hold in time on a seat that is not sold
abbrev pub seat_is_held : ℕ → ℕ → Store → ℕ → Bool
seat_is_held event_id now s seat_id =
    any (λ h. h.event_id == event_id && (ltb now h.expires_at && h.seat_id == seat_id)) s.holds
    && not (seat_is_sold event_id s seat_id)

unfoldable pub section_map : (ℕ → Bool) → (ℕ → Bool) → List Entry → List Seat → List Entry
unfolding add_to_section
section_map is_sold is_held es [] = es
section_map is_sold is_held es (x ∷ seats) =
    section_map is_sold is_held (add_to_section x.section (is_sold x.id) (is_held x.id) es) seats

abbrev pub to_occupancy : Entry → SectionOccupancy
to_occupancy e = record {
  name = e.name;
  capacity = e.capacity;
  sold = e.sold;
  held = e.held;
  available = sub_ℕ e.capacity (e.sold + e.held);
}

unfoldable pub sections_of : ℕ → ℕ → Store → List SectionOccupancy
unfolding section_map
sections_of event_id now s = map to_occupancy (
    section_map (seat_is_sold event_id s) (seat_is_held event_id now s) []
      (select (λ x. x.event_id == event_id) s.seats))

-- `Math.round((sold / capacity) * 10000)`, on the exact quotient
unfoldable pub sell_through_bp : ℕ → ℕ → ℕ
sell_through_bp sold capacity =
    if ltb 0 capacity then (2 * (sold * 10000) + capacity) / (2 * capacity) else 0

pub record DashboardTotals : Type 0 where
  pub gross_satang : ℤ
  pub paid_orders : ℕ
  pub pending_orders : ℕ
  pub tickets_sold : ℕ
  pub tickets_checked_in : ℕ
  pub live_holds : ℕ
  pub capacity : ℕ
  pub sell_through_bp : ℕ

unfoldable pub totals_of : ℕ → ℕ → Store → DashboardTotals
unfolding gross_of types_of
totals_of event_id now s =
    let sold = count (λ t. t.event_id == event_id && is_sold t) s.tickets in
    let capacity = sum_of (λ t. t.quantity) (types_of event_id s) in
    record {
      gross_satang = gross_of event_id s.orders;
      paid_orders = count (is_paid_in event_id) s.orders;
      pending_orders = count (λ o. o.event_id == event_id && is_awaiting o.status) s.orders;
      tickets_sold = sold;
      tickets_checked_in = count (λ t. t.event_id == event_id && is_admitted t) s.tickets;
      live_holds = count (λ h. h.event_id == event_id && ltb now h.expires_at) s.holds;
      capacity = capacity;
      sell_through_bp = sell_through_bp sold capacity;
    }

-- The `created_at` columns of orders and tickets, by id.
pub record CreatedAt : Type 0 where
  pub order : ℕ → ℕ
  pub ticket : ℕ → ℕ

pub record EventDashboard : Type 0 where
  pub event : Event
  pub is_seated : Bool
  pub totals : DashboardTotals
  pub timeline : Option (List TimelineBucket)
  pub tiers : List TierStat
  pub sections : List SectionOccupancy
  pub my_role : RoleName

-- `createdAt: { gte: timelineStart }`
abbrev pub is_recent : ℕ → ℕ → Bool
is_recent now time = not (ltb (time + max_timeline_days * day_ms) (start_of_day now))

unfoldable pub paid_stamps : CreatedAt → ℕ → ℕ → Store → List OrderStamp
paid_stamps c event_id now s =
    map (λ o. record { created_at = c.order o.id; total_satang = o.total_satang })
      (select (λ o. is_paid_in event_id o && is_recent now (c.order o.id)) s.orders)

unfoldable pub ticket_stamps : CreatedAt → ℕ → ℕ → Store → List ℕ
ticket_stamps c event_id now s =
    map (λ t. c.ticket t.id)
      (select (λ t. (t.event_id == event_id && is_sold t) && is_recent now (c.ticket t.id))
        s.tickets)

unfoldable pub event_dashboard : CreatedAt → ℕ → ℕ → ℕ → Action EventDashboard
unfolding totals_of build_timeline paid_stamps ticket_stamps tier_stat sections_of types_of
event_dashboard c now event_id user_id = do
  (event, role) ← require_event_role event_id user_id manager
  read (λ s. record {
    event = event;
    is_seated = ltb 0 (count (λ x. x.event_id == event_id) s.seats);
    totals = totals_of event_id now s;
    timeline =
        build_timeline 47 event.created_at now (paid_stamps c event_id now s)
          (ticket_stamps c event_id now s);
    tiers = map (tier_stat event_id s) (types_of event_id s);
    sections = sections_of event_id now s;
    my_role = role;
  })
