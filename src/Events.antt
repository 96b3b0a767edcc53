-- ===== src/Events.antt =====
-- apps/api/src/events/events.service.ts: drafts of events, their publication and the capacity of
-- their ticket types.
pub mod Slug
pub mod Visible
pub mod Capacity
pub mod Added
pub mod Stale
pub mod Edit
use mathlib.Core.List.{reverse}
use openseat.Base.{
  ℕ, suc, ◌+◌, ◌-◌, Bool, true, false, not, ◌&&◌, ◌||◌, Option, none, some, List, [], ◌∷◌, ◌++◌,
  map, if◌then◌else◌, ◌==◌, ltb, leb, is_just, is_some, find, select, count, update, any, text_eq,
  trim,
}
use openseat.Store.{
  Store, Text, Event, EventStatus, draft, published, TicketType, TicketTypeKind, ga, seated,
}
use openseat.Store.Action.{
  Action, bad_request, not_found, conflict, unique_violation, record_not_found, ◌>>=◌, ◌>>◌, return,
  throw, read, write, require, require_some, fresh_id, for_each, transaction,
}
use openseat.Access.{RoleName, manager, require_event_role, membership_role, find_event}
use openseat.Inventory.{is_ga}

-- `CreateTicketTypeDto`
pub record TicketTypeInput : Type 0 where
  pub name : Text
  pub quantity : ℕ
  pub price_satang : ℕ
  pub max_per_order : Option ℕ

-- `CreateEventDto`
pub record CreateEvent : Type 0 where
  pub title : Text
  pub description : Option Text
  pub venue_name : Text
  pub starts_at : ℕ
  pub ends_at : Option ℕ
  pub ticket_types : List TicketTypeInput

-- `UpdateEventDto`: a field that is absent is `undefined`, and its column stays.
pub record UpdateEvent : Type 0 where
  pub title : Option Text
  pub description : Option Text
  pub venue_name : Option Text
  pub starts_at : Option ℕ
  pub ends_at : Option ℕ

-- `UpdateTicketTypeDto`
pub record UpdateTicketType : Type 0 where
  pub name : Option Text
  pub quantity : Option ℕ
  pub max_per_order : Option ℕ

-- An event as `PUBLIC_EVENT_INCLUDE` selects it, without the organizer's name.
pub record EventDetail : Type 0 where
  pub event : Event
  pub ticket_types : List TicketType
  pub seat_map : Option ℕ

-- `value ?? fallback`
abbrev pub or_else {ℓ} : {A : Type ℓ} → Option A → A → A
or_else none a = a
or_else (some b) a = b

-- Rows are kept newest first.
unfoldable pub types_of : ℕ → Store → List TicketType
types_of event_id s = reverse (select (λ t. t.event_id == event_id) s.ticket_types)

unfoldable pub seat_map_of : ℕ → Store → Option ℕ
seat_map_of event_id s = elim (find (λ m. m.event_id == event_id) s.seat_maps) [
  | none ↦ none
  | some m ↦ some m.id
]

unfoldable pub detail : Store → Event → EventDetail
unfolding types_of seat_map_of
detail s e = record { event = e; ticket_types = types_of e.id s; seat_map = seat_map_of e.id s }

abbrev pub ga_type : ℕ → ℕ → TicketTypeInput → TicketType
ga_type id event_id i = record {
  id = id;
  event_id = event_id;
  kind = ga;
  name = trim i.name;
  price_satang = i.price_satang;
  quantity = i.quantity;
  remaining = i.quantity;
  max_per_order = or_else i.max_per_order 10;
}

-- `ticketType.create`; the kind is the column's default.
unfoldable pub insert_type : ℕ → TicketTypeInput → Action TicketType
insert_type event_id i s = return (ga_type s.next_id event_id i) (record s {
  ticket_types = ga_type s.next_id event_id i ∷ s.ticket_types;
  next_id = suc s.next_id;
})

abbrev pub new_event : ℕ → ℕ → ℕ → Text → CreateEvent → Event
new_event id now organizer_id slug dto = record {
  id = id;
  organizer_id = organizer_id;
  slug = slug;
  title = trim dto.title;
  description = or_else dto.description [];
  venue_name = trim dto.venue_name;
  starts_at = dto.starts_at;
  ends_at = dto.ends_at;
  status = draft;
  drop_mode = false;
  created_at = now;
}

-- `event.create`, under the unique key `slug`
unfoldable pub insert_event : ℕ → ℕ → Text → CreateEvent → Action Event
insert_event now organizer_id slug dto s =
    if any (λ e. text_eq e.slug slug) s.events
    then throw unique_violation s
    else return (new_event s.next_id now organizer_id slug dto) (record s {
      events = new_event s.next_id now organizer_id slug dto ∷ s.events;
      next_id = suc s.next_id;
    })

unfoldable pub insert_types : ℕ → List TicketTypeInput → Action (Unit {0})
unfolding insert_type
insert_types event_id inputs = for_each inputs (λ i. do t ← insert_type event_id i; return tt)

-- `slug` is what `slugify` and the random suffix gave.
unfoldable pub create : ℕ → ℕ → Text → CreateEvent → Action EventDetail
unfolding detail insert_event insert_types
create now organizer_id slug dto = transaction (do
  event ← insert_event now organizer_id slug dto
  insert_types event.id dto.ticket_types
  read (λ s. detail s event))

-- An event of `listMine`, with the number of its tickets.
pub record MyEvent : Type 0 where
  pub detail : EventDetail
  pub tickets_issued : ℕ

unfoldable pub is_mine : ℕ → Store → Event → Bool
is_mine user_id s e =
    e.organizer_id == user_id
    || any (λ m. m.event_id == e.id && is_just m.user_id user_id) s.team_members

unfoldable pub my_event : Store → Event → MyEvent
unfolding detail
my_event s e = record {
  detail = detail s e;
  tickets_issued = count (λ t. t.event_id == e.id) s.tickets;
}

unfoldable pub list_mine : ℕ → Action (List MyEvent)
unfolding is_mine my_event
list_mine user_id = read (λ s. map (my_event s) (select (is_mine user_id s) s.events))

abbrev pub is_published : EventStatus → Bool
is_published draft = false
is_published published = true

abbrev pub is_member : ℕ → Option ℕ → Store → Bool
is_member event_id none s = false
is_member event_id (some viewer) s = is_some (membership_role event_id viewer s)

-- `event.status !== 'published' && event.organizer.id !== viewerId` and not of the team
unfoldable pub is_hidden : Event → Option ℕ → Store → Bool
is_hidden event viewer s =
    not (is_published event.status)
    && not (is_just viewer event.organizer_id)
    && not (is_member event.id viewer s)

unfoldable pub get_by_slug : Text → Option ℕ → Action EventDetail
unfolding detail is_hidden
get_by_slug slug viewer = do
  found ← read (λ s. find (λ e. text_eq e.slug slug) s.events)
  event ← require_some found (not_found "Event not found")
  hidden ← read (is_hidden event viewer)
  require (not hidden) (not_found "Event not found")
  read (λ s. detail s event)

-- `event.update({ where: { id } })`
unfoldable pub update_event : ℕ → (Event → Event) → Action EventDetail
unfolding detail
update_event event_id change = do
  write λ s. record s { events = update (λ e. e.id == event_id) change s.events }
  found ← read (find_event event_id)
  event ← require_some found record_not_found
  read (λ s. detail s event)

abbrev pub trimmed : Option Text → Option Text
trimmed none = none
trimmed (some t) = some (trim t)

abbrev pub keep_or : {A : Type 0} → Option A → Option A → Option A
keep_or none old = old
keep_or (some a) old = some a

abbrev pub edit_event : UpdateEvent → Event → Event
edit_event dto e = record e {
  title = or_else (trimmed dto.title) e.title;
  description = or_else dto.description e.description;
  venue_name = or_else (trimmed dto.venue_name) e.venue_name;
  starts_at = or_else dto.starts_at e.starts_at;
  ends_at = keep_or dto.ends_at e.ends_at;
}

unfoldable pub update_details : ℕ → ℕ → UpdateEvent → Action EventDetail
unfolding update_event
update_details event_id user_id dto = do
  allowed ← require_event_role event_id user_id manager
  update_event event_id (edit_event dto)

abbrev pub as_published : Event → Event
as_published e = record e { status = published }

unfoldable pub publish : ℕ → ℕ → Action EventDetail
unfolding update_event
publish event_id user_id = do
  allowed ← require_event_role event_id user_id manager
  types ← read (λ s. count (λ t. t.event_id == event_id) s.ticket_types)
  require (ltb 0 types) (bad_request "Add at least one ticket type before publishing")
  update_event event_id as_published

unfoldable pub add_ticket_type : ℕ → ℕ → TicketTypeInput → Action TicketType
add_ticket_type event_id user_id i = do
  allowed ← require_event_role event_id user_id manager
  insert_type event_id i

-- A capacity below the tickets that are claimed, or another one for a type with seats.
