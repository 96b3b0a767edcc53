-- ===== src/SeatMaps.antt =====
-- `getForEvent` of apps/api/src/seatmaps/seatmaps.service.ts: the status of each seat of an event, as a
-- buyer sees it.
pub mod Status
pub mod Create
pub mod Grid
pub mod Blocks
pub mod Capacity
pub mod Label
use openseat.Base.{
  ℕ, Bool, true, false, not, ◌&&◌, ◌||◌, Option, none, some, List, [], ◌∷◌, map, if◌then◌else◌,
  ◌==◌, ltb, is_some, is_just, select, find, any, text_eq,
}
use openseat.Store.{Store, Text, Seat, Hold, Ticket}
use openseat.Holds.{is_live_on}

pub data SeatStatus : Type 0 where
  sold held available : SeatStatus

-- A seat of the answer.
pub record SeatView : Type 0 where
  pub seat : Seat
  pub status : SeatStatus
  pub mine : Bool
  pub expires_at : Option ℕ

-- `orderBy: [{ y: 'asc' }, { x: 'asc' }]`
abbrev pub sits_before : Seat → Seat → Bool
sits_before a b = ltb a.y b.y || (a.y == b.y && not (ltb b.x a.x))

unfoldable pub insert_seat : Seat → List Seat → List Seat
insert_seat a [] = a ∷ []
insert_seat a (b ∷ seats) = if sits_before a b then a ∷ b ∷ seats else b ∷ insert_seat a seats

unfoldable pub in_order : List Seat → List Seat
unfolding insert_seat
in_order [] = []
in_order (a ∷ seats) = insert_seat a (in_order seats)

-- The holds of the event in time, by seat: the unique key leaves one for each seat.
unfoldable pub hold_on : ℕ → ℕ → ℕ → Store → Option Hold
hold_on event_id now seat_id s =
    find (λ h. h.seat_id == seat_id)
      (select (λ h. h.event_id == event_id && ltb now h.expires_at) s.holds)

unfoldable pub is_sold : ℕ → ℕ → Store → Bool
is_sold event_id seat_id s = any (λ t. t.event_id == event_id && is_live_on seat_id t) s.tickets

unfoldable pub status_of : Bool → Option Hold → SeatStatus
status_of true hold = sold
status_of false (some hold) = held
status_of false none = available

unfoldable pub is_mine : Option Hold → Option Text → Bool
is_mine none key = false
is_mine (some hold) none = false
is_mine (some hold) (some key) = text_eq hold.holder_key key

unfoldable pub expiry_of : Option Hold → Option Text → Option ℕ
unfolding is_mine
expiry_of none key = none
expiry_of (some hold) key = if is_mine (some hold) key then some hold.expires_at else none

unfoldable pub view_seat : ℕ → ℕ → Option Text → Store → Seat → SeatView
unfolding hold_on is_sold status_of is_mine expiry_of
view_seat event_id now key s seat = record {
  seat = seat;
  status = status_of (is_sold event_id seat.id s) (hold_on event_id now seat.id s);
  mine = is_mine (hold_on event_id now seat.id s) key;
  expires_at = expiry_of (hold_on event_id now seat.id s) key;
}

-- The seats of the answer for an event that has a seat map.
unfoldable pub get_for_event : ℕ → ℕ → Option Text → Store → List SeatView
unfolding in_order view_seat
get_for_event event_id now key s =
    map (view_seat event_id now key s) (in_order (select (λ x. x.event_id == event_id) s.seats))
