-- ===== src/Holds.antt =====
-- apps/api/src/holds/holds.service.ts: temporary claims on seats. Each method is the chain of its
-- statements; `claim_seat` and `refresh_hold` are the writes of `acquire`. `now` is the clock of the
-- application and of the database in one call.
pub mod Sweep
pub mod Claims
pub mod Exclusive
use mathlib.Core.List.{reverse}
use openseat.Base.{
  ℕ, ◌+◌, ◌*◌, Bool, true, false, not, ◌&&◌, ◌||◌, Option, none, some, List, [], ◌∷◌, ◌++◌, map,
  ◌==◌, leb, ltb, if◌then◌else◌, is_just, is_some, is_none, find, count, select, update, delete,
  any, text_eq, length,
}
use openseat.Store.{
  Store, Text, EventStatus, draft, published, Seat, Hold, Ticket, TicketStatus, void, SeatChange,
}
use openseat.Store.Action.{
  Action, not_found, bad_request, conflict, record_not_found, ◌>>=◌, ◌>>◌, return, throw, read,
  write, require, transaction, for_each, fresh_id,
}

abbrev pub default_hold_ttl_ms : ℕ
default_hold_ttl_ms = 7 * 60000

abbrev pub max_held_per_key : ℕ
max_held_per_key = 8

abbrev pub is_published : EventStatus → Bool
is_published draft = false
is_published published = true

abbrev pub is_void : TicketStatus → Bool
is_void void = true
is_void _ = false

abbrev pub event_published : ℕ → Store → Bool
event_published event_id s = any (λ e. e.id == event_id && is_published e.status) s.events

-- A ticket of the seat that is not void.
abbrev pub is_live_on : ℕ → Ticket → Bool
is_live_on seat_id t = is_just t.seat_id seat_id && not (is_void t.status)

abbrev pub seat_sold : ℕ → Store → Bool
seat_sold seat_id s = any (is_live_on seat_id) s.tickets

-- The unique key `(event_id, seat_id)` of a hold.
abbrev pub holds_seat : ℕ → ℕ → Hold → Bool
holds_seat event_id seat_id h = h.event_id == event_id && h.seat_id == seat_id

abbrev pub find_hold : ℕ → ℕ → Store → Option Hold
find_hold event_id seat_id s = find (holds_seat event_id seat_id) s.holds

abbrev pub seats_changed : ℕ → SeatChange → Action (Unit {0})
seats_changed event_id change =
    write λ s. record s { seats_changed = (event_id, change) ∷ s.seats_changed }

abbrev pub held_change : List ℕ → SeatChange
held_change ids = record { held = ids; released = []; sold = [] }

abbrev pub released_change : List ℕ → SeatChange
released_change ids = record { held = []; released = ids; sold = [] }

unfoldable pub find_open_seat : ℕ → ℕ → Store → Option Seat
find_open_seat event_id seat_id s =
    find (λ x. x.id == seat_id && x.event_id == event_id && event_published event_id s) s.seats

unfoldable pub held_by_key : ℕ → Text → ℕ → Store → ℕ
held_by_key event_id holder_key now s =
    count (λ h. h.event_id == event_id && text_eq h.holder_key holder_key && ltb now h.expires_at)
      s.holds

-- `DELETE FROM holds … AND expires_at <= now()`
unfoldable pub drop_expired_hold : ℕ → ℕ → ℕ → Store → Store
drop_expired_hold event_id seat_id now s = record s {
  holds = delete (λ h. holds_seat event_id seat_id h && leb h.expires_at now) s.holds;
}

-- `INSERT … SELECT … WHERE NOT EXISTS … ON CONFLICT DO NOTHING`: whether a row went in.
unfoldable pub insert_hold : Hold → Action Bool
insert_hold h s =
    if seat_sold h.seat_id s || is_some (find_hold h.event_id h.seat_id s)
    then return false s
    else return true (record s { holds = h ∷ s.holds })

-- The transaction of `acquire`.
unfoldable pub claim_seat : ℕ → ℕ → Text → ℕ → ℕ → Action Bool
unfolding drop_expired_hold insert_hold
claim_seat event_id seat_id holder_key expires_at now = transaction do
  hold_id ← fresh_id
  write (drop_expired_hold event_id seat_id now)
  insert_hold (record {
    id = hold_id;
    event_id = event_id;
    seat_id = seat_id;
    holder_key = holder_key;
    order_id = none;
    expires_at = expires_at;
  })

-- `hold.update`, which throws if the row is gone
unfoldable pub refresh_hold : ℕ → ℕ → Action (Unit {0})
refresh_hold hold_id expires_at = do
  found ← read (λ s. any (λ h. h.id == hold_id) s.holds)
  require found record_not_found
  write λ s. record s {
    holds = update (λ h. h.id == hold_id) (λ h. record h { expires_at = expires_at }) s.holds;
  }

-- What `acquire` does when its insert did nothing.
unfoldable pub lost_claim : ℕ → Text → ℕ → Option Hold → Action (ℕ × ℕ)
unfolding refresh_hold
lost_claim seat_id holder_key expires_at none = throw (conflict "SEAT_SOLD")
lost_claim seat_id holder_key expires_at (some existing) =
    if text_eq existing.holder_key holder_key
    then (do refresh_hold existing.id expires_at; return (seat_id, expires_at))
    else throw (conflict "SEAT_HELD")

-- The seat and the time at which the hold ends.
unfoldable pub acquire : ℕ → ℕ → ℕ → Text → ℕ → Action (ℕ × ℕ)
unfolding find_open_seat held_by_key claim_seat lost_claim
acquire ttl event_id seat_id holder_key now = do
  seat ← read (find_open_seat event_id seat_id)
  require (is_some seat) (not_found "Seat not found")
  held ← read (held_by_key event_id holder_key now)
  require (not (leb max_held_per_key held)) (bad_request "At most 8 seats can be held at once")
  let expires_at = now + ttl
  inserted ← claim_seat event_id seat_id holder_key expires_at now
  existing ← read (find_hold event_id seat_id)
  if inserted
      then (do seats_changed event_id (held_change (seat_id ∷ [])); return (seat_id, expires_at))
      else lost_claim seat_id holder_key expires_at existing

abbrev may_release : ℕ → ℕ → Text → Hold → Bool
may_release event_id seat_id holder_key h =
    holds_seat event_id seat_id h && text_eq h.holder_key holder_key && is_none h.order_id

unfoldable pub release : ℕ → ℕ → Text → Action (Unit {0})
release event_id seat_id holder_key = do
  deleted ← read (λ s. count (may_release event_id seat_id holder_key) s.holds)
  write λ s. record s { holds = delete (may_release event_id seat_id holder_key) s.holds }
  if ltb 0 deleted then seats_changed event_id (released_change (seat_id ∷ [])) else return tt

-- Rows are kept newest first, so the order by `createdAt` is the reverse.
unfoldable pub list_mine : ℕ → Text → ℕ → Store → List (ℕ × ℕ)
list_mine event_id holder_key now s =
    map (λ h. (h.seat_id, h.expires_at))
      (reverse (
        select
          (λ h. h.event_id == event_id && text_eq h.holder_key holder_key && ltb now h.expires_at)
          s.holds))

abbrev pub is_sweepable : ℕ → Hold → Bool
is_sweepable now h = leb h.expires_at now && is_none h.order_id

-- One round of the loop that fills `byEvent`.
unfoldable pub add_to_group : ℕ → ℕ → List (ℕ × List ℕ) → List (ℕ × List ℕ)
add_to_group k v [] = (k, v ∷ []) ∷ []
add_to_group k v ((j, vs) ∷ m) =
    if j == k then (j, vs ++ v ∷ []) ∷ m else (j, vs) ∷ add_to_group k v m

unfoldable pub by_event : List (ℕ × List ℕ) → List Hold → List (ℕ × List ℕ)
unfolding add_to_group
by_event m [] = m
by_event m (h ∷ hs) = by_event (add_to_group h.event_id h.seat_id m) hs

unfoldable pub sweep_expired : ℕ → Action ℕ
unfolding by_event
sweep_expired now = do
  expired ← read (λ s. select (is_sweepable now) s.holds)
  write λ s. record s { holds = delete (is_sweepable now) s.holds }
  for_each (by_event [] expired) (λ g. seats_changed g.0 (released_change g.1))
  return (length expired)
