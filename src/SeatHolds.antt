-- ===== src/SeatHolds.antt =====
-- apps/web/src/lib/use-seat-holds.ts: the seats that the browser shows, as messages of the event's
-- socket and clicks change them. Sockets, toasts and React's effects are left out.
pub mod Messages
use openseat.Base.{
  ℕ, Bool, true, false, not, ◌&&◌, Option, none, some, List, [], ◌∷◌, map, if◌then◌else◌, ◌==◌, any,
  select, update, min,
}
use openseat.Store.{SeatChange}
use openseat.SeatMaps.{SeatStatus, sold, held, available}

-- `SeatInfo`, without what is only displayed. An absent `mine` is false.
pub record SeatInfo : Type 0 where
  pub id : ℕ
  pub status : SeatStatus
  pub mine : Bool
  pub expires_at : Option ℕ

abbrev pub is_in : ℕ → List ℕ → Bool
is_in id ids = any (λ i. i == id) ids

-- One seat under a message.
unfoldable pub apply_to_seat : SeatChange → SeatInfo → SeatInfo
apply_to_seat message seat =
    if is_in seat.id message.sold
    then record seat { status = sold; mine = false }
    else if is_in seat.id message.released
    then record seat { status = available; mine = false; expires_at = none }
    else if is_in seat.id message.held && not seat.mine
    then record seat { status = held }
    else seat

unfoldable pub apply_message : SeatChange → List SeatInfo → List SeatInfo
apply_message message seats = map (apply_to_seat message) seats

unfoldable pub my_seats : List SeatInfo → List SeatInfo
my_seats seats = select (λ s. s.mine) seats

-- One step of the `reduce`.
abbrev pub earlier : Option ℕ → SeatInfo → Option ℕ
earlier earliest seat = elim seat.expires_at [
  | none ↦ earliest
  | some t ↦ elim earliest [ none ↦ some t | some e ↦ some (min e t) ]
]

unfoldable pub earliest_from : Option ℕ → List SeatInfo → Option ℕ
earliest_from earliest [] = earliest
earliest_from earliest (s ∷ seats) = earliest_from (earlier earliest s) seats

unfoldable pub earliest_expiry : List SeatInfo → Option ℕ
unfolding my_seats earliest_from
earliest_expiry seats = earliest_from none (my_seats seats)

unfoldable pub apply_seat : ℕ → (SeatInfo → SeatInfo) → List SeatInfo → List SeatInfo
apply_seat id patch seats = update (λ s. s.id == id) patch seats

-- The answer to a request for a hold: its end, a conflict (409), or another error.
pub data HoldAnswer : Type 0 where
  granted : ℕ → HoldAnswer
  refused failed : HoldAnswer

-- The patch that follows the answer.
abbrev pub settle : HoldAnswer → SeatInfo → SeatInfo
settle (granted t) s = record s { status = held; mine = true; expires_at = some t }
settle refused s = record s { status = held; mine = false }
settle failed s = record s { status = available; mine = false }

abbrev pub give_up : SeatInfo → SeatInfo
give_up s = record s { status = available; mine = false; expires_at = none }

abbrev pub claim : SeatInfo → SeatInfo
claim s = record s { status = held; mine = true }

unfoldable pub request_seat : SeatStatus → HoldAnswer → ℕ → List SeatInfo → List SeatInfo
unfolding apply_seat
request_seat available answer id seats = apply_seat id (settle answer) (apply_seat id claim seats)
request_seat _ answer id seats = seats

abbrev pub is_sold_status : SeatStatus → Bool
is_sold_status sold = true
is_sold_status _ = false

-- `toggleSeat`, for the seat as it was clicked; a failed release only refreshes the map.
unfoldable pub toggle_seat : HoldAnswer → SeatInfo → List SeatInfo → List SeatInfo
unfolding apply_seat request_seat
toggle_seat answer seat seats =
    if is_sold_status seat.status
    then seats
    else if seat.mine
    then apply_seat seat.id give_up seats
    else request_seat seat.status answer seat.id seats
