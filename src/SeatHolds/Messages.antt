-- ===== src/SeatHolds/Messages.antt =====
-- A message applied twice.
use openseat.Base.{◌≡◌, refl, not, ◌&&◌, List, [], ◌∷◌, Bool-cases, inl, inr}
use openseat.Store.{SeatChange}
use openseat.SeatHolds.{SeatInfo, is_in, apply_to_seat, apply_message}

apply_to_seat-twice :
    (m : SeatChange) (s : SeatInfo) → apply_to_seat m (apply_to_seat m s) ≡ apply_to_seat m s
unfolding apply_to_seat
apply_to_seat-twice m s = elim (Bool-cases (is_in s.id m.sold)) [
  | inl gone ↦ rw (gone) (rw gone refl)
  | inr unsold ↦ elim (Bool-cases (is_in s.id m.released)) [
    | inl free ↦ rw (unsold, free) (rw (unsold, free) refl)
    | inr kept ↦ elim (Bool-cases (is_in s.id m.held && not s.mine)) [
      | inl taken ↦ rw (unsold, kept, taken) (rw (unsold, kept, taken) refl)
      | inr same ↦ rw (unsold, kept, same) (rw (unsold, kept, same) refl)
    ]
  ]
]

-- The socket may deliver a message again: the second application changes no seat.
pub apply_message-twice :
    (m : SeatChange) (seats : List SeatInfo)
    → apply_message m (apply_message m seats) ≡ apply_message m seats
unfolding apply_message
apply_message-twice m [] = refl
apply_message-twice m (s ∷ seats) = rw (apply_to_seat-twice m s, apply_message-twice m seats) refl
