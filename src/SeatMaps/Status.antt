-- ===== src/SeatMaps/Status.antt =====
-- The seats that the map shows as available, and `acquire`.
use openseat.Base.{
  ℕ, ◌+◌, ◌≡◌, refl, Bool, true, false, ◌&&◌, Option, none, some, List, [], ◌∷◌, if◌then◌else◌,
  ◌==◌, ltb, leb, is_some, select, find, any, All, arith, not, Bool-cases, inl, inr, subst,
}
use openseat.Store.{Store, Text, Seat, Hold, Ticket}
use openseat.Store.Action.{ok}
use openseat.Holds.{acquire, holds_seat, is_live_on, find_open_seat, held_by_key, max_held_per_key}
use openseat.Holds.Exclusive.{acquire-free}
use openseat.SeatMaps.{available, hold_on, is_sold, status_of, view_seat}

-- The tickets of the seat are of the event.
abbrev pub IsOwn : ℕ → ℕ → Store → Type 0
IsOwn event_id seat_id s =
    All (λ t. is_live_on seat_id t && not (t.event_id == event_id) ≡ false) s.tickets

unsold :
    (event_id seat_id : ℕ) (ts : List Ticket)
    → All (λ t. is_live_on seat_id t && not (t.event_id == event_id) ≡ false) ts
    → any (λ t. t.event_id == event_id && is_live_on seat_id t) ts ≡ false
    → any (is_live_on seat_id) ts ≡ false
unfolding any
unsold event_id seat_id [] own h = refl
unsold event_id seat_id (t ∷ ts) own h = ground (arith, unsold event_id seat_id ts own.1, own.0, h)

no_live_hold :
    (event_id seat_id now : ℕ) (hs : List Hold)
    → find
        (λ h. h.seat_id == seat_id)
        (select (λ h. h.event_id == event_id && ltb now h.expires_at) hs)
      ≡ none
    → any (λ h. holds_seat event_id seat_id h && ltb now h.expires_at) hs ≡ false
unfolding any find select
no_live_hold event_id seat_id now [] h = refl
no_live_hold event_id seat_id now (x ∷ hs) h =
    elim (Bool-cases (x.event_id == event_id && ltb now x.expires_at)) [
      | inr stale ↦ ground (
        arith,
        stale,
        no_live_hold event_id seat_id now hs (
            subst
              (λ b.
                find (λ y. y.seat_id == seat_id)
                  (if b
                    then x ∷ select (λ y. y.event_id == event_id && ltb now y.expires_at) hs
                    else select (λ y. y.event_id == event_id && ltb now y.expires_at) hs)
                ≡ none)
              stale h),
      )
      | inl live ↦
          let found : (if x.seat_id == seat_id
                then some x
                else find (λ y. y.seat_id == seat_id)
                    (select (λ y. y.event_id == event_id && ltb now y.expires_at) hs))
              ≡ none =
            subst
              (λ b.
                find (λ y. y.seat_id == seat_id)
                  (if b
                    then x ∷ select (λ y. y.event_id == event_id && ltb now y.expires_at) hs
                    else select (λ y. y.event_id == event_id && ltb now y.expires_at) hs)
                ≡ none)
              live h in
          ground (arith, live, found, no_live_hold event_id seat_id now hs)
    ]

available_parts :
    (taken : Bool) (hold : Option Hold)
    → status_of taken hold ≡ available
    → (taken ≡ false) × (hold ≡ none)
unfolding status_of
available_parts true hold h = ground (arith, h)
available_parts false (some x) h = ground (arith, h)
available_parts false none h = (refl, refl)

-- A seat that the map shows as available, of a published event and with tickets of that event only,
-- is acquired by a holder of fewer than eight seats at the same time.
pub acquire-available :
    (ttl event_id now : ℕ) (key : Text) (viewer : Option Text) (s : Store) (seat : Seat)
    → is_some (find_open_seat event_id seat.id s) ≡ true
    → leb max_held_per_key (held_by_key event_id key now s) ≡ false
    → IsOwn event_id seat.id s
    → (view_seat event_id now viewer s seat).status ≡ available
    → (acquire ttl event_id seat.id key now s).0 ≡ ok (seat.id, now + ttl)
unfolding view_seat is_sold hold_on
acquire-available ttl event_id now key viewer s seat opened few own shown =
    let (free, unheld) : (is_sold event_id seat.id s ≡ false)
        × (hold_on event_id now seat.id s ≡ none) =
      available_parts (is_sold event_id seat.id s) (hold_on event_id now seat.id s) shown in
    (acquire-free ttl event_id seat.id key now s opened few
      (unsold event_id seat.id s.tickets own free)
      (no_live_hold event_id seat.id now s.holds unheld)).0
