-- ===== src/Holds/Exclusive.antt =====
-- Who gets a seat, with a hold on it or without.
use openseat.Base.{
  ℕ, ◌+◌, ◌≡◌, refl, List, [], ◌∷◌, find, any, delete, leb, ltb, not, ◌&&◌, ◌||◌, is_some, arith,
  inl, inr, Bool-cases, Bool, true, false, Option, none, some, text_eq,
}
use openseat.Store.{Store, Text, Hold}
use openseat.Store.Action.{Result, ok, err}
use openseat.Holds.{
  acquire, claim_seat, drop_expired_hold, insert_hold, lost_claim, find_hold, holds_seat,
  find_open_seat, held_by_key, max_held_per_key, seat_sold,
}
use openseat.Holds.Claims.{claimed, find_claimed}

abbrev pub succeeds : {A : Type 0} → Result A → Bool
succeeds (ok a) = true
succeeds (err e) = false

-- Dropping the expired hold of a seat keeps a hold in time.
find_live :
    (event_id seat_id now : ℕ) (hs : List Hold) (h : Hold)
    → find (holds_seat event_id seat_id) hs ≡ some h
    → ltb now h.expires_at ≡ true
    → find
        (holds_seat event_id seat_id)
        (delete (λ x. holds_seat event_id seat_id x && leb x.expires_at now) hs)
      ≡ some h
unfolding find delete
find_live event_id seat_id now [] h found live = found
find_live event_id seat_id now (x ∷ hs) h found live =
    ground (arith, find_live event_id seat_id now hs h, found, live)

find_expired :
    (event_id seat_id now : ℕ) (hs : List Hold)
    → any (λ x. holds_seat event_id seat_id x && ltb now x.expires_at) hs ≡ false
    → find
        (holds_seat event_id seat_id)
        (delete (λ x. holds_seat event_id seat_id x && leb x.expires_at now) hs)
      ≡ none
unfolding find delete any
find_expired event_id seat_id now [] dead = refl
find_expired event_id seat_id now (x ∷ hs) dead =
    ground (arith, find_expired event_id seat_id now hs, dead)

or_some : {A : Type 0} (b : Bool) (o : Option A) (a : A) → o ≡ some a → (b || is_some o) ≡ true
or_some true o a h = refl
or_some false o a h = rw h refl

-- While a hold on the seat has not expired, `acquire` under another key throws, and the hold is found
-- on the seat as before.
pub acquire-held :
    (ttl event_id seat_id : ℕ) (key : Text) (now : ℕ) (s : Store) (h : Hold)
    → find_hold event_id seat_id s ≡ some h
    → ltb now h.expires_at ≡ true
    → text_eq h.holder_key key ≡ false
    → (succeeds (acquire ttl event_id seat_id key now s).0 ≡ false)
      × (find_hold event_id seat_id (acquire ttl event_id seat_id key now s).1 ≡ some h)
unfolding acquire claim_seat drop_expired_hold insert_hold lost_claim
acquire-held ttl event_id seat_id key now s h found live other =
    elim (Bool-cases (is_some (find_open_seat event_id seat_id s))) [
      | inr closed ↦ rw closed (refl, found)
      | inl opened ↦
          rw opened
            (elim (Bool-cases (not (leb max_held_per_key (held_by_key event_id key now s)))) [
              | inr many ↦ rw many (refl, found)
              | inl few ↦ rw few (
                  rw
                    (or_some (seat_sold seat_id s)
                      (find (holds_seat event_id seat_id) (
                        delete (λ x. holds_seat event_id seat_id x && leb x.expires_at now)
                          s.holds))
                      h (find_live event_id seat_id now s.holds h found live))
                    (rw (find_live event_id seat_id now s.holds h found live, other)
                      (refl, find_live event_id seat_id now s.holds h found live)))
            ])
    ]

-- An open seat that is not sold and has no hold in time, an expired hold bound to an order or not, is
-- acquired under a key with fewer than eight seats, and the hold found on it is the new one.
pub acquire-free :
    (ttl event_id seat_id : ℕ) (key : Text) (now : ℕ) (s : Store)
    → is_some (find_open_seat event_id seat_id s) ≡ true
    → leb max_held_per_key (held_by_key event_id key now s) ≡ false
    → seat_sold seat_id s ≡ false
    → any (λ h. holds_seat event_id seat_id h && ltb now h.expires_at) s.holds ≡ false
    → ((acquire ttl event_id seat_id key now s).0 ≡ ok (seat_id, now + ttl))
      × (find_hold event_id seat_id (acquire ttl event_id seat_id key now s).1
          ≡ some (claimed event_id seat_id key (now + ttl) s))
unfolding acquire claim_seat drop_expired_hold insert_hold
acquire-free ttl event_id seat_id key now s opened few unsold dead =
    rw (opened, few, unsold, find_expired event_id seat_id now s.holds dead)
      (refl, find_claimed event_id seat_id key (now + ttl) s _)
