-- ===== src/Holds/Claims.antt =====
-- What `acquire` does with the hold on a seat.
use openseat.Base.{
  ℕ, ◌+◌, ◌≡◌, refl, List, [], ◌∷◌, if◌then◌else◌, ◌==◌, find, any, delete, leb, not, ◌&&◌, ◌||◌,
  is_some, arith, inl, inr, Bool-cases, Option-cases, ==_iff, Bool, true, false, none, some,
  text_eq, text_eq_iff, find-update,
}
use openseat.Store.{Store, Text, Hold}
use openseat.Store.Action.{
  Ends-at, ok, Ends, continue-Ends, require-Ends, require, return, not_found, record_not_found,
  bad_request, ◌>>◌,
}
use openseat.Holds.{
  acquire, claim_seat, refresh_hold, lost_claim, find_hold, holds_seat, find_open_seat, held_by_key,
  max_held_per_key, seat_sold, seats_changed, held_change,
}

-- The seat is held under the key until that time.
pub record IsHeld (event_id seat_id : ℕ) (key : Text) (expires_at : ℕ) (s : Store) : Type 0 where
  pub row : Hold
  pub found : find_hold event_id seat_id s ≡ some row
  pub holder : row.holder_key ≡ key
  pub until : row.expires_at ≡ expires_at

-- What the insert reports.
abbrev Claimed : ℕ → ℕ → Text → ℕ → Bool → Store → Type 0
Claimed event_id seat_id key expires_at true s = IsHeld event_id seat_id key expires_at s
Claimed event_id seat_id key expires_at false s = Unit

-- The row that the insert of `acquire` adds.
abbrev pub claimed : ℕ → ℕ → Text → ℕ → Store → Hold
claimed event_id seat_id key expires_at s = record {
  id = s.next_id;
  event_id = event_id;
  seat_id = seat_id;
  holder_key = key;
  order_id = none;
  expires_at = expires_at;
}

pub find_claimed :
    (event_id seat_id : ℕ) (key : Text) (expires_at : ℕ) (s : Store) (hs : List Hold)
    → find (holds_seat event_id seat_id) (claimed event_id seat_id key expires_at s ∷ hs)
      ≡ some (claimed event_id seat_id key expires_at s)
unfolding find
find_claimed event_id seat_id key expires_at s hs = ground arith

claim_seat-Claimed :
    (event_id seat_id : ℕ) (key : Text) (expires_at now : ℕ) (s : Store)
    → Ends
        (claim_seat event_id seat_id key expires_at now s)
        (Claimed event_id seat_id key expires_at)
unfolding claim_seat find
claim_seat-Claimed event_id seat_id key expires_at now s =
    elim (Bool-cases (
      seat_sold seat_id s
      || is_some (
          find (holds_seat event_id seat_id)
            (delete (λ h. holds_seat event_id seat_id h && leb h.expires_at now) s.holds)))) [
              | inl lost ↦ rw lost tt
              | inr free ↦ rw free (record {
                row = claimed event_id seat_id key expires_at s;
                found = find_claimed event_id seat_id key expires_at s _;
                holder = refl;
                until = refl;
              })
            ]

required : (s : Store) (b : Bool) → Ends (require b record_not_found s) (λ _ s₁. s₁ ≡ s)
required s true = refl
required s false = tt

refresh_hold-IsHeld :
    (event_id seat_id : ℕ) (key : Text) (expires_at : ℕ) (s : Store) (h : Hold)
    → find_hold event_id seat_id s ≡ some h
    → h.holder_key ≡ key
    → Ends (refresh_hold h.id expires_at s) (λ _. IsHeld event_id seat_id key expires_at)
unfolding refresh_hold
refresh_hold-IsHeld event_id seat_id key expires_at s h found same =
    continue-Ends (λ _ s₁. s₁ ≡ s) (require (any (λ x. x.id == h.id) s.holds) record_not_found s) _
      _ (required s (any (λ x. x.id == h.id) s.holds))
      λ _ s₁ unchanged. rw unchanged (record {
        row = record h { expires_at = expires_at };
        found =
            rw
              (
                find-update (holds_seat event_id seat_id) (λ x. x.id == h.id)
                    (λ x. record x { expires_at = expires_at }) (λ x. refl) s.holds,
                found,
                (==_iff h.id h.id).1 refl,
              )
              refl;
        holder = same;
        until = refl;
      })

-- A hold that the caller has already is refreshed.
lost_claim-IsHeld :
    (event_id seat_id : ℕ) (key : Text) (expires_at : ℕ) (s : Store)
    → Ends
        (lost_claim seat_id key expires_at (find_hold event_id seat_id s) s)
        (λ r s'. (r ≡ (seat_id, expires_at)) × IsHeld event_id seat_id key expires_at s')
unfolding lost_claim
lost_claim-IsHeld event_id seat_id key expires_at s =
    elim (Option-cases (find_hold event_id seat_id s)) [
      | inl gone ↦ rw gone tt
      | inr (h, found) ↦ rw found (elim (Bool-cases (text_eq h.holder_key key)) [
        | inr other ↦ rw other tt
        | inl mine ↦ rw mine (
            continue-Ends (λ _. IsHeld event_id seat_id key expires_at)
              (refresh_hold h.id expires_at s) _ _
              (refresh_hold-IsHeld event_id seat_id key expires_at s h found
                ((text_eq_iff _ _).0 mine))
              (λ _ s₁ held. (refl, held)))
      ])
    ]

acquire-Ends :
    (ttl event_id seat_id : ℕ) (key : Text) (now : ℕ) (s : Store)
    → Ends
        (acquire ttl event_id seat_id key now s)
        (λ r s'. (r ≡ (seat_id, now + ttl)) × IsHeld event_id seat_id key (now + ttl) s')
unfolding acquire
acquire-Ends ttl event_id seat_id key now s =
    require-Ends (is_some (find_open_seat event_id seat_id s)) (not_found "Seat not found") s _ _
      λ found.
        require-Ends (not (leb max_held_per_key (held_by_key event_id key now s)))
          (bad_request "At most 8 seats can be held at once") s _ _
          λ few.
            continue-Ends (Claimed event_id seat_id key (now + ttl))
              (claim_seat event_id seat_id key (now + ttl) now s) _ _
              (claim_seat-Claimed event_id seat_id key (now + ttl) now s) answered
  where
    answered :
        (inserted : Bool) (s₃ : Store)
        → Claimed event_id seat_id key (now + ttl) inserted s₃
        → Ends
            ((if inserted
                then (do
                  seats_changed event_id (held_change (seat_id ∷ []))
                  return (seat_id, now + ttl))
                else lost_claim seat_id key (now + ttl) (find_hold event_id seat_id s₃))
              s₃)
            (λ r s'. (r ≡ (seat_id, now + ttl)) × IsHeld event_id seat_id key (now + ttl) s')
    answered true s₃ held = (
      refl,
      record { row = held.row; found = held.found; holder = held.holder; until = held.until },
    )
    answered false s₃ _ = lost_claim-IsHeld event_id seat_id key (now + ttl) s₃

-- When `acquire` returned, it names the seat and `ttl` from now, and the hold on the seat is the
-- caller's and ends then, also where it was the caller's before and bound to an order until later.
pub acquire-IsHeld :
    (ttl event_id seat_id : ℕ) (key : Text) (now : ℕ) (s s' : Store) (answer : ℕ × ℕ)
    → acquire ttl event_id seat_id key now s ≡ (ok answer, s')
    → (answer ≡ (seat_id, now + ttl)) × IsHeld event_id seat_id key (now + ttl) s'
acquire-IsHeld ttl event_id seat_id key now s s' answer acquired =
    Ends-at _ acquired (acquire-Ends ttl event_id seat_id key now s)
