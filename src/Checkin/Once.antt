-- ===== src/Checkin/Once.antt =====
-- A second scan of a ticket.
use openseat.Base.{
  ℕ, ◌≡◌, refl, inl, inr, true, false, Bool-cases, some, Option-cases, any, find, count, ◌≤◌, [],
  ◌∷◌, update, any-update, arith, List, ◌==◌,
}
use openseat.Store.{Store, Ticket}
use openseat.Store.Action.{Ends-at, Ends, ok}
use openseat.Holds.{is_void}
use openseat.Checkin.{
  CheckinResult, already_checked_in, can_check_in, mark_checked_in, claim_ticket, result_of, admit,
}

-- No ticket of that id waits to be checked in.
abbrev IsUsed : ℕ → List Ticket → Type 0
IsUsed ticket_id tickets = any (can_check_in ticket_id) tickets ≡ false

claim_ticket-uses :
    (now ticket_id : ℕ) (s : Store)
    → Ends (claim_ticket now ticket_id s) (λ _ s'. IsUsed ticket_id s'.tickets)
unfolding claim_ticket
claim_ticket-uses now ticket_id s = elim (Bool-cases (any (can_check_in ticket_id) s.tickets)) [
  | inr used ↦ rw used used
  | inl issued ↦
      rw issued
        (any-update (can_check_in ticket_id) (mark_checked_in now) (λ t. ground arith) s.tickets)
]

-- A second scan finds the row that the first one left.
abbrev repeated : CheckinResult → CheckinResult
repeated r = record r { outcome = already_checked_in }

counts_issued :
    (ticket_id : ℕ) (ts : List Ticket)
    → any (can_check_in ticket_id) ts ≡ true
    → 1 ≤ count (λ t. t.id == ticket_id) ts
unfolding any count
counts_issued ticket_id [] h = ground (arith, h)
counts_issued ticket_id (t ∷ ts) h = ground (arith, counts_issued ticket_id ts, h)

-- With one row for each id, the row found after a claim is the one that was claimed.
claimed_row :
    (now ticket_id : ℕ) (ts : List Ticket) (t : Ticket)
    → count (λ x. x.id == ticket_id) ts ≤ 1
    → any (can_check_in ticket_id) ts ≡ true
    → find (λ x. x.id == ticket_id) (update (can_check_in ticket_id) (mark_checked_in now) ts)
      ≡ some t
    → is_void t.status ≡ false
unfolding any count find update
claimed_row now ticket_id [] t one h found = ground (arith, h)
claimed_row now ticket_id (x ∷ ts) t one h found =
    ground (arith, claimed_row now ticket_id ts t, counts_issued ticket_id ts, found, h)

admit-Ends :
    (now later ticket_id : ℕ) (s : Store)
    → count (λ t. t.id == ticket_id) s.tickets ≤ 1
    → Ends (admit now ticket_id s) (λ r s'. admit later ticket_id s' ≡ (ok (repeated r), s'))
unfolding admit claim_ticket result_of
admit-Ends now later ticket_id s one = elim (Bool-cases (any (can_check_in ticket_id) s.tickets)) [
  | inr used ↦ rw used (elim (Option-cases (find (λ t. t.id == ticket_id) s.tickets)) [
    | inl gone ↦ rw gone tt
    | inr (t, found) ↦ rw found (elim (Bool-cases (is_void t.status)) [
      | inl void ↦ rw void tt
      | inr live ↦ rw (live, used, found, live) refl
    ])
  ])
  | inl issued ↦
      let used : any (can_check_in ticket_id)
            (update (can_check_in ticket_id) (mark_checked_in now) s.tickets)
          ≡ false =
        any-update (can_check_in ticket_id) (mark_checked_in now) (λ t. ground arith) s.tickets in
      rw issued
        (elim (Option-cases (
          find (λ t. t.id == ticket_id)
            (update (can_check_in ticket_id) (mark_checked_in now) s.tickets))) [
              | inl gone ↦ rw gone tt
              | inr (t, found) ↦
                  rw found
                    (rw (used, found, claimed_row now ticket_id s.tickets t one issued found) refl)
            ])
]

-- Where no two tickets have the id: when a scan of a ticket was answered, a later scan is answered
-- by the same row, as already checked in, and changes nothing.
pub admit-once :
    (now later ticket_id : ℕ) (s s' : Store) (answer : CheckinResult)
    → count (λ t. t.id == ticket_id) s.tickets ≤ 1
    → admit now ticket_id s ≡ (ok answer, s')
    → admit later ticket_id s' ≡ (ok (record answer { outcome = already_checked_in }), s')
admit-once now later ticket_id s s' answer one admitted =
    Ends-at _ admitted (admit-Ends now later ticket_id s one)
