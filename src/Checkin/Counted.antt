-- ===== src/Checkin/Counted.antt =====
-- How many tickets the scans of apps/api/src/checkin/checkin.service.ts check in.
use openseat.Base.{
  ℕ, suc, ◌+◌, ◌≤◌, ◌≡◌, refl, sym, ◌∙◌, inl, inr, true, false, Bool-cases, Option-cases, List, [],
  ◌∷◌, ◌==◌, find, find-any, any, count, update, update-none, any-update_blind, count-update_blind,
  leb, arith,
}
use openseat.Store.{Store, Ticket, TicketStatus, issued, checked_in, void}
use openseat.Store.Action.{Result, ok, err, Reads, continue}
use openseat.Access.{staff, require_event_role, resolve_role, find_event, role_in, role_rank}
use openseat.Holds.{is_void}
use openseat.Checkin.{
  CheckinResult, Outcome, can_check_in, mark_checked_in, claim_ticket, scanned, result_of, admit,
  check_in,
}
use openseat.Dashboard.Cards.{is_admitted, is_checked_in}
use openseat.Refunds.Create.{is_issued}

-- How many tickets are checked in.
abbrev pub admitted_in : Store → ℕ
admitted_in s = count is_admitted s.tickets

-- No two tickets have one id.
abbrev pub HasIds : Store → Type 0
HasIds s = (k : ℕ) → count (λ t. t.id == k) s.tickets ≤ 1

not_yet : (status : TicketStatus) → is_issued status ≡ true → is_checked_in status ≡ false
not_yet issued h = refl
not_yet checked_in h = sym h
not_yet void h = refl

none_issued :
    (k : ℕ) (ts : List Ticket) → count (λ t. t.id == k) ts ≡ 0 → any (can_check_in k) ts ≡ false
unfolding any count
none_issued k [] h = refl
none_issued k (t ∷ ts) h = ground (arith, none_issued k ts, h)

-- A claim that hits checks one ticket in.
claim_admits :
    (now k : ℕ) (ts : List Ticket)
    → count (λ t. t.id == k) ts ≤ 1
    → any (can_check_in k) ts ≡ true
    → count is_admitted (update (can_check_in k) (mark_checked_in now) ts)
      ≡ suc (count is_admitted ts)
unfolding any count update
claim_admits now k [] one h = ground (arith, h)
claim_admits now k (t ∷ ts) one h = elim (Bool-cases (can_check_in k t)) [
  | inl hit ↦
      let rest : any (can_check_in k) ts ≡ false = none_issued k ts (ground (arith, hit, one)) in
      rw (update-none (can_check_in k) (mark_checked_in now) ts rest)
        (ground (arith, hit, not_yet t.status))
  | inr miss ↦ ground (arith, miss, claim_admits now k ts, one, h)
]

abbrev pub one_for : Outcome → ℕ
one_for Outcome.checked_in = 1
one_for Outcome.already_checked_in = 0

-- One for the answer "checked in", nothing for another one.
abbrev pub gain : Result CheckinResult → ℕ
gain (ok r) = one_for r.outcome
gain (err e) = 0

-- A call that answers "checked in" exactly when it checks one ticket in.
abbrev pub Counted : Store → Result CheckinResult × Store → Type 0
Counted s (r, s') = (admitted_in s' ≡ gain r + admitted_in s) × HasIds s'

read_first :
    {A : Type 0} (Q : A → Type 0) (s : Store) (r : Result A × Store)
    (f : A → Store → Result CheckinResult × Store)
    → HasIds s
    → Reads s r Q
    → ((a : A) → Q a → Counted s (f a s))
    → Counted s (continue r f)
read_first Q s (ok a, s') f ids (same, q) k = rw same (k a q)
read_first Q s (err e, s') f ids same k = rw same (omega arith, ids)

has_id :
    (k : ℕ) (ts : List Ticket) → any (can_check_in k) ts ≡ true → any (λ t. t.id == k) ts ≡ true
unfolding any
has_id k [] h = ground (arith, h)
has_id k (t ∷ ts) h = ground (arith, has_id k ts, h)

admit-Counted : (now k : ℕ) (s : Store) → HasIds s → Counted s (admit now k s)
unfolding admit claim_ticket result_of
admit-Counted now k s ids = elim (Bool-cases (any (can_check_in k) s.tickets)) [
  | inr used ↦ rw used (elim (Option-cases (find (λ t. t.id == k) s.tickets)) [
    | inl gone ↦ rw gone (omega arith, ids)
    | inr (t, found) ↦ rw found (elim (Bool-cases (is_void t.status)) [
      | inl no_entry ↦ rw no_entry (omega arith, ids)
      | inr live ↦ rw live (omega arith, ids)
    ])
  ])
  | inl waits ↦
      let after = update (can_check_in k) (mark_checked_in now) s.tickets in
      let there : any (λ t. t.id == k) after ≡ true =
        any-update_blind (λ t. t.id == k) (can_check_in k) (mark_checked_in now) (λ t. refl)
          s.tickets
        ∙ has_id k s.tickets waits in
      let (t, found, hit) = find-any (λ t. t.id == k) after there in
      rw (waits, found)
        (
          omega (arith, claim_admits now k s.tickets (ids k) waits),
          λ j.
              rw
                (count-update_blind (λ t. t.id == j) (can_check_in k) (mark_checked_in now)
                  (λ t. refl) s.tickets)
                (ids j),
        )
]

role-Reads :
    (event_id user_id : ℕ) (s : Store)
    → Reads s (require_event_role event_id user_id staff s) (λ _. Unit {0})
unfolding require_event_role resolve_role
role-Reads event_id user_id s = elim (Option-cases (find_event event_id s)) [
  | inl gone ↦ rw gone refl
  | inr (e, found) ↦ rw found (elim (Option-cases (role_in e user_id s)) [
    | inl none_here ↦ rw none_here refl
    | inr (role, held) ↦ rw held (elim (Bool-cases (leb (role_rank staff) (role_rank role))) [
      | inl enough ↦ rw enough (refl, tt)
      | inr low ↦ rw low refl
    ])
  ])
]

scanned-Reads :
    (event_id qr_token : ℕ) (s : Store) → Reads s (scanned event_id qr_token s) (λ _. Unit {0})
unfolding scanned
scanned-Reads event_id qr_token s =
    elim (Option-cases (find (λ t. t.qr_token == qr_token) s.tickets)) [
      | inl gone ↦ rw gone refl
      | inr (t, found) ↦ rw found (elim (Bool-cases (t.event_id == event_id)) [
        | inr other ↦ rw other refl
        | inl here ↦ rw here (elim (Bool-cases (is_void t.status)) [
          | inl no_entry ↦ rw no_entry refl
          | inr live ↦ rw live (refl, tt)
        ])
      ])
    ]

pub check_in-Counted :
    (now event_id user_id qr_token : ℕ) (s : Store)
    → HasIds s
    → Counted s (check_in now event_id user_id qr_token s)
unfolding check_in
check_in-Counted now event_id user_id qr_token s ids =
    read_first (λ _. Unit {0}) s (require_event_role event_id user_id staff s) _ ids
      (role-Reads event_id user_id s)
      (λ _ _.
        read_first (λ _. Unit {0}) s (scanned event_id qr_token s) _ ids
          (scanned-Reads event_id qr_token s) (λ ticket _. admit-Counted now ticket.id s ids))
