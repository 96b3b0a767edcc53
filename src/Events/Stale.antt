-- ===== src/Events/Stale.antt =====
-- What a capacity change does to a row that another transaction changed after it was read, as the
-- database's default isolation level (read committed) lets it.
use openseat.Base.{
  ℕ, ◌+◌, ◌-◌, ◌≤◌, ◌≡◌, ◌↔◌, ap, sym, subst, inl, inr, true, ◌&&◌, some, List, [], ◌∷◌, ◌==◌, leb,
  if◌then◌else◌, Bool-cases, Option-cases, find, update, any, All, All-mono, find_holds, arith,
}
use openseat.Store.{Store, TicketType}
use openseat.Store.Action.{ok, Ends, Ends-at, continue, require-Ends, ◌>>◌}
use openseat.Inventory.{is_ga}
use openseat.Events.{UpdateTicketType}
use openseat.Events.Edit.{
  check_quantity, can_shift, shift, shift_remaining, move_remaining, edit_type, write_type,
  apply_edit,
}
use openseat.Events.Capacity.{Only, Only_of_found, any-Only}
use openseat.Books.{Distinct}

-- The row after a change that read the quantity `old`, where the row in the table was `u`.
record Shifted (u : TicketType) (old new : ℕ) (r : TicketType) : Type 0 where
  quantity : r.quantity ≡ new
  remaining : r.remaining + old ≡ u.remaining + new

-- All rows with the id have the value.
abbrev RowsHave : ℕ → (TicketType → ℕ) → ℕ → List TicketType → Type 0
RowsHave k f n = All (λ x. x.id ≡ k → f x ≡ n)

written :
    (dto : UpdateTicketType) (k new left : ℕ) (ts : List TicketType) (r : TicketType)
    → dto.quantity ≡ some new
    → RowsHave k (λ x. x.remaining) left ts
    → find (λ x. x.id == k) (update (λ x. x.id == k) (edit_type dto) ts) ≡ some r
    → (r.quantity ≡ new) × (r.remaining ≡ left)
unfolding find update
written dto k new left [] r q h found = (ground (arith, found), ground (arith, found))
written dto k new left (x ∷ ts) r q h found = elim (Bool-cases (x.id == k)) [
  | inl here ↦
      let e : edit_type dto x ≡ r = ground (arith, here, found) in
      rw (← e) (ground (arith, q), h.0 (ground arith))
  | inr other ↦ written dto k new left ts r q h.1 (ground (arith, other, found))
]

shifted_row :
    (u : TicketType) (old new : ℕ) (x : TicketType)
    → old ≤ u.remaining + new
    → (x.id ≡ u.id → x ≡ u)
    → (if can_shift u.id old new x then shift old new x else x).id ≡ u.id
    → (if can_shift u.id old new x then shift old new x else x).remaining ≡ u.remaining + new - old
shifted_row u old new x room only same = elim (Bool-cases (x.id == u.id)) [
  | inr other ↦ ground (arith, other, same)
  | inl here ↦
      let e : x.remaining ≡ u.remaining =
        ap (λ (t : TicketType). t.remaining) (only (ground arith)) in
      ground (arith, here, e)
]

shifted :
    (u : TicketType) (old new : ℕ) (ts : List TicketType)
    → old ≤ u.remaining + new
    → Only u.id u ts
    → RowsHave u.id
        (λ x. x.remaining)
        (u.remaining + new - old)
        (update (can_shift u.id old new) (shift old new) ts)
unfolding update
shifted u old new [] room only = tt
shifted u old new (x ∷ ts) room only =
    (shifted_row u old new x room only.0, shifted u old new ts room only.1)

unshifted :
    (u : TicketType) (ts : List TicketType)
    → Only u.id u ts
    → RowsHave u.id (λ x. x.remaining) u.remaining ts
unshifted u ts only = All-mono ts (λ x same e. ap (λ (t : TicketType). t.remaining) (same e)) only

-- The write after the counter was moved, or not.
write_type-Shifted :
    (u : TicketType) (dto : UpdateTicketType) (old new left : ℕ) (s : Store)
    → dto.quantity ≡ some new
    → RowsHave u.id (λ x. x.remaining) left s.ticket_types
    → left + old ≡ u.remaining + new
    → Ends (write_type u.id dto s) (λ r _. Shifted u old new r)
unfolding write_type
write_type-Shifted u dto old new left s q rows moved =
    elim (Option-cases
      (find (λ x. x.id == u.id) (update (λ x. x.id == u.id) (edit_type dto) s.ticket_types))) [
        | inl missing ↦ rw missing tt
        | inr (r, found) ↦ rw found (
            let h = written dto u.id new left s.ticket_types r q rows found in
            record { quantity = h.0; remaining = omega (arith, h.1, moved) })
      ]

module _ (t u : TicketType) (dto : UpdateTicketType) (new : ℕ) (s : Store) (same : t.id ≡ u.id)
    (q : dto.quantity ≡ some new) (only : Only u.id u s.ticket_types) where
  moved :
      Ends
        (continue (shift_remaining u.id t.quantity new s) (λ _. write_type u.id dto))
        (λ r _. Shifted u t.quantity new r)
  unfolding shift_remaining
  moved = elim (Bool-cases (any (can_shift u.id t.quantity new) s.ticket_types)) [
    | inr short ↦ rw short tt
    | inl enough ↦
        let room = any-Only u.id t.quantity new u s.ticket_types only enough in
        rw enough (
          write_type-Shifted u dto t.quantity new (u.remaining + new - t.quantity) _ q
            (shifted u t.quantity new s.ticket_types room only) (omega (arith, room)))
  ]

  parts :
      is_ga t.kind ≡ true
      → Ends
          (continue
            (check_quantity t (some new) s)
            (λ _. move_remaining t (some new) >> write_type t.id dto))
          (λ r _. Shifted u t.quantity new r)
  unfolding check_quantity move_remaining
  parts kind =
      rw (kind, same)
        (require-Ends (leb (t.quantity - t.remaining) new) _ s _ _ λ _.
          elim (Bool-cases (new == t.quantity)) [
            | inl kept ↦ rw kept (
                write_type-Shifted u dto t.quantity new u.remaining s q
                  (unshifted u s.ticket_types only) (ground (arith, kept)))
            | inr other ↦ rw other moved
          ])

-- A capacity change that returned, made from a row of general admission `t` that was read before, on a
-- table whose row is now `u`, with ids that are distinct: if the remaining and the claimed tickets of
-- `u` made up its quantity, those of the row that results do exactly when no other transaction had
-- changed the quantity since the read.
pub apply_edit-balance :
    (t u r : TicketType) (dto : UpdateTicketType) (new claimed : ℕ) (s s' : Store)
    → Distinct s.ticket_types
    → find (λ x. x.id == t.id && x.event_id == t.event_id) s.ticket_types ≡ some u
    → is_ga t.kind ≡ true
    → dto.quantity ≡ some new
    → u.remaining + claimed ≡ u.quantity
    → apply_edit t dto s ≡ (ok r, s')
    → (r.remaining + claimed ≡ r.quantity) ↔ (u.quantity ≡ t.quantity)
unfolding apply_edit
apply_edit-balance t u r dto new claimed s s' types found kind q whole done =
    (λ h. omega (arith, p.quantity, p.remaining), λ h. omega (arith, p.quantity, p.remaining))
  where
    same : t.id ≡ u.id
    same = ground (arith, find_holds _ s.ticket_types u found)

    only : Only u.id u s.ticket_types
    only =
        subst (λ k. Only k u s.ticket_types) same
          (Only_of_found t.id t.event_id u s.ticket_types types found)

    p : Shifted u t.quantity new r
    p = Ends-at _ done (
        subst
          (λ o.
            Ends (continue (check_quantity t o s) (λ _. move_remaining t o >> write_type t.id dto))
              (λ r _. Shifted u t.quantity new r))
          (sym q) (parts t u dto new s same q only kind))
