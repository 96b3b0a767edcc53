-- ===== src/Dashboard/Tiers.antt =====
-- Claimed and issued tickets of a tier (CONTEXT.md, "Claimed vs issued").
use native.Mathlib.Nat.{div-lt_iff_lt-mul}
use openseat.Base.{
  ℕ, ◌+◌, ◌*◌, ◌/◌, ◌≤◌, ◌<◌, ◌≡◌, refl, ◌∙◌, inl, inr, false, ◌&&◌, List, [], ◌∷◌, map, ◌==◌, ltb,
  Bool-cases, count, select, All, All-zip, All-reverse, All-select, Bool, pos, arith,
}
use openseat.Store.{Store, TicketType, Ticket}
use openseat.Inventory.{is_ga}
use openseat.Events.{types_of}
use openseat.Books.{zero_offset, Books, RowBalanced, in_checkout, issued_of, is_live_of}
use openseat.Dashboard.Cards.{is_sold, get_or_zero}
use openseat.Dashboard.{issued_by_tier, tier_stat, sell_through_bp}
use openseat.Dashboard.Agreement.{get-counts_of, count-keys}

-- The tickets of the type are of the event, as the services issue them.
abbrev pub IsOf : ℕ → ℕ → List Ticket → Type 0
IsOf event_id k = All (λ t. t.ticket_type_id ≡ k → t.event_id ≡ event_id)

event_tickets :
    (event_id k : ℕ) (ts : List Ticket)
    → IsOf event_id k ts
    → count (λ t. t.ticket_type_id == k && (t.event_id == event_id && is_sold t)) ts
      ≡ count (is_live_of k) ts
unfolding count
event_tickets event_id k [] h = refl
event_tickets event_id k (t ∷ ts) h = elim (Bool-cases (t.ticket_type_id == k)) [
  | inl here ↦ ground (arith, here, h.0, event_tickets event_id k ts h.1)
  | inr other ↦ ground (arith, other, event_tickets event_id k ts h.1)
]

issued-eq :
    (event_id : ℕ) (s : Store) (t : TicketType)
    → IsOf event_id t.id s.tickets
    → (tier_stat event_id s t).issued ≡ issued_of s t
unfolding tier_stat issued_by_tier get_or_zero
issued-eq event_id s t h =
    get-counts_of t.id []
      (map (λ x. x.ticket_type_id) (select (λ x. x.event_id == event_id && is_sold x) s.tickets))
    ∙ omega (
      arith,
      count-keys t.id (λ x. x.ticket_type_id) (λ x. x.event_id == event_id && is_sold x) s.tickets,
      event_tickets event_id t.id s.tickets h,
    )

-- Where the books balance, and the tickets of the event's tiers are of the event, the claimed
-- tickets of each tier of the event are the issued ones and those in checkout: of a tier with
-- seats, none are in checkout.
pub tier_stat-claimed :
    (event_id : ℕ) (s : Store)
    → Books zero_offset zero_offset s
    → All (λ t. IsOf event_id t.id s.tickets) (types_of event_id s)
    → All
        (λ t.
          ((tier_stat event_id s t).claimed
            ≡ pos ((tier_stat event_id s t).issued + in_checkout s t))
          × (is_ga t.kind ≡ false
              → (tier_stat event_id s t).claimed ≡ pos (tier_stat event_id s t).issued))
        (types_of event_id s)
unfolding tier_stat types_of
tier_stat-claimed event_id s b of =
    All-zip (types_of event_id s) row
      (All-reverse (RowBalanced zero_offset zero_offset s) (select own s.ticket_types)
        (All-select (RowBalanced zero_offset zero_offset s) own s.ticket_types b.rows))
      of
  where
    own : TicketType → Bool
    own t = t.event_id == event_id

    row :
        (t : TicketType)
        → RowBalanced zero_offset zero_offset s t
        → IsOf event_id t.id s.tickets
        → ((tier_stat event_id s t).claimed
            ≡ pos ((tier_stat event_id s t).issued + in_checkout s t))
          × (is_ga t.kind ≡ false
              → (tier_stat event_id s t).claimed ≡ pos (tier_stat event_id s t).issued)
    row t balanced h =
        let e = issued-eq event_id s t h in
        (ground (arith, balanced, e), λ seats. ground (arith, balanced, e, seats))

-- The sell-through is at most 100 % where no more tickets are sold than there is capacity.
pub sell_through_bp-le :
    (sold capacity : ℕ) → sold ≤ capacity → sell_through_bp sold capacity ≤ 10000
unfolding sell_through_bp
sell_through_bp-le sold capacity h = elim (Bool-cases (ltb 0 capacity)) [
  | inr empty ↦ rw empty (omega arith)
  | inl seats ↦
      let some_capacity : 0 < 2 * capacity = ground arith in
      let below : (2 * (sold * 10000) + capacity) / (2 * capacity) < 10001 =
        (div-lt_iff_lt-mul some_capacity).1 (omega arith) in
      rw seats (omega (arith, below))
]
