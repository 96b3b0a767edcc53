-- ===== src/Books.antt =====
-- The inventory of a ticket type, as the rows of three tables count it: what remains, what orders
-- that await payment have claimed (general admission only), and the tickets that are not void
-- (CONTEXT.md, "Claimed vs issued").
pub mod Types
pub mod Orders
pub mod Loops
pub mod Counts
pub mod Frame
pub mod Place
pub mod Release
pub mod Capture
pub mod Settle
pub mod Reclaim
use openseat.Base.{
  ℕ, ◌+◌, ◌<◌, ◌≡◌, ◌≢◌, Bool, true, false, not, ◌&&◌, List, [], ◌∷◌, ◌==◌, if◌then◌else◌, count,
  sum_of, All,
}
use openseat.Store.{Store, TicketType, Order, OrderItem, Ticket, Seat}
use openseat.Holds.{is_void}
use openseat.Inventory.{is_ga, is_ga_type}
use openseat.Orders.{is_awaiting}

abbrev pub qty_of : ℕ → OrderItem → ℕ
qty_of type_id i = if i.ticket_type_id == type_id then i.quantity else 0

-- The tickets of a type that an order has claimed and not paid.
abbrev pub claimed_in : ℕ → Order → ℕ
claimed_in type_id o = if is_awaiting o.status then sum_of (qty_of type_id) o.items else 0

abbrev pub is_live_of : ℕ → Ticket → Bool
is_live_of type_id t = t.ticket_type_id == type_id && not (is_void t.status)

abbrev pub only_if : Bool → ℕ → ℕ
only_if b n = if b then n else 0

-- "In checkout": claimed and not issued. Seated types claim nothing before payment.
abbrev pub in_checkout : Store → TicketType → ℕ
in_checkout s t = only_if (is_ga t.kind) (sum_of (claimed_in t.id) s.orders)

abbrev pub issued_of : Store → TicketType → ℕ
issued_of s t = count (is_live_of t.id) s.tickets

-- What a transaction has moved on one side only, for types of general admission and seated ones.
abbrev pub Offset : Type 0
Offset = Bool → ℕ → ℕ

abbrev pub zero_offset : Offset
zero_offset ga type_id = 0

abbrev pub RowBalanced : Offset → Offset → Store → TicketType → Type 0
RowBalanced d e s t =
    t.remaining + in_checkout s t + issued_of s t + d (is_ga t.kind) t.id
    ≡ t.quantity + e (is_ga t.kind) t.id

-- No two rows have one id.
abbrev pub Distinct : List TicketType → Type 0
Distinct [] = Unit
Distinct (t ∷ ts) = All (λ u. u.id ≢ t.id) ts × Distinct ts

-- The ids of the orders fall along the table, and stay under the next id.
abbrev pub Below : ℕ → List Order → Type 0
Below n [] = Unit
Below n (o ∷ os) = (o.id < n) × Below o.id os

abbrev pub IsSeated : List TicketType → ℕ → Type 0
IsSeated types type_id = is_ga_type types type_id ≡ false

-- The books balance up to two offsets.
pub record Books (d e : Offset) (s : Store) : Type 0 where
  pub types : Distinct s.ticket_types
  pub orders : Below s.next_id s.orders
  pub seats : All (λ x. IsSeated s.ticket_types x.ticket_type_id) s.seats
  pub rows : All (RowBalanced d e s) s.ticket_types
