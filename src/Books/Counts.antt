-- ===== src/Books/Counts.antt =====
-- How many tickets of a type the loops, groups and drafts stand for.
use openseat.Base.{
  ℕ, zero, suc, ◌+◌, ◌≡◌, refl, Bool, true, false, List, [], ◌∷◌, ◌++◌, map, none, ◌==◌,
  if◌then◌else◌, count, select, sum_of, sum_of-append, replicate, arith,
}
use openseat.Store.{TicketType, OrderItem, Seat}
use openseat.Inventory.{is_ga_type, price_of, Draft, ga_drafts, seat_drafts, add_count, counts_of}
use openseat.Orders.Plan.{add_seat, seat_groups}
use openseat.Books.{qty_of, only_if}
use openseat.Books.Loops.{at_type}

-- One draft of the type.
abbrev pub draft_of : ℕ → Draft → ℕ
draft_of k x = if x.0 == k then 1 else 0

add_count-sum :
    (k j : ℕ) (m : List (ℕ × ℕ))
    → sum_of (at_type k) (add_count j m) ≡ sum_of (at_type k) m + (if j == k then 1 else 0)
unfolding add_count sum_of
add_count-sum k j [] = ground arith
add_count-sum k j ((i, n) ∷ m) = ground (arith, add_count-sum k j m)

-- A `Map` of counts holds each type as often as the list.
pub counts_of-sum :
    (k : ℕ) (m : List (ℕ × ℕ)) (ks : List ℕ)
    → sum_of (at_type k) (counts_of m ks) ≡ sum_of (at_type k) m + count (λ j. j == k) ks
unfolding counts_of count
counts_of-sum k m [] = omega arith
counts_of-sum k m (j ∷ ks) = omega (arith, counts_of-sum k (add_count j m) ks, add_count-sum k j m)

replicate_drafts :
    (k : ℕ) (n : ℕ) (x : Draft) → sum_of (draft_of k) (replicate n x) ≡ (if x.0 == k then n else 0)
unfolding sum_of
replicate_drafts k zero x = ground arith
replicate_drafts k (suc n) x = ground (arith, replicate_drafts k n x)

pub ga_drafts-sum :
    (k : ℕ) (items : List OrderItem)
    → sum_of (draft_of k) (ga_drafts items) ≡ sum_of (qty_of k) items
unfolding ga_drafts sum_of
ga_drafts-sum k [] = refl
ga_drafts-sum k (i ∷ items) = omega (
  arith,
  sum_of-append (draft_of k) (replicate i.quantity (i.ticket_type_id, none)) (ga_drafts items),
  replicate_drafts k i.quantity (i.ticket_type_id, none),
  ga_drafts-sum k items,
)

abbrev pub seats_of : ℕ → List Seat → ℕ
seats_of k seats = count (λ j. j == k) (map (λ x. x.ticket_type_id) seats)

pub seat_drafts-sum :
    (k : ℕ) (seats : List Seat) → sum_of (draft_of k) (seat_drafts seats) ≡ seats_of k seats
unfolding seat_drafts sum_of count
seat_drafts-sum k [] = refl
seat_drafts-sum k (x ∷ seats) = omega (arith, seat_drafts-sum k seats)

-- The tickets that an order issues, by type.
pub drafts-sum :
    (k : ℕ) (items : List OrderItem) (seats : List Seat)
    → sum_of (draft_of k) (ga_drafts items ++ seat_drafts seats)
      ≡ sum_of (qty_of k) items + seats_of k seats
drafts-sum k items seats = omega (
  arith,
  sum_of-append (draft_of k) (ga_drafts items) (seat_drafts seats),
  ga_drafts-sum k items,
  seat_drafts-sum k seats,
)

add_seat-sum :
    (k j price : ℕ) (gs : List OrderItem)
    → sum_of (qty_of k) (add_seat j price gs) ≡ sum_of (qty_of k) gs + (if j == k then 1 else 0)
unfolding add_seat sum_of
add_seat-sum k j price [] = ground arith
add_seat-sum k j price (g ∷ gs) = ground (arith, add_seat-sum k j price gs)

-- The groups of an order hold each type as often as its seats.
pub seat_groups-sum :
    (k : ℕ) (types : List TicketType) (gs : List OrderItem) (seats : List Seat)
    → sum_of (qty_of k) (seat_groups types gs seats) ≡ sum_of (qty_of k) gs + seats_of k seats
unfolding seat_groups count
seat_groups-sum k types gs [] = omega arith
seat_groups-sum k types gs (x ∷ seats) = omega (
  arith,
  add_seat-sum k x.ticket_type_id (price_of types x.ticket_type_id) gs,
  seat_groups-sum k types (add_seat x.ticket_type_id (price_of types x.ticket_type_id) gs) seats,
)

-- The items of general admission hold, for such a type, all that the order's items hold.
pub select-sum :
    (ga : Bool) (k : ℕ) (types : List TicketType) (items : List OrderItem)
    → is_ga_type types k ≡ ga
    → sum_of (qty_of k) (select (λ i. is_ga_type types i.ticket_type_id) items)
      ≡ only_if ga (sum_of (qty_of k) items)
unfolding select sum_of
select-sum true k types [] kind = refl
select-sum false k types [] kind = refl
select-sum true k types (i ∷ items) kind = ground (arith, select-sum true k types items kind, kind)
select-sum false k types (i ∷ items) kind =
    ground (arith, select-sum false k types items kind, kind)

pub only_if-sum :
    (ga : Bool) (k : ℕ) (items : List OrderItem)
    → sum_of (λ i. only_if ga (qty_of k i)) items ≡ only_if ga (sum_of (qty_of k) items)
unfolding sum_of
only_if-sum true k [] = refl
only_if-sum false k [] = refl
only_if-sum true k (i ∷ items) = omega (arith, only_if-sum true k items)
only_if-sum false k (i ∷ items) = omega (arith, only_if-sum false k items)
