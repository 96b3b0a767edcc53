-- ===== src/Orders/Totals.antt =====
-- The total of an order and the items that it stores.
use openseat.Base.{
  ℕ, ◌+◌, ◌*◌, ◌≡◌, refl, List, [], ◌∷◌, ◌++◌, map, ◌==◌, sum_of, sum_of-append, All, arith, inl,
  inr, Bool-cases, ==_iff, ap, ◌∙◌,
}
use openseat.Store.{Store, TicketType, OrderItem, Seat}
use openseat.Inventory.{price_of}
use openseat.Orders.Plan.{
  Request, add_seat, seat_groups, total_of, plan_of, find_seats, priced, event_types,
}

abbrev pub amount : OrderItem → ℕ
amount i = i.quantity * i.unit_price_satang

-- A group's price is the price of its type.
abbrev IsPriced : List TicketType → OrderItem → Type 0
IsPriced types g = g.unit_price_satang ≡ price_of types g.ticket_type_id

add_seat-sum :
    (types : List TicketType) (k : ℕ) (gs : List OrderItem)
    → All (IsPriced types) gs
    → sum_of amount (add_seat k (price_of types k) gs) ≡ sum_of amount gs + price_of types k
unfolding add_seat sum_of
add_seat-sum types k [] h = omega arith
add_seat-sum types k (g ∷ gs) h = elim (Bool-cases (g.ticket_type_id == k)) [
  | inr other ↦ rw other (omega (arith, add_seat-sum types k gs h.1))
  | inl same ↦
      let one_more : (g.quantity + 1) * g.unit_price_satang
          ≡ g.quantity * g.unit_price_satang + g.unit_price_satang =
        omega arith in
      let price : g.unit_price_satang ≡ price_of types k =
        h.0 ∙ ap (price_of types) ((==_iff _ _).0 same) in
      rw same (omega (arith, one_more, price))
]

add_seat-IsPriced :
    (types : List TicketType) (k : ℕ) (gs : List OrderItem)
    → All (IsPriced types) gs
    → All (IsPriced types) (add_seat k (price_of types k) gs)
unfolding add_seat
add_seat-IsPriced types k [] h = (refl, tt)
add_seat-IsPriced types k (g ∷ gs) h = elim (Bool-cases (g.ticket_type_id == k)) [
  | inr other ↦ rw other (h.0, add_seat-IsPriced types k gs h.1)
  | inl same ↦ rw same h
]

seat_groups-total :
    (types : List TicketType) (gs : List OrderItem) (seats : List Seat)
    → All (IsPriced types) gs
    → sum_of amount (seat_groups types gs seats)
      ≡ sum_of amount gs + sum_of (λ x. price_of types x.ticket_type_id) seats
unfolding seat_groups sum_of
seat_groups-total types gs [] h = omega arith
seat_groups-total types gs (x ∷ xs) h = omega (
  arith,
  seat_groups-total types (add_seat x.ticket_type_id (price_of types x.ticket_type_id) gs) xs
      (add_seat-IsPriced types x.ticket_type_id gs h),
  add_seat-sum types x.ticket_type_id gs h,
)

-- The total of a new order is the sum of quantity times unit price over the items it stores, those of
-- general admission and the groups of seats.
pub plan_of-total :
    (now : ℕ) (r : Request) (seat_ids : List ℕ) (s : Store)
    → (plan_of now r seat_ids s).total_satang
      ≡ sum_of amount ((plan_of now r seat_ids s).ga_items ++ (plan_of now r seat_ids s).groups)
unfolding plan_of total_of sum_of
plan_of-total now r seat_ids s =
    let seats : List Seat = find_seats r.event_id seat_ids s in
    let items : List OrderItem = map (priced (event_types r.event_id s)) r.items in
    omega (
      arith,
      sum_of-append amount items (seat_groups s.ticket_types [] seats),
      seat_groups-total s.ticket_types [] seats tt,
    )
