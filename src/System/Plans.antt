-- ===== src/System/Plans.antt =====
-- What the checks of the two `create` methods establish of the plan that they hand over.
use openseat.Base.{
  ℕ, ◌≡◌, refl, ◌∙◌, ◌≢◌, inl, inr, Bool, true, ◌&&◌, List, [], ◌∷◌, map, none, some, ◌==◌, ==_iff,
  leb, Bool-cases, Option-cases, any, find, select, sum_of, length, All, arith,
}
use openseat.Store.{Store, TicketType, Seat, Order}
use openseat.Store.Action.{
  Reads, continue-Reads, Reads-mono, bad_request, read, require, ◌>>=◌, ◌>>◌,
}
use openseat.Inventory.{is_ga, find_type, is_ga_type}
use openseat.Holds.{is_published}
use openseat.Orders.Plan.{
  ItemInput, Request, check_item, check_items, event_types, find_seats, priced, plan_of, validate,
}
use openseat.Books.{zero_offset, Books, Distinct, IsSeated}
use openseat.Books.Counts.{seat_groups-sum}
use openseat.Books.Place.{IsPlan}
use openseat.Books.Reclaim
use openseat.Orders.{is_refundable}
use openseat.Refunds.Create as RefundCreate

All-select :
    {A : Type 0} (P : A → Type 0) (p : A → Bool) (xs : List A) → All P xs → All P (select p xs)
unfolding select
All-select P p [] h = tt
All-select P p (x ∷ xs) h = elim (Bool-cases (p x)) [
  | inl kept ↦ rw kept (h.0, All-select P p xs h.1)
  | inr dropped ↦ rw dropped (All-select P p xs h.1)
]

find_absent :
    (k : ℕ) (p : TicketType → Bool) (ts : List TicketType)
    → All (λ u. u.id ≢ k) ts
    → find_type k (select p ts) ≡ none
unfolding find_type find select
find_absent k p [] h = refl
find_absent k p (t ∷ ts) h = ground (arith, find_absent k p ts h.1, h.0)

-- A type found among some of the rows has the kind that a look-up in all of them finds.
kind_of_found :
    (k : ℕ) (p : TicketType → Bool) (ts : List TicketType) (t : TicketType)
    → Distinct ts
    → find_type k (select p ts) ≡ some t
    → is_ga_type ts k ≡ is_ga t.kind
unfolding find_type is_ga_type find select
kind_of_found k p [] t d found = cc
kind_of_found k p (x ∷ ts) t d found = elim (Bool-cases (x.id == k)) [
  | inl here ↦ ground (arith, find_absent x.id p ts d.0)
  | inr other ↦ ground (arith, kind_of_found k p ts t d.1)
]

-- The type of an item that passed its check.
abbrev HasGaType : List TicketType → ℕ → Type 0
HasGaType types k = (t : TicketType) × (find_type k types ≡ some t) × (is_ga t.kind ≡ true)

check_item-Reads :
    (types : List TicketType) (seen : List ℕ) (i : ItemInput) (s : Store)
    → Reads s (check_item types seen i s) (λ _. HasGaType types i.ticket_type_id)
unfolding check_item
check_item-Reads types seen i s = elim (Option-cases (find_type i.ticket_type_id types)) [
  | inl missing ↦ rw missing refl
  | inr (t, found) ↦ rw found (elim (Bool-cases (is_ga t.kind)) [
    | inr seated ↦ rw seated refl
    | inl ga ↦ rw ga (elim (Bool-cases (any (λ x. x == i.ticket_type_id) seen)) [
      | inl twice ↦ rw twice refl
      | inr once ↦ rw once (elim (Bool-cases (leb i.quantity t.max_per_order)) [
        | inr many ↦ rw many refl
        | inl few ↦ rw few (refl, (t, refl, ga))
      ])
    ])
  ])
]

check_items-Reads :
    (types : List TicketType) (seen : List ℕ) (items : List ItemInput) (s : Store)
    → Reads s
        (check_items types seen items s)
        (λ _. All (λ i. HasGaType types i.ticket_type_id) items)
unfolding check_items
check_items-Reads types seen [] s = (refl, tt)
check_items-Reads types seen (i ∷ items) s =
    continue-Reads _ s (check_item types seen i s) _ _ (check_item-Reads types seen i s) λ _ ga.
      Reads-mono _ _ s (check_items types (i.ticket_type_id ∷ seen) items s) (λ _ gas. (ga, gas))
        (check_items-Reads types (i.ticket_type_id ∷ seen) items s)

find_no_seats : (e : ℕ) (s : Store) → find_seats e [] s ≡ []
unfolding find_seats select any
find_no_seats e s = none_chosen s.seats
  where
    none_chosen :
        (xs : List Seat) → select (λ x. any (λ i. i == x.id) [] && x.event_id == e) xs ≡ []
    none_chosen [] = refl
    none_chosen (x ∷ xs) = none_chosen xs

plan_of-IsPlan :
    (now : ℕ) (r : Request) (seat_ids : List ℕ) (s : Store)
    → Books zero_offset zero_offset s
    → All (λ i. HasGaType (event_types r.event_id s) i.ticket_type_id) r.items
    → IsPlan s (plan_of now r seat_ids s)
unfolding plan_of priced find_seats sum_of
plan_of-IsPlan now r seat_ids s b gas = record {
  items = items_ga r.items gas;
  seats = All-select (λ x. IsSeated s.ticket_types x.ticket_type_id) _ s.seats b.seats;
  groups =
      λ k. omega (arith, seat_groups-sum k s.ticket_types [] (find_seats r.event_id seat_ids s));
  chosen = λ e. rw e (find_no_seats r.event_id s);
}
  where
    items_ga :
        (items : List ItemInput)
        → All (λ i. HasGaType (event_types r.event_id s) i.ticket_type_id) items
        → All
            (λ i. is_ga_type s.ticket_types i.ticket_type_id ≡ true)
            (map (priced (event_types r.event_id s)) items)
    items_ga [] h = tt
    items_ga (i ∷ items) ((t, found, ga), h) =
        (kind_of_found i.ticket_type_id _ s.ticket_types t b.types found ∙ ga, items_ga items h)

-- The checks of `OrdersService.create` change nothing, and hand over a plan that fits the store.
pub validate-Reads :
    (now : ℕ) (r : Request) (seat_ids : List ℕ) (s : Store)
    → Books zero_offset zero_offset s
    → Reads s (validate now r seat_ids s) (IsPlan s)
unfolding validate
validate-Reads now r seat_ids s b =
    elim (Bool-cases (any (λ e. e.id == r.event_id && is_published e.status) s.events)) [
      | inr draft ↦ rw draft refl
      | inl published ↦ rw published (
          continue-Reads _ s (check_items (event_types r.event_id s) [] r.items s) _ _
            (check_items-Reads (event_types r.event_id s) [] r.items s) known_seats)
    ]
  where
    known_seats :
        (u : Unit {0})
        → All (λ i. HasGaType (event_types r.event_id s) i.ticket_type_id) r.items
        → Reads s
            ((do
              seats ← read (find_seats r.event_id seat_ids)
              require (length seats == length seat_ids) (bad_request "Unknown seat for this event")
              read (plan_of now r seat_ids))
              s)
            (IsPlan s)
    known_seats _ gas =
        elim (Bool-cases (length (find_seats r.event_id seat_ids s) == length seat_ids)) [
          | inr unknown ↦ rw unknown refl
          | inl known ↦ rw known (refl, plan_of-IsPlan now r seat_ids s b gas)
        ]

-- So do the checks of `RefundsService.create`.
pub refund_validate-Reads :
    (r : RefundCreate.Request) (s : Store)
    → Reads s (RefundCreate.validate r s) (λ x. Reclaim.IsPlan s x.0)
unfolding RefundCreate.validate
refund_validate-Reads r s = elim (Option-cases (find is_named s.orders)) [
  | inl missing ↦ rw missing refl
  | inr (o, found) ↦ rw found (elim (Bool-cases (is_refundable o.status)) [
    | inr closed ↦ rw closed refl
    | inl refundable ↦
        rw refundable
          (elim (Bool-cases (
            length (select (RefundCreate.is_chosen r.ticket_ids r.order_id) s.tickets)
            == length r.ticket_ids)) [
              | inr unknown ↦ rw unknown refl
              | inl known ↦
                  rw known (refl, record { types = refl; all_chosen = (==_iff _ _).0 known })
            ])
  ])
]
  where
    is_named : Order → Bool
    is_named o = o.id == r.order_id && o.event_id == r.event_id
