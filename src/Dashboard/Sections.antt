-- ===== src/Dashboard/Sections.antt =====
-- The occupancy of the sections.
use openseat.Base.{
  ℕ, ◌+◌, ◌-◌, ◌≤◌, ◌≡◌, refl, ◌∙◌, inl, inr, Bool, true, false, List, [], ◌∷◌, map, if◌then◌else◌,
  ◌==◌, Bool-cases, select, count, sum_of, text_eq, All, length, pos, arith,
}
use openseat.Store.{Store, Text, Seat}
use openseat.Dashboard.{
  Entry, SectionOccupancy, add_to_section, section_map, to_occupancy, seat_is_sold, seat_is_held,
  sections_of,
}

-- The totals of a list of entries.
record Sums (es : List Entry) (capacity sold held : ℕ) : Type 0 where
  within : All (λ e. e.sold + e.held ≤ e.capacity) es
  capacity_sum : sum_of (λ e. e.capacity) es ≡ capacity
  sold_sum : sum_of (λ e. e.sold) es ≡ sold
  held_sum : sum_of (λ e. e.held) es ≡ held

abbrev one_if : Bool → ℕ
one_if b = if b then 1 else 0

abbrev held_if : Bool → Bool → ℕ
held_if is_sold is_held = if is_sold then 0 else if is_held then 1 else 0

Sums-add :
    (name : Text) (is_sold is_held : Bool) (es : List Entry) (capacity sold held : ℕ)
    → Sums es capacity sold held
    → Sums
        (add_to_section name is_sold is_held es)
        (capacity + 1)
        (sold + one_if is_sold)
        (held + held_if is_sold is_held)
unfolding add_to_section sum_of
Sums-add name is_sold is_held [] capacity sold held h = record {
  within = ground arith;
  capacity_sum = omega (arith, h.capacity_sum);
  sold_sum = omega (arith, h.sold_sum);
  held_sum = omega (arith, h.held_sum);
}
Sums-add name is_sold is_held (e ∷ es) capacity sold held h =
    elim (Bool-cases (text_eq e.name name)) [
      | inl here ↦ rw here (record {
        within = (ground (arith, h.within.0), h.within.1);
        capacity_sum = omega (arith, h.capacity_sum);
        sold_sum = omega (arith, h.sold_sum);
        held_sum = omega (arith, h.held_sum);
      })
      | inr other ↦
          let tail =
            Sums-add name is_sold is_held es (sum_of (λ e. e.capacity) es) (sum_of (λ e. e.sold) es)
              (sum_of (λ e. e.held) es)
              (record {
                within = h.within.1;
                capacity_sum = refl;
                sold_sum = refl;
                held_sum = refl;
              }) in
          rw other (record {
            within = (h.within.0, tail.within);
            capacity_sum = omega (arith, h.capacity_sum, tail.capacity_sum);
            sold_sum = omega (arith, h.sold_sum, tail.sold_sum);
            held_sum = omega (arith, h.held_sum, tail.held_sum);
          })
    ]

module _ (is_sold is_held : ℕ → Bool) (apart : (k : ℕ) → is_sold k ≡ true → is_held k ≡ false) where
  held_same : (k : ℕ) → held_if (is_sold k) (is_held k) ≡ one_if (is_held k)
  held_same k = elim (Bool-cases (is_sold k)) [
    | inl yes_sold ↦ rw (yes_sold, apart k yes_sold) refl
    | inr free ↦ rw free refl
  ]

  section_map-Sums :
      (seats : List Seat) (es : List Entry) (capacity sold held : ℕ)
      → Sums es capacity sold held
      → Sums
          (section_map is_sold is_held es seats)
          (capacity + length seats)
          (sold + count (λ x. is_sold x.id) seats)
          (held + count (λ x. is_held x.id) seats)
  unfolding section_map count
  section_map-Sums [] es capacity sold held h = record {
    within = h.within;
    capacity_sum = omega (arith, h.capacity_sum);
    sold_sum = omega (arith, h.sold_sum);
    held_sum = omega (arith, h.held_sum);
  }
  section_map-Sums (x ∷ seats) es capacity sold held h =
      let rest =
        section_map-Sums seats _ _ _ _
          (Sums-add x.section (is_sold x.id) (is_held x.id) es capacity sold held h) in
      record {
        within = rest.within;
        capacity_sum = omega (arith, rest.capacity_sum);
        sold_sum = omega (arith, rest.sold_sum);
        held_sum = omega (arith, rest.held_sum, held_same x.id);
      }

-- What holds of each section's row.
abbrev pub IsSplit : SectionOccupancy → Type 0
IsSplit x = (x.sold + x.held ≤ x.capacity) × (x.available ≡ pos (x.capacity - (x.sold + x.held)))

map-IsSplit :
    (es : List Entry)
    → All (λ e. e.sold + e.held ≤ e.capacity) es
    → All IsSplit (map to_occupancy es)
map-IsSplit [] h = tt
map-IsSplit (e ∷ es) h = ((h.0, ground (arith, h.0)), map-IsSplit es h.1)

map-sums :
    (f : Entry → ℕ) (g : SectionOccupancy → ℕ) (es : List Entry)
    → ((e : Entry) → g (to_occupancy e) ≡ f e)
    → sum_of g (map to_occupancy es) ≡ sum_of f es
unfolding sum_of
map-sums f g [] same = refl
map-sums f g (e ∷ es) same = omega (arith, same e, map-sums f g es same)

held_apart :
    (event_id now : ℕ) (s : Store) (k : ℕ)
    → seat_is_sold event_id s k ≡ true
    → seat_is_held event_id now s k ≡ false
held_apart event_id now s k sold = ground (arith, sold)

-- In each section of the dashboard the sold and the held seats are at most its capacity, and what is
-- available is the rest. Over all sections the capacities add up to the number of the event's seats,
-- the sold ones to its seats with a ticket that is not void, the held ones to its seats with a hold in
-- time and no such ticket.
pub sections_of-totals :
    (event_id now : ℕ) (s : Store)
    → let seats = select (λ (x : Seat). x.event_id == event_id) s.seats in
      All IsSplit (sections_of event_id now s)
      × (sum_of (λ x. x.capacity) (sections_of event_id now s) ≡ length seats)
      × (sum_of (λ x. x.sold) (sections_of event_id now s)
          ≡ count (λ x. seat_is_sold event_id s x.id) seats)
      × (sum_of (λ x. x.held) (sections_of event_id now s)
          ≡ count (λ x. seat_is_held event_id now s x.id) seats)
unfolding sections_of sum_of
sections_of-totals event_id now s = (
  map-IsSplit entries p.within,
  map-sums (λ e. e.capacity) (λ x. x.capacity) entries (λ e. refl) ∙ omega (arith, p.capacity_sum),
  map-sums (λ e. e.sold) (λ x. x.sold) entries (λ e. refl) ∙ omega (arith, p.sold_sum),
  map-sums (λ e. e.held) (λ x. x.held) entries (λ e. refl) ∙ omega (arith, p.held_sum),
)
  where
    entries : List Entry
    entries =
        section_map (seat_is_sold event_id s) (seat_is_held event_id now s) []
          (select (λ x. x.event_id == event_id) s.seats)

    p :
        Sums
          (section_map
            (seat_is_sold event_id s)
            (seat_is_held event_id now s)
            []
            (select (λ x. x.event_id == event_id) s.seats))
          (0 + length (select (λ (x : Seat). x.event_id == event_id) s.seats))
          (0
            + count
                (λ (x : Seat). seat_is_sold event_id s x.id)
                (select (λ x. x.event_id == event_id) s.seats))
          (0
            + count
                (λ (x : Seat). seat_is_held event_id now s x.id)
                (select (λ x. x.event_id == event_id) s.seats))
    p =
        section_map-Sums (seat_is_sold event_id s) (seat_is_held event_id now s)
          (held_apart event_id now s) (select (λ x. x.event_id == event_id) s.seats) [] 0 0 0
          (record { within = tt; capacity_sum = refl; sold_sum = refl; held_sum = refl })
