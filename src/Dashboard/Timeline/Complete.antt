-- ===== src/Dashboard/Timeline/Complete.antt =====
-- The orders and tickets of the last days, and the window of the timeline.
use openseat.Base.{
  ℕ, ◌+◌, ◌-◌, ◌*◌, ◌/◌, ◌≤◌, ◌<◌, ◌≡◌, refl, inl, inr, Option, none, some, List, [], ◌∷◌, map,
  if◌then◌else◌, ltb, Bool-cases, Option-cases, All, All-mono, All-zip, arith,
}
use openseat.Dashboard.Timeline.{
  OrderStamp, day_ms, start_of_day, max_timeline_days, earliest_created_at, or_created,
  timeline_start,
}

earliest-le :
    (rows : List ℕ) (current : Option ℕ) (e : ℕ)
    → earliest_created_at rows current ≡ some e
    → All (λ t. e ≤ t) rows × ((c : ℕ) → current ≡ some c → e ≤ c)
unfolding earliest_created_at
earliest-le [] current e found = (tt, λ c same. ground (arith, same, found))
earliest-le (t ∷ rows) none e found =
    let h = earliest-le rows (some t) e found in ((h.1 t refl, h.0), λ c same. ground (arith, same))
earliest-le (t ∷ rows) (some c) e found =
    let h = earliest-le rows (some (if ltb t c then t else c)) e found in
    let least : e ≤ (if ltb t c then t else c) = h.1 _ refl in
    ((ground (arith, least), h.0), λ d same. ground (arith, same, least))

-- A time in the window of the timeline's queries.
abbrev pub InWindow : ℕ → ℕ → Type 0
InWindow now t = (start_of_day now ≤ t + max_timeline_days * day_ms) × (t ≤ now)

-- The first day is a day's start, at most 45 days before the last, and not after a stamp of the window.
pub record Start (now : ℕ) (orders : List OrderStamp) (tickets : List ℕ) (start : ℕ) : Type 0 where
  pub first : ℕ
  pub aligned : start ≡ first * day_ms
  pub recent : start_of_day now < (first + 46) * day_ms
  pub orders_in : All (λ o. (start ≤ start_of_day o.created_at) × (o.created_at ≤ now)) orders
  pub tickets_in : All (λ t. (start ≤ start_of_day t) × (t ≤ now)) tickets

map-All :
    (e : ℕ) (os : List OrderStamp)
    → All (λ t. e ≤ t) (map (λ o. o.created_at) os)
    → All (λ o. e ≤ o.created_at) os
map-All e [] h = tt
map-All e (o ∷ os) h = (h.0, map-All e os h.1)

earliest-none :
    (rows : List ℕ) (current : Option ℕ)
    → earliest_created_at rows current ≡ none
    → (current ≡ none) × All (λ t. ⊥) rows
unfolding earliest_created_at
earliest-none [] current e = (e, tt)
earliest-none (t ∷ rows) none e = absurd (ground (arith, (earliest-none rows (some t) e).0))
earliest-none (t ∷ rows) (some c) e =
    absurd (ground (arith, (earliest-none rows (some (if ltb t c then t else c)) e).0))

-- The time from which the timeline starts is not after a stamp.
earliest_of : ℕ → List OrderStamp → List ℕ → ℕ
earliest_of event_created_at orders tickets =
    or_created event_created_at
      (earliest_created_at tickets (earliest_created_at (map (λ o. o.created_at) orders) none))

earliest_of-orders :
    (ev : ℕ) (orders : List OrderStamp) (tickets : List ℕ)
    → All (λ o. earliest_of ev orders tickets ≤ o.created_at) orders
unfolding earliest_of
earliest_of-orders ev orders tickets =
    map-All _ orders (elim (Option-cases (earliest_created_at times none)) [
      | inl missing ↦ All-mono times (λ t h. absurd h) (earliest-none times none missing).1
      | inr (c, first) ↦
          elim (Option-cases (earliest_created_at tickets (earliest_created_at times none))) [
            | inl missing ↦ absurd (
                ground (
                  arith,
                  first,
                  (earliest-none tickets (earliest_created_at times none) missing).0,
                ))
            | inr (e, found) ↦
                let le : e ≤ c =
                  (earliest-le tickets (earliest_created_at times none) e found).1 c first in
                rw found (All-mono times (λ t h. omega arith) (earliest-le times none c first).0)
          ]
    ])
  where
    times : List ℕ
    times = map (λ o. o.created_at) orders

earliest_of-tickets :
    (ev : ℕ) (orders : List OrderStamp) (tickets : List ℕ)
    → All (λ t. earliest_of ev orders tickets ≤ t) tickets
unfolding earliest_of
earliest_of-tickets ev orders tickets = elim (Option-cases (earliest_created_at tickets before)) [
  | inl missing ↦ All-mono tickets (λ t h. absurd h) (earliest-none tickets before missing).1
  | inr (e, found) ↦ rw found (earliest-le tickets before e found).0
]
  where
    before : Option ℕ
    before = earliest_created_at (map (λ o. o.created_at) orders) none

Start-from :
    (b now : ℕ) (orders : List OrderStamp) (tickets : List ℕ)
    → All (λ o. b ≤ o.created_at) orders
    → All (λ t. b ≤ t) tickets
    → All (λ o. InWindow now o.created_at) orders
    → All (InWindow now) tickets
    → Start now orders tickets (
        if ltb max_timeline_days ((start_of_day now - start_of_day b) / day_ms)
        then start_of_day now - max_timeline_days * day_ms
        else start_of_day b)
Start-from b now orders tickets os ts wos wts =
    elim (Bool-cases (ltb max_timeline_days ((start_of_day now - start_of_day b) / day_ms))) [
      | inl old ↦
          let deep : max_timeline_days < now / day_ms = ground arith in
          rw old (record {
            first = now / day_ms - max_timeline_days;
            aligned = omega arith;
            recent = omega arith;
            orders_in = All-mono orders (λ o h. (omega arith, h.1)) wos;
            tickets_in = All-mono tickets (λ t h. (omega arith, h.1)) wts;
          })
      | inr young ↦
          let near : (start_of_day now - start_of_day b) / day_ms ≤ max_timeline_days =
            ground arith in
          rw young (record {
            first = b / day_ms;
            aligned = refl;
            recent = omega arith;
            orders_in = All-zip orders (λ o le h. (omega arith, h.1)) os wos;
            tickets_in = All-zip tickets (λ t le h. (omega arith, h.1)) ts wts;
          })
    ]

-- The first day of the timeline, for orders and tickets of its window.
pub timeline_start-Start :
    (ev now : ℕ) (orders : List OrderStamp) (tickets : List ℕ)
    → All (λ o. InWindow now o.created_at) orders
    → All (InWindow now) tickets
    → Start now orders tickets (timeline_start ev now orders tickets)
unfolding timeline_start earliest_of
timeline_start-Start ev now orders tickets =
    Start-from (earliest_of ev orders tickets) now orders tickets
      (earliest_of-orders ev orders tickets) (earliest_of-tickets ev orders tickets)
