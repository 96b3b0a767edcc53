-- ===== src/Dashboard/Timeline/Totals.antt =====
-- The sums over the buckets of the timeline.
use openseat.Base.{
  ℕ, ◌+◌, ◌*◌, ◌/◌, ◌≤◌, ◌≡◌, refl, ◌∙◌, inl, inr, Bool, some, List, [], ◌∷◌, Bool-cases, count,
  update, sum_of, All, All-mono, length, subst, arith,
}
use openseat.Dashboard.Timeline.{
  TimelineBucket, OrderStamp, day_ms, start_of_day, is_day, count_order, count_ticket, add_orders,
  add_tickets, timeline_start, build_timeline,
}
use openseat.Dashboard.Timeline.Days.{IsRange, Made, buckets_from-Made}
use openseat.Dashboard.Timeline.Complete.{Start, InWindow, timeline_start-Start}

module _ (f : TimelineBucket → ℕ) (p : TimelineBucket → Bool) (g : TimelineBucket → TimelineBucket)
    (n : ℕ) (adds : (b : TimelineBucket) → f (g b) ≡ f b + n) where
  sum-update_none :
      (bs : List TimelineBucket) → count p bs ≡ 0 → sum_of f (update p g bs) ≡ sum_of f bs
  unfolding sum_of update count
  sum-update_none [] h = refl
  sum-update_none (b ∷ bs) h = ground (arith, sum-update_none bs, h)

  -- A change of one row by `n` changes the sum by `n`.
  sum-update :
      (bs : List TimelineBucket) → count p bs ≡ 1 → sum_of f (update p g bs) ≡ sum_of f bs + n
  unfolding sum_of update count
  sum-update [] h = ground (arith, h)
  sum-update (b ∷ bs) h = elim (Bool-cases (p b)) [
    | inl hit ↦
        let rest : count p bs ≡ 0 = ground (arith, hit, h) in
        rw hit (omega (arith, adds b, sum-update_none bs rest))
    | inr miss ↦
        let rest : count p bs ≡ 1 = ground (arith, miss, h) in
        rw miss (omega (arith, sum-update bs rest))
  ]

-- What no change of a bucket's counters moves.
count-update :
    (q p : TimelineBucket → Bool) (g : TimelineBucket → TimelineBucket)
    → ((b : TimelineBucket) → q (g b) ≡ q b)
    → (bs : List TimelineBucket) → count q (update p g bs) ≡ count q bs
unfolding count update
count-update q p g blind [] = refl
count-update q p g blind (b ∷ bs) = ground (arith, blind b, count-update q p g blind bs)

length-update :
    (p : TimelineBucket → Bool) (g : TimelineBucket → TimelineBucket) (bs : List TimelineBucket)
    → length (update p g bs) ≡ length bs
unfolding update
length-update p g [] = refl
length-update p g (b ∷ bs) = omega (arith, length-update p g bs)

abbrev Covers : List TimelineBucket → ℕ → Type 0
Covers bs t = count (is_day t) bs ≡ 1

-- The totals of a list of buckets, and those of another with more in them.
record Adds (bs cs : List TimelineBucket) (orders tickets gross : ℕ) : Type 0 where
  size : length cs ≡ length bs
  orders_sum : sum_of (λ b. b.orders) cs ≡ sum_of (λ b. b.orders) bs + orders
  tickets_sum : sum_of (λ b. b.tickets_sold) cs ≡ sum_of (λ b. b.tickets_sold) bs + tickets
  gross_sum : sum_of (λ b. b.gross_satang) cs ≡ sum_of (λ b. b.gross_satang) bs + gross
  days : (t : ℕ) → count (is_day t) cs ≡ count (is_day t) bs

Adds-order :
    (o : OrderStamp) (bs : List TimelineBucket)
    → Covers bs o.created_at
    → Adds bs (update (is_day o.created_at) (count_order o.total_satang) bs) 1 0 o.total_satang
Adds-order o bs one = record {
  size = length-update _ _ bs;
  orders_sum = sum-update _ _ _ 1 (λ b. refl) bs one;
  tickets_sum = sum-update _ _ _ 0 (λ b. omega arith) bs one;
  gross_sum = sum-update _ _ _ o.total_satang (λ b. refl) bs one;
  days = λ t. count-update (is_day t) _ _ (λ b. refl) bs;
}

Adds-ticket :
    (t : ℕ) (bs : List TimelineBucket)
    → Covers bs t
    → Adds bs (update (is_day t) count_ticket bs) 0 1 0
Adds-ticket t bs one = record {
  size = length-update _ _ bs;
  orders_sum = sum-update _ _ _ 0 (λ b. omega arith) bs one;
  tickets_sum = sum-update _ _ _ 1 (λ b. refl) bs one;
  gross_sum = sum-update _ _ _ 0 (λ b. omega arith) bs one;
  days = λ t. count-update (is_day t) _ _ (λ b. refl) bs;
}

Adds-trans :
    (bs cs ds : List TimelineBucket) (o t g o' t' g' o'' t'' g'' : ℕ)
    → o + o' ≡ o''
    → t + t' ≡ t''
    → g + g' ≡ g''
    → Adds bs cs o t g
    → Adds cs ds o' t' g'
    → Adds bs ds o'' t'' g''
Adds-trans bs cs ds o t g o' t' g' o'' t'' g'' eo et eg a b = record {
  size = b.size ∙ a.size;
  orders_sum = omega (arith, a.orders_sum, b.orders_sum, eo);
  tickets_sum = omega (arith, a.tickets_sum, b.tickets_sum, et);
  gross_sum = omega (arith, a.gross_sum, b.gross_sum, eg);
  days = λ t. b.days t ∙ a.days t;
}

add_orders-Adds :
    (os : List OrderStamp) (bs : List TimelineBucket)
    → All (λ o. Covers bs o.created_at) os
    → Adds bs (add_orders os bs) (length os) 0 (sum_of (λ o. o.total_satang) os)
unfolding add_orders sum_of
add_orders-Adds [] bs h = record {
  size = refl;
  orders_sum = omega arith;
  tickets_sum = omega arith;
  gross_sum = omega arith;
  days = λ t. refl;
}
add_orders-Adds (o ∷ os) bs h =
    let one = Adds-order o bs h.0 in
    Adds-trans bs (update (is_day o.created_at) (count_order o.total_satang) bs) _ 1 0
      o.total_satang (length os) 0 (sum_of (λ o. o.total_satang) os) _ _ _ (omega arith) refl refl
      one (add_orders-Adds os _ (All-mono os (λ x c. one.days x.created_at ∙ c) h.1))

add_tickets-Adds :
    (ts : List ℕ) (bs : List TimelineBucket)
    → All (Covers bs) ts
    → Adds bs (add_tickets ts bs) 0 (length ts) 0
unfolding add_tickets
add_tickets-Adds [] bs h = record {
  size = refl;
  orders_sum = omega arith;
  tickets_sum = omega arith;
  gross_sum = omega arith;
  days = λ t. refl;
}
add_tickets-Adds (t ∷ ts) bs h =
    let one = Adds-ticket t bs h.0 in
    Adds-trans bs (update (is_day t) count_ticket bs) _ 0 1 0 0 (length ts) 0 _ _ _ refl
      (omega arith) refl one (add_tickets-Adds ts _ (All-mono ts (λ x c. one.days x ∙ c) h.1))

empty-sum :
    (f : TimelineBucket → ℕ) (bs : List TimelineBucket) → All (λ b. f b ≡ 0) bs → sum_of f bs ≡ 0
unfolding sum_of
empty-sum f [] h = refl
empty-sum f (b ∷ bs) h = omega (arith, h.0, empty-sum f bs h.1)

-- A time in the days of a range is in one bucket.
covers :
    (first end t : ℕ) (bs : List TimelineBucket)
    → IsRange (first * day_ms) end bs
    → first * day_ms ≤ start_of_day t
    → start_of_day t ≤ end
    → Covers bs t
covers first end t bs r low high = r.one (t / day_ms) low high

-- For the orders and tickets that the dashboard's queries give it, created at most 45 days before today
-- and not after now, the timeline is built within 47 rounds of its loop, has at most 46 buckets, and
-- its buckets add up to the number of the orders, their totals and the number of the tickets.
pub build_timeline-totals :
    (event_created_at now : ℕ) (orders : List OrderStamp) (tickets : List ℕ)
    → All (λ o. InWindow now o.created_at) orders
    → All (InWindow now) tickets
    → (bs : List TimelineBucket) × (build_timeline 47 event_created_at now orders tickets ≡ some bs)
      × (length bs ≤ 46)
      × (sum_of (λ b. b.orders) bs ≡ length orders)
      × (sum_of (λ b. b.gross_satang) bs ≡ sum_of (λ o. o.total_satang) orders)
      × (sum_of (λ b. b.tickets_sold) bs ≡ length tickets)
unfolding build_timeline
build_timeline-totals ev now orders tickets wos wts = (
  add_tickets tickets (add_orders orders m.bs),
  rw (start.aligned, m.made) refl,
  omega (arith, a.size, b.size, m.few),
  omega (
    arith,
    a.orders_sum,
    b.orders_sum,
    empty-sum (λ b. b.orders) m.bs (All-mono m.bs (λ b h. h.0) m.range.empty),
  ),
  omega (
    arith,
    a.gross_sum,
    b.gross_sum,
    empty-sum (λ b. b.gross_satang) m.bs (All-mono m.bs (λ b h. h.2) m.range.empty),
  ),
  omega (
    arith,
    a.tickets_sum,
    b.tickets_sum,
    empty-sum (λ b. b.tickets_sold) m.bs (All-mono m.bs (λ b h. h.1) m.range.empty),
  ),
)
  where
    start : Start now orders tickets (timeline_start ev now orders tickets)
    start = timeline_start-Start ev now orders tickets wos wts

    m : Made 46 start.first (start_of_day now)
    m = buckets_from-Made 46 start.first (start_of_day now) start.recent

    a : Adds m.bs (add_orders orders m.bs) (length orders) 0 (sum_of (λ o. o.total_satang) orders)
    a = add_orders-Adds orders m.bs (
        All-mono orders
          (λ o h.
            covers start.first (start_of_day now) o.created_at m.bs m.range
              (subst (λ k. k ≤ start_of_day o.created_at) start.aligned h.0) (omega (arith, h.1)))
          start.orders_in)

    b :
        Adds
          (add_orders orders m.bs)
          (add_tickets tickets (add_orders orders m.bs))
          0
          (length tickets)
          0
    b = add_tickets-Adds tickets (add_orders orders m.bs) (
        All-mono tickets
          (λ t h.
            a.days t
            ∙ covers start.first (start_of_day now) t m.bs m.range
                (subst (λ k. k ≤ start_of_day t) start.aligned h.0) (omega (arith, h.1)))
          start.tickets_in)
