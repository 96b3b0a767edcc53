-- ===== src/Dashboard/Timeline.antt =====
-- `buildTimeline` of apps/api/src/dashboard/dashboard.service.ts: orders and tickets of the last days,
-- in one bucket for each day. A day is known by its first millisecond.
pub mod Days
pub mod Complete
pub mod Totals
use openseat.Base.{
  ℕ, zero, suc, ◌+◌, ◌-◌, ◌*◌, ◌/◌, Bool, true, false, Option, none, some, List, [], ◌∷◌, map,
  if◌then◌else◌, ◌==◌, ltb, leb, update,
}

abbrev pub day_ms : ℕ
day_ms = 86400000

abbrev pub max_timeline_days : ℕ
max_timeline_days = 45

-- `startOfDayUtc`, also the key `dayKey`
abbrev pub start_of_day : ℕ → ℕ
start_of_day time = time / day_ms * day_ms

pub record OrderStamp : Type 0 where
  pub created_at : ℕ
  pub total_satang : ℕ

pub record TimelineBucket : Type 0 where
  pub day : ℕ
  pub orders : ℕ
  pub tickets_sold : ℕ
  pub gross_satang : ℕ

unfoldable pub earliest_created_at : List ℕ → Option ℕ → Option ℕ
earliest_created_at [] current = current
earliest_created_at (stamp ∷ rows) none = earliest_created_at rows (some stamp)
earliest_created_at (stamp ∷ rows) (some earliest) =
    earliest_created_at rows (some (if ltb stamp earliest then stamp else earliest))

abbrev pub empty_bucket : ℕ → TimelineBucket
empty_bucket day = record { day = day; orders = 0; tickets_sold = 0; gross_satang = 0 }

abbrev pub put_in_front :
    TimelineBucket → Option (List TimelineBucket) → Option (List TimelineBucket)
put_in_front b none = none
put_in_front b (some bs) = some (b ∷ bs)

-- The loop from `cursor` to `end`, a day at a time; `none` means that the fuel ran out.
unfoldable pub buckets_from : ℕ → ℕ → ℕ → Option (List TimelineBucket)
buckets_from zero cursor end = none
buckets_from (suc fuel) cursor end =
    let rest = buckets_from fuel (cursor + day_ms) end in
    if leb cursor end then put_in_front (empty_bucket cursor) rest else some []

abbrev pub is_day : ℕ → TimelineBucket → Bool
is_day time b = b.day == start_of_day time

abbrev pub count_order : ℕ → TimelineBucket → TimelineBucket
count_order total b = record b { orders = b.orders + 1; gross_satang = b.gross_satang + total }

abbrev pub count_ticket : TimelineBucket → TimelineBucket
count_ticket b = record b { tickets_sold = b.tickets_sold + 1 }

unfoldable pub add_orders : List OrderStamp → List TimelineBucket → List TimelineBucket
add_orders [] bs = bs
add_orders (o ∷ orders) bs =
    add_orders orders (update (is_day o.created_at) (count_order o.total_satang) bs)

unfoldable pub add_tickets : List ℕ → List TimelineBucket → List TimelineBucket
add_tickets [] bs = bs
add_tickets (t ∷ tickets) bs = add_tickets tickets (update (is_day t) count_ticket bs)

abbrev pub or_created : ℕ → Option ℕ → ℕ
or_created event_created_at none = event_created_at
or_created event_created_at (some stamp) = stamp

-- The first day of the timeline.
unfoldable pub timeline_start : ℕ → ℕ → List OrderStamp → List ℕ → ℕ
unfolding earliest_created_at
timeline_start event_created_at now orders tickets =
    let earliest =
      or_created event_created_at
        (earliest_created_at tickets (earliest_created_at (map (λ o. o.created_at) orders) none)) in
    if ltb max_timeline_days ((start_of_day now - start_of_day earliest) / day_ms)
    then start_of_day now - max_timeline_days * day_ms
    else start_of_day earliest

abbrev pub filled :
    List OrderStamp → List ℕ → Option (List TimelineBucket) → Option (List TimelineBucket)
filled orders tickets none = none
filled orders tickets (some bs) = some (add_tickets tickets (add_orders orders bs))

unfoldable pub build_timeline : ℕ → ℕ → ℕ → List OrderStamp → List ℕ → Option (List TimelineBucket)
unfolding timeline_start buckets_from add_orders add_tickets
build_timeline fuel event_created_at now orders tickets =
    filled orders tickets
      (buckets_from fuel (timeline_start event_created_at now orders tickets) (start_of_day now))
