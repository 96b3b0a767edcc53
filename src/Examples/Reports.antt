-- ===== src/Examples/Reports.antt =====
-- Reports of the shop: the file of attendees, the timeline and the numbers of the dashboard.
use openseat.Base.{
  ℕ, ◌+◌, ◌≤◌, ◌≡◌, refl, Bool, false, none, some, List, [], ◌∷◌, ◌++◌, codes, map, find, any,
  count, select, sum_of, All, ◌==◌, length, decimal, digits, iso_string, iso_date, padded,
  day_of_month, month_of, year_of, pos, arith,
}
use openseat.Store.{Store, Text, TicketType, Ticket, issued}
use openseat.Store.Action.{ok}
use openseat.Access.{
  RoleName, require_event_role, resolve_role, find_event, role_in, membership_role,
}
use openseat.Inventory.{is_ga, is_ga_type, find_type}
use openseat.Books.{zero_offset, Books, in_checkout}
use openseat.SeatMaps.Label.{seat_label, seat_of, ticket_seat, type_name}
use openseat.Checkin.Csv.{
  guarded, escaped, quoted, csv_cell, csv_row, csv_rows, attendee_row, insert_by_type, by_type,
  attendees_csv,
}
use openseat.Checkin.Csv.Parse.{parse_csv}
use openseat.Checkin.Csv.RoundTrip.{attendees, begins_formula, parse_csv-attendees_csv}
use openseat.Dashboard.Cards.{EventSummary, EventCard, organizer_events, event_summary}
use openseat.Dashboard.{tier_stat, sections_of}
use openseat.Dashboard.Sections.{IsSplit, sections_of-totals}
use openseat.Events.{types_of}
use openseat.Dashboard.Agreement.{card-event_summary}
use openseat.Dashboard.Tiers.{IsOf, tier_stat-claimed}
use openseat.Dashboard.Timeline.{OrderStamp, TimelineBucket, build_timeline}
use openseat.Dashboard.Timeline.Totals.{build_timeline-totals}
use openseat.Examples.{shop, concert, standing, stalls}

iso_test : iso_string 1785585600123 ≡ codes "2026-08-01T12:00:00.123Z"
unfolding iso_string iso_date padded day_of_month month_of year_of
iso_test = refl

iso_leap : iso_date 19782 ≡ codes "2024-02-29"
unfolding iso_date padded day_of_month month_of year_of
iso_leap = refl

-- A guest whose name holds a comma, a quote and a formula.
abbrev guest : Ticket
guest = record {
  id = 50;
  order_id = 40;
  event_id = 1;
  ticket_type_id = 11;
  seat_id = some 20;
  attendee_email = codes "a@x";
  attendee_name = codes "=A, \"B";
  qr_token = 60;
  status = issued;
  refund_id = none;
  checked_in_at = none;
}

abbrev pub guest_shop : Store
guest_shop = record shop { tickets = guest ∷ [] }

abbrev never : Text → Text → Bool
never s t = false

abbrev file : Text
file =
    codes "Name,Email,Ticket Type,Seat,Status,Checked In At"
    ++ (13 ∷ 10 ∷ (codes "\"'=A, \"\"B\",a@x,, " ++ (1 ∷ codes "1,issued,") ++ (13 ∷ 10 ∷ [])))

csv_test : attendees_csv never 1 9 guest_shop ≡ (ok file, guest_shop)
unfolding attendees_csv csv_rows csv_row csv_cell guarded quoted escaped attendee_row by_type
    insert_by_type ticket_seat seat_of seat_label type_name find_type decimal digits
    require_event_role resolve_role find_event role_in membership_role find select any
csv_test = refl

parse_csv-attendees_csv_example :
    (parse_csv file ≡ some (map (map guarded) (attendees never 1 guest_shop)))
    × All (All (λ v. begins_formula v ≡ false)) (map (map guarded) (attendees never 1 guest_shop))
parse_csv-attendees_csv_example =
    parse_csv-attendees_csv never 1 9 guest_shop guest_shop file csv_test

abbrev summary : EventSummary
summary = record {
  event = concert;
  tickets_sold = 1;
  tickets_checked_in = 0;
  my_role = RoleName.owner;
}

summary_test : event_summary 1 9 guest_shop ≡ (ok summary, guest_shop)
unfolding event_summary require_event_role resolve_role find_event role_in membership_role find
    count
summary_test = refl

card-event_summary_example :
    (cards : List EventCard) × (c : EventCard) × (organizer_events 9 guest_shop
      ≡ (ok cards, guest_shop))
    × (find (λ (x : EventCard). x.event.id == 1) cards ≡ some c)
    × (c.tickets_sold ≡ 1)
    × (c.tickets_checked_in ≡ 0)
    × (c.my_role ≡ RoleName.owner)
card-event_summary_example = card-event_summary 1 9 guest_shop guest_shop summary summary_test

-- One of the two seats of the stalls is sold to the guest.
abbrev sold_stalls : TicketType
sold_stalls = record stalls { remaining = 1 }

abbrev sold_shop : Store
sold_shop = record guest_shop { ticket_types = standing ∷ sold_stalls ∷ [] }

sold_shop-Books : Books zero_offset zero_offset sold_shop
unfolding count sum_of is_ga_type find_type find
sold_shop-Books = record {
  types = (((λ e. omega (arith, e)), tt), (tt, tt));
  orders = tt;
  seats = (refl, tt);
  rows = (refl, (refl, tt));
}

guest-IsOf_concert : All (λ t. IsOf 1 t.id sold_shop.tickets) (types_of 1 sold_shop)
unfolding types_of select
guest-IsOf_concert = (((λ e. refl), tt), (((λ e. refl), tt), tt))

tier_stat-claimed_example :
    All
      (λ t.
        ((tier_stat 1 sold_shop t).claimed
          ≡ pos ((tier_stat 1 sold_shop t).issued + in_checkout sold_shop t))
        × (is_ga t.kind ≡ false
            → (tier_stat 1 sold_shop t).claimed ≡ pos (tier_stat 1 sold_shop t).issued))
      (types_of 1 sold_shop)
tier_stat-claimed_example = tier_stat-claimed 1 sold_shop sold_shop-Books guest-IsOf_concert

-- Ten days after the epoch: an order of 500 two days ago, with its ticket.
abbrev old_orders : List OrderStamp
old_orders = record { created_at = 700000000; total_satang = 500 } ∷ []

abbrev old_tickets : List ℕ
old_tickets = 700000000 ∷ []

build_timeline-totals_example :
    (bs : List TimelineBucket) × (build_timeline 47 0 864000000 old_orders old_tickets ≡ some bs)
    × (length bs ≤ 46)
    × (sum_of (λ b. b.orders) bs ≡ length old_orders)
    × (sum_of (λ b. b.gross_satang) bs ≡ sum_of (λ o. o.total_satang) old_orders)
    × (sum_of (λ b. b.tickets_sold) bs ≡ length old_tickets)
build_timeline-totals_example =
    build_timeline-totals 0 864000000 old_orders old_tickets (omega arith) (omega arith)

sections_of-totals_example :
    All IsSplit (sections_of 1 7 sold_shop)
    × (sum_of (λ x. x.capacity) (sections_of 1 7 sold_shop) ≡ 1)
    × (sum_of (λ x. x.sold) (sections_of 1 7 sold_shop) ≡ 1)
    × (sum_of (λ x. x.held) (sections_of 1 7 sold_shop) ≡ 0)
unfolding count select any
sections_of-totals_example = sections_of-totals 1 7 sold_shop
