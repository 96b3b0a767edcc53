-- ===== src/Examples/Seats.antt =====
-- The shop's seats, its roles and its inventory: theorems at concrete inputs.
use openseat.Base.{
  ℕ, ◌+◌, ◌≡◌, refl, List, [], ◌∷◌, some, true, false, codes, All, find, count, delete, any, sum_of,
  text_eq, arith, ◌≤◌, is_some, leb, ltb, ◌&&◌, ◌++◌,
}
use openseat.Store.{TeamMember, EventRole, Store, Text, Hold}
use openseat.Store.Action.{ok}
use openseat.Inventory.{find_type, is_ga_type}
use openseat.Holds.{
  find_open_seat, held_by_key, drop_expired_hold, insert_hold, claim_seat, acquire, find_hold,
  holds_seat, seat_sold, max_held_per_key,
}
use openseat.Holds.Claims.{IsHeld, acquire-IsHeld, claimed}
use openseat.Orders.Totals.{amount, plan_of-total}
use openseat.Access.{manager, require_event_role, find_event}
use openseat.Access.Roles.{is_in_team, admits, require_event_role-admits}
use openseat.Books.{in_checkout, issued_of}
use openseat.System.{after, Reach, Reach-step, claim_hold}
use openseat.System.Inventory.{inventory_conserved}
use openseat.System.Calls.{Call, create_order, receive, serve, serve_all}
use openseat.System.Calls.Conserve.{IsFresh, IsFresh-Books, serve-Reach, runs_conserve}
use openseat.Orders.Plan.{plan_of}
use openseat.Holds.Exclusive.{succeeds, acquire-held, acquire-free}
use openseat.Examples.{shop, concert, ann, two_standing, intent, no_refund, captured_event}

-- Ann holds the seat until 420000, and its order would end at 900000.
abbrev held : Store
held = (acquire 420000 1 20 ann 0 shop).1

abbrev answer : ℕ × ℕ
answer = (20, 420000)

acquire_test : acquire 420000 1 20 ann 0 shop ≡ (ok answer, held)
unfolding acquire find_open_seat held_by_key claim_seat drop_expired_hold insert_hold find count
    delete any text_eq
acquire_test = refl

acquire-IsHeld_example : (answer ≡ (20, 0 + 420000)) × IsHeld 1 20 ann (0 + 420000) held
acquire-IsHeld_example = acquire-IsHeld 420000 1 20 ann 0 shop held answer acquire_test

-- Bound to the order 100, until 900.
abbrev bound_hold : Hold
bound_hold = record {
  id = 1;
  event_id = 1;
  seat_id = 20;
  holder_key = ann;
  order_id = some 100;
  expires_at = 900;
}

abbrev bound : Store
bound = record shop { holds = bound_hold ∷ [] }

abbrev other_key : Text
other_key = codes "bob"

find_bound : find_hold 1 20 bound ≡ some bound_hold
unfolding find
find_bound = refl

differs : text_eq ann other_key ≡ false
unfolding text_eq
differs = refl

acquire-held_example :
    (succeeds (acquire 420000 1 20 other_key 899 bound).0 ≡ false)
    × (find_hold 1 20 (acquire 420000 1 20 other_key 899 bound).1 ≡ some bound_hold)
acquire-held_example =
    acquire-held 420000 1 20 other_key 899 bound bound_hold find_bound refl differs

open_seat : is_some (find_open_seat 1 20 bound) ≡ true
unfolding find_open_seat find any
open_seat = refl

few_seats : leb max_held_per_key (held_by_key 1 other_key 900 bound) ≡ false
unfolding held_by_key count text_eq
few_seats = refl

unsold : seat_sold 20 bound ≡ false
unfolding any
unsold = refl

all_expired : any (λ h. holds_seat 1 20 h && ltb 900 h.expires_at) bound.holds ≡ false
unfolding any
all_expired = refl

acquire-free_example :
    ((acquire 420000 1 20 other_key 900 bound).0 ≡ ok (20, 900 + 420000))
    × (find_hold 1 20 (acquire 420000 1 20 other_key 900 bound).1
        ≡ some (claimed 1 20 other_key (900 + 420000) bound))
acquire-free_example =
    acquire-free 420000 1 20 other_key 900 bound open_seat few_seats unsold all_expired

plan_of-total_example :
    (plan_of 0 two_standing (20 ∷ []) shop).total_satang
    ≡ sum_of amount (
        (plan_of 0 two_standing (20 ∷ []) shop).ga_items
        ++ (plan_of 0 two_standing (20 ∷ []) shop).groups)
plan_of-total_example = plan_of-total 0 two_standing (20 ∷ []) shop

-- User 8 is on the team as staff.
abbrev helper : TeamMember
helper = record { id = 30; event_id = 1; email = ann; user_id = some 8; role = EventRole.staff }

abbrev crew_shop : Store
crew_shop = record shop { team_members = helper ∷ [] }

crew_found : find_event 1 crew_shop ≡ some concert
unfolding find_event find
crew_found = refl

one_row : count (is_in_team 1 8) crew_shop.team_members ≤ 1
unfolding count
one_row = omega arith

require_event_role-admits_example :
    succeeds (require_event_role 1 8 manager crew_shop).0 ≡ admits manager concert 8 crew_shop
require_event_role-admits_example =
    require_event_role-admits 1 8 manager crew_shop concert crew_found one_row

shop-IsFresh : IsFresh shop
unfolding is_ga_type find_type find
shop-IsFresh = record {
  types = (((λ h. ground (arith, h)), tt), (tt, tt));
  seats = (refl, tt);
  no_orders = refl;
  no_tickets = refl;
  full = (refl, (refl, tt));
}

abbrev day : List (ℕ × Call)
day = (0, create_order two_standing) ∷ (1, receive captured_event) ∷ []

runs_conserve_example :
    All
      (λ t.
        t.remaining
          + in_checkout (serve_all intent no_refund day shop) t
          + issued_of (serve_all intent no_refund day shop) t
        ≡ t.quantity)
      (serve_all intent no_refund day shop).ticket_types
runs_conserve_example = runs_conserve intent no_refund day shop shop-IsFresh

serve-Reach_example : Reach shop (serve intent no_refund 0 (create_order two_standing) shop)
serve-Reach_example =
    serve-Reach intent no_refund 0 (create_order two_standing) shop
      (IsFresh-Books shop shop-IsFresh)

inventory_conserved_example :
    All
      (λ x.
        x.remaining
          + in_checkout (after (claim_seat 1 20 ann 420000 0) shop) x
          + issued_of (after (claim_seat 1 20 ann 420000 0) shop) x
        ≡ x.quantity)
      (after (claim_seat 1 20 ann 420000 0) shop).ticket_types
inventory_conserved_example =
    inventory_conserved (IsFresh-Books shop shop-IsFresh)
      (Reach-step (claim_hold 1 20 ann 420000 0))
