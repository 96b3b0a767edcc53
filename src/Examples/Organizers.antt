-- ===== src/Examples/Organizers.antt =====
-- Organizers of the shop: a draft, its publication, capacity changes and a seat map.
use openseat.Base.{
  ℕ, ◌+◌, ◌≡◌, ◌↔◌, ◌⊎◌, refl, true, false, ◌&&◌, none, some, [], ◌∷◌, codes, find, update, any,
  count, select, text_eq, trim, ◌==◌, ltb, is_some, truthy, map, arith,
}
use openseat.Store.{Store, Text, Event, draft, TicketType}
use openseat.Store.Action.{ok, err, not_found}
use openseat.Store.Returns.{Returns}
use openseat.Access.{
  manager, owner, require_event_role, resolve_role, find_event, role_in, membership_role,
}
use openseat.Access.Roles.{HasRole}
use openseat.Holds.Exclusive.{succeeds}
use openseat.Events.{
  UpdateTicketType, EventDetail, detail, types_of, seat_map_of, get_by_slug, publish, update_event,
}
use openseat.Events.Edit.{shift_remaining, check_quantity, move_remaining, write_type, apply_edit}
use openseat.Events.Visible.{get_by_slug-draft, publish-seen}
use openseat.Events.Stale.{apply_edit-balance}
use openseat.SeatMaps.Create.{SectionInput, has_repeat, create}
use openseat.SeatMaps.Capacity.{SeatCapacity, create-Returns}
use openseat.Admission.{
  Crypto, can_activate, verify_admission_token, verify_parts, is_current, split,
}
use openseat.Admission.Verified.{Admitted, can_activate-Admitted}
use openseat.Examples.{shop, concert, standing, stalls}

abbrev drafted : Event
drafted = record concert { status = draft }

abbrev draft_shop : Store
draft_shop = record shop { events = drafted ∷ [] }

drafted_found : find (λ e. text_eq e.slug (codes "indie")) draft_shop.events ≡ some drafted
unfolding find text_eq
drafted_found = refl

get_by_slug-draft_example :
    ((get_by_slug (codes "indie") none draft_shop).0 ≡ err (not_found "Event not found"))
    × ((v : ℕ)
        → succeeds (get_by_slug (codes "indie") (some v) draft_shop).0
          ≡ is_some (role_in drafted v draft_shop))
get_by_slug-draft_example = get_by_slug-draft (codes "indie") drafted draft_shop drafted_found refl

abbrev open_shop : Store
open_shop = (publish 1 9 draft_shop).1

abbrev open_detail : EventDetail
open_detail = record { event = concert; ticket_types = stalls ∷ standing ∷ []; seat_map = none }

publish_test : publish 1 9 draft_shop ≡ (ok open_detail, open_shop)
unfolding publish update_event detail types_of seat_map_of require_event_role resolve_role
    find_event role_in membership_role find update count select
publish_test = refl

concert_found : find (λ e. text_eq e.slug (codes "indie")) open_shop.events ≡ some concert
unfolding publish update_event require_event_role resolve_role find_event role_in membership_role
    find update count text_eq
concert_found = refl

publish-seen_example :
    (ltb 0 (count (λ t. t.event_id == 1) open_shop.ticket_types) ≡ true)
    × (find_event 1 open_shop ≡ some concert)
    × (succeeds (get_by_slug (codes "indie") none open_shop).0 ≡ true)
publish-seen_example =
    publish-seen 1 9 (codes "indie") none draft_shop open_shop open_detail publish_test
      concert_found

-- Another organizer has raised the capacity from 5 to 8 since this one read it.
abbrev raised : TicketType
raised = record standing { quantity = 8; remaining = 8 }

abbrev raised_shop : Store
raised_shop = record shop { ticket_types = raised ∷ [] }

abbrev to_ten : UpdateTicketType
to_ten = record { name = none; quantity = some 10; max_per_order = none }

abbrev stale_row : TicketType
stale_row = record standing { quantity = 10; remaining = 13 }

abbrev stale_shop : Store
stale_shop = (apply_edit standing to_ten raised_shop).1

stale_test : apply_edit standing to_ten raised_shop ≡ (ok stale_row, stale_shop)
unfolding apply_edit check_quantity move_remaining shift_remaining write_type any update find
stale_test = refl

raised_found : find (λ x. x.id == 10 && x.event_id == 1) raised_shop.ticket_types ≡ some raised
unfolding find
raised_found = refl

apply_edit-balance_example :
    (stale_row.remaining + 0 ≡ stale_row.quantity) ↔ (raised.quantity ≡ standing.quantity)
apply_edit-balance_example =
    apply_edit-balance standing raised stale_row to_ten 10 0 raised_shop stale_shop (tt, tt)
      raised_found refl refl refl stale_test

-- The shop before its seat map.
abbrev pub bare_shop : Store
bare_shop = record shop { ticket_types = standing ∷ []; seats = [] }

abbrev front : SectionInput
front = record {
  name = codes "Front";
  rows = 2;
  cols = 3;
  tier_name = codes "Front zone";
  price_satang = 900;
  x = none;
  y = none;
}

pub manager_of_bare : HasRole 1 9 manager bare_shop
unfolding find_event role_in find
manager_of_bare = record {
  event = concert;
  role = owner;
  found = refl;
  holds = refl;
  enough = refl;
}

pub no_map : any (λ m. m.event_id == 1) bare_shop.seat_maps ≡ false
unfolding any
no_map = refl

pub no_seat : any (λ x. x.event_id == 1) bare_shop.seats ≡ false
unfolding any
no_seat = refl

one_tier : has_repeat (map (λ (c : SectionInput). trim c.tier_name) (front ∷ [])) ≡ false
unfolding has_repeat any
one_tier = refl

one_name : has_repeat (map (λ (c : SectionInput). trim c.name) (front ∷ [])) ≡ false
unfolding has_repeat any
one_name = refl

pub bare_capacity : SeatCapacity bare_shop
bare_capacity = record {
  types = (omega arith, tt);
  seats = tt;
  rows = ((λ kind. ground (arith, kind)), tt);
}

create-Returns_example : Returns (create 1 9 (front ∷ []) bare_shop) (λ _ s'. SeatCapacity s')
create-Returns_example =
    create-Returns 1 9 (front ∷ []) bare_shop manager_of_bare no_map no_seat (omega arith) one_tier
      one_name bare_capacity

-- A digest of one letter, and a payload that names event 1 until second 5.
abbrev crypto : Crypto
crypto = record {
  hmac = λ secret text. codes "s";
  decode = λ payload. some (record { event_id = some 1; exp = some 5 });
}

abbrev drop_concert : Event
drop_concert = record concert { drop_mode = true }

abbrev drop_shop : Store
drop_shop = record shop { events = drop_concert ∷ [] }

drop_found : find_event 1 drop_shop ≡ some drop_concert
unfolding find_event find
drop_found = refl

can_activate-Admitted_example :
    (succeeds (can_activate crypto 4000 [] (some 1) (some (codes "h.p.s")) drop_shop).0 ≡ true) ↔ (
      (true ≡ false)
      ⊎ ((token : Text) × (some (codes "h.p.s") ≡ some token) × Admitted crypto [] token 1 4000))
can_activate-Admitted_example =
    can_activate-Admitted crypto 4000 [] 1 (some (codes "h.p.s")) drop_concert drop_shop drop_found

admitted_test : (can_activate crypto 4000 [] (some 1) (some (codes "h.p.s")) drop_shop).0 ≡ ok true
unfolding can_activate find_event find verify_admission_token verify_parts is_current split text_eq
    truthy
admitted_test = refl
