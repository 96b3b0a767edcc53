-- ===== src/Examples/Views.antt =====
-- The shop as buyers, organizers and the dispatcher see it: theorems at concrete inputs.
use openseat.Base.{
  ℕ, ◌+◌, ◌≡◌, refl, List, [], ◌∷◌, none, some, true, false, All, any, find, count, select, update,
  text_eq, is_some, leb, codes, trim, is_space, trim_start, lower_code, to_lower_case, arith,
}
use openseat.Store.{Store, User, OutboxEvent, ticket_issued, EventRole, SeatChange}
use openseat.Store.Action.{ok}
use openseat.Access.{
  role_name, membership_role, find_event, role_in, resolve_role, require_event_role,
}
use openseat.Holds.{acquire, find_open_seat, held_by_key, max_held_per_key}
use openseat.Outbox.{SendMail, dispatch_pending, claim_event}
use openseat.Outbox.Attempts.{IsBounded, dispatch_pending-IsBounded}
use openseat.Realtime.{SeatBatch, seats_changed}
use openseat.Realtime.Disjoint.{IsDisjoint, seats_changed-IsDisjoint}
use openseat.SeatMaps.{available, hold_on, is_sold, status_of, view_seat}
use openseat.SeatMaps.Status.{acquire-available}
use openseat.Team.{
  TeamMemberView, find_user, is_organizer, insert_member, already_there, add, to_view,
}
use openseat.Team.Grants.{add-membership_role}
use openseat.Draft.{Section, Draft, commit, undo, entry, next_section}
use openseat.Draft.History.{IsCurrent, undo-commit}
use openseat.Examples.{shop, seat_a, ann, with_order}

-- Mail is down.
abbrev no_mail : SendMail
no_mail payload = false

abbrev last_try : OutboxEvent
last_try = record { id = 7; payload = ticket_issued 100; attempts = 7; processed_at = none }

abbrev with_outbox : Store
with_outbox = record with_order { outbox_events = last_try ∷ [] }

dispatch_pending-IsBounded_example : IsBounded (dispatch_pending no_mail 3 with_outbox).1
dispatch_pending-IsBounded_example =
    dispatch_pending-IsBounded no_mail 3 with_outbox ((omega arith), tt)

abbrev claimed_outbox : Store
claimed_outbox = (claim_event last_try with_outbox).1

claim_test : claim_event last_try with_outbox ≡ (ok true, claimed_outbox)
unfolding claim_event any update
claim_test = refl

-- The seat 20 is sold while its hold is still pending.
abbrev held_batch : SeatBatch
held_batch = record { held = 20 ∷ []; released = []; sold = [] }

abbrev sale : SeatChange
sale = record { held = []; released = []; sold = 20 ∷ [] }

held_batch-IsDisjoint : IsDisjoint held_batch
unfolding any
held_batch-IsDisjoint y = ground arith

seats_changed-IsDisjoint_example :
    All (λ (g : ℕ × SeatBatch). IsDisjoint g.1) (seats_changed 1 sale ((1, held_batch) ∷ []))
seats_changed-IsDisjoint_example =
    seats_changed-IsDisjoint 1 sale ((1, held_batch) ∷ []) (held_batch-IsDisjoint, tt)

shop_open : is_some (find_open_seat 1 20 shop) ≡ true
unfolding find_open_seat find any
shop_open = refl

shop_few : leb max_held_per_key (held_by_key 1 ann 0 shop) ≡ false
unfolding held_by_key count
shop_few = refl

shop_available : (view_seat 1 0 none shop seat_a).status ≡ available
unfolding view_seat hold_on is_sold status_of find select any
shop_available = refl

acquire-available_example : (acquire 420000 1 20 ann 0 shop).0 ≡ ok (20, 0 + 420000)
acquire-available_example =
    acquire-available 420000 1 0 ann none shop seat_a shop_open shop_few tt shop_available

abbrev bea : User
bea = record {
  id = 8;
  email = codes "b@x";
  display_name = codes "Bea";
  password_hash = none;
  google_id = none;
  is_demo = false;
}

abbrev shop_of_bea : Store
shop_of_bea = record shop { users = bea ∷ [] }

abbrev with_bea : Store
with_bea = (add 1 9 (codes " B@x") EventRole.staff shop_of_bea).1

abbrev bea_view : TeamMemberView
bea_view = record { id = 100; email = codes "b@x"; role = EventRole.staff; linked = true }

bea_known : find_user (to_lower_case (trim (codes " B@x"))) (bea ∷ []) ≡ some bea
unfolding find_user find text_eq trim trim_start is_space lower_code
bea_known = refl

add_test : add 1 9 (codes " B@x") EventRole.staff shop_of_bea ≡ (ok bea_view, with_bea)
unfolding add require_event_role resolve_role find_event role_in membership_role is_organizer
    insert_member already_there find_user to_view find any text_eq trim trim_start is_space
    lower_code
add_test = refl

add-membership_role_example : membership_role 1 8 with_bea ≡ some (role_name EventRole.staff)
add-membership_role_example =
    add-membership_role 1 9 (codes " B@x") EventRole.staff bea shop_of_bea with_bea bea_view
      bea_known add_test

-- A draft with one section, and the empty list of sections as the next state.
abbrev first_section : List Section
first_section = next_section 1 [] ∷ []

abbrev draft : Draft
draft = record {
  sections = first_section;
  stack = first_section ∷ [];
  index = 0;
  selected_id = none;
  section_counter = 1;
}

draft-IsCurrent : IsCurrent draft
unfolding entry
draft-IsCurrent = record { in_range = omega arith; shown = refl }

undo-commit_example :
    ((undo (commit [] draft)).sections ≡ draft.sections)
    × ((undo (commit [] draft)).index ≡ draft.index)
undo-commit_example = undo-commit [] draft draft-IsCurrent
