-- ===== src/Team.antt =====
-- apps/api/src/team/team.service.ts: the team of an event.
pub mod Grants
use mathlib.Core.List.{reverse}
use mathlib.Core.Option
use openseat.Base.{
  ℕ, suc, Bool, true, false, not, ◌&&◌, Option, none, some, List, [], ◌∷◌, map, if◌then◌else◌, ◌==◌,
  ltb, is_some, find, select, count, update, delete, any, text_eq, trim, to_lower_case,
}
use openseat.Store.{Store, Text, User, TeamMember, EventRole}
use openseat.Store.Action.{
  Action, Result, Error, ok, err, bad_request, not_found, conflict, unique_violation,
  record_not_found, ◌>>=◌, ◌>>◌, return, throw, read, write, require, require_some, catch,
}
use openseat.Access.{owner, require_event_role}

-- `TeamMemberView`, without the date.
pub record TeamMemberView : Type 0 where
  pub id : ℕ
  pub email : Text
  pub role : EventRole
  pub linked : Bool

unfoldable pub to_view : TeamMember → TeamMemberView
to_view m = record { id = m.id; email = m.email; role = m.role; linked = is_some m.user_id }

unfoldable pub find_user : Text → List User → Option User
find_user email users = find (λ u. text_eq u.email email) users

-- `organizer?.email === email`
unfoldable pub is_organizer : ℕ → Text → List User → Bool
is_organizer organizer_id email users = elim (find (λ u. u.id == organizer_id) users) [
  | none ↦ false
  | some u ↦ text_eq u.email email
]

-- Rows are kept newest first.
unfoldable pub list : ℕ → ℕ → Action (List TeamMemberView)
unfolding to_view
list event_id user_id = do
  allowed ← require_event_role event_id user_id owner
  members ← read (λ s. reverse (select (λ m. m.event_id == event_id) s.team_members))
  return (map to_view members)

abbrev pub new_member : ℕ → ℕ → Text → EventRole → Option User → TeamMember
new_member id event_id email role linked = record {
  id = id;
  event_id = event_id;
  email = email;
  user_id = Option.map (λ u. u.id) linked;
  role = role;
}

-- `teamMember.create`, under the unique key `(event_id, email)`
unfoldable pub insert_member : ℕ → Text → EventRole → Option User → Action TeamMember
insert_member event_id email role linked s =
    if any (λ m. m.event_id == event_id && text_eq m.email email) s.team_members
    then throw unique_violation s
    else return (new_member s.next_id event_id email role linked) (record s {
      team_members = new_member s.next_id event_id email role linked ∷ s.team_members;
      next_id = suc s.next_id;
    })

unfoldable pub already_there : Error → Action TeamMemberView
already_there unique_violation = throw (conflict "This email is already on the team")
already_there e = throw e

unfoldable pub add : ℕ → ℕ → Text → EventRole → Action TeamMemberView
unfolding to_view
add event_id user_id input_email role = do
  (event, held) ← require_event_role event_id user_id owner
  let email = to_lower_case (trim input_email)
  owns ← read (λ s. is_organizer event.organizer_id email s.users)
  require (not owns) (bad_request "The owner is already on the team")
  linked ← read (λ s. find_user email s.users)
  catch (do member ← insert_member event_id email role linked; return (to_view member))
      already_there

unfoldable pub change_role : ℕ → ℕ → ℕ → EventRole → Action TeamMemberView
unfolding to_view
change_role event_id user_id member_id role = do
  allowed ← require_event_role event_id user_id owner
  found ← read (λ s. find (λ m. m.id == member_id && m.event_id == event_id) s.team_members)
  member ← require_some found (not_found "Team member not found")
  write λ s. record s {
    team_members = update (λ m. m.id == member_id) (λ m. record m { role = role }) s.team_members;
  }
  found_again ← read (λ s. find (λ m. m.id == member_id) s.team_members)
  updated ← require_some found_again record_not_found
  return (to_view updated)

unfoldable pub remove : ℕ → ℕ → ℕ → Action (Unit {0})
remove event_id user_id member_id = do
  allowed ← require_event_role event_id user_id owner
  removed ← read (λ s. count (λ m. m.id == member_id && m.event_id == event_id) s.team_members)
  write λ s. record s {
    team_members = delete (λ m. m.id == member_id && m.event_id == event_id) s.team_members;
  }
  require (ltb 0 removed) (not_found "Team member not found")
