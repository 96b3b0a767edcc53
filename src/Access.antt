-- ===== src/Access.antt =====
-- apps/api/src/access/access.service.ts: the role of a user on an event, read from the database.
pub mod Roles
use openseat.Base.{ℕ, ◌&&◌, Option, none, some, ◌==◌, leb, if◌then◌else◌, is_just, find}
use openseat.Store.{Store, Event, EventRole}
use openseat.Store.Action.{
  Action, ◌>>=◌, ◌>>◌, return, read, require, require_some, not_found, forbidden,
}

-- `EventRoleName`
pub data RoleName : Type 0 where
  staff manager owner : RoleName

abbrev pub role_rank : RoleName → ℕ
role_rank RoleName.staff = 1
role_rank RoleName.manager = 2
role_rank RoleName.owner = 3

abbrev pub role_name : EventRole → RoleName
role_name EventRole.staff = RoleName.staff
role_name EventRole.manager = RoleName.manager

unfoldable pub find_event : ℕ → Store → Option Event
find_event event_id s = find (λ e. e.id == event_id) s.events

unfoldable pub membership_role : ℕ → ℕ → Store → Option RoleName
membership_role event_id user_id s =
    elim (find (λ m. m.event_id == event_id && is_just m.user_id user_id) s.team_members) [
      | none ↦ none
      | some member ↦ some (role_name member.role)
    ]

unfoldable pub role_in : Event → ℕ → Store → Option RoleName
unfolding membership_role
role_in event user_id s =
    if event.organizer_id == user_id then some owner else membership_role event.id user_id s

unfoldable pub resolve_role : ℕ → ℕ → Action (Event × Option RoleName)
resolve_role event_id user_id = do
  found ← read (find_event event_id)
  event ← require_some found (not_found "Event not found")
  role ← read (role_in event user_id)
  return (event, role)

unfoldable pub require_event_role : ℕ → ℕ → RoleName → Action (Event × RoleName)
require_event_role event_id user_id min_role = do
  (event, found) ← resolve_role event_id user_id
  role ← require_some found (not_found "Event not found")
  require (leb (role_rank min_role) (role_rank role)) (forbidden "Your role does not allow this")
  return (event, role)
