-- ===== src/Team/Grants.antt =====
-- Roles and rows of a user who joins a team or leaves it.
use openseat.Base.{
  ℕ, ◌≡◌, refl, false, not, ◌&&◌, some, List, ◌∷◌, ◌==◌, find, any, count, any-delete, ltb, text_eq,
  trim, to_lower_case, Bool-cases, inl, inr, is_just, arith,
}
use openseat.Store.{Store, Text, User, TeamMember, EventRole}
use openseat.Store.Action.{
  Action, Result, ok, err, Error, Ends, Ends-at, anything, continue-Ends, require-Ends, handle,
  ◌>>=◌, return, bad_request, unique_violation,
}
use openseat.Access.{owner, role_name, membership_role, require_event_role}
use openseat.Access.Roles.{require_event_role-same}
use openseat.Team.{
  TeamMemberView, to_view, find_user, is_organizer, new_member, insert_member, already_there, add,
  remove,
}

find-head :
    (event_id : ℕ) (email : Text) (role : EventRole) (u : User) (id : ℕ) (ms : List TeamMember)
    → find
        (λ m. m.event_id == event_id && is_just m.user_id u.id)
        (new_member id event_id email role (some u) ∷ ms)
      ≡ some (new_member id event_id email role (some u))
unfolding find
find-head event_id email role u id ms = ground arith

membership_role-found :
    (event_id user_id : ℕ) (s : Store) (m : TeamMember)
    → find (λ x. x.event_id == event_id && is_just x.user_id user_id) s.team_members ≡ some m
    → membership_role event_id user_id s ≡ some (role_name m.role)
unfolding membership_role
membership_role-found event_id user_id s m found = rw (membership_role, found) refl

insert_member-role :
    (event_id : ℕ) (email : Text) (role : EventRole) (u : User) (s : Store)
    → Ends
        (insert_member event_id email role (some u) s)
        (λ _ s'. membership_role event_id u.id s' ≡ some (role_name role))
unfolding insert_member
insert_member-role event_id email role u s =
    elim (Bool-cases (any (λ m. m.event_id == event_id && text_eq m.email email) s.team_members)) [
      | inl there ↦ rw there tt
      | inr new ↦ rw new (
          membership_role-found event_id u.id _ _
            (find-head event_id email role u s.next_id s.team_members))
    ]

already-Ends :
    (e : Error) (s : Store) (Q : TeamMemberView → Store → Type 0) → Ends (already_there e s) Q
unfolding already_there
already-Ends unique_violation s Q = tt
already-Ends _ s Q = tt

handled-Ends :
    (r : Result TeamMemberView × Store) (Q : TeamMemberView → Store → Type 0)
    → Ends r Q
    → Ends (handle r already_there) Q
handled-Ends (ok a, s) Q h = h
handled-Ends (err e, s) Q h = already-Ends e s Q

abbrev inserted : ℕ → Text → EventRole → User → Action TeamMemberView
inserted event_id email role u = do
  member ← insert_member event_id email role (some u)
  return (to_view member)

add-Ends :
    (event_id user_id : ℕ) (email : Text) (role : EventRole) (u : User) (s : Store)
    → find_user (to_lower_case (trim email)) s.users ≡ some u
    → Ends
        (add event_id user_id email role s)
        (λ _ s'. membership_role event_id u.id s' ≡ some (role_name role))
unfolding add
add-Ends event_id user_id email role u s known =
    continue-Ends (λ _ s₁. s₁ ≡ s) (require_event_role event_id user_id owner s) _ _
      (require_event_role-same event_id user_id owner s)
      λ (event, held) s₁ same.
        require-Ends (not (is_organizer event.organizer_id (to_lower_case (trim email)) s₁.users))
          (bad_request "The owner is already on the team") s₁ _ _
          λ fresh. rw (known_in s₁ same) (
            handled-Ends (inserted event_id (to_lower_case (trim email)) role u s₁)
              (λ _ s₂. membership_role event_id u.id s₂ ≡ some (role_name role))
              (continue-Ends (λ _ s₂. membership_role event_id u.id s₂ ≡ some (role_name role))
                (insert_member event_id (to_lower_case (trim email)) role (some u) s₁) _ _
                (insert_member-role event_id (to_lower_case (trim email)) role u s₁) (λ _ s₂ h. h)))
  where
    known_in : (s₁ : Store) → s₁ ≡ s → find_user (to_lower_case (trim email)) s₁.users ≡ some u
    known_in s₁ same = rw same known

-- When the owner added an email that a user has, that user is on the team with the role given.
pub add-membership_role :
    (event_id user_id : ℕ) (email : Text) (role : EventRole) (u : User) (s s' : Store)
    (view : TeamMemberView)
    → find_user (to_lower_case (trim email)) s.users ≡ some u
    → add event_id user_id email role s ≡ (ok view, s')
    → membership_role event_id u.id s' ≡ some (role_name role)
add-membership_role event_id user_id email role u s s' view known added =
    Ends-at _ added (add-Ends event_id user_id email role u s known)

remove-Ends :
    (event_id user_id member_id : ℕ) (s : Store)
    → Ends
        (remove event_id user_id member_id s)
        (λ _ s'. any (λ m. m.id == member_id && m.event_id == event_id) s'.team_members ≡ false)
unfolding remove
remove-Ends event_id user_id member_id s =
    continue-Ends (λ _ _. Unit {0}) (require_event_role event_id user_id owner s) _ _ (anything _)
      λ allowed s₁ _.
        elim (Bool-cases
          (ltb 0 (count (λ m. m.id == member_id && m.event_id == event_id) s₁.team_members))) [
            | inr missing ↦ rw missing tt
            | inl there ↦
                rw there
                  (any-delete (λ m. m.id == member_id && m.event_id == event_id) s₁.team_members)
          ]

-- When the owner removed a member, no row of the event has the member's id.
pub remove_takes_row :
    (event_id user_id member_id : ℕ) (s s' : Store)
    → remove event_id user_id member_id s ≡ (ok tt, s')
    → any (λ m. m.id == member_id && m.event_id == event_id) s'.team_members ≡ false
remove_takes_row event_id user_id member_id s s' removed =
    Ends-at _ removed (remove-Ends event_id user_id member_id s)
