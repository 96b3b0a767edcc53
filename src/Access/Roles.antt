-- ===== src/Access/Roles.antt =====
-- Who passes a role check.
use openseat.Base.{
  ℕ, ◌≤◌, ◌≡◌, refl, sym, ap, ◌∙◌, is_some-find, inl, inr, Bool, true, false, ◌&&◌, ◌||◌,
  Bool-cases, none, some, List, [], ◌∷◌, Option-cases, ◌==◌, is_just, find, any, count, leb, arith,
}
use openseat.Store.{Store, Event, EventRole, TeamMember}
use openseat.Store.Action.{Ends, Ends-mono, Error, continue, require, return}
use openseat.Access.{
  RoleName, role_rank, role_name, find_event, role_in, membership_role, resolve_role,
  require_event_role,
}
use openseat.Holds.Exclusive.{succeeds}

-- The user has a role on the event, and its rank is enough.
pub record HasRole (event_id user_id : ℕ) (min_role : RoleName) (s : Store) : Type 0 where
  pub event : Event
  pub role : RoleName
  pub found : find_event event_id s ≡ some event
  pub holds : role_in event user_id s ≡ some role
  pub enough : leb (role_rank min_role) (role_rank role) ≡ true

-- Who is let in, by the role that is asked for: the organizer always, a manager of the event as a
-- manager, and any member of its team as staff.
abbrev pub is_in_team : ℕ → ℕ → TeamMember → Bool
is_in_team event_id user_id m = m.event_id == event_id && is_just m.user_id user_id

abbrev pub is_manager : EventRole → Bool
is_manager EventRole.manager = true
is_manager EventRole.staff = false

abbrev pub admits : RoleName → Event → ℕ → Store → Bool
admits RoleName.owner e user_id s = e.organizer_id == user_id
admits RoleName.manager e user_id s =
    e.organizer_id == user_id
    || any (λ m. is_in_team e.id user_id m && is_manager m.role) s.team_members
admits RoleName.staff e user_id s =
    e.organizer_id == user_id || any (is_in_team e.id user_id) s.team_members

none_left :
    (p q : TeamMember → Bool) (ms : List TeamMember)
    → count p ms ≡ 0
    → any (λ x. p x && q x) ms ≡ false
unfolding count any
none_left p q [] h = refl
none_left p q (x ∷ ms) h = ground (arith, h, none_left p q ms)

-- Of at most one row, what is found decides.
only_row :
    (p q : TeamMember → Bool) (ms : List TeamMember) (m : TeamMember)
    → count p ms ≤ 1
    → find p ms ≡ some m
    → any (λ x. p x && q x) ms ≡ q m
unfolding count find any
only_row p q [] m one found = ground (arith, found)
only_row p q (x ∷ ms) m one found = elim (Bool-cases (p x)) [
  | inr miss ↦ ground (arith, miss, only_row p q ms m, one, found)
  | inl hit ↦
      let here : some x ≡ some m = rw hit at found in
      let same : q x ≡ q m = ap (λ o. elim o [ none ↦ q x | some y ↦ q y ]) here in
      rw (hit, none_left p q ms (ground (arith, hit, one)), same) (ground arith)
]

no_row :
    (p q : TeamMember → Bool) (ms : List TeamMember)
    → find p ms ≡ none
    → any (λ x. p x && q x) ms ≡ false
unfolding find any
no_row p q [] h = refl
no_row p q (x ∷ ms) h = ground (arith, h, no_row p q ms)

-- What the ranks say, of the organizer and of a member of the team.
organizer_ranked :
    (min_role : RoleName) (e : Event) (user_id : ℕ) (s : Store)
    → (e.organizer_id == user_id) ≡ true
    → leb (role_rank min_role) (role_rank RoleName.owner) ≡ admits min_role e user_id s
organizer_ranked RoleName.owner e user_id s mine = sym mine
organizer_ranked RoleName.manager e user_id s mine = rw mine refl
organizer_ranked RoleName.staff e user_id s mine = rw mine refl

member_ranked :
    (min_role : RoleName) (role : EventRole) (e : Event) (user_id : ℕ) (s : Store)
    → (e.organizer_id == user_id) ≡ false
    → any (λ m. is_in_team e.id user_id m && is_manager m.role) s.team_members ≡ is_manager role
    → any (is_in_team e.id user_id) s.team_members ≡ true
    → leb (role_rank min_role) (role_rank (role_name role)) ≡ admits min_role e user_id s
member_ranked RoleName.owner EventRole.manager e user_id s other manages inside = sym other
member_ranked RoleName.owner EventRole.staff e user_id s other manages inside = sym other
member_ranked RoleName.manager EventRole.manager e user_id s other manages inside =
    rw (other, manages) refl
member_ranked RoleName.manager EventRole.staff e user_id s other manages inside =
    rw (other, manages) refl
member_ranked RoleName.staff EventRole.manager e user_id s other manages inside =
    rw (other, inside) refl
member_ranked RoleName.staff EventRole.staff e user_id s other manages inside =
    rw (other, inside) refl

stranger_refused :
    (min_role : RoleName) (e : Event) (user_id : ℕ) (s : Store)
    → (e.organizer_id == user_id) ≡ false
    → any (λ m. is_in_team e.id user_id m && is_manager m.role) s.team_members ≡ false
    → any (is_in_team e.id user_id) s.team_members ≡ false
    → false ≡ admits min_role e user_id s
stranger_refused RoleName.owner e user_id s other manages inside = sym other
stranger_refused RoleName.manager e user_id s other manages inside = rw (other, manages) refl
stranger_refused RoleName.staff e user_id s other manages inside = rw (other, inside) refl

passes_if :
    (b : Bool) (error : Error) (x : Event × RoleName) (s : Store)
    → succeeds (continue (require b error s) (λ _. return x)).0 ≡ b
passes_if true error x s = refl
passes_if false error x s = refl

-- On an existing event on whose team the user has at most one row, the role check returns exactly
-- for these: asked for the owner, the organizer; for a manager, also the managers of the event's
-- team; for staff, also all others on the team.
pub require_event_role-admits :
    (event_id user_id : ℕ) (min_role : RoleName) (s : Store) (e : Event)
    → find_event event_id s ≡ some e
    → count (is_in_team e.id user_id) s.team_members ≤ 1
    → succeeds (require_event_role event_id user_id min_role s).0 ≡ admits min_role e user_id s
unfolding require_event_role resolve_role role_in membership_role find
require_event_role-admits event_id user_id min_role s e found one =
    elim (Bool-cases (e.organizer_id == user_id)) [
      | inl mine ↦
          rw (found, mine)
            (passes_if _ _ (e, RoleName.owner) s ∙ organizer_ranked min_role e user_id s mine)
      | inr other ↦ elim (Option-cases (find (is_in_team e.id user_id) s.team_members)) [
        | inl gone ↦
            let inside : any (is_in_team e.id user_id) s.team_members ≡ false =
              sym (is_some-find (is_in_team e.id user_id) s.team_members) ∙ rw gone refl in
            rw (found, other, gone)
              (stranger_refused min_role e user_id s other
                (no_row (is_in_team e.id user_id) (λ m. is_manager m.role) s.team_members gone)
                inside)
        | inr (m, row) ↦
            let inside : any (is_in_team e.id user_id) s.team_members ≡ true =
              sym (is_some-find (is_in_team e.id user_id) s.team_members) ∙ rw row refl in
            rw (found, other, row)
              (passes_if _ _ (e, role_name m.role) s
                ∙ member_ranked min_role m.role e user_id s other
                    (only_row (is_in_team e.id user_id) (λ m. is_manager m.role) s.team_members m
                      one row)
                    inside)
      ]
    ]

-- What a check that returned has read.
pub record IsAllowed (event_id user_id : ℕ) (s : Store) (x : Event × RoleName) (s' : Store)
    : Type 0 where
  pub same : s' ≡ s
  pub found : find_event event_id s ≡ some x.0
  pub holds : role_in x.0 user_id s ≡ some x.1

pub require_event_role-IsAllowed :
    (event_id user_id : ℕ) (min_role : RoleName) (s : Store)
    → Ends (require_event_role event_id user_id min_role s) (IsAllowed event_id user_id s)
unfolding require_event_role resolve_role
require_event_role-IsAllowed event_id user_id min_role s =
    elim (Option-cases (find_event event_id s)) [
      | inl missing ↦ rw missing tt
      | inr (event, found) ↦ elim (Option-cases (role_in event user_id s)) [
        | inl stranger ↦ rw (found, stranger) tt
        | inr (role, holds) ↦ elim (Bool-cases (leb (role_rank min_role) (role_rank role))) [
          | inr low ↦ rw (found, holds, low) tt
          | inl enough ↦
              rw (found, holds, enough) (record { same = refl; found = found; holds = holds })
        ]
      ]
    ]

-- The check only reads.
pub require_event_role-same :
    (event_id user_id : ℕ) (min_role : RoleName) (s : Store)
    → Ends (require_event_role event_id user_id min_role s) (λ _ s'. s' ≡ s)
require_event_role-same event_id user_id min_role s =
    Ends-mono (IsAllowed event_id user_id s) _ (require_event_role event_id user_id min_role s)
      (λ x s' h. h.same) (require_event_role-IsAllowed event_id user_id min_role s)
