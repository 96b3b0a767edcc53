-- ===== src/Dashboard/Agreement.antt =====
-- The numbers of the list of an organizer's events and those of an event's summary.
use openseat.Base.{
  ℕ, ◌+◌, ◌≡◌, refl, sym, subst, is_some-find, ◌∙◌, ap, inl, inr, Bool, ◌&&◌, List, [], ◌∷◌, map,
  if◌then◌else◌, ◌==◌, Bool-cases, select, count, some, none, true, find, is_just, Option-cases,
  find_holds, ==_iff, arith,
}
use openseat.Store.{Store, Ticket, Event}
use openseat.Store.Action.{ok, Ends, Ends-at, continue-Ends}
use openseat.Access.{RoleName, require_event_role, role_in, membership_role, find_event}
use openseat.Events.{is_mine}
use openseat.Inventory.{add_count, counts_of}
use openseat.Access.Roles.{IsAllowed, require_event_role-IsAllowed}
use openseat.Dashboard.Cards.{
  get_or_zero, tickets_by_event, is_sold, is_admitted, card, EventSummary, event_summary, EventCard,
  organizer_events, card_role, member_role,
}

get-add_count :
    (k j : ℕ) (m : List (ℕ × ℕ))
    → get_or_zero k (add_count j m) ≡ get_or_zero k m + (if j == k then 1 else 0)
unfolding get_or_zero add_count
get-add_count k j [] = ground arith
get-add_count k j ((i, n) ∷ m) = ground (arith, get-add_count k j m)

-- A `groupBy` with its look-up counts the keys.
pub get-counts_of :
    (k : ℕ) (m : List (ℕ × ℕ)) (ks : List ℕ)
    → get_or_zero k (counts_of m ks) ≡ get_or_zero k m + count (λ j. j == k) ks
unfolding counts_of count
get-counts_of k m [] = omega arith
get-counts_of k m (j ∷ ks) = omega (arith, get-counts_of k (add_count j m) ks, get-add_count k j m)

-- The keys of the rows that satisfy a test.
pub count-keys :
    (k : ℕ) (key : Ticket → ℕ) (p : Ticket → Bool) (ts : List Ticket)
    → count (λ j. j == k) (map key (select p ts)) ≡ count (λ t. key t == k && p t) ts
unfolding count select
count-keys k key p [] = refl
count-keys k key p (t ∷ ts) = elim (Bool-cases (p t)) [
  | inl hit ↦ rw hit (ground (arith, count-keys k key p ts))
  | inr miss ↦ rw miss (ground (arith, count-keys k key p ts))
]

grouped :
    (k : ℕ) (p : Ticket → Bool) (ts : List Ticket)
    → get_or_zero k (tickets_by_event p ts) ≡ count (λ t. t.event_id == k && p t) ts
unfolding tickets_by_event get_or_zero
grouped k p ts =
    get-counts_of k [] (map (λ t. t.event_id) (select p ts))
    ∙ omega (arith, count-keys k (λ t. t.event_id) p ts)

-- The card and the summary of an event agree.
record Agrees (event_id user_id : ℕ) (s : Store) (summary : EventSummary) : Type 0 where
  found : find (λ e. e.id == event_id) s.events ≡ some summary.event
  holds : role_in summary.event user_id s ≡ some summary.my_role
  sold : (card user_id s summary.event).tickets_sold ≡ summary.tickets_sold
  checked_in : (card user_id s summary.event).tickets_checked_in ≡ summary.tickets_checked_in
  role : (card user_id s summary.event).my_role ≡ summary.my_role

same_role :
    (event : Event) (user_id : ℕ) (role : RoleName) (s : Store)
    → role_in event user_id s ≡ some role
    → card_role user_id s event ≡ role
unfolding card_role role_in membership_role member_role
same_role event user_id role s holds = ground (arith, holds)

agreement :
    (event_id user_id : ℕ) (s : Store) (event : Event) (role : RoleName)
    → event.id ≡ event_id
    → find (λ e. e.id == event_id) s.events ≡ some event
    → role_in event user_id s ≡ some role
    → Agrees event_id user_id s (record {
      event = event;
      tickets_sold = count (λ t. t.event_id == event_id && is_sold t) s.tickets;
      tickets_checked_in = count (λ t. t.event_id == event_id && is_admitted t) s.tickets;
      my_role = role;
    })
unfolding card
agreement event_id user_id s event role same found holds = record {
  found = found;
  holds = holds;
  sold =
      grouped event.id is_sold s.tickets
      ∙ ap (λ (k : ℕ). count (λ t. t.event_id == k && is_sold t) s.tickets) same;
  checked_in =
      grouped event.id is_admitted s.tickets
      ∙ ap (λ (k : ℕ). count (λ t. t.event_id == k && is_admitted t) s.tickets) same;
  role = same_role event user_id role s holds;
}

summary-Ends :
    (event_id user_id : ℕ) (s : Store)
    → Ends (event_summary event_id user_id s) (λ summary _. Agrees event_id user_id s summary)
unfolding event_summary find_event
summary-Ends event_id user_id s =
    continue-Ends (IsAllowed event_id user_id s)
      (require_event_role event_id user_id RoleName.staff s) _ _
      (require_event_role-IsAllowed event_id user_id RoleName.staff s)
      λ x s₁ a.
        let same : x.0.id ≡ event_id =
          (==_iff _ _).0 (find_holds (λ e. e.id == event_id) s.events x.0 a.found) in
        rw a.same (agreement event_id user_id s x.0 x.1 same a.found a.holds)

-- An event that a user has a role on is in the user's list.
listed :
    (user_id : ℕ) (event : Event) (role : RoleName) (s : Store)
    → role_in event user_id s ≡ some role
    → is_mine user_id s event ≡ true
unfolding role_in membership_role is_mine
listed user_id event role s holds = elim (Bool-cases (event.organizer_id == user_id)) [
  | inl mine ↦ rw mine refl
  | inr other ↦
      elim (Option-cases
        (find (λ m. m.event_id == event.id && is_just m.user_id user_id) s.team_members)) [
          | inl gone ↦ absurd (ground (arith, other, gone, holds))
          | inr (m, row) ↦ rw other (
              sym (
                is_some-find (λ m. m.event_id == event.id && is_just m.user_id user_id)
                  s.team_members)
              ∙ rw row refl)
        ]
]

-- The first event of an id is the one whose card a list shows for it.
find-card :
    (k user_id : ℕ) (s : Store) (p : Event → Bool) (es : List Event) (event : Event)
    → find (λ e. e.id == k) es ≡ some event
    → p event ≡ true
    → find (λ (c : EventCard). c.event.id == k) (map (card user_id s) (select p es))
      ≡ some (card user_id s event)
unfolding find select card
find-card k user_id s p [] event found mine = ground (arith, found)
find-card k user_id s p (e ∷ es) event found mine = elim (Bool-cases (e.id == k)) [
  | inl here ↦
      let first : some e ≡ some event = rw here at found in
      let same : e ≡ event = ap (λ o. elim o [ none ↦ e | some x ↦ x ]) first in
      rw (subst (λ x. p x ≡ true) (sym same) mine, here) (ap (λ x. some (card user_id s x)) same)
  | inr later ↦
      let rest = find-card k user_id s p es event (rw later at found) mine in
      elim (Bool-cases (p e)) [ inl hit ↦ rw (hit, later) rest | inr miss ↦ rw miss rest ]
]

-- Where the summary of an event was returned to a user, the list of the user's events shows a card
-- for it, with the same numbers of sold and of checked-in tickets, which the list takes from
-- grouped counts, and with the same role.
pub card-event_summary :
    (event_id user_id : ℕ) (s s' : Store) (summary : EventSummary)
    → event_summary event_id user_id s ≡ (ok summary, s')
    → (cards : List EventCard) × (c : EventCard) × (organizer_events user_id s ≡ (ok cards, s))
      × (find (λ (x : EventCard). x.event.id == event_id) cards ≡ some c)
      × (c.tickets_sold ≡ summary.tickets_sold)
      × (c.tickets_checked_in ≡ summary.tickets_checked_in)
      × (c.my_role ≡ summary.my_role)
unfolding organizer_events
card-event_summary event_id user_id s s' summary done = (
  map (card user_id s) (select (is_mine user_id s) s.events),
  card user_id s summary.event,
  refl,
  find-card event_id user_id s (is_mine user_id s) s.events summary.event p.found
      (listed user_id summary.event summary.my_role s p.holds),
  p.sold,
  p.checked_in,
  p.role,
)
  where
    p : Agrees event_id user_id s summary
    p = Ends-at _ done (summary-Ends event_id user_id s)
