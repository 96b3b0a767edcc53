-- ===== src/Events/Visible.antt =====
-- Who sees an event by its slug.
use openseat.Base.{
  ℕ, ◌≡◌, refl, ◌∙◌, inl, inr, true, not, Option, none, some, Bool-cases, Option-cases, find, count,
  ltb, is_some, ◌==◌, text_eq, arith, List, [], ◌∷◌, update,
}
use openseat.Store.{Store, Text, Event, draft, published}
use openseat.Store.Action.{ok, err, Ends, Ends-at, anything, continue-Ends, require-Ends, not_found}
use openseat.Access.{manager, role_in, find_event, require_event_role}
use openseat.Holds.Exclusive.{succeeds}
use openseat.Events.{EventDetail, is_hidden, get_by_slug, update_event, as_published, publish}

seen :
    (slug : Text) (viewer : Option ℕ) (event : Event) (s : Store)
    → find (λ e. text_eq e.slug slug) s.events ≡ some event
    → succeeds (get_by_slug slug viewer s).0 ≡ not (is_hidden event viewer s)
unfolding get_by_slug
seen slug viewer event s found = elim (Bool-cases (is_hidden event viewer s)) [
  | inl hidden ↦ rw (found, hidden) refl
  | inr shown ↦ rw (found, shown) refl
]

hidden_draft :
    (event : Event) (v : ℕ) (s : Store)
    → event.status ≡ draft
    → not (is_hidden event (some v) s) ≡ is_some (role_in event v s)
unfolding is_hidden role_in
hidden_draft event v s status = elim (Bool-cases (event.organizer_id == v)) [
  | inl owner ↦ ground (arith, owner, status)
  | inr other ↦ ground (arith, other, status)
]

-- The page of a draft answers "not found" to a visitor who is not signed in, and is shown to a user
-- exactly when the role check finds a role of the user on the event: the organizer and the team.
pub get_by_slug-draft :
    (slug : Text) (event : Event) (s : Store)
    → find (λ e. text_eq e.slug slug) s.events ≡ some event
    → event.status ≡ draft
    → ((get_by_slug slug none s).0 ≡ err (not_found "Event not found"))
      × ((v : ℕ) → succeeds (get_by_slug slug (some v) s).0 ≡ is_some (role_in event v s))
unfolding get_by_slug is_hidden
get_by_slug-draft slug event s found status =
    (rw (found, status) refl, λ v. seen slug (some v) event s found ∙ hidden_draft event v s status)

open_to_all :
    (event : Event) (viewer : Option ℕ) (s : Store)
    → event.status ≡ published
    → not (is_hidden event viewer s) ≡ true
unfolding is_hidden
open_to_all event viewer s status = rw status refl

-- What a publication leaves.
record Published (event_id : ℕ) (d : EventDetail) (s : Store) : Type 0 where
  event : find_event event_id s ≡ some d.event
  status : d.event.status ≡ published
  sells : ltb 0 (count (λ t. t.event_id == event_id) s.ticket_types) ≡ true

found_published :
    (k : ℕ) (es : List Event) (e : Event)
    → find (λ e. e.id == k) (update (λ e. e.id == k) as_published es) ≡ some e
    → e.status ≡ published
unfolding find update
found_published k [] e found = ground (arith, found)
found_published k (x ∷ es) e found = ground (arith, found_published k es e, found)

publish-Ends :
    (event_id user_id : ℕ) (s : Store) → Ends (publish event_id user_id s) (Published event_id)
unfolding publish update_event find_event
publish-Ends event_id user_id s =
    continue-Ends (λ _ _. Unit {0}) (require_event_role event_id user_id manager s) _ _ (anything _)
      λ allowed s₁ _.
        require-Ends (ltb 0 (count (λ t. t.event_id == event_id) s₁.ticket_types)) _ s₁ _ _ λ sells.
          elim (Option-cases (
            find (λ e. e.id == event_id) (update (λ e. e.id == event_id) as_published s₁.events))) [
              | inl missing ↦ rw missing tt
              | inr (e, found) ↦ rw found (record {
                event = found;
                status = found_published event_id s₁.events e found;
                sells = sells;
              })
            ]

-- After a publication that returned, the event has a ticket type and is published, and whoever asks
-- for the slug that leads to it gets it.
pub publish-seen :
    (event_id user_id : ℕ) (slug : Text) (viewer : Option ℕ) (s s' : Store) (d : EventDetail)
    → publish event_id user_id s ≡ (ok d, s')
    → find (λ e. text_eq e.slug slug) s'.events ≡ some d.event
    → (ltb 0 (count (λ t. t.event_id == event_id) s'.ticket_types) ≡ true)
      × (find_event event_id s' ≡ some d.event)
      × (succeeds (get_by_slug slug viewer s').0 ≡ true)
publish-seen event_id user_id slug viewer s s' d done found = (p.sells, p.event, shown)
  where
    p : Published event_id d s'
    p = Ends-at _ done (publish-Ends event_id user_id s)

    shown : succeeds (get_by_slug slug viewer s').0 ≡ true
    shown = seen slug viewer d.event s' found ∙ open_to_all d.event viewer s' p.status
