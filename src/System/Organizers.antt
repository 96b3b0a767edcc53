-- ===== src/System/Organizers.antt =====
-- The calls of organizers on existing events, as sequences of steps.
use openseat.Base.{ℕ, ◌==◌, ltb, count}
use openseat.Store.{Event}
use openseat.Store.Action.{require, bad_request}
use openseat.Access.{manager, require_event_role}
use openseat.Events.{
  UpdateTicketType, UpdateEvent, update_event, edit_event, as_published, update_details, publish,
}
use openseat.Events.Edit.{update_ticket_type}
use openseat.System.{Step, Reach-step}
use openseat.System.Runs.{Runs, continue-Reach, require-Runs}
use openseat.System.Money.{require_event_role-Runs}

update_event-Runs : (event_id : ℕ) (change : Event → Event) → Runs (update_event event_id change)
update_event-Runs event_id change s = Reach-step (Step.edit_event event_id change)

pub update_details-Runs :
    (event_id user_id : ℕ) (dto : UpdateEvent) → Runs (update_details event_id user_id dto)
unfolding update_details
update_details-Runs event_id user_id dto s =
    continue-Reach s (require_event_role event_id user_id manager s) _
      (require_event_role-Runs event_id user_id manager s)
      (λ _. update_event-Runs event_id (edit_event dto))

pub publish-Runs : (event_id user_id : ℕ) → Runs (publish event_id user_id)
unfolding publish
publish-Runs event_id user_id s =
    continue-Reach s (require_event_role event_id user_id manager s) _
      (require_event_role-Runs event_id user_id manager s)
      λ _ s₁.
        continue-Reach s₁
          (require (ltb 0 (count (λ t. t.event_id == event_id) s₁.ticket_types)) _ s₁) _
          (require-Runs _ (bad_request "Add at least one ticket type before publishing") s₁)
          (λ _. update_event-Runs event_id as_published)

pub update_ticket_type-Runs :
    (event_id type_id user_id : ℕ) (dto : UpdateTicketType)
    → Runs (update_ticket_type event_id type_id user_id dto)
unfolding update_ticket_type
update_ticket_type-Runs event_id type_id user_id dto s =
    continue-Reach s (require_event_role event_id user_id manager s) _
      (require_event_role-Runs event_id user_id manager s)
      (λ _ s₁. Reach-step (Step.edit_capacity event_id type_id dto))
