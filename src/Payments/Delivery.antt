-- ===== src/Payments/Delivery.antt =====
-- A second delivery of an event of the provider.
use openseat.Base.{
  ℕ, ◌≡◌, refl, inl, inr, Bool, true, false, Bool-cases, none, some, any, find, find-update,
  any-update_blind, find-any, arith, List, ◌∷◌,
}
use openseat.Store.{Store, WebhookEvent}
use openseat.Store.Action.{Ends-at, Action, continue, Ends, continue-Ends, ok, return, ◌>>◌}
use openseat.Store.Keeps.{Keeps-Ends}
use openseat.Refunds.{CreateRefund}
use openseat.Refunds.Keeps.{webhooks_of}
use openseat.Payments.{
  PaymockEvent, RecordResult, fresh, unprocessed, processed, is_event, record_event, mark_processed,
  state_of, dispatch, process_event, webhook,
}
use openseat.Payments.Webhook.{dispatch-webhooks}

-- The event has a row.
abbrev IsRecorded : PaymockEvent → List WebhookEvent → Type 0
IsRecorded e rows = any (is_event e.id) rows ≡ true

-- The row of the event says that it is processed.
abbrev IsDone : PaymockEvent → Store → Type 0
IsDone e s = record_event e s ≡ (ok processed, s)

abbrev Recorded : PaymockEvent → RecordResult → Store → Type 0
Recorded e processed s = IsDone e s
Recorded e fresh s = IsRecorded e s.webhook_events
Recorded e unprocessed s = IsRecorded e s.webhook_events

state-Recorded :
    (e : PaymockEvent) (s : Store) (state : RecordResult)
    → any (is_event e.id) s.webhook_events ≡ true
    → record_event e s ≡ (ok state, s)
    → Recorded e state s
state-Recorded e s processed row done = done
state-Recorded e s fresh row done = row
state-Recorded e s unprocessed row done = row

first_row :
    (e : PaymockEvent) (s : Store)
    → IsRecorded e (
        record { provider_event_id = e.id; type = e.type_name; processed_at = none }
        ∷ s.webhook_events)
unfolding any
first_row e s = ground arith

record_event-Recorded :
    (e : PaymockEvent) (s : Store) → Ends (record_event e s) (λ state s'. Recorded e state s')
unfolding record_event
record_event-Recorded e s = elim (Bool-cases (any (is_event e.id) s.webhook_events)) [
  | inr new ↦ rw new (first_row e s)
  | inl seen ↦
      rw seen
        (state-Recorded e s (state_of (find (is_event e.id) s.webhook_events)) seen (rw seen refl))
]

mark_processed-IsDone :
    (now : ℕ) (e : PaymockEvent) (s : Store)
    → IsRecorded e s.webhook_events
    → Ends (mark_processed now e.id s) (λ _ s'. IsDone e s')
unfolding mark_processed record_event
mark_processed-IsDone now e s row =
    let (before, found, named) : (w : WebhookEvent) × (find (is_event e.id) s.webhook_events
          ≡ some w)
        × (is_event e.id w ≡ true) =
      find-any (is_event e.id) s.webhook_events row in
    rw
      (
        any-update_blind (is_event e.id) (is_event e.id) (λ w. record w { processed_at = some now })
            (λ w. refl) s.webhook_events,
        find-update (is_event e.id) (is_event e.id) (λ w. record w { processed_at = some now })
            (λ w. refl) s.webhook_events,
        row,
        found,
        named,
      )
      refl

IsDone-webhook :
    (create_refund : CreateRefund) (now : ℕ) (e : PaymockEvent) (s : Store)
    → IsDone e s
    → webhook create_refund now e s ≡ (ok true, s)
unfolding webhook
IsDone-webhook create_refund now e s done = rw done refl

processes :
    (create_refund : CreateRefund) (now : ℕ) (e : PaymockEvent) (s : Store)
    → IsRecorded e s.webhook_events
    → Ends (process_event create_refund now e s) (λ _ s'. IsDone e s')
unfolding process_event
processes create_refund now e s row =
    continue-Ends (λ _ s₁. IsRecorded e s₁.webhook_events) (dispatch create_refund now e e.type s) _
      _
      (Keeps-Ends webhooks_of (IsRecorded e) s (dispatch create_refund now e e.type s)
        (dispatch-webhooks create_refund now e e.type s) row)
      (λ _ s₁. mark_processed-IsDone now e s₁)

webhook-Ends :
    (create_refund again : CreateRefund) (now later : ℕ) (e : PaymockEvent) (s : Store)
    → Ends (webhook create_refund now e s) (λ _ s'. webhook again later e s' ≡ (ok true, s'))
unfolding webhook
webhook-Ends create_refund again now later e s =
    continue-Ends (Recorded e) (record_event e s) _ _ (record_event-Recorded e s) after_record
  where
    ended :
        (s₁ : Store)
        → IsRecorded e s₁.webhook_events
        → Ends
            (continue (process_event create_refund now e s₁) (λ _. return false))
            (λ _ s'. webhook again later e s' ≡ (ok true, s'))
    ended s₁ row =
        continue-Ends (λ _ s₂. IsDone e s₂) (process_event create_refund now e s₁) _ _
          (processes create_refund now e s₁ row) (λ _ s₂. IsDone-webhook again later e s₂)

    after_record :
        (recorded : RecordResult) (s₁ : Store)
        → Recorded e recorded s₁
        → Ends
            ((elim recorded as (λ x. Action Bool) [
              | processed ↦ return true
              | fresh ↦ (do process_event create_refund now e; return false)
              | unprocessed ↦ (do process_event create_refund now e; return false)
            ])
              s₁)
            (λ _ s'. webhook again later e s' ≡ (ok true, s'))
    after_record processed s₁ done = IsDone-webhook again later e s₁ done
    after_record fresh s₁ row = ended s₁ row
    after_record unprocessed s₁ row = ended s₁ row

-- When the handler of the webhook answered an event, the same event again, at any time and with any
-- client of the provider, is answered as a duplicate and changes nothing.
pub webhook-once :
    (create_refund again : CreateRefund) (now later : ℕ) (e : PaymockEvent) (s s' : Store)
    (duplicate : Bool)
    → webhook create_refund now e s ≡ (ok duplicate, s')
    → webhook again later e s' ≡ (ok true, s')
webhook-once create_refund again now later e s s' duplicate answered =
    Ends-at _ answered (webhook-Ends create_refund again now later e s)
