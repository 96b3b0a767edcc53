-- ===== src/System.antt =====
-- A relation on stores: one step is one transaction or one write of the services of holds, orders,
-- payments, refunds, check-in and events, of the provider's webhook or of the jobs that sweep holds and
-- expire orders. The creation of seat maps, the team, accounts and the outbox have no steps here.
pub mod Inventory
pub mod Plans
pub mod Runs
pub mod Handlers
pub mod Money
pub mod Service
pub mod Organizers
pub mod Calls
use openseat.Base.{ℕ, ◌≡◌, Bool, false, Option, some, List}
use openseat.Store.{Store, Text, Event, Hold, OrderStatus, Payment, RefundStatus, SeatChange}
use openseat.Store.Action.{Action, transaction}
use openseat.Holds.{claim_seat, refresh_hold, release, sweep_expired, seats_changed}
use openseat.Orders.{is_awaiting, release_order_inventory_in_tx}
use openseat.Orders.Create.{place_order, insert_payment}
use openseat.Orders.Plan.{Plan}
use openseat.Refunds.{claim_refund, set_provider_id, insert_refund, compensation}
use openseat.Refunds.Create.{reclaim, Plan as RefundPlan}
use openseat.Payments.{
  PaymockEvent, capture, cancel, settle_reference, record_event, mark_processed,
}
use openseat.Checkin.{claim_ticket}
use openseat.Events.{
  UpdateTicketType, CreateEvent, TicketTypeInput, update_event, insert_event, insert_type,
}
use openseat.Events.Edit.{edit_in_tx}
use openseat.Events.Added.{IsUnreferenced}
use openseat.Books.Place
use openseat.Books.Reclaim

-- The store after an action, whether it threw or not.
abbrev pub after : {A : Type 0} → Action A → Store → Store
after m s = (m s).1

pub data Step (s : Store) : Store → Type 0 where
  claim_hold :
      (event_id seat_id : ℕ) (key : Text) (expires_at now : ℕ)
      → Step s (after (claim_seat event_id seat_id key expires_at now) s)
  refresh : (hold_id expires_at : ℕ) → Step s (after (refresh_hold hold_id expires_at) s)
  release_hold :
      (event_id seat_id : ℕ) (key : Text) → Step s (after (release event_id seat_id key) s)
  sweep : (now : ℕ) → Step s (after (sweep_expired now) s)
  place :
      (now : ℕ) (p : Plan) → Place.IsPlan s p → Step s (after (transaction (place_order now p)) s)
  open_payment : (p : Payment) → Step s (after (insert_payment p) s)
  close_order :
      (order_id : ℕ) (status : OrderStatus)
      → is_awaiting status ≡ false
      → Step s (after (transaction (release_order_inventory_in_tx order_id status)) s)
  capture_payment : (intent_id : ℕ) → Step s (after (transaction (capture intent_id)) s)
  cancel_payment : (intent_id : ℕ) → Step s (after (transaction (cancel intent_id)) s)
  refund_tickets :
      (now : ℕ) (p : RefundPlan)
      → Reclaim.IsPlan s p
      → Step s (after (transaction (reclaim now p)) s)
  compensate :
      (order_id amount : ℕ) → Step s (after (insert_refund (compensation order_id amount)) s)
  move_refund :
      (refund_id : ℕ) (from to : RefundStatus)
      → Step s (after (claim_refund refund_id from (λ r. record r { status = to })) s)
  name_refund :
      (refund_id provider_id : ℕ) → Step s (after (set_provider_id refund_id provider_id) s)
  settle_refund :
      (now : ℕ) (provider_id : Option ℕ) (reference : ℕ)
      → Step s (after (transaction (settle_reference now provider_id reference)) s)
  record_webhook : (e : PaymockEvent) → Step s (after (record_event e) s)
  mark_webhook : (now event_id : ℕ) → Step s (after (mark_processed now event_id) s)
  admit_ticket : (now ticket_id : ℕ) → Step s (after (claim_ticket now ticket_id) s)
  edit_capacity :
      (event_id type_id : ℕ) (dto : UpdateTicketType)
      → Step s (after (transaction (edit_in_tx event_id type_id dto)) s)
  edit_event :
      (event_id : ℕ) (change : Event → Event) → Step s (after (update_event event_id change) s)
  new_event :
      (now organizer_id : ℕ) (slug : Text) (dto : CreateEvent)
      → Step s (after (insert_event now organizer_id slug dto) s)
  new_type :
      (event_id : ℕ) (i : TicketTypeInput)
      → IsUnreferenced s.next_id s
      → Step s (after (insert_type event_id i) s)
  notify : (event_id : ℕ) (change : SeatChange) → Step s (after (seats_changed event_id change) s)

pub data Reach (s : Store) : Store → Type 0 where
  here : Reach s s
  next : {t u : Store} → Reach s t → Step t u → Reach s u

pub Reach-trans : {s t u : Store} → Reach s t → Reach t u → Reach s u
Reach-trans r here = r
Reach-trans r (next q st) = next (Reach-trans r q) st

pub Reach-step : {s t : Store} → Step s t → Reach s t
Reach-step st = next here st
