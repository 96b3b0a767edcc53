-- ===== src/System/Calls.antt =====
-- Runs of calls, one after another, with the provider's client as a parameter: of holds, orders, refunds,
-- the webhook, the door and the edits of existing events, and of the jobs that sweep holds and expire
-- orders. Calls that create events, ticket types or seat maps, and those of the team, of accounts and of
-- the outbox, are not among them.
pub mod Conserve
use openseat.Base.{ℕ, Option, List, [], ◌∷◌, Bool, false}
use openseat.Store.{Store, Text, OrderStatus}
use openseat.Holds.{acquire, release, sweep_expired}
use openseat.Orders.{expire_order, reconcile_expired, is_awaiting}
use openseat.Orders.Create.{CreateIntent}
use openseat.Orders.Create
use openseat.Orders.Plan.{Request as OrderRequest}
use openseat.Refunds.{CreateRefund, retry}
use openseat.Refunds.Create as RefundCreate
use openseat.Payments.{PaymockEvent, webhook}
use openseat.Checkin.{check_in}
use openseat.Events.{UpdateTicketType, UpdateEvent, update_details, publish}
use openseat.Events.Edit.{update_ticket_type}
use openseat.System.{after}

-- The status that `order-expiration.processor.ts` passes to `expireOrder` is the default, expired.
pub data Call : Type 0 where
  acquire_seat : (ttl event_id seat_id : ℕ) (holder_key : Text) → Call
  release_seat : (event_id seat_id : ℕ) (holder_key : Text) → Call
  sweep_holds : Call
  create_order : OrderRequest → Call
  expire_one : (order_id : ℕ) → Call
  reconcile_orders : Call
  create_refund : RefundCreate.Request → Call
  retry_refund : (refund_id user_id : ℕ) → Call
  receive : PaymockEvent → Call
  scan_ticket : (event_id user_id qr_token : ℕ) → Call
  change_type : (event_id type_id user_id : ℕ) (dto : UpdateTicketType) → Call
  change_event : (event_id user_id : ℕ) (dto : UpdateEvent) → Call
  publish_event : (event_id user_id : ℕ) → Call

-- The store after a call at the time `now`.
unfoldable pub serve : CreateIntent → CreateRefund → ℕ → Call → Store → Store
serve intent refund now (acquire_seat ttl event_id seat_id key) =
    after (acquire ttl event_id seat_id key now)
serve intent refund now (release_seat event_id seat_id key) = after (release event_id seat_id key)
serve intent refund now sweep_holds = after (sweep_expired now)
serve intent refund now (create_order r) = after (Create.create now intent r)
serve intent refund now (expire_one order_id) = after (expire_order order_id OrderStatus.expired)
serve intent refund now reconcile_orders = after (reconcile_expired now)
serve intent refund now (create_refund r) = after (RefundCreate.create now refund r)
serve intent refund now (retry_refund refund_id user_id) = after (retry refund refund_id user_id)
serve intent refund now (receive e) = after (webhook refund now e)
serve intent refund now (scan_ticket event_id user_id qr_token) =
    after (check_in now event_id user_id qr_token)
serve intent refund now (change_type event_id type_id user_id dto) =
    after (update_ticket_type event_id type_id user_id dto)
serve intent refund now (change_event event_id user_id dto) =
    after (update_details event_id user_id dto)
serve intent refund now (publish_event event_id user_id) = after (publish event_id user_id)

-- Calls in the order of their arrival, each with its time.
unfoldable pub serve_all : CreateIntent → CreateRefund → List (ℕ × Call) → Store → Store
serve_all intent refund [] s = s
serve_all intent refund ((now, call) ∷ calls) s =
    serve_all intent refund calls (serve intent refund now call s)
