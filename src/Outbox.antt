-- ===== src/Outbox.antt =====
-- apps/api/src/outbox/outbox.service.ts: the rows that transactions write, and the dispatcher that
-- handles them. Mail is a parameter: whether the client sends the message for an order.
pub mod Attempts
use mathlib.Core.List.{reverse}
use openseat.Base.{
  take, ℕ, zero, suc, ◌+◌, Bool, true, false, ◌&&◌, Option, none, some, List, [], ◌∷◌,
  if◌then◌else◌, ◌==◌, ltb, is_none, is_some, select, update, any, find,
}
use openseat.Store.{
  Store, OutboxEvent, OutboxPayload, ticket_issued, seats_sold, seats_released, order_updated,
  order_refunded, SeatChange,
}
use openseat.Store.Action.{
  Action, bad_gateway, record_not_found, ◌>>=◌, ◌>>◌, return, read, write, require, catch,
}
use openseat.Holds.{seats_changed, released_change}
use openseat.Orders.{find_order}

abbrev pub max_attempts : ℕ
max_attempts = 8

abbrev pub batch_size : ℕ
batch_size = 50

-- Whether the mail about an order is accepted.
abbrev pub SendMail : Type 0
SendMail = OutboxPayload → Bool

abbrev pub sold_change : List ℕ → SeatChange
sold_change ids = record { held = []; released = []; sold = ids }

-- `sendTicketEmail` and `sendRefundNotice`
unfoldable pub send_mail : SendMail → ℕ → OutboxPayload → Action (Unit {0})
send_mail mail order_id payload = do
  order ← read (find_order order_id)
  if is_some order then require (mail payload) bad_gateway else return tt

unfoldable pub handle : SendMail → OutboxPayload → Action (Unit {0})
handle mail (seats_sold event_id seat_ids) = seats_changed event_id (sold_change seat_ids)
handle mail (seats_released event_id seat_ids) = seats_changed event_id (released_change seat_ids)
handle mail (order_updated order_id status) = return tt
handle mail (ticket_issued order_id) = send_mail mail order_id (ticket_issued order_id)
handle mail (order_refunded order_id amount) =
    send_mail mail order_id (order_refunded order_id amount)

abbrev pub is_pending : OutboxEvent → Bool
is_pending e = is_none e.processed_at && ltb e.attempts max_attempts

-- The row as it was read.
abbrev pub is_unclaimed : OutboxEvent → OutboxEvent → Bool
is_unclaimed event e = e.id == event.id && is_none e.processed_at && e.attempts == event.attempts

abbrev pub add_attempt : OutboxEvent → OutboxEvent
add_attempt e = record e { attempts = e.attempts + 1 }

unfoldable pub claim_event : OutboxEvent → Action Bool
claim_event event s =
    if any (is_unclaimed event) s.outbox_events
    then return true
        (record s { outbox_events = update (is_unclaimed event) add_attempt s.outbox_events })
    else return false s

unfoldable pub mark_event : ℕ → ℕ → Action (Unit {0})
mark_event now event_id = do
  found ← read (λ s. any (λ e. e.id == event_id) s.outbox_events)
  require found record_not_found
  write λ s. record s {
    outbox_events =
        update (λ e. e.id == event_id) (λ e. record e { processed_at = some now }) s.outbox_events;
  }

unfoldable pub deliver : SendMail → ℕ → OutboxEvent → Action Bool
deliver mail now event =
    catch (do handle mail event.payload; mark_event now event.id; return true) (λ e. return false)

-- The loop of `dispatchPending`: how many events it processed.
unfoldable pub dispatch_each : SendMail → ℕ → List OutboxEvent → ℕ → Action ℕ
dispatch_each mail now [] n = return n
dispatch_each mail now (event ∷ events) n = do
  claimed ← claim_event event
  processed ← if claimed then deliver mail now event else return false
  dispatch_each mail now events (if processed then n + 1 else n)

-- Rows are kept newest first.
unfoldable pub pending_batch : Store → List OutboxEvent
unfolding take
pending_batch s = take batch_size (reverse (select is_pending s.outbox_events))

unfoldable pub dispatch_pending : SendMail → ℕ → Action ℕ
dispatch_pending mail now = do events ← read pending_batch; dispatch_each mail now events 0
