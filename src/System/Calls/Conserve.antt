-- ===== src/System/Calls/Conserve.antt =====
-- Runs of the calls of `System.Calls`, and the inventory.
use openseat.Base.{ℕ, ◌+◌, ◌≡◌, refl, List, [], ◌∷◌, All, All-mono, sum_of, count, arith}
use openseat.Store.{Store, TicketType, OrderStatus}
use openseat.Orders.Create.{CreateIntent}
use openseat.Refunds.{CreateRefund}
use openseat.Books.{
  zero_offset, Books, Distinct, IsSeated, in_checkout, issued_of, only_if, claimed_in, is_live_of,
}
use openseat.Inventory.{is_ga}
use openseat.System.{Reach}
use openseat.System.Inventory.{Reach-Books}
use openseat.System.Handlers.{acquire-Runs, create-Reach, expire_order-Runs}
use openseat.System.Money.{retry-Runs}
use openseat.System.Service.{
  release-Runs, sweep_expired-Runs, refund_create-Runs, reconcile_expired-Runs, webhook-Runs,
  check_in-Runs,
}
use openseat.System.Organizers.{update_ticket_type-Runs, update_details-Runs, publish-Runs}
use openseat.System.Calls.{
  Call, acquire_seat, release_seat, sweep_holds, create_order, expire_one, reconcile_orders,
  create_refund, retry_refund, receive, scan_ticket, change_type, change_event, publish_event,
  serve, serve_all,
}

-- From a store with balanced books, each of the thirteen calls of System.Calls.Call (holds,
-- orders, refunds, events of the provider, scans, edits of events and ticket types, publication,
-- and the jobs that sweep holds and expire or reconcile orders), with all its early returns,
-- errors and rollbacks, is a sequence of the steps of System.Step. Calls that create events,
-- ticket types or seat maps, and those of the team, of accounts and of the outbox, are not
-- covered.
pub serve-Reach :
    (intent : CreateIntent) (refund : CreateRefund) (now : ℕ) (call : Call) (s : Store)
    → Books zero_offset zero_offset s
    → Reach s (serve intent refund now call s)
unfolding serve
serve-Reach intent refund now (acquire_seat ttl e x key) s b = acquire-Runs ttl e x key now s
serve-Reach intent refund now (release_seat e x key) s b = release-Runs e x key s
serve-Reach intent refund now sweep_holds s b = sweep_expired-Runs now s
serve-Reach intent refund now (create_order r) s b = create-Reach now intent r s b
serve-Reach intent refund now (expire_one o) s b = expire_order-Runs o OrderStatus.expired refl s
serve-Reach intent refund now reconcile_orders s b = reconcile_expired-Runs now s
serve-Reach intent refund now (create_refund r) s b = refund_create-Runs now refund r s
serve-Reach intent refund now (retry_refund r u) s b = retry-Runs refund r u s
serve-Reach intent refund now (receive e) s b = webhook-Runs refund now e s
serve-Reach intent refund now (scan_ticket e u qr) s b = check_in-Runs now e u qr s
serve-Reach intent refund now (change_type e k u dto) s b = update_ticket_type-Runs e k u dto s
serve-Reach intent refund now (change_event e u dto) s b = update_details-Runs e u dto s
serve-Reach intent refund now (publish_event e u) s b = publish-Runs e u s

-- A run keeps the books.
serve_all-Books :
    (intent : CreateIntent) (refund : CreateRefund) (calls : List (ℕ × Call)) (s : Store)
    → Books zero_offset zero_offset s
    → Books zero_offset zero_offset (serve_all intent refund calls s)
unfolding serve_all
serve_all-Books intent refund [] s b = b
serve_all-Books intent refund ((now, call) ∷ calls) s b =
    serve_all-Books intent refund calls (serve intent refund now call s)
      (Reach-Books (serve-Reach intent refund now call s b) b)

-- A store before its first order: all of every type remains, type ids are distinct and seats are of
-- seated types.
pub record IsFresh (s : Store) : Type 0 where
  pub types : Distinct s.ticket_types
  pub seats : All (λ x. IsSeated s.ticket_types x.ticket_type_id) s.seats
  pub no_orders : s.orders ≡ []
  pub no_tickets : s.tickets ≡ []
  pub full : All (λ t. t.remaining ≡ t.quantity) s.ticket_types

full_row :
    (t : TicketType)
    → t.remaining ≡ t.quantity
    → t.remaining
        + only_if (is_ga t.kind) (sum_of (claimed_in t.id) [])
        + count (is_live_of t.id) []
        + zero_offset (is_ga t.kind) t.id
      ≡ t.quantity + zero_offset (is_ga t.kind) t.id
unfolding sum_of count
full_row t full = ground arith

pub IsFresh-Books : (s : Store) → IsFresh s → Books zero_offset zero_offset s
IsFresh-Books s f = record {
  types = f.types;
  orders = rw f.no_orders tt;
  seats = f.seats;
  rows =
      All-mono s.ticket_types (λ t full. rw (f.no_orders, f.no_tickets) (full_row t full)) f.full;
}

-- From a store before its first order, with any answers of the provider's client, take any run of
-- these calls: acquiring, releasing and sweeping holds; creating, expiring and reconciling orders;
-- creating and retrying refunds; events of the provider; scans at the door; editing ticket types
-- and events, and publishing. After it, for every ticket type: remaining + claimed by unpaid
-- orders (general admission only) + tickets that are not void = quantity. Calls that create
-- events, ticket types or seat maps, and those of the team, of accounts and of the outbox, are not
-- in the runs.
pub runs_conserve :
    (intent : CreateIntent) (refund : CreateRefund) (calls : List (ℕ × Call)) (s : Store)
    → IsFresh s
    → All
        (λ t.
          t.remaining
            + in_checkout (serve_all intent refund calls s) t
            + issued_of (serve_all intent refund calls s) t
          ≡ t.quantity)
        (serve_all intent refund calls s).ticket_types
runs_conserve intent refund calls s f =
    All-mono _ (λ x row. omega arith)
      (serve_all-Books intent refund calls s (IsFresh-Books s f)).rows
