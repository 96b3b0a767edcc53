-- ===== src/Lib.antt =====
-- A model of openseat, a ticketing API over NestJS, Prisma and PostgreSQL (apps/api): seats are held,
-- orders claim inventory, a payment provider reports outcomes by webhooks, tickets are issued,
-- refunded and checked in, and background jobs release what expires. All services share one database;
-- they interact through its tables, through calls inside one transaction, and through the outbox.
--
-- Files and what they model:
--   Base: lists as tables (select, find, update, delete), sums, texts and Boolean tests.
--   Store: the tables of apps/api/prisma/schema.prisma; Store.Action: effects of a service method,
--   with exceptions, transactions that roll back, and catch.
--   Access: apps/api/src/access/access.service.ts.
--   Holds: apps/api/src/holds/holds.service.ts. `acquire` is the chain of its statements, of which
--   `claim_seat` is the transaction.
--   Inventory: the writes on ticket types, tickets and the outbox that several services share, with
--   the constraints of the database on them.
--   Orders, Orders.Plan, Orders.Create: apps/api/src/orders/orders.service.ts and order-status.ts.
--   `validate` is what `create` checks first, `place_order` the body of its transaction, `finish` and
--   `recover` what follows it.
--   Refunds, Refunds.Create: apps/api/src/refunds/refunds.service.ts. `reclaim` is the transaction of
--   `create`, `send_money_leg` the call of the provider.
--   Payments: apps/api/src/payments/payments.service.ts and the handler of payments.controller.ts.
--   `capture`, `cancel` and `settle_reference` are the transactions of handleSucceeded, handleFailed
--   and handleRefunded.
--   Orders.Reconcile is about `reconcileExpired`.
--   Checkin: apps/api/src/checkin/checkin.service.ts, the scan of a ticket; Checkin.Csv: its file of
--   attendees; Checkin.Csv.Parse: a reader of such files, which the source does not have.
--   Realtime: apps/api/src/realtime/realtime.service.ts, the batches of seat changes.
--   Outbox: apps/api/src/outbox/outbox.service.ts, the dispatcher of outbox rows.
--   SeatMaps, SeatMaps.Create: getForEvent and create of
--   apps/api/src/seatmaps/seatmaps.service.ts. `place_section` is a round of the loop over sections.
--   Events, Events.Edit: apps/api/src/events/events.service.ts; Events.Slug: its slugify.
--   `apply_edit` is what the transaction of updateTicketType does with the row that it read.
--   Auth, Auth.Accounts: apps/api/src/auth/auth.service.ts. `rotate_read` is what rotateRefreshToken
--   does with the row that it read.
--   Admission: apps/api/src/admission/admission-token.ts and admission.guard.ts.
--   Dashboard, with Cards, Timeline and Rows: apps/api/src/dashboard/dashboard.service.ts.
--   Team: apps/api/src/team/team.service.ts.
--   Draft, Draft.Publish: apps/web/src/lib/use-seat-map-draft.ts, the history of a seat map's draft, and
--   the checks and the request of its publication.
--   SeatHolds: apps/web/src/lib/use-seat-holds.ts, the seats that the browser shows.
--   DoorScanner: apps/web/src/lib/use-door-scanner.ts; DoorScanner.Count composes it with the API, from
--   Checkin.Counted.
--   Books: inventory as three tables count it, up to the offsets of an open transaction.
--   System: a step relation on stores, one step for each transaction or write of its own, of the services
--   of holds, orders, payments, refunds, check-in and events; System.Calls: runs of whole calls of them.
--   The creation of seat maps, the team, accounts and the outbox are modelled, but are not steps or calls
--   there.
--   Examples: a small shop. Its children apply the theorems to calls of it.
--
-- Choices of the model. Ids and random tokens are numbers from a counter, since the code only compares
-- them; texts are lists of code units. Tables list their rows newest first. Each transaction, and each
-- statement outside one, is atomic, and a method reads the clock once. The conditional updates
-- (`updateMany` with a status, `remaining >= n`, ON CONFLICT DO NOTHING) test and write in one step,
-- as the database does. The client of the payment provider is a pair of functions, `none` where it
-- throws. toLowerCase is modelled on ASCII. The loops are recursions on lists, but for the loop over the
-- days of the timeline: it runs on fuel, and 47 is enough, since the timeline starts at most 45 days
-- before today and the last round only compares. Times are milliseconds since 1970; durations and
-- amounts that can be negative are integers over the native naturals.
--
-- Parameters. `Auth.Libraries`: argon2, SHA-256, JWT, the check of a Google credential and the
-- configuration. `Admission.Crypto`: the HMAC of a token, and the parsing of its payload.
-- `Events.Slug.Unicode`: lower case, NFKD and the classes of letters and numbers. The collation of
-- the database sorts the file of attendees. `Dashboard.CreatedAt`: the creation times of orders and
-- tickets, which nothing else reads.
--
-- Not modelled: the anomalies of READ COMMITTED between statements of two open transactions, but for
-- the two that `apply_edit` and `rotate_read` make visible by taking the row that they read; the
-- overflow of int4 columns; the HMAC of the webhook; logs, metrics, mail, sockets, and the queues of
-- BullMQ (their jobs are calls of the modelled methods); the validation of requests by decorators; the
-- GraphQL surface; the script that fills a database with a demo; rendering in the web application; and
-- the services in Go.
pub mod Base
pub mod Store
pub mod Access
pub mod Holds
pub mod Inventory
pub mod Orders
pub mod Refunds
pub mod Payments
pub mod Checkin
pub mod Books
pub mod System
pub mod Realtime
pub mod Outbox
pub mod SeatMaps
pub mod Team
pub mod SeatHolds
pub mod Draft
pub mod DoorScanner
pub mod Events
pub mod Auth
pub mod Admission
pub mod Dashboard
pub mod Examples
