-- ===== src/Store.antt =====
-- The tables of apps/api/prisma/schema.prisma, as lists of rows, and the calls of the realtime
-- service. Ids and random tokens are numbers: the code only compares them. Times are milliseconds,
-- money is satang. Columns that no modelled query reads are left out (covers, `updated_at`).
pub mod Action
pub mod Keeps
pub mod Returns
use openseat.Base.{ℕ, List, Option, Bool, true, false}

-- A text is the list of its UTF-16 code units.
abbrev pub Text : Type 0
Text = List ℕ

pub data EventStatus : Type 0 where
  draft published : EventStatus

pub data TicketTypeKind : Type 0 where
  ga seated : TicketTypeKind

pub data OrderStatus : Type 0 where
  awaiting_payment paid expired canceled partially_refunded refunded : OrderStatus

pub data PaymentStatus : Type 0 where
  requires_action succeeded failed : PaymentStatus

pub data RefundStatus : Type 0 where
  pending succeeded failed : RefundStatus

pub data TicketStatus : Type 0 where
  issued checked_in void : TicketStatus

pub data EventRole : Type 0 where
  manager staff : EventRole

pub record User : Type 0 where
  pub id : ℕ
  pub email : Text
  pub display_name : Text
  pub password_hash : Option Text
  pub google_id : Option Text
  pub is_demo : Bool

pub record RefreshToken : Type 0 where
  pub id : ℕ
  pub user_id : ℕ
  pub token_hash : ℕ
  pub expires_at : ℕ
  pub revoked_at : Option ℕ

pub record Event : Type 0 where
  pub id : ℕ
  pub organizer_id : ℕ
  pub slug : Text
  pub title : Text
  pub description : Text
  pub venue_name : Text
  pub starts_at : ℕ
  pub ends_at : Option ℕ
  pub status : EventStatus
  pub drop_mode : Bool
  pub created_at : ℕ

pub record TeamMember : Type 0 where
  pub id : ℕ
  pub event_id : ℕ
  pub email : Text
  pub user_id : Option ℕ
  pub role : EventRole

pub record TicketType : Type 0 where
  pub id : ℕ
  pub event_id : ℕ
  pub kind : TicketTypeKind
  pub name : Text
  pub price_satang : ℕ
  pub quantity : ℕ
  pub remaining : ℕ
  pub max_per_order : ℕ

-- A section of the layout that a seat map keeps as JSON (`sectionMeta`).
pub record SectionMeta : Type 0 where
  pub name : Text
  pub y_start : ℕ
  pub rows : ℕ
  pub cols : ℕ
  pub x_offset : ℕ

pub data Template : Type 0 where
  theater custom : Template

pub record SeatMap : Type 0 where
  pub id : ℕ
  pub event_id : ℕ
  pub template : Template
  pub max_cols : ℕ
  pub total_rows : ℕ
  pub sections : List SectionMeta

pub record Seat : Type 0 where
  pub id : ℕ
  pub event_id : ℕ
  pub ticket_type_id : ℕ
  pub section : Text
  pub row_label : ℕ
  pub number : ℕ
  pub x : ℕ
  pub y : ℕ

pub record Hold : Type 0 where
  pub id : ℕ
  pub event_id : ℕ
  pub seat_id : ℕ
  pub holder_key : Text
  pub order_id : Option ℕ
  pub expires_at : ℕ

pub record OrderItem : Type 0 where
  pub ticket_type_id : ℕ
  pub quantity : ℕ
  pub unit_price_satang : ℕ

-- An order with its `order_items` rows.
pub record Order : Type 0 where
  pub id : ℕ
  pub event_id : ℕ
  pub buyer_user_id : Option ℕ
  pub buyer_email : Text
  pub buyer_name : Text
  pub status : OrderStatus
  pub total_satang : ℕ
  pub refunded_satang : ℕ
  pub idempotency_key : Option Text
  pub guest_token : ℕ
  pub expires_at : Option ℕ
  pub items : List OrderItem

pub record Payment : Type 0 where
  pub order_id : ℕ
  pub provider_intent_id : ℕ
  pub checkout_url : Text
  pub status : PaymentStatus
  pub amount_satang : ℕ

pub record WebhookEvent : Type 0 where
  pub provider_event_id : ℕ
  pub type : Text
  pub processed_at : Option ℕ

pub record Ticket : Type 0 where
  pub id : ℕ
  pub order_id : ℕ
  pub event_id : ℕ
  pub ticket_type_id : ℕ
  pub seat_id : Option ℕ
  pub attendee_email : Text
  pub attendee_name : Text
  pub qr_token : ℕ
  pub status : TicketStatus
  pub refund_id : Option ℕ
  pub checked_in_at : Option ℕ

pub record Refund : Type 0 where
  pub id : ℕ
  pub order_id : ℕ
  pub provider_refund_id : Option ℕ
  pub amount_satang : ℕ
  pub status : RefundStatus
  pub idempotency_key : Option Text
  pub requested_by_id : Option ℕ
  pub settled_at : Option ℕ

-- The type and payload of an outbox row (`OutboxEventType`).
pub data OutboxPayload : Type 0 where
  ticket_issued : ℕ → OutboxPayload
  seats_sold : ℕ → List ℕ → OutboxPayload
  seats_released : ℕ → List ℕ → OutboxPayload
  order_updated : ℕ → OrderStatus → OutboxPayload
  order_refunded : ℕ → ℕ → OutboxPayload

pub record OutboxEvent : Type 0 where
  pub id : ℕ
  pub payload : OutboxPayload
  pub attempts : ℕ
  pub processed_at : Option ℕ

-- The argument of `RealtimeService.seatsChanged`.
pub record SeatChange : Type 0 where
  pub held : List ℕ
  pub released : List ℕ
  pub sold : List ℕ

-- `next_id` stands for `randomUUID`, `randomBytes` and the defaults of the id columns;
-- `seats_changed` lists the calls of `seatsChanged`, the latest first.
pub record Store : Type 0 where
  pub users : List User
  pub refresh_tokens : List RefreshToken
  pub events : List Event
  pub team_members : List TeamMember
  pub ticket_types : List TicketType
  pub seat_maps : List SeatMap
  pub seats : List Seat
  pub holds : List Hold
  pub orders : List Order
  pub payments : List Payment
  pub webhook_events : List WebhookEvent
  pub tickets : List Ticket
  pub refunds : List Refund
  pub outbox_events : List OutboxEvent
  pub seats_changed : List (ℕ × SeatChange)
  pub next_id : ℕ
