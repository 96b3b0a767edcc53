-- ===== src/Events/Added.antt =====
-- The books and a new ticket type.
use openseat.Base.{
  ℕ, ◌≤◌, ◌≡◌, ◌≢◌, refl, List, [], ◌∷◌, find, count, sum_of, All, All-mono, All-zip, arith,
}
use openseat.Store.{Store, Text, TicketType, Order, Ticket, Seat}
use openseat.Inventory.{is_ga_type}
use openseat.Books.{zero_offset, Books, IsSeated, claimed_in, is_live_of, qty_of}
use openseat.Books.Frame.{IsSame}
use openseat.Books.Orders.{Below-mono}
use openseat.Events.{TicketTypeInput, CreateEvent, ga_type, insert_type, insert_event, update_event}

-- No row has the id or refers to it, as for an id that was just drawn at random.
pub record IsUnreferenced (k : ℕ) (s : Store) : Type 0 where
  pub types : All (λ t. t.id ≢ k) s.ticket_types
  pub items : All (λ o. sum_of (qty_of k) o.items ≡ 0) s.orders
  pub tickets : All (λ t. t.ticket_type_id ≢ k) s.tickets
  pub seats : All (λ x. x.ticket_type_id ≢ k) s.seats

none_claimed :
    (k : ℕ) (os : List Order)
    → All (λ o. sum_of (qty_of k) o.items ≡ 0) os
    → sum_of (claimed_in k) os ≡ 0
unfolding sum_of
none_claimed k [] h = refl
none_claimed k (o ∷ os) h = ground (arith, none_claimed k os h.1, h.0)

none_issued :
    (k : ℕ) (ts : List Ticket) → All (λ t. t.ticket_type_id ≢ k) ts → count (is_live_of k) ts ≡ 0
unfolding count
none_issued k [] h = refl
none_issued k (t ∷ ts) h = ground (arith, none_issued k ts h.1, h.0)

IsSeated-cons :
    (new : TicketType) (types : List TicketType) (xs : List Seat)
    → All (λ x. x.ticket_type_id ≢ new.id) xs
    → All (λ x. IsSeated types x.ticket_type_id) xs
    → All (λ x. IsSeated (new ∷ types) x.ticket_type_id) xs
unfolding is_ga_type find
IsSeated-cons new types xs h seated = All-zip xs (λ x ne old. ground (arith, ne, old)) h seated

-- A row of full capacity may be put in front, under any id that is not used.
pub cons_type-Books :
    (new : TicketType) (s s' : Store)
    → s'.ticket_types ≡ new ∷ s.ticket_types
    → s'.orders ≡ s.orders
    → s'.tickets ≡ s.tickets
    → s'.seats ≡ s.seats
    → s.next_id ≤ s'.next_id
    → new.remaining ≡ new.quantity
    → IsUnreferenced new.id s
    → Books zero_offset zero_offset s
    → Books zero_offset zero_offset s'
cons_type-Books new s s' types orders tickets seats le full fresh b = record {
  types = rw types (fresh.types, b.types);
  orders = rw orders (Below-mono s.orders le b.orders);
  seats = rw (types, seats) (IsSeated-cons new s.ticket_types s.seats fresh.seats b.seats);
  rows = rw types (
    rw (orders, tickets)
        (ground (
          arith,
          full,
          none_claimed new.id s.orders fresh.items,
          none_issued new.id s.tickets fresh.tickets,
        )),
    All-mono s.ticket_types (λ t row. rw (orders, tickets) row) b.rows,
  );
}

pub insert_type-Books :
    (event_id : ℕ) (i : TicketTypeInput) (s : Store)
    → IsUnreferenced s.next_id s
    → Books zero_offset zero_offset s
    → Books zero_offset zero_offset (insert_type event_id i s).1
unfolding insert_type
insert_type-Books event_id i s fresh b =
    cons_type-Books (ga_type s.next_id event_id i) s (insert_type event_id i s).1 refl refl refl
      refl (omega arith) refl fresh b

-- Writes of events leave the books' tables alone.
pub insert_event-IsSame :
    (now organizer_id : ℕ) (slug : Text) (dto : CreateEvent) (s : Store)
    → IsSame s (insert_event now organizer_id slug dto s).1
unfolding insert_event
insert_event-IsSame now organizer_id slug dto s = ground arith

pub update_event-IsSame :
    (event_id : ℕ) (change : openseat.Store.Event → openseat.Store.Event) (s : Store)
    → IsSame s (update_event event_id change s).1
unfolding update_event
update_event-IsSame event_id change s = ground arith
