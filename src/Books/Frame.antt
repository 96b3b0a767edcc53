-- ===== src/Books/Frame.antt =====
-- Writes that the books do not see: holds, payments, refunds, outbox rows.
use openseat.Base.{◌≤◌, ◌≡◌, refl, Bool, true, false, List, All-mono, arith}
use openseat.Store.{Store, Hold, OutboxPayload}
use openseat.Store.Action.{Ends}
use openseat.Inventory.{write_in_tx, write_if}
use openseat.Books.{Offset, Books}
use openseat.Books.Orders.{Below-mono}

-- The tables that the books read are the same.
pub record IsSame (s s' : Store) : Type 0 where
  pub types : s'.ticket_types ≡ s.ticket_types
  pub orders : s'.orders ≡ s.orders
  pub tickets : s'.tickets ≡ s.tickets
  pub seats : s'.seats ≡ s.seats
  pub next : s.next_id ≤ s'.next_id

pub IsSame-Books : {d e : Offset} (s s' : Store) → IsSame s s' → Books d e s → Books d e s'
IsSame-Books s s' same b = record {
  types = rw same.types b.types;
  orders = rw same.orders (Below-mono s.orders same.next b.orders);
  seats = rw (same.types, same.seats) b.seats;
  rows =
      rw same.types (All-mono s.ticket_types (λ t row. rw (same.orders, same.tickets) row) b.rows);
}

pub holds-Books :
    {d e : Offset} (s : Store) (holds : List Hold)
    → Books d e s
    → Books d e (record s { holds = holds })
holds-Books s holds b =
    IsSame-Books s _
      (record { types = refl; orders = refl; tickets = refl; seats = refl; next = omega arith }) b

pub write_in_tx-Books :
    {d e : Offset} (payload : OutboxPayload) (s : Store)
    → Books d e s
    → Ends (write_in_tx payload s) (λ _. Books d e)
unfolding write_in_tx
write_in_tx-Books payload s b =
    IsSame-Books s _
      (record { types = refl; orders = refl; tickets = refl; seats = refl; next = omega arith }) b

pub write_if-Books :
    {d e : Offset} (test : Bool) (payload : OutboxPayload) (s : Store)
    → Books d e s
    → Ends (write_if test payload s) (λ _. Books d e)
unfolding write_if
write_if-Books true payload s b = write_in_tx-Books payload s b
write_if-Books false payload s b = b
