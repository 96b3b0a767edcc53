-- ===== src/SeatMaps/Blocks.antt =====
-- The insertion of a block of seats.
use openseat.Base.{
  ℕ, suc, ◌+◌, ◌≤◌, ◌<◌, ◌≡◌, refl, ◌∙◌, inl, inr, Bool, true, false, ◌&&◌, List, [], ◌∷◌,
  if◌then◌else◌, ◌==◌, Bool-cases, any, count, All, All-mono, length, text_eq, arith,
}
use openseat.Store.{Store, Text, Seat}
use openseat.Store.Action.{for_each}
use openseat.Store.Returns.{Returns, continue-Returns, Returns-mono}
use openseat.SeatMaps.Create.{Block, seat_in, same_place, insert_seat, insert_seats}
use openseat.SeatMaps.Grid.{Cell, SameCell, Apart}

abbrev pub in_section : ℕ → Text → Seat → Bool
in_section event_id name x = x.event_id == event_id && text_eq x.section name

abbrev pub IsNumbered : ℕ → List Seat → Type 0
IsNumbered n = All (λ x. x.ticket_type_id < n)

-- `n` seats of a block were added to a store.
pub record Inserted (b : Block) (n : ℕ) (s s' : Store) : Type 0 where
  pub types : s'.ticket_types ≡ s.ticket_types
  pub maps : s'.seat_maps ≡ s.seat_maps
  pub next : s.next_id ≤ s'.next_id
  pub counted :
      (k : ℕ)
      → count (λ x. x.ticket_type_id == k) s'.seats
        ≡ count (λ x. x.ticket_type_id == k) s.seats + (if b.ticket_type_id == k then n else 0)
  pub others :
      (name : Text)
      → text_eq b.section name ≡ false
      → any (in_section b.event_id name) s'.seats ≡ any (in_section b.event_id name) s.seats
  pub numbered :
      b.ticket_type_id < s.next_id → IsNumbered s.next_id s.seats → IsNumbered s'.next_id s'.seats

Inserted-suc :
    (b : Block) (n : ℕ) (s t u : Store)
    → Inserted b 1 s t
    → Inserted b n t u
    → Inserted b (suc n) s u
Inserted-suc b n s t u p q = record {
  types = q.types ∙ p.types;
  maps = q.maps ∙ p.maps;
  next = omega (arith, p.next, q.next);
  counted = λ k. ground (arith, p.counted k, q.counted k);
  others = λ name other. q.others name other ∙ p.others name other;
  numbered = λ known h. q.numbered (omega (arith, p.next)) (p.numbered known h);
}

Inserted-none : (b : Block) (s : Store) → Inserted b 0 s s
Inserted-none b s = record {
  types = refl;
  maps = refl;
  next = omega arith;
  counted = λ k. ground arith;
  others = λ name other. refl;
  numbered = λ known h. h;
}

skip : (first second last : Bool) → second ≡ false → (if first && second then true else last) ≡ last
skip true second last miss = rw miss refl
skip false second last miss = refl

insert_seat-Returns :
    (b : Block) (cell : Cell) (s : Store)
    → any (same_place b cell) s.seats ≡ false
    → Returns
        (insert_seat b cell s)
        (λ _ s'. (s'.seats ≡ seat_in s.next_id b cell ∷ s.seats) × Inserted b 1 s s')
unfolding insert_seat any count
insert_seat-Returns b cell s free = rw free (
  refl,
  record {
    types = refl;
    maps = refl;
    next = omega arith;
    counted = λ k. ground arith;
    others = λ name other. skip (b.event_id == b.event_id) (text_eq b.section name) _ other;
    numbered = λ known h. (omega arith, All-mono s.seats (λ x lt. omega arith) h);
  },
)

abbrev Free : Block → List Cell → List Seat → Type 0
Free b cells seats = All (λ c. any (same_place b c) seats ≡ false) cells

-- A seat takes the place of no cell apart from it.
Free-cons :
    (b : Block) (id : ℕ) (cell : Cell) (seats : List Seat) (cells : List Cell)
    → All (λ y. SameCell y cell → ⊥) cells
    → Free b cells seats
    → Free b cells (seat_in id b cell ∷ seats)
unfolding any
Free-cons b id cell seats [] away free = tt
Free-cons b id cell seats (c ∷ cells) away free = (
  elim (Bool-cases (same_place b c (seat_in id b cell))) [
    | inl same ↦ absurd (away.0 (ground (arith, same), ground (arith, same)))
    | inr other ↦ rw other free.0
  ],
  Free-cons b id cell seats cells away.1 free.1,
)

insert_each :
    (b : Block) (cells : List Cell) (s : Store)
    → Apart cells
    → Free b cells s.seats
    → Returns (for_each cells (insert_seat b) s) (λ _ s'. Inserted b (length cells) s s')
insert_each b [] s apart free = Inserted-none b s
insert_each b (c ∷ cells) s apart free =
    continue-Returns (λ _ s'. (s'.seats ≡ seat_in s.next_id b c ∷ s.seats) × Inserted b 1 s s')
      (insert_seat b c s) _ _ (insert_seat-Returns b c s free.0)
      λ _ s₁ (seats, one).
        Returns-mono (λ _ s'. Inserted b (length cells) s₁ s') _ (for_each cells (insert_seat b) s₁)
          (λ _ s' more. Inserted-suc b (length cells) s s₁ s' one more)
          (insert_each b cells s₁ apart.1
            (rw seats (Free-cons b s.next_id c s.seats cells apart.0 free.1)))

-- A section that has no seat yet is free for each cell.
Free-of_section :
    (b : Block) (cells : List Cell) (seats : List Seat)
    → any (in_section b.event_id b.section) seats ≡ false
    → Free b cells seats
unfolding any
Free-of_section b [] seats empty = tt
Free-of_section b (c ∷ cells) seats empty =
    (no_place c seats empty, Free-of_section b cells seats empty)
  where
    no_place :
        (c : Cell) (seats : List Seat)
        → any (in_section b.event_id b.section) seats ≡ false
        → any (same_place b c) seats ≡ false
    no_place c [] h = ground arith
    no_place c (x ∷ xs) h = ground (arith, no_place c xs)

-- A block goes into a section without seats, and adds a seat for each of its cells.
pub insert_seats-Returns :
    (b : Block) (cells : List Cell) (s : Store)
    → Apart cells
    → any (in_section b.event_id b.section) s.seats ≡ false
    → Returns (insert_seats b cells s) (λ _ s'. Inserted b (length cells) s s')
unfolding insert_seats any
insert_seats-Returns b cells s apart empty =
    insert_each b cells s apart (Free-of_section b cells s.seats empty)
