-- ===== src/Events/Capacity.antt =====
-- The books and changes of a type's capacity.
use openseat.Base.{
  ℕ, sym, subst, ◌+◌, ◌-◌, ◌≤◌, ◌≡◌, ◌≢◌, refl, inl, inr, Bool, true, ◌&&◌, Option, none, some,
  List, [], ◌∷◌, ◌==◌, leb, Bool-cases, Option-cases, find, update, any, All, All-mono, All-update,
  find_holds, arith,
}
use openseat.Store.{Store, TicketType}
use openseat.Store.Action.{Ends, continue, require-Ends, ◌>>◌, roll_back, roll_back-keeps}
use openseat.Inventory.{is_ga}
use openseat.Books.{Offset, zero_offset, RowBalanced, Distinct, Books}
use openseat.Books.Types.{Keeps, plus_at, update-Books, rebalance}
use openseat.Events.{UpdateTicketType}
use openseat.Events.Edit.{
  check_quantity, can_shift, shift, shift_remaining, move_remaining, edit_type, write_type,
  apply_edit, edit_in_tx,
}

-- Each row with the id is the row `t`.
abbrev pub Only : ℕ → TicketType → List TicketType → Type 0
Only k t = All (λ x. x.id ≡ k → x ≡ t)

module _ (k event_id : ℕ) where
  abbrev chosen : TicketType → Bool
  chosen x = x.id == k && x.event_id == event_id

  absent :
      (t : TicketType) (ts : List TicketType) → All (λ u. u.id ≢ k) ts → find chosen ts ≡ some t → ⊥
  unfolding find
  absent t [] h found = ground arith
  absent t (x ∷ ts) h found = ground (arith, absent t ts h.1, h.0)

  Only_of_absent : (t : TicketType) (ts : List TicketType) → All (λ u. u.id ≢ k) ts → Only k t ts
  Only_of_absent t [] h = tt
  Only_of_absent t (x ∷ ts) h = (λ same. absurd (h.0 same), Only_of_absent t ts h.1)

  -- The row that the transaction found is the only one with its id.
  pub Only_of_found :
      (t : TicketType) (ts : List TicketType) → Distinct ts → find chosen ts ≡ some t → Only k t ts
  unfolding find
  Only_of_found t [] h found = tt
  Only_of_found t (x ∷ ts) h found = elim (Bool-cases (chosen x)) [
    | inl hit ↦
        let same : x.id ≡ k = ground arith in
        let first : x ≡ t = ground (arith, hit, found) in
        (λ _. first, Only_of_absent t ts (rw same at h.0))
    | inr miss ↦
        let later : find chosen ts ≡ some t = ground (arith, miss, found) in
        (λ same. absurd (absent t ts (rw same at h.0) later), Only_of_found t ts h.1 later)
  ]

edit_type-Keeps : (dto : UpdateTicketType) → Keeps (edit_type dto)
edit_type-Keeps dto = record { id = λ t. refl; kind = λ t. refl }

shift-Keeps : (old new : ℕ) → Keeps (shift old new)
shift-Keeps old new = record { id = λ t. refl; kind = λ t. refl }

-- The rows of the type have room for the change.
abbrev HasRoom : ℕ → ℕ → ℕ → List TicketType → Type 0
HasRoom k old new = All (λ x. x.id ≡ k → old ≤ x.remaining + new)

pub any-Only :
    (k old new : ℕ) (t : TicketType) (ts : List TicketType)
    → Only k t ts
    → any (can_shift k old new) ts ≡ true
    → old ≤ t.remaining + new
unfolding any
any-Only k old new t [] only e = ground (arith, e)
any-Only k old new t (x ∷ ts) only e = elim (Bool-cases (can_shift k old new x)) [
  | inl here ↦
      let same : x ≡ t = only.0 (ground arith) in
      let room : old ≤ x.remaining + new = ground arith in rw same at room
  | inr miss ↦ any-Only k old new t ts only.1 (ground (arith, miss, e))
]

HasRoom_of_any :
    (k old new : ℕ) (t : TicketType) (ts : List TicketType)
    → Only k t ts
    → old ≤ t.remaining + new
    → HasRoom k old new ts
HasRoom_of_any k old new t ts only room = All-mono ts (λ x same e. rw (same e) room) only

module _ (d e : Offset) (s : Store) (k : ℕ) where
  shift_rows :
      (old new : ℕ) (ts : List TicketType)
      → HasRoom k old new ts
      → All (RowBalanced d e s) ts
      → All
          (RowBalanced (plus_at k old d) (plus_at k new e) s)
          (update (can_shift k old new) (shift old new) ts)
  unfolding update
  shift_rows old new [] h b = tt
  shift_rows old new (t ∷ ts) h b = (ground (arith, h.0), shift_rows old new ts h.1 b.1)

  edit_rows :
      (dto : UpdateTicketType) (old new : ℕ) (ts : List TicketType)
      → dto.quantity ≡ some new
      → All (λ x. x.id ≡ k → x.quantity ≡ old) ts
      → All (RowBalanced (plus_at k old d) (plus_at k new e) s) ts
      → All (RowBalanced d e s) (update (λ x. x.id == k) (edit_type dto) ts)
  unfolding update
  edit_rows dto old new [] q h b = tt
  edit_rows dto old new (t ∷ ts) q h b =
      (ground (arith, h.0, q), edit_rows dto old new ts q h.1 b.1)

  rename_rows :
      (dto : UpdateTicketType) (ts : List TicketType)
      → dto.quantity ≡ none
      → All (RowBalanced d e s) ts
      → All (RowBalanced d e s) (update (λ x. x.id == k) (edit_type dto) ts)
  unfolding update
  rename_rows dto [] q b = tt
  rename_rows dto (t ∷ ts) q b = (ground (arith, q), rename_rows dto ts q b.1)

write_type-Books :
    (d e : Offset) (s : Store) (k : ℕ) (dto : UpdateTicketType)
    → Books d e (record s { ticket_types = update (λ x. x.id == k) (edit_type dto) s.ticket_types })
    → Ends (write_type k dto s) (λ _. Books d e)
unfolding write_type
write_type-Books d e s k dto b =
    elim (Option-cases
      (find (λ x. x.id == k) (update (λ x. x.id == k) (edit_type dto) s.ticket_types))) [
        | inl missing ↦ rw missing tt
        | inr (t, found) ↦ rw found b
      ]

-- A write of the quantity after `remaining` was moved by as much, or where both are the same.
quantity-Books :
    (s : Store) (k old new : ℕ) (dto : UpdateTicketType)
    → dto.quantity ≡ some new
    → All (λ x. x.id ≡ k → x.quantity ≡ old) s.ticket_types
    → Books (plus_at k old zero_offset) (plus_at k new zero_offset) s
    → Ends (write_type k dto s) (λ _. Books zero_offset zero_offset)
quantity-Books s k old new dto q olds b = write_type-Books zero_offset zero_offset s k dto (
    update-Books _ _ (edit_type-Keeps dto) s b
      (edit_rows zero_offset zero_offset s k dto old new s.ticket_types q olds b.rows))

same_quantity-Books :
    (s : Store) (k n : ℕ) (dto : UpdateTicketType)
    → dto.quantity ≡ some n
    → All (λ x. x.id ≡ k → x.quantity ≡ n) s.ticket_types
    → Books zero_offset zero_offset s
    → Ends (write_type k dto s) (λ _. Books zero_offset zero_offset)
same_quantity-Books s k n dto q olds b =
    quantity-Books s k n n dto q olds
      (rebalance (plus_at k n zero_offset) (plus_at k n zero_offset) s (λ ga j kind. omega arith) b)

quantities :
    (k : ℕ) (t : TicketType) (ts : List TicketType)
    → Only k t ts
    → All (λ x. x.id ≡ k → x.quantity ≡ t.quantity) ts
quantities k t ts only = All-mono ts (λ x same e. rw (same e) refl) only

module _ (t : TicketType) (dto : UpdateTicketType) (s : Store) (only : Only t.id t s.ticket_types)
    (b : Books zero_offset zero_offset s) where
  moved-Books :
      (new : ℕ)
      → dto.quantity ≡ some new
      → Ends
          (continue (shift_remaining t.id t.quantity new s) (λ _. write_type t.id dto))
          (λ _. Books zero_offset zero_offset)
  unfolding shift_remaining
  moved-Books new q = elim (Bool-cases (any (can_shift t.id t.quantity new) s.ticket_types)) [
    | inr short ↦ rw short tt
    | inl room ↦ rw room (
        quantity-Books _ t.id t.quantity new dto q
          (All-update (λ x. x.id ≡ t.id → x.quantity ≡ t.quantity) _ _ (λ x h e. h e) s.ticket_types
            (quantities t.id t s.ticket_types only))
          (update-Books _ _ (shift-Keeps t.quantity new) s b (
            shift_rows zero_offset zero_offset s t.id t.quantity new s.ticket_types
              (HasRoom_of_any t.id t.quantity new t s.ticket_types only
                (any-Only t.id t.quantity new t s.ticket_types only room))
              b.rows)))
  ]

  kept-Books :
      (new : ℕ)
      → dto.quantity ≡ some new
      → (new == t.quantity) ≡ true
      → Ends (write_type t.id dto s) (λ _. Books zero_offset zero_offset)
  kept-Books new q same =
      let e : t.quantity ≡ new = ground arith in
      same_quantity-Books s t.id new dto q (rw (← e) (quantities t.id t s.ticket_types only)) b

  parts-Books :
      (quantity : Option ℕ)
      → dto.quantity ≡ quantity
      → Ends
          (continue
            (check_quantity t quantity s)
            (λ _. move_remaining t quantity >> write_type t.id dto))
          (λ _. Books zero_offset zero_offset)
  unfolding check_quantity move_remaining
  parts-Books none q = write_type-Books zero_offset zero_offset s t.id dto (
      update-Books _ _ (edit_type-Keeps dto) s b
        (rename_rows zero_offset zero_offset s t.id dto s.ticket_types q b.rows))
  parts-Books (some new) q = elim (Bool-cases (is_ga t.kind)) [
    | inl ga ↦ rw ga (
        require-Ends (leb (t.quantity - t.remaining) new) _ s _ _ λ _.
          elim (Bool-cases (new == t.quantity)) [
            | inl same ↦ rw same (kept-Books new q same)
            | inr other ↦ rw other (moved-Books new q)
          ])
    | inr seats ↦ rw seats (require-Ends (new == t.quantity) _ s _ _ λ same. kept-Books new q same)
  ]

  apply_edit-Books : Ends (apply_edit t dto s) (λ _. Books zero_offset zero_offset)
  unfolding apply_edit
  apply_edit-Books = parts-Books dto.quantity refl

edit_in_tx-Ends :
    (event_id type_id : ℕ) (dto : UpdateTicketType) (s : Store)
    → Books zero_offset zero_offset s
    → Ends (edit_in_tx event_id type_id dto s) (λ _. Books zero_offset zero_offset)
unfolding edit_in_tx
edit_in_tx-Ends event_id type_id dto s b =
    elim (Option-cases (find (chosen type_id event_id) s.ticket_types)) [
      | inl missing ↦ rw missing tt
      | inr (t, found) ↦ rw found (
          let same : t.id ≡ type_id = ground (arith, find_holds _ s.ticket_types t found) in
          apply_edit-Books t dto s
            (subst (λ k. Only k t s.ticket_types) (sym same)
              (Only_of_found type_id event_id t s.ticket_types b.types found))
            b)
    ]

-- A change of a ticket type keeps the books balanced, whether it returns or throws.
pub edit_in_tx-Books :
    (event_id type_id : ℕ) (dto : UpdateTicketType) (s : Store)
    → Books zero_offset zero_offset s
    → Books zero_offset zero_offset (roll_back s (edit_in_tx event_id type_id dto s)).1
edit_in_tx-Books event_id type_id dto s b =
    roll_back-keeps (Books zero_offset zero_offset) s _ b (edit_in_tx-Ends event_id type_id dto s b)
