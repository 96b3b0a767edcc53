-- ===== src/Books/Types.antt =====
-- The books under `claim_item`, `decrement` and `increment`, and how two offsets cancel.
use openseat.Base.{
  ℕ, ◌+◌, ◌≤◌, ◌≡◌, ◌≢◌, refl, ◌∙◌, inl, inr, Bool, true, false, not, ◌&&◌, List, [], ◌∷◌, ◌==◌,
  leb, if◌then◌else◌, Bool-cases, find, update, any, All, All-mono, All-zip, arith,
}
use openseat.Store.{Store, TicketType, Seat, OrderItem}
use openseat.Store.Action.{Ends}
use openseat.Inventory.{
  is_ga, is_ga_type, take_from, give_back, can_take, claim_item, decrement, increment,
}
use openseat.Books.{Offset, RowBalanced, Distinct, IsSeated, Books}

-- Offsets that add `n` at one type.
abbrev pub plus_at : ℕ → ℕ → Offset → Offset
plus_at type_id n d ga k = d ga k + (if type_id == k then n else 0)

-- Changes of the rows that keep ids and kinds.
pub record Keeps (f : TicketType → TicketType) : Type 0 where
  pub id : (t : TicketType) → (f t).id ≡ t.id
  pub kind : (t : TicketType) → (f t).kind ≡ t.kind

module _ (p : TicketType → Bool) (f : TicketType → TicketType) (keeps : Keeps f) where
  is_ga_type-update :
      (types : List TicketType) (k : ℕ) → is_ga_type (update p f types) k ≡ is_ga_type types k
  unfolding is_ga_type update find
  is_ga_type-update [] k = refl
  is_ga_type-update (t ∷ ts) k = ground (arith, is_ga_type-update ts k, keeps.id t, keeps.kind t)

  ids-update :
      (a : ℕ) (types : List TicketType)
      → All (λ u. u.id ≢ a) types
      → All (λ u. u.id ≢ a) (update p f types)
  unfolding update
  ids-update a [] h = tt
  ids-update a (t ∷ ts) h = (ground (arith, keeps.id t), ids-update a ts h.1)

  Distinct-update : (types : List TicketType) → Distinct types → Distinct (update p f types)
  unfolding update
  Distinct-update [] h = tt
  Distinct-update (t ∷ ts) h = elim (Bool-cases (p t)) [
    | inl e ↦ rw (e, keeps.id t) (ids-update t.id ts h.0, Distinct-update ts h.1)
    | inr e ↦ rw e (ids-update t.id ts h.0, Distinct-update ts h.1)
  ]

  IsSeated-update :
      (types : List TicketType) (xs : List Seat)
      → All (λ x. IsSeated types x.ticket_type_id) xs
      → All (λ x. IsSeated (update p f types) x.ticket_type_id) xs
  IsSeated-update types xs h = All-mono xs (λ x e. is_ga_type-update types x.ticket_type_id ∙ e) h

  -- Rows that balance after such a change leave the rest of the books as it was.
  pub update-Books :
      {d e d' e' : Offset} (s : Store)
      → Books d e s
      → All (RowBalanced d' e' s) (update p f s.ticket_types)
      → Books d' e' (record s { ticket_types = update p f s.ticket_types })
  update-Books s b rows = record {
    types = Distinct-update s.ticket_types b.types;
    orders = b.orders;
    seats = IsSeated-update s.ticket_types s.seats b.seats;
    rows = rows;
  }

take_from-Keeps : (n : ℕ) → Keeps (take_from n)
take_from-Keeps n = record { id = λ t. refl; kind = λ t. refl }

give_back-Keeps : (n : ℕ) → Keeps (give_back n)
give_back-Keeps n = record { id = λ t. refl; kind = λ t. refl }

-- The rows of the type hold at least `n`.
abbrev Holds : ℕ → ℕ → List TicketType → Type 0
Holds k n = All (λ t. t.id ≡ k → n ≤ t.remaining)

Holds_of_absent : (k n : ℕ) (ts : List TicketType) → All (λ u. u.id ≢ k) ts → Holds k n ts
Holds_of_absent k n [] h = tt
Holds_of_absent k n (t ∷ ts) h = (λ e. absurd (h.0 e), Holds_of_absent k n ts h.1)

Holds_of_can_take :
    (k n : ℕ) (ts : List TicketType) → Distinct ts → any (can_take k n) ts ≡ true → Holds k n ts
unfolding any
Holds_of_can_take k n [] h e = tt
Holds_of_can_take k n (t ∷ ts) h e = elim (Bool-cases (can_take k n t)) [
  | inl here ↦
      let same : t.id ≡ k = ground arith in
      (λ _. ground arith, Holds_of_absent k n ts (rw same at h.0))
  | inr missed ↦
      let later : any (can_take k n) ts ≡ true = ground arith in
      (λ same. absurd (not_first same later), Holds_of_can_take k n ts h.1 later)
]
  where
    absent :
        (us : List TicketType)
        → All (λ u. u.id ≢ t.id) us
        → t.id ≡ k
        → any (can_take k n) us ≡ false
    absent [] h same = refl
    absent (u ∷ us) h same = ground (arith, absent us h.1 same)

    not_first : t.id ≡ k → any (can_take k n) ts ≡ true → ⊥
    not_first same later = cc (absent ts h.0 same)

module _ (d e : Offset) (s : Store) (k n : ℕ) where
  claim_rows :
      (ts : List TicketType)
      → Holds k n ts
      → All (RowBalanced d e s) ts
      → All (RowBalanced (plus_at k n d) e s) (update (can_take k n) (take_from n) ts)
  unfolding update
  claim_rows [] h b = tt
  claim_rows (t ∷ ts) h b = (ground (arith, h.0), claim_rows ts h.1 b.1)

  decrement_rows :
      (ts : List TicketType)
      → Holds k n ts
      → All (RowBalanced d e s) ts
      → All (RowBalanced (plus_at k n d) e s) (update (λ t. t.id == k) (take_from n) ts)
  unfolding update
  decrement_rows [] h b = tt
  decrement_rows (t ∷ ts) h b = (ground (arith, h.0), decrement_rows ts h.1 b.1)

  increment_rows :
      (ts : List TicketType)
      → All (RowBalanced d e s) ts
      → All (RowBalanced d (plus_at k n e) s) (update (λ t. t.id == k) (give_back n) ts)
  unfolding update
  increment_rows [] b = tt
  increment_rows (t ∷ ts) b = (ground arith, increment_rows ts b.1)

Holds_of_no_shortage :
    (k n : ℕ) (ts : List TicketType)
    → any (λ t. t.id == k && not (leb n t.remaining)) ts ≡ false
    → Holds k n ts
unfolding any
Holds_of_no_shortage k n [] h = tt
Holds_of_no_shortage k n (t ∷ ts) h =
    (λ same. ground arith, Holds_of_no_shortage k n ts (ground arith))

module _ {d e : Offset} (s : Store) where
  pub claim_item-Books :
      (i : OrderItem)
      → Books d e s
      → Ends (claim_item i s) (λ _. Books (plus_at i.ticket_type_id i.quantity d) e)
  unfolding claim_item
  claim_item-Books i b = elim (Bool-cases (any (can_take k n) s.ticket_types)) [
    | inr short ↦ rw short tt
    | inl enough ↦ rw enough (
        update-Books _ _ (take_from-Keeps n) s b (
          claim_rows d e s k n s.ticket_types (Holds_of_can_take k n s.ticket_types b.types enough)
            b.rows))
  ]
    where
      k : ℕ
      k = i.ticket_type_id

      n : ℕ
      n = i.quantity

  pub decrement-Books :
      (k n : ℕ) → Books d e s → Ends (decrement k n s) (λ _. Books (plus_at k n d) e)
  unfolding decrement
  decrement-Books k n b = elim (Bool-cases (any (λ t. t.id == k) s.ticket_types)) [
    | inr missing ↦ rw missing tt
    | inl found ↦
        elim (Bool-cases (any (λ t. t.id == k && not (leb n t.remaining)) s.ticket_types)) [
          | inl short ↦ rw (found, short) tt
          | inr enough ↦
              rw (found, enough)
                (update-Books _ _ (take_from-Keeps n) s b (
                  decrement_rows d e s k n s.ticket_types
                    (Holds_of_no_shortage k n s.ticket_types enough) b.rows))
        ]
  ]

  pub increment-Books :
      (k n : ℕ) → Books d e s → Ends (increment k n s) (λ _. Books d (plus_at k n e))
  unfolding increment
  increment-Books k n b = elim (Bool-cases (any (λ t. t.id == k) s.ticket_types)) [
    | inr missing ↦ rw missing tt
    | inl found ↦
        rw found (
          update-Books _ _ (give_back-Keeps n) s b (increment_rows d e s k n s.ticket_types b.rows))
  ]

-- In a table without repeated ids, the kind that a look-up finds is the row's.
kind_of_row : (ts : List TicketType) → Distinct ts → All (λ t. is_ga_type ts t.id ≡ is_ga t.kind) ts
unfolding is_ga_type find
kind_of_row [] h = tt
kind_of_row (t ∷ ts) h =
    (ground arith, All-zip ts (λ u ne same. ground (arith, ne)) h.0 (kind_of_row ts h.1))

-- Offsets may be exchanged for others that differ by as much.
pub rebalance :
    {d e : Offset} (d' e' : Offset) (s : Store)
    → ((ga : Bool) (k : ℕ) → is_ga_type s.ticket_types k ≡ ga → d ga k + e' ga k ≡ d' ga k + e ga k)
    → Books d e s
    → Books d' e' s
rebalance d' e' s same b = record {
  types = b.types;
  orders = b.orders;
  seats = b.seats;
  rows =
      All-zip s.ticket_types (λ t kind row. omega (arith, same (is_ga t.kind) t.id kind))
        (kind_of_row s.ticket_types b.types) b.rows;
}
