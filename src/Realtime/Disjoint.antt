-- ===== src/Realtime/Disjoint.antt =====
-- The three sets of a batch of seat changes, and what a change moves between them.
use openseat.Base.{
  ℕ, ◌≡◌, refl, true, false, List, [], ◌∷◌, ◌++◌, if◌then◌else◌, ◌==◌, any, delete, arith, All,
  ◌&&◌, Bool-cases, inl, inr, subst, ==_iff,
}
use openseat.Store.{SeatChange}
use openseat.Realtime.{
  SeatBatch, has, add, remove, mark_held, mark_released, mark_sold, mark_all, apply_change,
  seats_changed, empty_batch,
}

has-append : (x y : ℕ) (xs : List ℕ) → has y (xs ++ x ∷ []) ≡ (if x == y then true else has y xs)
unfolding any
has-append x y [] = ground arith
has-append x y (z ∷ xs) = ground (arith, has-append x y xs)

has-add : (x y : ℕ) (xs : List ℕ) → has y (add x xs) ≡ (if x == y then true else has y xs)
unfolding add
has-add x y xs = elim (Bool-cases (has x xs)) [
  | inr new ↦ rw new (has-append x y xs)
  | inl old ↦ elim (Bool-cases (x == y)) [
    | inr other ↦ rw (old, other) refl
    | inl same ↦ rw (old, same) (subst (λ z. has z xs ≡ true) ((==_iff x y).0 same) old)
  ]
]

has-remove : (x y : ℕ) (xs : List ℕ) → has y (remove x xs) ≡ (if x == y then false else has y xs)
unfolding remove any delete
has-remove x y [] = ground arith
has-remove x y (z ∷ xs) = ground (arith, has-remove x y xs)

-- No seat is in two of the sets.
abbrev pub IsDisjoint : SeatBatch → Type 0
IsDisjoint b =
    (y : ℕ)
    → (has y b.held && has y b.released ≡ false)
      × (has y b.held && has y b.sold ≡ false)
      × (has y b.released && has y b.sold ≡ false)

held-IsDisjoint : (x : ℕ) (b : SeatBatch) → IsDisjoint b → IsDisjoint (mark_held x b)
held-IsDisjoint x b h y =
    ground (arith, h y, has-add x y b.held, has-remove x y b.released, has-remove x y b.sold)

released-IsDisjoint : (x : ℕ) (b : SeatBatch) → IsDisjoint b → IsDisjoint (mark_released x b)
released-IsDisjoint x b h y =
    ground (arith, h y, has-remove x y b.held, has-add x y b.released, has-remove x y b.sold)

sold-IsDisjoint : (x : ℕ) (b : SeatBatch) → IsDisjoint b → IsDisjoint (mark_sold x b)
sold-IsDisjoint x b h y =
    ground (arith, h y, has-remove x y b.held, has-remove x y b.released, has-add x y b.sold)

mark_all-IsDisjoint :
    (mark : ℕ → SeatBatch → SeatBatch)
    → ((x : ℕ) (b : SeatBatch) → IsDisjoint b → IsDisjoint (mark x b))
    → (xs : List ℕ) (b : SeatBatch) → IsDisjoint b
    → IsDisjoint (mark_all mark xs b)
unfolding mark_all
mark_all-IsDisjoint mark keeps [] b h = h
mark_all-IsDisjoint mark keeps (x ∷ xs) b h =
    mark_all-IsDisjoint mark keeps xs (mark x b) (keeps x b h)

apply_change-IsDisjoint :
    (c : SeatChange) (b : SeatBatch) → IsDisjoint b → IsDisjoint (apply_change c b)
unfolding apply_change
apply_change-IsDisjoint c b h = mark_all-IsDisjoint mark_sold sold-IsDisjoint c.sold _ (
    mark_all-IsDisjoint mark_released released-IsDisjoint c.released _
      (mark_all-IsDisjoint mark_held held-IsDisjoint c.held b h))

empty-IsDisjoint : IsDisjoint empty_batch
unfolding any
empty-IsDisjoint y = (refl, refl, refl)

-- If no pending batch has a seat in two of its sets, none has one after a change of any event's seats.
pub seats_changed-IsDisjoint :
    (event_id : ℕ) (change : SeatChange) (pending : List (ℕ × SeatBatch))
    → All (λ g. IsDisjoint g.1) pending
    → All (λ g. IsDisjoint g.1) (seats_changed event_id change pending)
unfolding seats_changed
seats_changed-IsDisjoint event_id change [] h =
    (apply_change-IsDisjoint change empty_batch empty-IsDisjoint, tt)
seats_changed-IsDisjoint event_id change ((j, b) ∷ pending) h = elim (Bool-cases (j == event_id)) [
  | inl same ↦ rw same (apply_change-IsDisjoint change b h.0, h.1)
  | inr other ↦ rw other (h.0, seats_changed-IsDisjoint event_id change pending h.1)
]

mark_sold-keeps :
    (x y : ℕ) (b : SeatBatch) → has y b.sold ≡ true → has y (mark_sold x b).sold ≡ true
mark_sold-keeps x y b h = ground (arith, has-add x y b.sold, h)

mark_sold-stays :
    (y : ℕ) (xs : List ℕ) (b : SeatBatch)
    → has y b.sold ≡ true
    → has y (mark_all mark_sold xs b).sold ≡ true
unfolding mark_all
mark_sold-stays y [] b h = h
mark_sold-stays y (x ∷ xs) b h = mark_sold-stays y xs (mark_sold x b) (mark_sold-keeps x y b h)

mark_sold-all :
    (y : ℕ) (xs : List ℕ) (b : SeatBatch)
    → has y xs ≡ true
    → has y (mark_all mark_sold xs b).sold ≡ true
unfolding mark_all any
mark_sold-all y [] b h = ground (arith, h)
mark_sold-all y (x ∷ xs) b h = elim (Bool-cases (x == y)) [
  | inl same ↦ mark_sold-stays y xs (mark_sold x b) (rw (has-add x y b.sold, same) refl)
  | inr other ↦
      mark_sold-all y xs (mark_sold x b)
        (subst (λ t. (if t then true else has y xs) ≡ true) other h)
]

-- A seat that a change reports as sold is in the sold set of its batch, whatever else the change or
-- the batch says of it.
pub apply_change-sold :
    (y : ℕ) (c : SeatChange) (b : SeatBatch)
    → has y c.sold ≡ true
    → has y (apply_change c b).sold ≡ true
unfolding apply_change
apply_change-sold y c b h = mark_sold-all y c.sold _ h
