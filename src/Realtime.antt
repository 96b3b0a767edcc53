-- ===== src/Realtime.antt =====
-- apps/api/src/realtime/realtime.service.ts: seat changes are batched for each event until the next
-- flush. A JavaScript Set is the list of its elements in the order of insertion.
pub mod Disjoint
use openseat.Base.{ℕ, Bool, true, false, List, [], ◌∷◌, ◌++◌, map, if◌then◌else◌, ◌==◌, any, delete}
use openseat.Store.{SeatChange}

-- `SeatBatch`
pub record SeatBatch : Type 0 where
  pub held : List ℕ
  pub released : List ℕ
  pub sold : List ℕ

abbrev pub has : ℕ → List ℕ → Bool
has x xs = any (λ y. y == x) xs

-- `Set.add`
unfoldable pub add : ℕ → List ℕ → List ℕ
add x xs = if has x xs then xs else xs ++ x ∷ []

-- `Set.delete`
unfoldable pub remove : ℕ → List ℕ → List ℕ
remove x xs = delete (λ y. y == x) xs

abbrev pub empty_batch : SeatBatch
empty_batch = record { held = []; released = []; sold = [] }

abbrev pub mark_held : ℕ → SeatBatch → SeatBatch
mark_held x b = record {
  held = add x b.held;
  released = remove x b.released;
  sold = remove x b.sold;
}

abbrev pub mark_released : ℕ → SeatBatch → SeatBatch
mark_released x b = record {
  held = remove x b.held;
  released = add x b.released;
  sold = remove x b.sold;
}

abbrev pub mark_sold : ℕ → SeatBatch → SeatBatch
mark_sold x b = record {
  held = remove x b.held;
  released = remove x b.released;
  sold = add x b.sold;
}

-- A `for` loop over seats.
unfoldable pub mark_all : (ℕ → SeatBatch → SeatBatch) → List ℕ → SeatBatch → SeatBatch
mark_all mark [] b = b
mark_all mark (x ∷ xs) b = mark_all mark xs (mark x b)

-- The three loops of `seatsChanged`.
unfoldable pub apply_change : SeatChange → SeatBatch → SeatBatch
unfolding mark_all
apply_change c b =
    mark_all mark_sold c.sold (mark_all mark_released c.released (mark_all mark_held c.held b))

-- `pending.get(eventId) ?? …` and `pending.set(eventId, batch)`
unfoldable pub seats_changed : ℕ → SeatChange → List (ℕ × SeatBatch) → List (ℕ × SeatBatch)
seats_changed event_id change [] = (event_id, apply_change change empty_batch) ∷ []
seats_changed event_id change ((j, b) ∷ pending) =
    if j == event_id
    then (j, apply_change change b) ∷ pending
    else (j, b) ∷ seats_changed event_id change pending

-- What is emitted, and what stays pending, with a server attached or not.
unfoldable pub flush : Bool → List (ℕ × SeatBatch) → List (ℕ × SeatBatch) × List (ℕ × SeatBatch)
flush attached pending = if attached then (pending, []) else ([], pending)
