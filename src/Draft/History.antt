-- ===== src/Draft/History.antt =====
-- Undo and redo in the history of a draft.
use openseat.Base.{
  ℕ, zero, suc, ◌+◌, ◌-◌, ◌<◌, ◌≤◌, ◌≡◌, refl, true, List, [], ◌∷◌, ◌++◌, ltb, length, arith,
  length-append, ap, ◌∙◌,
}
use openseat.Draft.{Section, Draft, can_undo, slice, entry, commit, undo, redo}

-- The index points into the history, at the sections shown.
pub record IsCurrent (d : Draft) : Type 0 where
  pub in_range : d.index < length d.stack
  pub shown : entry d.index d.stack ≡ d.sections

length-slice : (n : ℕ) (xs : List (List Section)) → n ≤ length xs → length (slice n xs) ≡ n
unfolding slice
length-slice zero xs h = refl
length-slice (suc n) [] h = omega (arith, h)
length-slice (suc n) (x ∷ xs) h = omega (arith, length-slice n xs (omega (arith, h)))

entry-last : (xs : List (List Section)) (x : List Section) → entry (length xs) (xs ++ x ∷ []) ≡ x
unfolding entry
entry-last [] x = refl
entry-last (y ∷ xs) x = entry-last xs x

entry-slice :
    (n i : ℕ) (xs ys : List (List Section))
    → i < n
    → n ≤ length xs
    → entry i (slice n xs ++ ys) ≡ entry i xs
unfolding entry slice
entry-slice zero i xs ys h k = ground (arith, h)
entry-slice (suc n) i [] ys h k = ground (arith, k)
entry-slice (suc n) zero (x ∷ xs) ys h k = refl
entry-slice (suc n) (suc i) (x ∷ xs) ys h k =
    entry-slice n i xs ys (omega (arith, h)) (omega (arith, k))

-- A commit of sections leaves them shown, at the end of the history.
pub commit-IsCurrent : (next : List Section) (d : Draft) → IsCurrent d → IsCurrent (commit next d)
unfolding commit
commit-IsCurrent next d c = record {
  in_range = omega (arith, c.in_range, last_length);
  shown = rw (last_index) (entry-last (slice (d.index + 1) d.stack) next);
}
  where
    last_length :
        length (slice (d.index + 1) d.stack ++ next ∷ []) ≡ length (slice (d.index + 1) d.stack) + 1
    last_length = length-append (slice (d.index + 1) d.stack) (next ∷ [])

    last_index :
        length (slice (d.index + 1) d.stack ++ next ∷ []) - 1 ≡ length (slice (d.index + 1) d.stack)
    last_index = omega (arith, last_length)

-- For a draft whose shown sections are the entry of its history at its index, as after a commit,
-- an undo or a redo and not after a change that was not committed: undo after a commit shows the
-- sections and the index from before it.
pub undo-commit :
    (next : List Section) (d : Draft)
    → IsCurrent d
    → ((undo (commit next d)).sections ≡ d.sections) × ((undo (commit next d)).index ≡ d.index)
unfolding undo commit
undo-commit next d c =
    rw (new_index, undoable, back)
      (
        entry-slice (d.index + 1) d.index d.stack (next ∷ []) (omega arith)
              (omega (arith, c.in_range))
            ∙ c.shown,
        refl,
      )
  where
    new_index : length (slice (d.index + 1) d.stack ++ next ∷ []) - 1 ≡ d.index + 1
    new_index = omega (
      arith,
      length-append (slice (d.index + 1) d.stack) (next ∷ []),
      length-slice (d.index + 1) d.stack (omega (arith, c.in_range)),
    )

    back : d.index + 1 - 1 ≡ d.index
    back = omega arith

    undoable : ltb 0 (d.index + 1) ≡ true
    undoable = ground arith

-- After an undo, redo gives the draft back.
pub redo-undo : (d : Draft) → IsCurrent d → can_undo d ≡ true → redo (undo d) ≡ d
unfolding undo redo
redo-undo d c undoable =
    rw (undoable, redoable, back) (ap (λ shown. record d { sections = shown }) c.shown)
  where
    redoable : ltb (d.index - 1) (length d.stack - 1) ≡ true
    redoable = ground (arith, c.in_range, undoable)

    back : d.index - 1 + 1 ≡ d.index
    back = ground (arith, undoable)
