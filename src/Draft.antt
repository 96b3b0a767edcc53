-- ===== src/Draft.antt =====
-- apps/web/src/lib/use-seat-map-draft.ts: the draft of a seat map in the browser, its sections and
-- their history. Rendering and pointer coordinates are left out; ids are numbers.
pub mod History
pub mod Publish
use openseat.Base.{
  ℕ, zero, suc, ◌+◌, ◌-◌, Bool, true, false, not, Option, none, some, List, [], ◌∷◌, ◌++◌, map,
  if◌then◌else◌, ◌==◌, ltb, delete, update, find, length, max, codes, decimal,
}
use openseat.Store.{Text}

pub record Section : Type 0 where
  pub id : ℕ
  pub name : Text
  pub tier_name : Text
  pub price_satang : ℕ
  pub rows : ℕ
  pub cols : ℕ
  pub x : ℕ
  pub y : ℕ

pub record Draft : Type 0 where
  pub sections : List Section
  pub stack : List (List Section)
  pub index : ℕ
  pub selected_id : Option ℕ
  pub section_counter : ℕ

abbrev pub can_undo : Draft → Bool
can_undo d = ltb 0 d.index

abbrev pub can_redo : Draft → Bool
can_redo d = ltb d.index (length d.stack - 1)

-- `stack.slice(0, n)`
unfoldable pub slice : ℕ → List (List Section) → List (List Section)
slice zero xs = []
slice (suc n) [] = []
slice (suc n) (x ∷ xs) = x ∷ slice n xs

-- `stack[i]`, which is in range whenever it is read
unfoldable pub entry : ℕ → List (List Section) → List Section
entry i [] = []
entry zero (x ∷ xs) = x
entry (suc i) (x ∷ xs) = entry i xs

unfoldable pub commit : List Section → Draft → Draft
unfolding slice
commit next d =
    let stack = slice (d.index + 1) d.stack ++ next ∷ [] in
    record d { sections = next; stack = stack; index = length stack - 1 }

unfoldable pub undo : Draft → Draft
unfolding entry
undo d =
    if can_undo d
    then record d { sections = entry (d.index - 1) d.stack; index = d.index - 1 }
    else d

unfoldable pub redo : Draft → Draft
unfolding entry
redo d =
    if can_redo d
    then record d { sections = entry (d.index + 1) d.stack; index = d.index + 1 }
    else d

unfoldable pub max_y : List Section → ℕ
max_y [] = 0
max_y (s ∷ ss) = max (s.y + s.rows + 1) (max_y ss)

-- The section that `nextSection` makes with the counter at `n`.
unfoldable pub next_section : ℕ → List Section → Section
unfolding max_y decimal
next_section n existing = record {
  id = n;
  name = codes "Section " ++ decimal (length existing + 1);
  tier_name = codes "Tier " ++ decimal (length existing + 1);
  price_satang = 0;
  rows = 4;
  cols = 8;
  x = 0;
  y = max_y existing;
}

unfoldable pub add_section : Draft → Draft
unfolding next_section commit
add_section d =
    let n = d.section_counter + 1 in
    let created = next_section n d.sections in
    record (commit (d.sections ++ created ∷ []) d) { selected_id = some n; section_counter = n }

unfoldable pub delete_section : ℕ → Draft → Draft
unfolding next_section commit
delete_section id d = elim (delete (λ s. s.id == id) d.sections) [
  | [] ↦
      let n = d.section_counter + 1 in
      record (commit (next_section n [] ∷ []) d) { selected_id = none; section_counter = n }
  | s ∷ next ↦ record (commit (s ∷ next) d) { selected_id = none }
]

unfoldable pub patch_selected : (Section → Section) → Bool → Draft → Draft
unfolding commit
patch_selected patch save d = elim d.selected_id [
  | none ↦ d
  | some id ↦
      let next = update (λ s. s.id == id) patch d.sections in
      if save then commit next d else record d { sections = next }
]

pub data ArrowKey : Type 0 where
  arrow_left arrow_right arrow_up arrow_down : ArrowKey

-- `Math.max(0, …)` after one step
abbrev pub step : ArrowKey → Section → Section
step arrow_left s = record s { x = s.x - 1 }
step arrow_right s = record s { x = s.x + 1 }
step arrow_up s = record s { y = s.y - 1 }
step arrow_down s = record s { y = s.y + 1 }

-- An arrow key on a section.
unfoldable pub move_section : ArrowKey → ℕ → Draft → Draft
unfolding commit
move_section key id d =
    commit (update (λ s. s.id == id) (step key) d.sections) (record d { selected_id = some id })
