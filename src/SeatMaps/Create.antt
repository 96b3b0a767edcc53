-- ===== src/SeatMaps/Create.antt =====
-- `create` of apps/api/src/seatmaps/seatmaps.service.ts: one ticket type and a block of seats for each
-- section of a layout. The model's seats carry the event in place of the map: an event has one.
use openseat.Base.{
  ℕ, zero, suc, ◌+◌, ◌-◌, ◌*◌, ◌/◌, ◌%◌, max, Bool, false, not, ◌&&◌, ◌||◌, Option, none, some,
  List, [], ◌∷◌, ◌++◌, map, if◌then◌else◌, ◌==◌, is_some, is_none, find, update, any, text_eq, trim,
}
use openseat.Store.{Text, TicketType, seated, Seat, SeatMap, SectionMeta, Template, theater, custom}
use openseat.Store.Action.{
  Action, continue, bad_request, conflict, unique_violation, record_not_found, ◌>>=◌, ◌>>◌, return,
  throw, read, write, require, require_some, for_each, transaction,
}
use openseat.Access.{manager, require_event_role}

-- `SeatMapSectionDto`
pub record SectionInput : Type 0 where
  pub name : Text
  pub rows : ℕ
  pub cols : ℕ
  pub tier_name : Text
  pub price_satang : ℕ
  pub x : Option ℕ
  pub y : Option ℕ

-- `new Set(names).size !== names.length`
unfoldable pub has_repeat : List Text → Bool
has_repeat [] = false
has_repeat (n ∷ names) = any (text_eq n) names || has_repeat names

unfoldable pub auto_max_cols : List SectionInput → ℕ
auto_max_cols [] = 0
auto_max_cols (c ∷ sections) = max c.cols (auto_max_cols sections)

abbrev pub is_positioned : SectionInput → Bool
is_positioned c = is_some c.x && is_some c.y

-- `ROW_LETTERS[rowIndex % ROW_LETTERS.length]`
unfoldable pub row_letter : ℕ → ℕ
row_letter row_index = b'A' + row_index % 26

-- `Array.from({ length: n }, (_, index) => index)`, from an index on
unfoldable pub range : ℕ → ℕ → List ℕ
range start zero = []
range start (suc n) = start ∷ range (suc start) n

-- The row and column of each seat, row by row.
unfoldable pub cells_of : ℕ → List ℕ → List (ℕ × ℕ)
cells_of cols [] = []
cells_of cols (r ∷ rows) = map (λ c. (r, c)) (range 0 cols) ++ cells_of cols rows

unfoldable pub grid : ℕ → ℕ → List (ℕ × ℕ)
unfolding range cells_of
grid rows cols = cells_of cols (range 0 rows)

-- Where a block stands: its event, ticket type, section name and corner.
pub record Block : Type 0 where
  pub event_id : ℕ
  pub ticket_type_id : ℕ
  pub section : Text
  pub x : ℕ
  pub y : ℕ

abbrev pub seat_in : ℕ → Block → ℕ × ℕ → Seat
seat_in id b cell = record {
  id = id;
  event_id = b.event_id;
  ticket_type_id = b.ticket_type_id;
  section = b.section;
  row_label = row_letter cell.0;
  number = cell.1 + 1;
  x = b.x + cell.1;
  y = b.y + cell.0;
}

-- The unique key `(seat_map_id, section, row_label, number)`
abbrev pub same_place : Block → ℕ × ℕ → Seat → Bool
same_place b cell seat =
    seat.event_id == b.event_id
    && text_eq seat.section b.section
    && seat.row_label == row_letter cell.0
    && seat.number == cell.1 + 1

unfoldable pub insert_seat : Block → ℕ × ℕ → Action (Unit {0})
insert_seat b cell s =
    if any (same_place b cell) s.seats
    then throw unique_violation s
    else return tt
        (record s { seats = seat_in s.next_id b cell ∷ s.seats; next_id = suc s.next_id })

-- `seat.createMany`
unfoldable pub insert_seats : Block → List (ℕ × ℕ) → Action (Unit {0})
unfolding insert_seat
insert_seats b cells = for_each cells (insert_seat b)

abbrev pub seated_type : ℕ → ℕ → SectionInput → TicketType
seated_type id event_id c = record {
  id = id;
  event_id = event_id;
  kind = seated;
  name = trim c.tier_name;
  price_satang = c.price_satang;
  quantity = c.rows * c.cols;
  remaining = c.rows * c.cols;
  max_per_order = 8;
}

unfoldable pub insert_tier : ℕ → SectionInput → Action ℕ
insert_tier event_id c s = return s.next_id (record s {
  ticket_types = seated_type s.next_id event_id c ∷ s.ticket_types;
  next_id = suc s.next_id;
})

-- What the loop over the sections carries.
pub record Layout : Type 0 where
  pub y_cursor : ℕ
  pub max_cols : ℕ
  pub max_row : ℕ
  pub sections : List SectionMeta

abbrev pub x_of : ℕ → SectionInput → ℕ
x_of auto_max c = elim c.x [ none ↦ (auto_max - c.cols) / 2 | some x ↦ x ]

abbrev pub y_of : Layout → SectionInput → ℕ
y_of l c = elim c.y [ none ↦ l.y_cursor | some y ↦ y ]

unfoldable pub extend : ℕ → Layout → SectionInput → Layout
extend auto_max l c = record {
  y_cursor = if is_none c.y then y_of l c + c.rows + 1 else l.y_cursor;
  max_cols = max l.max_cols (x_of auto_max c + c.cols);
  max_row = max l.max_row (y_of l c + c.rows);
  sections =
      l.sections
      ++ (record {
        name = trim c.name;
        y_start = y_of l c;
        rows = c.rows;
        cols = c.cols;
        x_offset = x_of auto_max c;
      }
          ∷ []);
}

abbrev pub block_of : ℕ → ℕ → Layout → SectionInput → ℕ → Block
block_of event_id auto_max l c type_id = record {
  event_id = event_id;
  ticket_type_id = type_id;
  section = trim c.name;
  x = x_of auto_max c;
  y = y_of l c;
}

unfoldable pub place_section : ℕ → ℕ → Layout → SectionInput → Action (Unit {0})
unfolding insert_tier insert_seats grid
place_section event_id auto_max l c = do
  type_id ← insert_tier event_id c
  insert_seats (block_of event_id auto_max l c type_id) (grid c.rows c.cols)

unfoldable pub place_sections : ℕ → ℕ → Layout → List SectionInput → Action Layout
unfolding place_section extend
place_sections event_id auto_max l [] s = return l s
place_sections event_id auto_max l (c ∷ sections) s =
    continue (place_section event_id auto_max l c s)
      (λ _. place_sections event_id auto_max (extend auto_max l c) sections)

abbrev pub empty_layout : Layout
empty_layout = record { y_cursor = 0; max_cols = 0; max_row = 0; sections = [] }

-- `seatMap.create`, under the unique key `event_id`
unfoldable pub insert_map : ℕ → Template → Action ℕ
insert_map event_id template s =
    if any (λ m. m.event_id == event_id) s.seat_maps
    then throw unique_violation s
    else return s.next_id (record s {
      seat_maps =
          record {
            id = s.next_id;
            event_id = event_id;
            template = template;
            max_cols = 0;
            total_rows = 0;
            sections = [];
          }
          ∷ s.seat_maps;
      next_id = suc s.next_id;
    })

abbrev pub with_layout : Layout → SeatMap → SeatMap
with_layout l m = record m { max_cols = l.max_cols; total_rows = l.max_row; sections = l.sections }

abbrev pub template_of : List SectionInput → Template
template_of sections = if any is_positioned sections then custom else theater

-- `seatMap.update`
unfoldable pub save_layout : ℕ → Layout → Action SeatMap
save_layout map_id layout = do
  write λ s. record s { seat_maps = update (λ m. m.id == map_id) (with_layout layout) s.seat_maps }
  found ← read (λ s. find (λ m. m.id == map_id) s.seat_maps)
  require_some found record_not_found

unfoldable pub build : ℕ → List SectionInput → Action SeatMap
unfolding insert_map place_sections auto_max_cols save_layout
build event_id sections = do
  map_id ← insert_map event_id (template_of sections)
  layout ← place_sections event_id (auto_max_cols sections) empty_layout sections
  save_layout map_id layout

unfoldable pub create : ℕ → ℕ → List SectionInput → Action SeatMap
unfolding has_repeat build
create event_id user_id sections = do
  allowed ← require_event_role event_id user_id manager
  existing ← read (λ s. any (λ m. m.event_id == event_id) s.seat_maps)
  require (not existing) (conflict "This event already has a seat map")
  require (not (has_repeat (map (λ c. trim c.tier_name) sections)))
      (bad_request "Each section needs a distinct tier name")
  require (not (has_repeat (map (λ c. trim c.name) sections)))
      (bad_request "Each section needs a distinct name")
  transaction (build event_id sections)
