-- ===== src/SeatMaps/Capacity.antt =====
-- The creation of a seat map, and the capacity of its types.
use openseat.Base.{
  ℕ, suc, ◌*◌, ◌≤◌, ◌<◌, ◌≡◌, refl, ◌∙◌, ap, subst, true, false, List, [], ◌∷◌, ◌==◌, map, find,
  update, any, count, All, All-mono, All-zip, text_eq, trim, arith,
}
use openseat.Store.{Store, Text, Seat, SeatMap}
use openseat.Store.Returns.{Returns, continue-Returns, roll_back-Returns, Returns-mono}
use openseat.Access.{manager, require_event_role, resolve_role}
use openseat.Access.Roles.{HasRole}
use openseat.Inventory.{is_ga}
use openseat.SeatMaps.Create.{
  SectionInput, Layout, empty_layout, extend, block_of, grid, insert_tier, seated_type,
  place_section, place_sections, insert_map, template_of, auto_max_cols, has_repeat, save_layout,
  build, create,
}
use openseat.SeatMaps.Grid.{length-grid, grid-Apart}
use openseat.SeatMaps.Blocks.{in_section, IsNumbered, Inserted, insert_seats-Returns}

abbrev pub seats_with : ℕ → List Seat → ℕ
seats_with k seats = count (λ x. x.ticket_type_id == k) seats

-- The ids are below the next one, and the quantity of a type with seats is the number of its seats.
pub record SeatCapacity (s : Store) : Type 0 where
  pub types : All (λ t. t.id < s.next_id) s.ticket_types
  pub seats : IsNumbered s.next_id s.seats
  pub rows : All (λ t. is_ga t.kind ≡ false → t.quantity ≡ seats_with t.id s.seats) s.ticket_types

unused : (n : ℕ) (xs : List Seat) → IsNumbered n xs → seats_with n xs ≡ 0
unfolding count
unused n [] h = refl
unused n (x ∷ xs) h = ground (arith, unused n xs h.1, h.0)

-- The loop over the sections finds each section free.
abbrev IsFree : ℕ → List SectionInput → List Seat → Type 0
IsFree event_id sections seats =
    All (λ (c : SectionInput). any (in_section event_id (trim c.name)) seats ≡ false) sections

-- What a placed section leaves for the next ones.
record Placed (event_id : ℕ) (c : SectionInput) (s s' : Store) : Type 0 where
  capacity : SeatCapacity s'
  maps : s'.seat_maps ≡ s.seat_maps
  others :
      (name : Text)
      → text_eq (trim c.name) name ≡ false
      → any (in_section event_id name) s'.seats ≡ any (in_section event_id name) s.seats

module _ (event_id auto_max : ℕ) where
  filled :
      (l : Layout) (c : SectionInput) (s s₁ s₂ : Store)
      → s₁.ticket_types ≡ seated_type s.next_id event_id c ∷ s.ticket_types
      → s₁.seats ≡ s.seats
      → s₁.seat_maps ≡ s.seat_maps
      → s₁.next_id ≡ suc s.next_id
      → SeatCapacity s
      → Inserted (block_of event_id auto_max l c s.next_id) (c.rows * c.cols) s₁ s₂
      → Placed event_id c s s₂
  filled l c s s₁ s₂ types seats maps next cap ins = record {
    capacity = record {
      types =
          rw (ins.types, types)
            (
              omega (arith, ins.next, next),
              All-mono s.ticket_types (λ t lt. omega (arith, ins.next, next)) cap.types,
            );
      seats =
          ins.numbered (omega (arith, next))
            (rw (seats, next) (All-mono s.seats (λ x lt. omega arith) cap.seats));
      rows =
          rw (ins.types, types)
            (
              (λ kind. ground (
                arith,
                ins.counted s.next_id,
                unused s.next_id s.seats cap.seats,
                ap (seats_with s.next_id) seats,
              )),
              All-zip s.ticket_types
                  (λ t lt row kind.
                    ground (arith, ins.counted t.id, row kind, lt, ap (seats_with t.id) seats))
                  cap.types cap.rows,
            );
    };
    maps = ins.maps ∙ maps;
    others = λ name other. ins.others name other ∙ ap (any (in_section event_id name)) seats;
  }

  place_section-Returns :
      (l : Layout) (c : SectionInput) (s : Store)
      → c.rows ≤ 26
      → any (in_section event_id (trim c.name)) s.seats ≡ false
      → SeatCapacity s
      → Returns (place_section event_id auto_max l c s) (λ _ s'. Placed event_id c s s')
  unfolding place_section insert_tier
  place_section-Returns l c s few free fits =
      Returns-mono _ _ _
        (λ _ s₂ ins. filled l c s (insert_tier event_id c s).1 s₂ refl refl refl refl fits (
          subst
            (λ n.
              Inserted (block_of event_id auto_max l c s.next_id) n (insert_tier event_id c s).1 s₂)
            (length-grid c.rows c.cols) ins))
        (insert_seats-Returns (block_of event_id auto_max l c s.next_id) (grid c.rows c.cols) _
          (grid-Apart c.rows c.cols few) free)

  still-IsFree :
      (c : SectionInput) (sections : List SectionInput) (s s' : Store)
      → Placed event_id c s s'
      → any (text_eq (trim c.name)) (map (λ (d : SectionInput). trim d.name) sections) ≡ false
      → IsFree event_id sections s.seats
      → IsFree event_id sections s'.seats
  unfolding any
  still-IsFree c [] s s' p names free = tt
  still-IsFree c (d ∷ sections) s s' p names free = (
    p.others (trim d.name) (ground arith) ∙ free.0,
    still-IsFree c sections s s' p (ground arith) free.1,
  )

  place_sections-Returns :
      (l : Layout) (sections : List SectionInput) (s : Store)
      → All (λ (c : SectionInput). c.rows ≤ 26) sections
      → has_repeat (map (λ (c : SectionInput). trim c.name) sections) ≡ false
      → IsFree event_id sections s.seats
      → SeatCapacity s
      → Returns
          (place_sections event_id auto_max l sections s)
          (λ _ s'. SeatCapacity s' × (s'.seat_maps ≡ s.seat_maps))
  unfolding place_sections has_repeat
  place_sections-Returns l [] s few names free fits = (fits, refl)
  place_sections-Returns l (c ∷ sections) s few names free fits =
      continue-Returns (λ _ s'. Placed event_id c s s') (place_section event_id auto_max l c s) _ _
        (place_section-Returns l c s few.0 free.0 fits)
        λ _ s₁ p.
          Returns-mono (λ _ s₂. SeatCapacity s₂ × (s₂.seat_maps ≡ s₁.seat_maps))
            (λ _ s₂. SeatCapacity s₂ × (s₂.seat_maps ≡ s.seat_maps))
            (place_sections event_id auto_max (extend auto_max l c) sections s₁)
            (λ _ s₂ q. (q.0, q.1 ∙ p.maps))
            (place_sections-Returns (extend auto_max l c) sections s₁ few.1 (ground arith)
              (still-IsFree c sections s s₁ p (ground arith) free.1) p.capacity)

IsFree-sections :
    (event_id : ℕ) (sections : List SectionInput) (seats : List Seat)
    → any (λ x. x.event_id == event_id) seats ≡ false
    → IsFree event_id sections seats
unfolding any
IsFree-sections event_id [] seats empty = tt
IsFree-sections event_id (c ∷ sections) seats empty =
    (none_in seats empty, IsFree-sections event_id sections seats empty)
  where
    none_in :
        (seats : List Seat)
        → any (λ x. x.event_id == event_id) seats ≡ false
        → any (in_section event_id (trim c.name)) seats ≡ false
    none_in [] h = refl
    none_in (x ∷ xs) h = ground (arith, none_in xs)

-- The layout is written to the map that was just inserted.
save_layout-Returns :
    (map_id : ℕ) (m : SeatMap) (layout : Layout) (maps : List SeatMap) (s : Store)
    → s.seat_maps ≡ m ∷ maps
    → (m.id == map_id) ≡ true
    → SeatCapacity s
    → Returns (save_layout map_id layout s) (λ _ s'. SeatCapacity s')
unfolding save_layout find update
save_layout-Returns map_id m layout maps s here same fits =
    rw (here, same, same) (record { types = fits.types; seats = fits.seats; rows = fits.rows })

build-Returns :
    (event_id : ℕ) (sections : List SectionInput) (s : Store)
    → any (λ m. m.event_id == event_id) s.seat_maps ≡ false
    → any (λ x. x.event_id == event_id) s.seats ≡ false
    → All (λ (c : SectionInput). c.rows ≤ 26) sections
    → has_repeat (map (λ (c : SectionInput). trim c.name) sections) ≡ false
    → SeatCapacity s
    → Returns (build event_id sections s) (λ _ s'. SeatCapacity s')
unfolding build insert_map
build-Returns event_id sections s new empty few names fits = rw new (
    continue-Returns (λ _ s'. SeatCapacity s' × (s'.seat_maps ≡ new_map s.next_id ∷ s.seat_maps))
      (place_sections event_id (auto_max_cols sections) empty_layout sections _) _ _
      (place_sections-Returns event_id (auto_max_cols sections) empty_layout sections _ few names
        (IsFree-sections event_id sections s.seats empty)
        (record {
          types = All-mono s.ticket_types (λ t lt. omega arith) fits.types;
          seats = All-mono s.seats (λ x lt. omega arith) fits.seats;
          rows = fits.rows;
        }))
      λ layout s₂ q.
        save_layout-Returns s.next_id (new_map s.next_id) layout s.seat_maps s₂ q.1
          (==_refl s.next_id) q.0)
  where
    new_map : ℕ → SeatMap
    new_map id = record {
      id = id;
      event_id = event_id;
      template = template_of sections;
      max_cols = 0;
      total_rows = 0;
      sections = [];
    }

    ==_refl : (n : ℕ) → (n == n) ≡ true
    ==_refl n = ground arith

-- A manager creates a seat map for an event that has neither a map nor seats, from sections of at most
-- 26 rows whose tier names and names are distinct: the call returns, and if every type with seats had
-- the capacity of its seats, with the ids below the next one, so it is afterwards, new types included.
pub create-Returns :
    (event_id user_id : ℕ) (sections : List SectionInput) (s : Store)
    → HasRole event_id user_id manager s
    → any (λ m. m.event_id == event_id) s.seat_maps ≡ false
    → any (λ x. x.event_id == event_id) s.seats ≡ false
    → All (λ (c : SectionInput). c.rows ≤ 26) sections
    → has_repeat (map (λ (c : SectionInput). trim c.tier_name) sections) ≡ false
    → has_repeat (map (λ (c : SectionInput). trim c.name) sections) ≡ false
    → SeatCapacity s
    → Returns (create event_id user_id sections s) (λ _ s'. SeatCapacity s')
unfolding create require_event_role resolve_role
create-Returns event_id user_id sections s allowed new empty few tiers names fits =
    rw (allowed.found, allowed.holds, allowed.enough, new, tiers, names)
      (roll_back-Returns (λ _ s'. SeatCapacity s') s (build event_id sections s)
        (build-Returns event_id sections s new empty few names fits))
