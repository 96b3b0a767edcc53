-- ===== src/Checkin/Csv/RoundTrip.antt =====
-- The file of attendees read back.
use mathlib.Core.List.{append-nil, append_assoc, reverse}
use openseat.Base.{
  ℕ, ◌≡◌, ◌≢◌, refl, ◌∙◌, inl, inr, Bool, false, not, ◌&&◌, some, List, [], ◌∷◌, ◌++◌, map, ◌==◌,
  Bool-cases, select, All, subst,
}
use openseat.Store.{Store, Text, Ticket}
use openseat.Store.Action.{ok, Ends, Ends-at, continue-Ends}
use openseat.Access.{manager, require_event_role}
use openseat.Access.Roles.{require_event_role-same}
use openseat.Holds.{is_void}
use openseat.Checkin.Csv.{
  is_formula, guarded, csv_cell, csv_row, csv_rows, header, attendee_row, by_type, attendees_csv,
}
use openseat.Checkin.Csv.Parse.{start, line_end, read_char, read_from, parse_csv}
use openseat.Checkin.Csv.Cells.{at, EndsCell, read_cell, one_char}

comma-EndsCell :
    (row : List Text) (rows : List (List Text)) (v : Text)
    → EndsCell row rows b',' v (at start [] (row ++ (v ∷ [])) rows)
unfolding read_char
comma-EndsCell row rows v = record {
  from_start = λ e. rw e refl;
  from_plain = refl;
  from_quote = refl;
}

cr-EndsCell :
    (row : List Text) (rows : List (List Text)) (v : Text)
    → EndsCell row rows 13 v (at line_end v row rows)
unfolding read_char
cr-EndsCell row rows v = record {
  from_start = λ e. rw e refl;
  from_plain = refl;
  from_quote = refl;
}

read_row :
    (cell : Text) (cells row : List Text) (rows : List (List Text)) (rest : Text)
    → read_from (at start [] row rows) (csv_row (cell ∷ cells) ++ (13 ∷ 10 ∷ rest))
      ≡ read_from (at start [] [] (rows ++ ((row ++ map guarded (cell ∷ cells)) ∷ []))) rest
unfolding csv_row csv_cell read_char
read_row cell [] row rows rest =
    read_cell row rows 13 (guarded cell) (10 ∷ rest) (at line_end (guarded cell) row rows)
      (cr-EndsCell row rows (guarded cell))
    ∙ one_char row rows line_end (guarded cell) 10 rest _ refl
read_row cell (next ∷ cells) row rows rest =
    rw (append_assoc (csv_cell cell) (b',' ∷ csv_row (next ∷ cells)) (13 ∷ 10 ∷ rest)) (
      read_cell row rows b',' (guarded cell) (csv_row (next ∷ cells) ++ (13 ∷ 10 ∷ rest)) _
        (comma-EndsCell row rows (guarded cell))
      ∙ read_row next cells (row ++ (guarded cell ∷ [])) rows rest
      ∙ rw append_assoc refl)

read_rows :
    (rows done : List (List Text))
    → All (λ r. r ≢ []) rows
    → read_from (at start [] [] done) (csv_rows rows) ≡ some (done ++ map (map guarded) rows)
unfolding csv_rows read_from
read_rows [] done h = rw append-nil refl
read_rows ([] ∷ rows) done h = absurd (h.0 refl)
read_rows ((cell ∷ cells) ∷ rows) done h =
    read_row cell cells [] done (csv_rows rows)
    ∙ read_rows rows (done ++ (map guarded (cell ∷ cells) ∷ [])) h.1
    ∙ rw append_assoc refl

abbrev pub begins_formula : Text → Bool
begins_formula [] = false
begins_formula (c ∷ s) = is_formula c

guarded_safe : (v : Text) → begins_formula (guarded v) ≡ false
unfolding guarded
guarded_safe [] = refl
guarded_safe (c ∷ s) = elim (Bool-cases (is_formula c)) [
  | inl formula ↦ rw formula refl
  | inr harmless ↦ rw harmless harmless
]

row_safe : (row : List Text) → All (λ v. begins_formula v ≡ false) (map guarded row)
row_safe [] = tt
row_safe (v ∷ row) = (guarded_safe v, row_safe row)

rows_safe :
    (rows : List (List Text)) → All (All (λ v. begins_formula v ≡ false)) (map (map guarded) rows)
rows_safe [] = tt
rows_safe (row ∷ rows) = (row_safe row, rows_safe rows)

attendee_rows : (s : Store) (ts : List Ticket) → All (λ r. r ≢ []) (map (attendee_row s) ts)
unfolding attendee_row
attendee_rows s [] = tt
attendee_rows s (t ∷ ts) = (λ e. cc e, attendee_rows s ts)

-- The rows of the file, before the guard.
abbrev pub attendees : (Text → Text → Bool) → ℕ → Store → List (List Text)
attendees before event_id s =
    header
    ∷ map (attendee_row s) (
        by_type before s
          (reverse (select (λ t. t.event_id == event_id && not (is_void t.status)) s.tickets)))

file_rows :
    (before : Text → Text → Bool) (event_id : ℕ) (s : Store)
    → parse_csv (csv_rows (attendees before event_id s))
      ≡ some (map (map guarded) (attendees before event_id s))
unfolding parse_csv
file_rows before event_id s =
    read_rows (attendees before event_id s) [] ((λ e. cc e), attendee_rows s _)

csv-Ends :
    (before : Text → Text → Bool) (event_id user_id : ℕ) (s : Store)
    → Ends
        (attendees_csv before event_id user_id s)
        (λ text _. parse_csv text ≡ some (map (map guarded) (attendees before event_id s)))
unfolding attendees_csv
csv-Ends before event_id user_id s =
    continue-Ends (λ _ s'. s' ≡ s) (require_event_role event_id user_id manager s) _ _
      (require_event_role-same event_id user_id manager s)
      (λ _ s₁ same.
        subst
          (λ s₂.
            parse_csv (csv_rows (attendees before event_id s₁))
            ≡ some (map (map guarded) (attendees before event_id s₂)))
          same (file_rows before event_id s₁))

-- A reader of comma-separated values gets from the file of attendees exactly its header and one row for
-- each ticket of the event that is not void, each cell as it was guarded, whatever commas, quotes and
-- line breaks the names hold, and no cell begins with a character that starts a formula.
pub parse_csv-attendees_csv :
    (before : Text → Text → Bool) (event_id user_id : ℕ) (s s' : Store) (text : Text)
    → attendees_csv before event_id user_id s ≡ (ok text, s')
    → (parse_csv text ≡ some (map (map guarded) (attendees before event_id s)))
      × All (All (λ v. begins_formula v ≡ false)) (map (map guarded) (attendees before event_id s))
parse_csv-attendees_csv before event_id user_id s s' text done =
    (Ends-at _ done (csv-Ends before event_id user_id s), rows_safe (attendees before event_id s))
