-- ===== src/Checkin/Csv.antt =====
-- `attendeesCsv` of apps/api/src/checkin/checkin.service.ts. The order of names in the database's
-- collation is a parameter.
pub mod Parse
pub mod Cells
pub mod RoundTrip
use mathlib.Core.List.{reverse}
use openseat.Base.{
  ℕ, Bool, true, false, not, ◌&&◌, ◌||◌, Option, none, some, List, [], ◌∷◌, ◌++◌, map,
  if◌then◌else◌, ◌==◌, select, any, codes, iso_string,
}
use openseat.Store.{Store, Text, Ticket, TicketStatus, issued, checked_in, void}
use openseat.Store.Action.{Action, ◌>>=◌, return, read}
use openseat.Access.{manager, require_event_role}
use openseat.Holds.{is_void}
use openseat.SeatMaps.Label.{ticket_seat, type_name}

-- `[=+\-@\t\r]`
abbrev pub is_formula : ℕ → Bool
is_formula c = c == b'=' || c == b'+' || c == b'-' || c == b'@' || c == 9 || c == 13

-- `[",\r\n]`
abbrev pub is_special : ℕ → Bool
is_special c = c == 34 || c == b',' || c == 13 || c == 10

-- A text that a spreadsheet would read as a formula gets an apostrophe in front.
unfoldable pub guarded : Text → Text
guarded [] = []
guarded (c ∷ s) = if is_formula c then 39 ∷ c ∷ s else c ∷ s

-- `replace(/"/g, '""')`
unfoldable pub escaped : Text → Text
escaped [] = []
escaped (c ∷ s) = if c == 34 then 34 ∷ 34 ∷ escaped s else c ∷ escaped s

unfoldable pub quoted : Text → Text
unfolding escaped
quoted s = if any is_special s then 34 ∷ (escaped s ++ (34 ∷ [])) else s

unfoldable pub csv_cell : Text → Text
unfolding guarded quoted
csv_cell value = quoted (guarded value)

-- `row.map(csvCell).join(',')`
unfoldable pub csv_row : List Text → Text
unfolding csv_cell
csv_row [] = []
csv_row (cell ∷ []) = csv_cell cell
csv_row (cell ∷ next ∷ cells) = csv_cell cell ++ (b',' ∷ csv_row (next ∷ cells))

-- Each row ends with a carriage return and a line feed: between rows by `join`, after the last by `+`.
unfoldable pub csv_rows : List (List Text) → Text
unfolding csv_row
csv_rows [] = []
csv_rows (row ∷ rows) = csv_row row ++ (13 ∷ 10 ∷ csv_rows rows)

abbrev pub header : List Text
header =
    codes "Name"
    ∷ codes "Email"
    ∷ codes "Ticket Type"
    ∷ codes "Seat"
    ∷ codes "Status"
    ∷ codes "Checked In At"
    ∷ []

abbrev pub status_text : TicketStatus → Text
status_text issued = codes "issued"
status_text checked_in = codes "checked_in"
status_text void = codes "void"

abbrev pub or_blank : Option Text → Text
or_blank none = []
or_blank (some t) = t

abbrev pub time_text : Option ℕ → Text
time_text none = []
time_text (some time) = iso_string time

unfoldable pub attendee_row : Store → Ticket → List Text
unfolding ticket_seat type_name
attendee_row s t =
    t.attendee_name
    ∷ t.attendee_email
    ∷ type_name s t
    ∷ or_blank (ticket_seat s t)
    ∷ status_text t.status
    ∷ time_text t.checked_in_at
    ∷ []

-- `orderBy: [{ ticketType: { name: 'asc' } }, { createdAt: 'asc' }]`, from the oldest ticket on
unfoldable pub insert_by_type : (Text → Text → Bool) → Store → Ticket → List Ticket → List Ticket
unfolding type_name
insert_by_type before s t [] = t ∷ []
insert_by_type before s t (u ∷ us) =
    if before (type_name s u) (type_name s t) then u ∷ insert_by_type before s t us else t ∷ u ∷ us

unfoldable pub by_type : (Text → Text → Bool) → Store → List Ticket → List Ticket
unfolding insert_by_type
by_type before s [] = []
by_type before s (t ∷ ts) = insert_by_type before s t (by_type before s ts)

unfoldable pub attendees_csv : (Text → Text → Bool) → ℕ → ℕ → Action Text
unfolding csv_rows attendee_row by_type
attendees_csv before event_id user_id = do
  allowed ← require_event_role event_id user_id manager
  tickets ← read (λ s.
      by_type before s
        (reverse (select (λ t. t.event_id == event_id && not (is_void t.status)) s.tickets)))
  read (λ s. csv_rows (header ∷ map (attendee_row s) tickets))
