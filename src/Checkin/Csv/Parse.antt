-- ===== src/Checkin/Csv/Parse.antt =====
-- A reader of comma-separated values (RFC 4180), as the programs that open the file are.
use openseat.Base.{ℕ, Option, none, some, List, [], ◌∷◌, ◌++◌, if◌then◌else◌, ◌==◌}
use openseat.Store.{Text}

-- Before a cell, inside a plain or a quoted one, after a quote in a quoted cell, and after a carriage
-- return.
pub data Mode : Type 0 where
  start plain in_quotes quote_seen line_end : Mode

pub record Reader : Type 0 where
  pub mode : Mode
  pub cell : Text
  pub row : List Text
  pub rows : List (List Text)

abbrev pub add_char : Mode → ℕ → Reader → Reader
add_char m c r = record r { mode = m; cell = r.cell ++ (c ∷ []) }

abbrev pub end_cell : Reader → Reader
end_cell r = record r { mode = start; cell = []; row = r.row ++ (r.cell ∷ []) }

abbrev pub end_row : Reader → Reader
end_row r = record {
  mode = start;
  cell = [];
  row = [];
  rows = r.rows ++ ((r.row ++ (r.cell ∷ [])) ∷ []);
}

abbrev pub enter : Mode → Reader → Reader
enter m r = record r { mode = m }

-- A comma ends a cell, and a carriage return a row; `other` is for the rest.
abbrev pub separate : ℕ → Reader → Option Reader → Option Reader
separate c r other =
    if c == b',' then some (end_cell r) else if c == 13 then some (enter line_end r) else other

unfoldable pub read_char : Mode → ℕ → Reader → Option Reader
read_char start c r =
    if c == 34 then some (enter in_quotes r) else separate c r (some (add_char plain c r))
read_char plain c r = separate c r (some (add_char plain c r))
read_char in_quotes c r =
    if c == 34 then some (enter quote_seen r) else some (add_char in_quotes c r)
read_char quote_seen c r = if c == 34 then some (add_char in_quotes c r) else separate c r none
read_char line_end c r = if c == 10 then some (end_row r) else none

abbrev pub at_end : Mode → Reader → Option (List (List Text))
at_end start r = some r.rows
at_end _ r = none

unfoldable pub read_from : Reader → Text → Option (List (List Text))
unfolding read_char
read_from r [] = at_end r.mode r
read_from r (c ∷ s) = elim (read_char r.mode c r) [ none ↦ none | some r' ↦ read_from r' s ]

unfoldable pub parse_csv : Text → Option (List (List Text))
unfolding read_from
parse_csv s = read_from (record { mode = start; cell = []; row = []; rows = [] }) s
