-- ===== src/Checkin/Csv/Cells.antt =====
-- What a reader makes of one cell that `csvCell` wrote.
use mathlib.Core.List.{append-nil, append_assoc}
use openseat.Base.{
  ℕ, ◌≡◌, refl, ◌∙◌, inl, inr, false, some, List, [], ◌∷◌, ◌++◌, ◌==◌, Bool-cases, any, arith,
}
use openseat.Store.{Text}
use openseat.Checkin.Csv.{is_special, escaped, quoted}
use openseat.Checkin.Csv.Parse.{
  Mode, start, plain, in_quotes, quote_seen, Reader, read_char, read_from,
}

-- A reader in a mode, with the text of its cell.
abbrev pub at : Mode → Text → List Text → List (List Text) → Reader
at m cell row rows = record { mode = m; cell = cell; row = row; rows = rows }

module _ (row : List Text) (rows : List (List Text)) where
  pub one_char :
      (m : Mode) (cell : Text) (c : ℕ) (t : Text) (after : Reader)
      → read_char m c (at m cell row rows) ≡ some after
      → read_from (at m cell row rows) (c ∷ t) ≡ read_from after t
  unfolding read_from
  one_char m cell c t after e = rw (read_from, e) refl

  plain_char :
      (cell : Text) (c : ℕ)
      → is_special c ≡ false
      → read_char plain c (at plain cell row rows) ≡ some (at plain (cell ++ (c ∷ [])) row rows)
  unfolding read_char
  plain_char cell c h = ground (arith, h)

  first_char :
      (c : ℕ)
      → is_special c ≡ false
      → read_char start c (at start [] row rows) ≡ some (at plain (c ∷ []) row rows)
  unfolding read_char
  first_char c h = ground (arith, h)

  quoted_char :
      (cell : Text) (c : ℕ)
      → (c == 34) ≡ false
      → read_char in_quotes c (at in_quotes cell row rows)
        ≡ some (at in_quotes (cell ++ (c ∷ [])) row rows)
  unfolding read_char
  quoted_char cell c h = ground (arith, h)

  read_plain :
      (cell s rest : Text)
      → any is_special s ≡ false
      → read_from (at plain cell row rows) (s ++ rest)
        ≡ read_from (at plain (cell ++ s) row rows) rest
  unfolding any
  read_plain cell [] rest h = rw append-nil refl
  read_plain cell (c ∷ s) rest h =
      one_char plain cell c (s ++ rest) _ (plain_char cell c (ground arith))
      ∙ read_plain (cell ++ (c ∷ [])) s rest (ground arith)
      ∙ rw append_assoc refl

  read_quoted :
      (cell s rest : Text)
      → read_from (at in_quotes cell row rows) (escaped s ++ rest)
        ≡ read_from (at in_quotes (cell ++ s) row rows) rest
  unfolding escaped read_char
  read_quoted cell [] rest = rw append-nil refl
  read_quoted cell (c ∷ s) rest = elim (Bool-cases (c == 34)) [
    | inl quote ↦
        let e : c ≡ 34 = ground arith in
        rw quote (
          one_char in_quotes cell 34 (34 ∷ (escaped s ++ rest)) (at quote_seen cell row rows) refl
          ∙ one_char quote_seen cell 34 (escaped s ++ rest)
              (at in_quotes (cell ++ (34 ∷ [])) row rows) refl
          ∙ read_quoted (cell ++ (34 ∷ [])) s rest
          ∙ rw (append_assoc, e) refl)
    | inr other ↦ rw other (
        one_char in_quotes cell c (escaped s ++ rest) _ (quoted_char cell c other)
        ∙ read_quoted (cell ++ (c ∷ [])) s rest
        ∙ rw append_assoc refl)
  ]

  -- A character that ends a cell of text `v`, in each mode that may stand before it.
  pub record EndsCell (sep : ℕ) (v : Text) (after : Reader) : Type 0 where
    pub from_start : v ≡ [] → read_char start sep (at start [] row rows) ≡ some after
    pub from_plain : read_char plain sep (at plain v row rows) ≡ some after
    pub from_quote : read_char quote_seen sep (at quote_seen v row rows) ≡ some after

  plain_cell :
      (sep : ℕ) (v rest : Text) (after : Reader)
      → EndsCell sep v after
      → any is_special v ≡ false
      → read_from (at start [] row rows) (v ++ (sep ∷ rest)) ≡ read_from after rest
  unfolding any
  plain_cell sep [] rest after ends h = one_char start [] sep rest after (ends.from_start refl)
  plain_cell sep (c ∷ s) rest after ends h =
      one_char start [] c (s ++ (sep ∷ rest)) _ (first_char c (ground arith))
      ∙ read_plain (c ∷ []) s (sep ∷ rest) (ground arith)
      ∙ one_char plain (c ∷ s) sep rest after ends.from_plain

  -- The cell is read back as the text that was quoted.
  pub read_cell :
      (sep : ℕ) (v rest : Text) (after : Reader)
      → EndsCell sep v after
      → read_from (at start [] row rows) (quoted v ++ (sep ∷ rest)) ≡ read_from after rest
  unfolding quoted read_char
  read_cell sep v rest after ends = elim (Bool-cases (any is_special v)) [
    | inr clean ↦ rw clean (plain_cell sep v rest after ends clean)
    | inl special ↦
        rw (special, append_assoc (escaped v) (34 ∷ []) (sep ∷ rest))
          (one_char start [] 34 (escaped v ++ (34 ∷ sep ∷ rest)) (at in_quotes [] row rows) refl
            ∙ read_quoted [] v (34 ∷ sep ∷ rest)
            ∙ one_char in_quotes v 34 (sep ∷ rest) (at quote_seen v row rows) refl
            ∙ one_char quote_seen v sep rest after ends.from_quote)
  ]
