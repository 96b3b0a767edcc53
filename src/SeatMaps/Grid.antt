-- ===== src/SeatMaps/Grid.antt =====
-- The seats of a block, their number and their places.
use openseat.Base.{
  ℕ, zero, suc, ◌+◌, ◌*◌, ◌≤◌, ◌<◌, ◌≡◌, refl, List, [], ◌∷◌, ◌++◌, map, All, All-append, All-mono,
  length, length-append, arith,
}
use openseat.SeatMaps.Create.{range, cells_of, grid, row_letter}

length-map : (f : ℕ → ℕ × ℕ) (xs : List ℕ) → length (map f xs) ≡ length xs
length-map f [] = refl
length-map f (x ∷ xs) = omega (arith, length-map f xs)

length-range : (k n : ℕ) → length (range k n) ≡ n
unfolding range
length-range k zero = refl
length-range k (suc n) = omega (arith, length-range (suc k) n)

length-cells : (cols : ℕ) (rows : List ℕ) → length (cells_of cols rows) ≡ length rows * cols
unfolding cells_of
length-cells cols [] = omega arith
length-cells cols (r ∷ rows) = omega (
  arith,
  length-append (map (λ c. (r, c)) (range 0 cols)) (cells_of cols rows),
  length-map (λ c. (r, c)) (range 0 cols),
  length-range 0 cols,
  length-cells cols rows,
  mul_suc (length rows),
)
  where
    mul_suc : (n : ℕ) → suc n * cols ≡ n * cols + cols
    mul_suc n = grind arith

-- A block has rows times columns seats.
pub length-grid : (rows cols : ℕ) → length (grid rows cols) ≡ rows * cols
unfolding grid
length-grid rows cols = rw (length-cells cols (range 0 rows), length-range 0 rows) refl

abbrev pub Cell : Type 0
Cell = ℕ × ℕ

-- Two cells of one label and number
abbrev pub SameCell : Cell → Cell → Type 0
SameCell a b = (row_letter a.0 ≡ row_letter b.0) × (a.1 ≡ b.1)

abbrev Away : Cell → List Cell → Type 0
Away x = All (λ y. SameCell y x → ⊥)

abbrev pub Apart : List Cell → Type 0
Apart [] = Unit
Apart (x ∷ xs) = Away x xs × Apart xs

Apart-append :
    (xs ys : List Cell) → Apart xs → Apart ys → All (λ x. Away x ys) xs → Apart (xs ++ ys)
Apart-append [] ys h k a = k
Apart-append (x ∷ xs) ys h k a =
    (All-append (λ y. SameCell y x → ⊥) xs ys h.0 a.0, Apart-append xs ys h.1 k a.1)

-- The columns of a row, from one on
row_range : (r k n : ℕ) → All (λ (x : Cell). (x.0 ≡ r) × (k ≤ x.1)) (map (λ c. (r, c)) (range k n))
unfolding range
row_range r k zero = tt
row_range r k (suc n) =
    ((refl, omega arith), All-mono _ (λ x h. (h.0, omega arith)) (row_range r (suc k) n))

Apart-row : (r k n : ℕ) → Apart (map (λ c. (r, c)) (range k n))
unfolding range
Apart-row r k zero = tt
Apart-row r k (suc n) =
    (All-mono _ (λ y h same. omega arith) (row_range r (suc k) n), Apart-row r (suc k) n)

-- The rows from one on, below the number of letters
rows_range :
    (cols k n : ℕ) → All (λ (x : Cell). (k ≤ x.0) × (x.0 < k + n)) (cells_of cols (range k n))
unfolding range cells_of
rows_range cols k zero = tt
rows_range cols k (suc n) =
    All-append (λ (x : Cell). (k ≤ x.0) × (x.0 < k + suc n)) (map (λ c. (k, c)) (range 0 cols)) _
      (All-mono _ (λ x h. (omega (arith, h.0), omega (arith, h.0))) (row_range k 0 cols))
      (All-mono _ (λ x h. (omega (arith, h.0), omega (arith, h.1))) (rows_range cols (suc k) n))

letters_differ : (a b : ℕ) → a < b → b < 26 → row_letter b ≡ row_letter a → ⊥
unfolding row_letter
letters_differ a b lt bound same = omega arith

Apart-cells : (cols k n : ℕ) → k + n ≤ 26 → Apart (cells_of cols (range k n))
unfolding range cells_of
Apart-cells cols k zero h = tt
Apart-cells cols k (suc n) h =
    Apart-append (map (λ c. (k, c)) (range 0 cols)) _ (Apart-row k 0 cols)
      (Apart-cells cols (suc k) n (omega arith))
      (All-mono _
        (λ x here.
          All-mono _
            (λ y later same.
              letters_differ k y.0 (omega (arith, later.0)) (omega (arith, later.1))
                (rw (← here.0) same.0))
            (rows_range cols (suc k) n))
        (row_range k 0 cols))

-- No two seats of a block of at most 26 rows have one label and number.
pub grid-Apart : (rows cols : ℕ) → rows ≤ 26 → Apart (grid rows cols)
unfolding grid
grid-Apart rows cols h = Apart-cells cols 0 rows (omega arith)
