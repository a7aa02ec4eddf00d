-- ===== src/Life/Patterns.antt =====
-- game_of_life/gol_rules.c: the patterns that a game starts with, and the count of the live cells. The
-- random numbers are a parameter. The dimensions are positive.
use user_level_dsm.Life.{GolState, gol_set_cell, gol_get_cell, load}
use user_level_dsm.Prelude.{
  ℕ, List, suc, Bool, ◌∷◌, ◌-◌, ◌+◌, [], if◌then◌else◌, none, ◌==◌, zero, some, ◌%◌, ◌/◌,
}

-- Writes of 1 at each place, the result of each being dropped.
unfoldable pub set_cells : GolState → List (ℕ × ℕ) → GolState
set_cells s [] = s
set_cells s (p ∷ ps) = set_cells (gol_set_cell s 0 p.0 p.1 1).1 ps

-- A pattern moved to `(x, y)`, going round the edges.
unfoldable pub moved : (height width x y : ℕ) → List (ℕ × ℕ) → List (ℕ × ℕ)
moved height width x y [] = []
moved height width x y (p ∷ ps) =
    ((y + p.0) % height, (x + p.1) % width) ∷ moved height width x y ps

abbrev pub glider : List (ℕ × ℕ)
glider = (0, 1) ∷ (1, 2) ∷ (2, 0) ∷ (2, 1) ∷ (2, 2) ∷ []

abbrev pub rpentomino : List (ℕ × ℕ)
rpentomino = (0, 1) ∷ (0, 2) ∷ (1, 0) ∷ (1, 1) ∷ (2, 1) ∷ []

abbrev pub blinker : List (ℕ × ℕ)
blinker = (0, 0) ∷ (0, 1) ∷ (0, 2) ∷ []

unfoldable pub init_glider : GolState → (x y : ℕ) → GolState
init_glider s x y = set_cells s (moved s.grid_height s.grid_width x y glider)

unfoldable pub init_rpentomino : GolState → (x y : ℕ) → GolState
init_rpentomino s x y = set_cells s (moved s.grid_height s.grid_width x y rpentomino)

unfoldable pub init_blinker : GolState → (x y : ℕ) → GolState
init_blinker s x y = set_cells s (moved s.grid_height s.grid_width x y blinker)

-- The loops over the columns and the rows; `is_live` says whether the random number is small enough.
unfoldable pub random_row : (is_live : ℕ → ℕ → Bool) → GolState → (row col k : ℕ) → GolState
random_row is_live s row col zero = s
random_row is_live s row col (suc k) =
    random_row is_live (gol_set_cell s 0 row col (if is_live row col then 1 else 0)).1 row (col + 1)
      k

unfoldable pub random_rows : (is_live : ℕ → ℕ → Bool) → GolState → (row k : ℕ) → GolState
random_rows is_live s row zero = s
random_rows is_live s row (suc k) =
    random_rows is_live (random_row is_live s row 0 s.grid_width) (row + 1) k

unfoldable pub init_random_partition : (is_live : ℕ → ℕ → Bool) → GolState → GolState
init_random_partition is_live s = random_rows is_live s s.start_row (s.end_row - s.start_row)

pub data Pattern : Type 0 where
  glider_pattern : Pattern
  rpentomino_pattern : Pattern
  blinker_pattern : Pattern
  random_pattern : Pattern
  unknown_pattern : Pattern

-- The patterns with a shape are written by node 0 alone.
unfoldable pub initialize_pattern : Pattern → (is_live : ℕ → ℕ → Bool) → GolState → GolState
initialize_pattern glider_pattern is_live s =
    if s.my_node_id == 0 then init_glider s (s.grid_width / 2) (s.grid_height / 2) else s
initialize_pattern rpentomino_pattern is_live s =
    if s.my_node_id == 0 then init_rpentomino s (s.grid_width / 2) (s.grid_height / 2) else s
initialize_pattern blinker_pattern is_live s =
    if s.my_node_id == 0 then init_blinker s (s.grid_width / 2) (s.grid_height / 2) else s
initialize_pattern random_pattern is_live s = init_random_partition is_live s
initialize_pattern unknown_pattern is_live s = s

unfoldable pub count_row : GolState → (row col k : ℕ) → ℕ
count_row s row col zero = 0
count_row s row col (suc k) =
    (elim (gol_get_cell s 0 row col) [ none ↦ 0 | some a ↦ load s 0 a ])
    + count_row s row (col + 1) k

unfoldable pub count_cells : GolState → (row k : ℕ) → ℕ
count_cells s row zero = 0
count_cells s row (suc k) = count_row s row 0 s.grid_width + count_cells s (row + 1) k

unfoldable pub count_live_cells : GolState → ℕ
count_live_cells s = count_cells s s.start_row (s.end_row - s.start_row)
