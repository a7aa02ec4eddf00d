-- ===== src/Life/Rules.antt =====
-- game_of_life/gol_rules.c: the rules, and one generation of a node's rows.
-- The dimensions of the grid are positive, so that each sum below is at least 1 before the 1 is taken
-- away; `d` is the source's `dr + 1` or `dc + 1`.
pub mod Buffers
pub mod Cell
pub mod Generation
pub mod Torus
mod Tests
use user_level_dsm.Prelude.{
  ℕ, ◌+◌, List, suc, ◌∷◌, if◌then◌else◌, ◌-◌, ◌%◌, ◌==◌, none, zero, [], ◌&&◌, ◌||◌, some,
}
use user_level_dsm.Life.{GolState, gol_get_cell, load, store}

-- A neighbour's coordinate: `(x + (d - 1) + size) % size`.
abbrev pub wrapped : ℕ → ℕ → ℕ → ℕ
wrapped x d size = (x + d + size - 1) % size

-- `if (cell) count += *cell`
pub value_at : GolState → ℕ → ℕ → ℕ
value_at s row col = elim (gol_get_cell s 0 row col) [ none ↦ 0 | some a ↦ load s 0 a ]

-- The loop over `dc`, for one `dr`.
pub count_columns : GolState → ℕ → ℕ → ℕ → List ℕ → ℕ
count_columns s row col dr [] = 0
count_columns s row col dr (dc ∷ dcs) =
    (if (dr == 1) && (dc == 1)
      then 0
      else value_at s (wrapped row dr s.grid_height) (wrapped col dc s.grid_width))
    + count_columns s row col dr dcs

-- The loop over `dr`.
pub count_rows : GolState → ℕ → ℕ → List ℕ → ℕ
count_rows s row col [] = 0
count_rows s row col (dr ∷ drs) =
    count_columns s row col dr (0 ∷ 1 ∷ 2 ∷ []) + count_rows s row col drs

abbrev pub count_neighbors : GolState → ℕ → ℕ → ℕ
count_neighbors s row col = count_rows s row col (0 ∷ 1 ∷ 2 ∷ [])

pub apply_rules : ℕ → ℕ → ℕ
apply_rules current_state neighbor_count =
    if current_state == 1
    then (if (neighbor_count == 2) || (neighbor_count == 3) then 1 else 0)
    else (if neighbor_count == 3 then 1 else 0)

-- The body of the loops of `compute_generation`: the state and `live_count`.
pub compute_cell : GolState × ℕ → ℕ → ℕ → GolState × ℕ
compute_cell (s, live) row col = elim (gol_get_cell s 0 row col) [
  | none ↦ (s, live)
  | some a ↦ elim (gol_get_cell s 1 row col) [
    | none ↦ (s, live)
    | some b ↦
        let next = apply_rules (load s 0 a) (count_neighbors s row col) in
        (store s 1 b next, if next == 1 then live + 1 else live)
  ]
]

-- The loop over the columns, from `col` on, `k` of them; and over the rows.
pub compute_row : GolState × ℕ → ℕ → ℕ → ℕ → GolState × ℕ
compute_row sl row col zero = sl
compute_row sl row col (suc k) = compute_row (compute_cell sl row col) row (col + 1) k

pub compute_rows : GolState × ℕ → ℕ → ℕ → ℕ → GolState × ℕ
compute_rows sl width row zero = sl
compute_rows sl width row (suc k) = compute_rows (compute_row sl row 0 width) width (row + 1) k

pub compute_generation : GolState → GolState × ℕ
compute_generation s = compute_rows (s, 0) s.grid_width s.start_row (s.end_row - s.start_row)
