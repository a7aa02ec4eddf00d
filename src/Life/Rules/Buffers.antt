-- ===== src/Life/Rules/Buffers.antt =====
-- game_of_life/gol_rules.c: the two grids of `compute_generation`.
use native.Mathlib.Nat.{add-zero, suc-mul}
use user_level_dsm.Life.{GolState, gol_get_cell, store, load}
use user_level_dsm.Life.Rules.{
  compute_cell, compute_generation, count_rows, compute_row, compute_rows, value_at, apply_rules,
  count_columns, count_neighbors,
}
use user_level_dsm.Prelude.{
  ℕ, List, ◌+◌, Option, Option-cases, ◌≡◌, ◌≤◌, inl, arith, inr, Bool, ◌*◌, suc, subst, refl, ap,
  if◌then◌else◌, ◌-◌, zero, ◌==◌, ◌∙◌,
}

-- A state with another next grid.
abbrev pub with_next : GolState → List (Option (List ℕ)) → GolState
with_next s next = record s { partitions_next = next }

-- A state that differs from `s` in its next grid only, with at most `bound` live cells counted.
abbrev pub IsNextOf : GolState → ℕ → GolState × ℕ → Type 0
IsNextOf s bound r = (next : List (Option (List ℕ))) × (r.0 ≡ with_next s next) × (r.1 ≤ bound)

one_more : (c : Bool) (live bound : ℕ) → live ≤ bound → (if c then live + 1 else live) ≤ bound + 1
one_more c live bound h = ground arith

cell-IsNextOf :
    (s : GolState) (r : GolState × ℕ) (bound row col : ℕ)
    → IsNextOf s bound r
    → IsNextOf s (bound + 1) (compute_cell r row col)
unfolding compute_cell
cell-IsNextOf s (t, live) bound row col (next, e, le) =
    elim (Option-cases (gol_get_cell t 0 row col)) [
      | inl missing ↦ rw (compute_cell, missing) (next, e, omega arith)
      | inr (a, here) ↦ elim (Option-cases (gol_get_cell t 1 row col)) [
        | inl missing ↦ rw (compute_cell, here, missing) (next, e, omega arith)
        | inr (b, there) ↦
            rw (compute_cell, here, there)
              (
                (store t 1 b
                    (apply_rules (load t 0 a) (count_neighbors t row col))).partitions_next,
                ap
                    (λ u.
                      with_next u
                        (store t 1 b
                          (apply_rules (load t 0 a) (count_neighbors t row col))).partitions_next)
                    e,
                one_more (apply_rules (load t 0 a) (count_neighbors t row col) == 1) live bound le,
              )
      ]
    ]

bound_suc : (a k : ℕ) → a + 1 + k ≡ a + suc k
bound_suc a k = omega arith

row-IsNextOf :
    (s : GolState) (r : GolState × ℕ) (bound row col k : ℕ)
    → IsNextOf s bound r
    → IsNextOf s (bound + k) (compute_row r row col k)
unfolding compute_row
row-IsNextOf s r bound row col zero h = rw (add-zero, compute_row) h
row-IsNextOf s r bound row col (suc k) h =
    subst (λ b. IsNextOf s b (compute_row (compute_cell r row col) row (col + 1) k))
      (bound_suc bound k)
      (row-IsNextOf s (compute_cell r row col) (bound + 1) row (col + 1) k
        (cell-IsNextOf s r bound row col h))

next_bound : (a k w : ℕ) → a + w + k * w ≡ a + suc k * w
next_bound a k w = omega (arith, suc-mul k w)

rows-IsNextOf :
    (s : GolState) (r : GolState × ℕ) (bound width row k : ℕ)
    → IsNextOf s bound r
    → IsNextOf s (bound + k * width) (compute_rows r width row k)
unfolding compute_rows
rows-IsNextOf s r bound width row zero (next, e, le) = (next, e, omega arith)
rows-IsNextOf s r bound width row (suc k) h =
    subst (λ b. IsNextOf s b (compute_rows (compute_row r row 0 width) width (row + 1) k))
      (next_bound bound k width)
      (rows-IsNextOf s (compute_row r row 0 width) (bound + width) width (row + 1) k
        (row-IsNextOf s r bound row 0 width h))

value_at-with_next :
    (s : GolState) (next : List (Option (List ℕ))) (row col : ℕ)
    → value_at (with_next s next) row col ≡ value_at s row col
unfolding value_at gol_get_cell
value_at-with_next s next row col = refl

count_neighbors-with_next :
    (s : GolState) (next : List (Option (List ℕ))) (row col : ℕ)
    → count_neighbors (with_next s next) row col ≡ count_neighbors s row col
unfolding count_rows count_columns value_at gol_get_cell
count_neighbors-with_next s next row col = refl

-- A generation reads and writes different grids: whatever `compute_generation` writes, every cell of
-- the current grid reads as before, every cell has as many live neighbours as before, and the live
-- cells that it counts are no more than the cells of the node's rows.
pub compute_generation_lem :
    (s : GolState) (row col : ℕ)
    → (value_at (compute_generation s).0 row col ≡ value_at s row col)
      × (count_neighbors (compute_generation s).0 row col ≡ count_neighbors s row col)
      × ((compute_generation s).1 ≤ (s.end_row - s.start_row) * s.grid_width)
unfolding compute_generation
compute_generation_lem s row col =
    let (next, e, le) =
      rows-IsNextOf s (s, 0) 0 s.grid_width s.start_row (s.end_row - s.start_row)
        (s.partitions_next, refl, omega arith) in
    (
      ap (λ t. value_at t row col) e ∙ value_at-with_next s next row col,
      ap (λ t. count_neighbors t row col) e ∙ count_neighbors-with_next s next row col,
      omega arith,
    )
