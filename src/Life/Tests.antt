-- ===== src/Life/Tests.antt =====
-- game_of_life/gol_state.c: each theorem on partitions and cells at one input.
use user_level_dsm.Prelude.{
  ◌≡◌, ℕ, ◌≤◌, ◌∷◌, replicate, Option, suc, List, arith, [], some, refl, zero, ◌*◌, ◌<◌,
}
use user_level_dsm.Life.Cells.{IsAllocated, get_cell_lem}
use user_level_dsm.Life.{
  GolState, rows_of, gol_get_cell, gol_calculate_partition, find_owner, spans_from,
}
use user_level_dsm.Life.Partition.{first_row}

-- Ten rows of four cells on three nodes, all partitions known.
abbrev pub part : ℕ → Option (List ℕ)
part rows = some (replicate (rows * 4) 0)

abbrev pub grid_10_4 : GolState
grid_10_4 = record {
  partitions_current = part 4 ∷ part 3 ∷ part 3 ∷ [];
  partitions_next = part 4 ∷ part 3 ∷ part 3 ∷ [];
  spans = [];
  my_node_id = 1;
  start_row = 0;
  end_row = 0;
  num_rows = 0;
  grid_width = 4;
  grid_height = 10;
  num_nodes = 3;
}

grid_10_4-IsAllocated : IsAllocated grid_10_4 0
grid_10_4-IsAllocated zero h = (replicate 16 0, refl)
grid_10_4-IsAllocated (suc zero) h = (replicate 12 0, refl)
grid_10_4-IsAllocated (suc (suc zero)) h = (replicate 12 0, refl)
grid_10_4-IsAllocated (suc (suc (suc i))) h = absurd (omega arith)

get_cell_lem_example :
    (owner : ℕ) × (offset : ℕ) × (gol_get_cell (gol_calculate_partition grid_10_4) 0 7 2
      ≡ some (owner, offset))
    × (owner < 3)
    × (first_row 10 3 owner ≤ 7)
    × (offset < rows_of 10 3 owner * 4)
get_cell_lem_example =
    get_cell_lem grid_10_4 0 7 2 (omega arith) grid_10_4-IsAllocated (omega arith) (omega arith)

cell_7_2 : gol_get_cell (gol_calculate_partition grid_10_4) 0 7 2 ≡ some (2, 2)
unfolding gol_get_cell gol_calculate_partition spans_from find_owner
cell_7_2 = refl
