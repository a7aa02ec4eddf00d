-- ===== src/Life/Rules/Tests.antt =====
-- game_of_life/gol_rules.c: the rules on small grids.
use user_level_dsm.Life.Tests.{grid_10_4, part}
use user_level_dsm.Life.Rules.{count_rows, value_at, count_columns, count_neighbors, apply_rules}
use user_level_dsm.Life.{
  GolState, gol_calculate_partition, gol_get_cell, spans_from, find_owner, load_in,
}
use user_level_dsm.Prelude.{
  some, ◌≡◌, ◌∷◌, [], refl, arith, replicate, suc, zero, All, ℕ, ◌<◌, contains, true,
}
use user_level_dsm.Life.Rules.Buffers.{with_next}
use user_level_dsm.Life.Writes.{IsLaid}
use user_level_dsm.Life.Rules.Cell.{IsReady, read, node_at}
use user_level_dsm.Life.Rules.Torus.{computed_in, life_step, torus_step}

-- Three cells in a row keep the middle one alive, and a dead cell beside them comes to life.
abbrev blinker : GolState
blinker = gol_calculate_partition (record grid_10_4 {
  partitions_current =
      some (0 ∷ 0 ∷ 0 ∷ 0 ∷ 0 ∷ 1 ∷ 0 ∷ 0 ∷ 0 ∷ 1 ∷ 0 ∷ 0 ∷ 0 ∷ 1 ∷ 0 ∷ 0 ∷ [])
      ∷ part 3
      ∷ part 3
      ∷ [];
})

blinker_counts :
    (count_neighbors blinker 2 1 ≡ 2)
    × (count_neighbors blinker 2 2 ≡ 3)
    × (apply_rules 1 2 ≡ 1)
    × (apply_rules 0 3 ≡ 1)
unfolding count_rows count_columns value_at gol_get_cell gol_calculate_partition spans_from
    find_owner load_in apply_rules
blinker_counts = (refl, refl, refl, refl)

grid_10_4-IsLaid : IsLaid grid_10_4 0
grid_10_4-IsLaid zero h = (omega arith, replicate 16 0, refl, refl)
grid_10_4-IsLaid (suc zero) h = (omega arith, replicate 12 0, refl, refl)
grid_10_4-IsLaid (suc (suc zero)) h = (omega arith, replicate 12 0, refl, refl)
grid_10_4-IsLaid (suc (suc (suc i))) h = absurd (omega arith)

next_grid-IsLaid : IsLaid (with_next grid_10_4 grid_10_4.partitions_next) 1
next_grid-IsLaid zero h = (omega arith, replicate 16 0, refl, refl)
next_grid-IsLaid (suc zero) h = (omega arith, replicate 12 0, refl, refl)
next_grid-IsLaid (suc (suc zero)) h = (omega arith, replicate 12 0, refl, refl)
next_grid-IsLaid (suc (suc (suc i))) h = absurd (omega arith)

grid_10_4-IsReady : IsReady grid_10_4 grid_10_4.partitions_next
grid_10_4-IsReady = record {
  some_node = omega arith;
  current = grid_10_4-IsLaid;
  upcoming = next_grid-IsLaid;
}

-- The nodes in the order 2, 0, 1.
order-All : All (λ i. i < 3) (2 ∷ 0 ∷ 1 ∷ [])
order-All = (omega arith, (omega arith, (omega arith, tt)))

all_there : (i : ℕ) → i < 3 → contains (2 ∷ 0 ∷ 1 ∷ []) i ≡ true
all_there i h = ground arith

torus_step_example :
    read
      (node_at grid_10_4 (computed_in grid_10_4 (2 ∷ 0 ∷ 1 ∷ []) grid_10_4.partitions_next))
      1
      9
      3
    ≡ life_step 10 4 (value_at (gol_calculate_partition grid_10_4)) 9 3
torus_step_example =
    torus_step grid_10_4 (2 ∷ 0 ∷ 1 ∷ []) grid_10_4.partitions_next 9 3 grid_10_4-IsReady order-All
      all_there (omega arith) (omega arith)
