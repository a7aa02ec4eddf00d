-- ===== src/Life/Setup/Tests.antt =====
-- game_of_life/gol_state.c: the start of one node.
use user_level_dsm.Life.Setup.Ready.{IsShared, start-IsReady}
use user_level_dsm.Life.Setup.{
  GolConfig, gol_state_init, gol_allocate_partition, gol_retrieve_partitions,
}
use user_level_dsm.Prelude.{
  ℕ, true, ◌≡◌, Option, List, replicate, suc, some, if◌then◌else◌, arith, zero, ltb, refl,
}
use user_level_dsm.Life.{gol_calculate_partition, spans_from}
use user_level_dsm.Types.{success}
use user_level_dsm.Life.Rules.Cell.{IsReady}

-- Ten rows of four cells on three nodes, of which this is node 1.
abbrev config : GolConfig
config = record { node_id = 1; num_nodes = 3; grid_width = 4; grid_height = 10 }

-- The allocations 0 and 1 are those of node 0.
abbrev allocations : ℕ → Option (List ℕ)
allocations i = some (replicate (if ltb i 2 then 16 else 12) 0)

allocations-IsShared : IsShared allocations (gol_state_init config)
unfolding gol_state_init gol_calculate_partition spans_from
allocations-IsShared zero h = ((replicate 16 0, refl, refl), (replicate 16 0, refl, refl))
allocations-IsShared (suc zero) h = ((replicate 12 0, refl, refl), (replicate 12 0, refl, refl))
allocations-IsShared (suc (suc zero)) h =
    ((replicate 12 0, refl, refl), (replicate 12 0, refl, refl))
allocations-IsShared (suc (suc (suc i))) h = absurd (omega arith)

start-IsReady_example :
    let made = gol_allocate_partition true true (gol_state_init config) in
    let found = gol_retrieve_partitions allocations made.1 in
    (made.0 ≡ success) × (found.0 ≡ success) × IsReady found.1 found.1.partitions_next
start-IsReady_example = start-IsReady allocations config (omega arith) allocations-IsShared
