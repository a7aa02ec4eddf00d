-- ===== src/Life.antt =====
-- game_of_life/gol_state.h and gol_state.c: the Game of Life on a grid whose rows are
-- spread over the nodes. Every node computes all partitions; each allocates its own in shared memory.
-- A pointer to a cell is the number of its partition and the cell's offset in it. A `NULL` partition
-- is `none`. The two arrays of partition bounds are one list of spans, of `num_nodes` elements, which
-- the program keeps at most `MAX_GOL_NODES`. The dimensions are C `int`s that are small and positive.
pub mod Partition
pub mod Cells
pub mod Writes
pub mod Rules
pub mod Setup
pub mod Patterns
mod Tests
use user_level_dsm.Prelude.{
  List, ℕ, ◌/◌, [], Option, get_or, ◌+◌, none, suc, if◌then◌else◌, ◌==◌, leb, ltb, ◌∷◌, ◌%◌, ◌||◌,
  ◌&&◌, zero, some, ◌*◌, ◌-◌, set,
}
use user_level_dsm.Types.{Status, invalid_argument, success}

-- An element of `partition_start_row` and of `partition_num_rows`.
pub record Span : Type 0 where
  pub start : ℕ
  pub rows : ℕ

-- `gol_state_t`: the partitions, and the dimensions. The statistics and the lock on the terminal are
-- left out.
pub record GolState : Type 0 where
  pub partitions_current : List (Option (List ℕ))
  pub partitions_next : List (Option (List ℕ))
  pub spans : List Span
  pub my_node_id : ℕ
  pub start_row : ℕ
  pub end_row : ℕ
  pub num_rows : ℕ
  pub grid_width : ℕ
  pub grid_height : ℕ
  pub num_nodes : ℕ

-- `rows_for_this_node`
abbrev pub rows_of : ℕ → ℕ → ℕ → ℕ
rows_of height num_nodes node =
    height / num_nodes + (if ltb node (height % num_nodes) then 1 else 0)

-- The loop over the nodes from `node` on, with `k` of them left.
pub spans_from : ℕ → ℕ → ℕ → ℕ → ℕ → List Span
spans_from height num_nodes node current_row zero = []
spans_from height num_nodes node current_row (suc k) =
    record { start = current_row; rows = rows_of height num_nodes node }
    ∷ spans_from height num_nodes (node + 1) (current_row + rows_of height num_nodes node) k

abbrev pub no_span : Span
no_span = record { start = 0; rows = 0 }

abbrev pub with_spans : GolState → List Span → GolState
with_spans s spans =
    let mine = get_or spans s.my_node_id no_span in
    record s {
      spans = spans;
      start_row = mine.start;
      end_row = mine.start + mine.rows;
      num_rows = mine.rows;
    }

pub gol_calculate_partition : GolState → GolState
gol_calculate_partition s = with_spans s (spans_from s.grid_height s.num_nodes 0 0 s.num_nodes)

-- The search for the partition of a row, from partition `node` on: the partition and the row in it.
pub find_owner : ℕ → ℕ → List Span → Option (ℕ × ℕ)
find_owner row node [] = none
find_owner row node (p ∷ ps) =
    if leb p.start row && ltb row (p.start + p.rows)
    then some (node, row - p.start)
    else find_owner row (node + 1) ps

-- `grid` is 0 for the current generation; any other number is the next.
abbrev pub partitions : GolState → ℕ → List (Option (List ℕ))
partitions s grid = if grid == 0 then s.partitions_current else s.partitions_next

-- The address of a cell, for a row and a column that are not negative.
pub gol_get_cell : GolState → ℕ → ℕ → ℕ → Option (ℕ × ℕ)
gol_get_cell s grid row col =
    if leb s.grid_height row || leb s.grid_width col
    then none
    else elim (find_owner row 0 s.spans) [
      | none ↦ none
      | some (owner, local_row) ↦ elim (get_or (partitions s grid) owner none) [
        | none ↦ none
        | some cells ↦ some (owner, local_row * s.grid_width + col)
      ]
    ]

abbrev pub with_partition : GolState → ℕ → ℕ → Option (List ℕ) → GolState
with_partition s grid owner cells =
    if grid == 0
    then record s { partitions_current = set s.partitions_current owner cells }
    else record s { partitions_next = set s.partitions_next owner cells }

-- A read and a write through the pointer that `gol_get_cell` returned.
pub load_in : ℕ → Option (List ℕ) → ℕ
load_in offset none = 0
load_in offset (some cells) = get_or cells offset 0

pub store_in : ℕ → ℕ → Option (List ℕ) → Option (List ℕ)
store_in offset value none = none
store_in offset value (some cells) = some (set cells offset value)

abbrev pub load : GolState → ℕ → ℕ × ℕ → ℕ
load s grid address = load_in address.1 (get_or (partitions s grid) address.0 none)

abbrev pub store : GolState → ℕ → ℕ × ℕ → ℕ → GolState
store s grid address value =
    with_partition s grid address.0
      (store_in address.1 value (get_or (partitions s grid) address.0 none))

pub gol_set_cell : GolState → ℕ → ℕ → ℕ → ℕ → Status × GolState
gol_set_cell s grid row col value = elim (gol_get_cell s grid row col) [
  | none ↦ (invalid_argument, s)
  | some address ↦ (success, store s grid address value)
]
