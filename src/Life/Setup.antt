-- ===== src/Life/Setup.antt =====
-- game_of_life/gol_state.c: a node's state, the allocation of its partition, and the search for the
-- partitions of the others. Two parameters stand for the calls of the library: whether each
-- `dsm_malloc` succeeds, and the cells at the address that `dsm_get_allocation` returns for an index,
-- `none` for `NULL`. The lock on the terminal is left out.
pub mod Ready
mod Tests
use user_level_dsm.Life.{GolState, gol_calculate_partition, with_partition}
use user_level_dsm.Types.{Status, success, memory_error, not_found}
use user_level_dsm.Prelude.{
  replicate, none, ℕ, Bool, ◌*◌, [], if◌then◌else◌, Option, not, List, some, suc, ◌+◌, ◌==◌, zero,
}

-- `gol_config_t`: what the state reads.
pub record GolConfig : Type 0 where
  pub node_id : ℕ
  pub num_nodes : ℕ
  pub grid_width : ℕ
  pub grid_height : ℕ

unfoldable pub gol_state_init : GolConfig → GolState
gol_state_init config = gol_calculate_partition (record {
  partitions_current = replicate config.num_nodes none;
  partitions_next = replicate config.num_nodes none;
  spans = [];
  my_node_id = config.node_id;
  start_row = 0;
  end_row = 0;
  num_rows = 0;
  grid_width = config.grid_width;
  grid_height = config.grid_height;
  num_nodes = config.num_nodes;
})

-- Both pointers of a node.
abbrev pub with_both : GolState → ℕ → (current next : Option (List ℕ)) → GolState
with_both s node current next = with_partition (with_partition s 0 node current) 1 node next

-- The size of the node's own partition, in cells.
abbrev pub partition_size : GolState → ℕ
partition_size s = s.num_rows * s.grid_width

unfoldable pub gol_allocate_partition : (first second : Bool) → GolState → Status × GolState
gol_allocate_partition first second s =
    if not first
    then (memory_error, with_partition s 0 s.my_node_id none)
    else if not second
    then (memory_error, with_both s s.my_node_id none none)
    else (
      success,
      with_both s s.my_node_id (some (replicate (partition_size s) 0))
          (some (replicate (partition_size s) 0)),
    )

-- The body of the loop for another node: `none` goes on, a code ends the loop.
unfoldable pub retrieve_one :
    (get : ℕ → Option (List ℕ)) → GolState → (node : ℕ) → Option Status × GolState
retrieve_one get s node = elim (get (node * 2)) [
  | none ↦ (some not_found, with_partition s 0 node none)
  | some current ↦ elim (get (node * 2 + 1)) [
    | none ↦ (some not_found, with_partition (with_partition s 0 node (some current)) 1 node none)
    | some next ↦ (none, with_both s node (some current) (some next))
  ]
]

-- The loop, from `node` on, `k` of them.
unfoldable pub retrieve_from :
    (get : ℕ → Option (List ℕ)) → GolState → (node k : ℕ) → Status × GolState
retrieve_from get s node zero = (success, s)
retrieve_from get s node (suc k) =
    if node == s.my_node_id
    then retrieve_from get s (node + 1) k
    else let (code, t) = retrieve_one get s node in
      elim code [ some error ↦ (error, t) | none ↦ retrieve_from get t (node + 1) k ]

unfoldable pub gol_retrieve_partitions : (get : ℕ → Option (List ℕ)) → GolState → Status × GolState
gol_retrieve_partitions get s = retrieve_from get s 0 s.num_nodes

-- The node frees its own partitions.
unfoldable pub gol_state_cleanup : GolState → GolState
gol_state_cleanup s = with_both s s.my_node_id none none
