-- ===== src/Alloc/Tests.antt =====
-- src/memory/allocator.c: the theorems on allocations at concrete inputs.
use user_level_dsm.Alloc.Memory.{
  Allocation, expected_from, dsm_malloc, dsm_free, table_at, reserve, add_table, drop_table,
  announce, settle, remove_table, notice_of, take_pages, handle_acks,
}
use user_level_dsm.PageTable.{PageTable, fresh_entries, new_table, page_table_create}
use user_level_dsm.Alloc.Reuse.{IsNewAddress, malloc-IsPlanned, free_reuses_ids}
use user_level_dsm.Alloc.{AllocEnv, AckTracker, AllocNode, Notice, Ack, alloc_notify}
use user_level_dsm.Alloc.Aborted.{IsUnused, early_acks_lost}
use user_level_dsm.Types.{Status, success, max_nodes, timeout_error}
use user_level_dsm.Alloc.Ranges.{IsPlanned}
use user_level_dsm.Directory.{Directory, directory_create, find_entry}
use user_level_dsm.Prelude.{
  ◌∷◌, subst, some, replicate, arith, ◌≡◌, true, inl, ◌≢◌, ◌++◌, [], refl, false, some_eq, ℕ, none,
  if◌then◌else◌, ◌⊎◌, leb, ◌&&◌,
}
use user_level_dsm.Alloc.Notices.{
  wait_for_alloc_acks, handle_alloc_notify, acked, expired, await_acks, count_ack,
  send_alloc_notify, peers,
}
use user_level_dsm.Alloc.Acks.{Acknowledged, wait_lem}
use user_level_dsm.Alloc.Tables.{IsTableOf}
use user_level_dsm.Alloc.Owners.{owned_entry, notify_registers}
use user_level_dsm.Directory.History.{directory_create-IsValid}

abbrev start_env : AllocEnv
start_env = record {
  mapped = some 12288;
  unmaps = true;
  dir_ok = true;
  entries_ok = true;
  send_code = success;
}

abbrev idle_tracker : AckTracker
idle_tracker = record {
  start_page_id = 0;
  end_page_id = 0;
  expected_acks = 0;
  received_acks = 0;
  acks_received = replicate max_nodes false;
  active = false;
}

abbrev first_table : PageTable
first_table = new_table 4096 4096 1000000 1

abbrev second_table : PageTable
second_table = new_table 8192 4096 1031250 1

-- Node 1 with two tables of its own, connected to the manager.
abbrev worker : AllocNode
worker = record {
  initialized = true;
  role = record { is_manager = false; is_promoted = false };
  node_id = 1;
  num_nodes = 2;
  page_tables = first_table ∷ second_table ∷ [];
  has_primary = true;
  num_local_allocations = 2;
  directory = none;
  nodes = (record { id = 0; connected = true; is_failed = false }) ∷ [];
  tracker = idle_tracker;
}

abbrev third_table : PageTable
third_table = new_table 12288 4096 1062500 1

abbrev reserved_node : AllocNode
reserved_node = record worker {
  page_tables = first_table ∷ second_table ∷ third_table ∷ [];
  num_local_allocations = 3;
}

reserves_third : reserve start_env worker 4096 ≡ (some third_table, reserved_node)
unfolding reserve add_table take_pages page_table_create fresh_entries
reserves_third = refl

worker-IsPlanned : IsPlanned worker
unfolding fresh_entries
worker-IsPlanned = record {
  apart = ((inl (omega arith), tt), (tt, tt));
  given = (inl (omega arith), (inl (omega arith), tt));
}

IsUnused-address : IsUnused 12288 worker.page_tables
IsUnused-address = (omega arith, (omega arith, tt))

new_address : IsNewAddress start_env worker
new_address addr e = subst (λ a. IsUnused a worker.page_tables) (some_eq e) IsUnused-address

abbrev manager_ack : Ack
manager_ack = record { start_page_id = 1062500; end_page_id = 1062500; acker = 0 }

peer_expected : expected_from 1 worker.nodes ≢ 0
unfolding expected_from
peer_expected = omega arith

early_acks_lost_example :
    (r : Allocation) × (dsm_malloc start_env worker 4096 (manager_ack ∷ []) (expired ∷ []) ≡ some r)
    × (r.address ≡ 0)
    × (r.after.page_tables ≡ worker.page_tables)
early_acks_lost_example =
    early_acks_lost start_env worker 4096 third_table reserved_node (manager_ack ∷ []) [] refl
      reserves_third IsUnused-address (omega arith) peer_expected

wait_lem_example :
    (r : Status × AllocNode) × (wait_for_alloc_acks worker 7 7 1 (acked manager_ack ∷ expired ∷ [])
      ≡ some r)
    × (((r.0 ≡ success) × Acknowledged 7 7 1 (acked manager_ack ∷ expired ∷ []))
        ⊎ (r.0 ≡ timeout_error))
wait_lem_example = wait_lem worker 7 7 1 (acked manager_ack ∷ expired ∷ []) refl

-- The acknowledgement comes in the wait.
abbrev acknowledged_node : AllocNode
acknowledged_node = record reserved_node {
  tracker = record {
    start_page_id = 1062500;
    end_page_id = 1062500;
    expected_acks = 1;
    received_acks = 1;
    acks_received = true ∷ replicate 15 false;
    active = false;
  };
}

abbrev allocation : Allocation
allocation = record {
  address = 12288;
  posts =
      (record { target = 0; message = alloc_notify 1 (notice_of reserved_node third_table) }) ∷ [];
  after = acknowledged_node;
}

allocates : dsm_malloc start_env worker 4096 [] (acked manager_ack ∷ []) ≡ some allocation
unfolding dsm_malloc announce settle reserve add_table take_pages page_table_create fresh_entries
    handle_acks wait_for_alloc_acks await_acks count_ack expected_from send_alloc_notify peers
allocates = refl

malloc-IsPlanned_example : IsPlanned acknowledged_node
malloc-IsPlanned_example =
    malloc-IsPlanned start_env worker 4096 [] (acked manager_ack ∷ []) allocation (omega arith) refl
      new_address worker-IsPlanned allocates

-- The first table is freed, and the next allocation gets the page IDs of the second.
abbrev freed_node : AllocNode
freed_node = record worker { page_tables = second_table ∷ []; num_local_allocations = 1 }

frees_first : (dsm_free start_env worker 4096).2 ≡ freed_node
unfolding dsm_free drop_table table_at remove_table fresh_entries
frees_first = refl

abbrev colliding_table : PageTable
colliding_table = new_table 12288 4096 1031250 1

abbrev colliding_node : AllocNode
colliding_node = record worker { page_tables = second_table ∷ colliding_table ∷ [] }

reserves_again : reserve start_env freed_node 4096 ≡ (some colliding_table, colliding_node)
unfolding reserve add_table take_pages page_table_create fresh_entries
reserves_again = refl

finds_first : table_at worker.page_tables 4096 ≡ some first_table
unfolding table_at fresh_entries
finds_first = refl

finds_second : table_at worker.page_tables 8192 ≡ some second_table
unfolding table_at fresh_entries
finds_second = refl

free_reuses_ids_example :
    (table_at colliding_node.page_tables 8192 ≡ some second_table)
    × (colliding_table.start_page_id ≡ second_table.start_page_id)
free_reuses_ids_example =
    free_reuses_ids start_env start_env worker 4096 4096 first_table second_table colliding_table
      colliding_node refl (omega arith) finds_first refl finds_second (omega arith) refl
      (rw frees_first reserves_again)

-- A notice of node 0 for one page.
abbrev notice : Notice
notice = record {
  start_page_id = 5;
  end_page_id = 5;
  owner = 0;
  num_pages = 1;
  base_addr = 12288;
  total_size = 4096;
}

abbrev small_directory : Directory
small_directory = directory_create 4

abbrev informed : AllocNode
informed = record worker { directory = some small_directory }

notify_registers_example :
    (t : PageTable) × (d' : Directory) × ((handle_alloc_notify start_env informed 0
        notice).after.page_tables
      ≡ informed.page_tables ++ t ∷ [])
    × IsTableOf notice t
    × ((handle_alloc_notify start_env informed 0 notice).after.directory ≡ some d')
    × ((q : ℕ)
        → find_entry d' q ≡ (
            if leb 5 q && leb q 5
            then owned_entry 0 q (find_entry small_directory q)
            else find_entry small_directory q))
notify_registers_example =
    notify_registers start_env informed 0 notice small_directory refl (omega arith) (omega arith)
      (omega arith) refl refl (directory_create-IsValid 4 (omega arith)) (omega arith)
