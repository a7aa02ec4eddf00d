-- ===== src/Alloc.antt =====
-- src/memory/allocator.c and the messages on allocations of src/network/handlers.c: the page tables
-- of one node, the notice of a new allocation to the other nodes and their acknowledgements.
-- `page_tables` is the list of the tables `[0 .. num_allocations)`, none of them NULL, and
-- `has_primary` says that `page_table` is not NULL. A function runs as one step between two waits,
-- so the locks and the temporary references are left out. A node ID is below 2 ^ 32.
pub mod Notices
pub mod Memory
pub mod Ranges
pub mod Owners
pub mod Tables
pub mod Reserved
pub mod Aborted
pub mod Reuse
pub mod Acks
mod Tests
use user_level_dsm.Prelude.{ℕ, Option, Bool, List, some, if◌then◌else◌, none}
use user_level_dsm.Types.{Status, Role, success, memory_error}
use user_level_dsm.Directory.{Directory, directory_create}
use user_level_dsm.PageTable.{PageTable}

-- A slot of `network.nodes`: the parts that the allocator reads.
pub record PeerSlot : Type 0 where
  pub id : ℕ
  pub connected : Bool
  pub is_failed : Bool

-- `alloc_ack_tracker_t`
pub record AckTracker : Type 0 where
  pub start_page_id : ℕ
  pub end_page_id : ℕ
  pub expected_acks : ℕ
  pub received_acks : ℕ
  pub acks_received : List Bool
  pub active : Bool

-- What the allocator reads and writes of the global context.
pub record AllocNode : Type 0 where
  pub initialized : Bool
  pub role : Role
  pub node_id : ℕ
  pub num_nodes : ℕ
  pub page_tables : List PageTable
  pub has_primary : Bool
  pub num_local_allocations : ℕ
  pub directory : Option Directory
  pub nodes : List PeerSlot
  pub tracker : AckTracker

-- The payload of an `ALLOC_NOTIFY` message.
pub record Notice : Type 0 where
  pub start_page_id : ℕ
  pub end_page_id : ℕ
  pub owner : ℕ
  pub num_pages : ℕ
  pub base_addr : ℕ
  pub total_size : ℕ

-- The payload of an `ALLOC_ACK` message.
pub record Ack : Type 0 where
  pub start_page_id : ℕ
  pub end_page_id : ℕ
  pub acker : ℕ

pub data AllocMessage : Type 0 where
  alloc_notify : (sender : ℕ) → Notice → AllocMessage
  alloc_ack : (sender : ℕ) → Ack → AllocMessage

-- A message handed to `network_send` for `target`.
pub record Post : Type 0 where
  pub target : ℕ
  pub message : AllocMessage

-- What a step meets: the address that `mmap` returns, `none` being `MAP_FAILED`, whether `munmap`
-- succeeds, whether the directory and its entries can be allocated, and the code of
-- `network_send`.
pub record AllocEnv : Type 0 where
  pub mapped : Option ℕ
  pub unmaps : Bool
  pub dir_ok : Bool
  pub entries_ok : Bool
  pub send_code : Status

-- The directory is made once; 100000 is the number of its buckets.
abbrev pub directory_size : ℕ
directory_size = 100000

unfoldable pub consistency_init : (dir_ok : Bool) → Option Directory → Status × Option Directory
consistency_init dir_ok (some d) = (success, some d)
consistency_init dir_ok none =
    if dir_ok then (success, some (directory_create directory_size)) else (memory_error, none)
