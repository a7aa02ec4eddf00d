-- ===== src/Failover.antt =====
-- src/network/handlers.c, replication and fail-over: the manager tells the first backup of each
-- change, the backup keeps shadows of the directory, the locks and the barriers, and when the
-- manager fails the shadows become the backup's own.
-- A handler runs as one step. An allocation's success is a parameter. `shadow_barriers` and
-- `shadow_locks` have 256 slots, an empty one being `none`.
pub mod Promotion
pub mod Order
pub mod Copies
mod Tests
use user_level_dsm.Prelude.{
  ℕ, List, ◌+◌, Bool, Option, ◌&&◌, true, get_or, none, some, ◌∷◌, if◌then◌else◌, not, false, ◌==◌,
  take, leb, [], set, length,
}
use user_level_dsm.Directory.{Directory, DirSync, directory_create, max_sharers}
use user_level_dsm.Barrier.{Barrier}
use user_level_dsm.Types.{Role, Status, memory_error, success, no_node, free, held}
use user_level_dsm.Coherence.{NodeSlot}
use user_level_dsm.Lock.{Lock, max_synced}
use user_level_dsm.Directory.Replica.{apply_sync}

-- The payload of a `STATE_SYNC` message. The message on a node's state is never sent.
pub data Sync : Type 0 where
  sync_dir : (seq : ℕ) → (entry : DirSync) → Sync
  sync_lock : (seq lock holder : ℕ) → (waiters : List ℕ) → Sync
  sync_barrier : (seq barrier arrived expected generation : ℕ) → Sync

-- What these functions read and write of the global context, `backup_state` among it.
pub record FailNode : Type 0 where
  pub role : Role
  pub node_id : ℕ
  pub is_backup : Bool
  pub current_manager : ℕ
  pub last_sync_seq : ℕ
  pub next_seq_num : ℕ
  pub num_nodes : ℕ
  pub nodes : List NodeSlot
  pub directory : Option Directory
  pub backup_directory : Option Directory
  pub backup_locks : List (Option Lock)
  pub backup_barriers : List (Option Barrier)
  pub locks : List (Option Lock)
  pub barriers : List Barrier

-- Which allocations succeed: that of the shadow directory, of an entry, of a shadow lock or barrier,
-- and the number of waiters.
pub record Memory : Type 0 where
  pub directory_ok : Bool
  pub entry_ok : Bool
  pub calloc_ok : Bool
  pub waiters_ok : ℕ

abbrev pub seq_of : Sync → ℕ
seq_of (sync_dir seq _) = seq
seq_of (sync_lock seq _ _ _) = seq
seq_of (sync_barrier seq _ _ _ _) = seq

abbrev pub slot_at : FailNode → ℕ → NodeSlot
slot_at n id = get_or n.nodes id (record { connected = false; is_failed = false })

-- A manager that is not a promoted backup replicates, if the first backup, node 1, is connected.
abbrev pub sends_sync : FailNode → Bool
sends_sync n =
    n.role.is_manager && (not n.role.is_promoted && (leb 1 n.num_nodes && (slot_at n 1).connected))

-- `get_next_sync_seq` takes one number, and `network_send` another for the header.
abbrev pub two_taken : FailNode → FailNode
two_taken n = record n { next_seq_num = n.next_seq_num + 2 }

-- The message for node 1, `none` if there is none, and the node afterwards.
pub send_state_sync_dir : FailNode → DirSync → Option Sync × FailNode
send_state_sync_dir n s =
    if sends_sync n
    then (
      some (sync_dir n.next_seq_num (record s { readers = take max_sharers s.readers })),
      two_taken n,
    )
    else (none, n)

pub send_state_sync_lock : FailNode → (lock holder : ℕ) → List ℕ → Option Sync × FailNode
send_state_sync_lock n lock holder waiters =
    if sends_sync n
    then (some (sync_lock n.next_seq_num lock holder (take max_synced waiters)), two_taken n)
    else (none, n)

pub send_state_sync_barrier :
    FailNode → (barrier arrived expected generation : ℕ) → Option Sync × FailNode
send_state_sync_barrier n barrier arrived expected generation =
    if sends_sync n
    then (some (sync_barrier n.next_seq_num barrier arrived expected generation), two_taken n)
    else (none, n)

abbrev pub is_empty {ℓ} : {A : Type ℓ} → Option A → Bool
is_empty none = true
is_empty (some a) = false

-- The search for a shadow: the slot of this identifier, or else the first empty one. `first` is the
-- first empty slot so far.
pub shadow_slot {ℓ} : {A : Type ℓ} → (A → ℕ) → ℕ → ℕ → Option ℕ → List (Option A) → Option ℕ
shadow_slot id_of id i first [] = first
shadow_slot id_of id i first (none ∷ ss) =
    shadow_slot id_of id (i + 1) (elim first [ none ↦ some i | some k ↦ some k ]) ss
shadow_slot id_of id i first (some l ∷ ss) =
    if id_of l == id then some i else shadow_slot id_of id (i + 1) first ss

abbrev pub shadow_directory : FailNode → Directory
shadow_directory n = elim n.backup_directory [ some d ↦ d | none ↦ directory_create 100000 ]

abbrev pub has_shadow : FailNode → Bool
has_shadow n = elim n.backup_directory [ some d ↦ true | none ↦ false ]

-- The test of `directory_set_owner` on node 1.
abbrev pub backup_up : FailNode → Bool
backup_up n = (slot_at n 1).connected && not (slot_at n 1).is_failed

pub store_dir : Memory → FailNode → DirSync → Status × FailNode
store_dir m n s =
    if not (has_shadow n) && not m.directory_ok
    then (memory_error, n)
    else let (code, d) = apply_sync n.role (backup_up n) m.entry_ok (shadow_directory n) s in
      (code, record n { backup_directory = some d })

abbrev pub shadow_lock : (lock holder : ℕ) → List ℕ → Lock
shadow_lock lock holder waiters = record {
  id = lock;
  holder = holder;
  state = if holder == no_node then free else held;
  waiters = waiters;
}

-- The rebuilt queue ends before the first waiter without memory.
pub store_lock : Memory → FailNode → (lock holder : ℕ) → List ℕ → Status × FailNode
store_lock m n lock holder waiters = elim (shadow_slot Lock.id lock 0 none n.backup_locks) [
  | none ↦ (memory_error, n)
  | some i ↦
      if is_empty (get_or n.backup_locks i none) && not m.calloc_ok
      then (memory_error, n)
      else let told = take max_synced waiters in
        (
          if leb (length told) m.waiters_ok then success else memory_error,
          record n {
            backup_locks =
                set n.backup_locks i (some (shadow_lock lock holder (take m.waiters_ok told)));
          },
        )
]

abbrev pub shadow_barrier : (barrier arrived expected generation : ℕ) → Barrier
shadow_barrier barrier arrived expected generation = record {
  id = barrier;
  expected_count = expected;
  arrived_count = arrived;
  generation = generation;
}

pub store_barrier :
    Memory → FailNode → (barrier arrived expected generation : ℕ) → Status × FailNode
store_barrier m n barrier arrived expected generation =
    elim (shadow_slot Barrier.id barrier 0 none n.backup_barriers) [
      | none ↦ (memory_error, n)
      | some i ↦
          if is_empty (get_or n.backup_barriers i none) && not m.calloc_ok
          then (memory_error, n)
          else (
            success,
            record n {
              backup_barriers =
                  set n.backup_barriers i
                    (some (shadow_barrier barrier arrived expected generation));
            },
          )
    ]

pub store_sync : Memory → FailNode → Sync → Status × FailNode
store_sync m n (sync_dir seq s) = store_dir m n s
store_sync m n (sync_lock seq lock holder waiters) = store_lock m n lock holder waiters
store_sync m n (sync_barrier seq barrier arrived expected generation) =
    store_barrier m n barrier arrived expected generation

-- `handle_state_sync_dir`, `handle_state_sync_lock` and `handle_state_sync_barrier`: a message that is
-- not newer than the last one is ignored.
pub handle_state_sync : Memory → FailNode → Sync → Status × FailNode
handle_state_sync m n s =
    if not n.is_backup
    then (success, n)
    else if leb (seq_of s) n.last_sync_seq
    then (success, n)
    else store_sync m (record n { last_sync_seq = seq_of s }) s
