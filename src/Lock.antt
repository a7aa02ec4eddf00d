-- ===== src/Lock.antt =====
-- src/sync/lock.h and src/sync/lock.c: distributed locks. Each node keeps a table of locks; the
-- manager's entries decide who holds a lock and who waits, and a worker's entry only records whether
-- the worker itself has been granted the lock.
-- A lock pointer is the number of its slot, or `none` for `NULL`; the manager finds a lock by its
-- identifier, as the first slot that holds it. The mutexes are left out: each function between two
-- waits runs as one step. `net` is what `network_send` answers for a message. `calloc_ok` and
-- `malloc_ok` say whether an allocation succeeds. A wait on a condition variable is driven by a list
-- of wake-ups, each with the lock as the waiter finds it, or the time-out.
pub mod Client
pub mod Table
pub mod Fifo
pub mod Order
pub mod Exclusion
pub mod Local
pub mod Stranded
pub mod Delivery
pub mod Passing
mod Tests
use user_level_dsm.Types.{
  Role, Status, no_node, LockState, free, held, memory_error, not_found, success, invalid_argument,
  permission_error,
}
use user_level_dsm.Prelude.{
  Bool, ℕ, ◌++◌, Option, List, if◌then◌else◌, ◌&&◌, some, set, ◌∷◌, take, none, ◌==◌, [], get_or,
  not, ◌||◌, ◌+◌,
}

-- `dsm_lock_s`. `waiters` is the queue from `waiters_head` to `waiters_tail`.
pub record Lock : Type 0 where
  pub id : ℕ
  pub holder : ℕ
  pub state : LockState
  pub waiters : List ℕ

-- What lock.c reads and writes of the global context.
pub record LockNode : Type 0 where
  pub initialized : Bool
  pub role : Role
  pub node_id : ℕ
  pub slots : List (Option Lock)
  pub num_locks : ℕ
  pub lock_acquires : ℕ

-- The messages that lock.c sends, the first argument being the receiver. `sync_lock` is
-- `send_state_sync_lock`, whose receivers and result do not matter here.
pub data Message : Type 0 where
  lock_request : (to lock requester : ℕ) → Message
  lock_grant : (to lock : ℕ) → Message
  lock_release : (to lock releaser : ℕ) → Message
  sync_lock : (lock holder : ℕ) → (waiters : List ℕ) → Message

-- A function's code, the messages that it sends in order, and the state that it leaves.
pub record Reply : Type 0 where
  pub status : Status
  pub sent : List Message
  pub after : LockNode

-- The number of slots of `lock_mgr.locks`.
abbrev pub max_locks : ℕ
max_locks = 256

-- Node 0 is taken for the manager.
abbrev pub manager : ℕ
manager = 0

-- The number of waiters that a replica is told.
abbrev pub max_synced : ℕ
max_synced = 32

abbrev pub new_lock : ℕ → Lock
new_lock id = record { id = id; holder = no_node; state = free; waiters = [] }

-- How the search for a slot ends: at the first empty slot, at a lock of the same identifier, or at
-- neither.
pub data Scan : Type 0 where
  empty_at : ℕ → Scan
  exists_at : ℕ → Scan
  full : Scan

pub scan : ℕ → ℕ → List (Option Lock) → Scan
scan id i [] = full
scan id i (none ∷ ss) = empty_at i
scan id i (some l ∷ ss) = if l.id == id then exists_at i else scan id (i + 1) ss

-- What `dsm_lock_create` does with the result of its search.
pub place : LockNode → ℕ → Scan → Option ℕ × LockNode
place n id (empty_at i) =
    (some i, record n { slots = set n.slots i (some (new_lock id)); num_locks = n.num_locks + 1 })
place n id (exists_at i) = (some i, n)
place n id full = (none, n)

pub dsm_lock_create : Bool → LockNode → ℕ → Option ℕ × LockNode
unfolding place
dsm_lock_create calloc_ok n id =
    if not n.initialized || not calloc_ok then (none, n) else place n id (scan id 0 n.slots)

unfoldable pub find_lock_by_id : ℕ → List (Option Lock) → Option Lock
find_lock_by_id id [] = none
find_lock_by_id id (none ∷ ss) = find_lock_by_id id ss
find_lock_by_id id (some l ∷ ss) = if l.id == id then some l else find_lock_by_id id ss

-- A write through the pointer that `find_lock_by_id` returned.
pub modify_lock : ℕ → (Lock → Lock) → List (Option Lock) → List (Option Lock)
modify_lock id f [] = []
modify_lock id f (none ∷ ss) = none ∷ modify_lock id f ss
modify_lock id f (some l ∷ ss) =
    if l.id == id then some (f l) ∷ ss else some l ∷ modify_lock id f ss

abbrev pub write_lock : LockNode → ℕ → (Lock → Lock) → LockNode
write_lock n id f = record n { slots = modify_lock id f n.slots }

abbrev pub replicates : Role → Bool
replicates r = r.is_manager && not r.is_promoted

abbrev pub sync_if : Role → ℕ → ℕ → List ℕ → List Message
sync_if r id holder ws = if replicates r then sync_lock id holder (take max_synced ws) ∷ [] else []

abbrev pub held_by : ℕ → Lock → Lock
held_by node l = record l { holder = node; state = held }

abbrev pub queued : ℕ → Lock → Lock
queued node l = record l { waiters = l.waiters ++ node ∷ [] }

-- The part of `lock_manager_grant` after the lock is found or made.
pub grant_found : Bool → (Message → Status) → LockNode → Lock → ℕ → Reply
grant_found malloc_ok net n l requester = elim l.state [
  | free ↦ record {
    status = net (lock_grant requester l.id);
    sent = sync_if n.role l.id requester [] ++ lock_grant requester l.id ∷ [];
    after = write_lock n l.id (held_by requester);
  }
  | held ↦
      if malloc_ok
      then record {
        status = success;
        sent = sync_if n.role l.id l.holder (queued requester l).waiters;
        after = write_lock n l.id (queued requester);
      }
      else record { status = memory_error; sent = []; after = n }
]

-- The lock that a successful `dsm_lock_create` has made, read through its pointer.
abbrev pub slot_at : LockNode → ℕ → Option Lock
slot_at n i = get_or n.slots i none

pub grant_created : Bool → (Message → Status) → Option ℕ × LockNode → ℕ → Reply
grant_created malloc_ok net (none, n) requester = record {
  status = memory_error;
  sent = [];
  after = n;
}
grant_created malloc_ok net (some i, n) requester = elim (slot_at n i) [
  | none ↦ record { status = memory_error; sent = []; after = n }
  | some l ↦ grant_found malloc_ok net n l requester
]

pub lock_manager_grant : Bool → Bool → (Message → Status) → LockNode → ℕ → ℕ → Reply
lock_manager_grant calloc_ok malloc_ok net n id requester = elim (find_lock_by_id id n.slots) [
  | some l ↦ grant_found malloc_ok net n l requester
  | none ↦ grant_created malloc_ok net (dsm_lock_create calloc_ok n id) requester
]

abbrev pub freed : Lock → Lock
freed l = record l { holder = no_node; state = free }

-- The head of the queue becomes the holder; the state stays as it is.
abbrev pub handed_over : ℕ → List ℕ → Lock → Lock
handed_over next rest l = record l { holder = next; waiters = rest }

pub release_found : (Message → Status) → LockNode → Lock → ℕ → Reply
release_found net n l releaser =
    if l.holder == releaser
    then elim l.waiters [
      | [] ↦ record {
        status = success;
        sent = sync_if n.role l.id no_node [];
        after = write_lock n l.id freed;
      }
      | next ∷ rest ↦ record {
        status = net (lock_grant next l.id);
        sent = sync_if n.role l.id next rest ++ lock_grant next l.id ∷ [];
        after = write_lock n l.id (handed_over next rest);
      }
    ]
    else record { status = permission_error; sent = []; after = n }

pub lock_manager_release : (Message → Status) → LockNode → ℕ → ℕ → Reply
lock_manager_release net n id releaser = elim (find_lock_by_id id n.slots) [
  | none ↦ record { status = not_found; sent = []; after = n }
  | some l ↦ release_found net n l releaser
]

abbrev pub granted : ℕ → Lock → Lock
granted node l = record l { holder = node }

-- On the node that asked: the grant of another node is refused.
pub lock_handle_grant : LockNode → ℕ → ℕ → Reply
lock_handle_grant n id grantee = elim (find_lock_by_id id n.slots) [
  | none ↦ record { status = not_found; sent = []; after = n }
  | some l ↦
      if grantee == n.node_id
      then record { status = success; sent = []; after = write_lock n id (granted grantee) }
      else record { status = invalid_argument; sent = []; after = n }
]
