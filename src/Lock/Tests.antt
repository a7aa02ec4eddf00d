-- ===== src/Lock/Tests.antt =====
-- src/sync/lock.c: each theorem on locks at one input.
use user_level_dsm.Lock.{
  Message, LockNode, scan, Reply, Lock, dsm_lock_create, find_lock_by_id, new_lock, place,
  exists_at, lock_request, freed, held_by, handed_over, granted,
}
use user_level_dsm.Lock.Client.{
  dsm_lock_acquire, dsm_lock_release, acquire_at, finish_remote, wait_granted,
}
use user_level_dsm.Prelude.{
  List, true, some, ◌≡◌, refl, false, ◌∷◌, [], none, arith, ◌++◌, ℕ, if◌then◌else◌, ◌==◌, get_or,
  inr,
}
use user_level_dsm.Lock.Local.{acquire_lem, Comes}
use user_level_dsm.Lock.Fifo.{Steps, serve, Event, request, grants, release}
use user_level_dsm.Types.{held, Status, success, no_node}
use user_level_dsm.Lock.Order.{serve_all, sent_all, requests, new_lock-IsOrderly, grants_fifo}
use user_level_dsm.Lock.Exclusion.{watch, holder_of, log_of, exclusion}
use user_level_dsm.Lock.Client.{woken}
use user_level_dsm.Lock.Stranded.{release_strands_waiters}
use user_level_dsm.Lock.Passing.{pass_lock, IsWaiting, Cluster, lock_passes}

abbrev net_up : Message → Status
net_up m = success

-- The manager, with lock 7 free in its first slot.
abbrev lock_7 : Lock
lock_7 = new_lock 7

abbrev server : LockNode
server = record {
  initialized = true;
  role = record { is_manager = true; is_promoted = false };
  node_id = 0;
  slots = some lock_7 ∷ none ∷ none ∷ [];
  num_locks = 1;
  lock_acquires = 0;
}

-- Node 1 takes the lock, nodes 2 and 3 wait, and the lock goes on to node 2. Lock 9 is made between.
abbrev some_events : List Event
some_events = request 7 1 ∷ request 7 2 ∷ request 9 4 ∷ request 7 3 ∷ release 7 1 ∷ []

lock_found : find_lock_by_id 7 server.slots ≡ some lock_7
unfolding find_lock_by_id
lock_found = refl

exclusion_example :
    (l' : Lock) × (find_lock_by_id 7 (serve_all net_up server some_events).slots ≡ some l')
    × (watch (holder_of lock_7) (log_of net_up server 7 some_events) ≡ some (holder_of l'))
exclusion_example =
    exclusion net_up server some_events 7 lock_7 lock_found (new_lock-IsOrderly 7)
      (omega arith, (omega arith, (omega arith, (omega arith, (omega arith, tt)))))

grants_fifo_example :
    (l' : Lock) × (find_lock_by_id 7 (serve_all net_up server some_events).slots ≡ some l')
    × (grants 7 (sent_all net_up server some_events) ++ l'.waiters
        ≡ lock_7.waiters ++ requests 7 some_events)
grants_fifo_example =
    grants_fifo net_up server some_events 7 lock_7 lock_found (new_lock-IsOrderly 7)

-- A worker that asks for lock 7 and is woken by the grant.
abbrev worker : LockNode
worker = record {
  initialized = true;
  role = record { is_manager = false; is_promoted = false };
  node_id = 2;
  slots = some lock_7 ∷ none ∷ [];
  num_locks = 1;
  lock_acquires = 0;
}

abbrev lock_7_granted : Lock
lock_7_granted = record lock_7 { holder = 2 }

abbrev acquire_reply : Reply
acquire_reply = record {
  status = success;
  sent = lock_request 0 7 2 ∷ [];
  after = record worker { slots = some lock_7_granted ∷ none ∷ []; lock_acquires = 1 };
}

acquire_runs :
    dsm_lock_acquire net_up worker (some 0) (woken lock_7_granted ∷ []) ≡ some acquire_reply
unfolding dsm_lock_acquire acquire_at finish_remote wait_granted
acquire_runs = refl

acquire_lem_example :
    Comes worker 0 lock_7
      (some lock_7_granted)
      none
      (dsm_lock_acquire net_up worker (some 0) (woken lock_7_granted ∷ []))
acquire_lem_example =
    acquire_lem net_up worker 0 lock_7 (woken lock_7_granted ∷ []) refl refl (inr refl)

abbrev server_9 : LockNode
server_9 = record server { slots = some lock_7 ∷ some (new_lock 9) ∷ none ∷ []; num_locks = 2 }

lock_9_created : dsm_lock_create true server 9 ≡ (some 1, server_9)
unfolding dsm_lock_create place scan
lock_9_created = refl

-- The manager holds lock 7, and nodes 1 and 2 wait.
abbrev lock_7_busy : Lock
lock_7_busy = record { id = 7; holder = 0; state = held; waiters = 1 ∷ 2 ∷ [] }

abbrev busy_server : LockNode
busy_server = record server { slots = some lock_7_busy ∷ none ∷ none ∷ [] }

busy_scan : scan lock_7_busy.id 0 busy_server.slots ≡ exists_at 0
unfolding scan
busy_scan = refl

release_strands_waiters_example :
    let r = dsm_lock_release net_up busy_server (some 0) in
    (r.status ≡ success)
    × (r.sent ≡ [])
    × (find_lock_by_id 7 r.after.slots ≡ some (freed lock_7_busy))
    × ((late : ℕ)
        → Steps 7 (serve net_up r.after (request 7 late)) (held_by late lock_7_busy, late ∷ []))
release_strands_waiters_example =
    release_strands_waiters net_up busy_server 0 lock_7_busy refl busy_scan refl refl refl

-- Node 1 holds lock 7 and releases it, nodes 2 and 3 wait.
abbrev lock_7_taken : Lock
lock_7_taken = record { id = 7; holder = 1; state = held; waiters = 2 ∷ 3 ∷ [] }

abbrev lock_7_own : Lock
lock_7_own = record lock_7 { holder = 1 }

abbrev taken_server : LockNode
taken_server = record server { slots = some lock_7_taken ∷ none ∷ none ∷ [] }

abbrev holder : LockNode
holder = record worker { node_id = 1; slots = some lock_7_own ∷ none ∷ [] }

abbrev three_nodes : Cluster
three_nodes i = if i == 0 then taken_server else if i == 1 then holder else worker

three_nodes-IsWaiting : IsWaiting three_nodes 1 2 0 7 (3 ∷ []) lock_7_own lock_7_taken lock_7
unfolding find_lock_by_id
three_nodes-IsWaiting = record {
  apart = (omega arith, omega arith, omega arith);
  holder_id = refl;
  waiter_id = refl;
  started = refl;
  worker = refl;
  own_entry = refl;
  own_id = refl;
  own_held = refl;
  known = refl;
  known_held = refl;
  queue = refl;
  entry = refl;
}

lock_passes_example :
    let c' = (pass_lock net_up three_nodes 1 0).0 in
    (find_lock_by_id 7 (c' 0).slots ≡ some (handed_over 2 (3 ∷ []) lock_7_taken))
    × (find_lock_by_id 7 (c' 2).slots ≡ some (granted 2 lock_7))
    × (get_or (c' 1).slots 0 none ≡ some (granted no_node lock_7_own))
    × ((pass_lock net_up three_nodes 1 0).1 ≡ [])
lock_passes_example =
    lock_passes net_up three_nodes 1 2 0 7 (3 ∷ []) lock_7_own lock_7_taken lock_7
      three_nodes-IsWaiting
