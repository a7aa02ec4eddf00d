-- ===== src/Lock/Client.antt =====
-- src/sync/lock.c: the functions that a program calls on a lock that it holds a pointer to:
-- `dsm_lock_acquire`, `dsm_lock_release` and `dsm_lock_destroy`.
use user_level_dsm.Types.{
  Status, success, invalid_argument, timeout_error, init_error, no_node, permission_error, held,
  free,
}
use user_level_dsm.Prelude.{
  ℕ, Option, List, set, Bool, some, if◌then◌else◌, ◌∷◌, ◌==◌, ◌+◌, [], none, ◌-◌, true, false,
}
use user_level_dsm.Lock.{
  Lock, LockNode, Message, Reply, lock_request, slot_at, held_by, manager, freed, lock_release,
  granted,
}

-- What `pthread_cond_timedwait` returns with, 0 or `ETIMEDOUT`, and the lock as it then is.
pub data Wake : Type 0 where
  woken : Lock → Wake
  timed_out : Lock → Wake

-- How a wait ends: by leaving the loop or by a time-out, each with the lock as it then is, or not yet.
pub data Wait : Type 0 where
  passed : Lock → Wait
  expired : Lock → Wait
  waiting : Wait

abbrev pub is_held : Lock → Bool
is_held l = elim l.state [ held ↦ true | free ↦ false ]

-- The loop of the manager: `while (lock->state == LOCK_STATE_HELD)`.
unfoldable pub wait_free : Lock → List Wake → Wait
wait_free l [] = if is_held l then waiting else passed l
wait_free l (timed_out l' ∷ ws) = if is_held l then expired l' else passed l
wait_free l (woken l' ∷ ws) = let rest = wait_free l' ws in if is_held l then rest else passed l

-- The loop of a worker: `while (lock->holder != ctx->node_id)`.
unfoldable pub wait_granted : ℕ → Lock → List Wake → Wait
wait_granted me l [] = if l.holder == me then passed l else waiting
wait_granted me l (timed_out l' ∷ ws) = if l.holder == me then passed l else expired l'
wait_granted me l (woken l' ∷ ws) =
    let rest = wait_granted me l' ws in if l.holder == me then passed l else rest

abbrev pub put_lock : LockNode → ℕ → Lock → LockNode
put_lock n i l = record n { slots = set n.slots i (some l) }

-- The statistics at the end of a successful acquire.
abbrev pub acquired : LockNode → ℕ → Lock → LockNode
acquired n i l = record n { slots = set n.slots i (some l); lock_acquires = n.lock_acquires + 1 }

abbrev pub plain : Status → LockNode → Option Reply
plain s n = some (record { status = s; sent = []; after = n })

unfoldable pub finish_local : LockNode → ℕ → Wait → Option Reply
finish_local n i (passed l) = plain success (acquired n i (held_by n.node_id l))
finish_local n i (expired l) = plain timeout_error (put_lock n i l)
finish_local n i waiting = none

unfoldable pub finish_remote : LockNode → ℕ → Message → Wait → Option Reply
finish_remote n i m (passed l) =
    some (record { status = success; sent = m ∷ []; after = acquired n i l })
finish_remote n i m (expired l) =
    some (record { status = timeout_error; sent = m ∷ []; after = put_lock n i l })
finish_remote n i m waiting = none

unfoldable pub acquire_at : (Message → Status) → LockNode → ℕ → Lock → List Wake → Option Reply
unfolding finish_local finish_remote
acquire_at net n i l wakes =
    if n.role.is_manager
    then finish_local n i (wait_free l wakes)
    else elim (net (lock_request manager l.id n.node_id)) [
      | success ↦
          finish_remote n i (lock_request manager l.id n.node_id) (wait_granted n.node_id l wakes)
      | error ↦ plain error n
    ]

-- `none` is a call that still waits when the wake-ups run out. The request that could not be sent
-- is not listed.
unfoldable pub dsm_lock_acquire :
    (Message → Status) → LockNode → Option ℕ → List Wake → Option Reply
dsm_lock_acquire net n none wakes = plain invalid_argument n
dsm_lock_acquire net n (some i) wakes = elim (slot_at n i) [
  | none ↦ plain invalid_argument n
  | some l ↦ if n.initialized then acquire_at net n i l wakes else plain init_error n
]

unfoldable pub release_at : (Message → Status) → LockNode → ℕ → Lock → Reply
release_at net n i l =
    if l.holder == n.node_id
    then (if n.role.is_manager
        then record { status = success; sent = []; after = put_lock n i (freed l) }
        else record {
          status = net (lock_release manager l.id n.node_id);
          sent = lock_release manager l.id n.node_id ∷ [];
          after = put_lock n i (granted no_node l);
        })
    else record { status = permission_error; sent = []; after = n }

unfoldable pub dsm_lock_release : (Message → Status) → LockNode → Option ℕ → Reply
dsm_lock_release net n none = record { status = invalid_argument; sent = []; after = n }
dsm_lock_release net n (some i) = elim (slot_at n i) [
  | none ↦ record { status = invalid_argument; sent = []; after = n }
  | some l ↦
      if n.initialized
      then release_at net n i l
      else record { status = init_error; sent = []; after = n }
]

-- The waiters are freed with the lock.
pub dsm_lock_destroy : LockNode → Option ℕ → Reply
dsm_lock_destroy n none = record { status = invalid_argument; sent = []; after = n }
dsm_lock_destroy n (some i) =
    if n.initialized
    then elim (slot_at n i) [
      | none ↦ record { status = invalid_argument; sent = []; after = n }
      | some l ↦ record {
        status = success;
        sent = [];
        after = record n { slots = set n.slots i none; num_locks = n.num_locks - 1 };
      }
    ]
    else record { status = init_error; sent = []; after = n }
