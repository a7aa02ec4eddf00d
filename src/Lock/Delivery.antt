-- ===== src/Lock/Delivery.antt =====
-- src/network/handlers.c: the messages on locks, between a node that asks and the manager.
-- A message keeps its receiver: `send_lock_grant` writes it into the payload as the grantee.
use user_level_dsm.Types.{Status}
use user_level_dsm.Prelude.{Bool, ℕ, Option, some, none}
use user_level_dsm.Lock.{
  Message, lock_request, lock_grant, lock_release, sync_lock, LockNode, Reply, lock_manager_grant,
  lock_manager_release, lock_handle_grant,
}

-- The three functions that send, each with its code.
abbrev pub send_lock_request : (Message → Status) → LockNode → (manager lock : ℕ) → Status × Message
send_lock_request net n manager lock =
    (net (lock_request manager lock n.node_id), lock_request manager lock n.node_id)

abbrev pub send_lock_grant : (Message → Status) → (grantee lock : ℕ) → Status × Message
send_lock_grant net grantee lock = (net (lock_grant grantee lock), lock_grant grantee lock)

abbrev pub send_lock_release : (Message → Status) → LockNode → (manager lock : ℕ) → Status × Message
send_lock_release net n manager lock =
    (net (lock_release manager lock n.node_id), lock_release manager lock n.node_id)

unfoldable pub handle_lock_request :
    (calloc_ok malloc_ok : Bool) → (Message → Status) → LockNode → (lock requester : ℕ) → Reply
handle_lock_request calloc_ok malloc_ok net n lock requester =
    lock_manager_grant calloc_ok malloc_ok net n lock requester

unfoldable pub handle_lock_grant : LockNode → (lock grantee : ℕ) → Reply
handle_lock_grant n lock grantee = lock_handle_grant n lock grantee

unfoldable pub handle_lock_release : (Message → Status) → LockNode → (lock releaser : ℕ) → Reply
handle_lock_release net n lock releaser = lock_manager_release net n lock releaser

-- The branches of the dispatcher for these messages; a replica's message is not for this part.
unfoldable pub dispatch_lock :
    (calloc_ok malloc_ok : Bool) → (Message → Status) → LockNode → Message → Option Reply
dispatch_lock calloc_ok malloc_ok net n (lock_request to lock requester) =
    some (handle_lock_request calloc_ok malloc_ok net n lock requester)
dispatch_lock calloc_ok malloc_ok net n (lock_grant to lock) = some (handle_lock_grant n lock to)
dispatch_lock calloc_ok malloc_ok net n (lock_release to lock releaser) =
    some (handle_lock_release net n lock releaser)
dispatch_lock calloc_ok malloc_ok net n (sync_lock lock holder waiters) = none
