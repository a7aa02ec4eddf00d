-- ===== src/Barrier/Delivery.antt =====
-- src/network/handlers.c: the messages on barriers, and the nodes as these arrive. The sender of an
-- arrival is only logged, so it is left out.
use user_level_dsm.Barrier.{
  Message, barrier_arrive, barrier_release, sync_barrier, BarrierNode, Reply, manager,
  barrier_manager_arrive, barrier_handle_release,
}
use user_level_dsm.Prelude.{ℕ, Option, List, none, ◌∷◌, some, if◌then◌else◌, ◌==◌, ◌++◌, []}
use user_level_dsm.Types.{Status}

-- The two functions that send, each with its code.
abbrev pub send_barrier_arrive :
    (Message → Status) → (manager barrier participants : ℕ) → Status × Message
send_barrier_arrive net manager barrier participants =
    (net (barrier_arrive manager barrier participants), barrier_arrive manager barrier participants)

abbrev pub send_barrier_release : (Message → Status) → (node barrier : ℕ) → Status × Message
send_barrier_release net node barrier =
    (net (barrier_release node barrier), barrier_release node barrier)

unfoldable pub handle_barrier_arrive : BarrierNode → (barrier participants : ℕ) → Reply
handle_barrier_arrive n barrier participants = barrier_manager_arrive n barrier participants

unfoldable pub handle_barrier_release : BarrierNode → (barrier : ℕ) → Reply
handle_barrier_release n barrier = barrier_handle_release n barrier

-- The branches of the dispatcher for these messages; a replica's message is not for this part.
unfoldable pub dispatch_barrier : BarrierNode → Message → Option Reply
dispatch_barrier n (barrier_arrive to barrier participants) =
    some (handle_barrier_arrive n barrier participants)
dispatch_barrier n (barrier_release to barrier) = some (handle_barrier_release n barrier)
dispatch_barrier n (sync_barrier barrier arrived expected generation) = none

-- The nodes by their IDs.
abbrev pub Cluster : Type 0
Cluster = ℕ → BarrierNode

abbrev pub place_node : Cluster → ℕ → BarrierNode → Cluster
place_node c i n j = if j == i then n else c j

-- A replica's message is not delivered here.
unfoldable pub receiver : Message → ℕ
receiver (barrier_arrive to barrier participants) = to
receiver (barrier_release to barrier) = to
receiver (sync_barrier barrier arrived expected generation) = manager

-- One message at its receiver: the nodes after it, and the messages that its handler sends.
unfoldable pub deliver : Cluster → Message → Cluster × List Message
deliver c m = elim (dispatch_barrier (c (receiver m)) m) [
  | none ↦ (c, [])
  | some r ↦ (place_node c (receiver m) r.after, r.sent)
]

unfoldable pub deliver_all : Cluster → List Message → Cluster × List Message
deliver_all c [] = (c, [])
deliver_all c (m ∷ ms) =
    let (c', out) = deliver c m in let (c'', more) = deliver_all c' ms in (c'', out ++ more)

-- An arrival reaches the manager, and then the messages that it sends reach their receivers.
unfoldable pub arrive_and_release : Cluster → (barrier participants : ℕ) → Cluster × List Message
arrive_and_release c barrier participants =
    let (c', out) = deliver_all c (barrier_arrive manager barrier participants ∷ []) in
    deliver_all c' out
