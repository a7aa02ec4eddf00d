-- ===== src/Barrier.antt =====
-- src/sync/barrier.h and src/sync/barrier.c: barriers. The manager counts arrivals and releases all
-- nodes when the last one has come; each release starts a new generation of the barrier.
-- A barrier pointer is the number of its slot. The mutexes are left out: a function runs as one step
-- between two waits. The counts are C `int`s that the program keeps small, so they do not wrap here.
-- A wait is driven by a list of wake-ups, each with the node as the waiter finds it.
pub mod Rounds
pub mod Waits
pub mod Delivery
pub mod Opening
pub mod Limits
mod Tests
use user_level_dsm.Types.{
  Status, Role, memory_error, not_found, success, timeout_error, init_error, invalid_argument,
}
use user_level_dsm.Prelude.{
  ℕ, if◌then◌else◌, List, Bool, ◌+◌, set, Option, leb, ◌∷◌, ◌&&◌, get_or, none, some, not, ◌==◌,
  ltb, [], ◌++◌,
}

-- `dsm_barrier_t`
pub record Barrier : Type 0 where
  pub id : ℕ
  pub expected_count : ℕ
  pub arrived_count : ℕ
  pub generation : ℕ

-- A slot of `network.nodes`: the parts that a broadcast reads.
pub record Peer : Type 0 where
  pub id : ℕ
  pub connected : Bool

-- What barrier.c reads and writes of the global context. `barriers` has `max_barriers` slots, and
-- `peers` has `MAX_NODES`.
pub record BarrierNode : Type 0 where
  pub initialized : Bool
  pub role : Role
  pub node_id : ℕ
  pub barriers : List Barrier
  pub peers : List Peer
  pub barrier_waits : ℕ

-- The messages that barrier.c sends, the first argument being the receiver; `sync_barrier` is
-- `send_state_sync_barrier`.
pub data Message : Type 0 where
  barrier_arrive : (to barrier participants : ℕ) → Message
  barrier_release : (to barrier : ℕ) → Message
  sync_barrier : (barrier arrived expected generation : ℕ) → Message

pub record Reply : Type 0 where
  pub status : Status
  pub sent : List Message
  pub after : BarrierNode

-- Node 0 is taken for the manager.
abbrev pub manager : ℕ
manager = 0

-- The first search: a barrier of this identifier that is in use.
pub find_used : ℕ → ℕ → List Barrier → Option ℕ
find_used id i [] = none
find_used id i (b ∷ bs) =
    if (b.id == id) && ltb 0 b.expected_count then some i else find_used id (i + 1) bs

-- The second search: a slot that is not in use.
pub find_unused : ℕ → List Barrier → Option ℕ
find_unused i [] = none
find_unused i (b ∷ bs) = if b.expected_count == 0 then some i else find_unused (i + 1) bs

abbrev pub new_barrier : ℕ → ℕ → Barrier
new_barrier id participants = record {
  id = id;
  expected_count = participants;
  arrived_count = 0;
  generation = 0;
}

abbrev pub put_barrier : BarrierNode → ℕ → Barrier → BarrierNode
put_barrier n i b = record n { barriers = set n.barriers i b }

pub find_or_create_barrier : BarrierNode → ℕ → ℕ → Option (ℕ × BarrierNode)
find_or_create_barrier n id participants = elim (find_used id 0 n.barriers) [
  | some i ↦ some (i, n)
  | none ↦ elim (find_unused 0 n.barriers) [
    | some i ↦ some (i, put_barrier n i (new_barrier id participants))
    | none ↦ none
  ]
]

abbrev pub barrier_at : BarrierNode → ℕ → Barrier
barrier_at n i = get_or n.barriers i (new_barrier 0 0)

-- The broadcast: a release to each connected peer but the node itself, in the order of the slots.
pub releases : ℕ → ℕ → List Peer → List Message
releases me id [] = []
releases me id (p ∷ ps) =
    if p.connected && not (p.id == me)
    then barrier_release p.id id ∷ releases me id ps
    else releases me id ps

abbrev pub arrived : Barrier → Barrier
arrived b = record b { arrived_count = b.arrived_count + 1 }

-- The last arrival: the next generation, with the count reset.
abbrev pub next_generation : Barrier → Barrier
next_generation b = record b { generation = b.generation + 1; arrived_count = 0 }

abbrev pub is_last : Barrier → Bool
is_last b = leb b.expected_count b.arrived_count

-- What one arrival does to the manager's barrier.
pub arrive : Barrier → Barrier
arrive b = if is_last (arrived b) then next_generation (arrived b) else arrived b

abbrev pub sync_if : Role → ℕ → Barrier → List Message
sync_if r id b =
    if r.is_manager && not r.is_promoted
    then sync_barrier id b.arrived_count b.expected_count b.generation ∷ []
    else []

pub barrier_manager_arrive : BarrierNode → ℕ → ℕ → Reply
unfolding arrive
barrier_manager_arrive n id participants = elim (find_or_create_barrier n id participants) [
  | none ↦ record { status = memory_error; sent = []; after = n }
  | some (i, n') ↦ record {
    status = success;
    sent =
        (if is_last (arrived (barrier_at n' i)) then releases n'.node_id id n'.peers else [])
        ++ sync_if n'.role id (arrive (barrier_at n' i));
    after = put_barrier n' i (arrive (barrier_at n' i));
  }
]

-- On a worker: a release starts the next generation there and wakes the waiting threads.
pub barrier_handle_release : BarrierNode → ℕ → Reply
barrier_handle_release n id = elim (find_used id 0 n.barriers) [
  | none ↦ record { status = not_found; sent = []; after = n }
  | some i ↦ record {
    status = success;
    sent = [];
    after =
        put_barrier n i (record (barrier_at n i) { generation = (barrier_at n i).generation + 1 });
  }
]

-- What `pthread_cond_timedwait` returns with: the node as it then is, or `ETIMEDOUT`.
pub data Wake : Type 0 where
  woken : BarrierNode → Wake
  timed_out : BarrierNode → Wake

-- The loop `while (barrier->generation == my_generation)`: the code, with the node as it then is;
-- `none` is a wait that goes on when the wake-ups run out.
pub await_release : ℕ → ℕ → BarrierNode → List Wake → Option (Status × BarrierNode)
await_release i mine n [] = if (barrier_at n i).generation == mine then none else some (success, n)
await_release i mine n (timed_out n' ∷ ws) =
    if (barrier_at n i).generation == mine then some (timeout_error, n') else some (success, n)
await_release i mine n (woken n' ∷ ws) =
    let rest = await_release i mine n' ws in
    if (barrier_at n i).generation == mine then rest else some (success, n)

-- The end of `dsm_barrier`: the statistics of a success.
pub finish : List Message → Option (Status × BarrierNode) → Option Reply
finish ms none = none
finish ms (some (success, n)) = some (record {
  status = success;
  sent = ms;
  after = record n { barrier_waits = n.barrier_waits + 1 };
})
finish ms (some (error, n)) = some (record { status = error; sent = ms; after = n })

-- The manager's own arrival. No replica is told of it.
pub barrier_local : BarrierNode → ℕ → ℕ → List Wake → Option Reply
barrier_local n i id wakes =
    let b = barrier_at n i in
    if is_last (arrived b)
    then finish (releases n.node_id id n.peers)
        (some (success, put_barrier n i (next_generation (arrived b))))
    else finish [] (await_release i b.generation (put_barrier n i (arrived b)) wakes)

-- A worker's arrival; `net` is what `network_send` answers.
pub barrier_remote : (Message → Status) → BarrierNode → ℕ → ℕ → ℕ → List Wake → Option Reply
barrier_remote net n i id participants wakes = elim (net (barrier_arrive manager id participants)) [
  | success ↦
      finish (barrier_arrive manager id participants ∷ [])
        (await_release i (barrier_at n i).generation n wakes)
  | error ↦ some (record { status = error; sent = []; after = n })
]

pub dsm_barrier : (Message → Status) → BarrierNode → ℕ → ℕ → List Wake → Option Reply
dsm_barrier net n id participants wakes =
    if not n.initialized
    then some (record { status = init_error; sent = []; after = n })
    else if participants == 0
    then some (record { status = invalid_argument; sent = []; after = n })
    else elim (find_or_create_barrier n id participants) [
      | none ↦ some (record { status = memory_error; sent = []; after = n })
      | some (i, n') ↦
          if n'.role.is_manager
          then barrier_local n' i id wakes
          else barrier_remote net n' i id participants wakes
    ]
