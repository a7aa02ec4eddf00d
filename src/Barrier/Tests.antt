-- ===== src/Barrier/Tests.antt =====
-- src/sync/barrier.c: each theorem on barriers at one input.
use user_level_dsm.Barrier.Rounds.{arrivals, arrivals_rounds}
use user_level_dsm.Barrier.{
  Barrier, BarrierNode, await_release, woken, find_used, barrier_at, dsm_barrier,
}
use user_level_dsm.Prelude.{
  ◌≡◌, ◌+◌, ◌/◌, ◌%◌, arith, ◌∷◌, true, false, [], some, refl, if◌then◌else◌, ◌==◌, ℕ,
}
use user_level_dsm.Types.{success, memory_error}
use user_level_dsm.Barrier.Delivery.{arrive_and_release, Cluster}
use user_level_dsm.Barrier.Opening.{barrier_opens}
use user_level_dsm.Barrier.Limits.{arrive_all, IsNew, barriers_run_out}

-- A barrier of three nodes, at which one has arrived.
abbrev barrier_of_three : Barrier
barrier_of_three = record { id = 5; expected_count = 3; arrived_count = 1; generation = 4 }

arrivals_rounds_example :
    ((arrivals 6 barrier_of_three).generation ≡ 4 + (1 + 6) / 3)
    × ((arrivals 6 barrier_of_three).arrived_count ≡ (1 + 6) % 3)
arrivals_rounds_example = arrivals_rounds 6 barrier_of_three (record { room = omega arith })

-- A worker in generation 4 that is woken in generation 5.
abbrev waiting_node : BarrierNode
waiting_node = record {
  initialized = true;
  role = record { is_manager = false; is_promoted = false };
  node_id = 2;
  barriers = barrier_of_three ∷ [];
  peers = [];
  barrier_waits = 0;
}

abbrev released_node : BarrierNode
released_node = record waiting_node { barriers = (record barrier_of_three { generation = 5 }) ∷ [] }

wait_ends :
    await_release 0 4 waiting_node (woken waiting_node ∷ woken released_node ∷ [])
    ≡ some (success, released_node)
unfolding await_release
wait_ends = refl

-- The manager, at which two of three have arrived, with a connection to nodes 1 and 2.
abbrev one_missing : BarrierNode
one_missing = record waiting_node {
  role = record { is_manager = true; is_promoted = false };
  node_id = 0;
  barriers = (record barrier_of_three { arrived_count = 2 }) ∷ [];
  peers =
      record { id = 0; connected = true }
      ∷ record { id = 1; connected = true }
      ∷ record { id = 2; connected = true }
      ∷ record { id = 3; connected = false }
      ∷ [];
}

abbrev three_nodes : Cluster
three_nodes i = if i == 0 then one_missing else waiting_node

barrier_known : find_used 5 0 (three_nodes 0).barriers ≡ some 0
unfolding find_used
barrier_known = refl

worker_knows : find_used 5 0 (three_nodes 2).barriers ≡ some 0
unfolding find_used
worker_knows = refl

barrier_opens_example :
    let c' = (arrive_and_release three_nodes 5 3).0 in
    (barrier_at (c' 0) 0 ≡ record barrier_of_three { generation = 5; arrived_count = 0 })
    × ((barrier_at (c' 2) 0).generation ≡ 4 + 1)
    × (await_release 0 4 (c' 2) [] ≡ some (success, c' 2))
barrier_opens_example =
    barrier_opens three_nodes 2 5 3 0 0 refl barrier_known refl (omega arith) refl worker_knows

-- A table of two slots, and a program that takes a new barrier for each step.
abbrev small_table : BarrierNode
small_table = record one_missing {
  barriers =
      record { id = 0; expected_count = 0; arrived_count = 0; generation = 0 }
      ∷ record { id = 0; expected_count = 0; arrived_count = 0; generation = 0 }
      ∷ [];
}

small_table-IsNew : (id : ℕ) → IsNew small_table id
unfolding find_used
small_table-IsNew id = ground arith

barriers_run_out_example :
    let m = arrive_all small_table 3 (1000 ∷ 2000 ∷ []) in
    dsm_barrier (λ message. success) m 1001 3 []
    ≡ some (record { status = memory_error; sent = []; after = m })
barriers_run_out_example =
    barriers_run_out (λ message. success) small_table 3 1001 (1000 ∷ 2000 ∷ []) [] refl
      (omega arith) (omega arith) (small_table-IsNew 1000, (small_table-IsNew 2000, tt)) refl
      (omega arith) (small_table-IsNew 1001)
