-- ===== src/Membership/Tests.antt =====
-- src/network/handlers.c: each theorem on heartbeats at one input.
use user_level_dsm.Membership.{
  member_at, joined, handle_node_join, MemberNode, Member, remove_pending, no_member,
}
use user_level_dsm.Prelude.{List, false, ◌≡◌, true, ◌∷◌, [], arith, none, refl}
use user_level_dsm.Membership.Silence.{live, Beat, round, heard_not_failed, beat, silent_failed}

abbrev own_slot : Member
own_slot = record no_member { connected = true }

-- Node 1, heard from at the first second.
abbrev peer_slot : Member
peer_slot = record no_member { id = 1; connected = true; last_heartbeat_time = 1000000000 }

abbrev two_nodes : MemberNode
two_nodes = record {
  node_id = 0;
  is_primary_backup = false;
  members = own_slot ∷ peer_slot ∷ [];
  num_nodes = 1;
  pending = 5 ∷ 6 ∷ [];
  directory = none;
}

abbrev beats : List Beat
beats =
    round 2000000000
    ∷ round 4000000000
    ∷ beat 5000000000 1
    ∷ round 6000000000
    ∷ round 8000000000
    ∷ []

heard_not_failed_example : (member_at (live two_nodes beats) 1).is_failed ≡ false
heard_not_failed_example =
    heard_not_failed two_nodes 1 beats (omega arith) (omega arith) refl refl refl
      (omega arith, (omega arith, (omega arith, (omega arith, tt))))

silent_failed_example :
    ((member_at (live two_nodes (round 8000000000 ∷ round 10000000000 ∷ [])) 1).is_failed ≡ false)
    × ((member_at
          (live two_nodes (round 8000000000 ∷ round 10000000000 ∷ round 12000000000 ∷ []))
          1).is_failed
        ≡ true)
silent_failed_example =
    silent_failed two_nodes 1 8000000000 10000000000 12000000000 (omega arith)
      (refl, omega arith, omega arith, omega arith) refl (omega arith) (omega arith) (omega arith)

-- A node joins from the first of the sockets that wait.
joins :
    (handle_node_join 7 two_nodes 1 9000 5).1
    ≡ record two_nodes { pending = 6 ∷ []; members = own_slot ∷ joined 1 5 9000 7 ∷ [] }
unfolding handle_node_join remove_pending
joins = refl
