-- ===== src/Membership/Heartbeat.antt =====
-- src/network/handlers.c: the heartbeat thread.
use user_level_dsm.Prelude.{
  ℕ, Bool, List, ◌+◌, ◌^◌, if◌then◌else◌, Option, map, ◌&&◌, ◌++◌, ◌-◌, ◌∷◌, not, [], ◌%◌, ◌==◌,
  some, leb, none,
}
use user_level_dsm.Membership.{
  MemberNode, Member, heard, heartbeat_to, failure_to, promotion, MemberAction,
}
use user_level_dsm.Directory.{Directory, directory_handle_node_failure}

-- `HEARTBEAT_TIMEOUT_NS` and `MAX_MISSED_HEARTBEATS`
abbrev pub heartbeat_timeout : ℕ
heartbeat_timeout = 6000000000

abbrev pub max_missed : ℕ
max_missed = 3

-- The slots that both loops of a round look at.
abbrev pub is_watched : (self : ℕ) → Member → Bool
is_watched self m = m.connected && (not (m.id == self) && not m.is_failed)

-- The first loop.
unfoldable pub send_heartbeats : (self : ℕ) → List Member → List MemberAction
send_heartbeats self [] = []
send_heartbeats self (m ∷ ms) =
    let rest = send_heartbeats self ms in
    if is_watched self m then heartbeat_to m.id ∷ rest else rest

unfoldable pub broadcast_node_failure : (self failed_node : ℕ) → List Member → List MemberAction
broadcast_node_failure self failed_node [] = []
broadcast_node_failure self failed_node (m ∷ ms) =
    let rest = broadcast_node_failure self failed_node ms in
    if m.connected && (not (m.id == self) && not (m.id == failed_node))
    then failure_to m.id failed_node ∷ rest
    else rest

-- The time since the last heartbeat, in a `uint64_t`.
abbrev pub elapsed : (now last : ℕ) → ℕ
elapsed now last = (now + 2 ^ 64 - last) % 2 ^ 64

-- The slot after its check: the first heartbeat sets the time, a late one is counted, and the third
-- late one marks the node as failed.
unfoldable pub check_member : (now self : ℕ) → Member → Member
check_member now self m =
    if not (is_watched self m)
    then m
    else if m.last_heartbeat_time == 0
    then record m { last_heartbeat_time = now }
    else if leb (elapsed now m.last_heartbeat_time) heartbeat_timeout
    then m
    else record m {
      missed_heartbeats = m.missed_heartbeats + 1;
      is_failed = leb max_missed (m.missed_heartbeats + 1);
    }

-- The check has marked a node that was watched.
abbrev pub is_lost : (now self : ℕ) → Member → Bool
is_lost now self m = is_watched self m && (check_member now self m).is_failed

-- What follows a failure: nothing at all without a directory.
unfoldable pub recover :
    (backup : Bool)
    → (self : ℕ) → List Member
    → (failed_node : ℕ) → Option Directory
    → List MemberAction × Option Directory
recover backup self all failed_node none = ([], none)
recover backup self all failed_node (some d) = (
  broadcast_node_failure self failed_node all
      ++ (if failed_node == 0 && backup then promotion ∷ [] else []),
  some (directory_handle_node_failure d failed_node).after,
)

-- The second loop, over the slots.
unfoldable pub check_members :
    (backup : Bool)
    → (now self : ℕ) → (all left : List Member) → Option Directory
    → List MemberAction × List Member × Option Directory
check_members backup now self all [] dir = ([], [], dir)
check_members backup now self all (m ∷ ms) dir =
    let (told, dir') = if is_lost now self m then recover backup self all m.id dir else ([], dir) in
    let (more, ms', dir'') = check_members backup now self all ms dir' in
    (told ++ more, check_member now self m ∷ ms', dir'')

-- One round of the thread.
unfoldable pub heartbeat_round : (now : ℕ) → MemberNode → List MemberAction × MemberNode
heartbeat_round now n =
    let (told, ms, dir) =
      check_members n.is_primary_backup now n.node_id n.members n.members n.directory in
    (send_heartbeats n.node_id n.members ++ told, record n { members = ms; directory = dir })

-- The slots as the thread starts.
unfoldable pub start_heartbeat_thread : (now : ℕ) → MemberNode → MemberNode
start_heartbeat_thread now n = record n { members = map (heard now) n.members }
