-- ===== src/Membership.antt =====
-- src/network/handlers.c, joining, heartbeats and the failure of a node: the slots of the nodes that
-- a node is connected to.
-- A handler and a round of the heartbeat thread run as one step; the thread sends its heartbeats
-- first and checks the slots then, both at one reading of the clock. A time is a number of
-- nanoseconds below 2 ^ 64. What the promotion to manager does is in Failover; here it is an action.
pub mod Heartbeat
pub mod Silence
mod Tests
use mathlib.Core.Option
use user_level_dsm.Prelude.{
  ℕ, false, get_or, true, Bool, List, Option, ◌∷◌, if◌then◌else◌, ltb, leb, ◌==◌, [], set, ◌+◌,
}
use user_level_dsm.Types.{Status, success, max_nodes, invalid_argument}
use user_level_dsm.Directory.{Directory, directory_handle_node_failure}

-- `node_info_t`
pub record Member : Type 0 where
  pub id : ℕ
  pub sockfd : ℕ
  pub port : ℕ
  pub connected : Bool
  pub is_failed : Bool
  pub last_heartbeat_time : ℕ
  pub missed_heartbeats : ℕ

-- What these functions read and write of the global context: `members` is `network.nodes`, and
-- `pending` holds `pending_sockets[0 .. num_pending)`.
pub record MemberNode : Type 0 where
  pub node_id : ℕ
  pub is_primary_backup : Bool
  pub members : List Member
  pub num_nodes : ℕ
  pub pending : List ℕ
  pub directory : Option Directory

-- What a round of the heartbeat thread does besides: the messages that it sends, and the promotion.
pub data MemberAction : Type 0 where
  heartbeat_to : (target : ℕ) → MemberAction
  failure_to : (target failed_node : ℕ) → MemberAction
  promotion : MemberAction

-- A slot out of range.
abbrev pub no_member : Member
no_member = record {
  id = 0;
  sockfd = 0;
  port = 0;
  connected = false;
  is_failed = false;
  last_heartbeat_time = 0;
  missed_heartbeats = 0;
}

abbrev pub member_at : MemberNode → ℕ → Member
member_at n i = get_or n.members i no_member

-- The loop that finds a socket and shifts the rest of the array over it.
unfoldable pub remove_pending : ℕ → List ℕ → List ℕ
remove_pending sockfd [] = []
remove_pending sockfd (s ∷ ss) = if s == sockfd then ss else s ∷ remove_pending sockfd ss

-- A slot as a joining node fills it, at a time of the clock; the host name is left out.
abbrev pub joined : (id sockfd port now : ℕ) → Member
joined id sockfd port now = record {
  id = id;
  sockfd = sockfd;
  port = port;
  connected = true;
  is_failed = false;
  last_heartbeat_time = now;
  missed_heartbeats = 0;
}

-- The old socket, which is closed, is left out.
unfoldable pub handle_node_join :
    (now : ℕ) → MemberNode → (id port sockfd : ℕ) → Status × MemberNode
handle_node_join now n id port sockfd = if leb max_nodes id then (invalid_argument, n) else (
  success,
  record n {
    pending = remove_pending sockfd n.pending;
    num_nodes = if (member_at n id).connected then n.num_nodes else n.num_nodes + 1;
    members = set n.members id (joined id sockfd port now);
  },
)

abbrev pub heard : (now : ℕ) → Member → Member
heard now m = record m { last_heartbeat_time = now; missed_heartbeats = 0; is_failed = false }

-- A node that was taken for failed is back.
unfoldable pub handle_heartbeat : (now : ℕ) → MemberNode → (sender : ℕ) → Status × MemberNode
handle_heartbeat now n sender =
    if leb max_nodes sender
    then (invalid_argument, n)
    else if (member_at n sender).connected
    then (success, record n { members = set n.members sender (heard now (member_at n sender)) })
    else (success, n)

unfoldable pub handle_node_failed_msg : MemberNode → (failed_node : ℕ) → Status × MemberNode
handle_node_failed_msg n failed_node = (
  success,
  record n {
    members =
        if ltb failed_node max_nodes
        then set n.members failed_node (record (member_at n failed_node) { is_failed = true })
        else n.members;
    directory = Option.map (λ d. (directory_handle_node_failure d failed_node).after) n.directory;
  },
)

-- The messages on membership, each with its sender where the handler reads it.
pub data MemberMessage : Type 0 where
  node_join : (id port : ℕ) → MemberMessage
  heartbeat : (sender : ℕ) → MemberMessage
  heartbeat_ack node_leave : MemberMessage
  node_failed : (failed_node : ℕ) → MemberMessage
  reconnect_request : (requester last_seq : ℕ) → MemberMessage

-- What a joining node sends to node 0.
abbrev pub send_node_join : (id port : ℕ) → MemberMessage
send_node_join id port = node_join id port

-- A promoted manager only logs the request, every other node ignores it.
abbrev pub handle_reconnect_request : MemberNode → (requester last_seq : ℕ) → Status × MemberNode
handle_reconnect_request n requester last_seq = (success, n)

-- The branches of the dispatcher for these messages, on the socket that the message came from.
unfoldable pub dispatch_member :
    (now : ℕ) → MemberNode → MemberMessage → (sockfd : ℕ) → Status × MemberNode
dispatch_member now n (node_join id port) sockfd = handle_node_join now n id port sockfd
dispatch_member now n (heartbeat sender) sockfd = handle_heartbeat now n sender
dispatch_member now n heartbeat_ack sockfd = (success, n)
dispatch_member now n node_leave sockfd = (success, n)
dispatch_member now n (node_failed failed_node) sockfd = handle_node_failed_msg n failed_node
dispatch_member now n (reconnect_request requester last_seq) sockfd =
    handle_reconnect_request n requester last_seq
