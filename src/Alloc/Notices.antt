-- ===== src/Alloc/Notices.antt =====
-- src/network/handlers.c: the notice of an allocation and its acknowledgements.
use user_level_dsm.Prelude.{
  ℕ, Bool, [], if◌then◌else◌, ◌++◌, replicate, List, false, Option, get_or, none, ◌∷◌, ◌&&◌, map,
  not, some, leb, ◌+◌, true, ◌==◌, ◌||◌, suc, ◌-◌, ltb, zero, set, length,
}
use user_level_dsm.Types.{Role, Status, max_nodes, memory_error, success, timeout_error}
use user_level_dsm.PageTable.{PageTable, max_slots, page_table_create_remote}
use user_level_dsm.Alloc.{
  Ack, AllocNode, AllocEnv, AckTracker, Notice, Post, PeerSlot, alloc_notify, alloc_ack,
  consistency_init,
}
use user_level_dsm.Directory.{Directory, DirSync, directory_lookup, directory_set_owner}

-- The loop over the slots: the connected nodes other than this one.
unfoldable pub peers : (self : ℕ) → List PeerSlot → List ℕ
peers self [] = []
peers self (p ∷ ps) =
    let rest = peers self ps in if p.connected && not (p.id == self) then p.id ∷ rest else rest

-- The codes of the sends are only logged.
unfoldable pub send_alloc_notify : AllocNode → Notice → List Post
send_alloc_notify n a =
    map (λ target. record { target = target; message = alloc_notify n.node_id a })
      (peers n.node_id n.nodes)

-- The loop of the manager, which leaves out the first sender too.
unfoldable pub recipients : (self sender : ℕ) → List PeerSlot → List ℕ
recipients self sender [] = []
recipients self sender (p ∷ ps) =
    let rest = recipients self sender ps in
    if p.connected && (not (p.id == self) && not (p.id == sender)) then p.id ∷ rest else rest

-- The other nodes that the manager passes a notice on to, with its first sender.
unfoldable pub forward_notify : AllocNode → (sender : ℕ) → Notice → List Post
forward_notify n sender a =
    if n.role.is_manager && not (sender == n.node_id)
    then map (λ target. record { target = target; message = alloc_notify sender a })
        (recipients n.node_id sender n.nodes)
    else []

unfoldable pub send_alloc_ack : AllocNode → (target start end_page : ℕ) → Post
send_alloc_ack n target start end_page = record {
  target = if not n.role.is_manager && not (target == 0) then 0 else target;
  message =
      alloc_ack n.node_id
        (record { start_page_id = start; end_page_id = end_page; acker = n.node_id });
}

-- The loop that registers the pages, with what it replicates.
unfoldable pub register_pages :
    Role
    → (backup_up entries_ok : Bool) → Directory
    → (owner page left : ℕ) → List (Option DirSync) × Directory
register_pages r up ok d owner page zero = ([], d)
register_pages r up ok d owner page (suc left) =
    let o = directory_set_owner r up ok d page owner in
    let (syncs, d') = register_pages r up ok o.after owner (page + 1) left in (o.sync ∷ syncs, d')

-- What the handler of a notice returns.
pub record Noticed : Type 0 where
  pub status : Status
  pub posts : List Post
  pub syncs : List (Option DirSync)
  pub after : AllocNode

abbrev pub refused : Status → AllocNode → Noticed
refused code n = record { status = code; posts = []; syncs = []; after = n }

abbrev pub backup_up : AllocNode → Bool
backup_up n =
    let slot = get_or n.nodes 1 (record { id = 0; connected = false; is_failed = false }) in
    slot.connected && not slot.is_failed

-- The table is in place: registration, the forwarding, and the acknowledgement. The last page ID is
-- below 2 ^ 64 - 1, where the loop would not end.
unfoldable pub register_notice : AllocEnv → AllocNode → (sender : ℕ) → Notice → Directory → Noticed
register_notice env n sender a d =
    let (syncs, d') =
      register_pages n.role (backup_up n) env.entries_ok d a.owner a.start_page_id
        (a.end_page_id + 1 - a.start_page_id) in
    record {
      status = env.send_code;
      posts =
          forward_notify n sender a ++ send_alloc_ack n a.owner a.start_page_id a.end_page_id ∷ [];
      syncs = syncs;
      after = record n { directory = some d' };
    }

abbrev pub with_table : PageTable → AllocNode → AllocNode
with_table t n = record n { page_tables = n.page_tables ++ t ∷ [] }

unfoldable pub handle_alloc_notify : AllocEnv → AllocNode → (sender : ℕ) → Notice → Noticed
handle_alloc_notify env n sender a = elim env.mapped [
  | none ↦ refused memory_error n
  | some addr ↦
      if not (addr == a.base_addr)
      then refused memory_error n
      else if leb max_slots (length n.page_tables)
      then refused memory_error n
      else elim (page_table_create_remote addr a.total_size a.owner a.start_page_id) [
        | none ↦ refused memory_error n
        | some t ↦
            let (code, dir) = consistency_init env.dir_ok n.directory in
            elim dir [
              | none ↦ refused code n
              | some d ↦ register_notice env (with_table t n) sender a d
            ]
      ]
]

-- The tracker marks a node that acknowledges the allocation that is tracked, once.
unfoldable pub count_ack : AckTracker → Ack → AckTracker
count_ack t a =
    if not (t.start_page_id == a.start_page_id) || not (t.end_page_id == a.end_page_id)
    then t
    else if ltb a.acker max_nodes && not (get_or t.acks_received a.acker true)
    then record t {
      acks_received = set t.acks_received a.acker true;
      received_acks = t.received_acks + 1;
    }
    else t

-- The manager hands an acknowledgement that it does not track to the owner of the pages.
unfoldable pub proxy_ack : AllocEnv → AllocNode → (sender : ℕ) → Ack → List Post × AllocNode
proxy_ack env n sender a = if not n.role.is_manager then ([], n) else elim n.directory [
  | none ↦ ([], n)
  | some d ↦
      let (code, found, d') = directory_lookup env.entries_ok d a.start_page_id in
      let n' : AllocNode = record n { directory = some d' } in
      elim found [
        | none ↦ ([], n')
        | some owner ↦
            if not (owner == n.node_id) && ltb owner max_nodes
            then ((record { target = owner; message = alloc_ack sender a }) ∷ [], n')
            else ([], n')
      ]
]

-- The handler returns `DSM_SUCCESS` on every path.
unfoldable pub handle_alloc_ack : AllocEnv → AllocNode → (sender : ℕ) → Ack → List Post × AllocNode
handle_alloc_ack env n sender a =
    if n.tracker.active
    then ([], record n { tracker = count_ack n.tracker a })
    else proxy_ack env n sender a

-- What ends a round of a wait: an acknowledgement that is handled meanwhile, or the time-out.
pub data AckWait : Type 0 where
  acked : Ack → AckWait
  expired : AckWait

-- The loop; it has no result where the list of what happens ends first.
unfoldable pub await_acks : AckTracker → List AckWait → Option (Status × AckTracker)
await_acks t [] = if leb t.expected_acks t.received_acks then some (success, t) else none
await_acks t (acked a ∷ ws) =
    let rest = await_acks (count_ack t a) ws in
    if leb t.expected_acks t.received_acks then some (success, t) else rest
await_acks t (expired ∷ ws) =
    if leb t.expected_acks t.received_acks then some (success, t) else some (timeout_error, t)

abbrev pub fresh_tracker : (start end_page expected : ℕ) → AckTracker
fresh_tracker start end_page expected = record {
  start_page_id = start;
  end_page_id = end_page;
  expected_acks = expected;
  received_acks = 0;
  acks_received = replicate max_nodes false;
  active = true;
}

abbrev pub stopped : AckTracker → AckTracker
stopped t = record t { active = false }

unfoldable pub wait_for_alloc_acks :
    AllocNode → (start end_page expected : ℕ) → List AckWait → Option (Status × AllocNode)
wait_for_alloc_acks n start end_page expected ws =
    if expected == 0
    then some (success, n)
    else elim (await_acks (fresh_tracker start end_page expected) ws) [
      | none ↦ none
      | some (code, t) ↦ some (code, record n { tracker = stopped t })
    ]
