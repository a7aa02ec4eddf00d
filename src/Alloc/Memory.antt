-- ===== src/Alloc/Memory.antt =====
-- src/memory/allocator.c: allocation and release of memory.
use mathlib.Core.Option
use user_level_dsm.Types.{
  Role, Status, is_success, page_size, success, invalid_argument, memory_error,
}
use user_level_dsm.Alloc.{AllocEnv, AllocNode, PeerSlot, Ack, Post, Notice, consistency_init}
use user_level_dsm.Directory.{Directory, directory_remove_entry, directory_set_owner}
use user_level_dsm.Prelude.{
  List, ℕ, Option, Bool, ◌+◌, get_elem?, suc, ◌*◌, some, none, ◌∷◌, if◌then◌else◌, leb, [], ◌==◌,
  ◌&&◌, ◌%◌, zero, ltb, false, map, ◌||◌, ◌-◌, not, true, length,
}
use user_level_dsm.PageTable.{
  PageTable, pages_of, PageEntry, word, node_ids, max_slots, page_table_create, page_table_release,
}
use user_level_dsm.Alloc.Notices.{
  AckWait, with_table, handle_alloc_ack, send_alloc_notify, backup_up, wait_for_alloc_acks,
}

-- The size in whole pages, in a `size_t`.
abbrev pub aligned : ℕ → ℕ
aligned size = pages_of size * page_size

-- The loop of `dsm_malloc` over the entries. The node is not a manager meanwhile, so nothing is
-- replicated.
unfoldable pub own_pages :
    Role → (backup_up entries_ok : Bool) → Directory → (node : ℕ) → List PageEntry → Directory
own_pages r up ok d node [] = d
own_pages r up ok d node (e ∷ es) =
    own_pages r up ok
      (directory_set_owner (record r { is_manager = false }) up ok d e.id node).after node es

abbrev pub owned_by : ℕ → PageEntry → PageEntry
owned_by node e = record e { owner = node }

-- The new table is in place, and this node becomes the owner of its pages.
unfoldable pub take_pages : AllocEnv → AllocNode → PageTable → Option PageTable × AllocNode
take_pages env n t = elim n.directory [
  | none ↦ (some t, with_table t n)
  | some d ↦
      let t' : PageTable = record t { entries = map (owned_by n.node_id) t.entries } in
      (
        some t',
        with_table t' (record n {
          directory = some (own_pages n.role (backup_up n) env.entries_ok d n.node_id t.entries);
        }),
      )
]

abbrev pub one_more : AllocNode → AllocNode
one_more n = record n { num_local_allocations = n.num_local_allocations + 1 }

-- The first table of all makes the directory; where that fails, the count is not taken back.
unfoldable pub add_table : AllocEnv → AllocNode → PageTable → Option PageTable × AllocNode
add_table env n t =
    if n.has_primary
    then take_pages env (one_more n) t
    else let (code, dir) = consistency_init env.dir_ok n.directory in
      if is_success code
      then take_pages env (record (one_more n) { has_primary = true; directory = dir }) t
      else (none, one_more n)

-- `dsm_malloc` up to the broadcast: the table that it adds, if it adds one.
unfoldable pub reserve : AllocEnv → AllocNode → ℕ → Option PageTable × AllocNode
reserve env n size = if (size == 0) || not n.initialized then (none, n) else elim env.mapped [
  | none ↦ (none, n)
  | some addr ↦
      if leb max_slots (length n.page_tables)
      then (none, n)
      else elim (page_table_create addr (aligned size) n.node_id n.num_local_allocations) [
        | none ↦ (none, n)
        | some t ↦ add_table env n t
      ]
]

-- The search of `dsm_free`.
unfoldable pub table_at : List PageTable → ℕ → Option PageTable
table_at [] ptr = none
table_at (t ∷ ts) ptr = if t.base_addr == ptr then some t else table_at ts ptr

-- The tables behind the one that is found move up.
unfoldable pub remove_table : List PageTable → ℕ → List PageTable
remove_table [] ptr = []
remove_table (t ∷ ts) ptr = if t.base_addr == ptr then ts else t ∷ remove_table ts ptr

-- The loop over the pages of a table that is freed.
unfoldable pub remove_pages : Directory → (page left : ℕ) → Directory
remove_pages d page zero = d
remove_pages d page (suc left) =
    remove_pages (directory_remove_entry d (page % word)).after (page + 1) left

abbrev pub is_local : AllocNode → PageTable → Bool
is_local n t =
    leb (n.node_id * node_ids) t.start_page_id && ltb t.start_page_id ((n.node_id + 1) * node_ids)

unfoldable pub drop_table : AllocNode → PageTable → (ptr : ℕ) → AllocNode
drop_table n t ptr =
    let ts = remove_table n.page_tables ptr in
    record n {
      directory = Option.map (λ d. remove_pages d t.start_page_id t.num_pages) n.directory;
      page_tables = ts;
      num_local_allocations =
          if is_local n t then n.num_local_allocations - 1 else n.num_local_allocations;
      has_primary = ltb 0 (length ts);
    }

-- `none` in the middle: no table loses a reference. The table that does is handed back.
unfoldable pub dsm_free : AllocEnv → AllocNode → (ptr : ℕ) → Status × Option PageTable × AllocNode
dsm_free env n ptr =
    if ptr == 0
    then (success, none, n)
    else if not n.initialized || (length n.page_tables == 0)
    then (invalid_argument, none, n)
    else elim (table_at n.page_tables ptr) [
      | none ↦ (invalid_argument, none, n)
      | some t ↦
          (if env.unmaps then success else memory_error, page_table_release t, drop_table n t ptr)
    ]

-- Which nodes have to acknowledge.
unfoldable pub expected_from : (self : ℕ) → List PeerSlot → ℕ
expected_from self [] = 0
expected_from self (p ∷ ps) =
    let rest = expected_from self ps in
    if p.connected && (not (p.id == self) && not p.is_failed) then rest + 1 else rest

abbrev pub notice_of : AllocNode → PageTable → Notice
notice_of n t = record {
  start_page_id = t.start_page_id;
  end_page_id = (t.start_page_id + t.num_pages + (word - 1)) % word;
  owner = n.node_id;
  num_pages = t.num_pages;
  base_addr = t.base_addr;
  total_size = t.total_size;
}

-- The acknowledgements that are handled before the wait begins.
unfoldable pub handle_acks : AllocEnv → AllocNode → List Ack → AllocNode
handle_acks env n [] = n
handle_acks env n (a ∷ rest) = handle_acks env (handle_alloc_ack env n a.acker a).1 rest

-- What `dsm_malloc` returns: the address, 0 being NULL, the messages, and the node.
pub record Allocation : Type 0 where
  pub address : ℕ
  pub posts : List Post
  pub after : AllocNode

-- The end of the wait; a time-out gives the memory back.
unfoldable pub settle : AllocEnv → PageTable → List Post → Status × AllocNode → Allocation
settle env t posts (code, n) =
    if is_success code
    then record { address = t.base_addr; posts = posts; after = n }
    else record { address = 0; posts = posts; after = (dsm_free env n t.base_addr).2 }

-- The broadcast and the wait for the acknowledgements: `early` come before the wait, `waits` in it.
unfoldable pub announce :
    AllocEnv → AllocNode → PageTable → (early : List Ack) → List AckWait → Option Allocation
announce env n t early waits =
    let a = notice_of n t in
    let posts = send_alloc_notify n a in
    Option.map (settle env t posts) (
      wait_for_alloc_acks (handle_acks env n early) a.start_page_id a.end_page_id
        (expected_from n.node_id n.nodes) waits)

unfoldable pub dsm_malloc :
    AllocEnv → AllocNode → (size : ℕ) → (early : List Ack) → List AckWait → Option Allocation
dsm_malloc env n size early waits =
    let (made, n') = reserve env n size in
    elim made [
      | none ↦ some (record { address = 0; posts = []; after = n' })
      | some t ↦
          if ltb 1 n.num_nodes
          then announce env n' t early waits
          else some (record { address = t.base_addr; posts = []; after = n' })
    ]

-- A negative index is out of range too.
pub dsm_get_allocation : AllocNode → (index : ℕ) → ℕ
dsm_get_allocation n index = elim (get_elem? n.page_tables index) [
  | some t ↦ t.base_addr
  | none ↦ 0
]
