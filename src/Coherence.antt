-- ===== src/Coherence.antt =====
-- src/network/handlers.c, the messages on pages, and src/memory/permission.c: the pages of one node,
-- the messages that move a page from node to node, and the protection of its memory.
-- A handler runs as one step, so the references that it takes on a table and gives back cancel, and
-- the locks are left out. `page_tables` is the list of the tables `[0 .. num_allocations)`, none of
-- them NULL. The memory is kept page by page under the page's address. What the operating system
-- and the network answer in a step is its `Env`. The byte counts of the statistics are left out.
pub mod Request
pub mod Reply
pub mod Invalidation
pub mod Spaces
pub mod Transfer
pub mod Handover
pub mod Doomed
pub mod Stale
mod Tests
use user_level_dsm.Prelude.{
  ℕ, Bool, true, false, not, List, [], ◌∷◌, Option, none, some, if◌then◌else◌, ◌==◌, ◌&&◌, set,
  get_or,
}
use user_level_dsm.Types.{
  Status, Role, PageState, PagePerm, AccessType, perm_none, perm_read, perm_read_write, invalid,
  read_only, read_write, success, invalid_argument, init_error, permission_error,
}
use user_level_dsm.PageTable.{
  PageTable, PageEntry, entry_at, page_table_lookup_by_id, page_table_lookup_by_addr,
  page_get_base_addr,
}
use user_level_dsm.Directory.{Directory, DirSync}

-- A slot of `network.nodes`: the parts that the handlers read.
pub record NodeSlot : Type 0 where
  pub connected : Bool
  pub is_failed : Bool

-- What the handlers read and write of the global context: `memory` and `perms` are the contents and
-- the protection of the page at an address.
pub record PageNode : Type 0 where
  pub initialized : Bool
  pub role : Role
  pub node_id : ℕ
  pub page_tables : List PageTable
  pub directory : Option Directory
  pub nodes : List NodeSlot
  pub memory : ℕ → List ℕ
  pub perms : ℕ → PagePerm
  pub pages_sent : ℕ
  pub invalidations_received : ℕ

-- What a step meets: the code that `network_send` returns, whether the first and the second
-- `mprotect` succeed, and whether the `malloc` of a directory entry does.
pub record Env : Type 0 where
  pub send_code : Status
  pub protects : Bool
  pub protects_again : Bool
  pub alloc : Bool

-- The payloads of the messages on pages; the text of an error is left out.
pub data Payload : Type 0 where
  page_request : (page : ℕ) (access : AccessType) (requester : ℕ) → Payload
  page_reply : (page version : ℕ) (access : AccessType) (requester : ℕ) (bytes : List ℕ) → Payload
  invalidate : (page new_owner : ℕ) → Payload
  invalidate_ack : (page acker : ℕ) → Payload
  page_error : (code : Status) (page : ℕ) → Payload

-- A message handed to `network_send` for `target`.
pub record Letter : Type 0 where
  pub target : ℕ
  pub sender : ℕ
  pub payload : Payload

-- What a handler returns: its code, the messages that it hands to `network_send`, what it
-- replicates, and the node that it leaves.
pub record Served : Type 0 where
  pub status : Status
  pub letters : List Letter
  pub sync : Option DirSync
  pub after : PageNode

-- A step that sends nothing.
abbrev pub silent : Status → PageNode → Served
silent code n = record { status = code; letters = []; sync = none; after = n }

-- A step that sends one message and returns the code of `network_send`.
abbrev pub posted : Env → Letter → PageNode → Served
posted env letter n = record {
  status = env.send_code;
  letters = letter ∷ [];
  sync = none;
  after = n;
}

-- The search of the handlers: the first table that has the page ID.
pub find_page : List PageTable → ℕ → Option PageEntry
find_page [] page = none
find_page (t ∷ ts) page = elim (page_table_lookup_by_id t page) [
  | none ↦ find_page ts page
  | some i ↦ some (entry_at t i)
]

abbrev pub modify_at : PageTable → ℕ → (PageEntry → PageEntry) → PageTable
modify_at t i f = record t { entries = set t.entries i (f (entry_at t i)) }

-- A write through the pointer that the search returned.
pub modify_page : List PageTable → ℕ → (PageEntry → PageEntry) → List PageTable
modify_page [] page f = []
modify_page (t ∷ ts) page f = elim (page_table_lookup_by_id t page) [
  | none ↦ t ∷ modify_page ts page f
  | some i ↦ modify_at t i f ∷ ts
]

-- The search of `set_page_permission`, by address, and the write through its pointer.
pub modify_addr : List PageTable → ℕ → (PageEntry → PageEntry) → List PageTable
modify_addr [] addr f = []
modify_addr (t ∷ ts) addr f = elim (page_table_lookup_by_addr t addr) [
  | none ↦ t ∷ modify_addr ts addr f
  | some i ↦ modify_at t i f ∷ ts
]

abbrev pub with_tables : List PageTable → PageNode → PageNode
with_tables ts n = record n { page_tables = ts }

-- A write through the pointer to an entry of a node.
abbrev pub at_page : ℕ → (PageEntry → PageEntry) → PageNode → PageNode
at_page page f n = with_tables (modify_page n.page_tables page f) n

abbrev pub with_state : PageState → PageEntry → PageEntry
with_state s e = record e { state = s }

-- The state that `set_page_permission` gives an entry.
abbrev pub state_of : PagePerm → PageState
state_of perm_none = invalid
state_of perm_read = read_only
state_of perm_read_write = read_write

-- `mprotect` succeeds on the page at `addr`.
abbrev pub protect : ℕ → PagePerm → PageNode → PageNode
protect addr perm n = record n { perms = λ a. if addr == a then perm else n.perms a }

abbrev pub has_tables : PageNode → Bool
has_tables n = elim n.page_tables [ [] ↦ false | t ∷ ts ↦ true ]

-- `protects` says whether `mprotect` succeeds.
pub set_page_permission : (protects : Bool) → PageNode → ℕ → PagePerm → Status × PageNode
set_page_permission protects n addr perm =
    if addr == 0
    then (invalid_argument, n)
    else if not (n.initialized && has_tables n)
    then (init_error, n)
    else if not protects
    then (permission_error, n)
    else (
      success,
      with_tables (modify_addr n.page_tables (page_get_base_addr addr) (with_state (state_of perm)))
          (protect (page_get_base_addr addr) perm n),
    )

-- The slot of a node; a slot out of range is not connected.
abbrev pub slot_of : PageNode → ℕ → NodeSlot
slot_of n id = get_or n.nodes id (record { connected = false; is_failed = false })

-- The test of `directory_set_owner` on node 1.
abbrev pub backup_up : PageNode → Bool
backup_up n = (slot_of n 1).connected && not (slot_of n 1).is_failed
