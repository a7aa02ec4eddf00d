-- ===== src/Coherence/Reply.antt =====
-- src/network/handlers.c: the reply that brings a page.
use user_level_dsm.Prelude.{ℕ, Bool, not, List, none, some, if◌then◌else◌, ◌==◌, ◌&&◌, ltb, false}
use user_level_dsm.Types.{
  AccessType, PagePerm, read, write, perm_read, perm_read_write, success, not_found, network_error,
  init_error, max_nodes, is_success,
}
use user_level_dsm.PageTable.{PageEntry}
use user_level_dsm.Coherence.{
  PageNode, Env, Served, page_reply, silent, posted, find_page, at_page, has_tables,
  set_page_permission, slot_of,
}

-- What the reply grants.
abbrev pub perm_for : AccessType → PagePerm
perm_for read = perm_read
perm_for write = perm_read_write

-- `memcpy(entry->local_addr, data, PAGE_SIZE)`
abbrev pub copy_page : ℕ → List ℕ → PageNode → PageNode
copy_page addr bytes n = record n { memory = λ a. if addr == a then bytes else n.memory a }

abbrev pub with_version : ℕ → PageEntry → PageEntry
with_version v e = record e { version = v }

abbrev pub answered : PageEntry → PageEntry
answered e = record e { request_pending = false }

-- The manager passes a reply on to the node that asked.
abbrev pub passes_on : PageNode → (sender requester : ℕ) → Bool
passes_on n sender requester =
    n.role.is_manager
    && (not (requester == n.node_id) && (ltb requester max_nodes && not (requester == sender)))

unfoldable pub pass_on :
    Env → PageNode → (page version : ℕ) → AccessType → (requester : ℕ) → List ℕ → Served
pass_on env n page version access requester bytes =
    if (slot_of n requester).connected
    then posted env
        (record {
          target = requester;
          sender = n.node_id;
          payload = page_reply page version access requester bytes;
        })
        n
    else silent network_error n

-- The page is in a table here: the copy, the permission, and the wake-up of those who wait.
unfoldable pub receive_page :
    Env → PageNode → (page version : ℕ) → AccessType → List ℕ → PageEntry → Served
receive_page env n page version access bytes e =
    let (code, n1) = set_page_permission env.protects n e.local_addr perm_read_write in
    if not (is_success code)
    then silent code n1
    else let n2 = at_page page (with_version version) (copy_page e.local_addr bytes n1) in
      let (code', n3) = set_page_permission env.protects_again n2 e.local_addr (perm_for access) in
      if not (is_success code') then silent code' n3 else silent success (at_page page answered n3)

-- The second test for a forward, after the search, is the first one again, and fails.
unfoldable pub handle_page_reply :
    Env → PageNode → (sender page version : ℕ) → AccessType → (requester : ℕ) → List ℕ → Served
handle_page_reply env n sender page version access requester bytes =
    if not (has_tables n)
    then silent init_error n
    else if passes_on n sender requester
    then pass_on env n page version access requester bytes
    else elim (find_page n.page_tables page) [
      | none ↦
          if passes_on n sender requester
          then pass_on env n page version access requester bytes
          else silent not_found n
      | some e ↦ receive_page env n page version access bytes e
    ]
