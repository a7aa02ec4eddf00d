-- ===== src/Coherence/Invalidation.antt =====
-- src/network/handlers.c: invalidations, their acknowledgements, and the errors on pages.
use user_level_dsm.Prelude.{ℕ, [], ◌∷◌, none, some, if◌then◌else◌, ◌==◌, ◌+◌, ◌-◌, false}
use user_level_dsm.Types.{Status, perm_none, success}
use user_level_dsm.PageTable.{PageEntry}
use user_level_dsm.Directory.{directory_set_owner, directory_remove_sharer}
use user_level_dsm.Coherence.{
  PageNode, Env, Letter, Served, invalidate, invalidate_ack, silent, find_page, at_page,
  set_page_permission, backup_up,
}
use user_level_dsm.Coherence.Request.{taken_by}

unfoldable pub send_invalidate : PageNode → (target page : ℕ) → Letter
send_invalidate n target page = record {
  target = target;
  sender = n.node_id;
  payload = invalidate page n.node_id;
}

unfoldable pub send_invalidate_ack : PageNode → (target page : ℕ) → Letter
send_invalidate_ack n target page = record {
  target = target;
  sender = n.node_id;
  payload = invalidate_ack page n.node_id;
}

-- The directory of this node learns the new owner and forgets this node.
unfoldable pub note_owner : Env → PageNode → (page new_owner : ℕ) → Letter → Served
note_owner env n page new_owner letter = elim n.directory [
  | none ↦ record { status = env.send_code; letters = letter ∷ []; sync = none; after = n }
  | some d ↦
      let o = directory_set_owner n.role (backup_up n) env.alloc d page new_owner in
      let d' = (directory_remove_sharer o.after page n.node_id).after in
      record {
        status = env.send_code;
        letters = letter ∷ [];
        sync = o.sync;
        after = record n { directory = some d' };
      }
]

abbrev pub one_received : PageNode → PageNode
one_received n = record n { invalidations_received = n.invalidations_received + 1 }

-- A failed `mprotect` is only logged.
unfoldable pub handle_invalidate : Env → PageNode → (sender page new_owner : ℕ) → Served
handle_invalidate env n sender page new_owner =
    let letter = send_invalidate_ack n sender page in
    elim (find_page n.page_tables page) [
      | none ↦ record { status = env.send_code; letters = letter ∷ []; sync = none; after = n }
      | some e ↦
          let (code, n') =
            set_page_permission env.protects (one_received n) e.local_addr perm_none in
          note_owner env (at_page page (taken_by new_owner) n') page new_owner letter
    ]

-- The count of a page does not go below 0.
abbrev pub acknowledged : PageEntry → PageEntry
acknowledged e = record e { pending_inv_acks = e.pending_inv_acks - 1 }

unfoldable pub handle_invalidate_ack : PageNode → (page : ℕ) → Served
handle_invalidate_ack n page = elim (find_page n.page_tables page) [
  | none ↦ silent success n
  | some e ↦
      if e.pending_inv_acks == 0
      then silent success n
      else silent success (at_page page acknowledged n)
]

abbrev pub failed_with : Status → PageEntry → PageEntry
failed_with code e = record e { fetch_result = code; request_pending = false }

-- The branch of `dispatch_message` on an error.
unfoldable pub handle_error : PageNode → Status → (page : ℕ) → Served
handle_error n code page = elim (find_page n.page_tables page) [
  | none ↦ silent success n
  | some e ↦
      if e.request_pending
      then silent success (at_page page (failed_with code) n)
      else silent success n
]
