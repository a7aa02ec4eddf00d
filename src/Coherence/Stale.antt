-- ===== src/Coherence/Stale.antt =====
-- src/network/handlers.c: requests for a page that is not valid here, and answers that come late.
use user_level_dsm.Prelude.{
  refl, ℕ, List, Bool, All, ◌≡◌, true, false, some, arith, Option-cases, inl, inr, ◌≢◌, contains,
}
use user_level_dsm.Coherence.{
  Payload, Env, Letter, page_reply, PageNode, find_page, page_error, state_of, at_page, silent,
}
use user_level_dsm.Coherence.Request.{proxy, handle_page_request, request_invalid}
use user_level_dsm.Types.{AccessType, Status, invalid, success, Role, no_node, write}
use user_level_dsm.Coherence.Transfer.{
  dispatch_message, Hosts, calm, at_page-Hosts, received-Hosts, received_entry,
}
use user_level_dsm.PageTable.{PageEntry}
use user_level_dsm.Coherence.Invalidation.{handle_error, failed_with, handle_invalidate}
use user_level_dsm.Coherence.Spaces.{found_has_tables}
use user_level_dsm.Coherence.Reply.{perm_for}
use user_level_dsm.Coherence.Handover.{asker_receives}
use user_level_dsm.Directory.{Directory, entry_of, directory_set_writer}
use user_level_dsm.Directory.Valid.{IsValid}
use user_level_dsm.Coherence.Doomed.{invalidated}
use user_level_dsm.Directory.Ownership.{set_writer_dooms}

abbrev pub is_reply : Payload → Bool
is_reply (page_reply _ _ _ _ _) = true
is_reply _ = false

-- No message carries a page.
abbrev pub NoReply : List Letter → Type 0
NoReply ls = All (λ l. is_reply l.payload ≡ false) ls

proxy_request :
    (env : Env) (n : PageNode) (page : ℕ) (a : AccessType) (requester : ℕ)
    → ((proxy env n page a requester).1.page_tables ≡ n.page_tables)
      × ((l : Letter) → (proxy env n page a requester).0 ≡ some l → is_reply l.payload ≡ false)
unfolding proxy
proxy_request env n page a requester = (ground arith, λ l h. ground arith)

invalid_answer :
    (env : Env) (n : PageNode) (page : ℕ) (a : AccessType) (requester : ℕ)
    → NoReply (request_invalid env n page a requester).letters
      × ((request_invalid env n page a requester).after.page_tables ≡ n.page_tables)
unfolding request_invalid
invalid_answer env n page a requester = elim (Option-cases (proxy env n page a requester).0) [
  | inl none_here ↦
      rw (request_invalid, none_here) ((refl, tt), (proxy_request env n page a requester).0)
  | inr (l, e) ↦
      rw (request_invalid, e)
        (
          ((proxy_request env n page a requester).1 l e, tt),
          (proxy_request env n page a requester).0,
        )
]

-- A page that is invalid here is not served, to a reader or a writer, whatever the system calls
-- answer: no message of the handler carries a page, and the page tables stay as they are.
pub stale_not_served :
    (env : Env) (n : PageNode) (page : ℕ) (a : AccessType) (requester : ℕ) (e : PageEntry)
    → find_page n.page_tables page ≡ some e
    → e.state ≡ invalid
    → NoReply (handle_page_request env n page a requester).letters
      × ((handle_page_request env n page a requester).after.page_tables ≡ n.page_tables)
unfolding handle_page_request
stale_not_served env n page a requester e found stale =
    rw (handle_page_request, found_has_tables n page e found, found)
      (simp stale (invalid_answer env n page a requester))

error_recorded :
    (n : PageNode) (page sender : ℕ) (e : PageEntry) (code : Status)
    → Hosts n page e
    → e.request_pending ≡ true
    → dispatch_message calm n sender (page_error code page)
      ≡ silent success (at_page page (failed_with code) n)
unfolding dispatch_message handle_error
error_recorded n page sender e code h pending =
    rw (dispatch_message, handle_error, h.found) (simp pending)

-- A page whose fetch has failed with a code keeps that code when a later reply does bring it: the
-- error of the pending fetch is recorded, the reply clears the pending mark, gives the access and
-- leaves the code.
pub code_outlives_reply :
    (n : PageNode) (page sender version : ℕ) (a : AccessType) (bytes : List ℕ) (e : PageEntry)
    (code : Status)
    → Hosts n page e
    → e.request_pending ≡ true
    → let failed = (dispatch_message calm n sender (page_error code page)).after in
      let n' =
        (dispatch_message calm failed sender (page_reply page version a n.node_id bytes)).after in
      (x : PageEntry) × (find_page n'.page_tables page ≡ some x)
      × (x.fetch_result ≡ code)
      × (x.request_pending ≡ false)
      × (x.state ≡ state_of (perm_for a))
code_outlives_reply n page sender version a bytes e code h pending =
    let failed = at_page page (failed_with code) n in
    let h1 : Hosts failed page (failed_with code e) =
      at_page-Hosts n page e (failed_with code) h (λ _. (refl, refl)) in
    let here = received-Hosts failed page version a bytes (failed_with code e) h1 in
    rw
      (
        error_recorded n page sender e code h pending,
        asker_receives sender failed page version a bytes (failed_with code e) h1,
      )
      (received_entry version a (failed_with code e), here.found, refl, refl, refl)

-- The owner on record for a page that another node wants to write stands in that node's list of
-- invalidations; and an owner that has handled the writer's invalidation does not serve the request
-- that the writer sends next: the handler's messages carry no page, whatever the system calls answer.
-- The writer's directory is valid and has memory, and names the owner.
pub invalidated_owner_refuses :
    (r : Role) (d : Directory) (page writer owner : ℕ) (env env' : Env) (n : PageNode)
    (e : PageEntry)
    → IsValid d
    → (entry_of d page).owner ≡ owner
    → owner ≢ writer
    → owner ≢ no_node
    → Hosts n page e
    → let n' = (handle_invalidate env n writer page writer).after in
      (contains (directory_set_writer r true d page writer).1 owner ≡ true)
      × NoReply (handle_page_request env' n' page write writer).letters
invalidated_owner_refuses r d page writer owner env env' n e v names other real h =
    let (x, found, stale) = invalidated env n writer page writer e h in
    let n' = (handle_invalidate env n writer page writer).after in
    (
      rw (set_writer_dooms r d page writer owner v, names) (ground (arith, other, real)),
      (stale_not_served env' n' page write writer x found stale).0,
    )
