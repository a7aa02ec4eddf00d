-- ===== src/Coherence/Transfer.antt =====
-- src/network/handlers.c: the way of a page from the node that has it to the node that asks for it.
use mathlib.Core.Option
use user_level_dsm.Prelude.{
  ℕ, true, ◌≡◌, List, ◌∙◌, some, ap, ◌≢◌, ◌∷◌, [], none, ==_refl, ◌⊎◌, inl, refl, inr,
}
use user_level_dsm.Coherence.{
  Env, PageNode, Payload, at_page, Served, set_page_permission, page_request, find_page, with_state,
  page_reply, state_of, protect, invalidate, invalidate_ack, page_error, silent,
}
use user_level_dsm.Coherence.Request.{
  handle_page_request, request_served, give_up, taken_by, one_sent, reply_for,
}
use user_level_dsm.Types.{
  PageState, success, PagePerm, invalid, perm_none, write, AccessType, read_only, read_write,
  perm_read_write,
}
use user_level_dsm.PageTable.{PageEntry}
use user_level_dsm.Coherence.Spaces.{
  KeepsPlace, modify_page-IsSpace, IsSpace, find_page-modify_self, permission_granted,
  found_has_tables,
}
use user_level_dsm.Coherence.Reply.{
  handle_page_reply, with_version, receive_page, perm_for, copy_page, answered,
}
use user_level_dsm.Coherence.Invalidation.{handle_invalidate, handle_invalidate_ack, handle_error}

-- The branches of `dispatch_message` on the messages of pages.
unfoldable pub dispatch_message : Env → PageNode → (sender : ℕ) → Payload → Served
dispatch_message env n sender (page_request page access requester) =
    handle_page_request env n page access requester
dispatch_message env n sender (page_reply page version access requester bytes) =
    handle_page_reply env n sender page version access requester bytes
dispatch_message env n sender (invalidate page new_owner) =
    handle_invalidate env n sender page new_owner
dispatch_message env n sender (invalidate_ack page acker) = handle_invalidate_ack n page
dispatch_message env n sender (page_error code page) = handle_error n code page

-- A node at work, with sound tables, one of which has the page.
pub record Hosts (n : PageNode) (page : ℕ) (e : PageEntry) : Type 0 where
  pub up : n.initialized ≡ true
  pub space : IsSpace n.page_tables
  pub found : find_page n.page_tables page ≡ some e

-- How a node stands to a page: its state, the protection of its memory, and its bytes.
pub record Holds (n : PageNode) (page : ℕ) (s : PageState) (perm : PagePerm) (bytes : List ℕ)
    : Type 0 where
  pub entry : PageEntry
  pub hosts : Hosts n page entry
  pub in_state : entry.state ≡ s
  pub protected : n.perms entry.local_addr ≡ perm
  pub content : n.memory entry.local_addr ≡ bytes

-- A step in which every system call succeeds.
abbrev pub calm : Env
calm = record { send_code = success; protects = true; protects_again = true; alloc = true }

-- A write through a pointer to an entry, which keeps the place of the entry.
pub at_page-Hosts :
    (n : PageNode) (page : ℕ) (e : PageEntry) (f : PageEntry → PageEntry)
    → Hosts n page e
    → KeepsPlace f
    → Hosts (at_page page f n) page (f e)
at_page-Hosts n page e f h k = record {
  up = h.up;
  space = modify_page-IsSpace n.page_tables page f h.space k;
  found = find_page-modify_self n.page_tables page f h.space ∙ ap (Option.map f) h.found;
}

pub permission_Hosts :
    (n : PageNode) (page : ℕ) (e : PageEntry) (perm : PagePerm)
    → Hosts n page e
    → set_page_permission true n e.local_addr perm
      ≡ (success, at_page page (with_state (state_of perm)) (protect e.local_addr perm n))
permission_Hosts n page e perm h = permission_granted n page e perm h.up h.space h.found

-- What a served writer leaves at the node that served it.
abbrev pub given_up : PageNode → (page : ℕ) → PageEntry → ℕ → PageNode
given_up n page e requester =
    at_page page (taken_by requester)
      (at_page page (with_state invalid) (protect e.local_addr perm_none (one_sent n)))

valid_cases : (s : PageState) → s ≢ invalid → (s ≡ read_only) ⊎ (s ≡ read_write)
valid_cases invalid h = absurd (h refl)
valid_cases read_only h = inl refl
valid_cases read_write h = inr refl

-- A node that has a valid copy serves the request.
pub serves :
    (env : Env) (n : PageNode) (page : ℕ) (a : AccessType) (requester : ℕ) (e : PageEntry)
    → Hosts n page e
    → e.state ≢ invalid
    → handle_page_request env n page a requester ≡ request_served env n page a requester e
unfolding handle_page_request
serves env n page a requester e h valid = elim (valid_cases e.state valid) [
  | inl st ↦ rw (handle_page_request, found_has_tables n page e h.found, h.found) (simp st)
  | inr st ↦ rw (handle_page_request, found_has_tables n page e h.found, h.found) (simp st)
]

pub served_write :
    (n : PageNode) (page : ℕ) (e : PageEntry) (requester : ℕ)
    → Hosts n page e
    → e.state ≢ invalid
    → handle_page_request calm n page write requester ≡ record {
      status = success;
      letters = reply_for n page write requester e ∷ [];
      sync = none;
      after = given_up n page e requester;
    }
unfolding request_served give_up
served_write n page e requester h valid =
    rw
      (
        serves calm n page write requester e h valid,
        request_served,
        give_up,
        permission_Hosts (one_sent n) page e perm_none
            (record { up = h.up; space = h.space; found = h.found }),
      )
      refl

pub given_up-Holds :
    (n : PageNode) (page : ℕ) (e : PageEntry) (requester : ℕ)
    → Hosts n page e
    → Holds (given_up n page e requester) page invalid perm_none (n.memory e.local_addr)
given_up-Holds n page e requester h = record {
  entry = taken_by requester (with_state invalid e);
  hosts =
      at_page-Hosts
        (at_page page (with_state invalid) (protect e.local_addr perm_none (one_sent n))) page
        (with_state invalid e) (taken_by requester)
        (at_page-Hosts (protect e.local_addr perm_none (one_sent n)) page e (with_state invalid)
          (record { up = h.up; space = h.space; found = h.found }) (λ _. (refl, refl)))
        (λ _. (refl, refl));
  in_state = refl;
  protected = rw (==_refl e.local_addr) refl;
  content = refl;
}

-- The node between the two calls of `set_page_permission` of `handle_page_reply`.
abbrev pub copied : PageNode → (page version : ℕ) → List ℕ → PageEntry → PageNode
copied n page version bytes e = at_page page (with_version version) (
    copy_page e.local_addr bytes
      (at_page page (with_state read_write) (protect e.local_addr perm_read_write n)))

abbrev pub copied_entry : ℕ → PageEntry → PageEntry
copied_entry version e = with_version version (with_state read_write e)

copied-Hosts :
    (n : PageNode) (page version : ℕ) (bytes : List ℕ) (e : PageEntry)
    → Hosts n page e
    → Hosts (copied n page version bytes e) page (copied_entry version e)
copied-Hosts n page version bytes e h =
    let n1 = at_page page (with_state read_write) (protect e.local_addr perm_read_write n) in
    let h1 =
      at_page-Hosts (protect e.local_addr perm_read_write n) page e (with_state read_write)
        (record { up = h.up; space = h.space; found = h.found }) (λ _. (refl, refl)) in
    at_page-Hosts (copy_page e.local_addr bytes n1) page (with_state read_write e)
      (with_version version) (record { up = h1.up; space = h1.space; found = h1.found })
      (λ _. (refl, refl))

-- What a reply leaves at the node that asked.
abbrev pub received : PageNode → (page version : ℕ) → AccessType → List ℕ → PageEntry → PageNode
received n page version a bytes e = at_page page answered (
    at_page page (with_state (state_of (perm_for a)))
      (protect e.local_addr (perm_for a) (copied n page version bytes e)))

pub receive_lem :
    (n : PageNode) (page version : ℕ) (a : AccessType) (bytes : List ℕ) (e : PageEntry)
    → Hosts n page e
    → receive_page calm n page version a bytes e
      ≡ silent success (received n page version a bytes e)
unfolding receive_page
receive_lem n page version a bytes e h =
    rw
      (
        receive_page,
        permission_Hosts n page e perm_read_write h,
        permission_Hosts (copied n page version bytes e) page (copied_entry version e) (perm_for a)
            (copied-Hosts n page version bytes e h),
      )
      refl

abbrev pub received_entry : ℕ → AccessType → PageEntry → PageEntry
received_entry version a e = answered (with_state (state_of (perm_for a)) (copied_entry version e))

pub received-Hosts :
    (n : PageNode) (page version : ℕ) (a : AccessType) (bytes : List ℕ) (e : PageEntry)
    → Hosts n page e
    → Hosts (received n page version a bytes e) page (received_entry version a e)
received-Hosts n page version a bytes e h =
    let n1 = copied n page version bytes e in
    let h1 = copied-Hosts n page version bytes e h in
    let perm = perm_for a in
    at_page-Hosts (at_page page (with_state (state_of perm)) (protect e.local_addr perm n1)) page
      (with_state (state_of perm) (copied_entry version e)) answered
      (at_page-Hosts (protect e.local_addr perm n1) page (copied_entry version e)
        (with_state (state_of perm)) (record { up = h1.up; space = h1.space; found = h1.found })
        (λ _. (refl, refl)))
      (λ _. (refl, refl))

pub received-Holds :
    (n : PageNode) (page version : ℕ) (a : AccessType) (bytes : List ℕ) (e : PageEntry)
    → Hosts n page e
    → Holds (received n page version a bytes e) page (state_of (perm_for a)) (perm_for a) bytes
received-Holds n page version a bytes e h = record {
  entry = received_entry version a e;
  hosts = received-Hosts n page version a bytes e h;
  in_state = refl;
  protected = rw (==_refl e.local_addr) refl;
  content = rw (==_refl e.local_addr) refl;
}
