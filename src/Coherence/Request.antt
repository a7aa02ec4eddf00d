-- ===== src/Coherence/Request.antt =====
-- src/network/handlers.c: a request for a page, as it is sent and as it is served.
use user_level_dsm.Prelude.{
  ℕ, Bool, not, List, [], ◌∷◌, Option, none, some, if◌then◌else◌, ◌==◌, ◌&&◌, ltb, ◌+◌,
}
use user_level_dsm.Types.{
  Status, AccessType, read, write, invalid, read_only, read_write, success, not_found,
  invalid_argument, init_error, max_nodes, perm_none, perm_read, is_success,
}
use user_level_dsm.PageTable.{PageEntry}
use user_level_dsm.Directory.{directory_lookup, directory_add_reader}
use user_level_dsm.Coherence.{
  PageNode, Env, Letter, Served, page_request, page_reply, page_error, silent, posted, find_page,
  at_page, with_state, has_tables, set_page_permission,
}

-- A worker sends through the manager.
abbrev pub routed : PageNode → ℕ → ℕ
routed n target = if not n.role.is_manager && not (target == 0) then 0 else target

unfoldable pub send_page_request : PageNode → (owner page : ℕ) → AccessType → Letter
send_page_request n owner page access = record {
  target = routed n owner;
  sender = n.node_id;
  payload = page_request page access n.node_id;
}

unfoldable pub send_page_reply : PageNode → (requester page : ℕ) → AccessType → List ℕ → Letter
send_page_reply n requester page access bytes = record {
  target = routed n requester;
  sender = n.node_id;
  payload = page_reply page 0 access requester bytes;
}

-- A node that the manager may forward a request to.
abbrev pub is_remote : PageNode → ℕ → Bool
is_remote n owner = not (owner == n.node_id) && ltb owner max_nodes

-- The manager hands a request for a page that it cannot serve to the owner on record. `none`: it
-- does not, and the lookup leaves the second component either way.
unfoldable pub proxy : Env → PageNode → (page : ℕ) → AccessType → ℕ → Option Letter × PageNode
proxy env n page access requester = if not n.role.is_manager then (none, n) else elim n.directory [
  | none ↦ (none, n)
  | some d ↦
      let (code, found, d') = directory_lookup env.alloc d page in
      let n' : PageNode = record n { directory = some d' } in
      elim found [
        | none ↦ (none, n')
        | some owner ↦
            if is_remote n owner
            then (
              some (record {
                target = owner;
                sender = n.node_id;
                payload = page_request page access requester;
              }),
              n',
            )
            else (none, n')
      ]
]

-- The page is in no table.
unfoldable pub request_unknown : Env → PageNode → (page : ℕ) → AccessType → ℕ → Served
request_unknown env n page access requester =
    let (letter, n') = proxy env n page access requester in
    elim letter [ some l ↦ posted env l n' | none ↦ silent not_found n' ]

-- The page is invalid here: the requester is told to look the owner up again. The code of this last
-- send is not looked at.
unfoldable pub request_invalid : Env → PageNode → (page : ℕ) → AccessType → ℕ → Served
request_invalid env n page access requester =
    let (letter, n') = proxy env n page access requester in
    elim letter [
      | some l ↦ posted env l n'
      | none ↦ record {
        status = invalid_argument;
        letters =
            (record {
              target = requester;
              sender = n.node_id;
              payload = page_error invalid_argument page;
            })
            ∷ [];
        sync = none;
        after = n';
      }
    ]

abbrev pub taken_by : ℕ → PageEntry → PageEntry
taken_by requester e = record e { owner = requester; state = invalid }

abbrev pub one_sent : PageNode → PageNode
one_sent n = record n { pages_sent = n.pages_sent + 1 }

-- After the reply to a writer: the copy here is given up.
unfoldable pub give_up :
    Env → PageNode → (page : ℕ) → PageEntry → (requester : ℕ) → Status × PageNode
give_up env n page e requester =
    let (code, n') = set_page_permission env.protects n e.local_addr perm_none in
    if is_success code then (success, at_page page (taken_by requester) n') else (code, n')

-- A writable copy becomes read-only.
unfoldable pub make_read_only : Env → PageNode → (page : ℕ) → PageEntry → Status × PageNode
make_read_only env n page e =
    let (code, n') = set_page_permission env.protects n e.local_addr perm_read in
    if is_success code then (success, at_page page (with_state read_only) n') else (code, n')

-- After the reply to a reader.
unfoldable pub downgrade : Env → PageNode → (page : ℕ) → PageEntry → Status × PageNode
downgrade env n page e = elim e.state [
  | read_write ↦ make_read_only env n page e
  | read_only ↦ (success, n)
  | invalid ↦ (success, n)
]

-- The reader joins the directory here, and a failure of that is only logged.
unfoldable pub track_reader : Env → Letter → PageNode → (page requester : ℕ) → Served
track_reader env letter n page requester = elim n.directory [
  | none ↦ record { status = success; letters = letter ∷ []; sync = none; after = n }
  | some d ↦
      let o = directory_add_reader n.role env.alloc d page requester in
      record {
        status = success;
        letters = letter ∷ [];
        sync = o.sync;
        after = record n { directory = some o.after };
      }
]

abbrev pub reply_for : PageNode → (page : ℕ) → AccessType → ℕ → PageEntry → Letter
reply_for n page access requester e =
    send_page_reply n requester page access (n.memory e.local_addr)

-- The page is here and valid.
unfoldable pub request_served : Env → PageNode → (page : ℕ) → AccessType → ℕ → PageEntry → Served
request_served env n page write requester e =
    let letter = reply_for n page write requester e in
    if not (is_success env.send_code)
    then posted env letter n
    else let (code, n') = give_up env (one_sent n) page e requester in
      record { status = code; letters = letter ∷ []; sync = none; after = n' }
request_served env n page read requester e =
    let letter = reply_for n page read requester e in
    if not (is_success env.send_code)
    then posted env letter n
    else let (code, n') = downgrade env (one_sent n) page e in
      if is_success code
      then track_reader env letter n' page requester
      else record { status = code; letters = letter ∷ []; sync = none; after = n' }

unfoldable pub handle_page_request : Env → PageNode → (page : ℕ) → AccessType → ℕ → Served
handle_page_request env n page access requester =
    if not (has_tables n) then silent init_error n else elim (find_page n.page_tables page) [
      | none ↦ request_unknown env n page access requester
      | some e ↦ elim e.state [
        | invalid ↦ request_invalid env n page access requester
        | read_only ↦ request_served env n page access requester e
        | read_write ↦ request_served env n page access requester e
      ]
    ]
