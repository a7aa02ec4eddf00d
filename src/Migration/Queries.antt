-- ===== src/Migration/Queries.antt =====
-- src/network/handlers.c and src/consistency/directory.c: who owns a page, and who reads it.
use mathlib.Core.Option
use user_level_dsm.Prelude.{
  Bool, ℕ, some, List, if◌then◌else◌, none, true, false, ◌==◌, [], ◌&&◌, Option, take, ◌||◌,
}
use user_level_dsm.Coherence.{Env, backup_up}
use user_level_dsm.Migration.{
  FetchWake, Fetcher, sharer_query, dir_reply, dir_query, owner_update, sharer_reply, transmit,
  await,
}
use user_level_dsm.Types.{Status, success, timeout_error, invalid_argument, no_node, is_success}
use user_level_dsm.Directory.{
  Directory, directory_set_owner, directory_lookup, max_sharers, directory_get_sharers,
}

unfoldable pub send_dir_query : Status → Fetcher → (manager page : ℕ) → Fetcher
send_dir_query code n manager page = transmit code (dir_query manager page n.host.node_id) n

unfoldable pub send_dir_reply : Status → Fetcher → (requester page owner : ℕ) → Fetcher
send_dir_reply code n requester page owner = transmit code (dir_reply requester page owner) n

unfoldable pub send_owner_update : Status → Fetcher → (manager page new_owner : ℕ) → Fetcher
send_owner_update code n manager page new_owner =
    transmit code (owner_update manager page new_owner) n

unfoldable pub send_sharer_query : Status → Fetcher → (owner page : ℕ) → Fetcher
send_sharer_query code n owner page = transmit code (sharer_query owner page n.host.node_id) n

abbrev pub with_directory : Directory → Fetcher → Fetcher
with_directory d n = record n { host = record n.host { directory = some d } }

-- `directory_lookup` with the directory of the node: the code, the owner, 0 where it is not written,
-- and the node.
unfoldable pub lookup_here : (alloc : Bool) → Fetcher → (page : ℕ) → Status × ℕ × Fetcher
lookup_here alloc n page = elim n.host.directory [
  | none ↦ (invalid_argument, 0, n)
  | some d ↦
      let (code, found, d') = directory_lookup alloc d page in
      (code, elim found [ some owner ↦ owner | none ↦ 0 ], with_directory d' n)
]

-- The code is that of the answer's `network_send`.
unfoldable pub handle_dir_query : Env → Fetcher → (page requester : ℕ) → Status × Fetcher
handle_dir_query env n page requester =
    let (code, owner, n') = lookup_here env.alloc n page in
    (env.send_code, send_dir_reply env.send_code n' requester page owner)

unfoldable pub handle_dir_reply : Fetcher → (page owner : ℕ) → Status × Fetcher
handle_dir_reply n page owner =
    if n.dir_tracker.active && n.dir_tracker.page == page
    then (
      success,
      record n { dir_tracker = record n.dir_tracker { owner = owner; complete = true } },
    )
    else (success, n)

unfoldable pub handle_owner_update : Env → Fetcher → (page new_owner : ℕ) → Status × Fetcher
handle_owner_update env n page new_owner = elim n.host.directory [
  | none ↦ (success, n)
  | some d ↦ (
    success,
    with_directory
        (directory_set_owner n.host.role (backup_up n.host) env.alloc d page new_owner).after n,
  )
]

unfoldable pub handle_sharer_query : Status → Fetcher → (page requester : ℕ) → Status × Fetcher
handle_sharer_query code n page requester =
    let readers : List ℕ = elim n.host.directory [
      | none ↦ []
      | some d ↦ take max_sharers (directory_get_sharers d page).1
    ] in
    (code, transmit code (sharer_reply requester page readers) n)

unfoldable pub handle_sharer_reply : Fetcher → (page : ℕ) → List ℕ → Status × Fetcher
handle_sharer_reply n page readers =
    if n.sharer_tracker.active && n.sharer_tracker.page == page
    then (
      success,
      record n { sharer_tracker = record n.sharer_tracker { sharers = readers; complete = true } },
    )
    else (success, n)

-- The manager to ask: node 0, or the backup that has been promoted.
abbrev pub manager_of : Fetcher → ℕ
manager_of n = if n.current_manager == no_node then 0 else n.current_manager

abbrev pub asking : (page : ℕ) → Fetcher → Fetcher
asking page n = record n {
  dir_tracker = record n.dir_tracker { page = page; active = true; complete = false };
}

abbrev pub asked : Fetcher → Fetcher
asked n = record n { dir_tracker = record n.dir_tracker { active = false } }

abbrev pub is_answered : Fetcher → Bool
is_answered n = n.dir_tracker.complete

-- The end of the wait for the reply.
unfoldable pub take_reply : Bool × Fetcher → Status × ℕ × Fetcher
take_reply (true, n) = (success, n.dir_tracker.owner, asked n)
take_reply (false, n) = (timeout_error, 0, asked n)

-- `code` is what `network_send` answers to the query.
unfoldable pub query_directory_manager :
    (alloc : Bool)
    → (code : Status) → Fetcher
    → (page : ℕ) → List FetchWake
    → Option (Status × ℕ × Fetcher)
query_directory_manager alloc code n page wakes =
    if n.host.role.is_manager || n.host.role.is_promoted
    then some (lookup_here alloc n page)
    else let n' = send_dir_query code (asking page n) (manager_of n) page in
      if is_success code
      then Option.map take_reply (await is_answered n' wakes)
      else some (code, 0, asked n')
