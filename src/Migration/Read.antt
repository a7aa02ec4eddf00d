-- ===== src/Migration/Read.antt =====
-- src/consistency/page_migration.c: `fetch_page_read`.
use mathlib.Core.Option
use user_level_dsm.Prelude.{
  ℕ, Bool, List, false, ◌+◌, true, none, Option, if◌then◌else◌, some, ◌==◌,
}
use user_level_dsm.Migration.Fetch.{
  Attempt, page_timed_out, request_page, fetch_page, done, lookup_failed, at_entry, entry_now,
  retry, pending, wait_in_queue, Ending, is_arrived, with_result,
}
use user_level_dsm.Types.{
  Status, success, perm_read, read, is_success, invalid_argument, busy, read_only,
}
use user_level_dsm.Migration.{Fetcher, await}
use user_level_dsm.Coherence.{Env, set_page_permission, with_state}
use user_level_dsm.Directory.{directory_add_reader}
use user_level_dsm.PageTable.{PageEntry}
use user_level_dsm.Migration.Queries.{query_directory_manager, with_directory}

-- The page has come: the node joins the readers in its directory. A full entry is no error.
abbrev pub is_fatal : Status → Bool
is_fatal success = false
is_fatal busy = false
is_fatal _ = true

abbrev pub fetched : Fetcher → Fetcher
fetched n = record n { pages_fetched = n.pages_fetched + 1 }

unfoldable pub join_readers : (alloc : Bool) → (page : ℕ) → Fetcher → Ending
join_readers alloc page n = elim n.host.directory [
  | none ↦ done invalid_argument n
  | some d ↦
      let o = directory_add_reader n.host.role alloc d page n.host.node_id in
      let m = with_directory o.after n in
      if is_fatal o.status
      then done o.status m
      else done success (fetched (at_entry page (with_state read_only) m))
]

-- The end of the wait for the page.
unfoldable pub read_answer : Attempt → (owner page : ℕ) → PageEntry → Bool × Fetcher → Ending
read_answer s owner page e (false, m) = page_timed_out s.env owner page e perm_read m
read_answer s owner page e (true, m) =
    if is_success (entry_now m page e).fetch_result
    then join_readers s.env.alloc page m
    else retry m

-- This thread fetches the page.
unfoldable pub request_read : Attempt → (owner page : ℕ) → PageEntry → Fetcher → Option Ending
request_read s owner page e n =
    let m = request_page s.env owner page read (at_entry page pending n) in
    if is_success s.env.send_code
    then Option.map (read_answer s owner page e) (await (is_arrived page e) m s.page_wakes)
    else some (retry (at_entry page (with_result s.env.send_code) m))

-- The owner here only wants the permission.
unfoldable pub read_own : Env → (page : ℕ) → PageEntry → Fetcher → Ending
read_own env page e n =
    let (rc, host) = set_page_permission env.protects n.host e.local_addr perm_read in
    let m : Fetcher = record n { host = host } in
    if is_success rc then done success (at_entry page (with_state read_only) m) else done rc m

unfoldable pub read_from : Attempt → (owner page : ℕ) → PageEntry → Fetcher → Option Ending
read_from s owner page e n =
    if owner == n.host.node_id
    then some (read_own s.env page e n)
    else if (entry_now n page e).request_pending
    then wait_in_queue n page e s.queued_wakes
    else request_read s owner page e n

unfoldable pub read_attempt : (page : ℕ) → PageEntry → Attempt → Fetcher → Option Ending
read_attempt page e s n =
    elim (query_directory_manager s.env.alloc s.query_code n page s.query_wakes) [
      | none ↦ none
      | some (code, owner, m) ↦
          if is_success code then read_from s owner page e m else lookup_failed m code s.polls
    ]

unfoldable pub fetch_page_read : (page : ℕ) → List Attempt → Fetcher → Option (Status × Fetcher)
fetch_page_read page = fetch_page (read_attempt page) page
