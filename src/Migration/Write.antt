-- ===== src/Migration/Write.antt =====
-- src/consistency/page_migration.c: `fetch_page_write`.
use mathlib.Core.Option
use user_level_dsm.Prelude.{
  ℕ, Bool, ◌-◌, ◌+◌, if◌then◌else◌, List, false, [], none, Option, ◌∷◌, true, take, ◌==◌, some, not,
  contains, ◌&&◌, length, ltb, ◌++◌,
}
use user_level_dsm.Types.{
  Status, read_write, perm_read_write, is_success, invalid_argument, write, success,
}
use user_level_dsm.Migration.{Fetcher, transmit, letter, FetchWake, await}
use user_level_dsm.PageTable.{PageEntry}
use user_level_dsm.Migration.Fetch.{
  Attempt, owner_failed, entry_now, page_timed_out, at_entry, fetch_page, request_page, done,
  wait_in_queue, with_result, pending, lookup_failed, retry, Ending, is_arrived,
}
use user_level_dsm.Directory.{max_sharers, directory_clear_sharers, directory_set_writer}
use user_level_dsm.Coherence.{set_page_permission}
use user_level_dsm.Migration.Queries.{
  query_directory_manager, with_directory, send_sharer_query, manager_of, send_owner_update,
}
use user_level_dsm.Migration.Read.{fetched}
use user_level_dsm.Coherence.Invalidation.{send_invalidate}

abbrev pub asking_sharers : (page : ℕ) → Fetcher → Fetcher
asking_sharers page n = record n {
  sharer_tracker = record { page = page; sharers = []; active = true; complete = false };
}

abbrev pub asked_sharers : Fetcher → Fetcher
asked_sharers n = record n { sharer_tracker = record n.sharer_tracker { active = false } }

abbrev pub has_sharers : Fetcher → Bool
has_sharers n = n.sharer_tracker.complete

-- The sharers that the owner has answered, if it has, and the owner itself.
unfoldable pub known_holders : (owner : ℕ) → Fetcher → List ℕ
known_holders owner n =
    let readers = if has_sharers n then take max_sharers n.sharer_tracker.sharers else [] in
    if not (contains readers owner) && ltb (length readers) max_sharers
    then readers ++ owner ∷ []
    else readers

-- The query of sharers goes to another node only, and goes on after a time-out.
unfoldable pub collect_sharers : Attempt → (owner page : ℕ) → Fetcher → Option (List ℕ × Fetcher)
collect_sharers s owner page n =
    if owner == n.host.node_id
    then some ([], n)
    else let m = send_sharer_query s.sharer_code (asking_sharers page n) owner page in
      if is_success s.sharer_code
      then Option.map (λ (r : Bool × Fetcher). (known_holders owner r.1, asked_sharers r.1))
          (await has_sharers m s.sharer_wakes)
      else some (known_holders owner m, asked_sharers m)

abbrev pub expects_acks : ℕ → PageEntry → PageEntry
expects_acks k x = record x { pending_inv_acks = k }

abbrev pub one_less_ack : PageEntry → PageEntry
one_less_ack x = record x { pending_inv_acks = x.pending_inv_acks - 1 }

abbrev pub one_invalidated : Fetcher → Fetcher
one_invalidated n = record n { invalidations_sent = n.invalidations_sent + 1 }

-- One round of the loop: a failed node, or one to which the message cannot be sent, is not waited
-- for.
unfoldable pub invalidate_one : (ℕ → Status) → (page target : ℕ) → Fetcher → Fetcher
invalidate_one codes page target n =
    if owner_failed n target
    then at_entry page one_less_ack n
    else let m = transmit (codes target) (letter (send_invalidate n.host target page)) n in
      if is_success (codes target) then one_invalidated m else at_entry page one_less_ack m

unfoldable pub invalidate_all : (ℕ → Status) → (page : ℕ) → List ℕ → Fetcher → Fetcher
invalidate_all codes page [] n = n
invalidate_all codes page (t ∷ ts) n = invalidate_all codes page ts (invalidate_one codes page t n)

abbrev pub is_acked : (page : ℕ) → PageEntry → Fetcher → Bool
is_acked page e n = (entry_now n page e).pending_inv_acks == 0

-- After a time-out the acknowledgements are no longer waited for.
unfoldable pub stop_acks : (page : ℕ) → Bool × Fetcher → Fetcher
stop_acks page (true, m) = m
stop_acks page (false, m) = at_entry page (expects_acks 0) m

unfoldable pub await_invalid :
    (page : ℕ) → PageEntry → List ℕ → List FetchWake → Fetcher → Option Fetcher
await_invalid page e [] wakes n = some n
await_invalid page e (t ∷ ts) wakes n =
    Option.map (stop_acks page) (await (is_acked page e) n wakes)

abbrev pub cleared : (page : ℕ) → Fetcher → Fetcher
cleared page n = elim n.host.directory [
  | none ↦ n
  | some d ↦ with_directory (directory_clear_sharers n.host.role d page).after n
]

abbrev pub writable_by : ℕ → PageEntry → PageEntry
writable_by node x = record x { state = read_write; owner = node }

-- The end of a fetch that succeeds: the manager is told of the new owner.
unfoldable pub conclude : (update_code : Status) → (page : ℕ) → Fetcher → Ending
conclude update_code page n =
    let me = n.host.node_id in
    let m = at_entry page (writable_by me) n in
    if not (me == manager_of n) && not n.host.role.is_manager
    then done success (send_owner_update update_code m (manager_of n) page me)
    else done success m

-- The end of the wait for the page.
unfoldable pub write_answer : Attempt → (owner page : ℕ) → PageEntry → Bool × Fetcher → Ending
write_answer s owner page e (false, m) = page_timed_out s.env owner page e perm_read_write m
write_answer s owner page e (true, m) =
    if is_success (entry_now m page e).fetch_result
    then conclude s.update_code page (fetched m)
    else retry m

unfoldable pub write_own : Attempt → (page : ℕ) → PageEntry → Fetcher → Ending
write_own s page e n =
    let (rc, host) = set_page_permission s.env.protects n.host e.local_addr perm_read_write in
    let m = at_entry page (with_result rc) (record n { host = host }) in
    if is_success rc then conclude s.update_code page m else done rc m

-- All copies are invalid; the page itself comes from its old owner.
unfoldable pub obtain_page : Attempt → (owner page : ℕ) → PageEntry → Fetcher → Option Ending
obtain_page s owner page e n =
    if owner == n.host.node_id
    then some (write_own s page e n)
    else let m = request_page s.env owner page write n in
      if is_success s.env.send_code
      then Option.map (write_answer s owner page e) (await (is_arrived page e) m s.page_wakes)
      else some (retry (at_entry page (with_result s.env.send_code) m))

-- The list of the nodes to invalidate is filled anew by `directory_set_writer`, over the nodes that
-- have been collected.
unfoldable pub claim_page :
    Attempt → (owner page : ℕ) → PageEntry → (known : List ℕ) → Fetcher → Option Ending
claim_page s owner page e known n = elim n.host.directory [
  | none ↦ some (done invalid_argument (at_entry page (with_result invalid_argument) n))
  | some d ↦
      let (o, targets) = directory_set_writer n.host.role s.env.alloc d page n.host.node_id in
      let m = with_directory o.after n in
      if is_success o.status
      then elim (await_invalid page e targets s.ack_wakes (
          invalidate_all s.invalidate_codes page targets
            (at_entry page (expects_acks (length targets)) m))) [
              | none ↦ none
              | some m' ↦ obtain_page s owner page e (cleared page m')
            ]
      else some (done o.status (at_entry page (with_result o.status) m))
]

unfoldable pub write_from : Attempt → (owner page : ℕ) → PageEntry → Fetcher → Option Ending
write_from s owner page e n =
    if (entry_now n page e).request_pending
    then wait_in_queue n page e s.queued_wakes
    else elim (collect_sharers s owner page (at_entry page pending n)) [
      | none ↦ none
      | some (known, m) ↦ claim_page s owner page e known m
    ]

unfoldable pub write_attempt : (page : ℕ) → PageEntry → Attempt → Fetcher → Option Ending
write_attempt page e s n =
    elim (query_directory_manager s.env.alloc s.query_code n page s.query_wakes) [
      | none ↦ none
      | some (code, owner, m) ↦
          if is_success code then write_from s owner page e m else lookup_failed m code s.polls
    ]

unfoldable pub fetch_page_write : (page : ℕ) → List Attempt → Fetcher → Option (Status × Fetcher)
fetch_page_write page = fetch_page (write_attempt page) page
