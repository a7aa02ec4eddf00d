-- ===== src/Migration/Fetch.antt =====
-- src/consistency/page_migration.c: what the fetches for reading and for writing share.
use mathlib.Core.Option
use user_level_dsm.Prelude.{
  ℕ, Bool, Option, List, false, true, ◌+◌, ◌-◌, ltb, if◌then◌else◌, not, none, some, suc, ◌||◌,
  ◌&&◌, ◌==◌, ◌∷◌, [], zero, replicate,
}
use user_level_dsm.Types.{
  Status, AccessType, PagePerm, PageState, success, timeout_error, init_error, is_success,
  max_nodes, no_node, not_found, page_size,
}
use user_level_dsm.Migration.{Fetcher, transmit, letter, FetchWake, await}
use user_level_dsm.Coherence.{
  Env, find_page, at_page, slot_of, has_tables, set_page_permission, state_of,
}
use user_level_dsm.PageTable.{PageEntry}
use user_level_dsm.Coherence.Request.{send_page_request}
use user_level_dsm.Directory.{directory_reclaim_ownership}
use user_level_dsm.Coherence.Reply.{copy_page}

-- A round of `wait_for_manager_reconnection`: the clock is past the limit, or what the round sees.
pub data Poll : Type 0 where
  too_late : Poll
  in_time : Fetcher → Poll

-- The manager has failed, as this node sees it.
abbrev pub manager_failed : Fetcher → Bool
manager_failed n = (slot_of n.host 0).is_failed

abbrev pub has_promoted : Fetcher → Bool
has_promoted n = not (n.current_manager == 0) && not (n.current_manager == no_node)

unfoldable pub wait_for_manager_reconnection : Fetcher → List Poll → Option (Status × Fetcher)
wait_for_manager_reconnection n [] = none
wait_for_manager_reconnection n (too_late ∷ ps) = some (timeout_error, n)
wait_for_manager_reconnection n (in_time m ∷ ps) =
    let rest = wait_for_manager_reconnection m ps in
    if not (manager_failed m) || has_promoted m then some (success, m) else rest

-- What one attempt meets: the code and the wake-ups of the query, the rounds of a wait for a new
-- manager, the wake-ups of a thread that is queued, the answers of the operating system and of
-- `network_send` to the request for the page, and the wake-ups of the wait for the page. For a write
-- also the code and the wake-ups of the query of sharers, the codes of the invalidations by node,
-- the wake-ups of the wait for their acknowledgements, and the code of the owner update.
pub record Attempt : Type 0 where
  pub query_code : Status
  pub query_wakes : List FetchWake
  pub polls : List Poll
  pub queued_wakes : List FetchWake
  pub env : Env
  pub page_wakes : List FetchWake
  pub sharer_code : Status
  pub sharer_wakes : List FetchWake
  pub invalidate_codes : ℕ → Status
  pub ack_wakes : List FetchWake
  pub update_code : Status

-- How an attempt ends: the fetch is over with a code, or goes on to the next attempt.
pub data Ending : Type 0 where
  done : Status → Fetcher → Ending
  retry : Fetcher → Ending

abbrev pub at_entry : ℕ → (PageEntry → PageEntry) → Fetcher → Fetcher
at_entry page f n = record n { host = at_page page f n.host }

-- The entry that the pointer reads; `e` is the one that it was taken from.
abbrev pub entry_now : Fetcher → (page : ℕ) → PageEntry → PageEntry
entry_now n page e = elim (find_page n.host.page_tables page) [ some x ↦ x | none ↦ e ]

abbrev pub is_arrived : (page : ℕ) → PageEntry → Fetcher → Bool
is_arrived page e n = not (entry_now n page e).request_pending

abbrev pub is_timeout : Status → Bool
is_timeout timeout_error = true
is_timeout _ = false

-- The query has failed: only a failed manager is waited for.
unfoldable pub lookup_failed : Fetcher → Status → List Poll → Option Ending
lookup_failed n code polls =
    if is_timeout code && manager_failed n
    then elim (wait_for_manager_reconnection n polls) [
      | none ↦ none
      | some (rc, m) ↦ if is_success rc then some (retry m) else some (done timeout_error m)
    ]
    else some (done code n)

abbrev pub one_waiter : PageEntry → PageEntry
one_waiter x = record x { num_waiting_threads = x.num_waiting_threads + 1 }

abbrev pub less_waiter : PageEntry → PageEntry
less_waiter x = record x { num_waiting_threads = x.num_waiting_threads - 1 }

-- The thread that is queued goes by the result of the thread that fetches.
unfoldable pub leave_queue : (page : ℕ) → PageEntry → Bool × Fetcher → Ending
leave_queue page e (false, m) = done timeout_error (at_entry page less_waiter m)
leave_queue page e (true, m) =
    if is_success (entry_now m page e).fetch_result
    then done success (at_entry page less_waiter m)
    else retry (at_entry page less_waiter m)

unfoldable pub wait_in_queue : Fetcher → (page : ℕ) → PageEntry → List FetchWake → Option Ending
wait_in_queue n page e wakes =
    Option.map (leave_queue page e) (await (is_arrived page e) (at_entry page one_waiter n) wakes)

abbrev pub pending : PageEntry → PageEntry
pending x = record x { request_pending = true }

-- The result of the fetch, for those who wait.
abbrev pub with_result : Status → PageEntry → PageEntry
with_result code x = record x { fetch_result = code; request_pending = false }

-- A request is sent, with the code that `network_send` answers.
abbrev pub request_page : Env → (owner page : ℕ) → AccessType → Fetcher → Fetcher
request_page env owner page access n =
    transmit env.send_code (letter (send_page_request n.host owner page access)) n

abbrev pub owner_failed : Fetcher → (owner : ℕ) → Bool
owner_failed n owner = ltb owner max_nodes && (slot_of n.host owner).is_failed

abbrev pub recovered : (node : ℕ) → PageState → PageEntry → PageEntry
recovered node s x = record (with_result success x) { state = s; owner = node }

-- The node takes over a page of a failed owner, with zeros for its bytes.
unfoldable pub recover_page : Env → (page : ℕ) → PageEntry → PagePerm → Fetcher → Ending
recover_page env page e perm n =
    let d =
      Option.map (λ d. (directory_reclaim_ownership env.alloc d page n.host.node_id).after)
        n.host.directory in
    let zeroed = copy_page e.local_addr (replicate page_size 0) (record n.host { directory = d }) in
    let (rc, host) = set_page_permission env.protects zeroed e.local_addr perm in
    let m : Fetcher = record n { host = host } in
    if is_success rc
    then done success (at_entry page (recovered n.host.node_id (state_of perm)) m)
    else done rc (at_entry page (with_result rc) m)

-- The wait for the page has timed out.
unfoldable pub page_timed_out : Env → (owner page : ℕ) → PageEntry → PagePerm → Fetcher → Ending
page_timed_out env owner page e perm n =
    if owner_failed n owner
    then recover_page env page e perm n
    else retry (at_entry page (with_result timeout_error) n)

-- `while (retries < MAX_RETRIES)` over an attempt.
unfoldable pub retry_loop :
    (Attempt → Fetcher → Option Ending)
    → (left : ℕ) → List Attempt
    → Fetcher
    → Option (Status × Fetcher)
retry_loop attempt zero ss n = some (timeout_error, n)
retry_loop attempt (suc left) [] n = none
retry_loop attempt (suc left) (s ∷ ss) n = elim (attempt s n) [
  | none ↦ none
  | some (done code m) ↦ some (code, m)
  | some (retry m) ↦ retry_loop attempt left ss m
]

abbrev pub max_retries : ℕ
max_retries = 3

-- The guards of both functions, and the search for the page.
unfoldable pub fetch_page :
    (PageEntry → Attempt → Fetcher → Option Ending)
    → (page : ℕ) → List Attempt
    → Fetcher
    → Option (Status × Fetcher)
fetch_page attempt page ss n = elim n.host.directory [
  | none ↦ some (init_error, n)
  | some d ↦
      if not (has_tables n.host)
      then some (init_error, n)
      else elim (find_page n.host.page_tables page) [
        | none ↦ some (not_found, n)
        | some e ↦ retry_loop (attempt e) max_retries ss n
      ]
]
