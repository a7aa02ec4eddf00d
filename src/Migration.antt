-- ===== src/Migration.antt =====
-- src/consistency/page_migration.c, and the queries of the directory and of sharers in
-- src/network/handlers.c and src/consistency/directory.c: how a node fetches a page.
-- Between two waits a function runs as one step. A wait is driven by the list of its wake-ups, each
-- with the node as the other threads have left it, and has no result where the list ends first. The
-- pointer to the entry of a page is the first entry with its page ID. The pauses, the logs and the
-- references on a table are left out. The recovery of a page writes zeros before it sets the
-- permission; the model takes the write as done. What the directory replicates is left out here.
pub mod Queries
pub mod Fetch
pub mod Read
pub mod Write
pub mod Ends
pub mod Attempts
pub mod Doomed
pub mod Answers
pub mod Known
pub mod Claims
pub mod Skipped
pub mod Tests
use user_level_dsm.Prelude.{Bool, ℕ, if◌then◌else◌, List, Option, ◌∷◌, some, true, none, false, []}
use user_level_dsm.Types.{Status, is_success}
use user_level_dsm.Coherence.{Letter, PageNode}

-- `dir_query_tracker_t`
pub record DirTracker : Type 0 where
  pub page : ℕ
  pub owner : ℕ
  pub active : Bool
  pub complete : Bool

-- `sharer_tracker`; the list holds `sharers[0 .. num_sharers)`.
pub record SharerTracker : Type 0 where
  pub page : ℕ
  pub sharers : List ℕ
  pub active : Bool
  pub complete : Bool

-- The messages of these functions; a letter of the pages goes with its own target.
pub data FetchMessage : Type 0 where
  letter : Letter → FetchMessage
  dir_query : (target page requester : ℕ) → FetchMessage
  dir_reply : (target page owner : ℕ) → FetchMessage
  sharer_query : (target page requester : ℕ) → FetchMessage
  sharer_reply : (target page : ℕ) → List ℕ → FetchMessage
  owner_update : (target page new_owner : ℕ) → FetchMessage

-- What these functions read and write of the global context, and the messages that `network_send`
-- has accepted, the last one first.
pub record Fetcher : Type 0 where
  pub host : PageNode
  pub current_manager : ℕ
  pub dir_tracker : DirTracker
  pub sharer_tracker : SharerTracker
  pub pages_fetched : ℕ
  pub invalidations_sent : ℕ
  pub sent : List FetchMessage

-- The end of a round of a wait, with the node as it then is.
pub data FetchWake : Type 0 where
  woken : Fetcher → FetchWake
  timed_out : Fetcher → FetchWake

-- `while (!done) pthread_cond_timedwait(...)`: whether the wait ends without a time-out.
unfoldable pub await : (Fetcher → Bool) → Fetcher → List FetchWake → Option (Bool × Fetcher)
await done n [] = if done n then some (true, n) else none
await done n (woken m ∷ ws) = let rest = await done m ws in if done n then some (true, n) else rest
await done n (timed_out m ∷ ws) = if done n then some (true, n) else some (false, m)

-- A message that `network_send` answers with a code.
abbrev pub transmit : Status → FetchMessage → Fetcher → Fetcher
transmit code m n = if is_success code then record n { sent = m ∷ n.sent } else n
