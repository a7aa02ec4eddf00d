-- ===== src/Migration/Tests.antt =====
-- src/consistency/page_migration.c: each theorem on the fetches of a page at one input.
use user_level_dsm.Migration.{timed_out, woken, Fetcher, dir_reply}
use user_level_dsm.PageTable.Lookup.{IsTable, id_inside}
use user_level_dsm.Directory.{
  Directory, Entry, directory_create, find_entry, directory_set_writer, entry_of,
}
use user_level_dsm.Prelude.{
  Bool, List, false, ℕ, arith, [], true, ◌∷◌, refl, ◌≡◌, some, ◌&&◌, not, ◌==◌,
}
use user_level_dsm.Migration.Doomed.{is_told, is_reached, writer_tells}
use user_level_dsm.Coherence.{NodeSlot, find_page}
use user_level_dsm.Migration.Known.{Serves}
use user_level_dsm.Directory.Refine.{spec_run, spec_step, run_refines}
use user_level_dsm.PageTable.{PageEntry, PageTable}
use user_level_dsm.Types.{Status, Role, invalid, network_error, success, perm_none}
use user_level_dsm.Migration.Ends.{IsBounded}
use user_level_dsm.Directory.Valid.{IsValid}
use user_level_dsm.Migration.Write.{invalidate_all, fetch_page_write}
use user_level_dsm.Migration.Fetch.{Attempt, too_late}
use user_level_dsm.Directory.History.{history-IsValid, Call, run, set_writer}
use user_level_dsm.Migration.Queries.{
  handle_dir_query, handle_dir_reply, query_directory_manager, asked,
}
use user_level_dsm.Coherence.Spaces.{found_at}
use user_level_dsm.Migration.Skipped.{SameBytes, retry_skips_fetch}
use user_level_dsm.Directory.Invalidate.{holds_copy}
use user_level_dsm.Migration.Answers.{query_answered, querying}

-- Page 7 is in the one table of a manager, node 0, and belongs to node 2.
abbrev entry : PageEntry
entry = record {
  id = 7;
  local_addr = 65536;
  owner = 2;
  state = invalid;
  version = 0;
  is_allocated = true;
  request_pending = false;
  num_waiting_threads = 0;
  fetch_result = success;
  pending_inv_acks = 0;
}

abbrev table : PageTable
table = record {
  base_addr = 65536;
  total_size = 4096;
  num_pages = 1;
  start_page_id = 7;
  entries = entry ∷ [];
  refcount = 1;
}

table-IsTable : IsTable table
table-IsTable = record {
  filled = refl;
  numbered = ((refl, refl), tt);
  spans = omega arith;
  based = omega arith;
  addresses = omega arith;
  ids = omega arith;
}

finds_entry : find_page (table ∷ []) 7 ≡ some entry
finds_entry = found_at table [] 7 0 (id_inside table 0 table-IsTable (omega arith))

abbrev role_of : (manages : Bool) → Role
role_of manages = record { is_manager = manages; is_promoted = false }

abbrev calls : List Call
calls = set_writer true 7 2 ∷ []

abbrev directory : Directory
directory = run (role_of true) (directory_create 4) calls

directory-IsValid : IsValid directory
directory-IsValid = history-IsValid (role_of true) 4 calls (omega arith)

abbrev recorded : Entry
recorded = record { page_id = 7; owner = 2; sharers = []; is_valid = true }

finds_recorded : find_entry directory 7 ≡ some recorded
unfolding spec_run spec_step
finds_recorded = run_refines (role_of true) 4 calls 7 (omega arith)

abbrev slot : NodeSlot
slot = record { connected = true; is_failed = false }

abbrev pub node_with : (manages : Bool) → (id : ℕ) → Fetcher
node_with manages id = record {
  host = record {
    initialized = true;
    role = role_of manages;
    node_id = id;
    page_tables = table ∷ [];
    directory = some directory;
    nodes = slot ∷ slot ∷ slot ∷ [];
    memory = λ a. [];
    perms = λ a. perm_none;
    pages_sent = 0;
    invalidations_received = 0;
  };
  current_manager = 0;
  dir_tracker = record { page = 0; owner = 0; active = false; complete = false };
  sharer_tracker = record { page = 0; sharers = []; active = false; complete = false };
  pages_fetched = 0;
  invalidations_sent = 0;
  sent = [];
}

manager-Serves : Serves (node_with true 0) 7 2 entry
manager-Serves = record {
  manager = refl;
  up = refl;
  directory = directory;
  known = refl;
  valid = directory-IsValid;
  entry = recorded;
  found = finds_recorded;
  owned = refl;
  unread = refl;
  space = (table-IsTable, refl, tt, tt);
  here = finds_entry;
}

-- An attempt whose waits all time out.
abbrev pub attempt_with : Status → Attempt
attempt_with code = record {
  query_code = code;
  query_wakes = timed_out (node_with true 0) ∷ [];
  polls = too_late ∷ [];
  queued_wakes = timed_out (node_with true 0) ∷ [];
  env = record { send_code = code; protects = true; protects_again = true; alloc = true };
  page_wakes = timed_out (node_with true 0) ∷ [];
  sharer_code = code;
  sharer_wakes = timed_out (node_with true 0) ∷ [];
  invalidate_codes = λ node. code;
  ack_wakes = timed_out (node_with true 0) ∷ [];
  update_code = code;
}

pub attempt_with-IsBounded : (code : Status) → IsBounded (attempt_with code)
attempt_with-IsBounded code = record {
  query = refl;
  polled = refl;
  queued = refl;
  page = refl;
  sharers = refl;
  acks = refl;
}

abbrev pub attempts : List Attempt
attempts = attempt_with network_error ∷ attempt_with success ∷ attempt_with success ∷ []

retry_skips_fetch_example :
    (m : Fetcher) × (fetch_page_write 7 attempts (node_with true 0) ≡ some (success, m))
    × SameBytes (node_with true 0) m
retry_skips_fetch_example =
    retry_skips_fetch 7 2 (attempt_with network_error) (attempt_with success)
      (attempt_with success ∷ []) (node_with true 0) entry manager-Serves refl (omega arith)
      (omega arith) refl refl refl refl refl refl

writer_tells_example :
    is_told 7 2
      (invalidate_all
        (λ node. success)
        7
        (directory_set_writer (role_of false) true directory 7 1).1
        (node_with false 1)).sent
    ≡ ((holds_copy (entry_of directory 7) 2 && not (2 == 1))
        && is_reached (λ node. success) (node_with false 1) 2)
writer_tells_example =
    writer_tells (λ node. success) 7 directory (node_with false 1) 2 directory-IsValid refl

query_answered_example :
    let w = node_with false 1 in
    let m = node_with true 0 in
    ((handle_dir_query (attempt_with success).env m 7 1).1.sent
      ≡ dir_reply 1 7 (entry_of directory 7).owner ∷ [])
    × (let bothered = (handle_dir_reply (querying w 7) 8 5).1 in
        let answered = (handle_dir_reply bothered 7 (entry_of directory 7).owner).1 in
        query_directory_manager true success w 7 (woken bothered ∷ woken answered ∷ [])
        ≡ some (success, (entry_of directory 7).owner, asked answered))
query_answered_example =
    query_answered (attempt_with success).env (node_with false 1) (node_with true 0) 7 8 5 true
      directory [] refl refl refl directory-IsValid refl (omega arith)
