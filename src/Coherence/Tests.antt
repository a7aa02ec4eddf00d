-- ===== src/Coherence/Tests.antt =====
-- src/network/handlers.c: each theorem on the messages of pages at one input.
use user_level_dsm.Prelude.{
  ℕ, refl, List, Bool, ◌∷◌, ◌≢◌, false, ◌≡◌, true, some, contains, [], arith, if◌then◌else◌, ◌==◌,
}
use user_level_dsm.Coherence.{
  PageNode, Env, NodeSlot, Payload, page_request, find_page, page_error, posted, page_reply,
}
use user_level_dsm.Types.{
  PageState, Role, read_write, read_only, success, invalid, read, write, perm_none,
  invalid_argument, perm_read_write,
}
use user_level_dsm.Coherence.Handover.{
  Relays, write_reply, relayed, write_handover, relayed_handover,
}
use user_level_dsm.Directory.{
  Directory, Entry, entry_of, find_entry, directory_create, directory_set_writer,
}
use user_level_dsm.Coherence.Transfer.{dispatch_message, calm, Hosts, Holds}
use user_level_dsm.Coherence.Stale.{NoReply, invalidated_owner_refuses, code_outlives_reply}
use user_level_dsm.Coherence.Invalidation.{handle_invalidate}
use user_level_dsm.Directory.Refine.{spec_run, spec_step, run_refines}
use user_level_dsm.Directory.Valid.{IsValid}
use user_level_dsm.Coherence.Request.{handle_page_request, send_page_request}
use user_level_dsm.PageTable.Lookup.{IsTable, id_inside}
use user_level_dsm.Directory.History.{history-IsValid, Call, run, set_writer, add_reader}
use user_level_dsm.PageTable.{PageTable, PageEntry}
use user_level_dsm.Coherence.Spaces.{found_at}
use user_level_dsm.Coherence.Doomed.{invalidate_lem}
use user_level_dsm.Directory.Ownership.{lost_by}

-- An allocation of one page, of page ID 7, in one of two nodes.
abbrev one_entry : (base owner : ℕ) → PageState → PageEntry
one_entry base owner state = record {
  id = 7;
  local_addr = base;
  owner = owner;
  state = state;
  version = 0;
  is_allocated = true;
  request_pending = true;
  num_waiting_threads = 1;
  fetch_result = success;
  pending_inv_acks = 0;
}

abbrev one_page : (base owner : ℕ) → PageState → PageTable
one_page base owner state = record {
  base_addr = base;
  total_size = 4096;
  num_pages = 1;
  start_page_id = 7;
  entries = one_entry base owner state ∷ [];
  refcount = 1;
}

one_page-IsTable : (owner : ℕ) (state : PageState) → IsTable (one_page 65536 owner state)
one_page-IsTable owner state = record {
  filled = refl;
  numbered = ((refl, refl), tt);
  spans = omega arith;
  based = omega arith;
  addresses = omega arith;
  ids = omega arith;
}

one_page-found :
    (owner : ℕ) (state : PageState)
    → find_page (one_page 65536 owner state ∷ []) 7 ≡ some (one_entry 65536 owner state)
one_page-found owner state =
    found_at (one_page 65536 owner state) [] 7 0
      (id_inside (one_page 65536 owner state) 0 (one_page-IsTable owner state) (omega arith))

-- Page 7 belongs to node 2, and node 1 reads it.
abbrev manager_role : Role
manager_role = record { is_manager = true; is_promoted = false }

abbrev some_calls : List Call
some_calls = set_writer true 7 2 ∷ add_reader true 7 1 ∷ []

abbrev some_directory : Directory
some_directory = run manager_role (directory_create 4) some_calls

some_directory-IsValid : IsValid some_directory
some_directory-IsValid = history-IsValid manager_role 4 some_calls (omega arith)

abbrev recorded_entry : Entry
recorded_entry = record { page_id = 7; owner = 2; sharers = 1 ∷ []; is_valid = true }

is_recorded : find_entry some_directory 7 ≡ some recorded_entry
unfolding spec_run spec_step
is_recorded = run_refines manager_role 4 some_calls 7 (omega arith)

abbrev connected_slot : NodeSlot
connected_slot = record { connected = true; is_failed = false }

abbrev node_with : (manages : Bool) → (id owner : ℕ) → PageState → PageNode
node_with manages id owner state = record {
  initialized = true;
  role = record { is_manager = manages; is_promoted = false };
  node_id = id;
  page_tables = one_page 65536 owner state ∷ [];
  directory = some some_directory;
  nodes = connected_slot ∷ connected_slot ∷ connected_slot ∷ [];
  memory = λ a. id ∷ 5 ∷ [];
  perms = λ a. perm_none;
  pages_sent = 0;
  invalidations_received = 0;
}

node_with-Hosts :
    (manages : Bool) (id owner : ℕ) (state : PageState)
    → Hosts (node_with manages id owner state) 7 (one_entry 65536 owner state)
node_with-Hosts manages id owner state = record {
  up = refl;
  space = (one_page-IsTable owner state, refl, tt, tt);
  found = one_page-found owner state;
}

-- Node 2 gives the page to node 1, by way of the manager, node 0.
abbrev star_manager : PageNode
star_manager = node_with true 0 2 invalid

abbrev star_owner : PageNode
star_owner = node_with false 2 2 read_write

abbrev star_asker : PageNode
star_asker = node_with false 1 2 invalid

star-Relays : Relays star_manager 7 2 1
star-Relays = record {
  manages = refl;
  entry = one_entry 65536 2 invalid;
  mapped = node_with-Hosts true 0 2 invalid;
  stale = refl;
  dir = some_directory;
  has_dir = refl;
  on_record = recorded_entry;
  recorded = is_recorded;
  names = refl;
  other_owner = omega arith;
  other_asker = omega arith;
  apart = omega arith;
  fits = (omega arith, omega arith);
  reaches = refl;
}

is_valid_copy : read_write ≢ invalid
is_valid_copy e = cc

abbrev write_request : Payload
write_request = page_request 7 write 1

abbrev write_answer : Payload
write_answer = write_reply star_owner 7 (one_entry 65536 2 read_write) 1

relayed_handover_example :
    let served = dispatch_message calm star_owner 0 write_request in
    (send_page_request star_asker 2 7 write
      ≡ record { target = 0; sender = 1; payload = write_request })
    × (dispatch_message calm star_manager 1 write_request
        ≡ posted calm (relayed star_manager 2 write_request) star_manager)
    × (served.letters ≡ (record { target = 0; sender = 2; payload = write_answer }) ∷ [])
    × (dispatch_message calm star_manager 2 write_answer
        ≡ posted calm (relayed star_manager 1 write_answer) star_manager)
    × Holds served.after 7 invalid perm_none (2 ∷ 5 ∷ [])
    × Holds
        (dispatch_message calm star_asker 0 write_answer).after
        7
        read_write
        perm_read_write
        (2 ∷ 5 ∷ [])
relayed_handover_example =
    relayed_handover star_manager star_owner star_asker 7 (one_entry 65536 2 read_write)
      (one_entry 65536 2 invalid) star-Relays (node_with-Hosts false 2 2 read_write)
      (node_with-Hosts false 1 2 invalid) is_valid_copy refl refl refl

write_handover_example :
    let s = dispatch_message calm star_owner 0 write_request in
    (s.status ≡ success)
    × (s.letters ≡ (record { target = 0; sender = 2; payload = write_answer }) ∷ [])
    × Holds s.after 7 invalid perm_none (2 ∷ 5 ∷ [])
    × Holds
        (dispatch_message calm star_asker 2 write_answer).after
        7
        read_write
        perm_read_write
        (2 ∷ 5 ∷ [])
write_handover_example =
    write_handover star_owner star_asker 7 0 (one_entry 65536 2 read_write)
      (one_entry 65536 2 invalid) (node_with-Hosts false 2 2 read_write)
      (node_with-Hosts false 1 2 invalid) is_valid_copy

-- A step in which `mprotect` fails.
abbrev unprotected : Env
unprotected = record { send_code = success; protects = false; protects_again = false; alloc = true }

invalidate_lem_example :
    let n' = (handle_invalidate unprotected star_owner 0 7 1).after in
    ((x : PageEntry) × Hosts n' 7 x × (x.state ≡ invalid) × (x.owner ≡ 1))
    × ((q : ℕ) → 7 ≢ q → find_page n'.page_tables q ≡ find_page star_owner.page_tables q)
    × ((d' : Directory) × (n'.directory ≡ some d')
        × ((q : ℕ)
            → find_entry d' q ≡ (
                if 7 == q
                then some (lost_by 2 1 (entry_of some_directory 7))
                else find_entry some_directory q)))
invalidate_lem_example =
    invalidate_lem unprotected star_owner 0 7 1 (one_entry 65536 2 read_write) some_directory
      (node_with-Hosts false 2 2 read_write) refl some_directory-IsValid refl

code_outlives_reply_example :
    let failed = (dispatch_message calm star_asker 0 (page_error invalid_argument 7)).after in
    let n' = (dispatch_message calm failed 0 (page_reply 7 0 read 1 (3 ∷ []))).after in
    (x : PageEntry) × (find_page n'.page_tables 7 ≡ some x)
    × (x.fetch_result ≡ invalid_argument)
    × (x.request_pending ≡ false)
    × (x.state ≡ read_only)
code_outlives_reply_example =
    code_outlives_reply star_asker 7 0 0 read (3 ∷ []) (one_entry 65536 2 invalid) invalid_argument
      (node_with-Hosts false 1 2 invalid) refl

owner_is_recorded : (entry_of some_directory 7).owner ≡ 2
owner_is_recorded = ground (arith, is_recorded)

invalidated_owner_refuses_example :
    let n' = (handle_invalidate calm star_owner 1 7 1).after in
    (contains (directory_set_writer manager_role true some_directory 7 1).1 2 ≡ true)
    × NoReply (handle_page_request calm n' 7 write 1).letters
invalidated_owner_refuses_example =
    invalidated_owner_refuses manager_role some_directory 7 1 2 calm calm star_owner
      (one_entry 65536 2 read_write) some_directory-IsValid owner_is_recorded (omega arith)
      (omega arith) (node_with-Hosts false 2 2 read_write)
