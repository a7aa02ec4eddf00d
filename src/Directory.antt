-- ===== src/Directory.antt =====
-- src/consistency/directory.h and src/consistency/directory.c: the page directory, a hash table
-- with chaining that gives for each page its owner and the nodes with read-only copies.
-- A C pointer to an entry is the entry's place in the first chain position with its page, and each
-- function reads and writes the entry there. The locks are left out: a function runs as one step.
-- `alloc` says whether the `malloc` of a new entry succeeds. A function that replicates to the
-- backup returns what it hands to `send_state_sync_dir`. A `NULL` directory or out-pointer, which
-- each function answers with `DSM_ERROR_INVALID`, does not occur among the values of the model.

pub mod Chain
pub mod Sharers
pub mod Table
pub mod Valid
pub mod History
pub mod Refine
pub mod Invalidate
pub mod Access
pub mod Ownership
pub mod Replica
mod Tests
use user_level_dsm.Prelude.{
  ℕ, ◌+◌, ◌-◌, ◌%◌, Bool, true, not, ◌&&◌, List, [], ◌∷◌, ◌++◌, map, Option, none, some, ltb, ◌==◌,
  if◌then◌else◌, length, get_or, set, replicate, contains,
}
use user_level_dsm.Types.{no_node, Status, success, memory_error, busy, Role}

-- `MAX_SHARERS`
abbrev pub max_sharers : ℕ
max_sharers = 16

-- `directory_entry_t`; the list holds `sharers.nodes[0 .. sharers.count)`.
pub record Entry : Type 0 where
  pub page_id : ℕ
  pub owner : ℕ
  pub sharers : List ℕ
  pub is_valid : Bool

-- `page_directory_t`
pub record Directory : Type 0 where
  pub buckets : List (List Entry)
  pub table_size : ℕ
  pub num_entries : ℕ

-- The arguments of `send_state_sync_dir`.
pub record DirSync : Type 0 where
  pub page : ℕ
  pub node : ℕ
  pub readers : List ℕ

-- What a function returns: its code, what it replicates, and the directory that it leaves.
pub record Outcome : Type 0 where
  pub status : Status
  pub sync : Option DirSync
  pub after : Directory

abbrev pub hash_page_id : ℕ → ℕ → ℕ
hash_page_id page size = page % size

-- The search along a chain.
unfoldable pub find_chain : ℕ → List Entry → Option Entry
find_chain page [] = none
find_chain page (e ∷ es) = if e.page_id == page then some e else find_chain page es

-- A write through the pointer that the search returned.
unfoldable pub modify_chain : ℕ → (Entry → Entry) → List Entry → List Entry
modify_chain page f [] = []
modify_chain page f (e ∷ es) = if e.page_id == page then f e ∷ es else e ∷ modify_chain page f es

abbrev pub chain_of : Directory → ℕ → List Entry
chain_of d page = get_or d.buckets (hash_page_id page d.table_size) []

abbrev pub set_chain : Directory → ℕ → List Entry → Directory
set_chain d page es = record d { buckets = set d.buckets (hash_page_id page d.table_size) es }

unfoldable pub find_entry : Directory → ℕ → Option Entry
find_entry d page = find_chain page (chain_of d page)

-- The entry that `find_or_create_entry` makes.
abbrev pub fresh_entry : ℕ → Entry
fresh_entry page = record { page_id = page; owner = no_node; sharers = []; is_valid = true }

-- The entry goes to the head of its chain.
abbrev pub insert_entry : Directory → ℕ → Directory
insert_entry d page = record {
  buckets = (set_chain d page (fresh_entry page ∷ chain_of d page)).buckets;
  table_size = d.table_size;
  num_entries = d.num_entries + 1;
}

-- `none` is the failed `malloc`.
unfoldable pub find_or_create_entry : Bool → Directory → ℕ → Option Directory
find_or_create_entry alloc d page = elim (find_entry d page) [
  | some e ↦ some d
  | none ↦ if alloc then some (insert_entry d page) else none
]

-- The entry that a pointer from `find_or_create_entry` reads.
abbrev pub entry_of : Directory → ℕ → Entry
entry_of d page = elim (find_entry d page) [ some e ↦ e | none ↦ fresh_entry page ]

unfoldable pub modify_entry : Directory → ℕ → (Entry → Entry) → Directory
modify_entry d page f = set_chain d page (modify_chain page f (chain_of d page))

-- A manager that is not itself a promoted backup replicates.
abbrev pub replicates : Role → Bool
replicates r = r.is_manager && not r.is_promoted

abbrev pub replicate_dir : Role → ℕ → ℕ → List ℕ → Option DirSync
replicate_dir r page node readers =
    if replicates r then some (record { page = page; node = node; readers = readers }) else none

unfoldable pub directory_create : ℕ → Directory
directory_create size = record { buckets = replicate size []; table_size = size; num_entries = 0 }

-- A lookup creates the entry that it does not find, and hands back the owner through a pointer.
unfoldable pub directory_lookup : Bool → Directory → ℕ → Status × Option ℕ × Directory
directory_lookup alloc d page = elim (find_or_create_entry alloc d page) [
  | none ↦ (memory_error, none, d)
  | some d' ↦ (success, some (entry_of d' page).owner, d')
]

abbrev pub with_reader : ℕ → Entry → Entry
with_reader reader e = record e { sharers = e.sharers ++ reader ∷ [] }

unfoldable pub add_reader_at : Role → Directory → ℕ → ℕ → Outcome
add_reader_at r d page reader =
    let e = entry_of d page in
    if contains e.sharers reader
    then record { status = success; sync = none; after = d }
    else if ltb (length e.sharers) max_sharers
    then record {
      status = success;
      sync = replicate_dir r page e.owner (with_reader reader e).sharers;
      after = modify_entry d page (with_reader reader);
    }
    else record { status = busy; sync = none; after = d }

unfoldable pub directory_add_reader : Role → Bool → Directory → ℕ → ℕ → Outcome
directory_add_reader r alloc d page reader = elim (find_or_create_entry alloc d page) [
  | none ↦ record { status = memory_error; sync = none; after = d }
  | some d' ↦ add_reader_at r d' page reader
]

-- The loop that collects the sharers other than the writer.
unfoldable pub other_sharers : ℕ → List ℕ → List ℕ
other_sharers writer [] = []
other_sharers writer (s ∷ ss) =
    if s == writer then other_sharers writer ss else s ∷ other_sharers writer ss

-- The old owner joins the list if it is a node, not the writer, and not in the list.
unfoldable pub invalidations : ℕ → Entry → List ℕ
invalidations writer e =
    let others = other_sharers writer e.sharers in
    if not (e.owner == writer) && not (e.owner == no_node) && not (contains others e.owner)
    then others ++ e.owner ∷ []
    else others

abbrev pub with_owner : ℕ → Entry → Entry
with_owner node e = record e { owner = node }

-- The sharers stay until `directory_clear_sharers`. The list is `invalidate_list`, of which the
-- code writes the entries `[0 .. *num_invalidate)`.
unfoldable pub directory_set_writer : Role → Bool → Directory → ℕ → ℕ → Outcome × List ℕ
directory_set_writer r alloc d page writer = elim (find_or_create_entry alloc d page) [
  | none ↦ (record { status = memory_error; sync = none; after = d }, [])
  | some d' ↦ (
    record {
      status = success;
      sync = replicate_dir r page writer (entry_of d' page).sharers;
      after = modify_entry d' page (with_owner writer);
    },
    invalidations writer (entry_of d' page),
  )
]

abbrev pub without_sharers : Entry → Entry
without_sharers e = record e { sharers = [] }

unfoldable pub directory_clear_sharers : Role → Directory → ℕ → Outcome
directory_clear_sharers r d page = elim (find_entry d page) [
  | none ↦ record { status = success; sync = none; after = d }
  | some e ↦ record {
    status = success;
    sync = replicate_dir r page e.owner [];
    after = modify_entry d page without_sharers;
  }
]

-- The loop that finds a node and shifts the rest of the array over it.
pub remove_first : ℕ → List ℕ → List ℕ
remove_first node [] = []
remove_first node (s ∷ ss) = if s == node then ss else s ∷ remove_first node ss

abbrev pub without_sharer : ℕ → Entry → Entry
without_sharer node e = record e { sharers = remove_first node e.sharers }

pub directory_remove_sharer : Directory → ℕ → ℕ → Outcome
directory_remove_sharer d page node = elim (find_entry d page) [
  | none ↦ record { status = success; sync = none; after = d }
  | some e ↦ record {
    status = success;
    sync = none;
    after = modify_entry d page (without_sharer node);
  }
]

pub directory_get_sharers : Directory → ℕ → Status × List ℕ
directory_get_sharers d page = elim (find_entry d page) [
  | none ↦ (success, [])
  | some e ↦ (success, e.sharers)
]

-- `backup_up`: the slot of node 1 is connected and not failed.
unfoldable pub directory_set_owner : Role → Bool → Bool → Directory → ℕ → ℕ → Outcome
directory_set_owner r backup_up alloc d page node = elim (find_or_create_entry alloc d page) [
  | none ↦ record { status = memory_error; sync = none; after = d }
  | some d' ↦ record {
    status = success;
    sync = if backup_up then replicate_dir r page node (entry_of d' page).sharers else none;
    after = modify_entry d' page (with_owner node);
  }
]

-- The entry is unlinked from its chain.
pub unlink : ℕ → List Entry → List Entry
unlink page [] = []
unlink page (e ∷ es) = if e.page_id == page then es else e ∷ unlink page es

abbrev pub unlink_entry : Directory → ℕ → Directory
unlink_entry d page = record {
  buckets = (set_chain d page (unlink page (chain_of d page))).buckets;
  table_size = d.table_size;
  num_entries = d.num_entries - 1;
}

pub directory_remove_entry : Directory → ℕ → Outcome
directory_remove_entry d page = elim (find_entry d page) [
  | none ↦ record { status = success; sync = none; after = d }
  | some e ↦ record { status = success; sync = none; after = unlink_entry d page }
]

-- One round of the loop of `directory_handle_node_failure`.
pub fail_entry : ℕ → Entry → Entry
fail_entry failed e = record e {
  owner = if e.owner == failed then no_node else e.owner;
  sharers = remove_first failed e.sharers;
}

pub directory_handle_node_failure : Directory → ℕ → Outcome
directory_handle_node_failure d failed = record {
  status = success;
  sync = none;
  after = record d { buckets = map (map (fail_entry failed)) d.buckets };
}

abbrev pub reclaimed : ℕ → Entry → Entry
reclaimed node e = record e { owner = node; sharers = [] }

pub directory_reclaim_ownership : Bool → Directory → ℕ → ℕ → Outcome
directory_reclaim_ownership alloc d page node = elim (find_or_create_entry alloc d page) [
  | none ↦ record { status = memory_error; sync = none; after = d }
  | some d' ↦ record {
    status = success;
    sync = none;
    after = modify_entry d' page (reclaimed node);
  }
]
