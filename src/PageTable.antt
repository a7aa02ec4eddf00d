-- ===== src/PageTable.antt =====
-- src/memory/page_table.h and src/memory/page_table.c: a table of the pages of one allocation.
-- An address is a number below 2 ^ 64, 0 being NULL; a page ID is a number below 2 ^ 64, and the sums
-- that the C code lets wrap are written with `% word`. A pointer to an entry is its index, and a
-- destroyed table is `none`. The allocations of the table itself succeed, and the mutexes are left
-- out.
pub mod Lookup
pub mod References
pub mod Valid
pub mod Places
pub mod Ranges
mod Tests
use user_level_dsm.Types.{Status, PageState, page_size, not_found, invalid, success}
use user_level_dsm.Prelude.{
  ℕ, Option, ◌+◌, Bool, ◌%◌, get_or, ◌*◌, ◌-◌, none, if◌then◌else◌, ◌^◌, List, [], ◌==◌, some, ltb,
  ◌/◌, true, ◌||◌, suc, ◌∷◌, false, leb, set, zero,
}

-- The values of a `size_t`, a `uint64_t` and a pointer.
abbrev pub word : ℕ
word = 2 ^ 64

-- The page IDs of one node, and of one of its 32 allocations.
abbrev pub node_ids : ℕ
node_ids = 1000000

abbrev pub slot_ids : ℕ
slot_ids = 31250

abbrev pub max_slots : ℕ
max_slots = 32

-- `page_entry_t`, less the mutex and the condition variables.
pub record PageEntry : Type 0 where
  pub id : ℕ
  pub local_addr : ℕ
  pub owner : ℕ
  pub state : PageState
  pub version : ℕ
  pub is_allocated : Bool
  pub request_pending : Bool
  pub num_waiting_threads : ℕ
  pub fetch_result : Status
  pub pending_inv_acks : ℕ

-- `page_table_t`
pub record PageTable : Type 0 where
  pub base_addr : ℕ
  pub total_size : ℕ
  pub num_pages : ℕ
  pub start_page_id : ℕ
  pub entries : List PageEntry
  pub refcount : ℕ

-- `(size + PAGE_SIZE - 1) / PAGE_SIZE` in a `size_t`.
abbrev pub pages_of : ℕ → ℕ
pages_of size = (size + page_size - 1) % word / page_size

-- The entry that the loops give to the page of index `i`.
abbrev pub fresh_entry : ℕ → ℕ → ℕ → ℕ → PageEntry
fresh_entry base start owner i = record {
  id = (start + i) % word;
  local_addr = (base + i * page_size) % word;
  owner = owner;
  state = invalid;
  version = 0;
  is_allocated = true;
  request_pending = false;
  num_waiting_threads = 0;
  fetch_result = success;
  pending_inv_acks = 0;
}

-- The loop over the entries, from index `i` on.
unfoldable pub fresh_entries : ℕ → ℕ → ℕ → ℕ → ℕ → List PageEntry
fresh_entries base start owner i zero = []
fresh_entries base start owner i (suc k) =
    fresh_entry base start owner i ∷ fresh_entries base start owner (i + 1) k

abbrev pub new_table : ℕ → ℕ → ℕ → ℕ → PageTable
new_table base size start owner = record {
  base_addr = base;
  total_size = size;
  num_pages = pages_of size;
  start_page_id = start;
  entries = fresh_entries base start owner 0 (pages_of size);
  refcount = 1;
}

abbrev pub first_page_id : ℕ → ℕ → ℕ
first_page_id node_id allocation_index = (node_id * node_ids + allocation_index * slot_ids) % word

-- The index is a C `int`: the callers pass a count of allocations, which is not negative.
unfoldable pub page_table_create : (base size node_id allocation_index : ℕ) → Option PageTable
page_table_create base size node_id allocation_index =
    if (base == 0) || (size == 0)
    then none
    else if leb max_slots allocation_index
    then none
    else if ltb slot_ids (pages_of size)
    then none
    else some (new_table base size (first_page_id node_id allocation_index) node_id)

unfoldable pub page_table_create_remote : (base size owner start_page_id : ℕ) → Option PageTable
page_table_create_remote base size owner start_page_id =
    if (base == 0) || (size == 0) then none else some (new_table base size start_page_id owner)

pub page_table_acquire : PageTable → PageTable
page_table_acquire t = record t { refcount = t.refcount + 1 }

-- A count that reaches 0 destroys the table; the count of a live table is positive.
pub page_table_release : PageTable → Option PageTable
page_table_release t =
    if t.refcount == 1 then none else some (record t { refcount = t.refcount - 1 })

pub page_table_lookup_by_addr : PageTable → ℕ → Option ℕ
page_table_lookup_by_addr t addr =
    if addr == 0
    then none
    else if ltb addr t.base_addr || leb (t.base_addr + t.total_size) addr
    then none
    else if leb t.num_pages ((addr - t.base_addr) / page_size)
    then none
    else some ((addr - t.base_addr) / page_size)

-- The range test of both functions on page IDs.
abbrev pub is_outside : PageTable → ℕ → Bool
is_outside t page_id =
    ltb page_id t.start_page_id || leb ((t.start_page_id + t.num_pages) % word) page_id

pub page_table_lookup_by_id : PageTable → ℕ → Option ℕ
page_table_lookup_by_id t page_id =
    if is_outside t page_id then none else some (page_id - t.start_page_id)

abbrev pub blank_entry : PageEntry
blank_entry = fresh_entry 0 0 0 0

abbrev pub entry_at : PageTable → ℕ → PageEntry
entry_at t i = get_or t.entries i blank_entry

pub page_table_set_owner : PageTable → ℕ → ℕ → Status × PageTable
page_table_set_owner t page_id owner = elim (page_table_lookup_by_id t page_id) [
  | none ↦ (not_found, t)
  | some i ↦
      (success, record t { entries = set t.entries i (record (entry_at t i) { owner = owner }) })
]

pub page_table_set_state : PageTable → ℕ → PageState → Status × PageTable
page_table_set_state t page_id state = elim (page_table_lookup_by_id t page_id) [
  | none ↦ (not_found, t)
  | some i ↦
      (success, record t { entries = set t.entries i (record (entry_at t i) { state = state }) })
]

-- `~(PAGE_SIZE - 1)` is an `int` that the mask widens, so the bits below the page's are cleared.
pub page_get_base_addr : ℕ → ℕ
page_get_base_addr addr = addr - addr % page_size

-- `(page_id_t)-1` for NULL. The subtraction of the pointers wraps.
pub page_addr_to_id : PageTable → ℕ → ℕ
page_addr_to_id t addr =
    if addr == 0
    then word - 1
    else (t.start_page_id + (addr + word - t.base_addr) % word / page_size) % word

-- NULL for a page ID that the table does not have.
pub page_id_to_addr : PageTable → ℕ → ℕ
page_id_to_addr t page_id =
    if is_outside t page_id
    then 0
    else (t.base_addr + (page_id - t.start_page_id) * page_size) % word
