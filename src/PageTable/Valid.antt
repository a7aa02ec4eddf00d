-- ===== src/PageTable/Valid.antt =====
-- src/memory/page_table.c: creation and the setters, and the form of the table.
use native.Mathlib.Nat.{zero-add}
use user_level_dsm.PageTable.{
  page_table_create, fresh_entries, PageTable, PageEntry, word, pages_of, new_table, first_page_id,
  page_table_set_state, page_table_set_owner, entry_at, blank_entry,
}
use user_level_dsm.Prelude.{
  ℕ, ◌+◌, ◌≡◌, ◌<◌, some, ◌*◌, ◌^◌, ◌/◌, ◌≤◌, set, AllFrom, suc, arith, if◌then◌else◌, zero,
  length-set, length, ◌∙◌, ◌==◌, AllFrom-set, eq-cases, subst, inl, sym, ==_refl, get_or-set_self,
  inr, ==_ne, get_or-set_ne, refl,
}
use user_level_dsm.PageTable.Lookup.{
  IsTable, IsNumbered, length-fresh_entries, id_inside, entry_at-IsNumbered,
}
use user_level_dsm.Types.{PageState, success}

add_one : (i : ℕ) → i + 1 ≡ suc i
add_one i = omega arith

fresh_entries-IsNumbered :
    (t : PageTable) (owner i k : ℕ)
    → t.start_page_id + (i + k) < word
    → t.base_addr + (i + k) * 4096 < word
    → AllFrom (IsNumbered t) i (fresh_entries t.base_addr t.start_page_id owner i k)
unfolding fresh_entries
fresh_entries-IsNumbered t owner i zero hi ha = tt
fresh_entries-IsNumbered t owner i (suc k) hi ha = (
  (omega arith, omega arith),
  rw (add_one i) (fresh_entries-IsNumbered t owner (suc i) k (omega arith) (omega arith)),
)

-- A table that either function creates is well formed when the range of its addresses, rounded up to
-- a page, and that of its page IDs end below 2 ^ 64.
new_table-IsTable :
    (base size start owner : ℕ)
    → 0 < base
    → base + size + 4096 < word
    → start + (size + 4095) / 4096 < word
    → IsTable (new_table base size start owner)
new_table-IsTable base size start owner hb ha hi = record {
  filled = length-fresh_entries base start owner 0 (pages_of size);
  numbered =
      fresh_entries-IsNumbered (new_table base size start owner) owner 0 (pages_of size)
        (omega arith) (omega arith);
  spans = omega arith;
  based = hb;
  addresses = omega arith;
  ids = omega arith;
}

pub create_is_new :
    (base size node index : ℕ) (t : PageTable)
    → page_table_create base size node index ≡ some t
    → (0 < base)
      × (index < 32)
      × (pages_of size ≤ 31250)
      × (t ≡ new_table base size (first_page_id node index) node)
unfolding page_table_create
create_is_new base size node index t h = ground arith

-- `page_table_create` makes a well-formed table, for a node ID below 2 ^ 32 and a range of addresses
-- that ends a page below 2 ^ 64.
pub create-IsTable :
    (base size node index : ℕ) (t : PageTable)
    → base + size + 4096 < word
    → node < 2 ^ 32
    → page_table_create base size node index ≡ some t
    → IsTable t
create-IsTable base size node index t ha hn h =
    let c = create_is_new base size node index t h in
    rw c.3
      (new_table-IsTable base size (first_page_id node index) node c.0 ha (omega (arith, c.1, c.2)))

pub set_entry-IsTable :
    (t : PageTable) (i : ℕ) (e : PageEntry)
    → IsTable t
    → IsNumbered t i e
    → IsTable (record t { entries = set t.entries i e })
set_entry-IsTable t i e w h = record {
  filled = length-set t.entries i e ∙ w.filled;
  numbered =
      AllFrom-set (IsNumbered t) 0 i t.entries e w.numbered
        (subst (λ k. IsNumbered t k e) (sym (zero-add i)) h);
  spans = w.spans;
  based = w.based;
  addresses = w.addresses;
  ids = w.ids;
}

-- What a write of one entry leaves at an index.
abbrev pub updated : PageTable → ℕ → PageEntry → ℕ → PageEntry
updated t i e j = if i == j then e else entry_at t j

pub entry_at-set :
    (t : PageTable) (i j : ℕ) (e : PageEntry)
    → i < length t.entries
    → entry_at (record t { entries = set t.entries i e }) j ≡ updated t i e j
entry_at-set t i j e h = elim (eq-cases i j) [
  | inl eq ↦ rw (sym eq, ==_refl i) (get_or-set_self t.entries i e blank_entry h)
  | inr ne ↦ rw (==_ne i j ne) (get_or-set_ne t.entries i j e blank_entry ne)
]

-- For a page of a well-formed table, `page_table_set_owner` succeeds, sets the owner in that page's
-- entry, changes no other entry, and the table stays well formed.
pub set_owner_lem :
    (t : PageTable) (i j owner : ℕ)
    → IsTable t
    → i < t.num_pages
    → ((page_table_set_owner t (t.start_page_id + i) owner).0 ≡ success)
      × IsTable (page_table_set_owner t (t.start_page_id + i) owner).1
      × (entry_at (page_table_set_owner t (t.start_page_id + i) owner).1 j
          ≡ updated t i (record (entry_at t i) { owner = owner }) j)
unfolding page_table_set_owner
set_owner_lem t i j owner w lt =
    let e = record (entry_at t i) { owner = owner } in
    rw (page_table_set_owner, id_inside t i w lt)
      (
        refl,
        set_entry-IsTable t i e w (entry_at-IsNumbered t i w lt),
        entry_at-set t i j e (omega (arith, w.filled)),
      )

-- For a page of a well-formed table, `page_table_set_state` succeeds, sets the state in that page's
-- entry, changes no other entry, and the table stays well formed.
pub set_state_lem :
    (t : PageTable) (i j : ℕ) (state : PageState)
    → IsTable t
    → i < t.num_pages
    → ((page_table_set_state t (t.start_page_id + i) state).0 ≡ success)
      × IsTable (page_table_set_state t (t.start_page_id + i) state).1
      × (entry_at (page_table_set_state t (t.start_page_id + i) state).1 j
          ≡ updated t i (record (entry_at t i) { state = state }) j)
unfolding page_table_set_state
set_state_lem t i j state w lt =
    let e = record (entry_at t i) { state = state } in
    rw (page_table_set_state, id_inside t i w lt)
      (
        refl,
        set_entry-IsTable t i e w (entry_at-IsNumbered t i w lt),
        entry_at-set t i j e (omega (arith, w.filled)),
      )
