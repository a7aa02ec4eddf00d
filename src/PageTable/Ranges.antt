-- ===== src/PageTable/Ranges.antt =====
-- src/memory/page_table.c: the page IDs of different allocations.
use user_level_dsm.PageTable.{
  PageTable, page_table_lookup_by_id, page_table_create, first_page_id, word,
}
use user_level_dsm.Prelude.{ℕ, ◌≤◌, ◌≡◌, ◌<◌, some, ◌+◌, ◌%◌, arith, ◌^◌, ◌*◌, ◌/◌, sym, ◌∙◌}

-- A page ID that a table answers for.
abbrev pub Owns : PageTable → ℕ → Type 0
Owns t page_id = (i : ℕ) × (page_table_lookup_by_id t page_id ≡ some i)

-- The bounds that a created table keeps, whatever the size asked for.
pub create_bounds :
    (base size node index : ℕ) (t : PageTable)
    → page_table_create base size node index ≡ some t
    → (index < 32) × (t.num_pages ≤ 31250) × (t.start_page_id ≡ first_page_id node index)
unfolding page_table_create
create_bounds base size node index t h = ground arith

owned_range :
    (t : PageTable) (page_id : ℕ)
    → Owns t page_id
    → (t.start_page_id ≤ page_id) × (page_id < (t.start_page_id + t.num_pages) % word)
unfolding page_table_lookup_by_id
owned_range t page_id (i, h) = ground arith

-- Which node and which of its allocations a page ID belongs to.
slot_of :
    (node index start n page_id : ℕ)
    → node < 2 ^ 32
    → index < 32
    → n ≤ 31250
    → start ≡ first_page_id node index
    → start ≤ page_id
    → page_id < (start + n) % word
    → (page_id / 31250 ≡ node * 32 + index)
slot_of node index start n page_id hn hi hs he lo hi' = omega arith

split_slot : (n i m j : ℕ) → i < 32 → j < 32 → n * 32 + i ≡ m * 32 + j → (n ≡ m) × (i ≡ j)
split_slot n i m j hi hj e = (omega arith, omega arith)

owned_slot :
    (base size node index : ℕ) (t : PageTable) (page_id : ℕ)
    → node < 2 ^ 32
    → page_table_create base size node index ≡ some t
    → Owns t page_id
    → (index < 32) × (page_id / 31250 ≡ node * 32 + index)
owned_slot base size node index t page_id hn h o =
    let b = create_bounds base size node index t h in
    let r = owned_range t page_id o in
    (b.0, slot_of node index t.start_page_id t.num_pages page_id hn b.0 b.1 b.2 r.0 r.1)

-- A page ID that two created tables both answer for means that they are the same node's tables with
-- the same allocation index, whatever their addresses and sizes. Node IDs are below 2 ^ 32.
pub page_ids_disjoint :
    (base size node index : ℕ) (t : PageTable) (base' size' node' index' : ℕ) (t' : PageTable)
    (page_id : ℕ)
    → node < 2 ^ 32
    → node' < 2 ^ 32
    → page_table_create base size node index ≡ some t
    → page_table_create base' size' node' index' ≡ some t'
    → Owns t page_id
    → Owns t' page_id
    → (node ≡ node') × (index ≡ index')
page_ids_disjoint base size node index t base' size' node' index' t' page_id hn hn' h h' o o' =
    let a = owned_slot base size node index t page_id hn h o in
    let b = owned_slot base' size' node' index' t' page_id hn' h' o' in
    split_slot node index node' index' a.0 b.0 (sym a.1 ∙ b.1)
