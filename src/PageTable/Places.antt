-- ===== src/PageTable/Places.antt =====
-- src/memory/page_table.c: the entry that a search finds, its place in the table, and writes to it.
use user_level_dsm.Prelude.{
  ℕ, ◌%◌, List, ◌≡◌, ◌<◌, refl, ◌⊎◌, ◌+◌, none, some, ◌*◌, ◌-◌, ◌≤◌, arith, Bool-cases, inl, ◌/◌,
  inr,
}
use user_level_dsm.PageTable.{
  page_get_base_addr, page_table_lookup_by_addr, PageTable, page_table_lookup_by_id, PageEntry,
  is_outside,
}
use user_level_dsm.PageTable.Lookup.{IsTable, lookup_inside}

pub lookup_id-cases :
    (t : PageTable) (page : ℕ)
    → IsTable t
    → (page_table_lookup_by_id t page ≡ none)
      ⊎ ((i : ℕ) × (page_table_lookup_by_id t page ≡ some i)
          × (page ≡ t.start_page_id + i)
          × (i < t.num_pages))
unfolding page_table_lookup_by_id
lookup_id-cases t page w = elim (Bool-cases (is_outside t page)) [
  | inl out ↦ inl (rw (page_table_lookup_by_id, out) refl)
  | inr inside ↦ inr (
    page - t.start_page_id,
    rw (page_table_lookup_by_id, inside) refl,
    ground (arith, w.ids),
    ground (arith, w.ids),
  )
]

-- The searches do not read the entries.
pub lookup_id-entries :
    (t : PageTable) (es : List PageEntry) (page : ℕ)
    → page_table_lookup_by_id (record t { entries = es }) page ≡ page_table_lookup_by_id t page
unfolding page_table_lookup_by_id
lookup_id-entries t es page = refl

-- An address outside the pages of a table is not found in it.
pub lookup_addr_outside :
    (t : PageTable) (addr : ℕ)
    → IsTable t
    → (addr < t.base_addr) ⊎ (t.base_addr + t.num_pages * 4096 ≤ addr)
    → page_table_lookup_by_addr t addr ≡ none
unfolding page_table_lookup_by_addr
lookup_addr_outside t addr w (inl lo) = ground arith
lookup_addr_outside t addr w (inr hi) =
    let far : t.base_addr + t.total_size ≤ addr = omega (arith, w.spans) in ground arith

-- In a table on a page boundary the address of an entry finds that entry.
pub lookup_addr_place :
    (t : PageTable) (i : ℕ)
    → IsTable t
    → i < t.num_pages
    → page_table_lookup_by_addr t (t.base_addr + i * 4096) ≡ some i
lookup_addr_place t i w lt =
    rw (back t.base_addr i) at
      (lookup_inside t (t.base_addr + i * 4096) w (omega arith) (omega (arith, w.spans)))
  where
    back : (b i : ℕ) → (b + i * 4096 - b) / 4096 ≡ i
    back b i = omega arith

pub page_base_place :
    (base i : ℕ) → base % 4096 ≡ 0 → page_get_base_addr (base + i * 4096) ≡ base + i * 4096
unfolding page_get_base_addr
page_base_place base i h = omega arith

-- What a search by address finds is a page of the table.
pub lookup_addr-lt :
    (t : PageTable) (addr i : ℕ) → page_table_lookup_by_addr t addr ≡ some i → i < t.num_pages
unfolding page_table_lookup_by_addr
lookup_addr-lt t addr i h = ground arith
