-- ===== src/PageTable/Lookup.antt =====
-- src/memory/page_table.c: the searches by address and by page ID.
use user_level_dsm.PageTable.{
  page_id_to_addr, fresh_entries, PageTable, page_table_lookup_by_id, page_table_lookup_by_addr,
  page_addr_to_id, word, is_outside, PageEntry, entry_at, page_get_base_addr, blank_entry,
}
use native.Mathlib.Nat.{zero-add}
use user_level_dsm.Prelude.{
  ℕ, ◌≡◌, ◌<◌, ◌≤◌, length, suc, ◌+◌, some, ap, ◌/◌, ◌*◌, ◌-◌, arith, zero, refl, ==_ne, ◌%◌, false,
  AllFrom, AllFrom-get_or, ◌∙◌, subst,
}

-- The entry of index `i` has the page ID and the address of its page.
abbrev pub IsNumbered : PageTable → ℕ → PageEntry → Type 0
IsNumbered t i e = (e.id ≡ t.start_page_id + i) × (e.local_addr ≡ t.base_addr + i * 4096)

-- A table is well formed when its entries fill its pages and neither its addresses nor its page IDs
-- pass the end of the word.
pub record IsTable (t : PageTable) : Type 0 where
  pub filled : length t.entries ≡ t.num_pages
  pub numbered : AllFrom (IsNumbered t) 0 t.entries
  pub spans : t.num_pages ≡ (t.total_size + 4095) / 4096
  pub based : 0 < t.base_addr
  pub addresses : t.base_addr + t.num_pages * 4096 < word
  pub ids : t.start_page_id + t.num_pages < word

pub length-fresh_entries :
    (base start owner i k : ℕ) → length (fresh_entries base start owner i k) ≡ k
unfolding fresh_entries
length-fresh_entries base start owner i zero = refl
length-fresh_entries base start owner i (suc k) =
    ap suc (length-fresh_entries base start owner (i + 1) k)

-- The page of an address in the table's range exists.
page_lt : (d size n : ℕ) → n ≡ (size + 4095) / 4096 → d < size → d / 4096 < n
page_lt d size n h lt = omega arith

pub lookup_inside :
    (t : PageTable) (addr : ℕ)
    → IsTable t
    → t.base_addr ≤ addr
    → addr < t.base_addr + t.total_size
    → page_table_lookup_by_addr t addr ≡ some ((addr - t.base_addr) / 4096)
unfolding page_table_lookup_by_addr
lookup_inside t addr w lo hi =
    let lt = page_lt (addr - t.base_addr) t.total_size t.num_pages w.spans (omega arith) in
    ground (arith, w.based)

pub id_inside :
    (t : PageTable) (i : ℕ)
    → IsTable t
    → i < t.num_pages
    → page_table_lookup_by_id t (t.start_page_id + i) ≡ some i
unfolding page_table_lookup_by_id
id_inside t i w lt = ground (arith, w.ids)

fits : (a b : ℕ) → a + b < word → (a + b) % word ≡ a + b
fits a b h = omega arith

sub_self_add : (a b : ℕ) → a + b - a ≡ b
sub_self_add a b = omega arith

offset_wraps :
    (t : PageTable) (addr : ℕ)
    → IsTable t
    → t.base_addr ≤ addr
    → addr < t.base_addr + t.total_size
    → (addr + word - t.base_addr) % word ≡ addr - t.base_addr
offset_wraps t addr w lo hi = omega (arith, w.spans, w.addresses)

pub is_inside :
    (t : PageTable) (i : ℕ)
    → IsTable t
    → i < t.num_pages
    → is_outside t (t.start_page_id + i) ≡ false
is_inside t i w lt = ground (arith, w.ids)

addr_inside :
    (t : PageTable) (addr : ℕ)
    → IsTable t
    → t.base_addr ≤ addr
    → addr < t.base_addr + t.total_size
    → page_addr_to_id t addr ≡ t.start_page_id + (addr - t.base_addr) / 4096
unfolding page_addr_to_id
addr_inside t addr w lo hi =
    let lt = page_lt (addr - t.base_addr) t.total_size t.num_pages w.spans (omega arith) in
    let off = offset_wraps t addr w lo hi in
    rw (==_ne addr 0 (omega (arith, w.based)), off) (fits t.start_page_id _ (omega (arith, w.ids)))

back_inside :
    (t : PageTable) (i : ℕ)
    → IsTable t
    → i < t.num_pages
    → page_id_to_addr t (t.start_page_id + i) ≡ t.base_addr + i * 4096
unfolding page_id_to_addr
back_inside t i w lt =
    rw (is_inside t i w lt, sub_self_add t.start_page_id i)
      (fits t.base_addr (i * 4096) (omega (arith, w.addresses)))

pub entry_at-IsNumbered :
    (t : PageTable) (i : ℕ) → IsTable t → i < t.num_pages → IsNumbered t i (entry_at t i)
entry_at-IsNumbered t i w lt =
    subst (λ k. IsNumbered t k (entry_at t i)) (zero-add i)
      (AllFrom-get_or (IsNumbered t) 0 i t.entries blank_entry w.numbered (omega (arith, w.filled)))

-- The first byte of the page that an address lies in, for a page-aligned base.
page_base :
    (base addr : ℕ)
    → base % 4096 ≡ 0
    → base ≤ addr
    → base + (addr - base) / 4096 * 4096 ≡ page_get_base_addr addr
unfolding page_get_base_addr
page_base base addr h lo = omega arith

-- In a well-formed table on an aligned base, an address of its range finds the entry that its page ID
-- finds; that entry carries the page ID and the page's address, and the page ID leads back to the
-- first byte of the page.
pub lookups_agree :
    (t : PageTable) (addr : ℕ)
    → IsTable t
    → t.base_addr % 4096 ≡ 0
    → t.base_addr ≤ addr
    → addr < t.base_addr + t.total_size
    → (i : ℕ) × (page_table_lookup_by_addr t addr ≡ some i)
      × (page_table_lookup_by_id t (page_addr_to_id t addr) ≡ some i)
      × ((entry_at t i).id ≡ page_addr_to_id t addr)
      × ((entry_at t i).local_addr ≡ page_get_base_addr addr)
      × (page_id_to_addr t (page_addr_to_id t addr) ≡ page_get_base_addr addr)
lookups_agree t addr w al lo hi =
    let i = (addr - t.base_addr) / 4096 in
    let lt = page_lt (addr - t.base_addr) t.total_size t.num_pages w.spans (omega arith) in
    let e = entry_at-IsNumbered t i w lt in
    let base = page_base t.base_addr addr al lo in
    rw (addr_inside t addr w lo hi) (
      i,
      lookup_inside t addr w lo hi,
      id_inside t i w lt,
      e.0,
      e.1 ∙ base,
      back_inside t i w lt ∙ base,
    )
