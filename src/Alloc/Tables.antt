-- ===== src/Alloc/Tables.antt =====
-- src/network/handlers.c: the page table that the notice of an allocation makes.
use native.Mathlib.Nat.{zero-add}
use user_level_dsm.Alloc.{Notice}
use user_level_dsm.PageTable.{
  PageTable, PageEntry, fresh_entries, fresh_entry, blank_entry, entry_at, new_table, pages_of,
}
use user_level_dsm.PageTable.Lookup.{length-fresh_entries}
use user_level_dsm.Types.{invalid}
use user_level_dsm.Prelude.{
  ℕ, ◌≡◌, ◌<◌, ◌+◌, ◌-◌, ◌*◌, ◌/◌, ◌%◌, ◌^◌, length, get_or, false, suc, zero, ap, sym, ◌∙◌, refl,
  arith,
}

-- A table of the memory that a notice names: its pages follow one another from the notice's first
-- page and address on, and belong to the notice's owner. None of them is here yet.
pub record IsTableOf (a : Notice) (t : PageTable) : Type 0 where
  pub base : t.base_addr ≡ a.base_addr
  pub size : t.total_size ≡ a.total_size
  pub start : t.start_page_id ≡ a.start_page_id
  pub pages : t.num_pages ≡ (a.total_size + 4095) % 2 ^ 64 / 4096
  pub filled : length t.entries ≡ t.num_pages
  pub ids : (i : ℕ) → i < t.num_pages → (entry_at t i).id ≡ (a.start_page_id + i) % 2 ^ 64
  pub addresses :
      (i : ℕ) → i < t.num_pages → (entry_at t i).local_addr ≡ (a.base_addr + i * 4096) % 2 ^ 64
  pub owners : (i : ℕ) → i < t.num_pages → (entry_at t i).owner ≡ a.owner
  pub states : (i : ℕ) → i < t.num_pages → (entry_at t i).state ≡ invalid
  pub idle : (i : ℕ) → i < t.num_pages → (entry_at t i).request_pending ≡ false
  pub counted : t.refcount ≡ 1

fresh_entries_lem :
    (base start owner i k j : ℕ)
    → j < k
    → get_or (fresh_entries base start owner i k) j blank_entry
      ≡ fresh_entry base start owner (i + j)
unfolding fresh_entries
fresh_entries_lem base start owner i zero j h = absurd (omega arith)
fresh_entries_lem base start owner i (suc k) zero h =
    ap (fresh_entry base start owner) (sym (add_none i))
  where
    add_none : (i : ℕ) → i + 0 ≡ i
    add_none i = omega arith
fresh_entries_lem base start owner i (suc k) (suc j) h =
    fresh_entries_lem base start owner (i + 1) k j (omega arith)
    ∙ ap (fresh_entry base start owner) (later i j)
  where
    later : (i j : ℕ) → i + 1 + j ≡ i + suc j
    later i j = omega arith

entry_lem :
    (a : Notice) (i : ℕ)
    → i < pages_of a.total_size
    → entry_at (new_table a.base_addr a.total_size a.start_page_id a.owner) i
      ≡ fresh_entry a.base_addr a.start_page_id a.owner i
entry_lem a i h =
    fresh_entries_lem a.base_addr a.start_page_id a.owner 0 (pages_of a.total_size) i h
    ∙ ap (fresh_entry a.base_addr a.start_page_id a.owner) (zero-add i)

less_one : (x : ℕ) → x + 4096 - 1 ≡ x + 4095
less_one x = omega arith

pub new_table-IsTableOf :
    (a : Notice) → IsTableOf a (new_table a.base_addr a.total_size a.start_page_id a.owner)
new_table-IsTableOf a = record {
  base = refl;
  size = refl;
  start = refl;
  pages = ap (λ x. x % 2 ^ 64 / 4096) (less_one a.total_size);
  filled = length-fresh_entries a.base_addr a.start_page_id a.owner 0 (pages_of a.total_size);
  ids = λ i h. ap (λ (e : PageEntry). e.id) (entry_lem a i h);
  addresses = λ i h. ap (λ (e : PageEntry). e.local_addr) (entry_lem a i h);
  owners = λ i h. ap (λ (e : PageEntry). e.owner) (entry_lem a i h);
  states = λ i h. ap (λ (e : PageEntry). e.state) (entry_lem a i h);
  idle = λ i h. ap (λ (e : PageEntry). e.request_pending) (entry_lem a i h);
  counted = refl;
}
