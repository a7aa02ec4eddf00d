-- ===== src/Alloc/Owners.antt =====
-- src/memory/allocator.c and src/network/handlers.c: what the directory of a node says of the pages
-- of an allocation after `dsm_malloc`, `dsm_free` and the notice of another node.
use user_level_dsm.Prelude.{
  ℕ, List, Option, Bool, map, some, ◌+◌, ◌<◌, true, false, ◌≡◌, if◌then◌else◌, ◌≢◌, none, ◌==◌, leb,
  contains, arith, ◌∷◌, ◌&&◌, [], ltb, refl, suc, zero, ◌%◌, length, ◌≤◌, ◌++◌, ==_refl, ◌-◌, ==_ne,
}
use user_level_dsm.Alloc.Notices.{
  handle_alloc_notify, register_pages, register_notice, with_table, backup_up,
}
use user_level_dsm.Alloc.Memory.{remove_pages, drop_table, own_pages, table_at, dsm_free}
use user_level_dsm.Directory.History.{perform, perform-IsValid, remove_entry, set_owner}
use user_level_dsm.Alloc.{AllocEnv, AllocNode, consistency_init, Notice}
use user_level_dsm.Directory.Refine.{spec_step, perform_refines}
use user_level_dsm.Directory.{
  Directory, Entry, directory_set_owner, find_entry, directory_remove_entry, with_owner,
  fresh_entry,
}
use user_level_dsm.PageTable.{
  PageEntry, page_table_create_remote, PageTable, word, max_slots, new_table,
}
use user_level_dsm.Types.{Role}
use user_level_dsm.Directory.Valid.{IsValid}
use user_level_dsm.Alloc.Reuse.{free_found}
use user_level_dsm.Alloc.Tables.{IsTableOf, new_table-IsTableOf}

-- The page IDs of some entries.
abbrev pub ids_of : List PageEntry → List ℕ
ids_of = map (λ (e : PageEntry). e.id)

-- The entry of a page that has a new owner; a page with no entry gets one.
abbrev pub owned_entry : (node page : ℕ) → Option Entry → Option Entry
owned_entry node page (some e) = some (with_owner node e)
owned_entry node page none = some (with_owner node (fresh_entry page))

set_owner_finds :
    (r : Role) (up : Bool) (d : Directory) (p node q : ℕ)
    → IsValid d
    → find_entry (directory_set_owner r up true d p node).after q
      ≡ (if p == q then owned_entry node p (find_entry d q) else find_entry d q)
unfolding perform spec_step
set_owner_finds r up d p node q v =
    ground (arith, perform_refines r d (set_owner up true p node) q v)

set_owner-IsValid :
    (r : Role) (up : Bool) (d : Directory) (p node : ℕ)
    → IsValid d
    → IsValid (directory_set_owner r up true d p node).after
unfolding perform
set_owner-IsValid r up d p node v = perform-IsValid r d (set_owner up true p node) v

own_pages_lem :
    (r : Role) (up : Bool) (d : Directory) (node : ℕ) (es : List PageEntry) (q : ℕ)
    → IsValid d
    → find_entry (own_pages r up true d node es) q
      ≡ (if contains (ids_of es) q then owned_entry node q (find_entry d q) else find_entry d q)
unfolding own_pages
own_pages_lem r up d node [] q v = refl
own_pages_lem r up d node (e ∷ es) q v =
    let r' : Role = record r { is_manager = false } in
    let d' = (directory_set_owner r' up true d e.id node).after in
    ground (
      arith,
      own_pages_lem r up d' node es q (set_owner-IsValid r' up d e.id node v),
      set_owner_finds r' up d e.id node q v,
    )

register_pages_lem :
    (r : Role) (up : Bool) (d : Directory) (owner p k q : ℕ)
    → IsValid d
    → find_entry (register_pages r up true d owner p k).1 q
      ≡ (if leb p q && ltb q (p + k) then owned_entry owner q (find_entry d q) else find_entry d q)
unfolding register_pages
register_pages_lem r up d owner p zero q v = ground arith
register_pages_lem r up d owner p (suc k) q v =
    let d' = (directory_set_owner r up true d p owner).after in
    ground (
      arith,
      register_pages_lem r up d' owner (p + 1) k q (set_owner-IsValid r up d p owner v),
      set_owner_finds r up d p owner q v,
    )

remove_finds :
    (d : Directory) (p q : ℕ)
    → IsValid d
    → find_entry (directory_remove_entry d p).after q ≡ (if p == q then none else find_entry d q)
unfolding perform spec_step
remove_finds d p q v =
    let r : Role = record { is_manager = false; is_promoted = false } in
    perform_refines r d (remove_entry p) q v

remove-IsValid : (d : Directory) (p : ℕ) → IsValid d → IsValid (directory_remove_entry d p).after
unfolding perform
remove-IsValid d p v =
    let r : Role = record { is_manager = false; is_promoted = false } in
    perform-IsValid r d (remove_entry p) v

remove_pages_lem :
    (d : Directory) (p k q : ℕ)
    → IsValid d
    → p + k < word
    → find_entry (remove_pages d p k) q
      ≡ (if leb p q && ltb q (p + k) then none else find_entry d q)
unfolding remove_pages
remove_pages_lem d p zero q v h = ground arith
remove_pages_lem d p (suc k) q v h =
    let small : p % word ≡ p = omega arith in
    rw (small, remove_pages)
      (ground (
        arith,
        remove_pages_lem (directory_remove_entry d p).after (p + 1) k q (remove-IsValid d p v),
        remove_finds d p q v,
      ))

-- `dsm_free` of a table, at an address other than NULL, takes the pages of the table from the
-- directory, whatever the table, and leaves all others. The page IDs of the table do not wrap.
pub free_forgets :
    (env : AllocEnv) (n : AllocNode) (ptr : ℕ) (t : PageTable) (d : Directory)
    → n.initialized ≡ true
    → ptr ≢ 0
    → table_at n.page_tables ptr ≡ some t
    → n.directory ≡ some d
    → IsValid d
    → t.start_page_id + t.num_pages < word
    → (d' : Directory) × ((dsm_free env n ptr).2.directory ≡ some d')
      × ((q : ℕ)
          → find_entry d' q ≡ (
              if leb t.start_page_id q && ltb q (t.start_page_id + t.num_pages)
              then none
              else find_entry d q))
unfolding drop_table
free_forgets env n ptr t d i b h dir v small = (
  remove_pages d t.start_page_id t.num_pages,
  rw (free_found env n ptr t i b h, drop_table) (rw dir),
  λ q. remove_pages_lem d t.start_page_id t.num_pages q v small,
)

notify_accepted :
    (env : AllocEnv) (n : AllocNode) (sender : ℕ) (a : Notice) (d : Directory)
    → env.mapped ≡ some a.base_addr
    → a.base_addr ≢ 0
    → a.total_size ≢ 0
    → length n.page_tables < max_slots
    → n.directory ≡ some d
    → handle_alloc_notify env n sender a
      ≡ register_notice env
          (with_table (new_table a.base_addr a.total_size a.start_page_id a.owner) n)
          sender
          a
          d
unfolding handle_alloc_notify page_table_create_remote consistency_init
notify_accepted env n sender a d m b s room dir =
    ground (arith, m, dir, ==_refl a.base_addr, ==_ne a.base_addr 0 b, ==_ne a.total_size 0 s)

-- The notice of an allocation, on a node with a directory, memory for the entries, room for a table
-- and the address free: one table is added, which has the addresses, page IDs and owner of the notice
-- for all its pages, none of them here yet; and each page ID from the first to the last of the notice
-- has the owner that it names in the directory. The directory says of all other pages what it did.
pub notify_registers :
    (env : AllocEnv) (n : AllocNode) (sender : ℕ) (a : Notice) (d : Directory)
    → env.mapped ≡ some a.base_addr
    → a.base_addr ≢ 0
    → a.total_size ≢ 0
    → length n.page_tables < max_slots
    → env.entries_ok ≡ true
    → n.directory ≡ some d
    → IsValid d
    → a.start_page_id ≤ a.end_page_id + 1
    → (t : PageTable) × (d' : Directory) × ((handle_alloc_notify env n sender a).after.page_tables
        ≡ n.page_tables ++ t ∷ [])
      × IsTableOf a t
      × ((handle_alloc_notify env n sender a).after.directory ≡ some d')
      × ((q : ℕ)
          → find_entry d' q ≡ (
              if leb a.start_page_id q && leb q a.end_page_id
              then owned_entry a.owner q (find_entry d q)
              else find_entry d q))
unfolding register_notice
notify_registers env n sender a d m b s room ok dir v order =
    let t = new_table a.base_addr a.total_size a.start_page_id a.owner in
    let k = a.end_page_id + 1 - a.start_page_id in
    let e = notify_accepted env n sender a d m b s room dir in
    let up = backup_up n in
    (
      t,
      (register_pages n.role up env.entries_ok d a.owner a.start_page_id k).1,
      rw e,
      new_table-IsTableOf a,
      rw e,
      λ q. rw ok (ground (arith, register_pages_lem n.role up d a.owner a.start_page_id k q v)),
    )
