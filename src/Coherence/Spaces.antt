-- ===== src/Coherence/Spaces.antt =====
-- src/network/handlers.c and src/memory/permission.c: the tables of a node share its addresses, and
-- the handlers search them by page ID where `set_page_permission` searches them by address.
use user_level_dsm.Prelude.{
  ℕ, List, All, ◌∷◌, ◌+◌, ◌≡◌, ◌<◌, Option-cases, ◌%◌, ◌*◌, inl, ◌≤◌, inr, [], ◌⊎◌, ◌∙◌, some, set,
  ◌≢◌, refl, ap, get_or-set_self, arith, get_or-set_ne, sym, some_eq, true, ==_ne, List-cases, none,
}
use mathlib.Core.Option
use user_level_dsm.Coherence.{
  modify_page, find_page, modify_at, modify_addr, set_page_permission, PageNode, at_page,
  with_state, state_of, protect, has_tables,
}
use user_level_dsm.PageTable.{
  PageTable, PageEntry, page_table_lookup_by_id, entry_at, blank_entry, page_get_base_addr,
}
use user_level_dsm.PageTable.Lookup.{IsTable, entry_at-IsNumbered}
use user_level_dsm.PageTable.Valid.{set_entry-IsTable}
use user_level_dsm.PageTable.Places.{
  lookup_id-cases, lookup_id-entries, lookup_addr_outside, page_base_place, lookup_addr_place,
}
use user_level_dsm.Types.{PagePerm, success}

-- The ranges of two tables do not meet.
abbrev pub Apart : PageTable → PageTable → Type 0
Apart t u =
    (t.base_addr + t.num_pages * 4096 ≤ u.base_addr)
    ⊎ (u.base_addr + u.num_pages * 4096 ≤ t.base_addr)

-- Well-formed tables, each on a page boundary, in separate ranges of addresses.
abbrev pub IsSpace : List PageTable → Type 0
IsSpace [] = Unit
IsSpace (t ∷ ts) = IsTable t × (t.base_addr % 4096 ≡ 0) × All (Apart t) ts × IsSpace ts

-- A write to an entry that leaves its page ID and its address alone.
abbrev pub KeepsPlace : (PageEntry → PageEntry) → Type 0
KeepsPlace f = (e : PageEntry) → ((f e).id ≡ e.id) × ((f e).local_addr ≡ e.local_addr)

-- The address of the entry of index `i` is that of a page in the table's range.
place_of :
    (t : PageTable) (i : ℕ)
    → IsTable t
    → i < t.num_pages
    → (entry_at t i).local_addr ≡ t.base_addr + i * 4096
place_of t i w lt = (entry_at-IsNumbered t i w lt).1

pub modify_at-IsTable :
    (t : PageTable) (i : ℕ) (f : PageEntry → PageEntry)
    → IsTable t
    → i < t.num_pages
    → KeepsPlace f
    → IsTable (modify_at t i f)
modify_at-IsTable t i f w lt k =
    let e = entry_at-IsNumbered t i w lt in
    set_entry-IsTable t i (f (entry_at t i)) w
      ((k (entry_at t i)).0 ∙ e.0, (k (entry_at t i)).1 ∙ e.1)

modify_page-Apart :
    (t : PageTable) (ts : List PageTable) (page : ℕ) (f : PageEntry → PageEntry)
    → All (Apart t) ts
    → All (Apart t) (modify_page ts page f)
unfolding modify_page
modify_page-Apart t [] page f h = tt
modify_page-Apart t (u ∷ us) page f h = elim (Option-cases (page_table_lookup_by_id u page)) [
  | inl e ↦ rw (e, modify_page) (h.0, modify_page-Apart t us page f h.1)
  | inr (i, e) ↦ rw (e, modify_page) (h.0, h.1)
]

pub modify_page-IsSpace :
    (ts : List PageTable) (page : ℕ) (f : PageEntry → PageEntry)
    → IsSpace ts
    → KeepsPlace f
    → IsSpace (modify_page ts page f)
unfolding modify_page
modify_page-IsSpace [] page f v k = tt
modify_page-IsSpace (t ∷ ts) page f v k = elim (lookup_id-cases t page v.0) [
  | inl e ↦
      rw (e, modify_page)
        (v.0, v.1, modify_page-Apart t ts page f v.2, modify_page-IsSpace ts page f v.3 k)
  | inr (i, e, eq, lt) ↦ rw (e, modify_page) (modify_at-IsTable t i f v.0 lt k, v.1, v.2, v.3)
]

pub found_at :
    (t : PageTable) (ts : List PageTable) (page i : ℕ)
    → page_table_lookup_by_id t page ≡ some i
    → find_page (t ∷ ts) page ≡ some (entry_at t i)
unfolding find_page
found_at t ts page i e = rw (find_page, e) refl

missed_at :
    (t : PageTable) (ts : List PageTable) (page : ℕ)
    → page_table_lookup_by_id t page ≡ none
    → find_page (t ∷ ts) page ≡ find_page ts page
unfolding find_page
missed_at t ts page e = rw (find_page, e) refl

-- A write to one page of the tables is seen at that page only.
pub find_page-modify_self :
    (ts : List PageTable) (p : ℕ) (f : PageEntry → PageEntry)
    → IsSpace ts
    → find_page (modify_page ts p f) p ≡ Option.map f (find_page ts p)
unfolding modify_page find_page
find_page-modify_self [] p f v = refl
find_page-modify_self (t ∷ ts) p f v = elim (lookup_id-cases t p v.0) [
  | inl away ↦ rw (away, modify_page, find_page, away) (find_page-modify_self ts p f v.3)
  | inr (i, here, eq, lt) ↦
      let es = set t.entries i (f (entry_at t i)) in
      rw
        (
          here,
          modify_page,
          found_at (modify_at t i f) ts p i (lookup_id-entries t es p ∙ here),
          found_at t ts p i here,
        )
        (ap some
          (get_or-set_self t.entries i (f (entry_at t i)) blank_entry (omega (arith, v.0.filled))))
]

pub find_page-modify_ne :
    (ts : List PageTable) (p q : ℕ) (f : PageEntry → PageEntry)
    → IsSpace ts
    → p ≢ q
    → find_page (modify_page ts p f) q ≡ find_page ts q
unfolding modify_page find_page
find_page-modify_ne [] p q f v ne = refl
find_page-modify_ne (t ∷ ts) p q f v ne = elim (lookup_id-cases t p v.0) [
  | inl away ↦ elim (lookup_id-cases t q v.0) [
    | inl off ↦
        rw (away, modify_page, missed_at t (modify_page ts p f) q off, missed_at t ts q off)
          (find_page-modify_ne ts p q f v.3 ne)
    | inr (j, on, eq', lt') ↦
        rw (away, modify_page, found_at t (modify_page ts p f) q j on, found_at t ts q j on) refl
  ]
  | inr (i, here, eq, lt) ↦
      let e = f (entry_at t i) in
      let same = lookup_id-entries t (set t.entries i e) q in
      elim (lookup_id-cases t q v.0) [
        | inl off ↦
            rw
              (
                here,
                modify_page,
                missed_at (modify_at t i f) ts q (same ∙ off),
                missed_at t ts q off,
              )
              refl
        | inr (j, on, eq', lt') ↦
            rw
              (
                here,
                modify_page,
                found_at (modify_at t i f) ts q j (same ∙ on),
                found_at t ts q j on,
              )
              (ap some
                (get_or-set_ne t.entries i j e blank_entry (λ h. ne (omega (arith, h, eq, eq')))))
      ]
]

-- The address of a found entry is off the range of every table that is apart from all.
found-Apart :
    (u : PageTable) (ts : List PageTable) (page : ℕ) (e : PageEntry)
    → IsSpace ts
    → All (Apart u) ts
    → find_page ts page ≡ some e
    → (e.local_addr < u.base_addr) ⊎ (u.base_addr + u.num_pages * 4096 ≤ e.local_addr)
unfolding find_page
found-Apart u [] page e v h found = cc
found-Apart u (t ∷ ts) page e v h found = elim (lookup_id-cases t page v.0) [
  | inl away ↦ found-Apart u ts page e v.3 h.1 (rw (away, find_page) at found)
  | inr (i, here, eq, lt) ↦
      let place = place_of t i v.0 lt in
      let same : e.local_addr ≡ t.base_addr + i * 4096 =
        ap PageEntry.local_addr (sym (some_eq (rw (here, find_page) at found))) ∙ place in
      elim h.0 [
        | inl before ↦ inr (omega (arith, before, same))
        | inr after ↦ inl (omega (arith, after, same))
      ]
]

-- A found entry lies on a page boundary, and not at NULL.
pub found_place :
    (ts : List PageTable) (page : ℕ) (e : PageEntry)
    → IsSpace ts
    → find_page ts page ≡ some e
    → (page_get_base_addr e.local_addr ≡ e.local_addr) × (0 < e.local_addr)
unfolding find_page
found_place [] page e v found = cc
found_place (t ∷ ts) page e v found = elim (lookup_id-cases t page v.0) [
  | inl away ↦ found_place ts page e v.3 (rw (away, find_page) at found)
  | inr (i, here, eq, lt) ↦
      let place = place_of t i v.0 lt in
      let same : e.local_addr ≡ t.base_addr + i * 4096 =
        ap PageEntry.local_addr (sym (some_eq (rw (here, find_page) at found))) ∙ place in
      rw same (page_base_place t.base_addr i v.1, omega (arith, v.0.based))
]

-- The search by page ID and the search by the address of the entry that it finds reach the same
-- entry: a write through either pointer leaves the same tables. The tables are well formed, on page
-- boundaries and in separate ranges of addresses.
pub modify_addr-modify_page :
    (ts : List PageTable) (page : ℕ) (e : PageEntry) (f : PageEntry → PageEntry)
    → IsSpace ts
    → find_page ts page ≡ some e
    → modify_addr ts (page_get_base_addr e.local_addr) f ≡ modify_page ts page f
unfolding modify_addr modify_page find_page
modify_addr-modify_page [] page e f v found = refl
modify_addr-modify_page (t ∷ ts) page e f v found = elim (lookup_id-cases t page v.0) [
  | inl away ↦
      let found' = rw (away, find_page) at found in
      let out = lookup_addr_outside t e.local_addr v.0 (found-Apart t ts page e v.3 v.2 found') in
      rw (away, modify_page, modify_addr, (found_place ts page e v.3 found').0, out)
        (ap (λ us. t ∷ us) (modify_addr-modify_page ts page e f v.3 found'))
  | inr (i, here, eq, lt) ↦
      let place = place_of t i v.0 lt in
      let same : e.local_addr ≡ t.base_addr + i * 4096 =
        ap PageEntry.local_addr (sym (some_eq (rw (here, find_page) at found))) ∙ place in
      rw
        (
          here,
          modify_page,
          modify_addr,
          same,
          page_base_place t.base_addr i v.1,
          lookup_addr_place t i v.0 lt,
        )
        refl
]

pub found_has_tables :
    (n : PageNode) (page : ℕ) (e : PageEntry)
    → find_page n.page_tables page ≡ some e
    → has_tables n ≡ true
unfolding find_page
found_has_tables n page e found = elim (List-cases n.page_tables) [
  | inl none_here ↦ absurd (ground (arith, none_here))
  | inr (t, ts, eq) ↦ rw eq refl
]

-- With tables and a successful `mprotect`, the permission of a found page is set, and its state with
-- it, and no other page is touched.
pub permission_granted :
    (n : PageNode) (page : ℕ) (e : PageEntry) (perm : PagePerm)
    → n.initialized ≡ true
    → IsSpace n.page_tables
    → find_page n.page_tables page ≡ some e
    → set_page_permission true n e.local_addr perm
      ≡ (success, at_page page (with_state (state_of perm)) (protect e.local_addr perm n))
unfolding set_page_permission find_page
permission_granted n page e perm up v found =
    let place = found_place n.page_tables page e v found in
    rw
      (
        set_page_permission,
        ==_ne e.local_addr 0 (omega (arith, place.1)),
        up,
        found_has_tables n page e found,
        modify_addr-modify_page n.page_tables page e (with_state (state_of perm)) v found,
        place.0,
      )
      refl
