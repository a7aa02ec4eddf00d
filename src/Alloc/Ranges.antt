-- ===== src/Alloc/Ranges.antt =====
-- src/memory/allocator.c: the page IDs of the tables of one node.
use user_level_dsm.PageTable.{PageTable, node_ids, page_table_create, slot_ids, max_slots}
use user_level_dsm.Alloc.Memory.{reserve, take_pages, add_table, one_more, owned_by, aligned}
use user_level_dsm.Prelude.{
  List, ℕ, ◌≡◌, All, ◌∷◌, ◌<◌, ◌+◌, inl, ◌++◌, Bool-cases, ◌*◌, [], ◌≤◌, arith, ◌^◌, Option, inr,
  ◌⊎◌, ◌∙◌, All-append, ◌==◌, ◌||◌, Bool, some, map, not, Option-cases, true, leb, none, length,
  refl,
}
use user_level_dsm.Alloc.{AllocNode, AllocEnv, consistency_init}
use user_level_dsm.Alloc.Notices.{with_table}
use user_level_dsm.Directory.{Directory}
use user_level_dsm.Types.{is_success}
use user_level_dsm.PageTable.Ranges.{create_bounds}

-- Two tables share no page ID.
abbrev pub IdsApart : PageTable → PageTable → Type 0
IdsApart t u =
    (t.start_page_id + t.num_pages ≤ u.start_page_id)
    ⊎ (u.start_page_id + u.num_pages ≤ t.start_page_id)

abbrev pub IsApart : List PageTable → Type 0
IsApart [] = Unit
IsApart (t ∷ ts) = All (IdsApart t) ts × IsApart ts

-- A table with no page ID that the node has yet to give out.
abbrev pub IsGiven : (node used : ℕ) → PageTable → Type 0
IsGiven node used t =
    (t.start_page_id + t.num_pages ≤ node * node_ids + used * slot_ids)
    ⊎ ((node + 1) * node_ids ≤ t.start_page_id)

-- The tables of a node have separate page IDs, and those that it has yet to give out are free.
pub record IsPlanned (n : AllocNode) : Type 0 where
  pub apart : IsApart n.page_tables
  pub given : All (IsGiven n.node_id n.num_local_allocations) n.page_tables

pub append_one-IsApart :
    (ts : List PageTable) (t : PageTable)
    → IsApart ts
    → All (λ u. IdsApart u t) ts
    → IsApart (ts ++ t ∷ [])
append_one-IsApart [] t a h = (tt, tt)
append_one-IsApart (u ∷ ts) t a h =
    (All-append (IdsApart u) ts (t ∷ []) a.0 (h.0, tt), append_one-IsApart ts t a.1 h.1)

pub All-imp :
    (P Q : PageTable → Type 0) (ts : List PageTable)
    → ((t : PageTable) → P t → Q t)
    → All P ts
    → All Q ts
All-imp P Q [] f h = tt
All-imp P Q (t ∷ ts) f h = (f t h.0, All-imp P Q ts f h.1)

IsGiven-later :
    (node k : ℕ) (ts : List PageTable) → All (IsGiven node k) ts → All (IsGiven node (k + 1)) ts
IsGiven-later node k ts h = All-imp (IsGiven node k) (IsGiven node (k + 1)) ts (step node k) h
  where
    step : (node k : ℕ) (t : PageTable) → IsGiven node k t → IsGiven node (k + 1) t
    step node k t (inl lo) = inl (omega arith)
    step node k t (inr hi) = inr hi

-- The slot of a table in its node's range.
record IsSlot (node used : ℕ) (t : PageTable) : Type 0 where
  starts : t.start_page_id ≡ node * node_ids + used * slot_ids
  fits : t.num_pages ≤ slot_ids
  within : used < max_slots

create-IsSlot :
    (base size node used : ℕ) (t : PageTable)
    → node < 2 ^ 32
    → page_table_create base size node used ≡ some t
    → IsSlot node used t
create-IsSlot base size node used t h e =
    let b = create_bounds base size node used t e in
    record { starts = omega (arith, b); fits = b.1; within = b.0 }

slot_apart :
    (node used : ℕ) (t u : PageTable) → IsSlot node used t → IsGiven node used u → IdsApart u t
slot_apart node used t u s (inl lo) = inl (omega (arith, s.starts))
slot_apart node used t u s (inr hi) = inr (omega (arith, s.starts, s.fits, s.within))

-- The place in the ranges is all that counts of a table.
add_slot-IsPlanned :
    (n : AllocNode) (t t' : PageTable)
    → IsSlot n.node_id n.num_local_allocations t
    → t'.start_page_id ≡ t.start_page_id
    → t'.num_pages ≡ t.num_pages
    → IsPlanned n
    → IsPlanned (with_table t' (one_more n))
add_slot-IsPlanned n t t' s es en p =
    let node = n.node_id in
    let used = n.num_local_allocations in
    let s' : IsSlot node used t' = record {
      starts = es ∙ s.starts;
      fits = omega (arith, s.fits);
      within = s.within;
    } in
    record {
      apart = append_one-IsApart n.page_tables t' p.apart (
          All-imp (IsGiven node used) (λ u. IdsApart u t') n.page_tables
            (λ u h. slot_apart node used t' u s' h) p.given);
      given =
          All-append (IsGiven node (used + 1)) n.page_tables (t' ∷ [])
            (IsGiven-later node used n.page_tables p.given)
            (inl (omega (arith, s'.starts, s'.fits)), tt);
    }

-- Only the ID, the count and the tables of a node matter.
pub same_plan :
    (n m : AllocNode)
    → m.node_id ≡ n.node_id
    → m.num_local_allocations ≡ n.num_local_allocations
    → m.page_tables ≡ n.page_tables
    → IsPlanned n
    → IsPlanned m
same_plan n m ei ec et p = record { apart = rw et p.apart; given = rw (ei, ec, et) p.given }

count_only-IsPlanned : (n : AllocNode) → IsPlanned n → IsPlanned (one_more n)
count_only-IsPlanned n p = record {
  apart = p.apart;
  given = IsGiven-later n.node_id n.num_local_allocations n.page_tables p.given;
}

take_pages-IsPlanned :
    (env : AllocEnv) (n : AllocNode) (t : PageTable) (d : Option Directory) (b : Bool)
    → IsSlot n.node_id n.num_local_allocations t
    → IsPlanned n
    → IsPlanned (take_pages env (record (one_more n) { has_primary = b; directory = d }) t).1
unfolding take_pages
take_pages-IsPlanned env n t none b s p =
    same_plan (with_table t (one_more n)) _ refl refl refl (add_slot-IsPlanned n t t s refl refl p)
take_pages-IsPlanned env n t (some d) b s p =
    let t' : PageTable = record t { entries = map (owned_by n.node_id) t.entries } in
    same_plan (with_table t' (one_more n)) _ refl refl refl
      (add_slot-IsPlanned n t t' s refl refl p)

add_table-IsPlanned :
    (env : AllocEnv) (n : AllocNode) (t : PageTable)
    → IsSlot n.node_id n.num_local_allocations t
    → IsPlanned n
    → IsPlanned (add_table env n t).1
unfolding add_table
add_table-IsPlanned env n t s p = elim (Bool-cases n.has_primary) [
  | inl old ↦ rw (old, add_table) (take_pages-IsPlanned env n t n.directory true s p)
  | inr new ↦ elim (Bool-cases (is_success (consistency_init env.dir_ok n.directory).0)) [
    | inl ok ↦
        rw (new, add_table)
          (rw ok
            (take_pages-IsPlanned env n t (consistency_init env.dir_ok n.directory).1 true s p))
    | inr bad ↦
        rw (new, add_table)
          (rw bad (same_plan (one_more n) _ refl refl refl (count_only-IsPlanned n p)))
  ]
]

-- The part of `dsm_malloc` before the broadcast keeps the page IDs of the tables of a node separate,
-- and leaves those free that it has yet to give out, whether it succeeds or not.
pub reserve-IsPlanned :
    (env : AllocEnv) (n : AllocNode) (size : ℕ)
    → n.node_id < 2 ^ 32
    → IsPlanned n
    → IsPlanned (reserve env n size).1
unfolding reserve
reserve-IsPlanned env n size h p = elim (Bool-cases ((size == 0) || not n.initialized)) [
  | inl bad ↦ rw (bad, reserve) p
  | inr good ↦ elim (Option-cases env.mapped) [
    | inl e ↦ rw (good, reserve) (rw e p)
    | inr (addr, e) ↦ elim (Bool-cases (leb max_slots (length n.page_tables))) [
      | inl full ↦ rw (good, reserve) (rw e (rw full p))
      | inr room ↦
          elim (Option-cases
            (page_table_create addr (aligned size) n.node_id n.num_local_allocations)) [
              | inl c ↦ rw (good, reserve) (rw e (rw room (rw c p)))
              | inr (t, c) ↦
                  rw (good, reserve)
                    (rw e (
                      rw room (
                        rw c (
                          add_table-IsPlanned env n t
                            (create-IsSlot addr (aligned size) n.node_id n.num_local_allocations t h
                              c)
                            p))))
            ]
    ]
  ]
]
