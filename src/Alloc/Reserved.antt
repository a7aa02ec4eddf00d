-- ===== src/Alloc/Reserved.antt =====
-- src/memory/allocator.c: what `dsm_malloc` has done when it broadcasts a new table.
use user_level_dsm.Prelude.{
  ℕ, ◌++◌, ◌≡◌, ◌≢◌, ◌∷◌, some, [], arith, ◌+◌, true, Bool, Option, subst, Bool-cases, ◌||◌, none,
  length, ◌==◌, not, false, inl, refl, inr, Option-cases, leb, ap, ◌<◌,
}
use user_level_dsm.Alloc.Memory.{add_table, reserve, take_pages, one_more, aligned}
use user_level_dsm.Alloc.{AllocNode, AllocEnv, consistency_init}
use user_level_dsm.PageTable.{PageTable, first_page_id, page_table_create, max_slots}
use user_level_dsm.Directory.{Directory}
use user_level_dsm.Types.{is_success}
use user_level_dsm.PageTable.Valid.{create_is_new}

-- What `reserve` has done where it adds a table.
pub record IsReserved (mapped_at : Option ℕ) (n : AllocNode) (t : PageTable) (n' : AllocNode)
    : Type 0 where
  pub tables : n'.page_tables ≡ n.page_tables ++ t ∷ []
  pub count : n'.num_local_allocations ≡ n.num_local_allocations + 1
  pub node : n'.node_id ≡ n.node_id
  pub ready : n'.initialized ≡ true
  pub peers : n'.nodes ≡ n.nodes
  pub tracker : n'.tracker ≡ n.tracker
  pub starts : t.start_page_id ≡ first_page_id n.node_id n.num_local_allocations
  pub based : t.base_addr ≢ 0
  pub mapped : mapped_at ≡ some t.base_addr
  pub within : n.num_local_allocations < max_slots

abbrev Reserved : Option ℕ → AllocNode → Option PageTable × AllocNode → Type 0
Reserved o n (none, n') = Unit
Reserved o n (some t, n') = IsReserved o n t n'

-- A table as `page_table_create` makes it for the node's next slot.
record IsNext (mapped_at : Option ℕ) (n : AllocNode) (t : PageTable) : Type 0 where
  starts : t.start_page_id ≡ first_page_id n.node_id n.num_local_allocations
  based : t.base_addr ≢ 0
  mapped : mapped_at ≡ some t.base_addr
  within : n.num_local_allocations < max_slots

create-IsNext :
    (o : Option ℕ) (base size : ℕ) (n : AllocNode) (t : PageTable)
    → o ≡ some base
    → page_table_create base size n.node_id n.num_local_allocations ≡ some t
    → IsNext o n t
create-IsNext o base size n t e h =
    let c = create_is_new base size n.node_id n.num_local_allocations t h in
    record {
      starts = ap (λ (x : PageTable). x.start_page_id) c.3;
      based = rw c.3 (ground (arith, c.0));
      within = c.1;
      mapped = rw c.3 e;
    }

take_pages-Reserved :
    (env : AllocEnv) (o : Option ℕ) (n : AllocNode) (t : PageTable) (d : Option Directory)
    (b : Bool)
    → n.initialized ≡ true
    → IsNext o n t
    → Reserved o n (take_pages env (record (one_more n) { has_primary = b; directory = d }) t)
unfolding take_pages
take_pages-Reserved env o n t none b i s = record {
  tables = refl;
  count = refl;
  node = refl;
  ready = i;
  peers = refl;
  tracker = refl;
  starts = s.starts;
  based = s.based;
  within = s.within;
  mapped = s.mapped;
}
take_pages-Reserved env o n t (some d) b i s = record {
  tables = refl;
  count = refl;
  node = refl;
  ready = i;
  peers = refl;
  tracker = refl;
  starts = s.starts;
  based = s.based;
  within = s.within;
  mapped = s.mapped;
}

same-IsNext :
    (o : Option ℕ) (n : AllocNode) (b : Bool) (t : PageTable)
    → IsNext o n t
    → IsNext o (record n { has_primary = b }) t
same-IsNext o n b t s = record {
  starts = s.starts;
  based = s.based;
  within = s.within;
  mapped = s.mapped;
}

add_table-Reserved :
    (env : AllocEnv) (o : Option ℕ) (n : AllocNode) (t : PageTable)
    → n.initialized ≡ true
    → IsNext o n t
    → Reserved o n (add_table env n t)
unfolding add_table
add_table-Reserved env o n t i s = elim (Bool-cases n.has_primary) [
  | inl old ↦
      rw (old, add_table)
        (take_pages-Reserved env o (record n { has_primary = true }) t n.directory true i
          (same-IsNext o n true t s))
  | inr new ↦ elim (Bool-cases (is_success (consistency_init env.dir_ok n.directory).0)) [
    | inl fine ↦
        rw (new, add_table)
          (rw fine (
            take_pages-Reserved env o (record n { has_primary = false }) t
              (consistency_init env.dir_ok n.directory).1 true i (same-IsNext o n false t s)))
    | inr bad ↦ rw (new, add_table) (rw bad tt)
  ]
]

is_ready : (a i : Bool) → (a || not i) ≡ false → i ≡ true
is_ready a i h = ground arith

reserve-Reserved :
    (env : AllocEnv) (n : AllocNode) (size : ℕ) → Reserved env.mapped n (reserve env n size)
unfolding reserve
reserve-Reserved env n size = elim (Bool-cases ((size == 0) || not n.initialized)) [
  | inl bad ↦ rw (bad, reserve) tt
  | inr good ↦ elim (Option-cases env.mapped) [
    | inl e ↦ rw (good, reserve) (rw e tt)
    | inr (addr, e) ↦ elim (Bool-cases (leb max_slots (length n.page_tables))) [
      | inl full ↦ rw (good, reserve) (rw e (rw full tt))
      | inr room ↦
          elim (Option-cases
            (page_table_create addr (aligned size) n.node_id n.num_local_allocations)) [
              | inl c ↦ rw (good, reserve) (rw e (rw room (rw c tt)))
              | inr (t, c) ↦
                  rw (good, reserve)
                    (rw e (
                      rw room (
                        rw c (
                          add_table-Reserved env (some addr) n t (is_ready _ n.initialized good)
                            (create-IsNext (some addr) addr (aligned size) n t refl c)))))
            ]
    ]
  ]
]

pub reserve-IsReserved :
    (env : AllocEnv) (n : AllocNode) (size : ℕ) (t : PageTable) (n' : AllocNode)
    → reserve env n size ≡ (some t, n')
    → IsReserved env.mapped n t n'
reserve-IsReserved env n size t n' h = subst (Reserved env.mapped n) h (reserve-Reserved env n size)
