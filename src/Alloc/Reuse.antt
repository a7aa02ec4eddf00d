-- ===== src/Alloc/Reuse.antt =====
-- src/memory/allocator.c: which page IDs an allocation gets, after allocations and releases.
use mathlib.Core.Option
use user_level_dsm.Alloc.Memory.{
  announce, settle, Allocation, notice_of, handle_acks, expected_from, drop_table, table_at,
  dsm_free, dsm_malloc, reserve, remove_table, is_local,
}
use user_level_dsm.Alloc.{AllocEnv, AllocNode, Ack, Post, AckTracker}
use user_level_dsm.Prelude.{
  Option, ◌≡◌, ℕ, some, List, sym, some_eq, none, ◌<◌, refl, arith, ◌^◌, false, Bool-cases, inl,
  inr, length, ◌++◌, Option-cases, true, ap, ◌≢◌, ◌∷◌, ltb, [], ◌==◌, ==_ne, ◌-◌, ◌∙◌,
}
use user_level_dsm.Alloc.Notices.{wait_for_alloc_acks, AckWait, send_alloc_notify}
use user_level_dsm.PageTable.{PageTable, first_page_id}
use user_level_dsm.Alloc.Aborted.{
  IsUnused, IsPending, handle_acks_idle, freed_node, freed_count, freed_tables,
}
use user_level_dsm.Types.{Status, is_success}
use user_level_dsm.Alloc.Reserved.{IsReserved, reserve-IsReserved}
use user_level_dsm.Alloc.Ranges.{IsPlanned, same_plan, reserve-IsPlanned}

wait_keeps :
    (n : AllocNode) (s e k : ℕ) (ws : List AckWait) (r : Status × AllocNode)
    → wait_for_alloc_acks n s e k ws ≡ some r
    → (x : AckTracker) × (r.1 ≡ record n { tracker = x })
unfolding wait_for_alloc_acks
wait_keeps n s e k ws r h = (r.1.tracker, ground arith)

map-some :
    {A B : Type 0} (f : A → B) (o : Option A) (b : B)
    → Option.map f o ≡ some b
    → (a : A) × (o ≡ some a) × (b ≡ f a)
map-some f none b h = cc
map-some f (some a) b h = (a, refl, sym (some_eq h))

-- `mmap` returns an address at which no table starts.
abbrev pub IsNewAddress : AllocEnv → AllocNode → Type 0
IsNewAddress env n = (addr : ℕ) → env.mapped ≡ some addr → IsUnused addr n.page_tables

settle-IsPlanned :
    (env : AllocEnv) (n : AllocNode) (t : PageTable) (n' m : AllocNode) (posts : List Post)
    (code : Status)
    → n.node_id < 2 ^ 32
    → IsReserved env.mapped n t n'
    → IsPending n' m
    → IsUnused t.base_addr n.page_tables
    → IsPlanned n
    → IsPlanned n'
    → IsPlanned (settle env t posts (code, m)).after
unfolding settle
settle-IsPlanned env n t n' m posts code h r q u p p' = elim (Bool-cases (is_success code)) [
  | inl fine ↦ rw (fine, settle) (same_plan n' m q.node q.count q.tables p')
  | inr bad ↦
      rw (bad, settle)
        (same_plan n _ (freed_node env n t n' m r q u) (freed_count env n t n' m h r q u)
          (freed_tables env n t n' m r q u) p)
]

announce-IsPlanned :
    (env : AllocEnv) (n : AllocNode) (t : PageTable) (n' : AllocNode) (early : List Ack)
    (ws : List AckWait) (r : Allocation)
    → n.node_id < 2 ^ 32
    → n.tracker.active ≡ false
    → IsReserved env.mapped n t n'
    → IsNewAddress env n
    → IsPlanned n
    → IsPlanned n'
    → announce env n' t early ws ≡ some r
    → IsPlanned r.after
unfolding announce
announce-IsPlanned env n t n' early ws r h idle made new p p' e =
    let a = notice_of n' t in
    let posts = send_alloc_notify n' a in
    let ((code, m), w, same) = map-some (settle env t posts) _ r e in
    let (d, acks) = handle_acks_idle env n' early (rw made.tracker idle) in
    let (x, kept) =
      wait_keeps (handle_acks env n' early) a.start_page_id a.end_page_id
        (expected_from n'.node_id n'.nodes) ws (code, m) w in
    let q : IsPending n' m =
      rw kept (rw acks (record { tables = refl; count = refl; node = refl; ready = refl })) in
    rw same (settle-IsPlanned env n t n' m posts code h made q (new t.base_addr made.mapped) p p')

announced :
    (env : AllocEnv) (n : AllocNode) (size : ℕ) (t : PageTable) (early : List Ack)
    (ws : List AckWait) (r : Allocation)
    → n.node_id < 2 ^ 32
    → n.tracker.active ≡ false
    → IsNewAddress env n
    → IsPlanned n
    → (reserve env n size).0 ≡ some t
    → dsm_malloc env n size early ws ≡ some r
    → IsPlanned r.after
unfolding dsm_malloc
announced env n size t early ws r h idle new p e m =
    let n' = (reserve env n size).1 in
    let made : reserve env n size ≡ (some t, n') = λ i. (e i, n') in
    let p' = reserve-IsPlanned env n size h p in
    elim (Bool-cases (ltb 1 n.num_nodes)) [
      | inl many ↦
          announce-IsPlanned env n t n' early ws r h idle (reserve-IsReserved env n size t n' made)
            new p p' (rw many at (rw (e, dsm_malloc) at m))
      | inr alone ↦
          rw (← ap (λ (x : Allocation). x.after) (some_eq (rw alone at (rw (e, dsm_malloc) at m))))
            p'
    ]

-- On a node whose tracker is at rest and to which `mmap` gives an address at which no table starts,
-- `dsm_malloc` keeps the page IDs of the tables separate and those free that it has yet to give out,
-- whether it succeeds, is refused or times out and gives the memory back.
pub malloc-IsPlanned :
    (env : AllocEnv) (n : AllocNode) (size : ℕ) (early : List Ack) (ws : List AckWait)
    (r : Allocation)
    → n.node_id < 2 ^ 32
    → n.tracker.active ≡ false
    → IsNewAddress env n
    → IsPlanned n
    → dsm_malloc env n size early ws ≡ some r
    → IsPlanned r.after
unfolding dsm_malloc
malloc-IsPlanned env n size early ws r h idle new p m = elim (Option-cases (reserve env n size).0) [
  | inl e ↦
      rw (← ap (λ (x : Allocation). x.after) (some_eq (rw (e, dsm_malloc) at m)))
        (reserve-IsPlanned env n size h p)
  | inr (t, e) ↦ announced env n size t early ws r h idle new p e m
]

table_at-remove_table :
    (ts : List PageTable) (ptr base : ℕ)
    → base ≢ ptr
    → table_at (remove_table ts ptr) base ≡ table_at ts base
unfolding table_at remove_table
table_at-remove_table [] ptr base ne = refl
table_at-remove_table (t ∷ ts) ptr base ne = ground (arith, table_at-remove_table ts ptr base ne)

table_at-append :
    (ts us : List PageTable) (base : ℕ) (u : PageTable)
    → table_at ts base ≡ some u
    → table_at (ts ++ us) base ≡ some u
unfolding table_at
table_at-append [] us base u h = cc
table_at-append (t ∷ ts) us base u h = ground (arith, table_at-append ts us base u)

table_at-length :
    (ts : List PageTable) (ptr : ℕ) (t : PageTable) → table_at ts ptr ≡ some t → 0 < length ts
unfolding table_at
table_at-length [] ptr t h = cc
table_at-length (x ∷ ts) ptr t h = omega arith

pub free_found :
    (env : AllocEnv) (n : AllocNode) (ptr : ℕ) (t : PageTable)
    → n.initialized ≡ true
    → ptr ≢ 0
    → table_at n.page_tables ptr ≡ some t
    → (dsm_free env n ptr).2 ≡ drop_table n t ptr
unfolding dsm_free
free_found env n ptr t i b h =
    let some_left : (length n.page_tables == 0) ≡ false =
      ==_ne _ 0 (omega (arith, table_at-length n.page_tables ptr t h)) in
    ground (arith, some_left, ==_ne ptr 0 b)

-- After `dsm_free` of one of its own tables the next allocation of a node takes the page IDs of the
-- table that it made last: where that is another table, `u`, it is still there, and starts at the
-- same page ID as the new one.
pub free_reuses_ids :
    (env env' : AllocEnv) (n : AllocNode) (ptr size : ℕ) (t u v : PageTable) (n' : AllocNode)
    → n.initialized ≡ true
    → ptr ≢ 0
    → table_at n.page_tables ptr ≡ some t
    → is_local n t ≡ true
    → table_at n.page_tables u.base_addr ≡ some u
    → u.base_addr ≢ ptr
    → u.start_page_id ≡ first_page_id n.node_id (n.num_local_allocations - 1)
    → reserve env' (dsm_free env n ptr).2 size ≡ (some v, n')
    → (table_at n'.page_tables u.base_addr ≡ some u) × (v.start_page_id ≡ u.start_page_id)
unfolding drop_table
free_reuses_ids env env' n ptr size t u v n' i b ht local hu ne starts made =
    let after = (dsm_free env n ptr).2 in
    let r = reserve-IsReserved env' after size v n' made in
    let freed = free_found env n ptr t i b ht in
    let tables : after.page_tables ≡ remove_table n.page_tables ptr = rw freed in
    let node : after.node_id ≡ n.node_id = rw freed in
    let count : after.num_local_allocations ≡ n.num_local_allocations - 1 =
      rw (freed, drop_table) (rw local refl) in
    (
      rw r.tables (
          table_at-append after.page_tables (v ∷ []) u.base_addr u
            (rw tables (table_at-remove_table n.page_tables ptr u.base_addr ne ∙ hu))),
      r.starts ∙ rw (node, count) (sym starts),
    )
