-- ===== src/Alloc/Aborted.antt =====
-- src/memory/allocator.c: memory that is given back, after a time-out and by the program.
use user_level_dsm.Prelude.{
  ℕ, List, ◌++◌, ◌≡◌, All, ◌≢◌, ◌∷◌, some, [], arith, ◌+◌, true, Option, length, ◌==◌, false, refl,
  ==_ne, length-append, leb, ◌∙◌, ◌<◌, ◌^◌, ◌*◌, ◌&&◌, ltb, ◌≤◌, lt→ltb,
}
use user_level_dsm.Alloc.Memory.{
  remove_table, table_at, handle_acks, dsm_free, reserve, drop_table, dsm_malloc, announce,
  is_local, settle, expected_from, Allocation, notice_of,
}
use user_level_dsm.Alloc.{AllocNode, AllocEnv, Ack}
use user_level_dsm.PageTable.{PageTable, first_page_id, max_slots, node_ids}
use user_level_dsm.Alloc.Notices.{
  handle_alloc_ack, proxy_ack, wait_for_alloc_acks, await_acks, AckWait, expired, stopped,
  fresh_tracker, send_alloc_notify,
}
use user_level_dsm.Directory.{Directory}
use user_level_dsm.Types.{timeout_error}
use user_level_dsm.Alloc.Reserved.{reserve-IsReserved, IsReserved}

table_at_found :
    (ts : List PageTable) (ptr : ℕ) (t : PageTable) → table_at ts ptr ≡ some t → t.base_addr ≡ ptr
unfolding table_at
table_at_found [] ptr t h = cc
table_at_found (u ∷ ts) ptr t h = ground (arith, table_at_found ts ptr t)

-- No table starts at an address.
abbrev pub IsUnused : ℕ → List PageTable → Type 0
IsUnused addr ts = All (λ (t : PageTable). t.base_addr ≢ addr) ts

table_at-append_one :
    (ts : List PageTable) (t : PageTable)
    → IsUnused t.base_addr ts
    → table_at (ts ++ t ∷ []) t.base_addr ≡ some t
unfolding table_at
table_at-append_one [] t h = ground arith
table_at-append_one (u ∷ ts) t h = ground (arith, h.0, table_at-append_one ts t h.1)

remove_table-append_one :
    (ts : List PageTable) (t : PageTable)
    → IsUnused t.base_addr ts
    → remove_table (ts ++ t ∷ []) t.base_addr ≡ ts
unfolding remove_table
remove_table-append_one [] t h = ground arith
remove_table-append_one (u ∷ ts) t h = ground (arith, h.0, remove_table-append_one ts t h.1)

-- With the tracker at rest an acknowledgement changes at most the directory.
handle_alloc_ack_idle :
    (env : AllocEnv) (n : AllocNode) (sender : ℕ) (a : Ack)
    → n.tracker.active ≡ false
    → (d : Option Directory) × ((handle_alloc_ack env n sender a).1 ≡ record n { directory = d })
unfolding handle_alloc_ack proxy_ack
handle_alloc_ack_idle env n sender a h =
    ((handle_alloc_ack env n sender a).1.directory, ground arith)

pub handle_acks_idle :
    (env : AllocEnv) (n : AllocNode) (acks : List Ack)
    → n.tracker.active ≡ false
    → (d : Option Directory) × (handle_acks env n acks ≡ record n { directory = d })
unfolding handle_acks
handle_acks_idle env n [] h = (n.directory, refl)
handle_acks_idle env n (a ∷ rest) h =
    let (d, e) = handle_alloc_ack_idle env n a.acker a h in
    let (d', e') = handle_acks_idle env (record n { directory = d }) rest h in (d', rw e e')

free_last :
    (env : AllocEnv) (n : AllocNode) (t : PageTable) (ts : List PageTable)
    → n.initialized ≡ true
    → n.page_tables ≡ ts ++ t ∷ []
    → t.base_addr ≢ 0
    → IsUnused t.base_addr ts
    → (dsm_free env n t.base_addr).2 ≡ drop_table n t t.base_addr
unfolding dsm_free
free_last env n t ts i e b u =
    let found : table_at n.page_tables t.base_addr ≡ some t = rw e (table_at-append_one ts t u) in
    let some_left : (length n.page_tables == 0) ≡ false =
      rw e (==_ne _ 0 (omega (arith, length-append {0} ts (t ∷ [])))) in
    ground (arith, found, some_left, ==_ne t.base_addr 0 b)

timed_out : (k : ℕ) → k ≢ 0 → leb k 0 ≡ false
timed_out k h = ground arith

-- The wait forgets what has come before it: it starts with no acknowledgement.
wait_expires :
    (n : AllocNode) (s e k : ℕ) (ws : List AckWait)
    → k ≢ 0
    → wait_for_alloc_acks n s e k (expired ∷ ws)
      ≡ some (timeout_error, record n { tracker = stopped (fresh_tracker s e k) })
unfolding wait_for_alloc_acks await_acks
wait_expires n s e k ws h = rw (==_ne k 0 h, timed_out k h)

-- The node during the broadcast has the tables of the reservation.
pub record IsPending (n' m : AllocNode) : Type 0 where
  pub tables : m.page_tables ≡ n'.page_tables
  pub count : m.num_local_allocations ≡ n'.num_local_allocations
  pub node : m.node_id ≡ n'.node_id
  pub ready : m.initialized ≡ n'.initialized

free_reserved :
    (env : AllocEnv) (n : AllocNode) (t : PageTable) (n' m : AllocNode)
    → IsReserved env.mapped n t n'
    → IsPending n' m
    → IsUnused t.base_addr n.page_tables
    → (dsm_free env m t.base_addr).2 ≡ drop_table m t t.base_addr
free_reserved env n t n' m r p u =
    free_last env m t n.page_tables (p.ready ∙ r.ready) (p.tables ∙ r.tables) r.based u

pub freed_tables :
    (env : AllocEnv) (n : AllocNode) (t : PageTable) (n' m : AllocNode)
    → IsReserved env.mapped n t n'
    → IsPending n' m
    → IsUnused t.base_addr n.page_tables
    → (dsm_free env m t.base_addr).2.page_tables ≡ n.page_tables
unfolding drop_table
freed_tables env n t n' m r p u =
    rw (free_reserved env n t n' m r p u, p.tables, r.tables)
      (remove_table-append_one n.page_tables t u)

slot_is_local :
    (node k start : ℕ)
    → node < 2 ^ 32
    → k < max_slots
    → start ≡ first_page_id node k
    → (leb (node * node_ids) start && ltb start ((node + 1) * node_ids)) ≡ true
slot_is_local node k start hn hk e =
    let lo : node * 1000000 ≤ start = omega arith in
    let hi : start < (node + 1) * 1000000 = omega arith in ground arith

pub freed_node :
    (env : AllocEnv) (n : AllocNode) (t : PageTable) (n' m : AllocNode)
    → IsReserved env.mapped n t n'
    → IsPending n' m
    → IsUnused t.base_addr n.page_tables
    → (dsm_free env m t.base_addr).2.node_id ≡ n.node_id
unfolding drop_table
freed_node env n t n' m r p u = rw (free_reserved env n t n' m r p u, p.node, r.node)

pub freed_count :
    (env : AllocEnv) (n : AllocNode) (t : PageTable) (n' m : AllocNode)
    → n.node_id < 2 ^ 32
    → IsReserved env.mapped n t n'
    → IsPending n' m
    → IsUnused t.base_addr n.page_tables
    → (dsm_free env m t.base_addr).2.num_local_allocations ≡ n.num_local_allocations
unfolding drop_table
freed_count env n t n' m h r p u =
    let local : is_local m t ≡ true =
      rw (p.node, r.node)
        (slot_is_local n.node_id n.num_local_allocations t.start_page_id h r.within r.starts) in
    rw (free_reserved env n t n' m r p u, drop_table)
      (rw local (rw (p.count, r.count) (omega arith)))

malloc_announces :
    (env : AllocEnv) (n : AllocNode) (size : ℕ) (t : PageTable) (n' : AllocNode) (early : List Ack)
    (ws : List AckWait)
    → reserve env n size ≡ (some t, n')
    → 1 < n.num_nodes
    → dsm_malloc env n size early ws ≡ announce env n' t early ws
unfolding dsm_malloc
malloc_announces env n size t n' early ws made many =
    ground (arith, made, lt→ltb 1 n.num_nodes many)

abbrev late : AllocNode → PageTable → Option Directory → AllocNode
late n' t d =
    let a = notice_of n' t in
    record n' {
      directory = d;
      tracker =
          stopped (fresh_tracker a.start_page_id a.end_page_id (expected_from n'.node_id n'.nodes));
    }

announce_expires :
    (env : AllocEnv) (n' : AllocNode) (t : PageTable) (early : List Ack) (ws : List AckWait)
    (d : Option Directory)
    → handle_acks env n' early ≡ record n' { directory = d }
    → expected_from n'.node_id n'.nodes ≢ 0
    → announce env n' t early (expired ∷ ws)
      ≡ some (record {
        address = 0;
        posts = send_alloc_notify n' (notice_of n' t);
        after = (dsm_free env (late n' t d) t.base_addr).2;
      })
unfolding announce settle
announce_expires env n' t early ws d e some_peer =
    let a = notice_of n' t in
    let w =
      wait_expires (record n' { directory = d }) a.start_page_id a.end_page_id
        (expected_from n'.node_id n'.nodes) ws some_peer in
    rw (e, announce) (rw w)

-- Acknowledgements that are handled before the wait are lost: with the tracker at rest, other nodes
-- to wait for, and an address from `mmap` at which no table starts, whatever acknowledgements have
-- come before the wait, when none comes in it, `dsm_malloc` times out, returns NULL and has the
-- tables that it had before.
pub early_acks_lost :
    (env : AllocEnv) (n : AllocNode) (size : ℕ) (t : PageTable) (n' : AllocNode) (early : List Ack)
    (ws : List AckWait)
    → n.tracker.active ≡ false
    → reserve env n size ≡ (some t, n')
    → IsUnused t.base_addr n.page_tables
    → 1 < n.num_nodes
    → expected_from n.node_id n.nodes ≢ 0
    → (r : Allocation) × (dsm_malloc env n size early (expired ∷ ws) ≡ some r)
      × (r.address ≡ 0)
      × (r.after.page_tables ≡ n.page_tables)
early_acks_lost env n size t n' early ws idle made unused many some_peer =
    let r = reserve-IsReserved env n size t n' made in
    let (d, e) = handle_acks_idle env n' early (rw r.tracker idle) in
    let pending : IsPending n' (late n' t d) = record {
      tables = refl;
      count = refl;
      node = refl;
      ready = refl;
    } in
    (
      record {
        address = 0;
        posts = send_alloc_notify n' (notice_of n' t);
        after = (dsm_free env (late n' t d) t.base_addr).2;
      },
      malloc_announces env n size t n' early (expired ∷ ws) made many
          ∙ announce_expires env n' t early ws d e (rw (r.node, r.peers) some_peer),
      refl,
      freed_tables env n t n' (late n' t d) r pending unused,
    )
