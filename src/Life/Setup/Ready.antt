-- ===== src/Life/Setup/Ready.antt =====
-- game_of_life/gol_state.c: after its start a node has all partitions of both grids.
use native.Mathlib.Nat.{zero-add}
use user_level_dsm.Life.Setup.{
  GolConfig, gol_state_init, gol_allocate_partition, with_both, retrieve_one, retrieve_from,
  gol_retrieve_partitions,
}
use user_level_dsm.Life.Rules.Cell.{Grid, IsReady}
use user_level_dsm.Life.{GolState, rows_of, gol_calculate_partition}
use user_level_dsm.Prelude.{
  refl, ℕ, ◌<◌, Option, length, List, get_or, ◌≡◌, ◌*◌, none, some, ◌≢◌, ◌⊎◌, ◌+◌, set, eq-cases,
  inl, arith, length-set, subst, get_or-set_self, inr, get_or-set_ne, ◌∙◌, suc, ◌==◌, true, ==_ne,
  zero, replicate, sym, length-replicate, ap,
}
use user_level_dsm.Types.{Status, success}
use user_level_dsm.Life.Rules.Generation.{own_span}

-- A partition is there, with the cells of its rows.
record IsFilled (g : Grid) (size i : ℕ) : Type 0 where
  inside : i < length g
  cells : List ℕ
  at : get_or g i none ≡ some cells
  whole : length cells ≡ size

set-IsFilled :
    (g : Grid) (size i node : ℕ) (cells : List ℕ)
    → node < length g
    → (node ≡ i → length cells ≡ size)
    → (node ≢ i → IsFilled g size i)
    → IsFilled (set g node (some cells)) size i
set-IsFilled g size i node cells lt here there = elim (eq-cases node i) [
  | inl e ↦ record {
    inside = omega (arith, length-set g node (some cells), e, lt);
    cells = cells;
    at =
        subst (λ k. get_or (set g node (some cells)) k none ≡ some cells) e
          (get_or-set_self g node (some cells) none lt);
    whole = here e;
  }
  | inr ne ↦
      let f = there ne in
      record {
        inside = omega (arith, length-set g node (some cells), f.inside);
        cells = f.cells;
        at = get_or-set_ne g node i (some cells) none ne ∙ f.at;
        whole = f.whole;
      }
]

abbrev size_of : GolState → ℕ → ℕ
size_of s i = rows_of s.grid_height s.num_nodes i * s.grid_width

-- The partitions of a grid that are known when the loop comes to `node`: those below, and the own.
abbrev Known : GolState → (node i : ℕ) → Type 0
Known s node i = (i < node) ⊎ (i ≡ s.my_node_id)

record IsFilling (s : GolState) (node : ℕ) (g : Grid) : Type 0 where
  room : length g ≡ s.num_nodes
  filled : (i : ℕ) → i < s.num_nodes → Known s node i → IsFilled g (size_of s i) i

-- The allocations of the other nodes are where the node looks for them, each of its rows.
abbrev pub IsShared : (get : ℕ → Option (List ℕ)) → GolState → Type 0
IsShared get s =
    (i : ℕ)
    → i < s.num_nodes
    → ((c : List ℕ) × (get (i * 2) ≡ some c) × (length c ≡ size_of s i))
      × ((c : List ℕ) × (get (i * 2 + 1) ≡ some c) × (length c ≡ size_of s i))

abbrev with_grids : GolState → Grid → Grid → GolState
with_grids s current next = record s { partitions_current = current; partitions_next = next }

set-IsFilling :
    (s : GolState) (node : ℕ) (g : Grid) (cells : List ℕ)
    → node < s.num_nodes
    → length cells ≡ size_of s node
    → IsFilling s node g
    → IsFilling s (node + 1) (set g node (some cells))
set-IsFilling s node g cells lt size f = record {
  room = length-set g node (some cells) ∙ f.room;
  filled = λ i h k.
      set-IsFilled g (size_of s i) i node cells (omega (arith, f.room))
        (λ e. subst (λ x. length cells ≡ size_of s x) e size) (λ ne. f.filled i h (earlier i ne k));
}
  where
    earlier : (i : ℕ) → node ≢ i → Known s (node + 1) i → Known s node i
    earlier i ne (inl lt) = inl (omega arith)
    earlier i ne (inr e) = inr e

skip-IsFilling :
    (s : GolState) (node : ℕ) (g : Grid)
    → node ≡ s.my_node_id
    → IsFilling s node g
    → IsFilling s (node + 1) g
skip-IsFilling s node g me f = record {
  room = f.room;
  filled = λ i h k. f.filled i h (earlier i k);
}
  where
    earlier : (i : ℕ) → Known s (node + 1) i → Known s node i
    earlier i (inr e) = inr e
    earlier i (inl lt) = elim (eq-cases i node) [
      | inl e ↦ inr (e ∙ me)
      | inr ne ↦ inl (omega arith)
    ]

-- What the loop leaves.
record IsRetrieved (s : GolState) (r : Status × GolState) : Type 0 where
  current : Grid
  next : Grid
  out : r ≡ (success, with_grids s current next)
  all_current : IsFilling s s.num_nodes current
  all_next : IsFilling s s.num_nodes next

retrieved :
    (get : ℕ → Option (List ℕ)) (s : GolState) (node : ℕ) (c d : List ℕ)
    → get (node * 2) ≡ some c
    → get (node * 2 + 1) ≡ some d
    → retrieve_one get s node ≡ (none, with_both s node (some c) (some d))
unfolding retrieve_one
retrieved get s node c d h h' = simp (h, h', retrieve_one)

next_node :
    (get : ℕ → Option (List ℕ)) (s t : GolState) (node k : ℕ)
    → node ≢ s.my_node_id
    → retrieve_one get s node ≡ (none, t)
    → retrieve_from get s node (suc k) ≡ retrieve_from get t (node + 1) k
unfolding retrieve_from
next_node get s t node k ne h = rw (==_ne node s.my_node_id ne) (
    ap
      (λ (p : Option Status × GolState).
        let r : Status × GolState = elim p.0 [
          | some error ↦ (error, p.1)
          | none ↦ retrieve_from get p.1 (node + 1) k
        ] in
        r)
      h)

retrieve-IsRetrieved :
    (get : ℕ → Option (List ℕ)) (s : GolState) (current next : Grid) (node k : ℕ)
    → node + k ≡ s.num_nodes
    → IsShared get s
    → IsFilling s node current
    → IsFilling s node next
    → IsRetrieved s (retrieve_from get (with_grids s current next) node k)
unfolding retrieve_from
retrieve-IsRetrieved get s current next node zero e shared f g =
    let last : node ≡ s.num_nodes = omega arith in
    record {
      current = current;
      next = next;
      out = refl;
      all_current = subst (λ x. IsFilling s x current) last f;
      all_next = subst (λ x. IsFilling s x next) last g;
    }
retrieve-IsRetrieved get s current next node (suc k) e shared f g =
    elim (eq-cases node s.my_node_id) [
      | inl me ↦ rw (same_id node s.my_node_id me) (
          retrieve-IsRetrieved get s current next (node + 1) k (omega arith) shared
            (skip-IsFilling s node current me f) (skip-IsFilling s node next me g))
      | inr ne ↦
          let lt : node < s.num_nodes = omega arith in
          let ((c, hc, sc), (d, hd, sd)) = shared node lt in
          subst (IsRetrieved s)
            (sym (
              next_node get (with_grids s current next)
                (with_grids s (set current node (some c)) (set next node (some d))) node k ne
                (retrieved get (with_grids s current next) node c d hc hd)))
            (retrieve-IsRetrieved get s (set current node (some c)) (set next node (some d))
              (node + 1) k (omega arith) shared (set-IsFilling s node current c lt sc f)
              (set-IsFilling s node next d lt sd g))
    ]
  where
    same_id : (a b : ℕ) → a ≡ b → (a == b) ≡ true
    same_id a b h = ground arith

-- The node's own partition after `gol_allocate_partition`.
own-IsFilling :
    (s : GolState) (cells : List ℕ)
    → s.my_node_id < s.num_nodes
    → length cells ≡ size_of s s.my_node_id
    → IsFilling s 0 (set (replicate s.num_nodes none) s.my_node_id (some cells))
own-IsFilling s cells h size =
    let g : Grid = replicate s.num_nodes none in
    record {
      room = length-set g s.my_node_id (some cells) ∙ length-replicate s.num_nodes none;
      filled = λ i lt k.
          set-IsFilled g (size_of s i) i s.my_node_id cells
            (omega (arith, length-replicate {A = Option (List ℕ)} s.num_nodes none))
            (λ e. subst (λ x. length cells ≡ size_of s x) e size) (λ ne. absurd (only i ne k));
    }
  where
    only : (i : ℕ) → s.my_node_id ≢ i → Known s 0 i → ⊥
    only i ne (inl lt) = omega arith
    only i ne (inr e) = ne (sym e)

laid_of :
    (s t : GolState) (g : Grid)
    → IsFilling s s.num_nodes g
    → (i : ℕ) → i < s.num_nodes
    → (i < length g)
      × (cells : List ℕ) × (get_or g i none ≡ some cells)
      × (length cells ≡ size_of s i)
laid_of s t g f i h = let x = f.filled i h (inl h) in (x.inside, x.cells, x.at, x.whole)

-- After its start a node is ready to play: `gol_state_init`, `gol_allocate_partition` and
-- `gol_retrieve_partitions` succeed and leave both grids whole, if the node's own allocations succeed
-- and the allocations of each node, of the size of its rows, are at the two indices that it looks at.
pub start-IsReady :
    (get : ℕ → Option (List ℕ)) (config : GolConfig)
    → config.node_id < config.num_nodes
    → IsShared get (gol_state_init config)
    → let made = gol_allocate_partition true true (gol_state_init config) in
      let found = gol_retrieve_partitions get made.1 in
      (made.0 ≡ success) × (found.0 ≡ success) × IsReady found.1 found.1.partitions_next
unfolding gol_state_init gol_allocate_partition gol_retrieve_partitions gol_calculate_partition
start-IsReady get config h shared =
    let s = gol_state_init config in
    let (start, size, count) = own_span s h in
    let zeros = replicate (s.num_rows * s.grid_width) 0 in
    let whole : length zeros ≡ size_of s s.my_node_id =
      length-replicate (s.num_rows * s.grid_width) 0 ∙ ap (λ x. x * s.grid_width) count in
    let own = own-IsFilling s zeros h whole in
    let r =
      retrieve-IsRetrieved get s (set (replicate s.num_nodes none) s.my_node_id (some zeros))
        (set (replicate s.num_nodes none) s.my_node_id (some zeros)) 0 s.num_nodes
        (zero-add s.num_nodes) shared own own in
    let ready : IsReady (with_grids s r.current r.next) r.next = record {
      some_node = omega arith;
      current = laid_of s s r.current r.all_current;
      upcoming = laid_of s s r.next r.all_next;
    } in
    (
      refl,
      ap (λ (x : Status × GolState). x.0) r.out,
      subst (λ (x : Status × GolState). IsReady x.1 x.1.partitions_next) (sym r.out) ready,
    )
