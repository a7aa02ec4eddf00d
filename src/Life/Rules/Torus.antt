-- ===== src/Life/Rules/Torus.antt =====
-- game_of_life/gol_rules.c: a generation of all nodes. The nodes compute it one after the other here,
-- in any order, each on its own rows of the next grid.
use native.Mathlib.Nat.{add-mod_right, mod-eq_of_lt, mod_self}
use user_level_dsm.Life.Rules.Cell.{Grid, node_at, read, rule_at, IsReady}
use user_level_dsm.Life.Rules.Generation.{rows_from, generation-IsDone}
use user_level_dsm.Life.{gol_calculate_partition, gol_get_cell, GolState, rows_of}
use user_level_dsm.Prelude.{
  ℕ, Bool, ◌<◌, ◌≡◌, refl, if◌then◌else◌, ap, subst, sym, ◌∙◌, ◌+◌, ◌||◌, ◌==◌, ◌&&◌, ◌-◌, arith,
  false, ◌≢◌, eq-cases, inl, ◌%◌, inr, true, List, contains, All, ◌∷◌, [],
}
use user_level_dsm.Life.Rules.{
  count_rows, compute_generation, count_columns, value_at, wrapped, count_neighbors, apply_rules,
}
use user_level_dsm.Life.Partition.{first_row, partition_covers}

-- The state on node `i`.
abbrev pub as_node : GolState → ℕ → GolState
as_node s i = record s { my_node_id = i }

-- The next grid after `compute_generation` on node `i`.
unfoldable pub computed_by : GolState → (i : ℕ) → Grid → Grid
computed_by s i next = (compute_generation (node_at (as_node s i) next)).0.partitions_next

-- The next grid after some nodes, in the order of a list.
unfoldable pub computed_in : GolState → (order : List ℕ) → Grid → Grid
computed_in s [] next = next
computed_in s (i ∷ is) next = computed_in s is (computed_by s i next)

as_node-IsReady : (s : GolState) (i : ℕ) (next : Grid) → IsReady s next → IsReady (as_node s i) next
as_node-IsReady s i next r = record {
  some_node = r.some_node;
  current = r.current;
  upcoming = r.upcoming;
}

read_same :
    (s : GolState) (i : ℕ) (next : Grid) (row col : ℕ)
    → read (node_at (as_node s i) next) 1 row col ≡ read (node_at s next) 1 row col
unfolding read gol_get_cell gol_calculate_partition
read_same s i next row col = refl

rule_same :
    (s : GolState) (i row col : ℕ)
    → rule_at (gol_calculate_partition (as_node s i)) row col
      ≡ rule_at (gol_calculate_partition s) row col
unfolding gol_calculate_partition count_rows count_columns value_at gol_get_cell
rule_same s i row col = refl

-- What a node adds.
pub record IsComputed (s : GolState) (next : Grid) (done : ℕ → ℕ → Bool) (out : Grid) : Type 0 where
  pub ready : IsReady s out
  pub cells :
      (row col : ℕ)
      → row < s.grid_height
      → col < s.grid_width
      → read (node_at s out) 1 row col ≡ (
          if done row col
          then rule_at (gol_calculate_partition s) row col
          else read (node_at s next) 1 row col)

abbrev own_rows : GolState → (i : ℕ) → ℕ → ℕ → Bool
own_rows s i =
    rows_from (first_row s.grid_height s.num_nodes i) (rows_of s.grid_height s.num_nodes i)

node-IsComputed :
    (s : GolState) (i : ℕ) (next : Grid)
    → IsReady s next
    → i < s.num_nodes
    → IsComputed s next (own_rows s i) (computed_by s i next)
unfolding computed_by gol_calculate_partition
node-IsComputed s i next r h =
    let d = generation-IsDone (as_node s i) next (as_node-IsReady s i next r) h in
    let out : computed_by s i next ≡ d.upcoming = ap (λ t. t.partitions_next) d.same in
    subst (IsComputed s next (own_rows s i)) (sym out) (record {
      ready = record {
        some_node = d.ready.some_node;
        current = d.ready.current;
        upcoming = d.ready.upcoming;
      };
      cells = λ row col hr hc.
          sym (read_same s i d.upcoming row col)
          ∙ ap (λ t. read t 1 row col) (sym d.same)
          ∙ d.cells row col hr hc
          ∙ ap
              (λ x. if own_rows s i row col then x else read (node_at (as_node s i) next) 1 row col)
              (rule_same s i row col)
          ∙ ap
              (λ x. if own_rows s i row col then rule_at (gol_calculate_partition s) row col else x)
              (read_same s i next row col);
    })

-- The cells in the rows of some nodes.
done_by : GolState → List ℕ → ℕ → ℕ → Bool
done_by s [] row col = false
done_by s (i ∷ is) row col = own_rows s i row col || done_by s is row col

nodes-IsComputed :
    (s : GolState) (order : List ℕ) (next : Grid)
    → IsReady s next
    → All (λ i. i < s.num_nodes) order
    → IsComputed s next (done_by s order) (computed_in s order next)
unfolding computed_in done_by
nodes-IsComputed s [] next r h = record { ready = r; cells = λ row col hr hc. refl }
nodes-IsComputed s (i ∷ is) next r h =
    let own = node-IsComputed s i next r h.0 in
    let rest = nodes-IsComputed s is (computed_by s i next) own.ready h.1 in
    record {
      ready = rest.ready;
      cells = λ row col hr hc.
          rest.cells row col hr hc
          ∙ either _ _ _ (own_rows s i row col) (done_by s is row col) (own.cells row col hr hc);
    }
  where
    either :
        (x y z : ℕ) (own rest : Bool)
        → y ≡ (if own then x else z)
        → (if rest then x else y) ≡ (if own || rest then x else z)
    either x y z own rest h = ground (arith, h)

done_by-own :
    (s : GolState) (order : List ℕ) (i row col : ℕ)
    → contains order i ≡ true
    → own_rows s i row col ≡ true
    → done_by s order row col ≡ true
unfolding done_by
done_by-own s [] i row col h o = cc
done_by-own s (x ∷ xs) i row col h o = elim (eq-cases x i) [
  | inl e ↦ rw (e, o) refl
  | inr ne ↦ ground (arith, done_by-own s xs i row col (ground (arith, ne)) o)
]

-- Every row is done when every node has computed.
all-done :
    (s : GolState) (order : List ℕ) (row col : ℕ)
    → 0 < s.num_nodes
    → row < s.grid_height
    → ((i : ℕ) → i < s.num_nodes → contains order i ≡ true)
    → done_by s order row col ≡ true
all-done s order row col some_node lt all =
    let (owner, row_in, found, at, inside, bound) = partition_covers s row some_node lt in
    done_by-own s order owner row col (all owner bound) (ground (arith, at, inside))

-- The game on a torus, with a grid as a function: the rows and columns next to one.
abbrev pub before : (size i : ℕ) → ℕ
before size i = if i == 0 then size - 1 else i - 1

abbrev pub after : (size i : ℕ) → ℕ
after size i = if i + 1 == size then 0 else i + 1

-- The live ones of the eight neighbours.
unfoldable pub live_around : (height width : ℕ) → (ℕ → ℕ → ℕ) → (row col : ℕ) → ℕ
live_around height width cell row col =
    let up = before height row in
    let down = after height row in
    let left = before width col in
    let right = after width col in
    (cell up left + cell up col + cell up right)
    + (cell row left + cell row right)
    + (cell down left + cell down col + cell down right)

-- A cell lives on with two or three of them, and comes to life with three.
unfoldable pub life_step : (height width : ℕ) → (ℕ → ℕ → ℕ) → (row col : ℕ) → ℕ
life_step height width cell row col =
    let n = live_around height width cell row col in
    if (n == 3) || ((cell row col == 1) && (n == 2)) then 1 else 0

wrapped-before : (x size : ℕ) → x < size → wrapped x 0 size ≡ before size x
wrapped-before x size h = elim (eq-cases x 0) [
  | inl e ↦ first x size e h
  | inr ne ↦
      rw (again x size ne)
        (add-mod_right (x - 1) size ∙ mod-eq_of_lt (less x size h) ∙ ground (arith, ne))
]
  where
    first : (a n : ℕ) → a ≡ 0 → a < n → (a + 0 + n - 1) % n ≡ before n a
    first a n e lt = ground (arith, mod-eq_of_lt {n = a + 0 + n - 1} {m = n} (omega arith))

    again : (a n : ℕ) → a ≢ 0 → a + 0 + n - 1 ≡ a - 1 + n
    again a n ne = omega arith

    less : (a n : ℕ) → a < n → a - 1 < n
    less a n lt = omega arith

wrapped_same : (x size : ℕ) → x < size → wrapped x 1 size ≡ x
wrapped_same x size h = rw (again x size) (add-mod_right x size ∙ mod-eq_of_lt h)
  where
    again : (x n : ℕ) → x + 1 + n - 1 ≡ x + n
    again x n = omega arith

wrapped-after : (x size : ℕ) → x < size → wrapped x 2 size ≡ after size x
wrapped-after x size h = elim (eq-cases (x + 1) size) [
  | inl e ↦
      rw (again x size)
        (add-mod_right (x + 1) size ∙ ap (λ y. y % size) e ∙ mod_self size ∙ last x size e)
  | inr ne ↦
      rw (again x size)
        (rw add-mod_right (rw (mod-eq_of_lt (below x size h ne)) (ground (arith, ne))))
]
  where
    again : (x n : ℕ) → x + 2 + n - 1 ≡ x + 1 + n
    again x n = omega arith

    below : (x n : ℕ) → x < n → x + 1 ≢ n → x + 1 < n
    below x n lt ne = omega arith

    last : (a n : ℕ) → a + 1 ≡ n → 0 ≡ after n a
    last a n e = ground (arith, e)

-- The eight neighbours that `count_neighbors` adds up.
count_neighbors_lem :
    (s : GolState) (row col : ℕ)
    → row < s.grid_height
    → col < s.grid_width
    → count_neighbors s row col ≡ live_around s.grid_height s.grid_width (value_at s) row col
unfolding count_rows count_columns live_around
count_neighbors_lem s row col hr hc =
    rw
      (
        wrapped-before row s.grid_height hr,
        wrapped_same row s.grid_height hr,
        wrapped-after row s.grid_height hr,
        wrapped-before col s.grid_width hc,
        wrapped_same col s.grid_width hc,
        wrapped-after col s.grid_width hc,
      )
      (omega arith)

apply_rules_lem :
    (current n : ℕ)
    → apply_rules current n ≡ (if (n == 3) || ((current == 1) && (n == 2)) then 1 else 0)
unfolding apply_rules
apply_rules_lem current n = ground arith

-- One generation, between two barriers that all nodes pass, is one step of the game on a torus: in
-- whatever order the nodes compute their rows of the next grid, once every node has, each cell of the
-- next grid is what the rules make of the current one. All nodes see the same memory, there is at
-- least one node, both grids are allocated, and the next grid may hold anything before.
pub torus_step :
    (s : GolState) (order : List ℕ) (next : Grid) (row col : ℕ)
    → IsReady s next
    → All (λ i. i < s.num_nodes) order
    → ((i : ℕ) → i < s.num_nodes → contains order i ≡ true)
    → row < s.grid_height
    → col < s.grid_width
    → read (node_at s (computed_in s order next)) 1 row col
      ≡ life_step s.grid_height s.grid_width (value_at (gol_calculate_partition s)) row col
unfolding life_step gol_calculate_partition
torus_step s order next row col r below all hr hc =
    let t = gol_calculate_partition s in
    let computed = nodes-IsComputed s order next r below in
    computed.cells row col hr hc
    ∙ rw (all-done s order row col r.some_node hr all) (
        apply_rules_lem (value_at t row col) (count_neighbors t row col)
        ∙ ap (λ n. if (n == 3) || ((value_at t row col == 1) && (n == 2)) then 1 else 0)
            (count_neighbors_lem t row col hr hc))
