-- ===== src/Life/Rules/Cell.antt =====
-- game_of_life/gol_rules.c: what the body of the loops of `compute_generation` does to one cell. The
-- state is that of a node after `gol_calculate_partition`, with both grids allocated.
use user_level_dsm.Life.{
  GolState, gol_calculate_partition, gol_get_cell, load, store, store_in, rows_of,
}
use user_level_dsm.Life.Cells.{IsAllocated, get_cell_lem}
use user_level_dsm.Life.Writes.{IsLaid, set_cell_lem, set_found}
use user_level_dsm.Life.Rules.{
  compute_cell, value_at, count_neighbors, apply_rules, count_rows, count_columns,
}
use user_level_dsm.Life.Rules.Buffers.{with_next}
use user_level_dsm.Prelude.{
  List, ◌<◌, ℕ, none, Option, ◌≡◌, some, ap, if◌then◌else◌, length, ◌*◌, ◌∙◌, ◌==◌, get_or, refl,
  ◌&&◌, set, eq-cases, sym, inl, subst, arith, length-set, get_or-set_self, inr, get_or-set_ne,
  ==_ne, Bool,
}

abbrev pub Grid : Type 0
Grid = List (Option (List ℕ))

-- A node's state, with `next` for its next grid.
abbrev pub node_at : GolState → Grid → GolState
node_at s next = gol_calculate_partition (with_next s next)

-- The value of a cell, 0 where there is none.
unfoldable pub read : GolState → (grid row col : ℕ) → ℕ
read s grid row col = elim (gol_get_cell s grid row col) [ none ↦ 0 | some a ↦ load s grid a ]

-- The value that the rules give a cell.
abbrev pub rule_at : GolState → (row col : ℕ) → ℕ
rule_at s row col = apply_rules (value_at s row col) (count_neighbors s row col)

-- Both grids of a node are allocated.
pub record IsReady (s : GolState) (next : Grid) : Type 0 where
  pub some_node : 0 < s.num_nodes
  pub current : IsLaid s 0
  pub upcoming : IsLaid (with_next s next) 1

abbrev allocated : (s : GolState) (grid : ℕ) → IsLaid s grid → IsAllocated s grid
allocated s grid laid i lt = let (inside, cells, at, size) = laid i lt in (cells, at)

-- A cell is read at the address that the search finds.
read_found :
    (s : GolState) (grid row col : ℕ) (a : ℕ × ℕ)
    → gol_get_cell s grid row col ≡ some a
    → read s grid row col ≡ load s grid a
unfolding read
read_found s grid row col a h = simp (h, read)

-- A write to a partition keeps its size, and so a grid stays allocated.
laid_after :
    (next : Grid) (o x v i size : ℕ) (cells : List ℕ)
    → i < length next
    → get_or next i none ≡ some cells
    → length cells ≡ size
    → let next' = set next o (store_in x v (get_or next o none)) in
      (i < length next')
      × (cells' : List ℕ) × (get_or next' i none ≡ some cells')
      × (length cells' ≡ size)
unfolding store_in
laid_after next o x v i size cells inside at e = elim (eq-cases o i) [
  | inl same ↦
      subst
        (λ k.
          let next' = set next k (store_in x v (get_or next k none)) in
          (i < length next')
          × (cells' : List ℕ) × (get_or next' i none ≡ some cells')
          × (length cells' ≡ size))
        (sym same)
        (
          omega (arith, length-set next i (store_in x v (get_or next i none)), inside),
          set cells x v,
          get_or-set_self next i (store_in x v (get_or next i none)) none inside
              ∙ ap (store_in x v) at,
          length-set cells x v ∙ e,
        )
  | inr ne ↦ (
    omega (arith, length-set next o (store_in x v (get_or next o none)), inside),
    cells,
    get_or-set_ne next o i (store_in x v (get_or next o none)) none ne ∙ at,
    e,
  )
]

stored : GolState → Grid → ℕ × ℕ → ℕ → Grid
stored s next a v = (store (node_at s next) 1 a v).partitions_next

store-IsReady :
    (s : GolState) (next : Grid) (a : ℕ × ℕ) (v : ℕ)
    → IsReady s next
    → IsReady s (stored s next a v)
unfolding stored gol_calculate_partition
store-IsReady s next a v r = record {
  some_node = r.some_node;
  current = r.current;
  upcoming = λ i lt.
      let (inside, cells, at, size) = r.upcoming i lt in
      laid_after next a.0 a.1 v i (rows_of s.grid_height s.num_nodes i * s.grid_width) cells inside
        at size;
}

-- Every cell of a grid that is ready has an address.
cell_there :
    (s : GolState) (next : Grid) (grid row col : ℕ)
    → 0 < s.num_nodes
    → IsLaid (with_next s next) grid
    → row < s.grid_height
    → col < s.grid_width
    → (a : ℕ × ℕ) × (gol_get_cell (node_at s next) grid row col ≡ some a)
cell_there s next grid row col some_node laid hr hc =
    let (o, x, found, is_node, lo, lt) =
      get_cell_lem (with_next s next) grid row col some_node
        (allocated (with_next s next) grid laid) hr hc in
    ((o, x), found)

-- What a write leaves at each cell of the next grid.
read-store :
    (s : GolState) (next : Grid) (row col v row' col' : ℕ) (a : ℕ × ℕ)
    → IsReady s next
    → row < s.grid_height
    → col < s.grid_width
    → gol_get_cell (node_at s next) 1 row col ≡ some a
    → row' < s.grid_height
    → col' < s.grid_width
    → read (store (node_at s next) 1 a v) 1 row' col'
      ≡ (if (row == row') && (col == col') then v else read (node_at s next) 1 row' col')
read-store s next row col v row' col' a r hr hc found hr' hc' =
    let (b, there) = cell_there s next 1 row' col' r.some_node r.upcoming hr' hc' in
    let lem = rw (set_found (node_at s next) 1 row col v a found) at (
      set_cell_lem (with_next s next) 1 row col v 1 row' col' b r.some_node r.upcoming hr hc
        there) in
    read_found (store (node_at s next) 1 a v) 1 row' col' b lem.1
    ∙ lem.2
    ∙ ap (λ k. if (row == row') && (col == col') then v else k)
        (sym (read_found (node_at s next) 1 row' col' b there))

-- What a part of a generation has done: a new next grid, in which the cells that `done` names are as
-- the rules say and every other cell is as it was.
pub record IsDone (s : GolState) (next : Grid) (done : ℕ → ℕ → Bool) (t : GolState) : Type 0 where
  pub upcoming : Grid
  pub same : t ≡ node_at s upcoming
  pub ready : IsReady s upcoming
  pub cells :
      (row col : ℕ)
      → row < s.grid_height
      → col < s.grid_width
      → read t 1 row col ≡ (
          if done row col
          then rule_at (gol_calculate_partition s) row col
          else read (node_at s next) 1 row col)

abbrev pub one_cell : (row col : ℕ) → ℕ → ℕ → Bool
one_cell row col r c = (row == r) && (col == c)

compute_found :
    (t : GolState) (live row col : ℕ) (a b : ℕ × ℕ)
    → gol_get_cell t 0 row col ≡ some a
    → gol_get_cell t 1 row col ≡ some b
    → (compute_cell (t, live) row col).0 ≡ store t 1 b (rule_at t row col)
unfolding compute_cell value_at
compute_found t live row col a b h h' = simp (h, h', compute_cell, value_at)

-- The rules read the current grid only.
rule_same :
    (s : GolState) (next : Grid) (row col : ℕ)
    → rule_at (node_at s next) row col ≡ rule_at (gol_calculate_partition s) row col
unfolding gol_calculate_partition count_rows count_columns value_at gol_get_cell
rule_same s next row col = refl

-- The rules at the cell that a test names.
rule_there :
    (s : GolState) (row col r c old : ℕ)
    → (if one_cell row col r c then rule_at s row col else old)
      ≡ (if one_cell row col r c then rule_at s r c else old)
rule_there s row col r c old = elim (eq-cases row r) [
  | inl e ↦ elim (eq-cases col c) [
    | inl e' ↦
        ap (λ x. if one_cell row col r c then rule_at s x col else old) e
        ∙ ap (λ x. if one_cell row col r c then rule_at s r x else old) e'
    | inr ne ↦ rw (==_ne col c ne) (ground arith)
  ]
  | inr ne ↦ rw (==_ne row r ne) refl
]

pub cell-IsDone :
    (s : GolState) (next : Grid) (live row col : ℕ)
    → IsReady s next
    → row < s.grid_height
    → col < s.grid_width
    → IsDone s next (one_cell row col) (compute_cell (node_at s next, live) row col).0
unfolding stored gol_calculate_partition
cell-IsDone s next live row col r hr hc =
    let (a, here) = cell_there s next 0 row col r.some_node r.current hr hc in
    let (b, there) = cell_there s next 1 row col r.some_node r.upcoming hr hc in
    let v = rule_at (node_at s next) row col in
    let out = compute_found (node_at s next) live row col a b here there in
    record {
      upcoming = stored s next b v;
      same = out;
      ready = store-IsReady s next b v r;
      cells = λ row' col' hr' hc'.
          ap (λ t. read t 1 row' col') out
          ∙ read-store s next row col v row' col' b r hr hc there hr' hc'
          ∙ ap
              (λ k. if (row == row') && (col == col') then k else read (node_at s next) 1 row' col')
              (rule_same s next row col)
          ∙ rule_there (gol_calculate_partition s) row col row' col'
              (read (node_at s next) 1 row' col');
    }
