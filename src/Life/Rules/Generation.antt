-- ===== src/Life/Rules/Generation.antt =====
-- game_of_life/gol_rules.c: a generation of one node.
use native.Mathlib.Nat.{add-zero, zero-add}
use user_level_dsm.Life.Rules.Cell.{
  Grid, node_at, read, rule_at, IsReady, IsDone, one_cell, cell-IsDone,
}
use user_level_dsm.Life.Rules.{compute_row, compute_cell, compute_rows, compute_generation}
use user_level_dsm.Prelude.{
  ℕ, ◌<◌, Bool, ◌+◌, ◌==◌, refl, ◌||◌, ◌≤◌, false, suc, ◌&&◌, ◌≡◌, leb, arith, if◌then◌else◌, ltb,
  subst, ap, sym, ◌∙◌, zero, get_or, ◌-◌,
}
use user_level_dsm.Life.{GolState, gol_calculate_partition, spans_from, no_span, rows_of, Span}
use user_level_dsm.Life.Partition.{first_row, next_row, first_row_zero, first_row_last}
use user_level_dsm.Life.Rules.Buffers.{with_next}

-- One part after another.
IsDone-then :
    (s : GolState) (next : Grid) (first second both : ℕ → ℕ → Bool) (t u : GolState)
    (d : IsDone s next first t)
    → IsDone s d.upcoming second u
    → ((row col : ℕ)
        → row < s.grid_height
        → col < s.grid_width
        → (second row col || first row col) ≡ both row col)
    → IsDone s next both u
IsDone-then s next first second both t u d e h = record {
  upcoming = e.upcoming;
  same = e.same;
  ready = e.ready;
  cells = λ row col hr hc.
      let before : read (node_at s d.upcoming) 1 row col ≡ (
          if first row col
          then rule_at (gol_calculate_partition s) row col
          else read (node_at s next) 1 row col) =
        ap (λ x. read x 1 row col) (sym d.same) ∙ d.cells row col hr hc in
      e.cells row col hr hc ∙ ground (arith, before, h row col hr hc);
}

none-IsDone :
    (s : GolState) (next : Grid) (done : ℕ → ℕ → Bool)
    → IsReady s next
    → ((row col : ℕ) → done row col ≡ false)
    → IsDone s next done (node_at s next)
none-IsDone s next done r h = record {
  upcoming = next;
  same = refl;
  ready = r;
  cells = λ row col hr hc. rw (h row col) refl;
}

-- The columns from `col` on, `k` of them, of a row.
abbrev pub part_of_row : (row col k : ℕ) → ℕ → ℕ → Bool
part_of_row row col k r c = (row == r) && (leb col c && ltb c (col + k))

next_column :
    (row col k r c : ℕ)
    → (part_of_row row (col + 1) k r c || one_cell row col r c) ≡ part_of_row row col (suc k) r c
next_column row col k r c = ground arith

no_column : (row col r c : ℕ) → part_of_row row col 0 r c ≡ false
no_column row col r c = ground arith

row-IsDone :
    (s : GolState) (next : Grid) (live row col k : ℕ)
    → IsReady s next
    → row < s.grid_height
    → col + k ≤ s.grid_width
    → IsDone s next (part_of_row row col k) (compute_row (node_at s next, live) row col k).0
unfolding compute_row
row-IsDone s next live row col zero r hr hc =
    none-IsDone s next (part_of_row row col 0) r (λ x c. no_column row col x c)
row-IsDone s next live row col (suc k) r hr hc =
    let sl = compute_cell (node_at s next, live) row col in
    let d = cell-IsDone s next live row col r hr (omega arith) in
    let rest =
      subst
        (λ x.
          IsDone s d.upcoming (part_of_row row (col + 1) k)
            (compute_row (x, sl.1) row (col + 1) k).0)
        (sym d.same) (row-IsDone s d.upcoming sl.1 row (col + 1) k d.ready hr (omega arith)) in
    IsDone-then s next (one_cell row col) (part_of_row row (col + 1) k)
      (part_of_row row col (suc k)) sl.0 (compute_row sl row (col + 1) k).0 d rest
      (λ r c hr hc. next_column row col k r c)

-- The rows from `row` on, `k` of them.
abbrev pub rows_from : (row k : ℕ) → ℕ → ℕ → Bool
rows_from row k r c = leb row r && ltb r (row + k)

no_row : (row r c : ℕ) → rows_from row 0 r c ≡ false
no_row row r c = ground arith

after_row :
    (row k width r c : ℕ)
    → c < width
    → (rows_from (row + 1) k r c || part_of_row row 0 width r c) ≡ rows_from row (suc k) r c
after_row row k width r c h = ground arith

rows-IsDone :
    (s : GolState) (next : Grid) (live row k : ℕ)
    → IsReady s next
    → row + k ≤ s.grid_height
    → IsDone s next (rows_from row k) (compute_rows (node_at s next, live) s.grid_width row k).0
unfolding compute_rows
rows-IsDone s next live row zero r hr =
    none-IsDone s next (rows_from row 0) r (λ x c. no_row row x c)
rows-IsDone s next live row (suc k) r hr =
    let width = s.grid_width in
    let sl = compute_row (node_at s next, live) row 0 width in
    let d = row-IsDone s next live row 0 width r (omega arith) (omega arith) in
    let rest =
      subst
        (λ x.
          IsDone s d.upcoming (rows_from (row + 1) k) (compute_rows (x, sl.1) width (row + 1) k).0)
        (sym d.same) (rows-IsDone s d.upcoming sl.1 (row + 1) k d.ready (omega arith)) in
    IsDone-then s next (part_of_row row 0 width) (rows_from (row + 1) k) (rows_from row (suc k))
      sl.0 (compute_rows sl width (row + 1) k).0 d rest (λ r c hr hc. after_row row k width r c hc)

-- The rows of a node, as `gol_calculate_partition` sets them.
span_at :
    (height n node k i : ℕ)
    → i < k
    → get_or (spans_from height n node (first_row height n node) k) i no_span
      ≡ record { start = first_row height n (node + i); rows = rows_of height n (node + i) }
unfolding spans_from
span_at height n node zero i h = absurd (omega arith)
span_at height n node (suc k) zero h = rw (add-zero node) refl
span_at height n node (suc k) (suc i) h =
    rw (next_row height n node)
      (rw (shift node i) at (span_at height n (node + 1) k i (omega arith)))
  where
    shift : (a b : ℕ) → a + 1 + b ≡ a + suc b
    shift a b = omega arith

first_row_mono : (height n i k : ℕ) → first_row height n i ≤ first_row height n (i + k)
first_row_mono height n i zero = rw (add-zero i) (omega arith)
first_row_mono height n i (suc k) =
    let ih = first_row_mono height n i k in
    let step = next_row height n (i + k) in
    subst (λ x. first_row height n i ≤ first_row height n x) (regroup i k) (omega (arith, ih, step))
  where
    regroup : (a b : ℕ) → a + b + 1 ≡ a + suc b
    regroup a b = omega arith

pub own_span :
    (s : GolState)
    → s.my_node_id < s.num_nodes
    → let t = gol_calculate_partition s in
      (t.start_row ≡ first_row s.grid_height s.num_nodes s.my_node_id)
      × (t.end_row - t.start_row ≡ rows_of s.grid_height s.num_nodes s.my_node_id)
      × (t.num_rows ≡ rows_of s.grid_height s.num_nodes s.my_node_id)
unfolding gol_calculate_partition
own_span s h =
    let height = s.grid_height in
    let n = s.num_nodes in
    let me = s.my_node_id in
    let mine : get_or (spans_from height n 0 0 n) me no_span
        ≡ record { start = first_row height n me; rows = rows_of height n me } =
      subst
        (λ x.
          get_or (spans_from height n 0 x n) me no_span
          ≡ record { start = first_row height n me; rows = rows_of height n me })
        (first_row_zero height n) (rw zero-add at (span_at height n 0 n me h)) in
    (
      ap (λ (x : Span). x.start) mine,
      ap (λ (x : Span). x.start + x.rows - x.start) mine
          ∙ drop_start (first_row height n me) (rows_of height n me),
      ap (λ (x : Span). x.rows) mine,
    )
  where
    drop_start : (a b : ℕ) → a + b - a ≡ b
    drop_start a b = omega arith

own_end : (height n me : ℕ) → me < n → first_row height n me + rows_of height n me ≤ height
own_end height n me h = rw (next_row height n me) (
    subst (λ x. first_row height n (me + 1) ≤ x)
      (ap (first_row height n) (rest me n h) ∙ first_row_last height n (omega arith))
      (first_row_mono height n (me + 1) (n - (me + 1))))
  where
    rest : (a b : ℕ) → a < b → a + 1 + (b - (a + 1)) ≡ b
    rest a b lt = omega arith

-- A generation of a node: the cells of its own rows follow the rules, the others stay.
pub generation-IsDone :
    (s : GolState) (next : Grid)
    → IsReady s next
    → s.my_node_id < s.num_nodes
    → IsDone s next
        (rows_from
          (first_row s.grid_height s.num_nodes s.my_node_id)
          (rows_of s.grid_height s.num_nodes s.my_node_id))
        (compute_generation (node_at s next)).0
unfolding compute_generation gol_calculate_partition
generation-IsDone s next r h =
    let n = node_at s next in
    let a = first_row s.grid_height s.num_nodes s.my_node_id in
    let k = rows_of s.grid_height s.num_nodes s.my_node_id in
    let (start, size, count) = own_span (with_next s next) h in
    let moved : (compute_generation n).0 ≡ (compute_rows (n, 0) s.grid_width a k).0 =
      ap (λ x. (compute_rows (n, 0) s.grid_width x (n.end_row - n.start_row)).0) start
      ∙ ap (λ x. (compute_rows (n, 0) s.grid_width a x).0) size in
    subst (IsDone s next (rows_from a k)) (sym moved)
      (rows-IsDone s next 0 a k r (own_end s.grid_height s.num_nodes s.my_node_id h))
