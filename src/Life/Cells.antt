-- ===== src/Life/Cells.antt =====
-- game_of_life/gol_state.c: the addresses of the cells.
use native.Mathlib.Nat.{
  mul-le-mul_right, suc-mul, mul-add-mod_self_right, mod-eq_of_lt, mul-add-div_right, div-eq_of_lt,
  add-zero,
}
use user_level_dsm.Life.{
  gol_get_cell, GolState, find_owner, partitions, gol_calculate_partition, rows_of,
}
use user_level_dsm.Prelude.{
  ℕ, List, ◌≡◌, ◌<◌, some, get_or, ◌*◌, none, ◌+◌, leb, Bool-cases, ◌||◌, inl, false, arith, inr,
  Option-cases, ◌%◌, sym, ◌≤◌, ◌∙◌, some_eq, ◌/◌, ap,
}
use user_level_dsm.Life.Partition.{first_row, partition_covers}

-- Every node's partition of a grid is known.
abbrev pub IsAllocated : GolState → ℕ → Type 0
IsAllocated s grid =
    (i : ℕ) → i < s.num_nodes → (cells : List ℕ) × (get_or (partitions s grid) i none ≡ some cells)

inside :
    {height width row col : ℕ}
    → row < height
    → col < width
    → (leb height row || leb width col) ≡ false
inside hr hc = ground arith

found_cell :
    (s : GolState) (grid row col owner row_in : ℕ) (cells : List ℕ)
    → row < s.grid_height
    → col < s.grid_width
    → find_owner row 0 s.spans ≡ some (owner, row_in)
    → get_or (partitions s grid) owner none ≡ some cells
    → gol_get_cell s grid row col ≡ some (owner, row_in * s.grid_width + col)
unfolding gol_get_cell
found_cell s grid row col owner row_in cells hr hc h e = simp (inside hr hc, h, e, gol_get_cell)

in_range :
    (height width row col : ℕ)
    → (leb height row || leb width col) ≡ false
    → (row < height) × (col < width)
in_range height width row col h = ground arith

-- What a successful search for a cell has found.
cell_found :
    (s : GolState) (grid row col owner offset : ℕ)
    → gol_get_cell s grid row col ≡ some (owner, offset)
    → (row < s.grid_height)
      × (col < s.grid_width)
      × (row_in : ℕ) × (find_owner row 0 s.spans ≡ some (owner, row_in))
      × (offset ≡ row_in * s.grid_width + col)
unfolding gol_get_cell
cell_found s grid row col owner offset h =
    elim (Bool-cases (leb s.grid_height row || leb s.grid_width col)) [
      | inl out ↦ absurd (cc (simp (out, gol_get_cell) at h))
      | inr ok ↦ elim (Option-cases (find_owner row 0 s.spans)) [
        | inl none_found ↦ absurd (cc (simp (ok, none_found, gol_get_cell) at h))
        | inr ((o, r), found) ↦ elim (Option-cases (get_or (partitions s grid) o none)) [
          | inl missing ↦ absurd (cc (simp (ok, found, missing, gol_get_cell) at h))
          | inr (cells, there) ↦
              let pair = some_eq (simp (ok, found, there, gol_get_cell) at h) in
              let range = in_range s.grid_height s.grid_width row col ok in
              (
                range.0,
                range.1,
                r,
                found ∙ ap (λ (x : ℕ × ℕ). some (x.0, r)) pair,
                sym (ap (λ (x : ℕ × ℕ). x.1) pair),
              )
        ]
      ]
    ]

offset_lt : (r rows w c : ℕ) → r < rows → c < w → r * w + c < rows * w
offset_lt r rows w c hr hc = omega (arith, mul-le-mul_right w hr, suc-mul r w)

same_offset : (w r c r' c' : ℕ) → c < w → c' < w → r * w + c ≡ r' * w + c' → (r ≡ r') × (c ≡ c')
same_offset w r c r' c' hc hc' e = (
  quotient r c hc ∙ ap (λ x. x / w) e ∙ sym (quotient r' c' hc'),
  remainder r c hc ∙ ap (λ x. x % w) e ∙ sym (remainder r' c' hc'),
)
  where
    remainder : (a b : ℕ) → b < w → b ≡ (a * w + b) % w
    remainder a b lt = sym (mul-add-mod_self_right a w b ∙ mod-eq_of_lt lt)

    quotient : (a b : ℕ) → b < w → a ≡ (a * w + b) / w
    quotient a b lt =
        sym (mul-add-div_right (omega arith) a b ∙ ap (λ x. a + x) (div-eq_of_lt lt) ∙ add-zero a)

-- The row that a search has found.
row_of :
    (s : GolState) (row owner r : ℕ)
    → 0 < s.num_nodes
    → row < s.grid_height
    → find_owner row 0 (gol_calculate_partition s).spans ≡ some (owner, r)
    → row ≡ first_row s.grid_height s.num_nodes owner + r
row_of s row owner r some_node hr h =
    let (o, x, found, split, in_share, is_node) = partition_covers s row some_node hr in
    let pair = some_eq (sym found ∙ h) in
    split ∙ ap (λ p. first_row s.grid_height s.num_nodes p.0 + p.1) pair

-- Where all partitions of a grid are known, every cell of the grid has an address: it lies in the
-- partition of the node that owns its row, below the size that the node has allocated.
pub get_cell_lem :
    (s : GolState) (grid row col : ℕ)
    → 0 < s.num_nodes
    → IsAllocated s grid
    → row < s.grid_height
    → col < s.grid_width
    → (owner : ℕ) × (offset : ℕ) × (gol_get_cell (gol_calculate_partition s) grid row col
        ≡ some (owner, offset))
      × (owner < s.num_nodes)
      × (first_row s.grid_height s.num_nodes owner ≤ row)
      × (offset < rows_of s.grid_height s.num_nodes owner * s.grid_width)
unfolding gol_calculate_partition
get_cell_lem s grid row col some_node known hr hc =
    let (owner, row_in, found, split, inside_share, is_node) =
      partition_covers s row some_node hr in
    let (cells, there) = known owner is_node in
    (
      owner,
      row_in * s.grid_width + col,
      found_cell (gol_calculate_partition s) grid row col owner row_in cells hr hc found there,
      is_node,
      omega (arith, split),
      offset_lt row_in (rows_of s.grid_height s.num_nodes owner) s.grid_width col inside_share hc,
    )

-- Two cells never share an address: if the searches for two cells, in the same grid or not, return the
-- same partition and offset, row and column are the same.
pub get_cell_injective :
    (s : GolState) (grid row col grid' row' col' : ℕ) (address : ℕ × ℕ)
    → 0 < s.num_nodes
    → gol_get_cell (gol_calculate_partition s) grid row col ≡ some address
    → gol_get_cell (gol_calculate_partition s) grid' row' col' ≡ some address
    → (row ≡ row') × (col ≡ col')
unfolding gol_calculate_partition
get_cell_injective s grid row col grid' row' col' (owner, offset) some_node h h' =
    let (hr, hc, r, found, at) =
      cell_found (gol_calculate_partition s) grid row col owner offset h in
    let (hr', hc', r', found', at') =
      cell_found (gol_calculate_partition s) grid' row' col' owner offset h' in
    let same = same_offset s.grid_width r col r' col' hc hc' (sym at ∙ at') in
    (
      row_of s row owner r some_node hr found
          ∙ ap (λ x. first_row s.grid_height s.num_nodes owner + x) same.0
          ∙ sym (row_of s row' owner r' some_node hr' found'),
      same.1,
    )

-- Two searches for one cell find one address.
pub get_cell_same :
    (s : GolState) (grid grid' row col : ℕ) (address address' : ℕ × ℕ)
    → gol_get_cell s grid row col ≡ some address
    → gol_get_cell s grid' row col ≡ some address'
    → address ≡ address'
get_cell_same s grid grid' row col (o, x) (o', x') h h' =
    let (hr, hc, r, found, at) = cell_found s grid row col o x h in
    let (hr', hc', r', found', at') = cell_found s grid' row col o' x' h' in
    let pair = some_eq (sym found ∙ found') in ground (arith, pair, at, at')
