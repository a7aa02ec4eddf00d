-- ===== src/Life/Writes.antt =====
-- game_of_life/gol_state.c: what a write of one cell does to the grid.
use user_level_dsm.Life.{
  GolState, partitions, with_partition, gol_get_cell, load_in, store_in, load, store, find_owner,
  rows_of, gol_set_cell, gol_calculate_partition,
}
use user_level_dsm.Prelude.{
  List, ℕ, Option, ◌<◌, Bool, length, ◌==◌, get_or, ◌&&◌, ◌||◌, set, not, none, ◌≡◌, if◌then◌else◌,
  eq-cases, arith, inl, subst, ==_refl, get_or-set_self, inr, ==_ne, get_or-set_ne, some,
  Option-cases, ◌*◌, ◌∙◌, sym, ap, refl,
}
use user_level_dsm.Types.{success}
use user_level_dsm.Life.Cells.{get_cell_injective, get_cell_same, IsAllocated, get_cell_lem}

-- A read at any index after a write.
pub get_or-set_cases {ℓ} :
    {A : Type ℓ} (xs : List A) (i j : ℕ) (v d : A)
    → i < length xs
    → get_or (set xs i v) j d ≡ (if i == j then v else get_or xs j d)
get_or-set_cases xs i j v d h = elim (eq-cases i j) [
  | inl e ↦
      subst (λ k. get_or (set xs i v) k d ≡ (if i == k then v else get_or xs k d)) e
        (rw (==_refl i) (get_or-set_self xs i v d h))
  | inr ne ↦ rw (==_ne i j ne) (get_or-set_ne xs i j v d ne)
]

-- Two grid numbers that mean the same grid.
abbrev pub same_grid : ℕ → ℕ → Bool
same_grid g h = (g == 0) && (h == 0) || not (g == 0) && not (h == 0)

partitions-with :
    (s : GolState) (g h : ℕ) (owner j : ℕ) (cells : Option (List ℕ))
    → owner < length (partitions s g)
    → get_or (partitions (with_partition s g owner cells) h) j none
      ≡ (if same_grid g h && (owner == j) then cells else get_or (partitions s h) j none)
partitions-with s g h owner j cells inside = ground (
  arith,
  get_or-set_cases s.partitions_current owner j cells none,
  get_or-set_cases s.partitions_next owner j cells none,
)

-- What a write leaves at an address of either grid.
load-store :
    (s : GolState) (g h o x p y v : ℕ) (cells : List ℕ)
    → o < length (partitions s g)
    → get_or (partitions s g) o none ≡ some cells
    → x < length cells
    → load (store s g (o, x) v) h (p, y)
      ≡ (if same_grid g h && ((o == p) && (x == y)) then v else load s h (p, y))
unfolding load_in store_in
load-store s g h o x p y v cells inside there lt = ground (
  arith,
  partitions-with s g h o p (some (set cells x v)) inside,
  get_or-set_cases cells x y v 0 lt,
)

-- A write moves no cell.
get_cell-store :
    (s : GolState) (g h o x v row col : ℕ) (cells : List ℕ)
    → o < length (partitions s g)
    → get_or (partitions s g) o none ≡ some cells
    → gol_get_cell (store s g (o, x) v) h row col ≡ gol_get_cell s h row col
unfolding gol_get_cell store_in
get_cell-store s g h o x v row col cells inside there =
    elim (Option-cases (find_owner row 0 s.spans)) [
      | inl e ↦ ground (arith, e)
      | inr ((p, r), e) ↦ ground (arith, e, partitions-with s g h o p (some (set cells x v)) inside)
    ]

-- The partitions of a grid are allocated, each with the cells of its rows.
abbrev pub IsLaid : GolState → ℕ → Type 0
IsLaid s grid =
    (i : ℕ)
    → i < s.num_nodes
    → (i < length (partitions s grid))
      × (cells : List ℕ) × (get_or (partitions s grid) i none ≡ some cells)
      × (length cells ≡ rows_of s.grid_height s.num_nodes i * s.grid_width)

both_tests :
    (a b c d a' b' c' d' : ℕ)
    → ((a ≡ a') × (b ≡ b') → (c ≡ c') × (d ≡ d'))
    → ((c ≡ c') × (d ≡ d') → (a ≡ a') × (b ≡ b'))
    → ((a == a') && (b == b')) ≡ ((c == c') && (d == d'))
both_tests a b c d a' b' c' d' f g = elim (eq-cases a a') [
  | inl e ↦ elim (eq-cases b b') [
    | inl e' ↦ let (k, l) = f (e, e') in ground (arith, k, l)
    | inr ne ↦ elim (eq-cases c c') [
      | inl k ↦ elim (eq-cases d d') [
        | inl l ↦ absurd (ne (g (k, l)).1)
        | inr nl ↦ ground (arith, ne, nl)
      ]
      | inr nk ↦ ground (arith, ne, nk)
    ]
  ]
  | inr ne ↦ elim (eq-cases c c') [
    | inl k ↦ elim (eq-cases d d') [
      | inl l ↦ absurd (ne (g (k, l)).0)
      | inr nl ↦ ground (arith, ne, nl)
    ]
    | inr nk ↦ ground (arith, ne, nk)
  ]
]

pub set_found :
    (s : GolState) (g row col v : ℕ) (a : ℕ × ℕ)
    → gol_get_cell s g row col ≡ some a
    → gol_set_cell s g row col v ≡ (success, store s g a v)
unfolding gol_set_cell
set_found s g row col v a h = simp (h, gol_set_cell)

-- A write of a cell of a laid out grid succeeds, moves no cell, and changes that cell only: every
-- other cell, of either grid, reads as before.
pub set_cell_lem :
    (s : GolState) (g row col v h row' col' : ℕ) (b : ℕ × ℕ)
    → 0 < s.num_nodes
    → IsLaid s g
    → row < s.grid_height
    → col < s.grid_width
    → gol_get_cell (gol_calculate_partition s) h row' col' ≡ some b
    → let (status, after) = gol_set_cell (gol_calculate_partition s) g row col v in
      (status ≡ success)
      × (gol_get_cell after h row' col' ≡ some b)
      × (load after h b ≡ (
          if same_grid g h && ((row == row') && (col == col'))
          then v
          else load (gol_calculate_partition s) h b))
unfolding gol_calculate_partition
set_cell_lem s g row col v h row' col' (p, y) some_node laid hr hc there =
    let t = gol_calculate_partition s in
    let known : IsAllocated s g =
      λ i lt. let (inside, cells, at, size) = laid i lt in (cells, at) in
    let (o, x, found, is_node, lo, lt) = get_cell_lem s g row col some_node known hr hc in
    let (inside, cells, at, size) = laid o is_node in
    rw (set_found t g row col v (o, x) found) (
      refl,
      get_cell-store t g h o x v row' col' cells inside at ∙ there,
      load-store t g h o x p y v cells inside at (subst (λ k. x < k) (sym size) lt)
          ∙ ap (λ k. if same_grid g h && k then v else load t h (p, y))
              (both_tests o x row col p y row' col' (to_cell o x found) (to_address o x found)),
    )
  where
    to_cell :
        (o x : ℕ)
        → gol_get_cell (gol_calculate_partition s) g row col ≡ some (o, x)
        → (o ≡ p) × (x ≡ y)
        → (row ≡ row') × (col ≡ col')
    to_cell o x found (e, e') =
        get_cell_injective s g row col h row' col' (p, y) some_node (found ∙ ground (arith, e, e'))
          there

    to_address :
        (o x : ℕ)
        → gol_get_cell (gol_calculate_partition s) g row col ≡ some (o, x)
        → (row ≡ row') × (col ≡ col')
        → (o ≡ p) × (x ≡ y)
    to_address o x found (e, e') =
        let same =
          get_cell_same (gol_calculate_partition s) g h row' col' (o, x) (p, y)
            (rw (sym e, sym e') found) there in
        (ap (λ (a : ℕ × ℕ). a.0) same, ap (λ (a : ℕ × ℕ). a.1) same)
