-- ===== src/Life/Partition.antt =====
-- game_of_life/gol_state.c: the partition of the rows.
use native.Mathlib.Nat.{zero-mul, zero-add, add-mul, one-mul, mod-lt, div-add-mod, add-zero}
use user_level_dsm.Life.{find_owner, spans_from, rows_of, Span, gol_calculate_partition, GolState}
use user_level_dsm.Prelude.{
  ℕ, ◌+◌, ◌*◌, ◌/◌, ◌≤◌, ◌≡◌, if◌then◌else◌, ◌<◌, some, ltb, ◌%◌, suc, zero, Option, arith, ◌∙◌,
  subst, ap, false, Bool-cases, inl, inr, ◌-◌, ltb→lt, List, sym, ◌∷◌,
}

-- The first row of a node.
abbrev pub first_row : ℕ → ℕ → ℕ → ℕ
first_row height n node = node * (height / n) + (if ltb node (height % n) then node else height % n)

next_plain :
    (a b q r node : ℕ)
    → b ≡ a + q
    → a + (if ltb node r then node else r) + (q + (if ltb node r then 1 else 0))
      ≡ b + (if ltb (node + 1) r then node + 1 else r)
next_plain a b q r node h = ground arith

next_product : (node q : ℕ) → (node + 1) * q ≡ node * q + q
next_product node q = add-mul node 1 q ∙ ap (λ x. node * q + x) (one-mul q)

pub next_row :
    (height n node : ℕ)
    → first_row height n node + rows_of height n node ≡ first_row height n (node + 1)
next_row height n node =
    next_plain (node * (height / n)) ((node + 1) * (height / n)) (height / n) (height % n) node
      (next_product node (height / n))

-- The rows end where the grid does.
pub first_row_last : (height n : ℕ) → 0 < n → first_row height n n ≡ height
first_row_last height n h =
    let lt = mod-lt height h in rw (after_all n (height % n) lt) (div-add-mod height n)
  where
    after_all : (n r : ℕ) → r < n → (if ltb n r then n else r) ≡ r
    after_all n r lt = ground arith

-- How the search for a row ends: with the node whose rows include it.
abbrev pub Owner : ℕ → ℕ → ℕ → ℕ → Option (ℕ × ℕ) → Type 0
Owner height n bound row found =
    (owner : ℕ) × (row_in : ℕ) × (found ≡ some (owner, row_in))
    × (row ≡ first_row height n owner + row_in)
    × (row_in < rows_of height n owner)
    × (owner < bound)

found_here :
    (row node a r : ℕ) (ps : List Span)
    → a ≤ row
    → row < a + r
    → find_owner row node (record { start = a; rows = r } ∷ ps) ≡ some (node, row - a)
unfolding find_owner
found_here row node a r ps lo hi = ground arith

found_later :
    (row node a r : ℕ) (ps : List Span)
    → a + r ≤ row
    → find_owner row node (record { start = a; rows = r } ∷ ps) ≡ find_owner row (node + 1) ps
unfolding find_owner
found_later row node a r ps h = ground arith

row_split : (row a r : ℕ) → a ≤ row → row < a + r → (row ≡ a + (row - a)) × (row - a < r)
row_split row a r lo hi = (omega arith, omega arith)

lt_test : (a b : ℕ) → ltb a b ≡ false → b ≤ a
lt_test a b h = ground arith

bound_step : (node k : ℕ) → node + 1 + k ≡ node + suc k
bound_step node k = omega arith

node_bound : (node k : ℕ) → node < node + suc k
node_bound node k = omega arith

find_owner_spans :
    (height n row node k : ℕ)
    → first_row height n node ≤ row
    → row < first_row height n (node + k)
    → Owner height n
        (node + k)
        row
        (find_owner row node (spans_from height n node (first_row height n node) k))
unfolding find_owner spans_from
find_owner_spans height n row node zero lo hi = absurd (
    not_both (first_row height n node) row lo
      (subst (λ x. row < first_row height n x) (add-zero node) hi))
  where
    not_both : (a b : ℕ) → a ≤ b → b < a → ⊥
    not_both a b lo hi = omega arith
find_owner_spans height n row node (suc k) lo hi =
    let a = first_row height n node in
    let r = rows_of height n node in
    let ps = spans_from height n (node + 1) (a + r) k in
    elim (Bool-cases (ltb row (a + r))) [
      | inl here ↦
          let lt = ltb→lt row (a + r) here in
          let split = row_split row a r lo lt in
          (node, row - a, found_here row node a r ps lo lt, split.0, split.1, node_bound node k)
      | inr later ↦
          let le = lt_test row (a + r) later in
          let ih =
            find_owner_spans height n row (node + 1) k
              (subst (λ x. x ≤ row) (next_row height n node) le)
              (subst (λ x. row < first_row height n x) (sym (bound_step node k)) hi) in
          let moved =
            subst
              (λ x.
                Owner height n (node + 1 + k) row
                  (find_owner row (node + 1) (spans_from height n (node + 1) x k)))
              (sym (next_row height n node)) ih in
          subst (Owner height n (node + suc k) row) (sym (found_later row node a r ps le)) (
            subst (λ b. Owner height n b row (find_owner row (node + 1) ps)) (bound_step node k)
              moved)
    ]

pub first_row_zero : (height n : ℕ) → first_row height n 0 ≡ 0
first_row_zero height n = rw (zero-mul (height / n)) (start_zero (height % n))
  where
    start_zero : (r : ℕ) → 0 + (if ltb 0 r then 0 else r) ≡ 0
    start_zero r = ground arith

-- Every row of the grid has an owner: after `gol_calculate_partition` for at least one node, the
-- search finds a node below `num_nodes` whose rows, counted from its first row, include the row.
pub partition_covers :
    (s : GolState) (row : ℕ)
    → 0 < s.num_nodes
    → row < s.grid_height
    → Owner s.grid_height s.num_nodes s.num_nodes row
        (find_owner row 0 (gol_calculate_partition s).spans)
unfolding gol_calculate_partition
partition_covers s row some_node lt =
    let h = s.grid_height in
    let n = s.num_nodes in
    subst (λ b. Owner h n b row (find_owner row 0 (spans_from h n 0 0 n))) (zero-add n)
      (subst (λ x. Owner h n (0 + n) row (find_owner row 0 (spans_from h n 0 x n)))
        (first_row_zero h n)
        (find_owner_spans h n row 0 n
          (subst (λ x. x ≤ row) (sym (first_row_zero h n)) (omega arith))
          (subst (λ x. row < x)
            (sym (ap (first_row h n) (zero-add n) ∙ first_row_last h n some_node)) lt)))

-- The shares differ by at most one row, and none is larger than that of an earlier node.
pub shares_balanced :
    (height n i j : ℕ)
    → i ≤ j
    → (rows_of height n j ≤ rows_of height n i) × (rows_of height n i ≤ rows_of height n j + 1)
shares_balanced height n i j h = ground arith
