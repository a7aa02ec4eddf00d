-- ===== src/Barrier/Rounds.antt =====
-- src/sync/barrier.c: rounds of a barrier on the manager.
use native.Mathlib.Nat.{add-zero, zero-add, add-div_left, add-mod_left, div-eq_of_lt, mod-eq_of_lt}
use user_level_dsm.Barrier.{arrive, Barrier, next_generation, arrived}
use user_level_dsm.Prelude.{
  ℕ, ◌+◌, ◌<◌, suc, ◌≡◌, ◌%◌, zero, arith, ◌/◌, ap, sym, eq-cases, ◌∙◌, inl, inr, ◌≢◌, subst, refl,
}

-- A barrier after `k` arrivals.
pub arrivals : ℕ → Barrier → Barrier
arrivals zero b = b
arrivals (suc k) b = arrivals k (arrive b)

-- The counts of a barrier in use: fewer have arrived than are expected.
pub record IsOpen (b : Barrier) : Type 0 where
  pub room : b.arrived_count < b.expected_count

pub arrive-IsOpen :
    (b : Barrier)
    → IsOpen b
    → IsOpen (arrive b) × ((arrive b).expected_count ≡ b.expected_count) × ((arrive b).id ≡ b.id)
unfolding arrive
arrive-IsOpen b o = ground arith

shift : (a k n : ℕ) → a + 1 ≡ n → a + suc k ≡ n + k
shift a k n h = omega arith

div_step : (a k n : ℕ) → a + 1 ≡ n → (a + suc k) / n ≡ k / n + 1
div_step a k n h = ap (λ x. x / n) (shift a k n h) ∙ add-div_left k (omega arith)

mod_step : (a k n : ℕ) → a + 1 ≡ n → (a + suc k) % n ≡ k % n
mod_step a k n h = ap (λ x. x % n) (shift a k n h) ∙ add-mod_left n k

regroup : (a k : ℕ) → a + 1 + k ≡ a + suc k
regroup a k = omega arith

-- The two ends of one arrival.
arrive_last :
    (b : Barrier) → b.arrived_count + 1 ≡ b.expected_count → arrive b ≡ next_generation (arrived b)
unfolding arrive
arrive_last b h = ground (arith, h)

arrive_early : (b : Barrier) → b.arrived_count + 1 < b.expected_count → arrive b ≡ arrived b
unfolding arrive
arrive_early b h = ground (arith, h)

last_generation : (g a k n : ℕ) → a + 1 ≡ n → g + 1 + (0 + k) / n ≡ g + (a + suc k) / n
last_generation g a k n h = rw (div_step a k n h, zero-add k) (omega arith)

last_count : (a k n : ℕ) → a + 1 ≡ n → (0 + k) % n ≡ (a + suc k) % n
last_count a k n h = rw (mod_step a k n h, zero-add k) refl

early_lt :
    (b : Barrier)
    → IsOpen b
    → b.arrived_count + 1 ≢ b.expected_count
    → b.arrived_count + 1 < b.expected_count
early_lt b o ne = ground arith

-- After `k` arrivals the generation has grown by the number of full rounds, and the arrivals of the
-- round that is not full are counted.
pub arrivals_rounds :
    (k : ℕ) (b : Barrier)
    → IsOpen b
    → ((arrivals k b).generation ≡ b.generation + (b.arrived_count + k) / b.expected_count)
      × ((arrivals k b).arrived_count ≡ (b.arrived_count + k) % b.expected_count)
unfolding arrivals
arrivals_rounds zero b o = (
  rw (add-zero, div-eq_of_lt o.room) (sym (add-zero b.generation)),
  rw (add-zero, mod-eq_of_lt o.room),
)
arrivals_rounds (suc k) b o = elim (eq-cases (b.arrived_count + 1) b.expected_count) [
  | inl last ↦
      let ih = arrivals_rounds k (next_generation (arrived b)) (record { room = omega arith }) in
      (
        rw (arrivals, arrive_last b last)
            (ih.0 ∙ last_generation b.generation b.arrived_count k b.expected_count last),
        rw (arrivals, arrive_last b last)
            (ih.1 ∙ last_count b.arrived_count k b.expected_count last),
      )
  | inr early ↦
      let lt = early_lt b o early in
      let ih = arrivals_rounds k (arrived b) (record { room = lt }) in
      (
        rw (arrivals, arrive_early b lt)
            (subst (λ x. (arrivals k (arrived b)).generation ≡ b.generation + x / b.expected_count)
              (regroup b.arrived_count k) ih.0),
        rw (arrivals, arrive_early b lt)
            (subst (λ x. (arrivals k (arrived b)).arrived_count ≡ x % b.expected_count)
              (regroup b.arrived_count k) ih.1),
      )
]
