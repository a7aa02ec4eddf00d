-- ===== src/Barrier/Waits.antt =====
-- src/sync/barrier.c: how the wait for a release ends.
use user_level_dsm.Barrier.{await_release, BarrierNode, Wake, barrier_at, timed_out, woken}
use user_level_dsm.Prelude.{
  ℕ, ◌==◌, ◌≡◌, List, false, some, ◌≢◌, Bool-cases, arith, ◌⊎◌, inl, inr, subst, some_eq, ◌∷◌, [],
  refl,
}
use user_level_dsm.Types.{Status, success, timeout_error}

ne_of_test : (a b : ℕ) → (a == b) ≡ false → a ≢ b
ne_of_test a b h = ground arith

-- How a wait has ended: passed in a later generation, or timed out.
abbrev pub Ended : ℕ → ℕ → Status × BarrierNode → Type 0
Ended i mine r = ((r.0 ≡ success) × ((barrier_at r.1 i).generation ≢ mine)) ⊎ (r.0 ≡ timeout_error)

-- A wait at a barrier that returns has either seen another generation than the one in which the node
-- arrived, and succeeds, or has timed out.
pub await_release_lem :
    (i mine : ℕ) (n : BarrierNode) (ws : List Wake) (r : Status × BarrierNode)
    → await_release i mine n ws ≡ some r
    → Ended i mine r
unfolding await_release
await_release_lem i mine n [] r h = elim (Bool-cases ((barrier_at n i).generation == mine)) [
  | inl same ↦ absurd (cc (rw same at h))
  | inr later ↦ subst (Ended i mine) (some_eq (rw later at h)) (inl (refl, ne_of_test _ mine later))
]
await_release_lem i mine n (timed_out x ∷ ws) r h =
    elim (Bool-cases ((barrier_at n i).generation == mine)) [
      | inl same ↦ subst (Ended i mine) (some_eq (rw same at h)) (inr refl)
      | inr later ↦
          subst (Ended i mine) (some_eq (rw later at h)) (inl (refl, ne_of_test _ mine later))
    ]
await_release_lem i mine n (woken x ∷ ws) r h =
    elim (Bool-cases ((barrier_at n i).generation == mine)) [
      | inl same ↦ await_release_lem i mine x ws r (rw same at h)
      | inr later ↦
          subst (Ended i mine) (some_eq (rw later at h)) (inl (refl, ne_of_test _ mine later))
    ]
