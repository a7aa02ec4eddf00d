-- ===== src/Lock/Table.antt =====
-- src/sync/lock.c: what a search of the lock table finds after one write or one new lock.
use mathlib.Core.Option
use mathlib.Core.Path.{subst}
use user_level_dsm.Lock.{find_lock_by_id, Lock, modify_lock, scan, empty_at, new_lock, exists_at}
use user_level_dsm.Prelude.{
  ℕ, ◌≡◌, List, Option, some, if◌then◌else◌, none, ◌==◌, ◌∷◌, arith, set, [], ◌-◌, Bool-cases, ◌≢◌,
  ◌≤◌, inl, ◌+◌, inr, suc, refl, ◌<◌, get_or, get_or-set_self, length,
}

-- A change of a lock that leaves its identifier alone.
abbrev pub KeepsId : (Lock → Lock) → Type 0
KeepsId f = (l : Lock) → (f l).id ≡ l.id

pub find_lock_by_id_id :
    (id : ℕ) (ss : List (Option Lock)) (l : Lock) → find_lock_by_id id ss ≡ some l → l.id ≡ id
unfolding find_lock_by_id
find_lock_by_id_id id [] l h = cc
find_lock_by_id_id id (none ∷ ss) l h = find_lock_by_id_id id ss l h
find_lock_by_id_id id (some x ∷ ss) l h = ground (arith, find_lock_by_id_id id ss l)

pub find_lock-modify_lock :
    (id j : ℕ) (f : Lock → Lock) (ss : List (Option Lock))
    → KeepsId f
    → find_lock_by_id j (modify_lock id f ss)
      ≡ (if id == j then Option.map f (find_lock_by_id j ss) else find_lock_by_id j ss)
unfolding find_lock_by_id modify_lock
find_lock-modify_lock id j f [] k = ground arith
find_lock-modify_lock id j f (none ∷ ss) k = find_lock-modify_lock id j f ss k
find_lock-modify_lock id j f (some x ∷ ss) k =
    ground (arith, k x, find_lock-modify_lock id j f ss k)

pub scan-le : (id k i : ℕ) (ss : List (Option Lock)) → scan id k ss ≡ empty_at i → k ≤ i
unfolding scan
scan-le id k i [] h = cc
scan-le id k i (none ∷ ss) h = ground arith
scan-le id k i (some x ∷ ss) h = ground (arith, scan-le id (k + 1) i ss)

pub scan-le_exists : (id k i : ℕ) (ss : List (Option Lock)) → scan id k ss ≡ exists_at i → k ≤ i
unfolding scan
scan-le_exists id k i [] h = cc
scan-le_exists id k i (none ∷ ss) h = cc
scan-le_exists id k i (some x ∷ ss) h = ground (arith, scan-le_exists id (k + 1) i ss)

-- A new lock in the first empty slot is found by its identifier, and no other search changes.
pub find_lock-set :
    (id j k i : ℕ) (ss : List (Option Lock))
    → scan id k ss ≡ empty_at i
    → find_lock_by_id id ss ≡ none
    → find_lock_by_id j (set ss (i - k) (some (new_lock id)))
      ≡ (if id == j then some (new_lock id) else find_lock_by_id j ss)
unfolding find_lock_by_id scan
find_lock-set id j k i [] h m = cc
find_lock-set id j k i (none ∷ ss) h m =
    let at_head : i - k ≡ 0 = ground (arith, h) in rw at_head refl
find_lock-set id j k i (some x ∷ ss) h m = elim (Bool-cases (x.id == id)) [
  | inl same ↦ absurd (ground (arith, same))
  | inr ne ↦
      let later : scan id (k + 1) ss ≡ empty_at i = rw ne at h in
      let deeper : i - k ≡ suc (i - (k + 1)) = omega (arith, scan-le id (k + 1) i ss later) in
      rw deeper (ground (arith, ne, find_lock-set id j (k + 1) i ss later (rw ne at m)))
]

-- A lock that is not in the table is not met by the scan.
pub scan-ne-exists :
    (id k i : ℕ) (ss : List (Option Lock))
    → find_lock_by_id id ss ≡ none
    → scan id k ss ≢ exists_at i
unfolding find_lock_by_id scan
scan-ne-exists id k i [] m h = cc
scan-ne-exists id k i (none ∷ ss) m h = cc
scan-ne-exists id k i (some x ∷ ss) m h = ground (arith, scan-ne-exists id (k + 1) i ss)

scan-lt : (id k i : ℕ) (ss : List (Option Lock)) → scan id k ss ≡ empty_at i → i < k + length ss
unfolding scan
scan-lt id k i [] h = cc
scan-lt id k i (none ∷ ss) h = ground arith
scan-lt id k i (some x ∷ ss) h = ground (arith, scan-lt id (k + 1) i ss)

-- The table after `dsm_lock_create` has filled slot `i`: the new lock stands there, is found by its
-- identifier, and no other search changes.
pub placed_lock :
    (id j i : ℕ) (ss : List (Option Lock))
    → scan id 0 ss ≡ empty_at i
    → find_lock_by_id id ss ≡ none
    → (get_or (set ss i (some (new_lock id))) i none ≡ some (new_lock id))
      × (find_lock_by_id j (set ss i (some (new_lock id)))
          ≡ (if id == j then some (new_lock id) else find_lock_by_id j ss))
placed_lock id j i ss h m = (
  get_or-set_self ss i (some (new_lock id)) none (omega (arith, scan-lt id 0 i ss h)),
  subst
      (λ k.
        find_lock_by_id j (set ss k (some (new_lock id)))
        ≡ (if id == j then some (new_lock id) else find_lock_by_id j ss))
      (omega arith) (find_lock-set id j 0 i ss h m),
)
