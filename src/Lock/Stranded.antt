-- ===== src/Lock/Stranded.antt =====
-- src/sync/lock.c: what `dsm_lock_release` on the manager does to the nodes that wait for the lock.
use user_level_dsm.Lock.Client.{dsm_lock_release, release_at, put_lock}
use user_level_dsm.Lock.{
  scan, Message, find_lock_by_id, LockNode, Lock, slot_at, exists_at, freed, held_by,
}
use user_level_dsm.Types.{Status, success}
use user_level_dsm.Prelude.{
  ℕ, List, Option, ◌≡◌, some, set, true, ◌-◌, [], ◌∷◌, Bool-cases, ◌==◌, ==_refl, inl, arith, inr,
  ap, ◌+◌, suc, none, ◌∙◌, subst, refl,
}
use user_level_dsm.Lock.Fifo.{Steps, serve, request, serve-Steps}
use user_level_dsm.Lock.Table.{scan-le_exists}

find_lock-set_exists :
    (id k i : ℕ) (ss : List (Option Lock)) (l : Lock)
    → l.id ≡ id
    → scan id k ss ≡ exists_at i
    → find_lock_by_id id (set ss (i - k) (some l)) ≡ some l
unfolding scan find_lock_by_id
find_lock-set_exists id k i [] l e h = cc
find_lock-set_exists id k i (none ∷ ss) l e h = cc
find_lock-set_exists id k i (some x ∷ ss) l e h = elim (Bool-cases (x.id == id)) [
  | inl same ↦ let at_head : i - k ≡ 0 = ground (arith, same) in rw at_head (ground (arith, e))
  | inr ne ↦
      let later : scan id (k + 1) ss ≡ exists_at i = rw ne at h in
      let deeper : i - k ≡ suc (i - (k + 1)) =
        omega (arith, scan-le_exists id (k + 1) i ss later) in
      rw deeper (rw ne (find_lock-set_exists id (k + 1) i ss l e later))
]

released :
    (net : Message → Status) (n : LockNode) (i : ℕ) (l : Lock)
    → slot_at n i ≡ some l
    → n.initialized ≡ true
    → n.role.is_manager ≡ true
    → l.holder ≡ n.node_id
    → dsm_lock_release net n (some i)
      ≡ record { status = success; sent = []; after = put_lock n i (freed l) }
unfolding dsm_lock_release release_at
released net n i l e up m own =
    simp (e, up, m, own, ==_refl n.node_id, dsm_lock_release, release_at)

-- A release on the manager frees the lock and tells nobody: the nodes that wait in its queue stay
-- there, and the next request, of any node, is granted before them.
pub release_strands_waiters :
    (net : Message → Status) (n : LockNode) (i : ℕ) (l : Lock)
    → slot_at n i ≡ some l
    → scan l.id 0 n.slots ≡ exists_at i
    → n.initialized ≡ true
    → n.role.is_manager ≡ true
    → l.holder ≡ n.node_id
    → let r = dsm_lock_release net n (some i) in
      (r.status ≡ success)
      × (r.sent ≡ [])
      × (find_lock_by_id l.id r.after.slots ≡ some (freed l))
      × ((late : ℕ)
          → Steps l.id (serve net r.after (request l.id late)) (held_by late l, late ∷ []))
release_strands_waiters net n i l e first up m own =
    (ap (λ r. r.status) out, ap (λ r. r.sent) out, there, next)
  where
    out :
        dsm_lock_release net n (some i)
        ≡ record { status = success; sent = []; after = put_lock n i (freed l) }
    out = released net n i l e up m own

    there : find_lock_by_id l.id (dsm_lock_release net n (some i)).after.slots ≡ some (freed l)
    there =
        ap (λ r. find_lock_by_id l.id r.after.slots) out
        ∙ subst (λ k. find_lock_by_id l.id (set n.slots k (some (freed l))) ≡ some (freed l))
            (omega arith) (find_lock-set_exists l.id 0 i n.slots (freed l) refl first)

    next :
        (late : ℕ)
        → Steps l.id
            (serve net (dsm_lock_release net n (some i)).after (request l.id late))
            (held_by late l, late ∷ [])
    next late = rw (==_refl l.id) at (
        serve-Steps net (dsm_lock_release net n (some i)).after (request l.id late) l.id (freed l)
          there)
