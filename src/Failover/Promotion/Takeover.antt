-- ===== src/Failover/Promotion/Takeover.antt =====
-- src/network/handlers.c: what a promoted backup serves.
use user_level_dsm.Prelude.{
  ℕ, refl, Option, List, ◌∷◌, some, none, ◌≡◌, [], Option-cases, if◌then◌else◌, inl, ◌==◌, arith,
  sym, some_eq, inr, eq-cases, Bool-cases, false, true, length, take,
}
use user_level_dsm.Failover.Promotion.{
  place_lock, place_locks, promote_to_manager, told_of_promotion, place_barriers,
}
use user_level_dsm.Lock.{Lock, find_lock_by_id}
use user_level_dsm.Failover.{FailNode}
use user_level_dsm.Directory.{Directory}
use user_level_dsm.Types.{max_nodes}

-- The identifiers of the locks in a table are distinct.
abbrev pub IsKeyed : List (Option Lock) → Type 0
IsKeyed [] = Unit
IsKeyed (none ∷ ss) = IsKeyed ss
IsKeyed (some l ∷ ss) = (find_lock_by_id l.id ss ≡ none) × IsKeyed ss

-- A lock with a place is found, and the other searches stay as they were.
place_lock_lem :
    (l : Lock) (ss ss' : List (Option Lock)) (j : ℕ)
    → place_lock l ss ≡ some ss'
    → find_lock_by_id j ss' ≡ (if l.id == j then some l else find_lock_by_id j ss)
unfolding place_lock find_lock_by_id
place_lock_lem l [] ss' j h = cc
place_lock_lem l (none ∷ ss) ss' j h = rw (sym (some_eq h)) refl
place_lock_lem l (some x ∷ ss) ss' j h = elim (Bool-cases (x.id == l.id)) [
  | inl same ↦ ground (arith, same, h)
  | inr other ↦ elim (Option-cases (place_lock l ss)) [
    | inl full ↦ absurd (ground (arith, other, full, h))
    | inr (rest, e) ↦ ground (arith, other, e, h, place_lock_lem l ss rest j e)
  ]
]

-- The search of one table, and then of another.
abbrev pub or_else : Option Lock → Option Lock → Option Lock
or_else (some l) other = some l
or_else none other = other

place_locks_lem :
    (ls ss : List (Option Lock)) (j : ℕ)
    → IsKeyed ls
    → find_lock_by_id j (place_locks ls ss).0 ≡ none
    → find_lock_by_id j (place_locks ls ss).1
      ≡ or_else (find_lock_by_id j ls) (find_lock_by_id j ss)
unfolding place_locks find_lock_by_id
place_locks_lem [] ss j k h = refl
place_locks_lem (none ∷ ls) ss j k h = place_locks_lem ls ss j k h
place_locks_lem (some l ∷ ls) ss j k h = elim (Option-cases (place_lock l ss)) [
  | inl full ↦ let later = place_locks_lem ls ss j k.1 in ground (arith, full, h, later)
  | inr (ss1, e) ↦
      let later = place_locks_lem ls ss1 j k.1 in
      let one = place_lock_lem l ss ss1 j e in
      elim (eq-cases l.id j) [
        | inl same ↦
            let absent : find_lock_by_id j ls ≡ none = rw same at k.0 in
            ground (arith, e, h, later, one, same, absent)
        | inr other ↦ ground (arith, e, h, later, one, other)
      ]
]

-- The node after a promotion.
abbrev successor : FailNode → Directory → FailNode
successor n d =
    let (shadow_locks, locks) = place_locks n.backup_locks n.locks in
    let (shadow_barriers, barriers) =
      place_barriers (length n.barriers) n.backup_barriers n.barriers in
    record n {
      role = record { is_manager = true; is_promoted = true };
      current_manager = n.node_id;
      directory = some d;
      backup_directory = none;
      backup_locks = shadow_locks;
      locks = locks;
      backup_barriers = shadow_barriers;
      barriers = barriers;
    }

promoted :
    (n : FailNode) (d : Directory)
    → n.role.is_promoted ≡ false
    → n.backup_directory ≡ some d
    → promote_to_manager n ≡ (told_of_promotion n.node_id 0 (take max_nodes n.nodes), successor n d)
unfolding promote_to_manager
promoted n d fresh has = simp (promote_to_manager, fresh, has) refl

again : (n : FailNode) → n.role.is_promoted ≡ true → promote_to_manager n ≡ ([], n)
unfolding promote_to_manager
again n h = simp (promote_to_manager, h) refl

-- A backup that is promoted, with a shadow directory and distinct identifiers among its shadow locks:
-- it is the manager in its own record, its directory is the shadow, and a lock whose shadow has
-- found a slot is found with the state of the shadow, other locks as before. A second promotion
-- tells no node and changes nothing.
pub promotion_lem :
    (n : FailNode) (d : Directory) (j : ℕ)
    → n.role.is_promoted ≡ false
    → n.backup_directory ≡ some d
    → IsKeyed n.backup_locks
    → find_lock_by_id j (place_locks n.backup_locks n.locks).0 ≡ none
    → let n' = (promote_to_manager n).1 in
      (n'.role.is_manager ≡ true)
      × (n'.current_manager ≡ n.node_id)
      × (n'.directory ≡ some d)
      × (find_lock_by_id j n'.locks
          ≡ or_else (find_lock_by_id j n.backup_locks) (find_lock_by_id j n.locks))
      × (promote_to_manager n' ≡ ([], n'))
promotion_lem n d j fresh has keyed placed = rw (promoted n d fresh has) (
  refl,
  refl,
  refl,
  place_locks_lem n.backup_locks n.locks j keyed placed,
  again (successor n d) refl,
)
