-- ===== src/Failover/Promotion.antt =====
-- src/network/handlers.c: `promote_to_manager`, and what a worker does when it hears of it.
pub mod Takeover
use user_level_dsm.Prelude.{
  ℕ, List, true, none, Option, if◌then◌else◌, length, [], ◌||◌, some, suc, ◌∷◌, ltb, not, zero,
  ◌==◌, set, take, get_or, ◌&&◌, ◌+◌, false,
}
use user_level_dsm.Barrier.{Barrier, find_used, find_unused}
use user_level_dsm.Lock.{Lock}
use user_level_dsm.Failover.{FailNode, slot_at}
use user_level_dsm.Coherence.{NodeSlot}
use user_level_dsm.Types.{max_nodes}

-- The first slot that is empty or has the identifier; `none` if there is none.
unfoldable pub place_lock : Lock → List (Option Lock) → Option (List (Option Lock))
place_lock l [] = none
place_lock l (none ∷ ss) = some (some l ∷ ss)
place_lock l (some x ∷ ss) =
    let rest = place_lock l ss in
    if x.id == l.id
    then some (some l ∷ ss)
    else elim rest [ none ↦ none | some ss' ↦ some (some x ∷ ss') ]

-- The shadows that find no slot, and the table with the others.
unfoldable pub place_locks :
    List (Option Lock) → List (Option Lock) → List (Option Lock) × List (Option Lock)
place_locks [] ss = ([], ss)
place_locks (none ∷ ls) ss = let (rest, ss') = place_locks ls ss in (none ∷ rest, ss')
place_locks (some l ∷ ls) ss = elim (place_lock l ss) [
  | none ↦ let (rest, ss') = place_locks ls ss in (some l ∷ rest, ss')
  | some ss1 ↦ let (rest, ss') = place_locks ls ss1 in (none ∷ rest, ss')
]

abbrev blank_barrier : Barrier
blank_barrier = record { id = 0; expected_count = 0; arrived_count = 0; generation = 0 }

-- A barrier in use takes over the count and the generation; a new one goes to the first slot that is
-- not in use, and is lost if there is none.
pub place_barrier : Barrier → List Barrier → List Barrier
place_barrier shadow bs = elim (find_used shadow.id 0 bs) [
  | some j ↦ set bs j (record (get_or bs j blank_barrier) {
    arrived_count = shadow.arrived_count;
    generation = shadow.generation;
  })
  | none ↦ elim (find_unused 0 bs) [ some j ↦ set bs j shadow | none ↦ bs ]
]

-- The loop over the shadows, at most as many as the node has slots for barriers.
pub place_barriers :
    (limit : ℕ) → List (Option Barrier) → List Barrier → List (Option Barrier) × List Barrier
place_barriers zero shadows bs = (shadows, bs)
place_barriers (suc k) [] bs = ([], bs)
place_barriers (suc k) (none ∷ shadows) bs =
    let (rest, bs') = place_barriers k shadows bs in (none ∷ rest, bs')
place_barriers (suc k) (some b ∷ shadows) bs =
    let (rest, bs') = place_barriers k shadows (place_barrier b bs) in (none ∷ rest, bs')

-- The nodes that `send_manager_promotion` sends to.
pub told_of_promotion : (self i : ℕ) → List NodeSlot → List ℕ
told_of_promotion self i [] = []
told_of_promotion self i (s ∷ ss) =
    if not (i == self) && s.connected
    then i ∷ told_of_promotion self (i + 1) ss
    else told_of_promotion self (i + 1) ss

-- The shadow directory replaces the directory, if there is one.
abbrev pub take_directory : FailNode → FailNode
take_directory n = elim n.backup_directory [
  | none ↦ n
  | some d ↦ record n { directory = some d; backup_directory = none }
]

abbrev pub take_locks : FailNode → FailNode
take_locks n =
    let (rest, placed) = place_locks n.backup_locks n.locks in
    record n { backup_locks = rest; locks = placed }

abbrev pub take_barriers : FailNode → FailNode
take_barriers n =
    let (rest, placed) = place_barriers (length n.barriers) n.backup_barriers n.barriers in
    record n { backup_barriers = rest; barriers = placed }

abbrev pub as_manager : FailNode → FailNode
as_manager n = record n { role = record { is_manager = true; is_promoted = true } }

-- The nodes that hear of the promotion, and the node afterwards.
pub promote_to_manager : FailNode → List ℕ × FailNode
promote_to_manager n =
    if n.role.is_promoted
    then ([], n)
    else let n' = take_barriers (take_locks (take_directory (as_manager n))) in
      (
        told_of_promotion n.node_id 0 (take max_nodes n.nodes),
        record n' { current_manager = n.node_id },
      )

abbrev pub mark_failed : FailNode → ℕ → FailNode
mark_failed n id =
    if ltb id max_nodes && not (slot_at n id).is_failed
    then record n { nodes = set n.nodes id (record { connected = false; is_failed = true }) }
    else n

-- Whom a node sends its `RECONNECT_REQUEST`, and the node afterwards. The code of that send does not
-- matter.
pub handle_manager_promotion : FailNode → (new_manager old_manager : ℕ) → Option ℕ × FailNode
handle_manager_promotion n new_manager old_manager =
    if n.role.is_manager || n.is_backup
    then (none, n)
    else (some new_manager, mark_failed (record n { current_manager = new_manager }) old_manager)
