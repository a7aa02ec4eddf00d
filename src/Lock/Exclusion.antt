-- ===== src/Lock/Exclusion.antt =====
-- src/sync/lock.c: mutual exclusion. A monitor reads the log of one lock, in which a node takes the
-- lock when the manager grants it and gives it back when the manager accepts its release.
use user_level_dsm.Lock.{Lock, Message, LockNode, find_lock_by_id}
use user_level_dsm.Prelude.{
  ℕ, Option, List, Bool, ◌≡◌, some, none, false, ◌++◌, map, ◌∷◌, if◌then◌else◌, ◌==◌, [], arith,
  Bool-cases, ◌≢◌, ◌&&◌, inl, inr, All, List-cases, ◌∙◌, refl,
}
use user_level_dsm.Lock.Fifo.{Event, request, release, grants, serve, lock_step, serve-Steps}
use user_level_dsm.Types.{Status, free, held, no_node}
use user_level_dsm.Lock.Order.{IsOrderly, serve_all, lock_step-IsOrderly}

pub data Action : Type 0 where
  took : (node : ℕ) → Action
  gave : (node : ℕ) → Action

-- The manager accepts the release of a lock from its holder only.
abbrev pub accepts : Option Lock → ℕ → Bool
accepts none node = false
accepts (some l) node = l.holder == node

-- What an event adds to the log of the lock `id`.
pub actions : (Message → Status) → LockNode → ℕ → Event → List Action
actions net n id (request j node) = map took (grants id (serve net n (request j node)).sent)
actions net n id (release j node) =
    (if (j == id) && accepts (find_lock_by_id id n.slots) node then gave node ∷ [] else [])
    ++ map took (grants id (serve net n (release j node)).sent)

pub log_of : (Message → Status) → LockNode → ℕ → List Event → List Action
log_of net n id [] = []
log_of net n id (ev ∷ evs) = actions net n id ev ++ log_of net (serve net n ev).after id evs

-- The monitor: the holder after a log, or `none` if a node took a lock that another held, or gave
-- back one that it did not hold.
pub watch : Option ℕ → List Action → Option (Option ℕ)
watch h [] = some h
watch none (took node ∷ acts) = watch (some node) acts
watch (some h) (took node ∷ acts) = none
watch none (gave node ∷ acts) = none
watch (some h) (gave node ∷ acts) = let rest = watch none acts in if h == node then rest else none

abbrev pub holder_of : Lock → Option ℕ
holder_of l = elim l.state [ free ↦ none | held ↦ some l.holder ]

abbrev pub from_node : Event → ℕ
from_node (request j node) = node
from_node (release j node) = node

watch-append :
    (h : Option ℕ) (acts bs : List Action) (m : Option ℕ)
    → watch h acts ≡ some m
    → watch h (acts ++ bs) ≡ watch m bs
unfolding watch
watch-append h [] bs m e = ground (arith, e)
watch-append none (took node ∷ acts) bs m e = watch-append (some node) acts bs m e
watch-append (some h) (took node ∷ acts) bs m e = cc
watch-append none (gave node ∷ acts) bs m e = cc
watch-append (some h) (gave node ∷ acts) bs m e = elim (Bool-cases (h == node)) [
  | inl t ↦ rw t (watch-append none acts bs m (rw t at e))
  | inr f ↦ absurd (ground (arith, f))
]

-- One event, of a real node.
actions_watched :
    (net : Message → Status) (n : LockNode) (ev : Event) (id : ℕ) (l : Lock)
    → find_lock_by_id id n.slots ≡ some l
    → IsOrderly l
    → from_node ev ≢ no_node
    → watch (holder_of l) (actions net n id ev) ≡ some (holder_of (lock_step id l ev).0)
unfolding actions watch
actions_watched net n (request j node) id l h o real =
    rw (serve-Steps net n (request j node) id l h).1 (ground arith)
actions_watched net n (release j node) id l h o real =
    rw (serve-Steps net n (release j node) id l h).1 (
      rw (h, accepts)
        (elim (List-cases l.waiters) [
          | inl e ↦ ground (arith, e)
          | inr (next, rest, e) ↦ ground (arith, e)
        ]))

-- Every event comes from a node.
abbrev pub FromNodes : List Event → Type 0
FromNodes = All (λ ev. from_node ev ≢ no_node)

-- One holder at a time: in the log of a lock in the manager's table, no node takes the lock while
-- another has it and only the holder gives it back; at the end the log's holder is the table's.
pub exclusion :
    (net : Message → Status) (n : LockNode) (evs : List Event) (id : ℕ) (l : Lock)
    → find_lock_by_id id n.slots ≡ some l
    → IsOrderly l
    → FromNodes evs
    → (l' : Lock) × (find_lock_by_id id (serve_all net n evs).slots ≡ some l')
      × (watch (holder_of l) (log_of net n id evs) ≡ some (holder_of l'))
unfolding serve_all log_of watch
exclusion net n [] id l h o real = (l, h, refl)
exclusion net n (ev ∷ evs) id l h o real =
    let one = serve-Steps net n ev id l h in
    let (l', found, rest) =
      exclusion net (serve net n ev).after evs id (lock_step id l ev).0 one.0
        (lock_step-IsOrderly id l ev o) real.1 in
    (
      l',
      found,
      watch-append (holder_of l) (actions net n id ev) (log_of net (serve net n ev).after id evs)
            (holder_of (lock_step id l ev).0) (actions_watched net n ev id l h o real.0)
          ∙ rest,
    )
