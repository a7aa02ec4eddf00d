-- ===== src/Lock/Order.antt =====
-- src/sync/lock.c: histories of the manager. For one lock, who was granted it and in which order,
-- over any interleaving of the requests and releases of all nodes for all locks that come in
-- messages. What the manager acquires and releases itself is not in them.
use mathlib.Core.List.{append-nil, append_assoc}
use user_level_dsm.Lock.{
  Message, Lock, new_lock, LockNode, lock_grant, lock_request, lock_release, sync_lock,
  find_lock_by_id,
}
use user_level_dsm.Prelude.{
  ℕ, List, ◌≡◌, ◌∷◌, [], ◌++◌, refl, arith, if◌then◌else◌, ◌==◌, List-cases, inl, inr, some, sym,
  ◌∙◌, ap,
}
use user_level_dsm.Lock.Fifo.{Event, lock_step, grants, serve, request, release, serve-Steps}
use user_level_dsm.Types.{Status, free, no_node}

-- The state of the manager, and the messages that it sends, over a list of events.
unfoldable pub serve_all : (Message → Status) → LockNode → List Event → LockNode
serve_all net n [] = n
serve_all net n (ev ∷ evs) = serve_all net (serve net n ev).after evs

pub sent_all : (Message → Status) → LockNode → List Event → List Message
sent_all net n [] = []
sent_all net n (ev ∷ evs) = (serve net n ev).sent ++ sent_all net (serve net n ev).after evs

-- The nodes that asked for a lock, in order.
abbrev pub requests : ℕ → List Event → List ℕ
requests id [] = []
requests id (request j node ∷ evs) = if j == id then node ∷ requests id evs else requests id evs
requests id (release j node ∷ evs) = requests id evs

-- A free lock has no holder and nobody waits for it.
pub record IsOrderly (l : Lock) : Type 0 where
  pub no_holder : l.state ≡ free → l.holder ≡ no_node
  pub no_waiters : l.state ≡ free → l.waiters ≡ []

pub new_lock-IsOrderly : (id : ℕ) → IsOrderly (new_lock id)
new_lock-IsOrderly id = record { no_holder = λ _. refl; no_waiters = λ _. refl }

pub lock_step-IsOrderly :
    (id : ℕ) (l : Lock) (ev : Event) → IsOrderly l → IsOrderly (lock_step id l ev).0
lock_step-IsOrderly id l (request j node) o = ground arith
lock_step-IsOrderly id l (release j node) o = elim (List-cases l.waiters) [
  | inl e ↦ ground (arith, e)
  | inr (next, rest, e) ↦ ground (arith, e)
]

lock_step_order :
    (id : ℕ) (l : Lock) (ev : Event)
    → IsOrderly l
    → (lock_step id l ev).1 ++ (lock_step id l ev).0.waiters ≡ l.waiters ++ requests id (ev ∷ [])
lock_step_order id l (request j node) o = ground (arith, append-nil l.waiters)
lock_step_order id l (release j node) o = elim (List-cases l.waiters) [
  | inl e ↦ ground (arith, e)
  | inr (next, rest, e) ↦ ground (arith, e, append-nil (next ∷ rest), append-nil l.waiters)
]

pub grants-append :
    (id : ℕ) (xs ys : List Message) → grants id (xs ++ ys) ≡ grants id xs ++ grants id ys
grants-append id [] ys = refl
grants-append id (lock_grant to j ∷ xs) ys = ground (arith, grants-append id xs ys)
grants-append id (lock_request to j from ∷ xs) ys = grants-append id xs ys
grants-append id (lock_release to j from ∷ xs) ys = grants-append id xs ys
grants-append id (sync_lock j h ws ∷ xs) ys = grants-append id xs ys

requests-cons :
    (id : ℕ) (ev : Event) (evs : List Event)
    → requests id (ev ∷ evs) ≡ requests id (ev ∷ []) ++ requests id evs
requests-cons id (request j node) evs = ground arith
requests-cons id (release j node) evs = refl

-- Two stretches of a history in which what goes out and what stays is what was there and what came.
chain {ℓ} :
    {A : Type ℓ} (out out' kept kept' there came came' : List A)
    → out ++ kept ≡ there ++ came
    → out' ++ kept' ≡ kept ++ came'
    → (out ++ out') ++ kept' ≡ there ++ (came ++ came')
chain out out' kept kept' there came came' p q =
    append_assoc out out' kept'
    ∙ ap (◌++◌ out) q
    ∙ sym (append_assoc out kept came')
    ∙ ap (λ xs. xs ++ came') p
    ∙ append_assoc there came came'

-- The requests and releases that come in messages are served first come, first served: for a lock in
-- the manager's table that has neither a holder nor waiters if it is free at the start, the nodes that
-- it has been granted to over the history, followed by those that still wait, are the nodes that
-- waited at the start and those that asked since, in the order in which they asked. The manager's own
-- acquires and releases are no events of the history.
pub grants_fifo :
    (net : Message → Status) (n : LockNode) (evs : List Event) (id : ℕ) (l : Lock)
    → find_lock_by_id id n.slots ≡ some l
    → IsOrderly l
    → (l' : Lock) × (find_lock_by_id id (serve_all net n evs).slots ≡ some l')
      × (grants id (sent_all net n evs) ++ l'.waiters ≡ l.waiters ++ requests id evs)
unfolding serve_all sent_all
grants_fifo net n [] id l h o = (l, h, sym (append-nil l.waiters))
grants_fifo net n (ev ∷ evs) id l h o =
    let one = serve-Steps net n ev id l h in
    let (l', found, order) =
      grants_fifo net (serve net n ev).after evs id (lock_step id l ev).0 one.0
        (lock_step-IsOrderly id l ev o) in
    (
      l',
      found,
      rw (grants-append id (serve net n ev).sent (sent_all net (serve net n ev).after evs), one.1)
          (chain (lock_step id l ev).1 (grants id (sent_all net (serve net n ev).after evs))
              (lock_step id l ev).0.waiters l'.waiters l.waiters (requests id (ev ∷ []))
              (requests id evs) (lock_step_order id l ev o) order
            ∙ ap (◌++◌ l.waiters) (sym (requests-cons id ev evs))),
    )
