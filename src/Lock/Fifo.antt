-- ===== src/Lock/Fifo.antt =====
-- src/sync/lock.c: the manager's locks as queues. Requests and releases of all nodes reach
-- `lock_manager_grant` and `lock_manager_release` in some order; `lock_step` is one lock alone.
use mathlib.Core.Path.{subst}
use user_level_dsm.Prelude.{
  ℕ, List, if◌then◌else◌, ◌∷◌, ◌==◌, ◌≡◌, ◌++◌, arith, [], some, true, ◌≢◌, refl, none, List-cases,
  inl, inr, Bool-cases, Option, ap, ==_ne, eq-cases, sym, ◌∙◌, ==_refl, some_eq,
}
use user_level_dsm.Lock.{
  lock_manager_grant, Lock, grant_found, Reply, lock_manager_release, Message, sync_if,
  find_lock_by_id, LockNode, lock_grant, held_by, lock_request, lock_release, queued, freed,
  handed_over, sync_lock, release_found, grant_created, dsm_lock_create, place, Scan, scan,
  empty_at, slot_at, new_lock, exists_at, full,
}
use user_level_dsm.Types.{Role, free, Status, held}
use user_level_dsm.Lock.Table.{
  find_lock-modify_lock, placed_lock, scan-ne-exists, find_lock_by_id_id,
}

-- A message to the manager, with the lock and the node that sent it.
pub data Event : Type 0 where
  request : (id node : ℕ) → Event
  release : (id node : ℕ) → Event

-- `handle_lock_request` and `handle_lock_release`, with memory to spare.
unfoldable pub serve : (Message → Status) → LockNode → Event → Reply
unfolding lock_manager_grant lock_manager_release
serve net n (request id node) = lock_manager_grant true true net n id node
serve net n (release id node) = lock_manager_release net n id node

-- The nodes that messages grant the lock to, in order.
abbrev pub grants : ℕ → List Message → List ℕ
grants id [] = []
grants id (lock_grant to j ∷ ms) = if j == id then to ∷ grants id ms else grants id ms
grants id (lock_request to j from ∷ ms) = grants id ms
grants id (lock_release to j from ∷ ms) = grants id ms
grants id (sync_lock j h ws ∷ ms) = grants id ms

-- One lock alone: its state after an event, and whom the event grants it to.
abbrev pub request_step : Lock → ℕ → Lock × List ℕ
request_step l node = elim l.state [
  | free ↦ (held_by node l, node ∷ [])
  | held ↦ (queued node l, [])
]

abbrev pub release_step : Lock → ℕ → Lock × List ℕ
release_step l node =
    if l.holder == node
    then elim l.waiters [ [] ↦ (freed l, []) | next ∷ rest ↦ (handed_over next rest l, next ∷ []) ]
    else (l, [])

abbrev pub lock_step : ℕ → Lock → Event → Lock × List ℕ
lock_step id l (request j node) = if j == id then request_step l node else (l, [])
lock_step id l (release j node) = if j == id then release_step l node else (l, [])

-- What an event does to the lock `id`, whose entry was `l`.
abbrev pub Steps : ℕ → Reply → Lock × List ℕ → Type 0
Steps id r s = (find_lock_by_id id r.after.slots ≡ some s.0) × (grants id r.sent ≡ s.1)

grants-sync_if :
    (id : ℕ) (r : Role) (j h : ℕ) (ws : List ℕ) (ms : List Message)
    → grants id (sync_if r j h ws ++ ms) ≡ grants id ms
grants-sync_if id r j h ws ms = ground arith

grant_found-Steps :
    (net : Message → Status) (n : LockNode) (l : Lock) (id node : ℕ)
    → l.id ≡ id
    → find_lock_by_id id n.slots ≡ some l
    → Steps id (grant_found true net n l node) (request_step l node)
unfolding grant_found
grant_found-Steps net n l id node e h = ground (
  arith,
  find_lock-modify_lock l.id id (held_by node) n.slots (λ x. refl),
  find_lock-modify_lock l.id id (queued node) n.slots (λ x. refl),
)

grant_found-Steps_other :
    (net : Message → Status) (n : LockNode) (l m : Lock) (id node : ℕ)
    → find_lock_by_id id n.slots ≡ some l
    → m.id ≢ id
    → Steps id (grant_found true net n m node) (l, [])
unfolding grant_found
grant_found-Steps_other net n l m id node h ne = ground (
  arith,
  find_lock-modify_lock m.id id (held_by node) n.slots (λ x. refl),
  find_lock-modify_lock m.id id (queued node) n.slots (λ x. refl),
)

release_found-Steps :
    (net : Message → Status) (n : LockNode) (l : Lock) (id node : ℕ)
    → l.id ≡ id
    → find_lock_by_id id n.slots ≡ some l
    → Steps id (release_found net n l node) (release_step l node)
unfolding release_found
release_found-Steps net n l id node same h = elim (List-cases l.waiters) [
  | inl nobody ↦ ground (arith, nobody, find_lock-modify_lock l.id id freed n.slots (λ x. refl))
  | inr (next, rest, e) ↦
      ground (arith, e, find_lock-modify_lock l.id id (handed_over next rest) n.slots (λ x. refl))
]

release_found-Steps_other :
    (net : Message → Status) (n : LockNode) (l m : Lock) (id node : ℕ)
    → find_lock_by_id id n.slots ≡ some l
    → m.id ≢ id
    → Steps id (release_found net n m node) (l, [])
unfolding release_found
release_found-Steps_other net n l m id node h ne = elim (List-cases m.waiters) [
  | inl nobody ↦ ground (arith, nobody, find_lock-modify_lock m.id id freed n.slots (λ x. refl))
  | inr (next, rest, e) ↦
      ground (arith, e, find_lock-modify_lock m.id id (handed_over next rest) n.slots (λ x. refl))
]

place-Steps_other :
    (net : Message → Status) (n : LockNode) (l : Lock) (id j node : ℕ) (s : Scan)
    → find_lock_by_id id n.slots ≡ some l
    → find_lock_by_id j n.slots ≡ none
    → scan j 0 n.slots ≡ s
    → Steps id (grant_created true net (place n j s) node) (l, [])
unfolding grant_created place
place-Steps_other net n l id j node (empty_at i) h m e =
    rw (new.0, grant_created)
      (grant_found-Steps_other net (place n j (empty_at i)).1 l (new_lock j) id node
        (ground (arith, new.1, ne)) ne)
  where
    new :
        (slot_at (place n j (empty_at i)).1 i ≡ some (new_lock j))
        × (find_lock_by_id id (place n j (empty_at i)).1.slots
            ≡ (if j == id then some (new_lock j) else find_lock_by_id id n.slots))
    new = placed_lock j id i n.slots e m

    ne : j ≢ id
    ne same = cc (h, m, ap (λ k. find_lock_by_id k n.slots) same)
place-Steps_other net n l id j node (exists_at i) h m e = absurd (scan-ne-exists j 0 i n.slots m e)
place-Steps_other net n l id j node full h m e = (h, refl)

created-Steps_other :
    (net : Message → Status) (n : LockNode) (l : Lock) (id j node : ℕ)
    → find_lock_by_id id n.slots ≡ some l
    → find_lock_by_id j n.slots ≡ none
    → Steps id (grant_created true net (dsm_lock_create true n j) node) (l, [])
unfolding dsm_lock_create grant_created
created-Steps_other net n l id j node h m = elim (Bool-cases n.initialized) [
  | inl up ↦
      simp (up, dsm_lock_create) (place-Steps_other net n l id j node (scan j 0 n.slots) h m refl)
  | inr down ↦ simp (down, dsm_lock_create) (h, refl)
]

absent-ne :
    (n : LockNode) (id j : ℕ) (l : Lock)
    → find_lock_by_id id n.slots ≡ some l
    → find_lock_by_id j n.slots ≡ none
    → j ≢ id
absent-ne n id j l h m same = cc (h, m, ap (λ k. find_lock_by_id k n.slots) same)

request-Steps :
    (net : Message → Status) (n : LockNode) (j node id : ℕ) (l : Lock) (o : Option Lock)
    → find_lock_by_id id n.slots ≡ some l
    → find_lock_by_id j n.slots ≡ o
    → Steps id (serve net n (request j node)) (lock_step id l (request j node))
unfolding serve
request-Steps net n j node id l none h m =
    rw (m, serve, lock_manager_grant)
      (rw (==_ne j id (absent-ne n id j l h m)) (created-Steps_other net n l id j node h m))
request-Steps net n j node id l (some x) h m = elim (eq-cases j id) [
  | inl e ↦
      let here : find_lock_by_id id n.slots ≡ some x = rw e at m in
      rw (m, serve, lock_manager_grant)
        (rw (e, ==_refl id)
          (subst (λ y. Steps id (grant_found true net n x node) (request_step y node))
            (some_eq (sym here ∙ h))
            (grant_found-Steps net n x id node (find_lock_by_id_id id n.slots x here) here)))
  | inr ne ↦
      let other : x.id ≢ id = λ e. ne (sym (find_lock_by_id_id j n.slots x m) ∙ e) in
      rw (m, serve, lock_manager_grant)
        (rw (==_ne j id ne) (grant_found-Steps_other net n l x id node h other))
]

release-Steps :
    (net : Message → Status) (n : LockNode) (j node id : ℕ) (l : Lock) (o : Option Lock)
    → find_lock_by_id id n.slots ≡ some l
    → find_lock_by_id j n.slots ≡ o
    → Steps id (serve net n (release j node)) (lock_step id l (release j node))
unfolding serve
release-Steps net n j node id l none h m =
    rw (m, serve, lock_manager_release) (rw (==_ne j id (absent-ne n id j l h m)) (h, refl))
release-Steps net n j node id l (some x) h m = elim (eq-cases j id) [
  | inl e ↦
      let here : find_lock_by_id id n.slots ≡ some x = rw e at m in
      rw (m, serve, lock_manager_release)
        (rw (e, ==_refl id)
          (subst (λ y. Steps id (release_found net n x node) (release_step y node))
            (some_eq (sym here ∙ h))
            (release_found-Steps net n x id node (find_lock_by_id_id id n.slots x here) here)))
  | inr ne ↦
      let other : x.id ≢ id = λ e. ne (sym (find_lock_by_id_id j n.slots x m) ∙ e) in
      rw (m, serve, lock_manager_release)
        (rw (==_ne j id ne) (release_found-Steps_other net n l x id node h other))
]

-- Each event does to a lock in the table what it does to the lock alone, whatever other locks the
-- table holds, gains or fails to make.
pub serve-Steps :
    (net : Message → Status) (n : LockNode) (ev : Event) (id : ℕ) (l : Lock)
    → find_lock_by_id id n.slots ≡ some l
    → Steps id (serve net n ev) (lock_step id l ev)
serve-Steps net n (request j node) id l h =
    request-Steps net n j node id l (find_lock_by_id j n.slots) h refl
serve-Steps net n (release j node) id l h =
    release-Steps net n j node id l (find_lock_by_id j n.slots) h refl
