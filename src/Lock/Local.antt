-- ===== src/Lock/Local.antt =====
-- src/sync/lock.c: `dsm_lock_create` and `dsm_lock_acquire` as their caller sees them.
use mathlib.Core.Path.{subst}
use user_level_dsm.Lock.{
  dsm_lock_create, place, scan, LockNode, Scan, Lock, exists_at, empty_at, new_lock, full, Message,
  Reply, slot_at, lock_request, manager,
}
use user_level_dsm.Prelude.{
  ℕ, true, List, Option, ◌≡◌, some, set, ◌-◌, ◌∷◌, some_eq, arith, ==_refl, ◌∙◌, ap, Bool-cases,
  ◌==◌, inl, inr, ◌+◌, suc, [], none, sym, false, refl, ◌⊎◌, Bool, if◌then◌else◌,
}
use user_level_dsm.Lock.Table.{scan-le}
use user_level_dsm.Lock.Client.{
  wait_granted, wait_free, Wake, dsm_lock_acquire, acquire_at, passed, woken, timed_out,
  finish_remote, finish_local, Wait, expired, waiting,
}
use user_level_dsm.Types.{free, Status, success, timeout_error, held}

scan-set :
    (id k i : ℕ) (ss : List (Option Lock))
    → scan id k ss ≡ empty_at i
    → scan id k (set ss (i - k) (some (new_lock id))) ≡ exists_at i
unfolding scan
scan-set id k i [] h = cc
scan-set id k i (none ∷ ss) h =
    let at_head : i - k ≡ 0 = ground (arith, h) in rw at_head (rw (==_refl id) (ground (arith, h)))
scan-set id k i (some x ∷ ss) h = elim (Bool-cases (x.id == id)) [
  | inl same ↦ absurd (ground (arith, same))
  | inr ne ↦
      let later : scan id (k + 1) ss ≡ empty_at i = rw ne at h in
      let deeper : i - k ≡ suc (i - (k + 1)) = omega (arith, scan-le id (k + 1) i ss later) in
      rw deeper (rw ne (scan-set id (k + 1) i ss later))
]

place_twice :
    (n : LockNode) (id : ℕ) (s : Scan) (i : ℕ)
    → scan id 0 n.slots ≡ s
    → (place n id s).0 ≡ some i
    → scan id 0 (place n id s).1.slots ≡ exists_at i
unfolding place
place_twice n id (empty_at k) i e h =
    subst (λ j. scan id 0 (set n.slots k (some (new_lock id))) ≡ exists_at j) (some_eq h)
      (subst (λ j. scan id 0 (set n.slots j (some (new_lock id))) ≡ exists_at k) (omega arith)
        (scan-set id 0 k n.slots e))
place_twice n id (exists_at k) i e h = e ∙ ap exists_at (some_eq h)
place_twice n id full i e h = cc

place-initialized :
    (n : LockNode) (id : ℕ) (s : Scan) → (place n id s).1.initialized ≡ n.initialized
unfolding place
place-initialized n id (empty_at k) = refl
place-initialized n id (exists_at k) = refl
place-initialized n id full = refl

place-exists : (n : LockNode) (id i : ℕ) → place n id (exists_at i) ≡ (some i, n)
unfolding place
place-exists n id i = refl

create-place :
    (n : LockNode) (id : ℕ)
    → n.initialized ≡ true
    → dsm_lock_create true n id ≡ place n id (scan id 0 n.slots)
unfolding dsm_lock_create
create-place n id up = simp (up, dsm_lock_create)

create-down :
    (n : LockNode) (id : ℕ) → n.initialized ≡ false → dsm_lock_create true n id ≡ (none, n)
unfolding dsm_lock_create
create-down n id down = simp (down, dsm_lock_create)

-- A lock that was created is found again: a second `dsm_lock_create` of the same identifier returns
-- the same slot and changes nothing, whatever the table held before.
pub create_twice :
    (n n' : LockNode) (id i : ℕ)
    → dsm_lock_create true n id ≡ (some i, n')
    → dsm_lock_create true n' id ≡ (some i, n')
create_twice n n' id i h = elim (Bool-cases n.initialized) [
  | inr down ↦ absurd (cc (ap (λ (x : Option ℕ × LockNode). x.0) (sym (create-down n id down) ∙ h)))
  | inl up ↦
      let placed : place n id (scan id 0 n.slots) ≡ (some i, n') = sym (create-place n id up) ∙ h in
      let up' : n'.initialized ≡ true =
        ap (λ (x : Option ℕ × LockNode). x.1.initialized) (sym placed)
        ∙ place-initialized n id (scan id 0 n.slots)
        ∙ up in
      let again : scan id 0 n'.slots ≡ exists_at i =
        ap (λ (x : Option ℕ × LockNode). scan id 0 x.1.slots) (sym placed)
        ∙ place_twice n id (scan id 0 n.slots) i refl
            (ap (λ (x : Option ℕ × LockNode). x.0) placed) in
      create-place n' id up' ∙ ap (place n' id) again ∙ place-exists n' id i
]

-- The lock as a loop that waits for it sees it: at the start and after each wake-up, up to the
-- time-out.
abbrev pub views : Lock → List Wake → List Lock
views l [] = l ∷ []
views l (timed_out x ∷ ws) = l ∷ []
views l (woken x ∷ ws) = l ∷ views x ws

-- The lock at the time-out, if there is one.
abbrev pub at_timeout : List Wake → Option Lock
at_timeout [] = none
at_timeout (timed_out x ∷ ws) = some x
at_timeout (woken x ∷ ws) = at_timeout ws

abbrev pub first_where : (Lock → Bool) → List Lock → Option Lock
first_where test [] = none
first_where test (l ∷ ls) = let rest = first_where test ls in if test l then some l else rest

-- The manager waits for a free lock, a worker for one that has been granted to it.
abbrev pub can_take : LockNode → Lock → Bool
can_take n l =
    if n.role.is_manager
    then (elim l.state [ free ↦ true | held ↦ false ])
    else l.holder == n.node_id

-- The manager takes the lock itself, a worker finds itself on it.
abbrev pub taken : LockNode → Lock → Lock
taken n l = if n.role.is_manager then record l { holder = n.node_id; state = held } else l

abbrev pub asked : LockNode → Lock → List Message
asked n l = if n.role.is_manager then [] else lock_request manager l.id n.node_id ∷ []

-- The outcome of a wait: with the first lock that passes, else with the time-out, else none.
abbrev outcome : Option Lock → Option Lock → Wait
outcome (some x) late = passed x
outcome none (some x) = expired x
outcome none none = waiting

wait_free_lem :
    (n : LockNode) (l : Lock) (ws : List Wake)
    → n.role.is_manager ≡ true
    → wait_free l ws ≡ outcome (first_where (can_take n) (views l ws)) (at_timeout ws)
unfolding wait_free
wait_free_lem n l [] m = ground arith
wait_free_lem n l (timed_out x ∷ ws) m = ground arith
wait_free_lem n l (woken x ∷ ws) m = ground (arith, wait_free_lem n x ws m)

wait_granted_lem :
    (n : LockNode) (l : Lock) (ws : List Wake)
    → n.role.is_manager ≡ false
    → wait_granted n.node_id l ws ≡ outcome (first_where (can_take n) (views l ws)) (at_timeout ws)
unfolding wait_granted
wait_granted_lem n l [] w = ground arith
wait_granted_lem n l (timed_out x ∷ ws) w = ground arith
wait_granted_lem n l (woken x ∷ ws) w = ground (arith, wait_granted_lem n x ws w)

-- What an acquire comes to, from the first lock that passes and the one at the time-out.
abbrev pub Comes : LockNode → ℕ → Lock → (seen late : Option Lock) → Option Reply → Type 0
Comes n i l (some seen) late r =
    r
    ≡ some (record {
      status = success;
      sent = asked n l;
      after = record n {
        slots = set n.slots i (some (taken n seen));
        lock_acquires = n.lock_acquires + 1;
      };
    })
Comes n i l none (some x) r =
    r
    ≡ some (record {
      status = timeout_error;
      sent = asked n l;
      after = record n { slots = set n.slots i (some x) };
    })
Comes n i l none none r = r ≡ none

local-Comes :
    (n : LockNode) (i : ℕ) (l : Lock) (seen late : Option Lock)
    → n.role.is_manager ≡ true
    → Comes n i l seen late (finish_local n i (outcome seen late))
unfolding finish_local
local-Comes n i l (some x) late m = rw m refl
local-Comes n i l none (some x) m = rw m refl
local-Comes n i l none none m = refl

remote-Comes :
    (n : LockNode) (i : ℕ) (l : Lock) (seen late : Option Lock)
    → n.role.is_manager ≡ false
    → Comes n i l seen late
        (finish_remote n i (lock_request manager l.id n.node_id) (outcome seen late))
unfolding finish_remote
remote-Comes n i l (some x) late w = rw w refl
remote-Comes n i l none (some x) w = rw w refl
remote-Comes n i l none none w = refl

acquire_manager :
    (net : Message → Status) (n : LockNode) (i : ℕ) (l : Lock) (ws : List Wake)
    → slot_at n i ≡ some l
    → n.initialized ≡ true
    → n.role.is_manager ≡ true
    → dsm_lock_acquire net n (some i) ws ≡ finish_local n i (wait_free l ws)
unfolding dsm_lock_acquire acquire_at
acquire_manager net n i l ws e up m = simp (e, up, m, dsm_lock_acquire, acquire_at)

acquire_worker :
    (net : Message → Status) (n : LockNode) (i : ℕ) (l : Lock) (ws : List Wake)
    → slot_at n i ≡ some l
    → n.initialized ≡ true
    → n.role.is_manager ≡ false
    → net (lock_request manager l.id n.node_id) ≡ success
    → dsm_lock_acquire net n (some i) ws
      ≡ finish_remote n i (lock_request manager l.id n.node_id) (wait_granted n.node_id l ws)
unfolding dsm_lock_acquire acquire_at
acquire_worker net n i l ws e up w sent = simp (e, up, w, sent, dsm_lock_acquire, acquire_at)

-- What `dsm_lock_acquire` does with the lock in slot `i`, on an initialized node that is the manager
-- or whose request goes out. It succeeds with the first of the locks that it sees, at the start and
-- after each wake-up up to the time-out, that it may take: a free one on the manager, which it then
-- holds, and one that it already holds on a worker, which it leaves as it is; the acquire is counted.
-- With no such lock it ends at the time-out with an error and the lock as it then is, and without a
-- time-out it still waits. A worker has asked the manager once, a manager sends nothing.
pub acquire_lem :
    (net : Message → Status) (n : LockNode) (i : ℕ) (l : Lock) (ws : List Wake)
    → slot_at n i ≡ some l
    → n.initialized ≡ true
    → (n.role.is_manager ≡ true) ⊎ (net (lock_request manager l.id n.node_id) ≡ success)
    → Comes n i l
        (first_where (can_take n) (views l ws))
        (at_timeout ws)
        (dsm_lock_acquire net n (some i) ws)
acquire_lem net n i l ws at_slot up way = elim (Bool-cases n.role.is_manager) [
  | inl m ↦
      rw (acquire_manager net n i l ws at_slot up m, wait_free_lem n l ws m)
        (local-Comes n i l (first_where (can_take n) (views l ws)) (at_timeout ws) m)
  | inr w ↦ elim way [
    | inl m ↦ absurd (cc (m, w))
    | inr sent ↦
        rw (acquire_worker net n i l ws at_slot up w sent, wait_granted_lem n l ws w)
          (remote-Comes n i l (first_where (can_take n) (views l ws)) (at_timeout ws) w)
  ]
]
