-- ===== src/Lock/Passing.antt =====
-- src/network/handlers.c and src/sync/lock.c: the way of a lock from the node that releases it over
-- the manager to the first node that waits. Each message arrives, in the order of sending.
use user_level_dsm.Lock.{
  Message, lock_request, lock_grant, lock_release, sync_lock, LockNode, Lock, manager, sync_if,
  slot_at, lock_handle_grant, lock_manager_release, find_lock_by_id, release_found, write_lock,
  handed_over, granted, Reply,
}
use user_level_dsm.Lock.Delivery.{dispatch_lock, handle_lock_release, handle_lock_grant}
use user_level_dsm.Types.{Status, Role, success, no_node}
use user_level_dsm.Prelude.{
  refl, ℕ, if◌then◌else◌, List, true, ◌==◌, ◌∷◌, none, some, ◌++◌, [], Option, get_or, ◌≡◌, ◌<◌,
  arith, false, length, suc, ==_refl, zero, ==_ne, ap, ◌≢◌, sym, ◌∙◌, get_or-set_self,
}
use user_level_dsm.Lock.Client.{dsm_lock_release, release_at, put_lock}
use user_level_dsm.Lock.Table.{find_lock_by_id_id, find_lock-modify_lock}

-- The nodes by their IDs.
abbrev pub Cluster : Type 0
Cluster = ℕ → LockNode

abbrev pub place_node : Cluster → ℕ → LockNode → Cluster
place_node c i n j = if j == i then n else c j

-- A replica's message is not delivered here.
unfoldable pub receiver : Message → ℕ
receiver (lock_request to lock requester) = to
receiver (lock_grant to lock) = to
receiver (lock_release to lock releaser) = to
receiver (sync_lock lock holder waiters) = manager

-- One message at its receiver: the nodes after it, and the messages that its handler sends.
unfoldable pub deliver : (Message → Status) → Cluster → Message → Cluster × List Message
deliver net c m = elim (dispatch_lock true true net (c (receiver m)) m) [
  | none ↦ (c, [])
  | some r ↦ (place_node c (receiver m) r.after, r.sent)
]

unfoldable pub deliver_all : (Message → Status) → Cluster → List Message → Cluster × List Message
deliver_all net c [] = (c, [])
deliver_all net c (m ∷ ms) =
    let (c', out) = deliver net c m in let (c'', more) = deliver_all net c' ms in (c'', out ++ more)

-- Node `u` calls `dsm_lock_release` on its slot `j`; its messages are delivered, and then the
-- manager's.
unfoldable pub pass_lock : (Message → Status) → Cluster → (u j : ℕ) → Cluster × List Message
pass_lock net c u j =
    let r = dsm_lock_release net (c u) (some j) in
    let (c', out) = deliver_all net (place_node c u r.after) r.sent in deliver_all net c' out

-- The manager's messages after a release, as one delivery.
sync_not_delivered :
    (net : Message → Status) (c : Cluster) (r : Role) (id holder : ℕ) (ws : List ℕ) (m : Message)
    → deliver_all net c ((sync_if r id holder ws ++ m ∷ []) ++ []) ≡ deliver_all net c (m ∷ [])
unfolding deliver_all deliver dispatch_lock receiver
sync_not_delivered net c r id holder ws m = ground arith

-- What the release of a worker does.
worker_releases :
    (net : Message → Status) (n : LockNode) (j id u : ℕ) (l : Lock)
    → slot_at n j ≡ some l
    → n.initialized ≡ true
    → n.role.is_manager ≡ false
    → l.id ≡ id
    → n.node_id ≡ u
    → l.holder ≡ u
    → dsm_lock_release net n (some j) ≡ record {
      status = net (lock_release manager id u);
      sent = lock_release manager id u ∷ [];
      after = put_lock n j (granted no_node l);
    }
unfolding dsm_lock_release release_at
worker_releases net n j id u l e up worker same me own =
    let at_home : l.holder ≡ n.node_id = own ∙ sym me in
    let reply : (k v : ℕ) → Reply = λ k v. record {
      status = net (lock_release manager k v);
      sent = lock_release manager k v ∷ [];
      after = put_lock n j (granted no_node l);
    } in
    let out : dsm_lock_release net n (some j) ≡ reply l.id n.node_id =
      simp (e, up, worker, at_home, ==_refl n.node_id, dsm_lock_release, release_at) in
    out ∙ ap (λ k. reply k n.node_id) same ∙ ap (reply id) me

-- What the manager does with it while a node waits.
manager_grants :
    (net : Message → Status) (n : LockNode) (id u next : ℕ) (rest : List ℕ) (l : Lock)
    → find_lock_by_id id n.slots ≡ some l
    → l.holder ≡ u
    → l.waiters ≡ next ∷ rest
    → handle_lock_release net n id u ≡ record {
      status = net (lock_grant next l.id);
      sent = sync_if n.role l.id next rest ++ lock_grant next l.id ∷ [];
      after = write_lock n l.id (handed_over next rest);
    }
unfolding handle_lock_release lock_manager_release release_found
manager_grants net n id u next rest l e own ws =
    simp (handle_lock_release, lock_manager_release, release_found, e, own, ws, ==_refl u)

-- What the grant does at the node that waits.
grant_arrives :
    (net : Message → Status) (n : LockNode) (id w : ℕ) (k : Lock)
    → find_lock_by_id id n.slots ≡ some k
    → n.node_id ≡ w
    → handle_lock_grant n id w
      ≡ record { status = success; sent = []; after = write_lock n id (granted w) }
unfolding handle_lock_grant lock_handle_grant
grant_arrives net n id w k e me = simp (handle_lock_grant, lock_handle_grant, e, me, ==_refl w)

slot_within :
    (ss : List (Option Lock)) (j : ℕ) (l : Lock) → get_or ss j none ≡ some l → j < length ss
slot_within [] j l h = cc
slot_within (s ∷ ss) zero l h = omega arith
slot_within (s ∷ ss) (suc j) l h = omega (arith, slot_within ss j l h)

deliver_release :
    (net : Message → Status) (c : Cluster) (id u : ℕ)
    → let r = handle_lock_release net (c manager) id u in
      deliver_all net c (lock_release manager id u ∷ [])
      ≡ (place_node c manager r.after, r.sent ++ [])
unfolding deliver_all deliver dispatch_lock receiver
deliver_release net c id u = refl

deliver_grant :
    (net : Message → Status) (c : Cluster) (id w : ℕ)
    → let r = handle_lock_grant (c w) id w in
      deliver_all net c (lock_grant w id ∷ []) ≡ (place_node c w r.after, r.sent ++ [])
unfolding deliver_all deliver dispatch_lock receiver
deliver_grant net c id w = refl

-- Three nodes: `u` holds the lock in its slot `j`, the manager says so and has `w` at the head of
-- the queue, and `w` has an entry for the lock.
pub record IsWaiting (c : Cluster) (u w j id : ℕ) (rest : List ℕ) (lu l lw : Lock) : Type 0 where
  pub apart : (u ≢ manager) × (w ≢ manager) × (u ≢ w)
  pub holder_id : (c u).node_id ≡ u
  pub waiter_id : (c w).node_id ≡ w
  pub started : (c u).initialized ≡ true
  pub worker : (c u).role.is_manager ≡ false
  pub own_entry : slot_at (c u) j ≡ some lu
  pub own_id : lu.id ≡ id
  pub own_held : lu.holder ≡ u
  pub known : find_lock_by_id id (c manager).slots ≡ some l
  pub known_held : l.holder ≡ u
  pub queue : l.waiters ≡ w ∷ rest
  pub entry : find_lock_by_id id (c w).slots ≡ some lw

-- The nodes after the lock has been passed on.
abbrev pub passed_to : Cluster → (u w j id : ℕ) → List ℕ → Lock → Cluster
passed_to c u w j id rest lu =
    place_node
      (place_node (place_node c u (put_lock (c u) j (granted no_node lu))) manager
        (write_lock (c manager) id (handed_over w rest)))
      w (write_lock (c w) id (granted w))

pass_lock_out :
    (net : Message → Status) (c : Cluster) (u w j id : ℕ) (rest : List ℕ) (lu l lw : Lock)
    → IsWaiting c u w j id rest lu l lw
    → pass_lock net c u j ≡ (passed_to c u w j id rest lu, [])
unfolding pass_lock
pass_lock_out net c u w j id rest lu l lw s =
    let own = put_lock (c u) j (granted no_node lu) in
    let c1 = place_node c u own in
    let c2 = place_node c1 manager (write_lock (c manager) id (handed_over w rest)) in
    let at_manager : c1 manager ≡ c manager = rw (==_ne manager u (λ e. s.apart.0 (sym e))) refl in
    let at_waiter : c2 w ≡ c w =
      rw (==_ne w manager s.apart.1, ==_ne w u (λ e. s.apart.2 (sym e))) refl in
    let out =
      worker_releases net (c u) j id u lu s.own_entry s.started s.worker s.own_id s.holder_id
        s.own_held in
    let lid : l.id ≡ id = find_lock_by_id_id id (c manager).slots l s.known in
    let mg : handle_lock_release net (c1 manager) id u ≡ record {
      status = net (lock_grant w id);
      sent = sync_if (c manager).role id w rest ++ lock_grant w id ∷ [];
      after = write_lock (c manager) id (handed_over w rest);
    } =
      ap (λ n. handle_lock_release net n id u) at_manager
      ∙ rw lid at (manager_grants net (c manager) id u w rest l s.known s.known_held s.queue) in
    let wt : handle_lock_grant (c2 w) id w
        ≡ record { status = success; sent = []; after = write_lock (c w) id (granted w) } =
      ap (λ n. handle_lock_grant n id w) at_waiter
      ∙ grant_arrives net (c w) id w lw s.entry s.waiter_id in
    ap
      (λ (r : Reply).
        let (c', ms) = deliver_all net (place_node c u r.after) r.sent in deliver_all net c' ms)
      out
    ∙ ap (λ (d : Cluster × List Message). deliver_all net d.0 d.1)
        (deliver_release net c1 id u
          ∙ ap (λ (r : Reply). (place_node c1 manager r.after, r.sent ++ [])) mg)
    ∙ sync_not_delivered net c2 (c manager).role id w rest (lock_grant w id)
    ∙ deliver_grant net c2 id w
    ∙ ap (λ (r : Reply). (place_node c2 w r.after, r.sent ++ [])) wt

-- The lock goes from the node that releases it to the first one that waits: after the release and
-- the two deliveries the manager has the waiter as the holder and the others in the queue, the
-- waiter's entry says that it holds the lock, the releaser's slot says that it does not, and no
-- message is left. The releaser is a worker that holds the lock, the waiter another one with an
-- entry for the lock, and the messages arrive.
pub lock_passes :
    (net : Message → Status) (c : Cluster) (u w j id : ℕ) (rest : List ℕ) (lu l lw : Lock)
    → IsWaiting c u w j id rest lu l lw
    → let c' = (pass_lock net c u j).0 in
      (find_lock_by_id id (c' manager).slots ≡ some (handed_over w rest l))
      × (find_lock_by_id id (c' w).slots ≡ some (granted w lw))
      × (slot_at (c' u) j ≡ some (granted no_node lu))
      × ((pass_lock net c u j).1 ≡ [])
lock_passes net c u w j id rest lu l lw s = rw (pass_lock_out net c u w j id rest lu l lw s) (
  rw (==_ne manager w (λ e. s.apart.1 (sym e))) (
      rw
        (
          find_lock-modify_lock id id (handed_over w rest) (c manager).slots (λ x. refl),
          ==_refl id,
          s.known,
        )
        refl),
  rw (==_refl w) (
      rw (find_lock-modify_lock id id (granted w) (c w).slots (λ x. refl), ==_refl id, s.entry)
        refl),
  rw (==_ne u w s.apart.2, ==_ne u manager s.apart.0, ==_refl u)
      (get_or-set_self (c u).slots j (some (granted no_node lu)) none
        (slot_within (c u).slots j lu s.own_entry)),
  refl,
)
