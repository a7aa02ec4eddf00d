-- ===== src/Barrier/Opening.antt =====
-- src/sync/barrier.c and src/network/handlers.c: the last arrival lets all nodes go on.
use mathlib.Core.List.{append-nil}
use user_level_dsm.Barrier.{
  Message, barrier_arrive, barrier_release, sync_barrier, BarrierNode, Reply, manager, releases,
  sync_if, barrier_handle_release, find_used, Barrier, Peer, barrier_manager_arrive, arrive,
  arrived, next_generation, is_last, put_barrier, barrier_at, await_release, find_or_create_barrier,
}
use user_level_dsm.Barrier.Delivery.{
  Cluster, place_node, deliver, deliver_all, receiver, dispatch_barrier, handle_barrier_release,
  handle_barrier_arrive, arrive_and_release,
}
use user_level_dsm.Prelude.{
  ℕ, List, suc, ◌≢◌, zero, ◌∷◌, if◌then◌else◌, ◌≡◌, ◌==◌, ◌&&◌, arith, ◌+◌, [], refl, ◌++◌,
  Bool-cases, not, inr, inl, eq-cases, ◌∙◌, true, subst, ap, ==_refl, ==_ne, sym, some,
  get_or-set_self, ◌≤◌, ◌<◌, length, ltb, some_eq,
}
use user_level_dsm.Types.{Role, success}

-- The number of releases for a node among the messages.
abbrev pub told : ℕ → List Message → ℕ
told w [] = 0
told w (barrier_release to id ∷ ms) = if to == w then suc (told w ms) else told w ms
told w (barrier_arrive to id participants ∷ ms) = told w ms
told w (sync_barrier id arrived expected generation ∷ ms) = told w ms

-- The number of connections to a node.
abbrev pub links : ℕ → List Peer → ℕ
links w [] = 0
links w (p ∷ ps) = if p.connected && (p.id == w) then suc (links w ps) else links w ps

unfoldable pub release_times : ℕ → (id : ℕ) → BarrierNode → BarrierNode
release_times zero id n = n
release_times (suc k) id n = release_times k id (handle_barrier_release n id).after

told-releases : (me id w : ℕ) (ps : List Peer) → w ≢ me → told w (releases me id ps) ≡ links w ps
unfolding releases
told-releases me id w [] ne = refl
told-releases me id w (p ∷ ps) ne = ground (arith, told-releases me id w ps ne)

placed_here :
    (c : Cluster) (f : BarrierNode → BarrierNode) (i w : ℕ)
    → i ≡ w
    → place_node c i (f (c i)) w ≡ f (c w)
placed_here c f i w e = subst (λ x. place_node c i (f (c i)) x ≡ f (c x)) e (rw (==_refl i) refl)

same_id : (i w : ℕ) → i ≡ w → (i == w) ≡ true
same_id i w e = subst (λ x. (i == x) ≡ true) e (==_refl i)

-- A node after the releases of a round: its barrier is released once for each that names it.
releases_arrive :
    (me id w : ℕ) (r : Role) (b : Barrier) (ps : List Peer) (c : Cluster)
    → (deliver_all c (releases me id ps ++ sync_if r id b)).0 w
      ≡ release_times (told w (releases me id ps)) id (c w)
unfolding releases release_times deliver_all deliver receiver dispatch_barrier
releases_arrive me id w r b [] c = ground arith
releases_arrive me id w r b (p ∷ ps) c = elim (Bool-cases (p.connected && not (p.id == me))) [
  | inr stays ↦ rw stays (releases_arrive me id w r b ps c)
  | inl goes ↦
      let release : BarrierNode → BarrierNode = λ n. (handle_barrier_release n id).after in
      let k = told w (releases me id ps) in
      let ih = releases_arrive me id w r b ps (place_node c p.id (release (c p.id))) in
      rw goes (elim (eq-cases p.id w) [
        | inl e ↦
            rw (same_id p.id w e)
              (ih ∙ ap (λ n. release_times k id n) (placed_here c release p.id w e))
        | inr ne ↦ rw (==_ne p.id w ne) (ih ∙ rw (==_ne w p.id (λ e. ne (sym e))) refl)
      ])
]

told_self : (me id : ℕ) (ps : List Peer) → told me (releases me id ps) ≡ 0
unfolding releases
told_self me id [] = refl
told_self me id (p ∷ ps) = elim (Bool-cases (p.connected && not (p.id == me))) [
  | inr stays ↦ rw stays (told_self me id ps)
  | inl goes ↦ ground (arith, goes, told_self me id ps)
]

find_used-lt :
    (id k i : ℕ) (bs : List Barrier) → find_used id k bs ≡ some i → (k ≤ i) × (i < k + length bs)
unfolding find_used
find_used-lt id k i [] h = cc
find_used-lt id k i (b ∷ bs) h = elim (Bool-cases ((b.id == id) && ltb 0 b.expected_count)) [
  | inl here ↦ let e : k ≡ i = some_eq (rw here at h) in (omega arith, omega arith)
  | inr later ↦ let ih = find_used-lt id (k + 1) i bs (rw later at h) in (omega arith, omega arith)
]

barrier_there :
    (n : BarrierNode) (id i : ℕ) (b : Barrier)
    → find_used id 0 n.barriers ≡ some i
    → barrier_at (put_barrier n i b) i ≡ b
barrier_there n id i b h =
    get_or-set_self n.barriers i b _ (omega (arith, find_used-lt id 0 i n.barriers h))

-- What the manager does with the last arrival.
last_arrives :
    (n : BarrierNode) (id participants i : ℕ)
    → find_used id 0 n.barriers ≡ some i
    → is_last (arrived (barrier_at n i)) ≡ true
    → handle_barrier_arrive n id participants ≡ record {
      status = success;
      sent =
          releases n.node_id id n.peers
          ++ sync_if n.role id (next_generation (arrived (barrier_at n i)));
      after = put_barrier n i (next_generation (arrived (barrier_at n i)));
    }
unfolding handle_barrier_arrive barrier_manager_arrive find_or_create_barrier arrive
last_arrives n id participants i found last =
    simp
      (handle_barrier_arrive, barrier_manager_arrive, find_or_create_barrier, arrive, found, last)

-- What a worker does with a release.
release_reaches :
    (n : BarrierNode) (id k : ℕ)
    → find_used id 0 n.barriers ≡ some k
    → (handle_barrier_release n id).after
      ≡ put_barrier n k (record (barrier_at n k) { generation = (barrier_at n k).generation + 1 })
unfolding handle_barrier_release barrier_handle_release
release_reaches n id k found = simp (handle_barrier_release, barrier_handle_release, found)

arrival_delivered :
    (c : Cluster) (id participants : ℕ)
    → let r = handle_barrier_arrive (c manager) id participants in
      arrive_and_release c id participants
      ≡ deliver_all (place_node c manager r.after) (r.sent ++ [])
unfolding arrive_and_release deliver_all deliver receiver dispatch_barrier
arrival_delivered c id participants = refl

-- The nodes after the last arrival and its releases: the manager is in the next round, and a worker
-- that the manager has one connection to has been released once.
opened :
    (c : Cluster) (w id participants i : ℕ)
    → (c manager).node_id ≡ manager
    → find_used id 0 (c manager).barriers ≡ some i
    → is_last (arrived (barrier_at (c manager) i)) ≡ true
    → w ≢ manager
    → links w (c manager).peers ≡ 1
    → let c' = (arrive_and_release c id participants).0 in
      (c' manager
        ≡ put_barrier (c manager) i (next_generation (arrived (barrier_at (c manager) i))))
      × (c' w ≡ (handle_barrier_release (c w) id).after)
unfolding release_times
opened c w id participants i home found last ne once =
    let m = c manager in
    let b = next_generation (arrived (barrier_at m i)) in
    let c1 = place_node c manager (put_barrier m i b) in
    let sent = releases m.node_id id m.peers ++ sync_if m.role id b in
    let out : arrive_and_release c id participants ≡ deliver_all c1 sent =
      arrival_delivered c id participants
      ∙ ap (λ (r : Reply). deliver_all (place_node c manager r.after) (r.sent ++ []))
          (last_arrives m id participants i found last)
      ∙ ap (deliver_all c1) (append-nil sent) in
    let each : (v : ℕ)
        → (arrive_and_release c id participants).0 v
          ≡ release_times (told v (releases m.node_id id m.peers)) id (c1 v) =
      λ v.
        ap (λ (d : Cluster × List Message). d.0 v) out
        ∙ releases_arrive m.node_id id v m.role b m.peers c1 in
    let none_told : told manager (releases m.node_id id m.peers) ≡ 0 =
      rw home (told_self manager id m.peers) in
    let one_told : told w (releases m.node_id id m.peers) ≡ 1 =
      told-releases m.node_id id w m.peers (λ e. ne (e ∙ home)) ∙ once in
    (
      each manager ∙ ap (λ k. release_times k id (c1 manager)) none_told,
      each w
          ∙ ap (λ k. release_times k id (c1 w)) one_told
          ∙ ap (λ n. (handle_barrier_release n id).after) (rw (==_ne w manager ne) refl),
    )

-- The last arrival opens the barrier: the manager starts the next round with no arrival in it, a
-- worker counts one generation more, and a thread there that has arrived in its present generation
-- leaves its wait with success. The manager is node 0, knows the barrier, lacks one arrival, and has
-- one connection to the worker, which knows the barrier too; the messages arrive.
pub barrier_opens :
    (c : Cluster) (w id participants i k : ℕ)
    → (c manager).node_id ≡ manager
    → find_used id 0 (c manager).barriers ≡ some i
    → is_last (arrived (barrier_at (c manager) i)) ≡ true
    → w ≢ manager
    → links w (c manager).peers ≡ 1
    → find_used id 0 (c w).barriers ≡ some k
    → let c' = (arrive_and_release c id participants).0 in
      (barrier_at (c' manager) i ≡ next_generation (arrived (barrier_at (c manager) i)))
      × ((barrier_at (c' w) k).generation ≡ (barrier_at (c w) k).generation + 1)
      × (await_release k (barrier_at (c w) k).generation (c' w) [] ≡ some (success, c' w))
unfolding await_release
barrier_opens c w id participants i k home found last ne once known =
    let b = barrier_at (c w) k in
    let next = record b { generation = b.generation + 1 } in
    let n = (arrive_and_release c id participants).0 w in
    let all = opened c w id participants i home found last ne once in
    let raised : (barrier_at n k).generation ≡ b.generation + 1 =
      ap (λ x. (barrier_at x k).generation) (all.1 ∙ release_reaches (c w) id k known)
      ∙ ap (λ x. x.generation) (barrier_there (c w) id k next known) in
    (
      ap (λ x. barrier_at x i) all.0 ∙ barrier_there (c manager) id i _ found,
      raised,
      ground (arith, raised),
    )
