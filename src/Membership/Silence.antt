-- ===== src/Membership/Silence.antt =====
-- src/network/handlers.c: which nodes are taken for failed.
use user_level_dsm.Membership.{MemberNode, Member, member_at, handle_heartbeat, no_member, heard}
use user_level_dsm.Membership.Heartbeat.{
  check_members, check_member, heartbeat_round, max_missed, is_watched, elapsed, heartbeat_timeout,
}
use user_level_dsm.Prelude.{
  ℕ, Bool, ◌<◌, ◌≤◌, length, ◌+◌, List, get_or, Option, if◌then◌else◌, ◌≡◌, arith, map, length-map,
  [], ◌==◌, false, ◌∷◌, suc, ap, zero, refl, ◌∙◌, leb, length-set, true, eq-cases, inl, ◌^◌,
  get_or-set_self, ==_refl, inr, get_or-set_ne, ==_ne,
}
use user_level_dsm.Directory.{Directory}
use user_level_dsm.Types.{max_nodes}

-- What a node meets: a heartbeat, or a round of its own thread.
pub data Beat : Type 0 where
  beat : (now sender : ℕ) → Beat
  round : (now : ℕ) → Beat

unfoldable pub live : MemberNode → List Beat → MemberNode
live n [] = n
live n (beat now sender ∷ bs) = live (handle_heartbeat now n sender).1 bs
live n (round now ∷ bs) = live (heartbeat_round now n).1 bs

-- Never three rounds without a heartbeat of the node, `k` having passed so far.
abbrev pub IsHeard : (sender k : ℕ) → List Beat → Type 0
IsHeard sender k [] = Unit
IsHeard sender k (beat now s ∷ bs) = IsHeard sender (if s == sender then 0 else k) bs
IsHeard sender k (round now ∷ bs) = (k + 1 < max_missed) × IsHeard sender (k + 1) bs

check_members-map :
    (backup : Bool) (now self : ℕ) (all left : List Member) (dir : Option Directory)
    → (check_members backup now self all left dir).1 ≡ map (check_member now self) left
unfolding check_members
check_members-map backup now self all [] dir = refl
check_members-map backup now self all (m ∷ ms) dir =
    ap (λ (xs : List Member). check_member now self m ∷ xs)
      (check_members-map backup now self all ms _)

get_or-map :
    (f : Member → Member) (ms : List Member) (i : ℕ)
    → i < length ms
    → get_or (map f ms) i no_member ≡ f (get_or ms i no_member)
get_or-map f [] i h = absurd (omega arith)
get_or-map f (m ∷ ms) zero h = refl
get_or-map f (m ∷ ms) (suc i) h = get_or-map f ms i (omega arith)

round_slot :
    (now : ℕ) (n : MemberNode) (i : ℕ)
    → i < length n.members
    → member_at (heartbeat_round now n).1 i ≡ check_member now n.node_id (member_at n i)
unfolding heartbeat_round
round_slot now n i h =
    rw (check_members-map n.is_primary_backup now n.node_id n.members n.members n.directory)
      (get_or-map (check_member now n.node_id) n.members i h)

round_size :
    (now : ℕ) (n : MemberNode) → length (heartbeat_round now n).1.members ≡ length n.members
unfolding heartbeat_round
round_size now n =
    rw (check_members-map n.is_primary_backup now n.node_id n.members n.members n.directory)
      (length-map n.members (check_member now n.node_id))

-- A slot with few rounds missed.
record IsFine (k : ℕ) (m : Member) : Type 0 where
  missed : m.missed_heartbeats ≤ k
  works : m.is_failed ≡ false

check-IsFine :
    (now self k : ℕ) (m : Member)
    → k + 1 < max_missed
    → IsFine k m
    → IsFine (k + 1) (check_member now self m)
unfolding check_member
check-IsFine now self k m h f = ground (arith, f.missed, f.works)

heard_slot :
    (now : ℕ) (n : MemberNode) (sender i : ℕ)
    → i < length n.members
    → i < max_nodes
    → (member_at n i).connected ≡ true
    → member_at (handle_heartbeat now n sender).1 i
      ≡ (if sender == i then heard now (member_at n i) else member_at n i)
unfolding handle_heartbeat
heard_slot now n sender i h lt c = elim (eq-cases sender i) [
  | inl e ↦
      let self = get_or-set_self n.members i (heard now (member_at n i)) no_member h in
      rw e (ground (arith, self, c, lt, ==_refl i))
  | inr ne ↦
      let other = get_or-set_ne n.members sender i (heard now (member_at n sender)) no_member ne in
      ground (arith, other, ==_ne sender i ne)
]

heartbeat_size :
    (now : ℕ) (n : MemberNode) (sender : ℕ)
    → length (handle_heartbeat now n sender).1.members ≡ length n.members
unfolding handle_heartbeat
heartbeat_size now n sender =
    ground (arith, length-set n.members sender (heard now (member_at n sender)))

check_connected : (now self : ℕ) (m : Member) → (check_member now self m).connected ≡ m.connected
unfolding check_member
check_connected now self m = ground arith

-- The slot of a node that is connected.
record IsSlot (n : MemberNode) (i : ℕ) : Type 0 where
  within : i < length n.members
  below : i < max_nodes
  linked : (member_at n i).connected ≡ true

round-IsSlot : (now : ℕ) (n : MemberNode) (i : ℕ) → IsSlot n i → IsSlot (heartbeat_round now n).1 i
round-IsSlot now n i s = record {
  within = omega (arith, s.within, round_size now n);
  below = s.below;
  linked =
      rw (round_slot now n i s.within) (check_connected now n.node_id (member_at n i) ∙ s.linked);
}

heard-IsSlot :
    (now : ℕ) (n : MemberNode) (sender i : ℕ)
    → IsSlot n i
    → IsSlot (handle_heartbeat now n sender).1 i
heard-IsSlot now n sender i s = record {
  within = omega (arith, s.within, heartbeat_size now n sender);
  below = s.below;
  linked = rw (heard_slot now n sender i s.within s.below s.linked) (ground (arith, s.linked));
}

heard-IsFine :
    (now : ℕ) (n : MemberNode) (sender i k : ℕ)
    → IsSlot n i
    → IsFine k (member_at n i)
    → IsFine (if sender == i then 0 else k) (member_at (handle_heartbeat now n sender).1 i)
heard-IsFine now n sender i k s f =
    rw (heard_slot now n sender i s.within s.below s.linked) (ground (arith, f.missed, f.works))

live-IsFine :
    (n : MemberNode) (i k : ℕ) (bs : List Beat)
    → IsSlot n i
    → IsFine k (member_at n i)
    → IsHeard i k bs
    → (member_at (live n bs) i).is_failed ≡ false
unfolding live
live-IsFine n i k [] s f h = f.works
live-IsFine n i k (beat now sender ∷ bs) s f h =
    live-IsFine (handle_heartbeat now n sender).1 i (if sender == i then 0 else k) bs
      (heard-IsSlot now n sender i s) (heard-IsFine now n sender i k s f) h
live-IsFine n i k (round now ∷ bs) s f h =
    live-IsFine (heartbeat_round now n).1 i (k + 1) bs (round-IsSlot now n i s)
      (rw (round_slot now n i s.within) (check-IsFine now n.node_id k (member_at n i) h.0 f)) h.1

-- A connected node that has missed no heartbeat and is not taken for failed is not taken for failed
-- after any heartbeats and rounds, in any order and at any times, if it is heard from between each
-- three rounds: no three rounds pass without a heartbeat of it.
pub heard_not_failed :
    (n : MemberNode) (i : ℕ) (bs : List Beat)
    → i < length n.members
    → i < max_nodes
    → (member_at n i).connected ≡ true
    → (member_at n i).missed_heartbeats ≡ 0
    → (member_at n i).is_failed ≡ false
    → IsHeard i 0 bs
    → (member_at (live n bs) i).is_failed ≡ false
heard_not_failed n i bs h lt c m w =
    live-IsFine n i 0 bs (record { within = h; below = lt; linked = c })
      (record { missed = omega arith; works = w })

-- A slot that is watched and whose last heartbeat is too old for a time of the clock.
abbrev pub IsSilent : (now self : ℕ) → Member → Type 0
IsSilent now self m =
    (is_watched self m ≡ true)
    × (0 < m.last_heartbeat_time)
    × (m.last_heartbeat_time + heartbeat_timeout < now)
    × (now < 2 ^ 64)

late_counted :
    (now self : ℕ) (m : Member)
    → IsSilent now self m
    → check_member now self m ≡ record m {
      missed_heartbeats = m.missed_heartbeats + 1;
      is_failed = leb max_missed (m.missed_heartbeats + 1);
    }
unfolding check_member
late_counted now self m h =
    let late : leb (elapsed now m.last_heartbeat_time) heartbeat_timeout ≡ false =
      not_le _ _ (omega (arith, h)) in
    ground (arith, h.0, h.1, late)
  where
    not_le : (a b : ℕ) → b < a → leb a b ≡ false
    not_le a b lt = ground arith

-- A slot after a late check that is not the last one is checked in the same way.
later-IsSilent :
    (t u self : ℕ) (m : Member)
    → IsSilent t self m
    → t ≤ u
    → u < 2 ^ 64
    → m.missed_heartbeats + 1 < max_missed
    → IsSilent u self (check_member t self m)
later-IsSilent t u self m h le lt few =
    rw (late_counted t self m h) (ground (arith, h.0), omega (arith, h), omega (arith, h), lt)

-- A node that is watched, has missed no heartbeat and whose last one is more than six seconds old is
-- still taken for working after that round and the next one, and for failed after the third, if it
-- is not heard from and the clock does not go back.
pub silent_failed :
    (n : MemberNode) (i t u v : ℕ)
    → i < length n.members
    → IsSilent t n.node_id (member_at n i)
    → (member_at n i).missed_heartbeats ≡ 0
    → t ≤ u
    → u ≤ v
    → v < 2 ^ 64
    → ((member_at (live n (round t ∷ round u ∷ [])) i).is_failed ≡ false)
      × ((member_at (live n (round t ∷ round u ∷ round v ∷ [])) i).is_failed ≡ true)
unfolding live heartbeat_round
silent_failed n i t u v h s none_missed tu uv small =
    let self = n.node_id in
    let m = member_at n i in
    let n1 = (heartbeat_round t n).1 in
    let n2 = (heartbeat_round u n1).1 in
    let size1 : i < length n1.members = omega (arith, round_size t n) in
    let size2 : i < length n2.members = omega (arith, round_size u n1) in
    let m1 = check_member t self m in
    let m2 = check_member u self m1 in
    let e1 : member_at n1 i ≡ m1 = round_slot t n i h in
    let e2 : member_at n2 i ≡ m2 = round_slot u n1 i size1 ∙ ap (check_member u self) e1 in
    let e3 : member_at (heartbeat_round v n2).1 i ≡ check_member v self m2 =
      round_slot v n2 i size2 ∙ ap (check_member v self) e2 in
    let c1 = late_counted t self m s in
    let s1 = later-IsSilent t u self m s tu (omega arith) (omega arith) in
    let c2 = late_counted u self m1 s1 in
    let s2 = later-IsSilent u v self m1 s1 uv small (rw c1 (omega arith)) in
    let c3 = late_counted v self m2 s2 in
    (
      rw e2 (rw c2 (rw c1 (ground (arith, none_missed)))),
      rw e3 (rw c3 (rw c2 (rw c1 (ground (arith, none_missed))))),
    )
