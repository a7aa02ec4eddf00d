-- ===== src/Alloc/Acks.antt =====
-- src/network/handlers.c: the wait for the acknowledgements of an allocation.
use native.Mathlib.Nat.{add-zero, zero-add}
use user_level_dsm.Alloc.Notices.{
  count_ack, await_acks, AckWait, acked, expired, wait_for_alloc_acks, fresh_tracker, stopped,
}
use user_level_dsm.Alloc.{AckTracker, Ack, AllocNode}
use user_level_dsm.Prelude.{
  ℕ, List, Bool, ◌≡◌, ◌∷◌, true, arith, false, get_or, set, if◌then◌else◌, [], some, suc, ◌==◌,
  Bool-cases, ap, ◌&&◌, leb, ◌||◌, zero, inl, inr, ◌≤◌, IsDistinct, ◌<◌, ◌+◌, ◌⊎◌, leb→le, subst,
  length, contains, All, refl, ==_ne, eq-cases, get_or-replicate,
}
use user_level_dsm.Types.{Status, success, timeout_error, max_nodes}

-- An acknowledgement of the pages by a node comes in the list.
abbrev pub has_ack : (start end_page node : ℕ) → List AckWait → Bool
has_ack start end_page node [] = false
has_ack start end_page node (acked a ∷ ws) =
    ((a.start_page_id == start) && ((a.end_page_id == end_page) && (a.acker == node)))
    || has_ack start end_page node ws
has_ack start end_page node (expired ∷ ws) = has_ack start end_page node ws

-- The number of marks.
abbrev pub marked : List Bool → ℕ
marked [] = 0
marked (b ∷ bs) = if b then suc (marked bs) else marked bs

abbrev pub has_expiry : List AckWait → Bool
has_expiry [] = false
has_expiry (acked a ∷ ws) = has_expiry ws
has_expiry (expired ∷ ws) = true

marked-set :
    (bs : List Bool) (i : ℕ) → get_or bs i true ≡ false → marked (set bs i true) ≡ suc (marked bs)
marked-set [] i h = cc
marked-set (b ∷ bs) zero h = ground arith
marked-set (true ∷ bs) (suc i) h = ap suc (marked-set bs i h)
marked-set (false ∷ bs) (suc i) h = marked-set bs i h

-- The count is the number of the marks.
record IsCounted (t : AckTracker) : Type 0 where
  counts : t.received_acks ≡ marked t.acks_received

count_ack-IsCounted : (t : AckTracker) (a : Ack) → IsCounted t → IsCounted (count_ack t a)
unfolding count_ack
count_ack-IsCounted t a c = ground (arith, c.counts, marked-set t.acks_received a.acker)

-- A wait that is given a time-out, at the latest, ends.
pub await_returns :
    (t : AckTracker) (ws : List AckWait)
    → has_expiry ws ≡ true
    → (r : Status × AckTracker) × (await_acks t ws ≡ some r)
unfolding await_acks
await_returns t [] h = cc
await_returns t (acked a ∷ ws) h = elim (Bool-cases (leb t.expected_acks t.received_acks)) [
  | inl full ↦ ((success, t), rw full)
  | inr more ↦ rw more (await_returns (count_ack t a) ws h)
]
await_returns t (expired ∷ ws) h = elim (Bool-cases (leb t.expected_acks t.received_acks)) [
  | inl full ↦ ((success, t), rw full)
  | inr more ↦ ((timeout_error, t), rw more)
]

-- The codes of a wait.
await_codes :
    (t : AckTracker) (ws : List AckWait) (r : Status × AckTracker)
    → await_acks t ws ≡ some r
    → (r.0 ≡ success) ⊎ (r.0 ≡ timeout_error)
unfolding await_acks
await_codes t [] r h = ground arith
await_codes t (acked a ∷ ws) r h = ground (arith, await_codes (count_ack t a) ws r)
await_codes t (expired ∷ ws) r h = ground arith

-- A mark of a node that was set before, or is set by an acknowledgement of its own.
abbrev Explained : AckTracker → List AckWait → ℕ → Type 0
Explained t ws j =
    (get_or t.acks_received j false ≡ true) ⊎ (has_ack t.start_page_id t.end_page_id j ws ≡ true)

marked_later :
    (bs : List Bool) (i j : ℕ)
    → get_or (set bs i true) j false ≡ true
    → (get_or bs j false ≡ true) ⊎ (i ≡ j)
marked_later [] i j h = cc
marked_later (b ∷ bs) zero zero h = inr refl
marked_later (b ∷ bs) zero (suc j) h = inl h
marked_later (b ∷ bs) (suc i) zero h = inl h
marked_later (b ∷ bs) (suc i) (suc j) h = elim (marked_later bs i j h) [
  | inl old ↦ inl old
  | inr e ↦ inr (ap suc e)
]

count_ack_fixed :
    (t : AckTracker) (a : Ack)
    → ((count_ack t a).start_page_id ≡ t.start_page_id)
      × ((count_ack t a).end_page_id ≡ t.end_page_id)
      × ((count_ack t a).expected_acks ≡ t.expected_acks)
unfolding count_ack
count_ack_fixed t a = ground arith

count_ack-Explained :
    (t : AckTracker) (a : Ack) (ws : List AckWait) (j : ℕ)
    → Explained (count_ack t a) ws j
    → Explained t (acked a ∷ ws) j
unfolding count_ack
count_ack-Explained t a ws j (inl h) = ground (arith, h, marked_later t.acks_received a.acker j)
count_ack-Explained t a ws j (inr h) =
    let f = count_ack_fixed t a in inr (ground (arith, f.0, f.1, h))

-- What a successful wait has seen.
record IsAcked (t : AckTracker) (ws : List AckWait) (t' : AckTracker) : Type 0 where
  enough : t.expected_acks ≤ t'.received_acks
  counted : IsCounted t'
  explained : (j : ℕ) → get_or t'.acks_received j false ≡ true → Explained t ws j

await_done :
    (t : AckTracker) (ws : List AckWait)
    → IsCounted t
    → leb t.expected_acks t.received_acks ≡ true
    → IsAcked t ws t
await_done t ws c full = record { enough = leb→le _ _ full; counted = c; explained = λ j h. inl h }

await-IsAcked :
    (t : AckTracker) (ws : List AckWait) (t' : AckTracker)
    → IsCounted t
    → await_acks t ws ≡ some (success, t')
    → IsAcked t ws t'
unfolding await_acks
await-IsAcked t [] t' c h = elim (Bool-cases (leb t.expected_acks t.received_acks)) [
  | inl full ↦ subst (IsAcked t []) (cc (rw full at h)) (await_done t [] c full)
  | inr more ↦ absurd (cc (rw more at h))
]
await-IsAcked t (acked a ∷ ws) t' c h = elim (Bool-cases (leb t.expected_acks t.received_acks)) [
  | inl full ↦
      subst (IsAcked t (acked a ∷ ws)) (cc (rw full at h)) (await_done t (acked a ∷ ws) c full)
  | inr more ↦
      let r = await-IsAcked (count_ack t a) ws t' (count_ack-IsCounted t a c) (rw more at h) in
      record {
        enough = omega (arith, r.enough, (count_ack_fixed t a).2);
        counted = r.counted;
        explained = λ j m. count_ack-Explained t a ws j (r.explained j m);
      }
]
await-IsAcked t (expired ∷ ws) t' c h = elim (Bool-cases (leb t.expected_acks t.received_acks)) [
  | inl full ↦
      subst (IsAcked t (expired ∷ ws)) (cc (rw full at h)) (await_done t (expired ∷ ws) c full)
  | inr more ↦ absurd (cc (rw more at h))
]

-- The nodes with a mark, counted from `i`.
abbrev marks : ℕ → List Bool → List ℕ
marks i [] = []
marks i (true ∷ bs) = i ∷ marks (suc i) bs
marks i (false ∷ bs) = marks (suc i) bs

length-marks : (i : ℕ) (bs : List Bool) → length (marks i bs) ≡ marked bs
length-marks i [] = refl
length-marks i (true ∷ bs) = ap suc (length-marks (suc i) bs)
length-marks i (false ∷ bs) = length-marks (suc i) bs

marks_above : (i j : ℕ) (bs : List Bool) → j < i → contains (marks i bs) j ≡ false
marks_above i j [] h = refl
marks_above i j (true ∷ bs) h =
    rw (==_ne i j (omega arith)) (marks_above (suc i) j bs (omega arith))
marks_above i j (false ∷ bs) h = marks_above (suc i) j bs (omega arith)

marks-IsDistinct : (i : ℕ) (bs : List Bool) → IsDistinct (marks i bs)
marks-IsDistinct i [] = tt
marks-IsDistinct i (true ∷ bs) =
    (marks_above (suc i) i bs (omega arith), marks-IsDistinct (suc i) bs)
marks-IsDistinct i (false ∷ bs) = marks-IsDistinct (suc i) bs

marks-All :
    (P : ℕ → Type 0) (i : ℕ) (bs : List Bool)
    → ((j : ℕ) → get_or bs j false ≡ true → P (i + j))
    → All P (marks i bs)
marks-All P i [] h = tt
marks-All P i (true ∷ bs) h =
    (rw add-zero at (h 0 refl), marks-All P (suc i) bs (λ j m. rw (shift i j) (h (suc j) m)))
  where
    shift : (i j : ℕ) → suc i + j ≡ i + suc j
    shift i j = omega arith
marks-All P i (false ∷ bs) h = marks-All P (suc i) bs (λ j m. rw (shift i j) (h (suc j) m))
  where
    shift : (i j : ℕ) → suc i + j ≡ i + suc j
    shift i j = omega arith

-- Different nodes, as many as are waited for, have acknowledged the pages.
abbrev pub Acknowledged : (start end_page expected : ℕ) → List AckWait → Type 0
Acknowledged s e k ws =
    (nodes : List ℕ) × (k ≤ length nodes)
    × IsDistinct nodes
    × All (λ node. has_ack s e node ws ≡ true) nodes

fresh_acked :
    (s e k : ℕ) (ws : List AckWait) (t : AckTracker)
    → await_acks (fresh_tracker s e k) ws ≡ some (success, t)
    → Acknowledged s e k ws
fresh_acked s e k ws t h =
    let r = await-IsAcked (fresh_tracker s e k) ws t (record { counts = refl }) h in
    (
      marks 0 t.acks_received,
      omega (arith, r.enough, r.counted.counts, length-marks 0 t.acks_received),
      marks-IsDistinct 0 t.acks_received,
      marks-All (λ j. has_ack s e j ws ≡ true) 0 t.acks_received
          (λ j m. rw zero-add (elim (r.explained j m) [
            | inl old ↦ absurd (cc (rw (get_or-replicate max_nodes j false) at old))
            | inr seen ↦ seen
          ])),
    )

await_code :
    (s e k : ℕ) (ws : List AckWait) (code : Status) (t : AckTracker)
    → await_acks (fresh_tracker s e k) ws ≡ some (code, t)
    → ((code ≡ success) × Acknowledged s e k ws) ⊎ (code ≡ timeout_error)
await_code s e k ws code t h = elim (await_codes (fresh_tracker s e k) ws (code, t) h) [
  | inl good ↦ inl (good, fresh_acked s e k ws t (rw good at h))
  | inr bad ↦ inr bad
]

-- A wait to which a time-out comes, at the latest, ends, with success or with the code of a time-out.
-- If it succeeds, as many different nodes as it was to wait for have acknowledged its pages during
-- the wait.
pub wait_lem :
    (n : AllocNode) (s e k : ℕ) (ws : List AckWait)
    → has_expiry ws ≡ true
    → (r : Status × AllocNode) × (wait_for_alloc_acks n s e k ws ≡ some r)
      × (((r.0 ≡ success) × Acknowledged s e k ws) ⊎ (r.0 ≡ timeout_error))
unfolding wait_for_alloc_acks
wait_lem n s e k ws late = elim (eq-cases k 0) [
  | inl nobody ↦
      ((success, n), rw (nobody, wait_for_alloc_acks), inl (refl, ([], omega arith, tt, tt)))
  | inr some_peer ↦
      let ((code, t), done) = await_returns (fresh_tracker s e k) ws late in
      (
        (code, record n { tracker = stopped t }),
        rw (==_ne k 0 some_peer, wait_for_alloc_acks) (rw done),
        await_code s e k ws code t done,
      )
]
