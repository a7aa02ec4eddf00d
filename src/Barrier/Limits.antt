-- ===== src/Barrier/Limits.antt =====
-- src/sync/barrier.c: the table of barriers. A barrier stays in its slot for ever, so a program that
-- takes a new identifier for each barrier uses the table up.
use user_level_dsm.Barrier.{
  Barrier, BarrierNode, Message, find_used, find_unused, find_or_create_barrier, new_barrier,
  put_barrier, barrier_at, arrive, barrier_manager_arrive, dsm_barrier, Wake,
}
use user_level_dsm.Prelude.{
  List, ℕ, ◌∷◌, ◌≢◌, ◌≡◌, ◌<◌, none, some, if◌then◌else◌, [], ◌≤◌, arith, ◌==◌, set, ◌+◌, ◌-◌,
  eq-cases, suc, length, refl, inl, zero, inr, ==_ne, ap, get_or-set_self, ◌∙◌, sym, All, subst,
  true, false,
}
use user_level_dsm.Types.{Status, memory_error}

-- The slots that are not in use.
abbrev pub free_slots : List Barrier → ℕ
free_slots [] = 0
free_slots (b ∷ bs) = (if b.expected_count == 0 then 1 else 0) + free_slots bs

-- The manager after one arrival at each of some barriers.
unfoldable pub arrive_all : BarrierNode → (participants : ℕ) → List ℕ → BarrierNode
arrive_all n participants [] = n
arrive_all n participants (id ∷ ids) =
    arrive_all (barrier_manager_arrive n id participants).after participants ids

unused_none : (k : ℕ) (bs : List Barrier) → free_slots bs ≡ 0 → find_unused k bs ≡ none
unfolding find_unused
unused_none k [] h = refl
unused_none k (b ∷ bs) h = ground (arith, h, unused_none (k + 1) bs)

unused_le : (k i : ℕ) (bs : List Barrier) → find_unused k bs ≡ some i → k ≤ i
unfolding find_unused
unused_le k i [] h = cc
unused_le k i (b ∷ bs) h = ground (arith, unused_le (k + 1) i bs)

-- A slot that is found and filled is one less; it lies inside the table.
unused_taken :
    (k i : ℕ) (bs : List Barrier) (b : Barrier)
    → find_unused k bs ≡ some i
    → 0 < b.expected_count
    → (free_slots (set bs (i - k) b) + 1 ≡ free_slots bs) × (i - k < length bs)
unfolding find_unused
unused_taken k i [] b h lt = cc
unused_taken k i (x ∷ bs) b h lt = elim (eq-cases x.expected_count 0) [
  | inl e ↦
      let at_head : i - k ≡ 0 = ground (arith, h, e) in
      rw at_head (ground (arith, e, lt), omega arith)
  | inr ne ↦
      let later : find_unused (k + 1) bs ≡ some i = rw (==_ne x.expected_count 0 ne) at h in
      let deeper : i - k ≡ suc (i - (k + 1)) = omega (arith, unused_le (k + 1) i bs later) in
      let ih = unused_taken (k + 1) i bs b later lt in
      rw deeper (ground (arith, ne, ih), omega (arith, ih))
]

-- Another identifier is still not found.
used_set :
    (id k m : ℕ) (bs : List Barrier) (b : Barrier)
    → b.id ≢ id
    → find_used id k bs ≡ none
    → find_used id k (set bs m b) ≡ none
unfolding find_used
used_set id k m [] b ne h = refl
used_set id k zero (x ∷ bs) b ne h = ground (arith, ne, h)
used_set id k (suc m) (x ∷ bs) b ne h = ground (arith, h, used_set id (k + 1) m bs b ne)

unused-cases :
    (k : ℕ) (bs : List Barrier) → 0 < free_slots bs → (i : ℕ) × (find_unused k bs ≡ some i)
unfolding find_unused
unused-cases k [] h = absurd (omega arith)
unused-cases k (b ∷ bs) h = elim (eq-cases b.expected_count 0) [
  | inl e ↦ (k, rw e refl)
  | inr ne ↦
      let (i, found) = unused-cases (k + 1) bs (ground (arith, ne, h)) in
      (i, rw (==_ne b.expected_count 0 ne) found)
]

set_twice {ℓ} : {A : Type ℓ} (xs : List A) (i : ℕ) (a b : A) → set (set xs i a) i b ≡ set xs i b
set_twice [] i a b = refl
set_twice (x ∷ xs) zero a b = refl
set_twice (x ∷ xs) (suc i) a b = ap (λ ys. x ∷ ys) (set_twice xs i a b)

-- An arrival at a barrier that is not in the table yet.
arrive_new :
    (n : BarrierNode) (id participants i : ℕ)
    → find_used id 0 n.barriers ≡ none
    → find_unused 0 n.barriers ≡ some i
    → i < length n.barriers
    → (barrier_manager_arrive n id participants).after
      ≡ put_barrier n i (arrive (new_barrier id participants))
unfolding barrier_manager_arrive find_or_create_barrier
arrive_new n id participants i h h' lt =
    let b = new_barrier id participants in
    let m = put_barrier n i b in
    let there : barrier_at m i ≡ b = get_or-set_self n.barriers i b (new_barrier 0 0) lt in
    rw (barrier_manager_arrive, find_or_create_barrier, h, h')
      (ap (λ (bs : List Barrier). record n { barriers = bs })
          (set_twice n.barriers i b (arrive (barrier_at m i)))
        ∙ ap (λ (x : Barrier). put_barrier n i (arrive x)) there)

arrive_keeps :
    (b : Barrier) → ((arrive b).expected_count ≡ b.expected_count) × ((arrive b).id ≡ b.id)
unfolding arrive
arrive_keeps b = ground arith

-- A new barrier takes a slot, and no other one is found for it.
takes_slot :
    (n : BarrierNode) (id participants : ℕ)
    → 0 < participants
    → find_used id 0 n.barriers ≡ none
    → 0 < free_slots n.barriers
    → let m = (barrier_manager_arrive n id participants).after in
      (free_slots m.barriers + 1 ≡ free_slots n.barriers)
      × (m.initialized ≡ n.initialized)
      × ((j : ℕ) → id ≢ j → find_used j 0 n.barriers ≡ none → find_used j 0 m.barriers ≡ none)
takes_slot n id participants lt h room =
    let (i, found) = unused-cases 0 n.barriers room in
    let b = arrive (new_barrier id participants) in
    let (count, same) = arrive_keeps (new_barrier id participants) in
    let no_offset : i - 0 ≡ i = omega arith in
    let (taken, inside) =
      subst
        (λ k.
          (free_slots (set n.barriers k b) + 1 ≡ free_slots n.barriers) × (k < length n.barriers))
        no_offset (unused_taken 0 i n.barriers b found (omega (arith, count))) in
    rw (arrive_new n id participants i h found inside) (
      taken,
      refl,
      λ j ne none_there. used_set j 0 i n.barriers b (λ e. ne (sym same ∙ e)) none_there,
    )

-- Identifiers of which no two are the same.
abbrev pub Distinct : List ℕ → Type 0
Distinct [] = Unit
Distinct (x ∷ xs) = All (λ y. x ≢ y) xs × Distinct xs

-- A barrier that the table does not have.
abbrev pub IsNew : BarrierNode → ℕ → Type 0
IsNew n id = find_used id 0 n.barriers ≡ none

IsNew-after :
    (n : BarrierNode) (id participants : ℕ) (js : List ℕ)
    → ((j : ℕ) → id ≢ j → IsNew n j → IsNew (barrier_manager_arrive n id participants).after j)
    → All (λ j. id ≢ j) js
    → All (IsNew n) js
    → All (IsNew (barrier_manager_arrive n id participants).after) js
IsNew-after n id participants [] h ne new = tt
IsNew-after n id participants (j ∷ js) h ne new =
    (h j ne.0 new.0, IsNew-after n id participants js h ne.1 new.1)

-- After as many new barriers as there were free slots the table is full.
table_full :
    (n : BarrierNode) (participants last : ℕ) (ids : List ℕ)
    → 0 < participants
    → Distinct ids
    → All (IsNew n) ids
    → length ids ≡ free_slots n.barriers
    → All (λ j. j ≢ last) ids
    → IsNew n last
    → let m = arrive_all n participants ids in
      (free_slots m.barriers ≡ 0) × (m.initialized ≡ n.initialized) × IsNew m last
unfolding arrive_all
table_full n participants last [] lt d new size ne h = (omega arith, refl, h)
table_full n participants last (id ∷ ids) lt d new size ne h =
    let (taken, same, keeps) = takes_slot n id participants lt new.0 (omega arith) in
    let m = (barrier_manager_arrive n id participants).after in
    let (full, kept, none_there) =
      table_full m participants last ids lt d.1 (IsNew-after n id participants ids keeps d.0 new.1)
        (omega arith) ne.1 (keeps last ne.0 h) in
    (full, kept ∙ same, none_there)

no_slot :
    (net : Message → Status) (n : BarrierNode) (id participants : ℕ) (wakes : List Wake)
    → n.initialized ≡ true
    → 0 < participants
    → IsNew n id
    → free_slots n.barriers ≡ 0
    → dsm_barrier net n id participants wakes
      ≡ some (record { status = memory_error; sent = []; after = n })
unfolding dsm_barrier find_or_create_barrier
no_slot net n id participants wakes up lt h full =
    let positive : (participants == 0) ≡ false = ==_ne participants 0 (λ e. omega arith) in
    simp (dsm_barrier, find_or_create_barrier, up, positive, h, unused_none 0 n.barriers full)

-- A program that takes a new identifier for each barrier is stopped by none in the end: once there
-- have been arrivals at as many different new barriers as the manager has free slots, a call of
-- `dsm_barrier` on a further one returns an error at once, sends nothing and waits for nobody.
pub barriers_run_out :
    (net : Message → Status) (n : BarrierNode) (participants last : ℕ) (ids : List ℕ)
    (wakes : List Wake)
    → n.initialized ≡ true
    → 0 < participants
    → Distinct ids
    → All (IsNew n) ids
    → length ids ≡ free_slots n.barriers
    → All (λ j. j ≢ last) ids
    → IsNew n last
    → let m = arrive_all n participants ids in
      dsm_barrier net m last participants wakes
      ≡ some (record { status = memory_error; sent = []; after = m })
barriers_run_out net n participants last ids wakes up lt d new size ne h =
    let (full, same, none_there) = table_full n participants last ids lt d new size ne h in
    no_slot net (arrive_all n participants ids) last participants wakes (same ∙ up) lt none_there
      full
