-- ===== src/Directory/Refine.antt =====
-- src/consistency/directory.c: the specification of the directory, a map from pages to entries with
-- no buckets, chains or counters, and the hash table beside it.
use mathlib.Core.Option
use mathlib.Core.Path.{fun_ext}
use user_level_dsm.Prelude.{
  ℕ, List, Bool, Option, ◌∷◌, [], if◌then◌else◌, contains, ◌==◌, ◌||◌, some, not, ◌≡◌, none, ltb,
  length, arith, IsDistinct, refl, Option-cases, inl, inr, ap, ◌<◌, ◌∙◌,
}
use user_level_dsm.Directory.History.{
  Call, lookup, add_reader, set_writer, clear_sharers, remove_sharer, set_owner, remove_entry,
  handle_node_failure, reclaim_ownership, perform, run, perform-IsValid, directory_create-IsValid,
}
use user_level_dsm.Directory.{
  Entry, Directory, with_owner, find_or_create_entry, fresh_entry, other_sharers, without_sharers,
  find_entry, modify_entry, max_sharers, with_reader, reclaimed, remove_first, add_reader_at,
  fail_entry, without_sharer, directory_lookup, directory_add_reader, directory_create,
  directory_set_writer, directory_clear_sharers, directory_remove_sharer, directory_set_owner,
  directory_remove_entry, directory_reclaim_ownership,
}
use user_level_dsm.Directory.Chain.{KeepsPage}
use user_level_dsm.Directory.Valid.{
  IsValid, IsValid-IsSized, create-IsValid, IsEntry, entry_of-found, find_entry-IsEntry,
  chain_of-IsChain,
}
use user_level_dsm.Types.{no_node, Role}
use user_level_dsm.Directory.Table.{
  find_entry-modify_entry, find_entry-create, create-cases, find_entry-directory_create,
  find_entry-unlink_entry, find_entry-map,
}
use user_level_dsm.Directory.Sharers.{other_sharers_absent}

abbrev pub Map : Type 0
Map = ℕ → Option Entry

-- A change of the entry of `p`, which is made if it is missing and there is memory.
abbrev pub at_created : Bool → ℕ → (Entry → Entry) → Map → Map
at_created alloc p f m q =
    if p == q
    then elim (m q) [
      | some e ↦ some (f e)
      | none ↦ if alloc then some (f (fresh_entry p)) else none
    ]
    else m q

abbrev pub at_found : ℕ → (Entry → Entry) → Map → Map
at_found p f m q = if p == q then Option.map f (m q) else m q

-- A node joins the readers once, and while there is room.
abbrev pub joined : ℕ → Entry → Entry
joined n e =
    if contains e.sharers n || not (ltb (length e.sharers) max_sharers) then e else with_reader n e

-- A failed node owns nothing and reads nothing.
abbrev pub forgotten : ℕ → Entry → Entry
forgotten n e = record e {
  owner = if e.owner == n then no_node else e.owner;
  sharers = other_sharers n e.sharers;
}

unfoldable pub spec_step : Map → Call → Map
spec_step m (lookup alloc p) = at_created alloc p (λ e. e) m
spec_step m (add_reader alloc p n) = at_created alloc p (joined n) m
spec_step m (set_writer alloc p n) = at_created alloc p (with_owner n) m
spec_step m (clear_sharers p) = at_found p without_sharers m
spec_step m (remove_sharer p n) =
    at_found p (λ e. record e { sharers = other_sharers n e.sharers }) m
spec_step m (set_owner up alloc p n) = at_created alloc p (with_owner n) m
spec_step m (remove_entry p) = λ q. if p == q then none else m q
spec_step m (handle_node_failure n) = λ q. Option.map (forgotten n) (m q)
spec_step m (reclaim_ownership alloc p n) = at_created alloc p (reclaimed n) m

unfoldable pub spec_run : Map → List Call → Map
spec_run m [] = m
spec_run m (c ∷ cs) = spec_run (spec_step m c) cs

-- A write through the pointer of `find_or_create_entry`.
created_refines :
    (alloc : Bool) (d d' : Directory) (p q : ℕ) (f : Entry → Entry)
    → KeepsPage f
    → IsValid d
    → find_or_create_entry alloc d p ≡ some d'
    → find_entry (modify_entry d' p f) q ≡ at_created alloc p f (find_entry d) q
created_refines alloc d d' p q f k v h = ground (
  arith,
  find_entry-modify_entry d' p q f (IsValid-IsSized d' (create-IsValid alloc d d' p v h)) k,
  find_entry-create alloc d d' p q (IsValid-IsSized d v) h,
  create-cases alloc d d' p h,
)

lookup_refines :
    (alloc : Bool) (d d' : Directory) (p q : ℕ)
    → IsValid d
    → find_or_create_entry alloc d p ≡ some d'
    → find_entry d' q ≡ at_created alloc p (λ e. e) (find_entry d) q
lookup_refines alloc d d' p q v h =
    ground
      (arith, find_entry-create alloc d d' p q (IsValid-IsSized d v) h, create-cases alloc d d' p h)

-- A failed `malloc` leaves the directory, and happens at a missing entry only.
failed_refines :
    (alloc : Bool) (d : Directory) (p q : ℕ) (f : Entry → Entry)
    → find_or_create_entry alloc d p ≡ none
    → find_entry d q ≡ at_created alloc p f (find_entry d) q
unfolding find_or_create_entry
failed_refines alloc d p q f h = ground arith

found_refines :
    (d : Directory) (p q : ℕ) (f : Entry → Entry) (e : Entry)
    → KeepsPage f
    → IsValid d
    → find_entry d p ≡ some e
    → find_entry (modify_entry d p f) q ≡ at_found p f (find_entry d) q
found_refines d p q f e k v h = find_entry-modify_entry d p q f (IsValid-IsSized d v) k

missing_refines :
    (d : Directory) (p q : ℕ) (f : Entry → Entry)
    → find_entry d p ≡ none
    → find_entry d q ≡ at_found p f (find_entry d) q
missing_refines d p q f h = ground (arith, h)

remove_first-other_sharers :
    (n : ℕ) (xs : List ℕ) → IsDistinct xs → remove_first n xs ≡ other_sharers n xs
unfolding remove_first other_sharers
remove_first-other_sharers n [] d = refl
remove_first-other_sharers n (x ∷ xs) d =
    ground (arith, d, remove_first-other_sharers n xs d.1, other_sharers_absent n xs)

-- Two changes that agree on the well-formed entries agree on the directory.
map_agrees :
    (d : Directory) (q : ℕ) (f g : Entry → Entry)
    → ((e : Entry) → IsEntry e → f e ≡ g e)
    → IsValid d
    → Option.map f (find_entry d q) ≡ Option.map g (find_entry d q)
map_agrees d q f g same v = elim (Option-cases (find_entry d q)) [
  | inl e ↦ rw e
  | inr (x, e) ↦ rw e (ap some (same x (find_entry-IsEntry d q x v e)))
]

without_sharer_agrees :
    (n : ℕ) (e : Entry)
    → IsEntry e
    → without_sharer n e ≡ record e { sharers = other_sharers n e.sharers }
without_sharer_agrees n e h = rw (remove_first-other_sharers n e.sharers h.once)

fail_entry_agrees : (n : ℕ) (e : Entry) → IsEntry e → fail_entry n e ≡ forgotten n e
unfolding fail_entry
fail_entry_agrees n e h = rw (remove_first-other_sharers n e.sharers h.once)

add_reader_refines :
    (r : Role) (alloc : Bool) (d d' : Directory) (p n q : ℕ)
    → IsValid d
    → find_or_create_entry alloc d p ≡ some d'
    → find_entry (add_reader_at r d' p n).after q ≡ at_created alloc p (joined n) (find_entry d) q
unfolding add_reader_at
add_reader_refines r alloc d d' p n q v h = ground (
  arith,
  find_entry-modify_entry d' p q (with_reader n)
      (IsValid-IsSized d' (create-IsValid alloc d d' p v h)) (λ e. refl),
  find_entry-create alloc d d' p q (IsValid-IsSized d v) h,
  entry_of-found alloc d d' p (IsValid-IsSized d v) h,
  create-cases alloc d d' p h,
)

fail_entry_page : (n : ℕ) → KeepsPage (fail_entry n)
unfolding fail_entry
fail_entry_page n e = refl

-- One call of the hash table changes the map as the specification says.
pub perform_refines :
    (r : Role) (d : Directory) (c : Call) (q : ℕ)
    → IsValid d
    → find_entry (perform r d c) q ≡ spec_step (find_entry d) c q
unfolding perform spec_step
perform_refines r d (lookup alloc p) q v = elim (Option-cases (find_or_create_entry alloc d p)) [
  | inl e ↦ rw (e, perform, directory_lookup) (failed_refines alloc d p q (λ x. x) e)
  | inr (d', e) ↦ rw (e, perform, directory_lookup) (lookup_refines alloc d d' p q v e)
]
perform_refines r d (add_reader alloc p n) q v =
    elim (Option-cases (find_or_create_entry alloc d p)) [
      | inl e ↦ rw (e, perform, directory_add_reader) (failed_refines alloc d p q (joined n) e)
      | inr (d', e) ↦
          rw (e, perform, directory_add_reader) (add_reader_refines r alloc d d' p n q v e)
    ]
perform_refines r d (set_writer alloc p n) q v =
    elim (Option-cases (find_or_create_entry alloc d p)) [
      | inl e ↦ rw (e, perform, directory_set_writer) (failed_refines alloc d p q (with_owner n) e)
      | inr (d', e) ↦
          rw (e, perform, directory_set_writer)
            (created_refines alloc d d' p q (with_owner n) (λ x. refl) v e)
    ]
perform_refines r d (clear_sharers p) q v = elim (Option-cases (find_entry d p)) [
  | inl e ↦ rw (e, perform, directory_clear_sharers) (missing_refines d p q without_sharers e)
  | inr (x, e) ↦
      rw (e, perform, directory_clear_sharers)
        (found_refines d p q without_sharers x (λ y. refl) v e)
]
perform_refines r d (remove_sharer p n) q v = elim (Option-cases (find_entry d p)) [
  | inl e ↦ rw (e, perform, directory_remove_sharer) (missing_refines d p q _ e)
  | inr (x, e) ↦
      rw (e, perform, directory_remove_sharer)
        (found_refines d p q (without_sharer n) x (λ y. refl) v e
          ∙ rw (map_agrees d q (without_sharer n) _ (without_sharer_agrees n) v))
]
perform_refines r d (set_owner up alloc p n) q v =
    elim (Option-cases (find_or_create_entry alloc d p)) [
      | inl e ↦ rw (e, perform, directory_set_owner) (failed_refines alloc d p q (with_owner n) e)
      | inr (d', e) ↦
          rw (e, perform, directory_set_owner)
            (created_refines alloc d d' p q (with_owner n) (λ x. refl) v e)
    ]
perform_refines r d (remove_entry p) q v = elim (Option-cases (find_entry d p)) [
  | inl e ↦ rw (e, perform, directory_remove_entry) (ground (arith, e))
  | inr (x, e) ↦
      rw (e, perform, directory_remove_entry)
        (find_entry-unlink_entry d p q (IsValid-IsSized d v) (chain_of-IsChain d p v).once)
]
perform_refines r d (handle_node_failure n) q v =
    find_entry-map d q (fail_entry n) (fail_entry_page n)
    ∙ map_agrees d q (fail_entry n) (forgotten n) (fail_entry_agrees n) v
perform_refines r d (reclaim_ownership alloc p n) q v =
    elim (Option-cases (find_or_create_entry alloc d p)) [
      | inl e ↦
          rw (e, perform, directory_reclaim_ownership) (failed_refines alloc d p q (reclaimed n) e)
      | inr (d', e) ↦
          rw (e, perform, directory_reclaim_ownership)
            (created_refines alloc d d' p q (reclaimed n) (λ x. refl) v e)
    ]

run_refines_from :
    (r : Role) (d : Directory) (cs : List Call) (q : ℕ)
    → IsValid d
    → find_entry (run r d cs) q ≡ spec_run (find_entry d) cs q
unfolding run spec_run
run_refines_from r d [] q v = refl
run_refines_from r d (c ∷ cs) q v =
    run_refines_from r (perform r d c) cs q (perform-IsValid r d c v)
    ∙ ap (λ m. spec_run m cs q) (fun_ext (λ p. perform_refines r d c p v))

-- After any calls on a new directory with at least one bucket, the search for a page returns the
-- entry that the map of the specification holds after the same calls, for any number of buckets
-- and whatever the node replicates.
pub run_refines :
    (r : Role) (size : ℕ) (cs : List Call) (q : ℕ)
    → 0 < size
    → find_entry (run r (directory_create size) cs) q ≡ spec_run (λ _. none) cs q
run_refines r size cs q h =
    run_refines_from r _ cs q (directory_create-IsValid size h)
    ∙ ap (λ m. spec_run m cs q) (fun_ext (λ p. find_entry-directory_create size p))
