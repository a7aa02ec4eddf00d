-- ===== src/Directory/Access.antt =====
-- src/consistency/directory.c: what the calls that grant access, replicate and clean up leave behind.
use mathlib.Core.Option
use user_level_dsm.Types.{Role, success, no_node}
use user_level_dsm.Prelude.{
  ℕ, Bool, [], ◌≡◌, if◌then◌else◌, ◌==◌, some, contains, ◌&&◌, not, Option-cases, inl, inr, arith,
  ap, ◌≢◌, Option, refl, false, sym, ◌∙◌, none,
}
use user_level_dsm.Directory.{
  Entry, Directory, directory_set_writer, find_entry, directory_clear_sharers, entry_of,
  find_or_create_entry, invalidations, DirSync, add_reader_at, with_reader, modify_entry,
  directory_handle_node_failure, directory_add_reader, directory_remove_sharer, directory_set_owner,
  directory_remove_entry, directory_reclaim_ownership, with_owner, without_sharers,
}
use user_level_dsm.Directory.Valid.{IsValid, entry_of-found, IsValid-IsSized, create-IsValid}
use user_level_dsm.Directory.Invalidate.{holds_copy, contains-invalidations}
use user_level_dsm.Directory.History.{
  perform, set_writer, clear_sharers, perform-IsValid, Call, add_reader, remove_sharer,
  handle_node_failure, set_owner, remove_entry, reclaim_ownership, lookup,
}
use user_level_dsm.Directory.Refine.{spec_step, perform_refines, forgotten}
use user_level_dsm.Directory.Table.{create-cases, find_entry-modify_entry}
use user_level_dsm.Directory.Chain.{KeepsPage}
use user_level_dsm.Directory.Sharers.{contains-other_sharers}

-- The entry of a page with a single writer and no readers.
abbrev pub exclusive : ℕ → Entry → Entry
exclusive w e = record e { owner = w; sharers = [] }

set_writer_granted :
    (r : Role) (alloc : Bool) (d : Directory) (p w : ℕ)
    → (directory_set_writer r alloc d p w).0.status ≡ success
    → (d' : Directory) × (find_or_create_entry alloc d p ≡ some d')
unfolding directory_set_writer
set_writer_granted r alloc d p w h = elim (Option-cases (find_or_create_entry alloc d p)) [
  | inl e ↦ absurd (ground (arith, e))
  | inr found ↦ found
]

set_writer_list :
    (r : Role) (alloc : Bool) (d d' : Directory) (p w : ℕ)
    → IsValid d
    → find_or_create_entry alloc d p ≡ some d'
    → (directory_set_writer r alloc d p w).1 ≡ invalidations w (entry_of d p)
unfolding directory_set_writer
set_writer_list r alloc d d' p w v e =
    rw (e, directory_set_writer)
      (ap (invalidations w) (entry_of-found alloc d d' p (IsValid-IsSized d v) e).1)

-- Write access, `directory_set_writer` and then `directory_clear_sharers`: if the first succeeds,
-- the writer is the owner and no other node is on record for the page, every other page keeps its
-- entry, and the invalidation list named every node but the writer that held the page before.
pub write_access :
    (r : Role) (alloc : Bool) (d : Directory) (p w : ℕ)
    → IsValid d
    → (directory_set_writer r alloc d p w).0.status ≡ success
    → let (o, doomed) = directory_set_writer r alloc d p w in
      ((q : ℕ)
        → find_entry (directory_clear_sharers r o.after p).after q
          ≡ (if p == q then some (exclusive w (entry_of d p)) else find_entry d q))
      × ((m : ℕ) → contains doomed m ≡ (holds_copy (entry_of d p) m && not (m == w)))
unfolding perform spec_step
write_access r alloc d p w v granted = (
  λ q. ground (
    arith,
    perform_refines r d (set_writer alloc p w) q v,
    perform_refines r (perform r d (set_writer alloc p w)) (clear_sharers p) q
        (perform-IsValid r d (set_writer alloc p w) v),
    create-cases alloc d found.0 p found.1,
  ),
  λ m.
      rw (set_writer_list r alloc d found.0 p w v found.1)
        (contains-invalidations w m (entry_of d p)),
)
  where
    found : (d' : Directory) × (find_or_create_entry alloc d p ≡ some d')
    found = set_writer_granted r alloc d p w granted

-- After the clean-up for a failed node, no page has that node as its owner or among its readers.
pub failure_forgets :
    (d : Directory) (n q : ℕ) (e : Entry)
    → IsValid d
    → n ≢ no_node
    → find_entry (directory_handle_node_failure d n).after q ≡ some e
    → (e.owner ≢ n) × (contains e.sharers n ≡ false)
unfolding perform spec_step
failure_forgets d n q e v real h = elim (Option-cases (find_entry d q)) [
  | inl none_here ↦ absurd (ground (arith, after, none_here))
  | inr (x, here) ↦ ground (arith, after, here, contains-other_sharers n n x.sharers)
]
  where
    after : Option.map (forgotten n) (find_entry d q) ≡ some e
    after =
        sym (
          perform_refines (record { is_manager = false; is_promoted = false }) d
            (handle_node_failure n) q v)
        ∙ h

-- What a call hands to `send_state_sync_dir`.
abbrev pub replicated : Role → Directory → Call → Option DirSync
replicated r d (add_reader alloc p n) = (directory_add_reader r alloc d p n).sync
replicated r d (set_writer alloc p n) = (directory_set_writer r alloc d p n).0.sync
replicated r d (clear_sharers p) = (directory_clear_sharers r d p).sync
replicated r d (remove_sharer p n) = (directory_remove_sharer d p n).sync
replicated r d (set_owner up alloc p n) = (directory_set_owner r up alloc d p n).sync
replicated r d (remove_entry p) = (directory_remove_entry d p).sync
replicated r d (handle_node_failure n) = (directory_handle_node_failure d n).sync
replicated r d (reclaim_ownership alloc p n) = (directory_reclaim_ownership alloc d p n).sync
replicated r d (lookup alloc p) = none

-- The entry of `s.page` is what the backup is told.
abbrev pub Agrees : Directory → DirSync → Type 0
Agrees d s =
    (e : Entry) × (find_entry d s.page ≡ some e) × (e.owner ≡ s.node) × (e.sharers ≡ s.readers)

modified :
    (d : Directory) (p : ℕ) (f : Entry → Entry) (e : Entry)
    → IsValid d
    → KeepsPage f
    → find_entry d p ≡ some e
    → find_entry (modify_entry d p f) p ≡ some (f e)
modified d p f e v k h = ground (arith, find_entry-modify_entry d p p f (IsValid-IsSized d v) k)

add_reader_Agrees :
    (r : Role) (d : Directory) (p n : ℕ) (e : Entry) (s : DirSync)
    → IsValid d
    → find_entry d p ≡ some e
    → (add_reader_at r d p n).sync ≡ some s
    → Agrees (add_reader_at r d p n).after s
unfolding add_reader_at
add_reader_Agrees r d p n e s v found h = (
  with_reader n e,
  ground (arith, modified d p (with_reader n) e v (λ x. refl) found),
  ground arith,
  ground arith,
)

owner_Agrees :
    (alloc : Bool) (d d' : Directory) (p n : ℕ) (s : DirSync)
    → IsValid d
    → find_or_create_entry alloc d p ≡ some d'
    → s ≡ record { page = p; node = n; readers = (entry_of d' p).sharers }
    → Agrees (modify_entry d' p (with_owner n)) s
owner_Agrees alloc d d' p n s v e h = (
  with_owner n (entry_of d p),
  ground (
    arith,
    entry_of-found alloc d d' p (IsValid-IsSized d v) e,
    modified d' p (with_owner n) (entry_of d p) (create-IsValid alloc d d' p v e) (λ y. refl)
        (entry_of-found alloc d d' p (IsValid-IsSized d v) e).0,
  ),
  ground arith,
  ground (arith, entry_of-found alloc d d' p (IsValid-IsSized d v) e),
)

-- If a call replicates, the directory that it leaves has an entry for the page that it names, with
-- the owner and the readers that it sends.
pub replicated-Agrees :
    (r : Role) (d : Directory) (c : Call) (s : DirSync)
    → IsValid d
    → replicated r d c ≡ some s
    → Agrees (perform r d c) s
unfolding perform
replicated-Agrees r d (lookup alloc p) s v h = cc
replicated-Agrees r d (add_reader alloc p n) s v h =
    elim (Option-cases (find_or_create_entry alloc d p)) [
      | inl e ↦ absurd (ground (arith, e))
      | inr (d', e) ↦
          rw (e, perform, directory_add_reader)
            (add_reader_Agrees r d' p n (entry_of d p) s (create-IsValid alloc d d' p v e)
              (entry_of-found alloc d d' p (IsValid-IsSized d v) e).0 (ground (arith, e)))
    ]
replicated-Agrees r d (set_writer alloc p n) s v h =
    elim (Option-cases (find_or_create_entry alloc d p)) [
      | inl e ↦ absurd (ground (arith, e))
      | inr (d', e) ↦
          rw (e, perform, directory_set_writer)
            (owner_Agrees alloc d d' p n s v e (ground (arith, e)))
    ]
replicated-Agrees r d (clear_sharers p) s v h = elim (Option-cases (find_entry d p)) [
  | inl e ↦ absurd (ground (arith, e))
  | inr (x, e) ↦
      rw (e, perform, directory_clear_sharers)
        (
          without_sharers x,
          ground (arith, e, modified d p without_sharers x v (λ y. refl) e),
          ground (arith, e),
          ground (arith, e),
        )
]
replicated-Agrees r d (remove_sharer p n) s v h =
    absurd (ground (arith, Option-cases (find_entry d p)))
replicated-Agrees r d (set_owner up alloc p n) s v h =
    elim (Option-cases (find_or_create_entry alloc d p)) [
      | inl e ↦ absurd (ground (arith, e))
      | inr (d', e) ↦
          rw (e, perform, directory_set_owner)
            (owner_Agrees alloc d d' p n s v e (ground (arith, e)))
    ]
replicated-Agrees r d (remove_entry p) s v h =
    absurd (ground (arith, Option-cases (find_entry d p)))
replicated-Agrees r d (handle_node_failure n) s v h = cc
replicated-Agrees r d (reclaim_ownership alloc p n) s v h =
    absurd (ground (arith, Option-cases (find_or_create_entry alloc d p)))
