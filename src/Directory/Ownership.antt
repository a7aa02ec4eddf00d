-- ===== src/Directory/Ownership.antt =====
-- src/consistency/directory.c: the calls with which a node that loses a page notes the new owner.
use user_level_dsm.Prelude.{
  ℕ, List, contains, ◌≡◌, false, Bool, arith, true, if◌then◌else◌, ◌==◌, some, Option-cases, inl,
  ◌&&◌, not, inr,
}
use user_level_dsm.Directory.History.{perform, set_owner, remove_sharer, perform-IsValid}
use user_level_dsm.Directory.{
  Entry, other_sharers, Directory, find_entry, directory_remove_sharer, directory_set_owner,
  entry_of, find_or_create_entry, directory_set_writer, insert_entry,
}
use user_level_dsm.Directory.Refine.{spec_step, perform_refines}
use user_level_dsm.Types.{Role}
use user_level_dsm.Directory.Sharers.{contains-other_sharers}
use user_level_dsm.Directory.Valid.{IsValid, entry_of-found, IsValid-IsSized}
use user_level_dsm.Directory.Invalidate.{holds_copy, contains-invalidations}

-- The entry of a page that a node has lost.
abbrev pub lost_by : (node new_owner : ℕ) → Entry → Entry
lost_by node new_owner e = record e { owner = new_owner; sharers = other_sharers node e.sharers }

-- `directory_set_owner` and then `directory_remove_sharer`, with memory for an entry: the page has
-- the new owner and no longer the node as a reader, and no other page is touched.
pub set_owner-remove_sharer :
    (r : Role) (up : Bool) (d : Directory) (p q node new_owner : ℕ)
    → IsValid d
    → find_entry
        (directory_remove_sharer (directory_set_owner r up true d p new_owner).after p node).after
        q
      ≡ (if p == q then some (lost_by node new_owner (entry_of d p)) else find_entry d q)
unfolding perform spec_step
set_owner-remove_sharer r up d p q node new_owner v = ground (
  arith,
  perform_refines r d (set_owner up true p new_owner) q v,
  perform_refines r (perform r d (set_owner up true p new_owner)) (remove_sharer p node) q
      (perform-IsValid r d (set_owner up true p new_owner) v),
)

pub other_sharers-forgets : (node : ℕ) (xs : List ℕ) → contains (other_sharers node xs) node ≡ false
other_sharers-forgets node xs = ground (arith, contains-other_sharers node node xs)

pub writer_gets_entry :
    (d : Directory) (p : ℕ) → (d' : Directory) × (find_or_create_entry true d p ≡ some d')
unfolding find_or_create_entry
writer_gets_entry d p = elim (Option-cases (find_entry d p)) [
  | inl e ↦ (insert_entry d p, ground (arith, e))
  | inr (x, e) ↦ (d, ground (arith, e))
]

-- With memory for an entry, a writer's list has every other node that holds the page.
pub set_writer_dooms :
    (r : Role) (d : Directory) (p w m : ℕ)
    → IsValid d
    → contains (directory_set_writer r true d p w).1 m
      ≡ (holds_copy (entry_of d p) m && not (m == w))
unfolding directory_set_writer
set_writer_dooms r d p w m v =
    let (d', e) = writer_gets_entry d p in
    rw (e, directory_set_writer, (entry_of-found true d d' p (IsValid-IsSized d v) e).1)
      (contains-invalidations w m (entry_of d p))
