-- ===== src/Directory/Tests.antt =====
-- src/consistency/directory.c: each theorem on the directory at one input.
use user_level_dsm.Directory.Valid.{IsValid, IsEntry}
use user_level_dsm.Directory.{
  find_entry, directory_handle_node_failure, DirSync, directory_set_writer, Directory, Entry,
  find_or_create_entry, fail_entry, invalidations, directory_create, remove_first,
  directory_add_reader, directory_clear_sharers, max_sharers, add_reader_at, modify_entry,
  directory_remove_entry, find_chain, entry_of, modify_chain, unlink,
}
use user_level_dsm.Directory.Access.{exclusive, write_access, replicated}
use user_level_dsm.Types.{Role, success}
use user_level_dsm.Prelude.{
  length, List, ◌∷◌, contains, arith, true, ℕ, false, ◌<◌, ◌≡◌, [], none, if◌then◌else◌, ◌==◌, some,
  ◌&&◌, not, refl,
}
use user_level_dsm.Directory.History.{
  perform, history-IsValid, run, Call, add_reader, set_writer, remove_entry,
}
use user_level_dsm.Directory.Refine.{spec_run, run_refines}
use user_level_dsm.Directory.Invalidate.{invalidations_fits, holds_copy}

abbrev manager_role : Role
manager_role = record { is_manager = true; is_promoted = false }

-- A small directory: page 3 is read by nodes 1 and 2, page 5 belongs to node 4.
abbrev some_calls : List Call
some_calls =
    set_writer true 3 0
    ∷ add_reader true 3 1
    ∷ add_reader true 3 2
    ∷ set_writer true 5 4
    ∷ remove_entry 5
    ∷ set_writer true 5 4
    ∷ []

abbrev small_dir : Directory
small_dir = run manager_role (directory_create 2) some_calls

small_dir-IsValid : IsValid small_dir
small_dir-IsValid = history-IsValid manager_role 2 some_calls (omega arith)

run_refines_example :
    find_entry (run manager_role (directory_create 2) some_calls) 3
    ≡ spec_run (λ _. none) some_calls 3
run_refines_example = run_refines manager_role 2 some_calls 3 (omega arith)

history-IsValid_example : IsValid (run manager_role (directory_create 2) some_calls)
history-IsValid_example = history-IsValid manager_role 2 some_calls (omega arith)

writer_granted : (directory_set_writer manager_role true small_dir 3 4).0.status ≡ success
unfolding directory_set_writer find_or_create_entry find_entry perform run directory_create
    directory_add_reader add_reader_at modify_entry directory_remove_entry find_chain modify_chain
    unlink
writer_granted = refl

write_access_example :
    let (o, doomed) = directory_set_writer manager_role true small_dir 3 4 in
    ((q : ℕ)
      → find_entry (directory_clear_sharers manager_role o.after 3).after q
        ≡ (if 3 == q then some (exclusive 4 (entry_of small_dir 3)) else find_entry small_dir q))
    × ((m : ℕ) → contains doomed m ≡ (holds_copy (entry_of small_dir 3) m && not (m == 4)))
write_access_example = write_access manager_role true small_dir 3 4 small_dir-IsValid writer_granted

-- A shared page: node 0 owns it, nodes 1 and 2 read it.
abbrev shared_entry : Entry
shared_entry = record { page_id = 3; owner = 0; sharers = 1 ∷ 2 ∷ []; is_valid = true }

shared-IsEntry : IsEntry shared_entry
shared-IsEntry = record { fits = omega arith; once = (refl, (refl, tt)) }

invalidations_fits_example : length (invalidations 1 shared_entry) < max_sharers
invalidations_fits_example =
    invalidations_fits 1 shared_entry shared-IsEntry (omega arith) (omega arith, (omega arith, tt))
      (λ _. omega arith)

abbrev failed_entry : Entry
failed_entry = record { page_id = 3; owner = 0; sharers = 2 ∷ []; is_valid = true }

after_failure : find_entry (directory_handle_node_failure small_dir 1).after 3 ≡ some failed_entry
unfolding directory_handle_node_failure fail_entry remove_first find_or_create_entry find_entry
    perform run directory_create directory_add_reader add_reader_at directory_set_writer
    modify_entry directory_remove_entry find_chain modify_chain unlink
after_failure = refl

abbrev told : DirSync
told = record { page = 3; node = 0; readers = 1 ∷ 2 ∷ 4 ∷ [] }

is_told : replicated manager_role small_dir (add_reader true 3 4) ≡ some told
unfolding find_or_create_entry find_entry perform run directory_create directory_add_reader
    add_reader_at directory_set_writer modify_entry directory_remove_entry find_chain modify_chain
    unlink
is_told = refl
