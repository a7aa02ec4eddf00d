-- ===== src/Failover/Tests.antt =====
-- src/network/handlers.c: each theorem on replication and fail-over at one input.
use user_level_dsm.Prelude.{ℕ, refl, true, false, ◌≡◌, ◌∷◌, none, some, [], arith, ◌≢◌}
use user_level_dsm.Directory.{
  DirSync, find_or_create_entry, Directory, find_entry, directory_create, directory_add_reader,
  Entry, add_reader_at, modify_entry, find_chain, modify_chain, directory_set_owner,
}
use user_level_dsm.Failover.{
  handle_state_sync, FailNode, send_state_sync_dir, shadow_slot, Memory, sync_dir, sync_lock,
  sync_barrier, two_taken, shadow_lock, shadow_directory,
}
use user_level_dsm.Directory.Valid.{IsValid}
use user_level_dsm.Failover.Promotion.{place_locks, promote_to_manager, place_lock}
use user_level_dsm.Lock.{find_lock_by_id, Lock}
use user_level_dsm.Coherence.{NodeSlot}
use user_level_dsm.Types.{Role, no_node, success}
use user_level_dsm.Failover.Promotion.Takeover.{IsKeyed, or_else, promotion_lem}
use user_level_dsm.Directory.History.{
  history-IsValid, run, set_owner, perform, add_reader, directory_create-IsValid,
}
use user_level_dsm.Failover.Copies.{backup_agrees}
use user_level_dsm.Failover.Order.{older_ignored}
use user_level_dsm.Directory.Access.{replicated}

abbrev up_slot : NodeSlot
up_slot = record { connected = true; is_failed = false }

abbrev manager_role : Role
manager_role = record { is_manager = true; is_promoted = false }

abbrev backup_role : Role
backup_role = record { is_manager = false; is_promoted = false }

-- The first backup, with a shadow of lock 4 that node 2 holds, and locks 4 and 6 of its own.
abbrev first_backup : FailNode
first_backup = record {
  role = backup_role;
  node_id = 1;
  is_backup = true;
  current_manager = 0;
  last_sync_seq = 2;
  next_seq_num = 1;
  num_nodes = 2;
  nodes = up_slot ∷ up_slot ∷ up_slot ∷ [];
  directory = none;
  backup_directory = some (directory_create 4);
  backup_locks = some (shadow_lock 4 2 (3 ∷ [])) ∷ none ∷ [];
  backup_barriers = [];
  locks = some (shadow_lock 4 no_node []) ∷ some (shadow_lock 6 no_node []) ∷ none ∷ [];
  barriers = [];
}

abbrev the_manager : FailNode
the_manager = record first_backup {
  role = manager_role;
  node_id = 0;
  is_backup = false;
  next_seq_num = 5;
  backup_directory = none;
}

abbrev enough : Memory
enough = record { directory_ok = true; entry_ok = true; calloc_ok = true; waiters_ok = 32 }

abbrev nothing : Memory
nothing = record { directory_ok = false; entry_ok = false; calloc_ok = false; waiters_ok = 0 }

older_ignored_example :
    handle_state_sync enough
      (handle_state_sync nothing first_backup (sync_lock 7 9 2 [])).1
      (sync_barrier 6 3 1 2 0)
    ≡ (success, (handle_state_sync nothing first_backup (sync_lock 7 9 2 [])).1)
older_ignored_example =
    older_ignored nothing enough first_backup (sync_lock 7 9 2 []) (sync_barrier 6 3 1 2 0)
      (omega arith)

abbrev small_dir : Directory
small_dir = run manager_role (directory_create 2) (set_owner true true 3 0 ∷ [])

small_dir-IsValid : IsValid small_dir
small_dir-IsValid = history-IsValid manager_role 2 (set_owner true true 3 0 ∷ []) (omega arith)

abbrev told : DirSync
told = record { page = 3; node = 0; readers = 1 ∷ [] }

is_told : replicated the_manager.role small_dir (add_reader true 3 1) ≡ some told
unfolding find_or_create_entry find_entry perform run directory_create directory_add_reader
    add_reader_at modify_entry find_chain modify_chain directory_set_owner
is_told = refl

is_sent : send_state_sync_dir the_manager told ≡ (some (sync_dir 5 told), two_taken the_manager)
unfolding send_state_sync_dir
is_sent = refl

backup_agrees_example :
    let (code, b') = handle_state_sync enough first_backup (sync_dir 5 told) in
    (code ≡ success)
    × ((e : Entry) × (e' : Entry) × (find_entry
            (perform manager_role small_dir (add_reader true 3 1))
            3
          ≡ some e)
        × (find_entry (shadow_directory b') 3 ≡ some e')
        × (e.owner ≡ e'.owner)
        × (e.sharers ≡ e'.sharers))
    × ((q : ℕ) → 3 ≢ q → find_entry (shadow_directory b') q ≡ find_entry (directory_create 4) q)
backup_agrees_example =
    backup_agrees small_dir (add_reader true 3 1) told the_manager (two_taken the_manager)
      first_backup enough (sync_dir 5 told) small_dir-IsValid is_told is_sent refl (omega arith)
      (directory_create-IsValid 4 (omega arith)) refl refl

slot_is_0 : shadow_slot Lock.id 4 0 none first_backup.backup_locks ≡ some 0
unfolding shadow_slot
slot_is_0 = refl

first_backup-IsKeyed : IsKeyed first_backup.backup_locks
unfolding find_lock_by_id
first_backup-IsKeyed = (refl, tt)

all_placed : find_lock_by_id 4 (place_locks first_backup.backup_locks first_backup.locks).0 ≡ none
unfolding place_locks place_lock find_lock_by_id
all_placed = refl

promotion_lem_example :
    let n' = (promote_to_manager first_backup).1 in
    (n'.role.is_manager ≡ true)
    × (n'.current_manager ≡ 1)
    × (n'.directory ≡ some (directory_create 4))
    × (find_lock_by_id 4 n'.locks
        ≡ or_else
            (find_lock_by_id 4 first_backup.backup_locks)
            (find_lock_by_id 4 first_backup.locks))
    × (promote_to_manager n' ≡ ([], n'))
promotion_lem_example =
    promotion_lem first_backup (directory_create 4) 4 refl refl first_backup-IsKeyed all_placed
