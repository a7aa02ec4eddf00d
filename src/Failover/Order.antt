-- ===== src/Failover/Order.antt =====
-- src/network/handlers.c: the order in which a backup takes what it is told.
use user_level_dsm.Prelude.{
  refl, ◌≡◌, ◌≤◌, arith, Bool-cases, inr, inl, leb, leb→le, le→leb, true, false,
}
use user_level_dsm.Failover.{
  store_sync, handle_state_sync, store_dir, Memory, FailNode, store_lock, store_barrier, Sync,
  seq_of, sync_dir, sync_lock, sync_barrier, store_sync,
}
use user_level_dsm.Types.{success}

store_keeps :
    (m : Memory) (n : FailNode) (s : Sync)
    → ((store_sync m n s).1.last_sync_seq ≡ n.last_sync_seq)
      × ((store_sync m n s).1.is_backup ≡ n.is_backup)
unfolding store_sync store_dir store_lock store_barrier
store_keeps m n (sync_dir seq s) = (ground arith, ground arith)
store_keeps m n (sync_lock seq lock holder waiters) = (ground arith, ground arith)
store_keeps m n (sync_barrier seq barrier arrived expected generation) =
    (ground arith, ground arith)

not_backup :
    (m : Memory) (n : FailNode) (s : Sync)
    → n.is_backup ≡ false
    → handle_state_sync m n s ≡ (success, n)
unfolding handle_state_sync
not_backup m n s h = ground (arith, h)

not_newer :
    (m : Memory) (n : FailNode) (s : Sync)
    → seq_of s ≤ n.last_sync_seq
    → handle_state_sync m n s ≡ (success, n)
unfolding handle_state_sync
not_newer m n s h = elim (Bool-cases n.is_backup) [
  | inl backup ↦ simp (handle_state_sync, backup, le→leb (seq_of s) n.last_sync_seq h) refl
  | inr other ↦ not_backup m n s other
]

newest :
    (m : Memory) (n : FailNode) (s : Sync)
    → n.is_backup ≡ true
    → seq_of s ≤ (handle_state_sync m n s).1.last_sync_seq
unfolding handle_state_sync
newest m n s backup = elim (Bool-cases (leb (seq_of s) n.last_sync_seq)) [
  | inl old ↦ rw (handle_state_sync, backup, old) (leb→le (seq_of s) n.last_sync_seq old)
  | inr new ↦
      rw (handle_state_sync, backup, new)
        (omega
          (arith, (store_keeps m (record n { is_backup = true; last_sync_seq = seq_of s }) s).0))
]

-- After a message of any kind, handled with or without success, a message that is not newer, the same
-- one again among them, changes nothing on the node.
pub older_ignored :
    (m m' : Memory) (n : FailNode) (s s' : Sync)
    → seq_of s' ≤ seq_of s
    → handle_state_sync m' (handle_state_sync m n s).1 s' ≡ (success, (handle_state_sync m n s).1)
older_ignored m m' n s s' h = elim (Bool-cases n.is_backup) [
  | inl backup ↦ not_newer m' (handle_state_sync m n s).1 s' (omega (arith, h, newest m n s backup))
  | inr other ↦ rw (not_backup m n s other) (not_backup m' n s' other)
]
