-- ===== src/Failover/Copies.antt =====
-- src/network/handlers.c: the shadows of a backup beside what the manager has.
use user_level_dsm.Prelude.{
  ℕ, refl, ◌≡◌, some, true, ◌<◌, ◌≢◌, length, ◌≤◌, arith, ◌∙◌, sym, List, Option, ◌∷◌, none, ◌⊎◌,
  [], ◌-◌, inl, if◌then◌else◌, ◌+◌, set, some_eq, ◌==◌, suc, inr, Bool-cases, take, length-take-le,
  le→leb,
}
use user_level_dsm.Failover.{
  handle_state_sync, send_state_sync_dir, store_sync, store_dir, FailNode, Memory, Sync,
  shadow_directory, backup_up, sync_dir, shadow_slot, store_lock, sync_lock, shadow_lock, seq_of,
  store_sync,
}
use user_level_dsm.Directory.{Directory, DirSync, Entry, find_entry}
use user_level_dsm.Directory.History.{Call, perform, perform-IsValid}
use user_level_dsm.Directory.Valid.{IsValid, find_entry-IsEntry}
use user_level_dsm.Directory.Access.{replicated, replicated-Agrees}
use user_level_dsm.Types.{success}
use user_level_dsm.Directory.Replica.{apply_sync, apply_sync-Agrees, take_all}
use user_level_dsm.Lock.{find_lock_by_id, Lock}

sent_msg :
    (n n' : FailNode) (s : DirSync) (msg : Sync)
    → length s.readers ≤ 16
    → send_state_sync_dir n s ≡ (some msg, n')
    → msg ≡ sync_dir n.next_seq_num s
unfolding send_state_sync_dir
sent_msg n n' s msg fits sent = ground (arith, sent, take_all 16 s.readers fits)

-- The backup after it has taken an entry.
abbrev taken : FailNode → (seq : ℕ) → DirSync → FailNode
taken b seq s = record b {
  last_sync_seq = seq;
  backup_directory = some (apply_sync b.role (backup_up b) true (shadow_directory b) s).1;
}

entry_taken :
    (m : Memory) (b : FailNode) (seq : ℕ) (s : DirSync)
    → b.is_backup ≡ true
    → b.last_sync_seq < seq
    → m.directory_ok ≡ true
    → m.entry_ok ≡ true
    → (apply_sync b.role (backup_up b) true (shadow_directory b) s).0 ≡ success
    → handle_state_sync m b (sync_dir seq s) ≡ (success, taken b seq s)
unfolding handle_state_sync store_sync store_dir
entry_taken m b seq s backup newer mem mem' code = ground (arith, backup, newer, mem, mem', code)

-- A manager's call that replicates, its message, and a backup with memory and a valid shadow, the
-- last message of which was older: the backup's entry of the page then has the owner and the readers
-- that the manager's entry has after the call, and the shadow's other entries stand as they were.
pub backup_agrees :
    (d : Directory) (c : Call) (s : DirSync) (n n' b : FailNode) (m : Memory) (msg : Sync)
    → IsValid d
    → replicated n.role d c ≡ some s
    → send_state_sync_dir n s ≡ (some msg, n')
    → b.is_backup ≡ true
    → b.last_sync_seq < n.next_seq_num
    → IsValid (shadow_directory b)
    → m.directory_ok ≡ true
    → m.entry_ok ≡ true
    → let (code, b') = handle_state_sync m b msg in
      (code ≡ success)
      × ((e : Entry) × (e' : Entry) × (find_entry (perform n.role d c) s.page ≡ some e)
          × (find_entry (shadow_directory b') s.page ≡ some e')
          × (e.owner ≡ e'.owner)
          × (e.sharers ≡ e'.sharers))
      × ((q : ℕ)
          → s.page ≢ q
          → find_entry (shadow_directory b') q ≡ find_entry (shadow_directory b) q)
backup_agrees d c s n n' b m msg v rep sent backup newer shadow mem mem' =
    let (e, found, owner, readers) = replicated-Agrees n.role d c s v rep in
    let ok =
      find_entry-IsEntry (perform n.role d c) s.page e (perform-IsValid n.role d c v) found in
    let fits : length s.readers ≤ 16 = rw readers at ok.fits in
    let done =
      apply_sync-Agrees b.role (backup_up b) (shadow_directory b) s shadow (rw readers at ok.once)
        fits in
    let (e', found', owner', readers') = done.2 in
    rw
      (sent_msg n n' s msg fits sent, entry_taken m b n.next_seq_num s backup newer mem mem' done.0)
      (refl, (e, e', found, found', owner ∙ sym owner', readers ∙ sym readers'), done.3)

-- A write of a lock at a slot, as the searches see it.
abbrev Found : (id j : ℕ) → Lock → (slots slots' : List (Option Lock)) → Type 0
Found id j v ss ss' = find_lock_by_id j ss' ≡ (if id == j then some v else find_lock_by_id j ss)

deeper : (i k : ℕ) → k + 1 ≤ i → i - k ≡ suc (i - (k + 1))
deeper i k h = omega arith

from_zero : (i : ℕ) → i - 0 ≡ i
from_zero i = omega arith

at_head : (i k : ℕ) → i ≡ k → i - k ≡ 0
at_head i k h = omega arith

slot_here :
    (id j k i : ℕ) (v l : Lock) (ss : List (Option Lock))
    → v.id ≡ id
    → (l.id == id) ≡ true
    → i ≡ k
    → (k ≤ i) × Found id j v (some l ∷ ss) (set (some l ∷ ss) (i - k) (some v))
unfolding find_lock_by_id
slot_here id j k i v l ss named same here =
    (omega arith, rw (at_head i k here) (ground (arith, same, named)))

-- An empty slot has been seen before slot `k`.
slot_after :
    (id j k f i : ℕ) (v : Lock) (ss : List (Option Lock))
    → f < k
    → v.id ≡ id
    → shadow_slot Lock.id id k (some f) ss ≡ some i
    → ((i ≡ f) × (find_lock_by_id id ss ≡ none))
      ⊎ ((k ≤ i) × Found id j v ss (set ss (i - k) (some v)))
unfolding shadow_slot find_lock_by_id
slot_after id j k f i v [] lt named h = inl (sym (some_eq h), refl)
slot_after id j k f i v (none ∷ ss) lt named h =
    elim (slot_after id j (k + 1) f i v ss (omega arith) named h) [
      | inl before ↦ inl before
      | inr (le, found) ↦ inr (omega arith, rw (deeper i k le) found)
    ]
slot_after id j k f i v (some l ∷ ss) lt named h = elim (Bool-cases (l.id == id)) [
  | inl same ↦ inr (slot_here id j k i v l ss named same (sym (some_eq (rw same at h))))
  | inr other ↦ elim (slot_after id j (k + 1) f i v ss (omega arith) named (rw other at h)) [
    | inl before ↦ inl (before.0, rw other before.1)
    | inr (le, found) ↦ inr (omega arith, rw (deeper i k le) (ground (arith, found)))
  ]
]

-- The slot that the search of a backup ends at: a lock of that identifier written there is found, and
-- the other searches of the table stay as they were.
slot_written :
    (id j k i : ℕ) (v : Lock) (ss : List (Option Lock))
    → v.id ≡ id
    → shadow_slot Lock.id id k none ss ≡ some i
    → (k ≤ i) × Found id j v ss (set ss (i - k) (some v))
unfolding shadow_slot find_lock_by_id
slot_written id j k i v [] named h = cc
slot_written id j k i v (none ∷ ss) named h =
    elim (slot_after id j (k + 1) k i v ss (omega arith) named h) [
      | inl (here, absent) ↦ (omega (arith, here), rw (at_head i k here) (ground (arith, named)))
      | inr (le, found) ↦ (omega arith, rw (deeper i k le) found)
    ]
slot_written id j k i v (some l ∷ ss) named h = elim (Bool-cases (l.id == id)) [
  | inl same ↦ slot_here id j k i v l ss named same (sym (some_eq (rw same at h)))
  | inr other ↦
      let (le, found) = slot_written id j (k + 1) i v ss named (rw other at h) in
      (omega arith, rw (deeper i k le) (ground (arith, found)))
]

abbrev told_lock : (lock holder : ℕ) → List ℕ → Lock
told_lock lock holder waiters = shadow_lock lock holder (take 32 waiters)

lock_stored :
    (m : Memory) (n : FailNode) (lock holder i : ℕ) (waiters : List ℕ)
    → shadow_slot Lock.id lock 0 none n.backup_locks ≡ some i
    → m.calloc_ok ≡ true
    → 32 ≤ m.waiters_ok
    → store_lock m n lock holder waiters ≡ (
      success,
      record n { backup_locks = set n.backup_locks i (some (told_lock lock holder waiters)) },
    )
unfolding store_lock
lock_stored m n lock holder i waiters slot mem room =
    let short = length-take-le 32 waiters in
    ground (
      arith,
      slot,
      mem,
      take_all m.waiters_ok (take 32 waiters) (omega (arith, short, room)),
      le→leb (length (take 32 waiters)) m.waiters_ok (omega (arith, short, room)),
    )

lock_taken :
    (m : Memory) (b : FailNode) (s : Sync)
    → b.is_backup ≡ true
    → b.last_sync_seq < seq_of s
    → handle_state_sync m b s ≡ store_sync m (record b { last_sync_seq = seq_of s }) s
unfolding handle_state_sync
lock_taken m b s backup newer = ground (arith, backup, newer)

-- A backup with a slot for a lock and with memory, that is told of the lock by a message newer than
-- the last one: it succeeds, its shadow of the lock has the holder and the waiters of the message, at
-- most 32, and is free just when there is no holder; the shadows of other locks stay as they were.
pub lock_copied :
    (m : Memory) (b : FailNode) (seq lock holder i j : ℕ) (waiters : List ℕ)
    → b.is_backup ≡ true
    → b.last_sync_seq < seq
    → shadow_slot Lock.id lock 0 none b.backup_locks ≡ some i
    → m.calloc_ok ≡ true
    → 32 ≤ m.waiters_ok
    → let (code, b') = handle_state_sync m b (sync_lock seq lock holder waiters) in
      (code ≡ success)
      × (find_lock_by_id j b'.backup_locks ≡ (
          if lock == j
          then some (shadow_lock lock holder (take 32 waiters))
          else find_lock_by_id j b.backup_locks))
unfolding store_sync
lock_copied m b seq lock holder i j waiters backup newer slot mem room =
    let found =
      (slot_written lock j 0 i (told_lock lock holder waiters) b.backup_locks refl slot).1 in
    rw
      (
        lock_taken m b (sync_lock seq lock holder waiters) backup newer,
        lock_stored m (record b { last_sync_seq = seq }) lock holder i waiters slot mem room,
      )
      (refl, rw (from_zero i) at found)
