-- ===== src/Directory/History.antt =====
-- src/consistency/directory.c: the operations as calls of a client, in any order, and the invariant
-- of the hash table after them.
use user_level_dsm.Types.{Role}
use mathlib.Core.Path.{subst}
use user_level_dsm.Prelude.{
  ℕ, Bool, ◌<◌, List, ◌∷◌, [], length-replicate, AllFrom, refl, ◌≡◌, replicate, sym, suc, arith,
  some, zero, Bool-cases, contains, Option-cases, false, inl, inr, ltb, length, true, length-append,
  ltb→lt, ◌∙◌, some_eq,
}
use user_level_dsm.Directory.{
  Directory, directory_lookup, directory_create, directory_add_reader, directory_set_writer,
  directory_clear_sharers, directory_remove_sharer, directory_set_owner, directory_remove_entry,
  directory_handle_node_failure, directory_reclaim_ownership, find_entry, Entry, fail_entry,
  without_sharers, without_sharer, with_owner, modify_entry, find_or_create_entry, reclaimed,
  remove_first, entry_of, add_reader_at, max_sharers, with_reader,
}
use user_level_dsm.Directory.Valid.{
  IsValid, KeepsAll, total, IsChain, IsEntry, modify_entry-IsValid, create-IsValid, entry_of-found,
  IsValid-IsSized, unlink-IsValid, map-IsValid,
}
use user_level_dsm.Directory.Sharers.{
  length-remove_first, remove_first-IsDistinct, append_one-IsDistinct,
}

-- A call with its arguments. `alloc` says whether a `malloc` in it would succeed.
pub data Call : Type 0 where
  lookup : (alloc : Bool) → (page : ℕ) → Call
  add_reader : (alloc : Bool) → (page reader : ℕ) → Call
  set_writer : (alloc : Bool) → (page writer : ℕ) → Call
  clear_sharers : (page : ℕ) → Call
  remove_sharer : (page node : ℕ) → Call
  set_owner : (backup_up alloc : Bool) → (page node : ℕ) → Call
  remove_entry : (page : ℕ) → Call
  handle_node_failure : (node : ℕ) → Call
  reclaim_ownership : (alloc : Bool) → (page node : ℕ) → Call

unfoldable pub perform : Role → Directory → Call → Directory
unfolding directory_lookup directory_add_reader directory_set_writer directory_clear_sharers
    directory_remove_sharer directory_set_owner directory_remove_entry directory_handle_node_failure
    directory_reclaim_ownership
perform r d (lookup alloc p) = (directory_lookup alloc d p).2
perform r d (add_reader alloc p n) = (directory_add_reader r alloc d p n).after
perform r d (set_writer alloc p n) = (directory_set_writer r alloc d p n).0.after
perform r d (clear_sharers p) = (directory_clear_sharers r d p).after
perform r d (remove_sharer p n) = (directory_remove_sharer d p n).after
perform r d (set_owner up alloc p n) = (directory_set_owner r up alloc d p n).after
perform r d (remove_entry p) = (directory_remove_entry d p).after
perform r d (handle_node_failure n) = (directory_handle_node_failure d n).after
perform r d (reclaim_ownership alloc p n) = (directory_reclaim_ownership alloc d p n).after

unfoldable pub run : Role → Directory → List Call → Directory
run r d [] = d
run r d (c ∷ cs) = run r (perform r d c) cs

empty_chains : (n i k : ℕ) → AllFrom (IsChain n) i (replicate k [])
empty_chains n i zero = tt
empty_chains n i (suc k) =
    (record { placed = tt; once = tt; entries = tt }, empty_chains n (suc i) k)

empty_total : (k : ℕ) → total (replicate k []) ≡ 0
empty_total zero = refl
empty_total (suc k) = omega (arith, empty_total k)

pub directory_create-IsValid : (n : ℕ) → 0 < n → IsValid (directory_create n)
unfolding directory_create
directory_create-IsValid n h = record {
  size_eq = length-replicate n [];
  size_pos = h;
  chains = empty_chains n 0 n;
  counted = sym (empty_total n);
}

-- A write to an entry that `find_or_create_entry` returned.
write_created-IsValid :
    (alloc : Bool) (d : Directory) (p : ℕ) (f : Entry → Entry) {d' : Directory}
    → KeepsAll f
    → IsValid d
    → find_or_create_entry alloc d p ≡ some d'
    → IsValid (modify_entry d' p f)
write_created-IsValid alloc d p f {d'} k v e =
    modify_entry-IsValid d' p f k.page (λ x _. k.entry x) (create-IsValid alloc d d' p v e)

write_found-IsValid :
    (d : Directory) (p : ℕ) (f : Entry → Entry)
    → KeepsAll f
    → IsValid d
    → IsValid (modify_entry d p f)
write_found-IsValid d p f k v = modify_entry-IsValid d p f k.page (λ x _. k.entry x) v

with_owner-KeepsAll : (n : ℕ) → KeepsAll (with_owner n)
with_owner-KeepsAll n = record { page = λ e. refl; entry = λ e h. ground arith }

reclaimed-KeepsAll : (n : ℕ) → KeepsAll (reclaimed n)
reclaimed-KeepsAll n = record { page = λ e. refl; entry = λ e h. ground arith }

without_sharers-KeepsAll : KeepsAll without_sharers
without_sharers-KeepsAll = record { page = λ e. refl; entry = λ e h. ground arith }

removed-IsEntry :
    (n o : ℕ) (e : Entry)
    → IsEntry e
    → IsEntry (record e { owner = o; sharers = remove_first n e.sharers })
removed-IsEntry n o e h = record {
  fits = omega (arith, length-remove_first n e.sharers, h.fits);
  once = remove_first-IsDistinct n e.sharers h.once;
}

without_sharer-KeepsAll : (n : ℕ) → KeepsAll (without_sharer n)
without_sharer-KeepsAll n = record {
  page = λ e. refl;
  entry = λ e h. removed-IsEntry n e.owner e h;
}

fail_entry-KeepsAll : (n : ℕ) → KeepsAll (fail_entry n)
unfolding fail_entry
fail_entry-KeepsAll n = record { page = λ e. refl; entry = λ e h. removed-IsEntry n _ e h }

with_reader-IsEntry :
    (n : ℕ) (e : Entry)
    → contains e.sharers n ≡ false
    → ltb (length e.sharers) max_sharers ≡ true
    → IsEntry e
    → IsEntry (with_reader n e)
with_reader-IsEntry n e new room h = record {
  fits =
      omega (arith, length-append e.sharers (n ∷ []), ltb→lt (length e.sharers) max_sharers room);
  once = append_one-IsDistinct e.sharers n h.once new;
}

add_reader_at-IsValid :
    (r : Role) (d : Directory) (p n : ℕ) (e : Entry)
    → find_entry d p ≡ some e
    → IsValid d
    → IsValid (add_reader_at r d p n).after
unfolding add_reader_at
add_reader_at-IsValid r d p n e found v = elim (Bool-cases (contains e.sharers n)) [
  | inl old ↦ rw (found, entry_of) (rw old v)
  | inr new ↦ elim (Bool-cases (ltb (length e.sharers) max_sharers)) [
    | inl room ↦
        rw (found, entry_of)
          (rw new (
            rw room (
              modify_entry-IsValid d p (with_reader n) (λ x. refl)
                (λ x h.
                  subst (λ y. IsEntry y → IsEntry (with_reader n y)) (some_eq (sym found ∙ h))
                    (with_reader-IsEntry n e new room))
                v)))
    | inr full ↦ rw (found, entry_of) (rw new (rw full v))
  ]
]

pub perform-IsValid : (r : Role) (d : Directory) (c : Call) → IsValid d → IsValid (perform r d c)
unfolding perform
perform-IsValid r d (lookup alloc p) v = elim (Option-cases (find_or_create_entry alloc d p)) [
  | inl e ↦ rw (e, perform, directory_lookup) v
  | inr (d', e) ↦ rw (e, perform, directory_lookup) (create-IsValid alloc d d' p v e)
]
perform-IsValid r d (add_reader alloc p n) v =
    elim (Option-cases (find_or_create_entry alloc d p)) [
      | inl e ↦ rw (e, perform, directory_add_reader) v
      | inr (d', e) ↦
          rw (e, perform, directory_add_reader)
            (add_reader_at-IsValid r d' p n (entry_of d p)
              (entry_of-found alloc d d' p (IsValid-IsSized d v) e).0
              (create-IsValid alloc d d' p v e))
    ]
perform-IsValid r d (set_writer alloc p n) v =
    elim (Option-cases (find_or_create_entry alloc d p)) [
      | inl e ↦ rw (e, perform, directory_set_writer) v
      | inr (d', e) ↦
          rw (e, perform, directory_set_writer)
            (write_created-IsValid alloc d p (with_owner n) (with_owner-KeepsAll n) v e)
    ]
perform-IsValid r d (clear_sharers p) v = elim (Option-cases (find_entry d p)) [
  | inl e ↦ rw (e, perform, directory_clear_sharers) v
  | inr (x, e) ↦
      rw (e, perform, directory_clear_sharers)
        (write_found-IsValid d p without_sharers without_sharers-KeepsAll v)
]
perform-IsValid r d (remove_sharer p n) v = elim (Option-cases (find_entry d p)) [
  | inl e ↦ rw (e, perform, directory_remove_sharer) v
  | inr (x, e) ↦
      rw (e, perform, directory_remove_sharer)
        (write_found-IsValid d p (without_sharer n) (without_sharer-KeepsAll n) v)
]
perform-IsValid r d (set_owner up alloc p n) v =
    elim (Option-cases (find_or_create_entry alloc d p)) [
      | inl e ↦ rw (e, perform, directory_set_owner) v
      | inr (d', e) ↦
          rw (e, perform, directory_set_owner)
            (write_created-IsValid alloc d p (with_owner n) (with_owner-KeepsAll n) v e)
    ]
perform-IsValid r d (remove_entry p) v = elim (Option-cases (find_entry d p)) [
  | inl e ↦ rw (e, perform, directory_remove_entry) v
  | inr (x, e) ↦ rw (e, perform, directory_remove_entry) (unlink-IsValid d p x e v)
]
perform-IsValid r d (handle_node_failure n) v =
    map-IsValid d (fail_entry n) (fail_entry-KeepsAll n) v
perform-IsValid r d (reclaim_ownership alloc p n) v =
    elim (Option-cases (find_or_create_entry alloc d p)) [
      | inl e ↦ rw (e, perform, directory_reclaim_ownership) v
      | inr (d', e) ↦
          rw (e, perform, directory_reclaim_ownership)
            (write_created-IsValid alloc d p (reclaimed n) (reclaimed-KeepsAll n) v e)
    ]

run-IsValid : (r : Role) (d : Directory) (cs : List Call) → IsValid d → IsValid (run r d cs)
unfolding run
run-IsValid r d [] v = v
run-IsValid r d (c ∷ cs) v = run-IsValid r (perform r d c) cs (perform-IsValid r d c v)

-- After any calls on a new directory with at least one bucket, the hash table is well formed:
-- every entry stands in the bucket of its page, no page has two entries, the entry count is right,
-- and each entry has at most `MAX_SHARERS` sharers, none of them twice.
pub history-IsValid :
    (r : Role) (size : ℕ) (cs : List Call) → 0 < size → IsValid (run r (directory_create size) cs)
history-IsValid r size cs h = run-IsValid r _ cs (directory_create-IsValid size h)
