-- ===== src/Directory/Replica.antt =====
-- src/network/handlers.c, `handle_state_sync_dir`: the entry that a backup makes of what it is told.
use user_level_dsm.Prelude.{
  ℕ, refl, List, [], contains, All, Bool, ◌∷◌, ◌≡◌, false, ◌++◌, arith, some, length, take, ◌<◌,
  if◌then◌else◌, ◌==◌, IsDistinct, ◌+◌, ◌≤◌, true, ◌≢◌, suc, ap, ==_refl, length-append, ==_ne,
  zero,
}
use mathlib.Core.List.{append-nil, append_assoc}
use user_level_dsm.Directory.History.{
  perform, add_reader, perform-IsValid, set_owner, clear_sharers,
}
use user_level_dsm.Types.{Role, Status, success, is_success}
use user_level_dsm.Directory.Refine.{spec_step, perform_refines}
use user_level_dsm.Directory.{
  Directory, Entry, directory_add_reader, DirSync, find_entry, directory_set_owner,
  directory_clear_sharers, max_sharers, with_reader, entry_of,
}
use user_level_dsm.Directory.Valid.{IsValid}
use user_level_dsm.Directory.Sharers.{contains-append_one}
use user_level_dsm.Directory.Access.{Agrees}
use user_level_dsm.Directory.Ownership.{writer_gets_entry}

-- The loop over the readers in the message.
pub add_readers : Role → Bool → Directory → ℕ → List ℕ → Directory
add_readers r alloc d page [] = d
add_readers r alloc d page (n ∷ ns) =
    add_readers r alloc (directory_add_reader r alloc d page n).after page ns

-- The owner, then the readers in place of the old ones. A backup does not replicate, so the calls
-- send nothing.
pub apply_sync : Role → (up alloc : Bool) → Directory → DirSync → Status × Directory
apply_sync r up alloc d s =
    let owned = directory_set_owner r up alloc d s.page s.node in
    if is_success owned.status
    then (
      success,
      add_readers r alloc (directory_clear_sharers r owned.after s.page).after s.page
          (take max_sharers s.readers),
    )
    else (owned.status, owned.after)

-- None of the numbers stands in a list.
abbrev pub Fresh : List ℕ → List ℕ → Type 0
Fresh acc ns = All (λ n. contains acc n ≡ false) ns

Fresh-append_one :
    (acc ns : List ℕ) (n : ℕ) → Fresh acc ns → contains ns n ≡ false → Fresh (acc ++ n ∷ []) ns
Fresh-append_one acc [] n h absent = tt
Fresh-append_one acc (m ∷ ms) n h absent = (
  ground (arith, h.0, contains-append_one acc n m),
  Fresh-append_one acc ms n h.1 (ground (arith, absent)),
)

Fresh-nil : (ns : List ℕ) → Fresh [] ns
Fresh-nil [] = tt
Fresh-nil (n ∷ ns) = (refl, Fresh-nil ns)

joins :
    (r : Role) (alloc : Bool) (d : Directory) (p q n : ℕ) (e : Entry)
    → IsValid d
    → find_entry d p ≡ some e
    → contains e.sharers n ≡ false
    → length e.sharers < 16
    → find_entry (directory_add_reader r alloc d p n).after q
      ≡ (if p == q then some (with_reader n e) else find_entry d q)
unfolding perform spec_step
joins r alloc d p q n e v here absent room =
    ground (arith, perform_refines r d (add_reader alloc p n) q v, here, absent, room)

-- Readers that are new and fit join in their order, and no other page is touched.
add_readers_lem :
    (r : Role) (alloc : Bool) (d : Directory) (p : ℕ) (ns : List ℕ) (e : Entry)
    → IsValid d
    → find_entry d p ≡ some e
    → Fresh e.sharers ns
    → IsDistinct ns
    → length e.sharers + length ns ≤ 16
    → IsValid (add_readers r alloc d p ns)
      × ((q : ℕ)
          → find_entry (add_readers r alloc d p ns) q
            ≡ (if p == q then some (record e { sharers = e.sharers ++ ns }) else find_entry d q))
unfolding add_readers perform
add_readers_lem r alloc d p [] e v here fresh once room =
    (v, λ q. ground (arith, here, append-nil e.sharers))
add_readers_lem r alloc d p (n ∷ ns) e v here fresh once room =
    let d' = (directory_add_reader r alloc d p n).after in
    let step : (q : ℕ)
        → find_entry d' q ≡ (if p == q then some (with_reader n e) else find_entry d q) =
      λ q. joins r alloc d p q n e v here fresh.0 (omega arith) in
    let rest =
      add_readers_lem r alloc d' p ns (with_reader n e)
        (perform-IsValid r d (add_reader alloc p n) v) (rw (==_refl p) at (step p))
        (Fresh-append_one e.sharers ns n fresh.1 once.0) once.1
        (omega (arith, length-append e.sharers (n ∷ []))) in
    (rest.0, λ q. ground (arith, rest.1 q, step q, append_assoc e.sharers (n ∷ []) ns))

-- The entry has its new owner and no reader yet.
abbrev emptied : Role → Bool → Directory → DirSync → Directory
emptied r up d s =
    (directory_clear_sharers r (directory_set_owner r up true d s.page s.node).after s.page).after

emptied-IsValid :
    (r : Role) (up : Bool) (d : Directory) (s : DirSync) → IsValid d → IsValid (emptied r up d s)
unfolding perform
emptied-IsValid r up d s v =
    perform-IsValid r (perform r d (set_owner up true s.page s.node)) (clear_sharers s.page)
      (perform-IsValid r d (set_owner up true s.page s.node) v)

find_entry-emptied :
    (r : Role) (up : Bool) (d : Directory) (s : DirSync) (q : ℕ)
    → IsValid d
    → find_entry (emptied r up d s) q ≡ (
        if s.page == q
        then some (record (entry_of d s.page) { owner = s.node; sharers = [] })
        else find_entry d q)
unfolding perform spec_step
find_entry-emptied r up d s q v = ground (
  arith,
  perform_refines r d (set_owner up true s.page s.node) q v,
  perform_refines r (perform r d (set_owner up true s.page s.node)) (clear_sharers s.page) q
      (perform-IsValid r d (set_owner up true s.page s.node) v),
)

owner_set :
    (r : Role) (up : Bool) (d : Directory) (p node : ℕ)
    → (directory_set_owner r up true d p node).status ≡ success
unfolding directory_set_owner
owner_set r up d p node = let (d', e) = writer_gets_entry d p in rw (directory_set_owner, e) refl

pub take_all : (n : ℕ) (xs : List ℕ) → length xs ≤ n → take n xs ≡ xs
take_all zero [] h = refl
take_all zero (x ∷ xs) h = absurd (omega arith)
take_all (suc n) [] h = refl
take_all (suc n) (x ∷ xs) h = ap (λ ys. x ∷ ys) (take_all n xs (omega arith))

-- A backup that is told of an entry, with at most 16 readers, none twice, and memory, has the owner
-- and the readers that it was told, and no other page is touched.
pub apply_sync-Agrees :
    (r : Role) (up : Bool) (d : Directory) (s : DirSync)
    → IsValid d
    → IsDistinct s.readers
    → length s.readers ≤ 16
    → ((apply_sync r up true d s).0 ≡ success)
      × IsValid (apply_sync r up true d s).1
      × Agrees (apply_sync r up true d s).1 s
      × ((q : ℕ) → s.page ≢ q → find_entry (apply_sync r up true d s).1 q ≡ find_entry d q)
unfolding apply_sync
apply_sync-Agrees r up d s v once room =
    let rest =
      add_readers_lem r true (emptied r up d s) s.page s.readers told v2
        (rw (==_refl s.page) at (here s.page)) (Fresh-nil s.readers) once (omega (arith, room)) in
    rw (apply_sync, owner_set r up d s.page s.node, take_all 16 s.readers room)
      (
        refl,
        rest.0,
        (record told { sharers = s.readers }, rw (==_refl s.page) at (rest.1 s.page), refl, refl),
        λ q ne. ground (arith, ==_ne s.page q ne, rest.1 q, here q),
      )
  where
    v2 : IsValid (emptied r up d s)
    v2 = emptied-IsValid r up d s v

    told : Entry
    told = record (entry_of d s.page) { owner = s.node; sharers = [] }

    here :
        (q : ℕ)
        → find_entry (emptied r up d s) q ≡ (if s.page == q then some told else find_entry d q)
    here q = find_entry-emptied r up d s q v
