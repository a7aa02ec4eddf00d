-- ===== src/Coherence/Doomed.antt =====
-- src/network/handlers.c: what an invalidation leaves behind.
use user_level_dsm.Prelude.{
  refl, ℕ, ◌≡◌, some, ◌⊎◌, ◌∷◌, [], ◌≢◌, Bool-cases, inl, inr, ==_ne, arith, Option-cases, ◌∙◌,
  true, if◌then◌else◌, ◌==◌, Bool, subst,
}
use user_level_dsm.Coherence.{
  set_page_permission, PageNode, Env, find_page, invalidate_ack, at_page, with_state, protect,
  Letter, backup_up,
}
use user_level_dsm.Coherence.Invalidation.{
  handle_invalidate, note_owner, send_invalidate_ack, one_received,
}
use user_level_dsm.PageTable.{PageEntry}
use user_level_dsm.Coherence.Transfer.{Hosts, permission_Hosts, at_page-Hosts}
use user_level_dsm.Types.{perm_none, permission_error, invalid, success, PagePerm}
use user_level_dsm.Coherence.Spaces.{found_place, found_has_tables, find_page-modify_ne}
use user_level_dsm.Coherence.Request.{taken_by}
use user_level_dsm.Directory.{
  Directory, find_entry, entry_of, directory_remove_sharer, directory_set_owner,
}
use user_level_dsm.Directory.Valid.{IsValid}
use user_level_dsm.Directory.Ownership.{lost_by, set_owner-remove_sharer}

note_owner_answers :
    (env : Env) (n : PageNode) (page new_owner : ℕ) (l : Letter)
    → ((note_owner env n page new_owner l).letters ≡ l ∷ [])
      × ((note_owner env n page new_owner l).status ≡ env.send_code)
unfolding note_owner
note_owner_answers env n page new_owner l = elim (Option-cases n.directory) [
  | inl e ↦ rw (note_owner, e) (refl, refl)
  | inr (d, e) ↦ rw (note_owner, e) (refl, refl)
]

-- The acknowledgement of an invalidation goes out on every branch, as the only message, to the node
-- that sent the invalidation: for a page in no table, with a failed `mprotect`, or without memory
-- for the directory. The handler's code is that of this send.
pub invalidate_acks :
    (env : Env) (n : PageNode) (sender page new_owner : ℕ)
    → ((handle_invalidate env n sender page new_owner).letters
        ≡ (record { target = sender; sender = n.node_id; payload = invalidate_ack page n.node_id })
          ∷ [])
      × ((handle_invalidate env n sender page new_owner).status ≡ env.send_code)
unfolding handle_invalidate send_invalidate_ack
invalidate_acks env n sender page new_owner = elim (Option-cases (find_page n.page_tables page)) [
  | inl none_here ↦ rw (handle_invalidate, none_here) (refl, refl)
  | inr (e, found) ↦
      rw (handle_invalidate, found)
        (note_owner_answers env
          (at_page page (taken_by new_owner)
            (set_page_permission env.protects (one_received n) e.local_addr perm_none).1)
          page new_owner (send_invalidate_ack n sender page))
]

permission_cases :
    (env : Env) (n : PageNode) (page : ℕ) (e : PageEntry)
    → Hosts n page e
    → (set_page_permission env.protects n e.local_addr perm_none ≡ (permission_error, n))
      ⊎ (set_page_permission env.protects n e.local_addr perm_none
          ≡ (success, at_page page (with_state invalid) (protect e.local_addr perm_none n)))
unfolding set_page_permission
permission_cases env n page e h = elim (Bool-cases env.protects) [
  | inl ok ↦ inr (rw ok (permission_Hosts n page e perm_none h))
  | inr bad ↦ inl (
      rw
        (
          set_page_permission,
          ==_ne e.local_addr 0
              (omega (arith, (found_place n.page_tables page e h.space h.found).1)),
          h.up,
          found_has_tables n page e h.found,
          bad,
        )
        refl)
]

-- The page is given up to its new owner, and the other pages stand as they were.
abbrev pub Taken : PageNode → PageNode → (page new_owner : ℕ) → Type 0
Taken n n' page new_owner =
    ((x : PageEntry) × Hosts n' page x × (x.state ≡ invalid) × (x.owner ≡ new_owner))
    × ((q : ℕ) → page ≢ q → find_page n'.page_tables q ≡ find_page n.page_tables q)

at_page-Taken :
    (n : PageNode) (page new_owner : ℕ) (e : PageEntry)
    → Hosts n page e
    → Taken n (at_page page (taken_by new_owner) n) page new_owner
at_page-Taken n page new_owner e h = (
  (
    taken_by new_owner e,
    at_page-Hosts n page e (taken_by new_owner) h (λ _. (refl, refl)),
    refl,
    refl,
  ),
  λ q ne. find_page-modify_ne n.page_tables page q (taken_by new_owner) h.space ne,
)

-- Whether or not `mprotect` succeeds.
permission_Taken :
    (env : Env) (n : PageNode) (page new_owner : ℕ) (e : PageEntry)
    → Hosts n page e
    → Taken n
        (at_page page
          (taken_by new_owner)
          (set_page_permission env.protects n e.local_addr perm_none).1)
        page
        new_owner
permission_Taken env n page new_owner e h = elim (permission_cases env n page e h) [
  | inl same ↦ rw same (at_page-Taken n page new_owner e h)
  | inr done ↦
      let n1 = protect e.local_addr perm_none n in
      let h1 : Hosts n1 page e = record { up = h.up; space = h.space; found = h.found } in
      let h2 = at_page-Hosts n1 page e (with_state invalid) h1 (λ _. (refl, refl)) in
      let t =
        at_page-Taken (at_page page (with_state invalid) n1) page new_owner (with_state invalid e)
          h2 in
      rw done (
        t.0,
        λ q ne. t.1 q ne ∙ find_page-modify_ne n.page_tables page q (with_state invalid) h.space ne,
      )
]

permission_keeps :
    (ok : Bool) (n : PageNode) (addr : ℕ) (perm : PagePerm)
    → ((set_page_permission ok n addr perm).1.directory ≡ n.directory)
      × ((set_page_permission ok n addr perm).1.node_id ≡ n.node_id)
unfolding set_page_permission
permission_keeps ok n addr perm = (ground arith, ground arith)

-- The directory after `note_owner`.
abbrev pub noted : PageNode → Directory → (page new_owner : ℕ) → Directory
noted n d page new_owner =
    (directory_remove_sharer (directory_set_owner n.role (backup_up n) true d page new_owner).after
      page n.node_id).after

note_owner_after :
    (env : Env) (n : PageNode) (page new_owner : ℕ) (l : Letter) (d : Directory)
    → n.directory ≡ some d
    → env.alloc ≡ true
    → (note_owner env n page new_owner l).after
      ≡ record n { directory = some (noted n d page new_owner) }
unfolding note_owner
note_owner_after env n page new_owner l d has mem = ground (arith, has, mem)

pub note_owner_tables :
    (env : Env) (n : PageNode) (page new_owner : ℕ) (l : Letter)
    → (note_owner env n page new_owner l).after.page_tables ≡ n.page_tables
unfolding note_owner
note_owner_tables env n page new_owner l = ground arith

-- A page that is here is invalid after an invalidation, whatever the system calls answer.
pub invalidated :
    (env : Env) (n : PageNode) (sender page new_owner : ℕ) (e : PageEntry)
    → Hosts n page e
    → (x : PageEntry) × (find_page
          (handle_invalidate env n sender page new_owner).after.page_tables
          page
        ≡ some x)
      × (x.state ≡ invalid)
unfolding handle_invalidate
invalidated env n sender page new_owner e h =
    let m =
      at_page page (taken_by new_owner)
        (set_page_permission env.protects (one_received n) e.local_addr perm_none).1 in
    let t : Taken (one_received n) m page new_owner =
      permission_Taken env (one_received n) page new_owner e
        (record { up = h.up; space = h.space; found = h.found }) in
    rw
      (
        handle_invalidate,
        h.found,
        note_owner_tables env m page new_owner (send_invalidate_ack n sender page),
      )
      (t.0.0, t.0.1.found, t.0.2)

-- An invalidation of a page that is here, with memory for a directory entry: the page is invalid and
-- has the new owner, even when `mprotect` fails; the other pages stand as they were; the directory
-- here names the new owner for the page, no longer has this node among its readers, and says of other
-- pages what it said.
pub invalidate_lem :
    (env : Env) (n : PageNode) (sender page new_owner : ℕ) (e : PageEntry) (d : Directory)
    → Hosts n page e
    → n.directory ≡ some d
    → IsValid d
    → env.alloc ≡ true
    → let n' = (handle_invalidate env n sender page new_owner).after in
      ((x : PageEntry) × Hosts n' page x × (x.state ≡ invalid) × (x.owner ≡ new_owner))
      × ((q : ℕ) → page ≢ q → find_page n'.page_tables q ≡ find_page n.page_tables q)
      × ((d' : Directory) × (n'.directory ≡ some d')
          × ((q : ℕ)
              → find_entry d' q ≡ (
                  if page == q
                  then some (lost_by n.node_id new_owner (entry_of d page))
                  else find_entry d q)))
unfolding handle_invalidate note_owner
invalidate_lem env n sender page new_owner e d h has v mem =
    rw
      (
        handle_invalidate,
        h.found,
        note_owner_after env m page new_owner (send_invalidate_ack n sender page) d (keep.0 ∙ has)
            mem,
      )
      (
        (t.0.0, (record { up = t.0.1.up; space = t.0.1.space; found = t.0.1.found }), t.0.2, t.0.3),
        t.1,
        (
          noted m d page new_owner,
          refl,
          λ q.
              subst
                (λ k. find_entry (noted m d page new_owner) q ≡ (
                  if page == q
                  then some (lost_by k new_owner (entry_of d page))
                  else find_entry d q))
                keep.1
                (set_owner-remove_sharer m.role (backup_up m) d page q m.node_id new_owner v),
        ),
      )
  where
    m : PageNode
    m =
        at_page page (taken_by new_owner)
          (set_page_permission env.protects (one_received n) e.local_addr perm_none).1

    keep : (m.directory ≡ n.directory) × (m.node_id ≡ n.node_id)
    keep = permission_keeps env.protects (one_received n) e.local_addr perm_none

    t : Taken (one_received n) m page new_owner
    t =
        permission_Taken env (one_received n) page new_owner e
          (record { up = h.up; space = h.space; found = h.found })
