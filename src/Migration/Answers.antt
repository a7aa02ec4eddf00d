-- ===== src/Migration/Answers.antt =====
-- src/network/handlers.c and src/consistency/directory.c: a query of the directory and its answer.
use user_level_dsm.Migration.{timed_out, woken}
use user_level_dsm.Migration.Queries.{
  handle_dir_query, lookup_here, handle_dir_reply, query_directory_manager, send_dir_query,
  send_dir_reply, asking, manager_of, take_reply, with_directory, asked, is_answered,
}
use user_level_dsm.Migration.{Fetcher, await, FetchWake, dir_reply}
use user_level_dsm.Directory.{directory_lookup, Directory, find_or_create_entry, entry_of}
use user_level_dsm.Prelude.{
  ℕ, ◌≡◌, some, true, Bool, List, ◌||◌, false, ◌≢◌, ◌∷◌, arith, ==_refl, ==_ne, sym, [], ◌∙◌, refl,
}
use user_level_dsm.Directory.Valid.{IsValid, entry_of-found, IsValid-IsSized}
use user_level_dsm.Types.{success}
use user_level_dsm.Coherence.{Env}
use user_level_dsm.Directory.Ownership.{writer_gets_entry}

-- The node that has sent a query and waits for the reply.
abbrev pub querying : Fetcher → (page : ℕ) → Fetcher
querying w page = send_dir_query success (asking page w) (manager_of w) page

directory_lookup_at :
    (d d' : Directory) (page : ℕ)
    → IsValid d
    → find_or_create_entry true d page ≡ some d'
    → directory_lookup true d page ≡ (success, some (entry_of d page).owner, d')
unfolding directory_lookup
directory_lookup_at d d' page v e =
    let f = (entry_of-found true d d' page (IsValid-IsSized d v) e).1 in
    rw (e, directory_lookup) (rw f)

lookup_here_lem :
    (n : Fetcher) (page : ℕ) (d : Directory)
    → n.host.directory ≡ some d
    → IsValid d
    → (d' : Directory) × (lookup_here true n page
        ≡ (success, (entry_of d page).owner, with_directory d' n))
unfolding lookup_here
lookup_here_lem n page d h v =
    let (d', e) = writer_gets_entry d page in
    (d', rw (h, lookup_here) (rw (directory_lookup_at d d' page v e)))

reply_ignored :
    (n : Fetcher) (page owner : ℕ)
    → n.dir_tracker.page ≢ page
    → handle_dir_reply n page owner ≡ (success, n)
unfolding handle_dir_reply
reply_ignored n page owner ne = ground (arith, ==_ne n.dir_tracker.page page ne)

reply_taken :
    (w : Fetcher) (page owner : ℕ)
    → handle_dir_reply (querying w page) page owner ≡ (
      success,
      record (querying w page) {
        dir_tracker = record { page = page; owner = owner; active = true; complete = true };
      },
    )
unfolding handle_dir_reply send_dir_query
reply_taken w page owner = rw (==_refl page)

pub await_ready :
    (test : Fetcher → Bool) (n : Fetcher) (ws : List FetchWake)
    → test n ≡ true
    → await test n ws ≡ some (true, n)
unfolding await
await_ready test n [] h = rw h
await_ready test n (woken m ∷ ws) h = rw h
await_ready test n (timed_out m ∷ ws) h = rw h

await_next :
    (test : Fetcher → Bool) (n m : Fetcher) (ws : List FetchWake)
    → test n ≡ false
    → await test n (woken m ∷ ws) ≡ await test m ws
unfolding await
await_next test n m ws h = rw h

-- A node that is not the manager asks the manager, and waits. The manager's answer is sent to the
-- node and names the owner that the manager's directory has for the page, or no node where it has no
-- entry. The wait goes on when a reply for another page comes, and when that answer comes the query
-- returns that owner.
pub query_answered :
    (env : Env) (w m : Fetcher) (page other stranger : ℕ) (alloc : Bool) (d : Directory)
    (ws : List FetchWake)
    → env.alloc ≡ true
    → env.send_code ≡ success
    → m.host.directory ≡ some d
    → IsValid d
    → (w.host.role.is_manager || w.host.role.is_promoted) ≡ false
    → other ≢ page
    → ((handle_dir_query env m page w.host.node_id).1.sent
        ≡ dir_reply w.host.node_id page (entry_of d page).owner ∷ m.sent)
      × (let bothered = (handle_dir_reply (querying w page) other stranger).1 in
          let answered = (handle_dir_reply bothered page (entry_of d page).owner).1 in
          query_directory_manager alloc success w page (woken bothered ∷ woken answered ∷ ws)
          ≡ some (success, (entry_of d page).owner, asked answered))
unfolding handle_dir_query query_directory_manager send_dir_reply send_dir_query take_reply
query_answered env w m page other stranger alloc d ws ha hs hd v worker ne =
    let owner = (entry_of d page).owner in
    let answered : Fetcher = record (querying w page) {
      dir_tracker = record { page = page; owner = owner; active = true; complete = true };
    } in
    let ends : await is_answered (querying w page) (woken (querying w page) ∷ woken answered ∷ ws)
        ≡ some (true, answered) =
      await_next is_answered (querying w page) (querying w page) (woken answered ∷ ws) refl
      ∙ await_next is_answered (querying w page) answered ws refl
      ∙ await_ready is_answered answered ws refl in
    let (d', e) = lookup_here_lem m page d hd v in
    (
      rw (ha, handle_dir_query) (rw (e, hs)),
      rw (reply_ignored (querying w page) other stranger (λ h. ne (sym h)))
          (rw (reply_taken w page owner) (rw (worker, query_directory_manager) (rw ends))),
    )
