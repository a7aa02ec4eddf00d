-- ===== src/Migration/Claims.antt =====
-- src/consistency/page_migration.c: the steps of a fetch for writing on such a manager.
use user_level_dsm.Migration.{Fetcher, FetchWake, SharerTracker}
use user_level_dsm.Migration.Queries.{with_directory, send_sharer_query}
use user_level_dsm.Directory.{directory_set_writer, Directory}
use user_level_dsm.Types.{Status, success, no_node, is_success, read_write, perm_read_write}
use user_level_dsm.Migration.Write.{
  cleared, claim_page, await_invalid, invalidate_one, one_less_ack, expects_acks, stop_acks,
  invalidate_all, is_acked, obtain_page, collect_sharers, asked_sharers, asking_sharers,
  known_holders, writable_by, write_own, conclude,
}
use user_level_dsm.Prelude.{
  ℕ, true, ◌≡◌, [], some, arith, ◌≢◌, List, ==_refl, refl, ◌∷◌, ◌∙◌, ==_ne, ap, false,
}
use user_level_dsm.PageTable.{PageEntry}
use user_level_dsm.Coherence.Spaces.{permission_granted}
use user_level_dsm.Migration.Fetch.{at_entry, Attempt, retry, with_result, done}
use user_level_dsm.Coherence.{at_page, with_state, protect}
use user_level_dsm.Migration.Doomed.{is_reached}
use user_level_dsm.Migration.Answers.{await_ready}
use user_level_dsm.Migration.Known.{
  written, Serves, entry_now_here, set_writer_known, at_entry-Serves, no_invalidation,
  one_invalidation, claims,
}

invalidate_unreached :
    (codes : ℕ → Status) (page t : ℕ) (n : Fetcher)
    → is_reached codes n t ≡ false
    → invalidate_one codes page t n ≡ at_entry page one_less_ack n
unfolding invalidate_one
invalidate_unreached codes page t n h = ground arith

-- The node that has claimed a page, with one acknowledgement that it does not wait for.
abbrev pub claimed : (n : Fetcher) → Directory → (page : ℕ) → Fetcher
claimed n d page =
    at_entry page one_less_ack (
      at_entry page (expects_acks 1) (with_directory (written n.host.role d page n.host.node_id) n))

pub claimed-Serves :
    (n : Fetcher) (page owner : ℕ) (e : PageEntry)
    → (s : Serves n page owner e)
    → Serves (claimed n s.directory page) page n.host.node_id (one_less_ack (expects_acks 1 e))
claimed-Serves n page owner e s =
    let me = n.host.node_id in
    let n1 = with_directory (written n.host.role s.directory page me) n in
    at_entry-Serves (at_entry page (expects_acks 1) n1) page me (expects_acks 1 e) one_less_ack
      (λ x. (refl, refl))
      (at_entry-Serves n1 page me e (expects_acks 1) (λ x. (refl, refl)) (claims n page owner e s))

-- No acknowledgement is waited for.
no_wait :
    (n : Fetcher) (page owner t : ℕ) (e e' : PageEntry) (ts : List ℕ) (ws : List FetchWake)
    → Serves n page owner e
    → e.pending_inv_acks ≡ 0
    → await_invalid page e' (t ∷ ts) ws n ≡ some n
unfolding await_invalid stop_acks
no_wait n page owner t e e' ts ws s h =
    let ready : is_acked page e' n ≡ true = rw (entry_now_here n page owner e e' s) (rw h refl) in
    rw (await_ready (is_acked page e') n ws ready)

pub claim_unreached :
    (s : Attempt) (n : Fetcher) (page owner : ℕ) (e e' : PageEntry) (others : List ℕ)
    → (v : Serves n page owner e) → s.env.alloc ≡ true
    → owner ≢ n.host.node_id
    → owner ≢ no_node
    → is_reached s.invalidate_codes n owner ≡ false
    → claim_page s owner page e' others n
      ≡ obtain_page s owner page e' (cleared page (claimed n v.directory page))
unfolding claim_page invalidate_all
claim_unreached s n page owner e e' others v ha ne nn un =
    let me = n.host.node_id in
    let w = set_writer_known n.host.role v.directory page me v.entry v.found in
    let targets : (directory_set_writer n.host.role true v.directory page me).1 ≡ owner ∷ [] =
      w.1
      ∙ one_invalidation me v.entry v.unread (rw v.owned ne) (rw v.owned nn)
      ∙ ap (λ (o : ℕ). o ∷ []) v.owned in
    let n3 =
      at_entry page (expects_acks 1) (with_directory (written n.host.role v.directory page me) n) in
    let step = invalidate_unreached s.invalidate_codes page owner n3 un in
    let go =
      no_wait (claimed n v.directory page) page me owner (one_less_ack (expects_acks 1 e)) e' []
        s.ack_wakes (claimed-Serves n page owner e v) refl in
    ground (arith, v.known, w.0, targets, step, go)

abbrev pub reclaimed_own : (n : Fetcher) → Directory → (page : ℕ) → Fetcher
reclaimed_own n d page =
    at_entry page (expects_acks 0) (with_directory (written n.host.role d page n.host.node_id) n)

pub claim_own :
    (s : Attempt) (n : Fetcher) (page : ℕ) (e e' : PageEntry) (others : List ℕ)
    → (v : Serves n page n.host.node_id e) → s.env.alloc ≡ true
    → claim_page s n.host.node_id page e' others n
      ≡ obtain_page s n.host.node_id page e' (cleared page (reclaimed_own n v.directory page))
unfolding claim_page invalidate_all await_invalid
claim_own s n page e e' others v ha =
    let me = n.host.node_id in
    let w = set_writer_known n.host.role v.directory page me v.entry v.found in
    let targets : (directory_set_writer n.host.role true v.directory page me).1 ≡ [] =
      w.1 ∙ no_invalidation me v.entry v.unread v.owned in
    ground (arith, v.known, w.0, targets)

pub obtain_unsent :
    (s : Attempt) (owner page : ℕ) (e : PageEntry) (n : Fetcher)
    → owner ≢ n.host.node_id
    → is_success s.env.send_code ≡ false
    → obtain_page s owner page e n ≡ some (retry (at_entry page (with_result s.env.send_code) n))
unfolding obtain_page
obtain_unsent s owner page e n ne h = ground (arith, ==_ne owner n.host.node_id ne)

pub collect_unsent :
    (s : Attempt) (owner page : ℕ) (n : Fetcher)
    → owner ≢ n.host.node_id
    → is_success s.sharer_code ≡ false
    → (others : List ℕ) × (collect_sharers s owner page n
        ≡ some (others, asked_sharers (asking_sharers page n)))
unfolding collect_sharers send_sharer_query
collect_unsent s owner page n ne h =
    (known_holders owner (asking_sharers page n), ground (arith, ==_ne owner n.host.node_id ne))

pub tracker-Serves :
    (n : Fetcher) (page owner : ℕ) (e : PageEntry) (t : SharerTracker)
    → Serves n page owner e
    → Serves (record n { sharer_tracker = t }) page owner e
tracker-Serves n page owner e t s = record {
  manager = s.manager;
  up = s.up;
  directory = s.directory;
  known = s.known;
  valid = s.valid;
  entry = s.entry;
  found = s.found;
  owned = s.owned;
  unread = s.unread;
  space = s.space;
  here = s.here;
}

pub collect_own :
    (s : Attempt) (page : ℕ) (n : Fetcher) → collect_sharers s n.host.node_id page n ≡ some ([], n)
unfolding collect_sharers
collect_own s page n = rw (==_refl n.host.node_id)

-- The state of an owner that has set the permission of its page.
abbrev pub upgraded : (n : Fetcher) → (page addr : ℕ) → Fetcher
upgraded n page addr = at_entry page (writable_by n.host.node_id) (
    at_entry page (with_result success) (record n {
      host = at_page page (with_state read_write) (protect addr perm_read_write n.host);
    }))

pub obtain_own :
    (s : Attempt) (n : Fetcher) (page : ℕ) (e e' : PageEntry)
    → Serves n page n.host.node_id e
    → s.env.protects ≡ true
    → e'.local_addr ≡ e.local_addr
    → obtain_page s n.host.node_id page e' n ≡ some (done success (upgraded n page e.local_addr))
unfolding obtain_page write_own conclude
obtain_own s n page e e' v hp same = ground (
  arith,
  ==_refl n.host.node_id,
  hp,
  same,
  permission_granted n.host page e perm_read_write v.up v.space v.here,
  v.manager,
)
