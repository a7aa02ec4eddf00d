-- ===== src/Migration/Known.antt =====
-- src/consistency/page_migration.c: a manager that looks a page up in its own directory.
use mathlib.Core.Option
use user_level_dsm.Migration.{Fetcher, FetchWake}
use user_level_dsm.Directory.History.{perform, perform-IsValid, clear_sharers, set_writer}
use user_level_dsm.Migration.Queries.{query_directory_manager, lookup_here, with_directory}
use user_level_dsm.Directory.{
  invalidations, directory_lookup, directory_set_writer, Directory, find_or_create_entry,
  other_sharers, Entry, directory_clear_sharers, without_sharers, find_entry, with_owner, entry_of,
}
use user_level_dsm.Types.{Role, Status, success, no_node}
use user_level_dsm.Migration.Write.{cleared}
use user_level_dsm.Prelude.{
  ℕ, true, ◌≡◌, [], some, arith, sym, ◌≢◌, List, ==_refl, refl, ◌∷◌, ◌∙◌, ==_ne, ap,
}
use user_level_dsm.Directory.Refine.{spec_step, perform_refines}
use user_level_dsm.PageTable.{PageEntry}
use user_level_dsm.Directory.Valid.{IsValid}
use user_level_dsm.Coherence.Spaces.{
  KeepsPlace, IsSpace, modify_page-IsSpace, find_page-modify_self,
}
use user_level_dsm.Migration.Fetch.{entry_now, at_entry}
use user_level_dsm.Coherence.{find_page}

-- A manager whose directory has an owner and no reader for a page, and that has the page in a table.
pub record Serves (n : Fetcher) (page owner : ℕ) (e : PageEntry) : Type 0 where
  pub manager : n.host.role.is_manager ≡ true
  pub up : n.host.initialized ≡ true
  pub directory : Directory
  pub known : n.host.directory ≡ some directory
  pub valid : IsValid directory
  pub entry : Entry
  pub found : find_entry directory page ≡ some entry
  pub owned : entry.owner ≡ owner
  pub unread : entry.sharers ≡ []
  pub space : IsSpace n.host.page_tables
  pub here : find_page n.host.page_tables page ≡ some e

same_directory : (n : Fetcher) (d : Directory) → n.host.directory ≡ some d → with_directory d n ≡ n
same_directory n d h = λ i. record n { host = record n.host { directory = sym h i } }

lookup_known :
    (d : Directory) (page : ℕ) (x : Entry)
    → find_entry d page ≡ some x
    → directory_lookup true d page ≡ (success, some x.owner, d)
unfolding directory_lookup find_or_create_entry
lookup_known d page x h = rw (h, directory_lookup, entry_of, h) refl

-- The manager looks the owner up in its own directory.
pub query_known :
    (n : Fetcher) (page owner : ℕ) (e : PageEntry) (code : Status) (ws : List FetchWake)
    → Serves n page owner e
    → query_directory_manager true code n page ws ≡ some (success, owner, n)
unfolding query_directory_manager lookup_here
query_known n page owner e code ws s = ground (
  arith,
  s.manager,
  s.known,
  lookup_known s.directory page s.entry s.found,
  same_directory n s.directory s.known,
  s.owned,
)

pub entry_now_here :
    (n : Fetcher) (page owner : ℕ) (e e' : PageEntry)
    → Serves n page owner e
    → entry_now n page e' ≡ e
entry_now_here n page owner e e' s = rw (s.here, entry_now)

pub at_entry-Serves :
    (n : Fetcher) (page owner : ℕ) (e : PageEntry) (f : PageEntry → PageEntry)
    → KeepsPlace f
    → Serves n page owner e
    → Serves (at_entry page f n) page owner (f e)
at_entry-Serves n page owner e f k s = record {
  manager = s.manager;
  up = s.up;
  directory = s.directory;
  known = s.known;
  valid = s.valid;
  entry = s.entry;
  found = s.found;
  owned = s.owned;
  unread = s.unread;
  space = modify_page-IsSpace n.host.page_tables page f s.space k;
  here = find_page-modify_self n.host.page_tables page f s.space ∙ ap (Option.map f) s.here;
}

pub set_writer_known :
    (r : Role) (d : Directory) (page me : ℕ) (x : Entry)
    → find_entry d page ≡ some x
    → ((directory_set_writer r true d page me).0.status ≡ success)
      × ((directory_set_writer r true d page me).1 ≡ invalidations me x)
unfolding directory_set_writer find_or_create_entry
set_writer_known r d page me x h = ground (arith, h)

-- The list of a writer where the owner is another node, or the writer itself.
pub one_invalidation :
    (me : ℕ) (x : Entry)
    → x.sharers ≡ []
    → x.owner ≢ me
    → x.owner ≢ no_node
    → invalidations me x ≡ x.owner ∷ []
unfolding invalidations other_sharers
one_invalidation me x h ne nn = rw h (ground (arith, ==_ne x.owner me ne, ==_ne x.owner no_node nn))

pub no_invalidation : (me : ℕ) (x : Entry) → x.sharers ≡ [] → x.owner ≡ me → invalidations me x ≡ []
unfolding invalidations other_sharers
no_invalidation me x h e = rw h (ground (arith, e, ==_refl me))

abbrev pub written : Role → Directory → (page me : ℕ) → Directory
written r d page me = (directory_set_writer r true d page me).0.after

written-IsValid :
    (r : Role) (d : Directory) (page me : ℕ) → IsValid d → IsValid (written r d page me)
unfolding perform
written-IsValid r d page me v = perform-IsValid r d (set_writer true page me) v

written_entry :
    (r : Role) (d : Directory) (page me : ℕ) (x : Entry)
    → IsValid d
    → find_entry d page ≡ some x
    → find_entry (written r d page me) page ≡ some (with_owner me x)
unfolding perform spec_step
written_entry r d page me x v h =
    ground (arith, h, ==_refl page, perform_refines r d (set_writer true page me) page v)

cleared-IsValid :
    (r : Role) (d : Directory) (page : ℕ)
    → IsValid d
    → IsValid (directory_clear_sharers r d page).after
unfolding perform
cleared-IsValid r d page v = perform-IsValid r d (clear_sharers page) v

cleared_entry :
    (r : Role) (d : Directory) (page : ℕ) (x : Entry)
    → IsValid d
    → find_entry d page ≡ some x
    → find_entry (directory_clear_sharers r d page).after page ≡ some (without_sharers x)
unfolding perform spec_step
cleared_entry r d page x v h =
    ground (arith, h, ==_refl page, perform_refines r d (clear_sharers page) page v)

with_directory-Serves :
    (n : Fetcher) (page owner owner' : ℕ) (e : PageEntry) (d : Directory) (x : Entry)
    → IsValid d
    → find_entry d page ≡ some x
    → x.owner ≡ owner'
    → x.sharers ≡ []
    → Serves n page owner e
    → Serves (with_directory d n) page owner' e
with_directory-Serves n page owner owner' e d x v f o u s = record {
  manager = s.manager;
  up = s.up;
  directory = d;
  known = refl;
  valid = v;
  entry = x;
  found = f;
  owned = o;
  unread = u;
  space = s.space;
  here = s.here;
}

-- After `directory_set_writer` the directory has this node as the owner.
pub claims :
    (n : Fetcher) (page owner : ℕ) (e : PageEntry)
    → (s : Serves n page owner e)
    → Serves
        (with_directory (written n.host.role s.directory page n.host.node_id) n)
        page
        n.host.node_id
        e
claims n page owner e s =
    let me = n.host.node_id in
    with_directory-Serves n page owner me e _ (with_owner me s.entry)
      (written-IsValid n.host.role s.directory page me s.valid)
      (written_entry n.host.role s.directory page me s.entry s.valid s.found) refl s.unread s

abbrev pub cleared_of : (n : Fetcher) (page : ℕ) → Directory → Fetcher
cleared_of n page d = with_directory (directory_clear_sharers n.host.role d page).after n

pub clears :
    (n : Fetcher) (page owner : ℕ) (e : PageEntry)
    → (s : Serves n page owner e)
    → (cleared page n ≡ cleared_of n page s.directory) × Serves (cleared page n) page owner e
unfolding cleared
clears n page owner e s =
    let p : cleared page n ≡ cleared_of n page s.directory = rw s.known in
    (
      p,
      rw p (
          with_directory-Serves n page owner owner e _ (without_sharers s.entry)
            (cleared-IsValid n.host.role s.directory page s.valid)
            (cleared_entry n.host.role s.directory page s.entry s.valid s.found) s.owned refl s),
    )
