-- ===== src/Migration/Doomed.antt =====
-- src/consistency/page_migration.c: which nodes a writer tells to drop their copies of a page.
use user_level_dsm.Prelude.{
  ℕ, List, Bool, false, ◌≡◌, contains, arith, ◌∷◌, ◌&&◌, ◌==◌, not, ◌||◌, true, [], ==_refl, refl,
  ◌∙◌,
}
use user_level_dsm.Migration.Write.{invalidate_all, invalidate_one}
use user_level_dsm.Types.{Status, is_success}
use user_level_dsm.Coherence.Invalidation.{send_invalidate}
use user_level_dsm.Coherence.{Letter, invalidate}
use user_level_dsm.Migration.{
  FetchMessage, Fetcher, letter, dir_query, dir_reply, sharer_query, sharer_reply, owner_update,
}
use user_level_dsm.Directory.{Directory, directory_set_writer, entry_of}
use user_level_dsm.Directory.Valid.{IsValid}
use user_level_dsm.Migration.Fetch.{owner_failed}
use user_level_dsm.Directory.Invalidate.{holds_copy}
use user_level_dsm.Directory.Ownership.{set_writer_dooms}

-- An invalidation of a page has been sent to a node.
abbrev pub is_invalidation : (page node : ℕ) → Letter → Bool
is_invalidation page node l = elim l.payload [
  | invalidate p owner ↦ p == page && l.target == node
  | _ ↦ false
]

abbrev pub is_told : (page node : ℕ) → List FetchMessage → Bool
is_told page node [] = false
is_told page node (letter l ∷ ms) = is_invalidation page node l || is_told page node ms
is_told page node (dir_query t p r ∷ ms) = is_told page node ms
is_told page node (dir_reply t p o ∷ ms) = is_told page node ms
is_told page node (sharer_query t p r ∷ ms) = is_told page node ms
is_told page node (sharer_reply t p rs ∷ ms) = is_told page node ms
is_told page node (owner_update t p o ∷ ms) = is_told page node ms

-- A node that can be told: it has not failed, and the network takes the message.
abbrev pub is_reached : (ℕ → Status) → Fetcher → ℕ → Bool
is_reached codes n node = is_success (codes node) && not (owner_failed n node)

invalidate_one_nodes :
    (codes : ℕ → Status) (page t : ℕ) (n : Fetcher)
    → (invalidate_one codes page t n).host.nodes ≡ n.host.nodes
unfolding invalidate_one
invalidate_one_nodes codes page t n = ground arith

invalidate_one_tells :
    (codes : ℕ → Status) (page t : ℕ) (n : Fetcher) (node : ℕ)
    → is_told page node (invalidate_one codes page t n).sent
      ≡ ((t == node && is_reached codes n t) || is_told page node n.sent)
unfolding invalidate_one send_invalidate
invalidate_one_tells codes page t n node = ground (arith, ==_refl page)

pub invalidate_all_tells :
    (codes : ℕ → Status) (page : ℕ) (ts : List ℕ) (n : Fetcher) (node : ℕ)
    → is_told page node (invalidate_all codes page ts n).sent
      ≡ ((contains ts node && is_reached codes n node) || is_told page node n.sent)
unfolding invalidate_all
invalidate_all_tells codes page [] n node = refl
invalidate_all_tells codes page (t ∷ ts) n node = ground (
  arith,
  invalidate_all_tells codes page ts (invalidate_one codes page t n) node,
  invalidate_one_tells codes page t n node,
  invalidate_one_nodes codes page t n,
)

-- The loop of `fetch_page_write` over the list of `directory_set_writer`, with memory for an entry,
-- tells exactly those other nodes to drop the page that the node's own directory has as its owner or
-- among its readers, that have not failed and that the network reaches. Nothing else counts, so a
-- reader of which only the owner's answer to the query of sharers tells keeps its copy.
pub writer_tells :
    (codes : ℕ → Status) (page : ℕ) (d : Directory) (n : Fetcher) (node : ℕ)
    → IsValid d
    → is_told page node n.sent ≡ false
    → is_told page node
        (invalidate_all codes page
          (directory_set_writer n.host.role true d page n.host.node_id).1
          n).sent
      ≡ ((holds_copy (entry_of d page) node && not (node == n.host.node_id))
          && is_reached codes n node)
writer_tells codes page d n node v fresh =
    let ts = (directory_set_writer n.host.role true d page n.host.node_id).1 in
    invalidate_all_tells codes page ts n node
    ∙ ground (arith, fresh, set_writer_dooms n.host.role d page n.host.node_id node v)
