-- ===== src/Migration/Skipped.antt =====
-- src/consistency/page_migration.c: a second attempt to fetch a page for writing on the manager.
use user_level_dsm.Migration.{Fetcher}
use user_level_dsm.Migration.Queries.{with_directory}
use user_level_dsm.Types.{success, no_node, is_success}
use user_level_dsm.Migration.Write.{
  one_less_ack, expects_acks, write_attempt, write_from, asked_sharers, asking_sharers,
  fetch_page_write,
}
use user_level_dsm.Prelude.{ℕ, true, ◌≡◌, [], some, arith, ◌≢◌, List, refl, ◌∷◌, ◌∙◌, false}
use user_level_dsm.PageTable.{PageEntry}
use user_level_dsm.Coherence.Spaces.{found_has_tables}
use user_level_dsm.Migration.Fetch.{
  at_entry, Attempt, retry, with_result, pending, done, fetch_page, retry_loop,
}
use user_level_dsm.Migration.Doomed.{is_reached}
use user_level_dsm.Migration.Known.{
  written, Serves, entry_now_here, at_entry-Serves, clears, claims, cleared_of, query_known,
}
use user_level_dsm.Migration.Claims.{
  tracker-Serves, reclaimed_own, collect_unsent, upgraded, collect_own, claimed, claimed-Serves,
  claim_own, claim_unreached, obtain_own, obtain_unsent,
}

-- What an attempt leaves alone.
pub record SameBytes (n m : Fetcher) : Type 0 where
  pub memory : m.host.memory ≡ n.host.memory
  pub sent : m.sent ≡ n.sent
  pub node : m.host.node_id ≡ n.host.node_id
  pub fetched : m.pages_fetched ≡ n.pages_fetched

-- A first attempt with none of its messages taken by the network.
first_attempt :
    (s : Attempt) (n : Fetcher) (page owner : ℕ) (e e' : PageEntry)
    → Serves n page owner e
    → e.request_pending ≡ false
    → s.env.alloc ≡ true
    → owner ≢ n.host.node_id
    → owner ≢ no_node
    → is_reached s.invalidate_codes n owner ≡ false
    → is_success s.sharer_code ≡ false
    → is_success s.env.send_code ≡ false
    → (m : Fetcher) × (write_attempt page e' s n ≡ some (retry m))
      × Serves m page n.host.node_id
          (with_result s.env.send_code (one_less_ack (expects_acks 1 (pending e))))
      × SameBytes n m
unfolding write_attempt write_from
first_attempt s n page owner e e' v idle ha ne nn un hs hp =
    let me = n.host.node_id in
    let n0 = at_entry page pending n in
    let n1 = asked_sharers (asking_sharers page n0) in
    let v0 = at_entry-Serves n page owner e pending (λ x. (refl, refl)) v in
    let v1 = tracker-Serves n0 page owner (pending e) n1.sharer_tracker v0 in
    let (others, collected) = collect_unsent s owner page n0 ne hs in
    let n2 = claimed n1 v1.directory page in
    let v2 = claimed-Serves n1 page owner (pending e) v1 in
    let e2 = one_less_ack (expects_acks 1 (pending e)) in
    let c = clears n2 page me e2 v2 in
    let n3 = cleared_of n2 page v2.directory in
    let m = at_entry page (with_result s.env.send_code) n3 in
    let v3 : Serves n3 page me e2 = rw⁻¹ c.0 c.1 in
    (
      m,
      ground (
        arith,
        ha,
        query_known n page owner e s.query_code s.query_wakes v,
        entry_now_here n page owner e e' v,
        idle,
        collected,
        claim_unreached s n1 page owner (pending e) e' others v1 ha ne nn un,
        c.0,
        obtain_unsent s owner page e' n3 ne hp,
      ),
      at_entry-Serves n3 page me e2 (with_result s.env.send_code) (λ x. (refl, refl)) v3,
      record { memory = refl; sent = refl; node = refl; fetched = refl },
    )

-- An attempt on a manager that is the owner by its own directory.
second_attempt :
    (s : Attempt) (n : Fetcher) (page : ℕ) (e e' : PageEntry)
    → Serves n page n.host.node_id e
    → e.request_pending ≡ false
    → s.env.alloc ≡ true
    → s.env.protects ≡ true
    → e'.local_addr ≡ e.local_addr
    → (m : Fetcher) × (write_attempt page e' s n ≡ some (done success m)) × SameBytes n m
unfolding write_attempt write_from
second_attempt s n page e e' v idle ha hp same =
    let me = n.host.node_id in
    let n0 = at_entry page pending n in
    let v0 = at_entry-Serves n page me e pending (λ x. (refl, refl)) v in
    let n1 = with_directory (written n.host.role v0.directory page me) n0 in
    let n2 = reclaimed_own n0 v0.directory page in
    let e2 = expects_acks 0 (pending e) in
    let v2 : Serves n2 page me e2 =
      at_entry-Serves n1 page me (pending e) (expects_acks 0) (λ x. (refl, refl))
        (claims n0 page me (pending e) v0) in
    let c = clears n2 page me e2 v2 in
    let n3 = cleared_of n2 page v2.directory in
    let v3 : Serves n3 page me e2 = rw⁻¹ c.0 c.1 in
    (
      upgraded n3 page e.local_addr,
      ground (
        arith,
        ha,
        query_known n page me e s.query_code s.query_wakes v,
        entry_now_here n page me e e' v,
        idle,
        collect_own s page n0,
        claim_own s n0 page (pending e) e' [] v0 ha,
        c.0,
        obtain_own s n3 page e2 e' v3 hp same,
      ),
      record { memory = refl; sent = refl; node = refl; fetched = refl },
    )

-- On a manager whose directory has another node as the owner of a page and no readers, when none of
-- the messages of the first attempt is taken by the network, the second attempt succeeds if
-- `mprotect` does: the first has made the manager the owner in its own directory, so the second finds
-- nothing to fetch. `fetch_page_write` returns success, no byte of any page has changed, and no
-- message has been sent.
pub retry_skips_fetch :
    (page owner : ℕ) (first second : Attempt) (rest : List Attempt) (n : Fetcher) (e : PageEntry)
    → Serves n page owner e
    → e.request_pending ≡ false
    → owner ≢ n.host.node_id
    → owner ≢ no_node
    → first.env.alloc ≡ true
    → is_reached first.invalidate_codes n owner ≡ false
    → is_success first.sharer_code ≡ false
    → is_success first.env.send_code ≡ false
    → second.env.alloc ≡ true
    → second.env.protects ≡ true
    → (m : Fetcher) × (fetch_page_write page (first ∷ second ∷ rest) n ≡ some (success, m))
      × SameBytes n m
unfolding fetch_page_write fetch_page retry_loop
retry_skips_fetch page owner first second rest n e v idle ne nn ha un hs hp ha' hp' =
    let (m1, a1, v1, b1) = first_attempt first n page owner e e v idle ha ne nn un hs hp in
    let own : Serves m1 page m1.host.node_id
        (with_result first.env.send_code (one_less_ack (expects_acks 1 (pending e)))) =
      rw b1.node v1 in
    let (m2, a2, b2) = second_attempt second m1 page _ e own refl ha' hp' refl in
    (
      m2,
      ground (arith, v.known, found_has_tables n.host page e v.here, v.here, a1, a2),
      record {
        memory = b2.memory ∙ b1.memory;
        sent = b2.sent ∙ b1.sent;
        node = b2.node ∙ b1.node;
        fetched = b2.fetched ∙ b1.fetched;
      },
    )
