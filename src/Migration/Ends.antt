-- ===== src/Migration/Ends.antt =====
-- src/consistency/page_migration.c: a fetch of a page ends.
use mathlib.Core.Option
use user_level_dsm.Migration.{woken, timed_out, FetchWake, Fetcher, await}
use user_level_dsm.Migration.Write.{
  await_invalid, claim_page, write_attempt, obtain_page, write_from, collect_sharers,
  fetch_page_write, has_sharers, stop_acks, is_acked, cleared, write_answer,
}
use user_level_dsm.Migration.Fetch.{
  wait_in_queue, wait_for_manager_reconnection, Attempt, retry_loop, lookup_failed, fetch_page,
  Poll, max_retries, Ending, entry_now, at_entry, leave_queue, is_timeout, is_arrived, in_time,
  pending, manager_failed, has_promoted, too_late, done, retry,
}
use user_level_dsm.Prelude.{
  List, Option, some, Bool, none, if◌then◌else◌, ◌≡◌, ℕ, false, ◌==◌, refl, Option-cases, true, ◌∷◌,
  ◌||◌, inl, ◌≤◌, length, inr, ◌&&◌, not, [], All, suc, Bool-cases, arith, zero,
}
use user_level_dsm.Migration.Read.{
  fetch_page_read, read_attempt, read_from, request_read, read_answer,
}
use user_level_dsm.Migration.Queries.{query_directory_manager, take_reply, is_answered}
use user_level_dsm.PageTable.{PageEntry}
use user_level_dsm.Types.{Status, is_success}
use user_level_dsm.Coherence.{has_tables, find_page}

-- An optional result that is there.
abbrev pub Ends {ℓ} : {A : Type ℓ} → Option A → Type ℓ
Ends {A} o = (a : A) × (o ≡ some a)

abbrev pub has_timeout : List FetchWake → Bool
has_timeout [] = false
has_timeout (woken n ∷ ws) = has_timeout ws
has_timeout (timed_out n ∷ ws) = true

abbrev pub has_limit : List Poll → Bool
has_limit [] = false
has_limit (in_time n ∷ ps) = has_limit ps
has_limit (too_late ∷ ps) = true

-- Each wait of an attempt meets its time-out, at the latest.
pub record IsBounded (s : Attempt) : Type 0 where
  pub query : has_timeout s.query_wakes ≡ true
  pub polled : has_limit s.polls ≡ true
  pub queued : has_timeout s.queued_wakes ≡ true
  pub page : has_timeout s.page_wakes ≡ true
  pub sharers : has_timeout s.sharer_wakes ≡ true
  pub acks : has_timeout s.ack_wakes ≡ true

pub Ends-some {ℓ} : {A : Type ℓ} (a : A) → Ends (some a)
Ends-some a = (a, refl)

pub Ends-map {ℓ κ} :
    {A : Type ℓ} {B : Type κ} (f : A → B) (o : Option A) → Ends o → Ends (Option.map f o)
Ends-map f o (a, e) = (f a, rw e)

pub Ends-if {ℓ} :
    {A : Type ℓ} (b : Bool) (o p : Option A) → Ends o → Ends p → Ends (if b then o else p)
Ends-if true o p ho hp = ho
Ends-if false o p ho hp = hp

pub Ends-bind {ℓ κ} :
    {A : Type ℓ} {B : Type κ} (o : Option A) (f : A → Option B)
    → Ends o
    → ((a : A) → Ends (f a))
    → Ends {A = B} (elim o [ none ↦ none | some a ↦ f a ])
Ends-bind none f (a, e) h = cc
Ends-bind (some a) f e h = h a

await-Ends :
    (test : Fetcher → Bool) (n : Fetcher) (ws : List FetchWake)
    → has_timeout ws ≡ true
    → Ends (await test n ws)
unfolding await
await-Ends test n [] h = cc
await-Ends test n (woken m ∷ ws) h =
    Ends-if (test n) (some (true, n)) _ (Ends-some (true, n)) (await-Ends test m ws h)
await-Ends test n (timed_out m ∷ ws) h =
    Ends-if (test n) (some (true, n)) (some (false, m)) (Ends-some (true, n)) (Ends-some (false, m))

query-Ends :
    (alloc : Bool) (code : Status) (n : Fetcher) (page : ℕ) (ws : List FetchWake)
    → has_timeout ws ≡ true
    → Ends (query_directory_manager alloc code n page ws)
unfolding query_directory_manager
query-Ends alloc code n page ws h =
    Ends-if (n.host.role.is_manager || n.host.role.is_promoted) _ _ (_, refl)
      (Ends-if (is_success code) _ _ (Ends-map take_reply _ (await-Ends is_answered _ ws h))
        (_, refl))

reconnect-Ends :
    (n : Fetcher) (ps : List Poll) → has_limit ps ≡ true → Ends (wait_for_manager_reconnection n ps)
unfolding wait_for_manager_reconnection
reconnect-Ends n [] h = cc
reconnect-Ends n (too_late ∷ ps) h = (_, refl)
reconnect-Ends n (in_time m ∷ ps) h =
    Ends-if (not (manager_failed m) || has_promoted m) _ _ (_, refl) (reconnect-Ends m ps h)

lookup_failed-Ends :
    (n : Fetcher) (code : Status) (ps : List Poll)
    → has_limit ps ≡ true
    → Ends (lookup_failed n code ps)
unfolding lookup_failed
lookup_failed-Ends n code ps h =
    Ends-if (is_timeout code && manager_failed n) _ _
      (Ends-bind (wait_for_manager_reconnection n ps) _ (reconnect-Ends n ps h)
        (λ r. Ends-if (is_success r.0) _ _ (_, refl) (_, refl)))
      (_, refl)

queue-Ends :
    (n : Fetcher) (page : ℕ) (e : PageEntry) (ws : List FetchWake)
    → has_timeout ws ≡ true
    → Ends (wait_in_queue n page e ws)
unfolding wait_in_queue
queue-Ends n page e ws h = Ends-map (leave_queue page e) _ (await-Ends (is_arrived page e) _ ws h)

read_from-Ends :
    (s : Attempt) (owner page : ℕ) (e : PageEntry) (n : Fetcher)
    → IsBounded s
    → Ends (read_from s owner page e n)
unfolding read_from request_read
read_from-Ends s owner page e n b =
    Ends-if (owner == n.host.node_id) _ _ (_, refl)
      (Ends-if (entry_now n page e).request_pending _ _
        (queue-Ends n page e s.queued_wakes b.queued)
        (Ends-if (is_success s.env.send_code) _ _
          (Ends-map (read_answer s owner page e) _
            (await-Ends (is_arrived page e) _ s.page_wakes b.page))
          (_, refl)))

read_attempt-Ends :
    (page : ℕ) (e : PageEntry) (s : Attempt) (n : Fetcher)
    → IsBounded s
    → Ends (read_attempt page e s n)
unfolding read_attempt
read_attempt-Ends page e s n b =
    Ends-bind (query_directory_manager s.env.alloc s.query_code n page s.query_wakes) _
      (query-Ends s.env.alloc s.query_code n page s.query_wakes b.query)
      (λ r.
        Ends-if (is_success r.0) _ _ (read_from-Ends s r.1 page e r.2 b)
          (lookup_failed-Ends r.2 r.0 s.polls b.polled))

collect-Ends :
    (s : Attempt) (owner page : ℕ) (n : Fetcher)
    → IsBounded s
    → Ends (collect_sharers s owner page n)
unfolding collect_sharers
collect-Ends s owner page n b =
    Ends-if (owner == n.host.node_id) _ _ (_, refl)
      (Ends-if (is_success s.sharer_code) _ _
        (Ends-map _ _ (await-Ends has_sharers _ s.sharer_wakes b.sharers)) (_, refl))

invalid-Ends :
    (page : ℕ) (e : PageEntry) (ts : List ℕ) (ws : List FetchWake) (n : Fetcher)
    → has_timeout ws ≡ true
    → Ends (await_invalid page e ts ws n)
unfolding await_invalid
invalid-Ends page e [] ws n h = (_, refl)
invalid-Ends page e (t ∷ ts) ws n h =
    Ends-map (stop_acks page) _ (await-Ends (is_acked page e) n ws h)

obtain-Ends :
    (s : Attempt) (owner page : ℕ) (e : PageEntry) (n : Fetcher)
    → IsBounded s
    → Ends (obtain_page s owner page e n)
unfolding obtain_page
obtain-Ends s owner page e n b =
    Ends-if (owner == n.host.node_id) _ _ (_, refl)
      (Ends-if (is_success s.env.send_code) _ _
        (Ends-map (write_answer s owner page e) _
          (await-Ends (is_arrived page e) _ s.page_wakes b.page))
        (_, refl))

claim-Ends :
    (s : Attempt) (owner page : ℕ) (e : PageEntry) (known : List ℕ) (n : Fetcher)
    → IsBounded s
    → Ends (claim_page s owner page e known n)
unfolding claim_page
claim-Ends s owner page e known n b = elim (Option-cases n.host.directory) [
  | inl d ↦ rw (d, claim_page) (_, refl)
  | inr (d, h) ↦
      rw (h, claim_page)
        (Ends-if _ _ _
          (Ends-bind _ _ (invalid-Ends page e _ s.ack_wakes _ b.acks)
            (λ m. obtain-Ends s owner page e (cleared page m) b))
          (_, refl))
]

write_from-Ends :
    (s : Attempt) (owner page : ℕ) (e : PageEntry) (n : Fetcher)
    → IsBounded s
    → Ends (write_from s owner page e n)
unfolding write_from
write_from-Ends s owner page e n b =
    Ends-if (entry_now n page e).request_pending _ _ (queue-Ends n page e s.queued_wakes b.queued) (
      Ends-bind (collect_sharers s owner page (at_entry page pending n)) _
        (collect-Ends s owner page (at_entry page pending n) b)
        (λ r. claim-Ends s owner page e r.0 r.1 b))

write_attempt-Ends :
    (page : ℕ) (e : PageEntry) (s : Attempt) (n : Fetcher)
    → IsBounded s
    → Ends (write_attempt page e s n)
unfolding write_attempt
write_attempt-Ends page e s n b =
    Ends-bind (query_directory_manager s.env.alloc s.query_code n page s.query_wakes) _
      (query-Ends s.env.alloc s.query_code n page s.query_wakes b.query)
      (λ r.
        Ends-if (is_success r.0) _ _ (write_from-Ends s r.1 page e r.2 b)
          (lookup_failed-Ends r.2 r.0 s.polls b.polled))

after-Ends :
    (attempt : Attempt → Fetcher → Option Ending) (k : ℕ) (s : Attempt) (ss : List Attempt)
    (n : Fetcher)
    → ((m : Fetcher) → Ends (retry_loop attempt k ss m))
    → (r : Ending) → attempt s n ≡ some r
    → Ends (retry_loop attempt (suc k) (s ∷ ss) n)
unfolding retry_loop
after-Ends attempt k s ss n h (done code m) e = ((code, m), rw (e, retry_loop))
after-Ends attempt k s ss n h (retry m) e = rw (e, retry_loop) (h m)

loop-Ends :
    (attempt : Attempt → Fetcher → Option Ending) (k : ℕ) (ss : List Attempt) (n : Fetcher)
    → ((s : Attempt) (m : Fetcher) → IsBounded s → Ends (attempt s m))
    → k ≤ length ss
    → All IsBounded ss
    → Ends (retry_loop attempt k ss n)
unfolding retry_loop
loop-Ends attempt zero ss n h le b = (_, refl)
loop-Ends attempt (suc k) [] n h le b = absurd (omega arith)
loop-Ends attempt (suc k) (s ∷ ss) n h le b =
    let (r, e) = h s n b.0 in
    after-Ends attempt k s ss n (λ m. loop-Ends attempt k ss m h (omega arith) b.1) r e

fetch_page-Ends :
    (attempt : PageEntry → Attempt → Fetcher → Option Ending) (page : ℕ) (ss : List Attempt)
    (n : Fetcher)
    → ((e : PageEntry) (s : Attempt) (m : Fetcher) → IsBounded s → Ends (attempt e s m))
    → max_retries ≤ length ss
    → All IsBounded ss
    → Ends (fetch_page attempt page ss n)
unfolding fetch_page
fetch_page-Ends attempt page ss n h le b = elim (Option-cases n.host.directory) [
  | inl d ↦ rw (d, fetch_page) (_, refl)
  | inr (d, hd) ↦ elim (Bool-cases (has_tables n.host)) [
    | inl some_tables ↦ elim (Option-cases (find_page n.host.page_tables page)) [
      | inl missing ↦ rw (hd, fetch_page) (rw some_tables (rw missing (_, refl)))
      | inr (e, found) ↦
          rw (hd, fetch_page)
            (rw some_tables (rw found (loop-Ends (attempt e) max_retries ss n (h e) le b)))
    ]
    | inr no_tables ↦ rw (hd, fetch_page) (rw no_tables (_, refl))
  ]
]

-- Given three attempts in which each wait meets its time-out at the latest, a fetch of a page ends,
-- for reading and for writing, whatever the node, the answers and the wake-ups: no wait is without a
-- limit, and there is no fourth attempt.
pub fetch-Ends :
    (page : ℕ) (ss : List Attempt) (n : Fetcher)
    → max_retries ≤ length ss
    → All IsBounded ss
    → Ends (fetch_page_read page ss n) × Ends (fetch_page_write page ss n)
unfolding fetch_page_read fetch_page_write
fetch-Ends page ss n le b = (
  fetch_page-Ends (read_attempt page) page ss n (read_attempt-Ends page) le b,
  fetch_page-Ends (write_attempt page) page ss n (write_attempt-Ends page) le b,
)
