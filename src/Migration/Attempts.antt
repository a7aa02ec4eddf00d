-- ===== src/Migration/Attempts.antt =====
-- src/consistency/page_migration.c: a fetch makes three attempts at most.
use user_level_dsm.Migration.Fetch.{
  Attempt, Ending, fetch_page, retry_loop, done, retry, max_retries,
}
use user_level_dsm.Migration.Read.{fetch_page_read, read_attempt}
use user_level_dsm.Migration.Write.{fetch_page_write, write_attempt}
use user_level_dsm.Migration.{Fetcher}
use user_level_dsm.PageTable.{PageEntry}
use user_level_dsm.Coherence.{has_tables, find_page}
use user_level_dsm.Types.{Status}
use user_level_dsm.Prelude.{
  ℕ, List, Option, none, some, ◌≡◌, ◌≤◌, length, ◌++◌, zero, suc, [], ◌∷◌, refl, arith, Bool-cases,
  Option-cases, inl, inr,
}

next_same :
    (o : Option Ending) (f g : Fetcher → Option (Status × Fetcher))
    → ((m : Fetcher) → f m ≡ g m)
    → ◌≡◌ {A = Option (Status × Fetcher)}
        (elim o [ none ↦ none | some (done code m) ↦ some (code, m) | some (retry m) ↦ f m ])
        (elim o [ none ↦ none | some (done code m) ↦ some (code, m) | some (retry m) ↦ g m ])
next_same none f g h = refl
next_same (some (done code m)) f g h = refl
next_same (some (retry m)) f g h = h m

loop_cut :
    (attempt : Attempt → Fetcher → Option Ending) (k : ℕ) (ss more : List Attempt) (n : Fetcher)
    → k ≤ length ss
    → retry_loop attempt k (ss ++ more) n ≡ retry_loop attempt k ss n
unfolding retry_loop
loop_cut attempt zero ss more n le = refl
loop_cut attempt (suc k) [] more n le = absurd (omega arith)
loop_cut attempt (suc k) (s ∷ ss) more n le =
    next_same (attempt s n) (retry_loop attempt k (ss ++ more)) (retry_loop attempt k ss)
      (λ m. loop_cut attempt k ss more m (omega arith))

fetch_cut :
    (attempt : PageEntry → Attempt → Fetcher → Option Ending) (page : ℕ) (ss more : List Attempt)
    (n : Fetcher)
    → 3 ≤ length ss
    → fetch_page attempt page (ss ++ more) n ≡ fetch_page attempt page ss n
unfolding fetch_page
fetch_cut attempt page ss more n le = elim (Option-cases n.host.directory) [
  | inl d ↦ rw (d, fetch_page) refl
  | inr (d, hd) ↦ elim (Bool-cases (has_tables n.host)) [
    | inl some_tables ↦ elim (Option-cases (find_page n.host.page_tables page)) [
      | inl missing ↦ rw (hd, fetch_page) (rw some_tables (rw missing refl))
      | inr (e, found) ↦
          rw (hd, fetch_page)
            (rw some_tables (rw found (loop_cut (attempt e) max_retries ss more n le)))
    ]
    | inr no_tables ↦ rw (hd, fetch_page) (rw no_tables refl)
  ]
]

pub read_cut :
    (page : ℕ) (ss more : List Attempt) (n : Fetcher)
    → 3 ≤ length ss
    → fetch_page_read page (ss ++ more) n ≡ fetch_page_read page ss n
unfolding fetch_page_read
read_cut page ss more n le = fetch_cut (read_attempt page) page ss more n le

pub write_cut :
    (page : ℕ) (ss more : List Attempt) (n : Fetcher)
    → 3 ≤ length ss
    → fetch_page_write page (ss ++ more) n ≡ fetch_page_write page ss n
unfolding fetch_page_write
write_cut page ss more n le = fetch_cut (write_attempt page) page ss more n le
