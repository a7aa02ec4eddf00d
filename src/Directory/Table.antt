-- ===== src/Directory/Table.antt =====
-- src/consistency/directory.c: the hash table as a map from pages to entries. Each lemma gives the
-- entry that `find_entry` returns for any page after one change of the table.
use mathlib.Core.Option
use user_level_dsm.Directory.{
  Directory, find_chain, find_entry, directory_create, find_or_create_entry, set_chain, Entry,
  hash_page_id, fresh_entry, chain_of, modify_entry, entry_of, insert_entry, unlink_entry,
  directory_lookup,
}
use user_level_dsm.Prelude.{
  List, Bool, ℕ, length, [], IsDistinct, map, ◌≡◌, ◌≢◌, ◌∷◌, ◌<◌, get_or-set_self, get_or, arith,
  get_or-set_ne, some, none, sym, get_or-replicate, ◌%◌, ◌==◌, suc, if◌then◌else◌, refl, eq-cases,
  false, ==_ne, Option-cases, inl, inr, ◌∙◌, ap, ==_refl, ◌⊎◌, zero, true,
}
use user_level_dsm.Directory.Chain.{
  KeepsPage, pages, find_chain-map, find_chain_page, find_chain-unlink, find_chain-modify_chain,
}
use user_level_dsm.Types.{success}

-- The table has as many buckets as it says, and at least one.
pub record IsSized (d : Directory) : Type 0 where
  pub size_eq : length d.buckets ≡ d.table_size
  pub size_pos : 0 < d.table_size

pub hash-lt : (d : Directory) (p : ℕ) → IsSized d → hash_page_id p d.table_size < length d.buckets
hash-lt d p s = omega arith

abbrev pub slot : Directory → ℕ → ℕ
slot d p = hash_page_id p d.table_size

-- A new chain is seen by the pages of its bucket and by no other page.
pub find_entry-set_chain :
    (d : Directory) (p q : ℕ) (es : List Entry)
    → IsSized d
    → slot d p ≡ slot d q
    → find_entry (set_chain d p es) q ≡ find_chain q es
unfolding find_entry
find_entry-set_chain d p q es s e =
    rw (← e) (rw (get_or-set_self d.buckets (slot d p) es [] (hash-lt d p s)))

pub find_entry-set_chain_ne :
    (d : Directory) (p q : ℕ) (es : List Entry)
    → slot d p ≢ slot d q
    → find_entry (set_chain d p es) q ≡ find_entry d q
unfolding find_entry
find_entry-set_chain_ne d p q es ne = rw (get_or-set_ne d.buckets (slot d p) (slot d q) es [] ne)

pub find_entry_page : (d : Directory) (p : ℕ) (e : Entry) → find_entry d p ≡ some e → e.page_id ≡ p
unfolding find_entry
find_entry_page d p e h = find_chain_page p (chain_of d p) e h

find_entry_same :
    (d : Directory) (p q : ℕ) → slot d p ≡ slot d q → find_chain q (chain_of d p) ≡ find_entry d q
unfolding find_entry
find_entry_same d p q e = rw e

slot-ne : (d : Directory) (p q : ℕ) → slot d p ≢ slot d q → (p == q) ≡ false
slot-ne d p q ne = ==_ne p q (λ e. ne (ap (slot d) e))

-- A write to the entry of `p` is seen at `p` alone.
pub find_entry-modify_entry :
    (d : Directory) (p q : ℕ) (f : Entry → Entry)
    → IsSized d
    → KeepsPage f
    → find_entry (modify_entry d p f) q
      ≡ (if p == q then Option.map f (find_entry d q) else find_entry d q)
unfolding modify_entry
find_entry-modify_entry d p q f s k = elim (eq-cases (slot d p) (slot d q)) [
  | inl e ↦
      find_entry-set_chain d p q _ s e
      ∙ find_chain-modify_chain p q f (chain_of d p) k
      ∙ rw (find_entry_same d p q e)
  | inr ne ↦ find_entry-set_chain_ne d p q _ ne ∙ rw (slot-ne d p q ne)
]

pub find_entry-unlink_entry :
    (d : Directory) (p q : ℕ)
    → IsSized d
    → IsDistinct (pages (chain_of d p))
    → find_entry (unlink_entry d p) q ≡ (if p == q then none else find_entry d q)
unfolding find_entry
find_entry-unlink_entry d p q s u = elim (eq-cases (slot d p) (slot d q)) [
  | inl e ↦
      find_entry-set_chain d p q _ s e
      ∙ find_chain-unlink p q (chain_of d p) u
      ∙ rw (find_entry_same d p q e)
  | inr ne ↦ find_entry-set_chain_ne d p q _ ne ∙ rw (slot-ne d p q ne)
]

find_entry-insert :
    (d : Directory) (p q : ℕ)
    → IsSized d
    → find_entry (insert_entry d p) q ≡ (if p == q then some (fresh_entry p) else find_entry d q)
unfolding find_entry find_chain
find_entry-insert d p q s = elim (eq-cases (slot d p) (slot d q)) [
  | inl e ↦ find_entry-set_chain d p q _ s e ∙ rw (find_entry_same d p q e)
  | inr ne ↦ find_entry-set_chain_ne d p q _ ne ∙ rw (slot-ne d p q ne)
]

-- What a successful `find_or_create_entry` has done.
pub create-cases :
    (alloc : Bool) (d d' : Directory) (p : ℕ)
    → find_or_create_entry alloc d p ≡ some d'
    → ((e : Entry) × (find_entry d p ≡ some e) × (d' ≡ d))
      ⊎ ((find_entry d p ≡ none) × (alloc ≡ true) × (d' ≡ insert_entry d p))
unfolding find_or_create_entry
create-cases alloc d d' p h = elim (Option-cases (find_entry d p)) [
  | inl e ↦ inr (e, ground (arith, e), ground (arith, e))
  | inr (x, e) ↦ inl (x, e, ground (arith, e))
]

-- The entry that is made on demand is seen at its page alone.
pub find_entry-create :
    (alloc : Bool) (d d' : Directory) (p q : ℕ)
    → IsSized d
    → find_or_create_entry alloc d p ≡ some d'
    → find_entry d' q ≡ (if p == q then some (entry_of d p) else find_entry d q)
find_entry-create alloc d d' p q s h = elim (create-cases alloc d d' p h) [
  | inl (x, e, same) ↦ rw same (rw (e, entry_of) (found x e))
  | inr (e, _, made) ↦ rw made (rw (e, entry_of) (find_entry-insert d p q s))
]
  where
    found :
        (x : Entry)
        → find_entry d p ≡ some x
        → find_entry d q ≡ (if p == q then some x else find_entry d q)
    found x e = elim (eq-cases p q) [ inl pq ↦ rw (← pq, ==_refl p) e | inr ne ↦ rw (==_ne p q ne) ]

get_or-map {ℓ κ} :
    {A : Type ℓ} {B : Type κ} (f : List A → List B) (xs : List (List A)) (i : ℕ)
    → f [] ≡ []
    → get_or (map f xs) i [] ≡ f (get_or xs i [])
get_or-map f [] i h = sym h
get_or-map f (x ∷ xs) zero h = refl
get_or-map f (x ∷ xs) (suc i) h = get_or-map f xs i h

-- A pass over all entries changes each of them once.
pub find_entry-map :
    (d : Directory) (q : ℕ) (f : Entry → Entry)
    → KeepsPage f
    → find_entry (record d { buckets = map (map f) d.buckets }) q ≡ Option.map f (find_entry d q)
unfolding find_entry
find_entry-map d q f k =
    rw (get_or-map (map f) d.buckets (slot d q) refl) (find_chain-map q f (chain_of d q) k)

-- A new directory tracks no page.
pub find_entry-directory_create : (n p : ℕ) → find_entry (directory_create n) p ≡ none
unfolding find_entry directory_create find_chain
find_entry-directory_create n p = rw (get_or-replicate {A = List Entry} n (p % n) [])

-- A lookup of a page with an entry reads its owner and leaves the table as it is.
pub lookup_present :
    (alloc : Bool) (d : Directory) (p : ℕ) (e : Entry)
    → find_entry d p ≡ some e
    → directory_lookup alloc d p ≡ (success, some e.owner, d)
unfolding directory_lookup find_or_create_entry
lookup_present alloc d p e h = ground (arith, h)
