-- ===== src/Directory/Valid.antt =====
-- src/consistency/directory.c: the invariant of the hash table, and what one changed chain does to
-- it. The operations are in `History`.
use user_level_dsm.Directory.{
  modify_chain, Entry, Directory, modify_entry, hash_page_id, chain_of, max_sharers, set_chain,
  find_chain, find_entry, unlink, insert_entry, fresh_entry, find_or_create_entry, entry_of,
  unlink_entry,
}
use native.Mathlib.Nat.{zero-add}
use mathlib.Core.Path.{subst}
use user_level_dsm.Prelude.{
  List, ℕ, length, All, ◌∷◌, ◌<◌, ◌≤◌, set, ◌+◌, Bool-cases, ◌≡◌, IsDistinct, ◌==◌, [], arith,
  AllFrom, get_or, AllFrom-get_or, refl, inl, length-set, suc, zero, inr, AllFrom-set, none, some,
  ◌-◌, map, length-map, Bool,
}
use user_level_dsm.Directory.Chain.{
  KeepsPage, pages-modify_chain, pages, pages-unlink-IsDistinct, absent-find_chain, pages-map,
}
use user_level_dsm.Directory.Table.{IsSized, slot, create-cases, find_entry-create}

-- At most `MAX_SHARERS` sharers, none twice.
pub record IsEntry (e : Entry) : Type 0 where
  pub fits : length e.sharers ≤ max_sharers
  pub once : IsDistinct e.sharers

-- Chain `i` of a table of `n` buckets.
pub record IsChain (n i : ℕ) (es : List Entry) : Type 0 where
  pub placed : All (λ (e : Entry). hash_page_id e.page_id n ≡ i) es
  pub once : IsDistinct (pages es)
  pub entries : All IsEntry es

-- The number of entries in all chains.
abbrev pub total : List (List Entry) → ℕ
total [] = 0
total (es ∷ cs) = length es + total cs

pub record IsValid (d : Directory) : Type 0 where
  pub size_eq : length d.buckets ≡ d.table_size
  pub size_pos : 0 < d.table_size
  pub chains : AllFrom (IsChain d.table_size) 0 d.buckets
  pub counted : d.num_entries ≡ total d.buckets

pub IsValid-IsSized : (d : Directory) → IsValid d → IsSized d
IsValid-IsSized d v = record { size_eq = v.size_eq; size_pos = v.size_pos }

pub chain_of-IsChain :
    (d : Directory) (p : ℕ) → IsValid d → IsChain d.table_size (slot d p) (chain_of d p)
chain_of-IsChain d p v =
    rw zero-add at
      (AllFrom-get_or (IsChain d.table_size) 0 (slot d p) d.buckets [] v.chains (omega arith))

total-set :
    (cs : List (List Entry)) (i : ℕ) (es : List Entry)
    → i < length cs
    → total (set cs i es) + length (get_or cs i []) ≡ total cs + length es
total-set [] i es h = absurd (omega arith)
total-set (c ∷ cs) zero es h = omega arith
total-set (c ∷ cs) (suc i) es h = omega (arith, total-set cs i es)

length-chain-le : (cs : List (List Entry)) (i : ℕ) → length (get_or cs i []) ≤ total cs
length-chain-le [] i = omega arith
length-chain-le (c ∷ cs) zero = omega arith
length-chain-le (c ∷ cs) (suc i) = omega (arith, length-chain-le cs i)

-- One changed chain, with the count of entries changed to match.
pub IsValid-update :
    (d : Directory) (p n : ℕ) (es : List Entry)
    → IsValid d
    → IsChain d.table_size (slot d p) es
    → n + length (chain_of d p) ≡ d.num_entries + length es
    → IsValid (record {
      buckets = (set_chain d p es).buckets;
      table_size = d.table_size;
      num_entries = n;
    })
IsValid-update d p n es v c h = record {
  size_eq = omega (arith, length-set d.buckets (slot d p) es);
  size_pos = v.size_pos;
  chains = AllFrom-set (IsChain d.table_size) 0 (slot d p) d.buckets es v.chains (rw zero-add c);
  counted = omega (arith, total-set d.buckets (slot d p) es (omega arith));
}

-- A change that keeps the page of every entry, and keeps every entry well formed.
pub record KeepsAll (f : Entry → Entry) : Type 0 where
  pub page : KeepsPage f
  pub entry : (e : Entry) → IsEntry e → IsEntry (f e)

length-modify_chain :
    (p : ℕ) (f : Entry → Entry) (es : List Entry) → length (modify_chain p f es) ≡ length es
unfolding modify_chain
length-modify_chain p f [] = refl
length-modify_chain p f (x ∷ es) = ground (arith, length-modify_chain p f es)

modify_chain-IsEntry :
    (p : ℕ) (f : Entry → Entry) (es : List Entry)
    → ((e : Entry) → find_chain p es ≡ some e → IsEntry e → IsEntry (f e))
    → All IsEntry es
    → All IsEntry (modify_chain p f es)
unfolding find_chain modify_chain
modify_chain-IsEntry p f [] k h = tt
modify_chain-IsEntry p f (x ∷ es) k h = elim (Bool-cases (x.page_id == p)) [
  | inl e ↦ rw e (k x (rw e) h.0, h.1)
  | inr e ↦ rw e (h.0, modify_chain-IsEntry p f es (λ y found. k y (rw e found)) h.1)
]

modify_chain-placed :
    (p n i : ℕ) (f : Entry → Entry) (es : List Entry)
    → KeepsPage f
    → All (λ (e : Entry). hash_page_id e.page_id n ≡ i) es
    → All (λ (e : Entry). hash_page_id e.page_id n ≡ i) (modify_chain p f es)
unfolding modify_chain
modify_chain-placed p n i f [] k h = tt
modify_chain-placed p n i f (x ∷ es) k h = elim (Bool-cases (x.page_id == p)) [
  | inl e ↦ rw e (rw (k x) h.0, h.1)
  | inr e ↦ rw e (h.0, modify_chain-placed p n i f es k h.1)
]

pub modify_entry-IsValid :
    (d : Directory) (p : ℕ) (f : Entry → Entry)
    → KeepsPage f
    → ((e : Entry) → find_entry d p ≡ some e → IsEntry e → IsEntry (f e))
    → IsValid d
    → IsValid (modify_entry d p f)
unfolding find_entry modify_entry
modify_entry-IsValid d p f k keeps v =
    IsValid-update d p d.num_entries (modify_chain p f (chain_of d p)) v
      (record {
        placed = modify_chain-placed p d.table_size (slot d p) f (chain_of d p) k c.placed;
        once = rw (pages-modify_chain p f (chain_of d p) k) c.once;
        entries = modify_chain-IsEntry p f (chain_of d p) keeps c.entries;
      })
      (omega (arith, length-modify_chain p f (chain_of d p)))
  where
    c : IsChain d.table_size (slot d p) (chain_of d p)
    c = chain_of-IsChain d p v

pub insert_entry-IsValid :
    (d : Directory) (p : ℕ) → find_entry d p ≡ none → IsValid d → IsValid (insert_entry d p)
unfolding find_entry
insert_entry-IsValid d p h v =
    IsValid-update d p (d.num_entries + 1) (fresh_entry p ∷ chain_of d p) v
      (record {
        placed = (refl, c.placed);
        once = (absent-find_chain p (chain_of d p) h, c.once);
        entries = (record { fits = omega arith; once = tt }, c.entries);
      })
      (omega arith)
  where
    c : IsChain d.table_size (slot d p) (chain_of d p)
    c = chain_of-IsChain d p v

All-unlink {κ} : (P : Entry → Type κ) (p : ℕ) (es : List Entry) → All P es → All P (unlink p es)
unfolding unlink
All-unlink P p [] h = tt
All-unlink P p (x ∷ es) h = elim (Bool-cases (x.page_id == p)) [
  | inl e ↦ rw e h.1
  | inr e ↦ rw e (h.0, All-unlink P p es h.1)
]

length-unlink :
    (p : ℕ) (es : List Entry) (e : Entry)
    → find_chain p es ≡ some e
    → length (unlink p es) + 1 ≡ length es
unfolding find_chain unlink
length-unlink p [] e h = cc
length-unlink p (x ∷ es) e h = ground (arith, length-unlink p es e)

pub unlink-IsValid :
    (d : Directory) (p : ℕ) (e : Entry)
    → find_entry d p ≡ some e
    → IsValid d
    → IsValid (unlink_entry d p)
unfolding find_entry
unlink-IsValid d p e h v =
    IsValid-update d p (d.num_entries - 1) (unlink p (chain_of d p)) v
      (record {
        placed = All-unlink _ p (chain_of d p) c.placed;
        once = pages-unlink-IsDistinct p (chain_of d p) c.once;
        entries = All-unlink IsEntry p (chain_of d p) c.entries;
      })
      (omega (
        arith,
        length-unlink p (chain_of d p) e h,
        length-chain-le d.buckets (slot d p),
        v.counted,
      ))
  where
    c : IsChain d.table_size (slot d p) (chain_of d p)
    c = chain_of-IsChain d p v

map-IsEntry :
    (f : Entry → Entry) (es : List Entry) → KeepsAll f → All IsEntry es → All IsEntry (map f es)
map-IsEntry f [] k h = tt
map-IsEntry f (x ∷ es) k h = (k.entry x h.0, map-IsEntry f es k h.1)

map-placed :
    (n i : ℕ) (f : Entry → Entry) (es : List Entry)
    → KeepsAll f
    → All (λ (e : Entry). hash_page_id e.page_id n ≡ i) es
    → All (λ (e : Entry). hash_page_id e.page_id n ≡ i) (map f es)
map-placed n i f [] k h = tt
map-placed n i f (x ∷ es) k h = (rw (k.page x) h.0, map-placed n i f es k h.1)

length-map-map :
    (f : Entry → Entry) (cs : List (List Entry))
    → (length (map (map f) cs) ≡ length cs) × (total (map (map f) cs) ≡ total cs)
length-map-map f [] = (refl, refl)
length-map-map f (c ∷ cs) = omega (arith, length-map-map f cs, length-map c f)

map-IsChain :
    (n i : ℕ) (f : Entry → Entry) (cs : List (List Entry))
    → KeepsAll f
    → AllFrom (IsChain n) i cs
    → AllFrom (IsChain n) i (map (map f) cs)
map-IsChain n i f [] k h = tt
map-IsChain n i f (es ∷ cs) k h = (
  record {
    placed = map-placed n i f es k h.0.placed;
    once = rw (pages-map f es k.page) h.0.once;
    entries = map-IsEntry f es k h.0.entries;
  },
  map-IsChain n (suc i) f cs k h.1,
)

pub map-IsValid :
    (d : Directory) (f : Entry → Entry)
    → KeepsAll f
    → IsValid d
    → IsValid (record d { buckets = map (map f) d.buckets })
map-IsValid d f k v = record {
  size_eq = omega (arith, length-map-map f d.buckets, v.size_eq);
  size_pos = v.size_pos;
  chains = map-IsChain d.table_size 0 f d.buckets k v.chains;
  counted = omega (arith, length-map-map f d.buckets, v.counted);
}

find_chain-IsEntry :
    (p : ℕ) (es : List Entry) (e : Entry) → find_chain p es ≡ some e → All IsEntry es → IsEntry e
unfolding find_chain
find_chain-IsEntry p [] e h a = cc
find_chain-IsEntry p (x ∷ es) e h a = elim (Bool-cases (x.page_id == p)) [
  | inl q ↦ let same : x ≡ e = ground (arith, q) in subst IsEntry same a.0
  | inr q ↦ find_chain-IsEntry p es e (rw q at h) a.1
]

-- Every entry that a search returns is well formed.
pub find_entry-IsEntry :
    (d : Directory) (p : ℕ) (e : Entry) → IsValid d → find_entry d p ≡ some e → IsEntry e
unfolding find_entry
find_entry-IsEntry d p e v h =
    find_chain-IsEntry p (chain_of d p) e h (chain_of-IsChain d p v).entries

pub create-IsValid :
    (alloc : Bool) (d d' : Directory) (p : ℕ)
    → IsValid d
    → find_or_create_entry alloc d p ≡ some d'
    → IsValid d'
create-IsValid alloc d d' p v h = elim (create-cases alloc d d' p h) [
  | inl (x, e, same) ↦ rw same v
  | inr (e, _, made) ↦ rw made (insert_entry-IsValid d p e v)
]

-- After a successful `find_or_create_entry` the pointer is good.
pub entry_of-found :
    (alloc : Bool) (d d' : Directory) (p : ℕ)
    → IsSized d
    → find_or_create_entry alloc d p ≡ some d'
    → (find_entry d' p ≡ some (entry_of d p)) × (entry_of d' p ≡ entry_of d p)
entry_of-found alloc d d' p s h = ground (arith, find_entry-create alloc d d' p p s h)
