-- ===== src/Directory/Invalidate.antt =====
-- src/consistency/directory.c: the list of nodes that `directory_set_writer` hands back for
-- invalidation, and write access as a whole (`directory_set_writer`, then
-- `directory_clear_sharers`, as `fetch_page_write` of src/consistency/page_migration.c calls them).
use user_level_dsm.Directory.{other_sharers, Entry, invalidations, max_sharers}
use user_level_dsm.Prelude.{
  ℕ, List, Bool, contains, suc, All, IsDistinct, length, ◌<◌, ◌||◌, ◌≡◌, ◌∷◌, arith, ◌≤◌, ◌&&◌,
  ◌==◌, [], not, zero, ◌≢◌, All-append, false, Bool-cases, inl, inr,
}
use user_level_dsm.Directory.Valid.{IsEntry}
use user_level_dsm.Directory.Sharers.{
  other_sharers-IsDistinct, other_sharers_absent, contains-other_sharers, contains-append_one,
  append_one-IsDistinct,
}
use user_level_dsm.Types.{no_node, max_nodes}

-- The nodes that hold the page: its readers, and its owner if there is one.
abbrev pub holds_copy : Entry → ℕ → Bool
holds_copy e m = contains e.sharers m || (m == e.owner && not (m == no_node))

pub contains-invalidations :
    (w m : ℕ) (e : Entry) → contains (invalidations w e) m ≡ (holds_copy e m && not (m == w))
unfolding invalidations
contains-invalidations w m e = ground (
  arith,
  contains-other_sharers w m e.sharers,
  contains-other_sharers w e.owner e.sharers,
  contains-append_one (other_sharers w e.sharers) e.owner m,
)

pub invalidations-IsDistinct :
    (w : ℕ) (e : Entry) → IsDistinct e.sharers → IsDistinct (invalidations w e)
unfolding invalidations
invalidations-IsDistinct w e h = ground (
  arith,
  other_sharers-IsDistinct w e.sharers h,
  append_one-IsDistinct (other_sharers w e.sharers) e.owner
      (other_sharers-IsDistinct w e.sharers h),
)

length-other_sharers :
    (w : ℕ) (xs : List ℕ) → IsDistinct xs → length xs ≤ suc (length (other_sharers w xs))
unfolding other_sharers
length-other_sharers w [] d = omega arith
length-other_sharers w (x ∷ xs) d =
    ground (arith, d, length-other_sharers w xs d.1, other_sharers_absent w xs)

-- Every number of a list lies below a bound.
abbrev pub Below : ℕ → List ℕ → Type 0
Below n = All (λ x. x < n)

other_sharers-Below : (n : ℕ) (xs : List ℕ) → Below (suc n) xs → Below n (other_sharers n xs)
unfolding other_sharers
other_sharers-Below n [] h = tt
other_sharers-Below n (x ∷ xs) h = ground (arith, h, other_sharers-Below n xs h.1)

-- Distinct numbers below a bound are at most as many as the bound.
pub length-le-bound : (n : ℕ) (xs : List ℕ) → Below n xs → IsDistinct xs → length xs ≤ n
length-le-bound zero [] b d = omega arith
length-le-bound zero (x ∷ xs) b d = absurd (omega arith)
length-le-bound (suc n) xs b d = omega (
  arith,
  length-other_sharers n xs d,
  length-le-bound n (other_sharers n xs) (other_sharers-Below n xs b)
      (other_sharers-IsDistinct n xs d),
)

other_sharers-Below_same : (n w : ℕ) (xs : List ℕ) → Below n xs → Below n (other_sharers w xs)
unfolding other_sharers
other_sharers-Below_same n w [] h = tt
other_sharers-Below_same n w (x ∷ xs) h = ground (arith, h, other_sharers-Below_same n w xs h.1)

-- The owner of an entry is a node of the cluster, or none.
abbrev pub IsNode : ℕ → Type 0
IsNode n = n < max_nodes

invalidations-Below :
    (w : ℕ) (e : Entry)
    → Below max_nodes e.sharers
    → (e.owner ≢ no_node → IsNode e.owner)
    → Below max_nodes (invalidations w e)
unfolding invalidations
invalidations-Below w e b o = elim (Bool-cases joins) [
  | inl t ↦ rw t (
      All-append (λ x. x < max_nodes) (other_sharers w e.sharers) (e.owner ∷ []) others
        (o (λ none. ground (arith, t, none)), tt))
  | inr f ↦ rw f others
]
  where
    joins : Bool
    joins =
        not (e.owner == w)
        && not (e.owner == no_node)
        && not (contains (other_sharers w e.sharers) e.owner)

    others : Below max_nodes (other_sharers w e.sharers)
    others = other_sharers-Below_same max_nodes w e.sharers b

-- Where all node ids are below `MAX_NODES`, the list is shorter than the array of `MAX_SHARERS`
-- slots that the callers hand over: no write is out of bounds.
pub invalidations_fits :
    (w : ℕ) (e : Entry)
    → IsEntry e
    → IsNode w
    → Below max_nodes e.sharers
    → (e.owner ≢ no_node → IsNode e.owner)
    → length (invalidations w e) < max_sharers
invalidations_fits w e h n b o =
    length-le-bound max_nodes (w ∷ invalidations w e) (n, invalidations-Below w e b o)
      (absent, invalidations-IsDistinct w e h.once)
  where
    absent : contains (invalidations w e) w ≡ false
    absent = ground (arith, contains-invalidations w w e)
