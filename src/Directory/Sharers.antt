-- ===== src/Directory/Sharers.antt =====
-- src/consistency/directory.c: the loops over `sharers.nodes`. A node is added at the end, the first
-- copy of a node is removed by a shift, and the invalidation list is built from the others.
use user_level_dsm.Directory.{other_sharers, remove_first}
use user_level_dsm.Prelude.{
  List, ℕ, length, IsDistinct, contains, ◌≤◌, ◌≡◌, ◌∷◌, ◌++◌, arith, ◌&&◌, [], false, not, refl,
  ◌||◌, ◌==◌,
}

pub contains-append_one :
    (xs : List ℕ) (a b : ℕ) → contains (xs ++ a ∷ []) b ≡ (contains xs b || (a == b))
contains-append_one [] a b = ground arith
contains-append_one (x ∷ xs) a b = ground (arith, contains-append_one xs a b)

pub append_one-IsDistinct :
    (xs : List ℕ) (a : ℕ) → IsDistinct xs → contains xs a ≡ false → IsDistinct (xs ++ a ∷ [])
append_one-IsDistinct [] a d h = (refl, tt)
append_one-IsDistinct (x ∷ xs) a d h =
    ground (arith, d, contains-append_one xs a x, append_one-IsDistinct xs a d.1)

pub length-remove_first : (n : ℕ) (xs : List ℕ) → length (remove_first n xs) ≤ length xs
unfolding remove_first
length-remove_first n [] = omega arith
length-remove_first n (x ∷ xs) = ground (arith, length-remove_first n xs)

-- With no node twice, the first copy is the only one.
pub contains-remove_first :
    (n m : ℕ) (xs : List ℕ)
    → IsDistinct xs
    → contains (remove_first n xs) m ≡ (contains xs m && not (n == m))
unfolding remove_first
contains-remove_first n m [] d = refl
contains-remove_first n m (x ∷ xs) d = ground (arith, d, contains-remove_first n m xs d.1)

pub remove_first-IsDistinct : (n : ℕ) (xs : List ℕ) → IsDistinct xs → IsDistinct (remove_first n xs)
unfolding remove_first
remove_first-IsDistinct n [] d = tt
remove_first-IsDistinct n (x ∷ xs) d =
    ground (arith, d, contains-remove_first n x xs d.1, remove_first-IsDistinct n xs d.1)

pub contains-other_sharers :
    (w m : ℕ) (xs : List ℕ) → contains (other_sharers w xs) m ≡ (contains xs m && not (m == w))
unfolding other_sharers
contains-other_sharers w m [] = refl
contains-other_sharers w m (x ∷ xs) = ground (arith, contains-other_sharers w m xs)

pub other_sharers-IsDistinct :
    (w : ℕ) (xs : List ℕ) → IsDistinct xs → IsDistinct (other_sharers w xs)
unfolding other_sharers
other_sharers-IsDistinct w [] d = tt
other_sharers-IsDistinct w (x ∷ xs) d =
    ground (arith, d, contains-other_sharers w x xs, other_sharers-IsDistinct w xs d.1)

pub other_sharers_absent : (w : ℕ) (xs : List ℕ) → contains xs w ≡ false → other_sharers w xs ≡ xs
unfolding other_sharers
other_sharers_absent w [] h = refl
other_sharers_absent w (x ∷ xs) h = ground (arith, other_sharers_absent w xs)
