-- ===== src/Directory/Chain.antt =====
-- src/consistency/directory.c: what a search along one hash chain finds after a write, an insertion
-- at the head, the removal of an entry, and a pass over all entries.
use mathlib.Core.Option
use user_level_dsm.Prelude.{
  ℕ, ◌≡◌, refl, false, List, [], ◌∷◌, map, none, some, arith, ◌==◌, if◌then◌else◌, contains,
  IsDistinct,
}
use user_level_dsm.Directory.{Entry, find_chain, modify_chain, unlink}

-- The pages of a chain, in order.
abbrev pub pages : List Entry → List ℕ
pages = map (λ (e : Entry). e.page_id)

-- A change of an entry that leaves its page alone.
abbrev pub KeepsPage : (Entry → Entry) → Type 0
KeepsPage f = (e : Entry) → (f e).page_id ≡ e.page_id

pub find_chain_page :
    (p : ℕ) (es : List Entry) (e : Entry) → find_chain p es ≡ some e → e.page_id ≡ p
unfolding find_chain
find_chain_page p [] e h = cc
find_chain_page p (x ∷ es) e h = ground (arith, find_chain_page p es e)

pub find_chain-modify_chain :
    (p q : ℕ) (f : Entry → Entry) (es : List Entry)
    → KeepsPage f
    → find_chain q (modify_chain p f es)
      ≡ (if p == q then Option.map f (find_chain q es) else find_chain q es)
unfolding find_chain modify_chain
find_chain-modify_chain p q f [] k = ground arith
find_chain-modify_chain p q f (x ∷ es) k = ground (arith, k x, find_chain-modify_chain p q f es k)

pub find_chain-map :
    (q : ℕ) (f : Entry → Entry) (es : List Entry)
    → KeepsPage f
    → find_chain q (map f es) ≡ Option.map f (find_chain q es)
unfolding find_chain
find_chain-map q f [] k = refl
find_chain-map q f (x ∷ es) k = ground (arith, k x, find_chain-map q f es k)

pub find_chain_absent :
    (p : ℕ) (es : List Entry) → contains (pages es) p ≡ false → find_chain p es ≡ none
unfolding find_chain
find_chain_absent p [] h = refl
find_chain_absent p (x ∷ es) h = ground (arith, find_chain_absent p es)

pub absent-find_chain :
    (p : ℕ) (es : List Entry) → find_chain p es ≡ none → contains (pages es) p ≡ false
unfolding find_chain
absent-find_chain p [] h = refl
absent-find_chain p (x ∷ es) h = ground (arith, absent-find_chain p es)

-- With no page twice, the entry that is unlinked was the only one of its page.
pub find_chain-unlink :
    (p q : ℕ) (es : List Entry)
    → IsDistinct (pages es)
    → find_chain q (unlink p es) ≡ (if p == q then none else find_chain q es)
unfolding find_chain unlink
find_chain-unlink p q [] d = ground arith
find_chain-unlink p q (x ∷ es) d =
    ground (arith, d, find_chain-unlink p q es d.1, find_chain_absent x.page_id es d.0)

pub pages-modify_chain :
    (p : ℕ) (f : Entry → Entry) (es : List Entry)
    → KeepsPage f
    → pages (modify_chain p f es) ≡ pages es
unfolding modify_chain
pages-modify_chain p f [] k = refl
pages-modify_chain p f (x ∷ es) k = ground (arith, k x, pages-modify_chain p f es k)

pub contains-unlink :
    (p q : ℕ) (es : List Entry)
    → contains (pages es) q ≡ false
    → contains (pages (unlink p es)) q ≡ false
unfolding unlink
contains-unlink p q [] h = refl
contains-unlink p q (x ∷ es) h = ground (arith, contains-unlink p q es)

pub pages-unlink-IsDistinct :
    (p : ℕ) (es : List Entry) → IsDistinct (pages es) → IsDistinct (pages (unlink p es))
unfolding unlink
pages-unlink-IsDistinct p [] d = tt
pages-unlink-IsDistinct p (x ∷ es) d =
    ground (arith, d, pages-unlink-IsDistinct p es d.1, contains-unlink p x.page_id es d.0)

pub pages-map : (f : Entry → Entry) (es : List Entry) → KeepsPage f → pages (map f es) ≡ pages es
pages-map f [] k = refl
pages-map f (x ∷ es) k = ground (arith, k x, pages-map f es k)
