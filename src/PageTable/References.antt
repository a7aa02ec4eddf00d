-- ===== src/PageTable/References.antt =====
-- src/memory/page_table.c: the reference count that keeps a table alive.
use user_level_dsm.PageTable.{page_table_release, page_table_acquire, PageTable}
use user_level_dsm.Prelude.{
  ℕ, Option, ◌<◌, suc, ◌≡◌, zero, arith, some, none, refl, ==_ne, ◌+◌, ◌-◌, ap, ◌∙◌,
}

-- A table after `k` calls of `page_table_acquire`.
pub acquires : ℕ → PageTable → PageTable
acquires zero t = t
acquires (suc k) t = page_table_acquire (acquires k t)

-- A table after `k` calls of `page_table_release`; `none` once it is destroyed.
pub releases : ℕ → Option PageTable → Option PageTable
releases zero o = o
releases (suc k) none = none
releases (suc k) (some t) = releases k (page_table_release t)

back : (n : ℕ) → n + 1 - 1 ≡ n
back n = omega arith

release_acquire :
    (t : PageTable) → 0 < t.refcount → page_table_release (page_table_acquire t) ≡ some t
unfolding page_table_release page_table_acquire
release_acquire t h = rw (==_ne (t.refcount + 1) 1 (omega arith), back t.refcount) refl

acquires_alive : (k : ℕ) (t : PageTable) → 0 < t.refcount → 0 < (acquires k t).refcount
unfolding acquires page_table_acquire
acquires_alive zero t h = h
acquires_alive (suc k) t h = omega arith

-- A table that is in use is not destroyed. When its creator holds the one reference, `k` acquires
-- followed by `k` releases give the table back as it was, and one more release destroys it.
pub release_last :
    (k : ℕ) (t : PageTable)
    → t.refcount ≡ 1
    → (releases k (some (acquires k t)) ≡ some t) × (releases (suc k) (some (acquires k t)) ≡ none)
unfolding releases acquires page_table_release
release_last zero t h = (refl, ground (arith, h))
release_last (suc k) t h =
    let step = release_acquire (acquires k t) (acquires_alive k t (omega arith)) in
    let ih = release_last k t h in (rw step ih.0, ap (λ o. releases (suc k) o) step ∙ ih.1)
