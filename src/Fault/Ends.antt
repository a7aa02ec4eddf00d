-- ===== src/Fault/Ends.antt =====
-- src/memory/fault_handler.c: how the signal handler ends.
use mathlib.Core.Option
use user_level_dsm.Fault.{FaultNode, find_addr, FaultEnd, resumed, raised}
use user_level_dsm.Migration.{Fetcher}
use user_level_dsm.Migration.Fetch.{Attempt}
use user_level_dsm.Prelude.{
  Option, Bool, List, ℕ, not, ◌&&◌, ◌≡◌, some, none, ◌+◌, true, false, if◌then◌else◌,
}
use user_level_dsm.Types.{Status}
use user_level_dsm.Coherence.{has_tables}

-- The node that the handler leaves.
abbrev pub node_of : FaultEnd → FaultNode
node_of (resumed n) = n
node_of (raised n) = n

-- The address is one of the shared memory.
abbrev pub is_known : FaultNode → (addr : ℕ) → Bool
is_known n addr =
    (n.fetcher.host.initialized && has_tables n.fetcher.host)
    && (elim (find_addr n.fetcher.host.page_tables addr) [ some e ↦ true | none ↦ false ])

-- A fault is counted once, and once more as a read or as a write, when its address is known.
pub record IsCounted (n : FaultNode) (known writes : Bool) (m : FaultNode) : Type 0 where
  pub faults : m.page_faults ≡ n.page_faults + (if known then 1 else 0)
  pub reads : m.read_faults ≡ n.read_faults + (if known && not writes then 1 else 0)
  pub stores : m.write_faults ≡ n.write_faults + (if known && writes then 1 else 0)

-- A result that leaves all counts.
Gives : FaultNode → Option (Status × FaultNode) → Type 0
Gives n o = (code : Status) × (f : Fetcher) × (o ≡ some (code, record n { fetcher = f }))

-- The end of a fault, the same whatever attempts would follow.
Settles : FaultNode → (known writes : Bool) → (List Attempt → Option FaultEnd) → Type 0
Settles n known writes o =
    (end : FaultEnd) × ((more : List Attempt) → o more ≡ some end)
    × IsCounted n known writes (node_of end)
