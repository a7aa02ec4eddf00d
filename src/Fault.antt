-- ===== src/Fault.antt =====
-- src/memory/fault_handler.c: what a fault at an address does. The signal's installation is left out.
-- The attempts of a fetch are what they are in Migration; the counts of faults are this node's own,
-- so they are kept beside the state that the fetches work on. The tables are those of Coherence,
-- none of them NULL. A handler that raises the signal again, with its default action, ends there.
pub mod Ends
mod Tests
use mathlib.Core.Option
use user_level_dsm.Migration.{Fetcher}
use user_level_dsm.Coherence.{has_tables}
use user_level_dsm.Migration.Fetch.{Attempt}
use user_level_dsm.Migration.Read.{fetch_page_read}
use user_level_dsm.Migration.Write.{fetch_page_write}
use user_level_dsm.PageTable.{PageTable, PageEntry, entry_at, page_table_lookup_by_addr}
use user_level_dsm.Prelude.{
  ℕ, List, Option, Bool, some, if◌then◌else◌, none, ◌/◌, not, ◌∷◌, ◌&&◌, ◌+◌, [], ◌%◌, ◌==◌, true,
}
use user_level_dsm.Types.{
  Status, invalid, read_write, is_success, not_found, success, PageState, read_only,
}

pub record FaultNode : Type 0 where
  pub fetcher : Fetcher
  pub page_faults : ℕ
  pub read_faults : ℕ
  pub write_faults : ℕ

-- The architectures that the handler tells apart.
pub data Arch : Type 0 where
  x86 : Arch
  other : Arch

-- How the signal handler ends: the instruction runs again, or the signal is raised.
pub data FaultEnd : Type 0 where
  resumed : FaultNode → FaultEnd
  raised : FaultNode → FaultEnd

-- The loop over the tables that looks for the address.
unfoldable pub find_addr : List PageTable → (addr : ℕ) → Option PageEntry
find_addr [] addr = none
find_addr (t ∷ ts) addr = elim (page_table_lookup_by_addr t addr) [
  | none ↦ find_addr ts addr
  | some i ↦ some (entry_at t i)
]

-- Bit 1 of the error code, where there is a context that has one.
unfoldable pub is_write_fault : Arch → (error_code : Option ℕ) → Bool
is_write_fault x86 (some err) = err / 2 % 2 == 1
is_write_fault x86 none = true
is_write_fault other c = true

abbrev pub with_fetcher : FaultNode → Status × Fetcher → Status × FaultNode
with_fetcher n r = (r.0, record n { fetcher = r.1 })

-- By the state of the page: only an invalid one is fetched for reading.
unfoldable pub read_entry :
    PageState → (page : ℕ) → List Attempt → FaultNode → Option (Status × FaultNode)
read_entry invalid page ss n = Option.map (with_fetcher n) (fetch_page_read page ss n.fetcher)
read_entry read_only page ss n = some (success, n)
read_entry read_write page ss n = some (success, n)

unfoldable pub handle_read_fault :
    (addr : ℕ) → List Attempt → FaultNode → Option (Status × FaultNode)
handle_read_fault addr ss n = elim (find_addr n.fetcher.host.page_tables addr) [
  | none ↦ some (not_found, n)
  | some e ↦ read_entry e.state e.id ss (record n { read_faults = n.read_faults + 1 })
]

-- A page that can be written already is left.
unfoldable pub write_entry :
    PageState → (page : ℕ) → List Attempt → FaultNode → Option (Status × FaultNode)
write_entry read_write page ss n = some (success, n)
write_entry invalid page ss n = Option.map (with_fetcher n) (fetch_page_write page ss n.fetcher)
write_entry read_only page ss n = Option.map (with_fetcher n) (fetch_page_write page ss n.fetcher)

unfoldable pub handle_write_fault :
    (addr : ℕ) → List Attempt → FaultNode → Option (Status × FaultNode)
handle_write_fault addr ss n = elim (find_addr n.fetcher.host.page_tables addr) [
  | none ↦ some (not_found, n)
  | some e ↦ write_entry e.state e.id ss (record n { write_faults = n.write_faults + 1 })
]

abbrev pub outcome_of : Status × FaultNode → FaultEnd
outcome_of r = if is_success r.0 then resumed r.1 else raised r.1

-- The handler from the count of the fault on.
unfoldable pub handle_fault :
    (is_write : Bool) → (addr : ℕ) → List Attempt → FaultNode → Option FaultEnd
handle_fault is_write addr ss n =
    Option.map outcome_of
      (if is_write then handle_write_fault addr ss n else handle_read_fault addr ss n)

unfoldable pub dsm_fault_handler :
    Arch → (error_code : Option ℕ) → (addr : ℕ) → List Attempt → FaultNode → Option FaultEnd
dsm_fault_handler arch error_code addr ss n =
    if not (n.fetcher.host.initialized && has_tables n.fetcher.host)
    then some (raised n)
    else elim (find_addr n.fetcher.host.page_tables addr) [
      | none ↦ some (raised n)
      | some e ↦
          handle_fault (is_write_fault arch error_code) addr ss
            (record n { page_faults = n.page_faults + 1 })
    ]
