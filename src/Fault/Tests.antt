-- ===== src/Fault/Tests.antt =====
-- src/memory/fault_handler.c: a fault at one input.
use user_level_dsm.Fault.{FaultNode}
use user_level_dsm.Migration.Tests.{node_with}
use user_level_dsm.Prelude.{false}

abbrev faulting : FaultNode
faulting = record {
  fetcher = node_with false 1;
  page_faults = 0;
  read_faults = 0;
  write_faults = 0;
}
