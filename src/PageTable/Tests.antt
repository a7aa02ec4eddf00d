-- ===== src/PageTable/Tests.antt =====
-- src/memory/page_table.c: each theorem on page tables at one input.
use user_level_dsm.Prelude.{ℕ, ◌≡◌, some, arith, refl}
use user_level_dsm.PageTable.{
  page_table_lookup_by_id, PageTable, page_table_create, page_table_lookup_by_addr, new_table,
  page_addr_to_id, first_page_id, entry_at, page_get_base_addr, page_id_to_addr,
}
use user_level_dsm.PageTable.Lookup.{lookups_agree}
use user_level_dsm.PageTable.Valid.{create-IsTable}
use user_level_dsm.PageTable.Ranges.{page_ids_disjoint, Owns}

-- Two pages and a half at address 2 ^ 20, the second allocation of node 3.
abbrev table_3_1 : PageTable
table_3_1 = new_table 1048576 10240 (first_page_id 3 1) 3

table_created : page_table_create 1048576 10240 3 1 ≡ some table_3_1
unfolding page_table_create
table_created = refl

lookups_agree_example :
    (i : ℕ) × (page_table_lookup_by_addr table_3_1 1053000 ≡ some i)
    × (page_table_lookup_by_id table_3_1 (page_addr_to_id table_3_1 1053000) ≡ some i)
    × ((entry_at table_3_1 i).id ≡ page_addr_to_id table_3_1 1053000)
    × ((entry_at table_3_1 i).local_addr ≡ page_get_base_addr 1053000)
    × (page_id_to_addr table_3_1 (page_addr_to_id table_3_1 1053000) ≡ page_get_base_addr 1053000)
lookups_agree_example =
    lookups_agree table_3_1 1053000
      (create-IsTable 1048576 10240 3 1 table_3_1 (omega arith) (omega arith) table_created) refl
      (omega arith) (omega arith)

owned : Owns table_3_1 3031251
unfolding page_table_lookup_by_id
owned = (1, refl)

page_ids_disjoint_example : (◌≡◌ {A = ℕ} 3 3) × (◌≡◌ {A = ℕ} 1 1)
page_ids_disjoint_example =
    page_ids_disjoint 1048576 10240 3 1 table_3_1 1048576 10240 3 1 table_3_1 3031251 (omega arith)
      (omega arith) table_created table_created owned owned
