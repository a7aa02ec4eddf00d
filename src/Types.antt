-- ===== src/Types.antt =====
-- include/dsm/types.h: the constants, enumerations and return codes that the components share.
use user_level_dsm.Prelude.{ℕ, ◌-◌, ◌^◌, Bool, true, false}

-- `PAGE_SIZE`
abbrev pub page_size : ℕ
page_size = 4096

-- `MAX_NODES`
abbrev pub max_nodes : ℕ
max_nodes = 16

-- `(node_id_t)-1`: no node. A `node_id_t` is a number below 2 ^ 32.
abbrev pub no_node : ℕ
no_node = 2 ^ 32 - 1

-- `page_state_t`
pub data PageState : Type 0 where
  invalid read_only read_write : PageState

-- `access_type_t`
pub data AccessType : Type 0 where
  read write : AccessType

-- `page_perm_t`
pub data PagePerm : Type 0 where
  perm_none perm_read perm_read_write : PagePerm

-- `lock_state_t`
pub data LockState : Type 0 where
  free held : LockState

-- `dsm_error_t`
pub data Status : Type 0 where
  success init_error memory_error network_error timeout_error : Status
  not_found invalid_argument busy permission_error : Status

-- The test `rc == DSM_SUCCESS`.
abbrev pub is_success : Status → Bool
is_success success = true
is_success _ = false

-- What `config.is_manager` and `backup_state.is_promoted` of the global context say of a node.
pub record Role : Type 0 where
  pub is_manager : Bool
  pub is_promoted : Bool
