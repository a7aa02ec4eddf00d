-- ===== src/Wire.antt =====
-- src/network/protocol.h and src/network/network.c: messages as bytes. A message is a packed header
-- and the payload of its type; on the stream a four-byte length stands before it.
-- A byte is a number below 256. The structs are copied as they lie in memory, on a little-endian
-- machine; a payload is the bytes of the union `payload`, of which the first ones are sent. The array of
-- sharers in a message has 32 places, since `protocol.h` comes before `directory.h` in both files.
pub mod Bytes
pub mod Framing
pub mod Sending
pub mod Sockets
mod Tests
use user_level_dsm.Prelude.{
  length, ℕ, ◌+◌, none, List, Option, suc, ◌*◌, [], if◌then◌else◌, some, ◌++◌, ◌∷◌, ltb, ◌==◌, ◌%◌,
  take, zero, ◌/◌, get_elem?, ◌-◌, not, ◌||◌,
}
use user_level_dsm.Types.{page_size}

-- `msg_type_t`, counted from 1
pub data MessageType : Type 0 where
  page_request page_reply invalidate invalidate_ack : MessageType
  lock_request lock_grant lock_release barrier_arrive barrier_release : MessageType
  alloc_notify alloc_ack node_join node_leave heartbeat heartbeat_ack : MessageType
  dir_query dir_reply owner_update node_failed sharer_query sharer_reply error : MessageType
  state_sync_dir state_sync_lock state_sync_barrier state_sync_node : MessageType
  manager_promotion reconnect_request : MessageType

abbrev pub message_types : List MessageType
message_types =
    page_request ∷ page_reply ∷ invalidate ∷ invalidate_ack ∷ lock_request ∷ lock_grant
    ∷ lock_release ∷ barrier_arrive ∷ barrier_release ∷ alloc_notify ∷ alloc_ack ∷ node_join
    ∷ node_leave ∷ heartbeat ∷ heartbeat_ack ∷ dir_query ∷ dir_reply ∷ owner_update ∷ node_failed
    ∷ sharer_query ∷ sharer_reply ∷ error ∷ state_sync_dir ∷ state_sync_lock ∷ state_sync_barrier
    ∷ state_sync_node ∷ manager_promotion ∷ reconnect_request ∷ []

-- The type of a number, `none` for the `default` of the switches.
unfoldable pub type_of : ℕ → Option MessageType
type_of n = if n == 0 then none else get_elem? message_types (n - 1)

-- `msg_header_t`
pub record Header : Type 0 where
  pub magic : ℕ
  pub type : ℕ
  pub length : ℕ
  pub sender : ℕ
  pub seq_num : ℕ

-- `message_t`
pub record Message : Type 0 where
  pub header : Header
  pub payload : List ℕ

-- `MSG_MAGIC`, 0xDEADBEEF
abbrev pub msg_magic : ℕ
msg_magic = 3735928559

-- `sizeof(msg_header_t)`
abbrev pub header_size : ℕ
header_size = 24

-- The size of the union `payload`.
abbrev pub union_size : ℕ
union_size = page_size + 256

-- The sizes of the packed payload structs.
pub payload_size : MessageType → ℕ
payload_size page_request = 8 + 4 + 4
payload_size page_reply = 8 + 8 + 4 + 4 + page_size
payload_size invalidate = 8 + 4 + 8
payload_size invalidate_ack = 8 + 4
payload_size lock_request = 8 + 4
payload_size lock_grant = 8 + 4
payload_size lock_release = 8 + 4
payload_size barrier_arrive = 8 + 4 + 4
payload_size barrier_release = 8 + 4
payload_size alloc_notify = 8 + 8 + 4 + 8 + 8 + 8
payload_size alloc_ack = 8 + 8 + 4
payload_size node_join = 4 + 256 + 2
payload_size node_leave = 4
payload_size heartbeat = 0
payload_size heartbeat_ack = 4 + 8
payload_size dir_query = 8 + 4
payload_size dir_reply = 8 + 4
payload_size owner_update = 8 + 4
payload_size node_failed = 4
payload_size sharer_query = 8 + 4
payload_size sharer_reply = 8 + 4 + 4 * 32
payload_size error = 4 + 8 + 256
payload_size state_sync_dir = 8 + 8 + 4 + 4 + 4 * 32
payload_size state_sync_lock = 8 + 8 + 4 + 4 + 4 * 32
payload_size state_sync_barrier = 8 + 8 + 4 + 4 + 8
payload_size state_sync_node = 8 + 4 + 1 + 1
payload_size manager_promotion = 4 + 4 + 8
payload_size reconnect_request = 4 + 8

-- The bytes on the stream, for the statistics.
unfoldable pub get_message_wire_size : ℕ → ℕ
get_message_wire_size type = elim (type_of type) [
  | none ↦ 4 + header_size
  | some t ↦ 4 + header_size + payload_size t
]

-- A number of `w` bytes, the lowest byte first.
pub le_bytes : ℕ → ℕ → List ℕ
le_bytes zero n = []
le_bytes (suc w) n = n % 256 ∷ le_bytes w (n / 256)

-- The number in the first `w` bytes, and the bytes after it.
pub read_le : ℕ → List ℕ → ℕ × List ℕ
read_le zero bs = (0, bs)
read_le (suc w) [] = (0, [])
read_le (suc w) (b ∷ bs) = let (v, rest) = read_le w bs in (b + 256 * v, rest)

pub header_bytes : Header → List ℕ
header_bytes h =
    le_bytes 4 h.magic
    ++ (le_bytes 4 h.type ++ (le_bytes 4 h.length ++ (le_bytes 4 h.sender ++ le_bytes 8 h.seq_num)))

pub read_header : List ℕ → Header × List ℕ
read_header bs =
    let (magic, bs1) = read_le 4 bs in
    let (type, bs2) = read_le 4 bs1 in
    let (len, bs3) = read_le 4 bs2 in
    let (sender, bs4) = read_le 4 bs3 in
    let (seq_num, bs5) = read_le 8 bs4 in
    (record { magic = magic; type = type; length = len; sender = sender; seq_num = seq_num }, bs5)

-- `none` is the `default`, an unknown type.
unfoldable pub serialize_message : Message → Option (List ℕ)
serialize_message m = elim (type_of m.header.type) [
  | none ↦ none
  | some t ↦ some (header_bytes m.header ++ take (payload_size t) m.payload)
]

-- `none` is `DSM_ERROR_INVALID`. The payload of the result is what the code copies into the union.
pub deserialize_message : List ℕ → Option Message
deserialize_message bs =
    if ltb (length bs) header_size
    then none
    else let (h, rest) = read_header bs in
      if not (h.magic == msg_magic)
      then none
      else if ltb h.type 1 || ltb 28 h.type
      then none
      else some (record { header = h; payload = rest })
