-- ===== src/Wire/Bytes.antt =====
-- src/network/network.c: what a message loses on its way into bytes and back, which is nothing.
use user_level_dsm.Prelude.{
  refl, ℕ, length, length-append, suc, List, ◌*◌, ◌≡◌, ◌<◌, zero, ◌++◌, ◌≤◌, ap, arith, ◌^◌, ◌/◌,
  some, ltb, ◌+◌, false, take, ◌∷◌, [],
}
use mathlib.Core.List.{append_assoc}
use user_level_dsm.Wire.{
  Message, le_bytes, payload_size, read_header, read_le, Header, header_bytes, MessageType,
  msg_magic, deserialize_message, serialize_message, type_of,
}

-- The number of values of `w` bytes.
pub values : ℕ → ℕ
values zero = 1
values (suc w) = 256 * values w

pub read_le-le_bytes :
    (w n : ℕ) (rest : List ℕ) → n < values w → read_le w (le_bytes w n ++ rest) ≡ (n, rest)
unfolding read_le le_bytes values
read_le-le_bytes zero n rest h = ap (λ k. (k, rest)) (omega arith)
read_le-le_bytes (suc w) n rest h =
    rw (read_le-le_bytes w (n / 256) rest (omega arith)) (ap (λ k. (k, rest)) (omega arith))

length-le_bytes : (w n : ℕ) → length (le_bytes w n) ≡ w
unfolding le_bytes
length-le_bytes zero n = refl
length-le_bytes (suc w) n = ap suc (length-le_bytes w (n / 256))

-- The fields of a header fit their widths, the type is one of the 28, and the magic number is there.
pub record IsHeader (h : Header) : Type 0 where
  pub magic_eq : h.magic ≡ msg_magic
  pub known : (0 < h.type) × (h.type ≤ 28)
  pub length_lt : h.length < 2 ^ 32
  pub sender_lt : h.sender < 2 ^ 32
  pub seq_num_lt : h.seq_num < 2 ^ 64

pub read_header-header_bytes :
    (h : Header) (rest : List ℕ) → IsHeader h → read_header (header_bytes h ++ rest) ≡ (h, rest)
unfolding read_header header_bytes values
read_header-header_bytes h rest w =
    let at_magic : (r : List ℕ) → read_le 4 (le_bytes 4 h.magic ++ r) ≡ (h.magic, r) =
      λ r. read_le-le_bytes 4 h.magic r (omega (arith, w.magic_eq)) in
    let at_type : (r : List ℕ) → read_le 4 (le_bytes 4 h.type ++ r) ≡ (h.type, r) =
      λ r. read_le-le_bytes 4 h.type r (omega (arith, w.known)) in
    let at_length : (r : List ℕ) → read_le 4 (le_bytes 4 h.length ++ r) ≡ (h.length, r) =
      λ r. read_le-le_bytes 4 h.length r w.length_lt in
    let at_sender : (r : List ℕ) → read_le 4 (le_bytes 4 h.sender ++ r) ≡ (h.sender, r) =
      λ r. read_le-le_bytes 4 h.sender r w.sender_lt in
    let at_seq : (r : List ℕ) → read_le 8 (le_bytes 8 h.seq_num ++ r) ≡ (h.seq_num, r) =
      λ r. read_le-le_bytes 8 h.seq_num r w.seq_num_lt in
    simp (append_assoc, at_magic, at_type, at_length, at_sender, at_seq) refl

pub length-header_bytes : (h : Header) → length (header_bytes h) ≡ 24
unfolding header_bytes
length-header_bytes h = simp (length-append, length-le_bytes) refl

-- The payload of every type fits the union.
pub payload_le : (t : MessageType) → payload_size t ≤ 4120
unfolding payload_size
payload_le t = ground arith

-- A header and a payload in bytes are read back.
pub deserialize-header :
    (h : Header) (payload : List ℕ)
    → IsHeader h
    → deserialize_message (header_bytes h ++ payload)
      ≡ some (record { header = h; payload = payload })
unfolding deserialize_message
deserialize-header h payload w =
    let enough : ltb (length (header_bytes h ++ payload)) 24 ≡ false =
      ground (arith, length-append (header_bytes h) payload, length-header_bytes h) in
    rw (deserialize_message, enough, read_header-header_bytes h payload w)
      (ground (arith, w.magic_eq, w.known))

pub serialized :
    (m : Message) (t : MessageType)
    → type_of m.header.type ≡ some t
    → serialize_message m ≡ some (header_bytes m.header ++ take (payload_size t) m.payload)
unfolding serialize_message
serialized m t known = rw (serialize_message, known) refl

length-take : (n : ℕ) (xs : List ℕ) → n ≤ length xs → length (take n xs) ≡ n
length-take zero xs h = refl
length-take (suc n) [] h = absurd (omega arith)
length-take (suc n) (x ∷ xs) h = ap suc (length-take n xs (omega arith))

-- The bytes of a message of a known type, with the payload in place.
pub length-body :
    (m : Message) (t : MessageType)
    → payload_size t ≤ length m.payload
    → length (header_bytes m.header ++ take (payload_size t) m.payload) ≡ 24 + payload_size t
length-body m t room = omega (
  arith,
  length-append (header_bytes m.header) (take (payload_size t) m.payload),
  length-header_bytes m.header,
  length-take (payload_size t) m.payload room,
)
