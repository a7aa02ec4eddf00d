-- ===== src/Wire/Framing/Delivery.antt =====
-- src/network/network.c: a message that is framed and then received.
use mathlib.Core.List.{append_assoc}
use user_level_dsm.Prelude.{
  refl, ℕ, length, length-append, length-take-le, List, take, ◌≤◌, All, ◌≡◌, ◌<◌, ◌-◌, ◌++◌, arith,
  some, suc, ◌∷◌, ◌+◌, zero, ap, [], ◌∙◌, ◌^◌, sym, some_eq, ◌==◌, false, ltb, subst,
}
use user_level_dsm.Wire.Framing.{
  drop, read_exact, min_of, Stream, be_value, network_recv, be_bytes, frame,
}
use user_level_dsm.Wire.{
  Message, MessageType, type_of, payload_size, get_message_wire_size, serialize_message,
  deserialize_message, header_bytes,
}
use user_level_dsm.Wire.Bytes.{
  IsHeader, length-header_bytes, serialized, payload_le, deserialize-header, length-body,
}

pub drop-append : (n : ℕ) (xs ys : List ℕ) → n ≤ length xs → drop n (xs ++ ys) ≡ drop n xs ++ ys
unfolding drop
drop-append zero xs ys h = refl
drop-append (suc n) [] ys h = absurd (omega arith)
drop-append (suc n) (x ∷ xs) ys h = drop-append n xs ys (omega arith)

take-append : (n : ℕ) (xs ys : List ℕ) → n ≤ length xs → take n (xs ++ ys) ≡ take n xs
take-append zero xs ys h = refl
take-append (suc n) [] ys h = absurd (omega arith)
take-append (suc n) (x ∷ xs) ys h = ap (λ zs. x ∷ zs) (take-append n xs ys (omega arith))

pub take_and_drop : (n : ℕ) (xs : List ℕ) → take n xs ++ drop n xs ≡ xs
unfolding drop
take_and_drop zero xs = refl
take_and_drop (suc n) [] = refl
take_and_drop (suc n) (x ∷ xs) = ap (λ zs. x ∷ zs) (take_and_drop n xs)

pub length-drop : (n : ℕ) (xs : List ℕ) → length (drop n xs) ≡ length xs - n
unfolding drop
length-drop zero xs = omega arith
length-drop (suc n) [] = omega arith
length-drop (suc n) (x ∷ xs) = omega (arith, length-drop n xs)

-- Every `recv` has at least one byte.
abbrev pub IsFlowing : List ℕ → Type 0
IsFlowing sizes = All (λ s. 0 < s) sizes

read_step :
    (want : ℕ) (bytes : List ℕ) (s : ℕ) (sizes got : List ℕ) (after : Stream)
    → 0 < want
    → 0 < s
    → want ≤ length bytes
    → read_exact (want - min_of s want) (drop (min_of s want) bytes) sizes ≡ some (got, after)
    → read_exact want bytes (s ∷ sizes) ≡ some (take (min_of s want) bytes ++ got, after)
unfolding read_exact
read_step want bytes s sizes got after pos flow enough inner = ground (arith, inner)

-- Calls enough to read `n` bytes, at least one each.
pub read_all :
    (xs ys sizes : List ℕ)
    → IsFlowing sizes
    → length xs ≤ length sizes
    → (left : List ℕ) × (read_exact (length xs) (xs ++ ys) sizes
        ≡ some (xs, record { bytes = ys; sizes = left }))
      × IsFlowing left
      × (length sizes ≤ length left + length xs)
unfolding read_exact
read_all [] ys [] flow enough = ([], refl, tt, omega arith)
read_all (x ∷ xs) ys [] flow enough = absurd (omega arith)
read_all [] ys (s ∷ sizes) flow enough = (s ∷ sizes, refl, flow, omega arith)
read_all (x ∷ xs) ys (s ∷ sizes) flow enough =
    let l = x ∷ xs in
    let n = min_of s (length l) in
    let le : n ≤ length l = ground arith in
    let pos : 0 < n = ground (arith, flow.0) in
    let (left, got, flows, count) =
      read_all (drop n l) ys sizes flow.1 (omega (arith, length-drop n l, enough, pos)) in
    let inner : read_exact (length l - n) (drop n (l ++ ys)) sizes
        ≡ some (drop n l, record { bytes = ys; sizes = left }) =
      rw (drop-append n l ys le) (rw (length-drop n l) at got) in
    (
      left,
      read_step (length l) (l ++ ys) s sizes (drop n l) (record { bytes = ys; sizes = left })
            (omega arith) flow.0 (omega (arith, length-append l ys)) inner
          ∙ ap (λ zs. some (zs, record { bytes = ys; sizes = left }))
              (rw (take-append n l ys le) (take_and_drop n l)),
      flows,
      omega (arith, count, length-drop n l, le),
    )

-- The same for a number of bytes that is given.
read_count :
    (k : ℕ) (xs ys sizes : List ℕ)
    → length xs ≡ k
    → IsFlowing sizes
    → k ≤ length sizes
    → (left : List ℕ) × (read_exact k (xs ++ ys) sizes
        ≡ some (xs, record { bytes = ys; sizes = left }))
      × IsFlowing left
      × (length sizes ≤ length left + k)
read_count k xs ys sizes eq flow enough =
    subst
      (λ j.
        (left : List ℕ) × (read_exact j (xs ++ ys) sizes
          ≡ some (xs, record { bytes = ys; sizes = left }))
        × IsFlowing left
        × (length sizes ≤ length left + j))
      eq (read_all xs ys sizes flow (omega (arith, eq, enough)))

pub be_value-be_bytes : (n : ℕ) → n < 2 ^ 32 → be_value (be_bytes n) ≡ n
unfolding be_value be_bytes
be_value-be_bytes n h = omega arith

framed_as :
    (m : Message) (bs : List ℕ)
    → serialize_message m ≡ some bs
    → frame m ≡ some (be_bytes (length bs) ++ bs)
unfolding frame
framed_as m bs h = rw (frame, h) refl

body_le :
    (m : Message) (t : MessageType)
    → length (header_bytes m.header ++ take (payload_size t) m.payload) ≤ 8192
body_le m t = omega (
  arith,
  length-append (header_bytes m.header) (take (payload_size t) m.payload),
  length-header_bytes m.header,
  length-take-le (payload_size t) m.payload,
  payload_le t,
)

length-be_bytes : (n : ℕ) → length (be_bytes n) ≡ 4
unfolding be_bytes
length-be_bytes n = refl

length-framed : (bs : List ℕ) → length (be_bytes (length bs) ++ bs) ≡ 4 + length bs
length-framed bs =
    omega (arith, length-append (be_bytes (length bs)) bs, length-be_bytes (length bs))

-- The two reads and what comes between them.
recv_steps :
    (m : Message) (bs bytes sizes prefix : List ℕ) (s1 s2 : Stream)
    → read_exact 4 bytes sizes ≡ some (prefix, s1)
    → be_value prefix ≡ length bs
    → 0 < length bs
    → length bs ≤ 8192
    → read_exact (length bs) s1.bytes s1.sizes ≡ some (bs, s2)
    → deserialize_message bs ≡ some m
    → network_recv (record { bytes = bytes; sizes = sizes }) ≡ some (m, s2)
unfolding network_recv
recv_steps m bs bytes sizes prefix s1 s2 got1 value pos le got2 parsed =
    let nonzero : (length bs == 0) ≡ false = ground (arith, pos) in
    let within : ltb 8192 (length bs) ≡ false = ground (arith, le) in
    rw (network_recv, got1, value, nonzero, within, got2, parsed) refl

recv_bytes :
    (m : Message) (bs f ys sizes : List ℕ)
    → be_bytes (length bs) ++ bs ≡ f
    → deserialize_message bs ≡ some m
    → length bs ≤ 8192
    → 0 < length bs
    → IsFlowing sizes
    → length f ≤ length sizes
    → (left : List ℕ) × (network_recv (record { bytes = f ++ ys; sizes = sizes })
        ≡ some (m, record { bytes = ys; sizes = left }))
recv_bytes m bs f ys sizes f_eq parsed le pos flow enough =
    let prefix = be_bytes (length bs) in
    let total : length f ≡ 4 + length bs = rw (sym f_eq) (length-framed bs) in
    let (left1, got1, flow1, count1) =
      read_count 4 prefix (bs ++ ys) sizes (length-be_bytes (length bs)) flow
        (omega (arith, total, enough)) in
    let (left2, got2, flow2, count2) =
      read_all bs ys left1 flow1 (omega (arith, total, enough, count1)) in
    let value : be_value prefix ≡ length bs = be_value-be_bytes (length bs) (omega (arith, le)) in
    let same : prefix ++ (bs ++ ys) ≡ f ++ ys =
      sym (append_assoc prefix bs ys) ∙ ap (λ zs. zs ++ ys) f_eq in
    (
      left2,
      recv_steps m bs (f ++ ys) sizes prefix (record { bytes = bs ++ ys; sizes = left1 })
          (record { bytes = ys; sizes = left2 })
          (subst
            (λ zs.
              read_exact 4 zs sizes ≡ some (prefix, record { bytes = bs ++ ys; sizes = left1 }))
            same got1)
          value pos le got2 parsed,
    )

-- A message of a known type that is framed and sent is received whole, however the stream cuts it up:
-- with calls of `recv` that have at least one byte each, as many as the frame has bytes or more, the
-- receiver has the header and the sent part of the payload, and the bytes after the frame are left.
pub recv-frame :
    (m : Message) (t : MessageType) (f ys sizes : List ℕ)
    → IsHeader m.header
    → type_of m.header.type ≡ some t
    → frame m ≡ some f
    → IsFlowing sizes
    → length f ≤ length sizes
    → (left : List ℕ) × (network_recv (record { bytes = f ++ ys; sizes = sizes })
        ≡ some (
          record m { payload = take (payload_size t) m.payload },
          record { bytes = ys; sizes = left },
        ))
recv-frame m t f ys sizes w known framed flow enough =
    let payload = take (payload_size t) m.payload in
    let bs = header_bytes m.header ++ payload in
    let f_eq : be_bytes (length bs) ++ bs ≡ f =
      some_eq (sym (framed_as m bs (serialized m t known)) ∙ framed) in
    recv_bytes (record m { payload = payload }) bs f ys sizes f_eq
      (deserialize-header m.header payload w) (body_le m t)
      (omega (arith, length-append (header_bytes m.header) payload, length-header_bytes m.header))
      flow enough

-- The statistics count the bytes that go out: the size of a message on the wire, by its type, is the
-- length of its frame, for a known type and a payload in place.
pub wire_size-frame :
    (m : Message) (t : MessageType) (f : List ℕ)
    → type_of m.header.type ≡ some t
    → payload_size t ≤ length m.payload
    → frame m ≡ some f
    → get_message_wire_size m.header.type ≡ length f
unfolding get_message_wire_size
wire_size-frame m t f known room framed =
    let bs = header_bytes m.header ++ take (payload_size t) m.payload in
    let f_eq : be_bytes (length bs) ++ bs ≡ f =
      some_eq (sym (framed_as m bs (serialized m t known)) ∙ framed) in
    let total : length f ≡ 4 + length bs = rw (sym f_eq) (length-framed bs) in
    rw (get_message_wire_size, known) (omega (arith, total, length-body m t room))
