-- ===== src/Wire/Framing.antt =====
-- src/network/network.c: messages on a stream. `recv` gives as many bytes as it has, at least one and
-- at most as many as are asked for: the list of sizes says how many it has at each call, and the end
-- of the list is a connection that closes or fails.
use user_level_dsm.Prelude.{
  length, ℕ, List, Option, if◌then◌else◌, ◌/◌, suc, none, ltb, ◌==◌, some, ◌∷◌, ◌^◌, ◌*◌, ◌-◌, ◌%◌,
  ◌||◌, zero, [], ◌+◌, ◌++◌, take,
}
pub mod Delivery
use user_level_dsm.Wire.{Message, serialize_message, deserialize_message}

-- The length before the message, the highest byte first.
unfoldable pub be_bytes : ℕ → List ℕ
be_bytes n = n / 2 ^ 24 % 256 ∷ n / 2 ^ 16 % 256 ∷ n / 2 ^ 8 % 256 ∷ n % 256 ∷ []

pub be_value : List ℕ → ℕ
be_value (a ∷ b ∷ c ∷ d ∷ _) = a * 2 ^ 24 + b * 2 ^ 16 + c * 2 ^ 8 + d
be_value _ = 0

-- What `network_send` writes for a message, `none` for an unknown type.
unfoldable pub frame : Message → Option (List ℕ)
frame m = elim (serialize_message m) [ none ↦ none | some bs ↦ some (be_bytes (length bs) ++ bs) ]

-- A connection from which a node reads: the bytes to come, and the sizes that `recv` will have.
pub record Stream : Type 0 where
  pub bytes : List ℕ
  pub sizes : List ℕ

abbrev pub min_of : ℕ → ℕ → ℕ
min_of a b = if ltb a b then a else b

unfoldable pub drop {ℓ} : {A : Type ℓ} → ℕ → List A → List A
drop zero xs = xs
drop (suc n) [] = []
drop (suc n) (x ∷ xs) = drop n xs

-- The loop that reads `want` bytes; `none` is `DSM_ERROR_NETWORK`.
pub read_exact : (want : ℕ) → (bytes sizes : List ℕ) → Option (List ℕ × Stream)
read_exact want bytes [] =
    if want == 0 then some ([], record { bytes = bytes; sizes = [] }) else none
read_exact want bytes (s ∷ sizes) =
    let n = min_of s want in
    let rest = read_exact (want - n) (drop n bytes) sizes in
    if want == 0
    then some ([], record { bytes = bytes; sizes = s ∷ sizes })
    else if (n == 0) || ltb (length bytes) n
    then none
    else elim rest [ none ↦ none | some (got, after) ↦ some (take n bytes ++ got, after) ]

-- `none` is an error code: a connection that fails, a length of 0 or above 8192, or a message that
-- `deserialize_message` rejects.
pub network_recv : Stream → Option (Message × Stream)
network_recv s = elim (read_exact 4 s.bytes s.sizes) [
  | none ↦ none
  | some (prefix, s1) ↦
      let len = be_value prefix in
      if (len == 0) || ltb 8192 len then none else elim (read_exact len s1.bytes s1.sizes) [
        | none ↦ none
        | some (bs, s2) ↦ elim (deserialize_message bs) [ none ↦ none | some m ↦ some (m, s2) ]
      ]
]
