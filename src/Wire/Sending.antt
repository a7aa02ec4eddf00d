-- ===== src/Wire/Sending.antt =====
-- src/network/network.c, `network_send`: a framed message written to a socket. The list of what
-- `send` answers drives the loops; where it ends first there is no result. The pauses are left out.
use mathlib.Core.List.{append_assoc}
use user_level_dsm.Prelude.{
  refl, ℕ, length, List, if◌then◌else◌, ◌+◌, set, All, ◌≡◌, [], Option, ◌<◌, Bool, get_or, none,
  suc, some, true, false, ◌≢◌, leb, ◌∷◌, ◌++◌, take, ◌==◌, arith, not, ◌||◌, zero, Bool-cases, ap,
  inl, inr, ◌∙◌,
}
use user_level_dsm.Wire.{Message}
use user_level_dsm.Types.{Status, success, max_nodes, invalid_argument, network_error}
use user_level_dsm.Coherence.{NodeSlot}
use user_level_dsm.Wire.Framing.{drop, frame}
use user_level_dsm.Wire.Framing.Delivery.{length-drop, take_and_drop}

-- What `send` answers: the number of bytes taken, 0 if the connection is closed, `EINTR`, `EAGAIN`,
-- a broken connection, or another error.
pub data SendResult : Type 0 where
  sent : ℕ → SendResult
  interrupted would_block broken failed : SendResult

-- What `network_send` reads and writes of the global context.
pub record Sender : Type 0 where
  pub next_seq_num : ℕ
  pub nodes : List NodeSlot

-- How the loops end: the code, the bytes that the peer has been given, and whether the connection is
-- marked as broken.
pub record Ending : Type 0 where
  pub status : Status
  pub given : List ℕ
  pub disconnected : Bool

abbrev pub is_nil : List ℕ → Bool
is_nil [] = true
is_nil (x ∷ xs) = false

-- `tries` is the number of attempts left after this one, `rest` the bytes of this attempt that are
-- not sent yet.
unfoldable pub send_loop :
    (tries : ℕ) → (whole rest given : List ℕ) → List SendResult → Option Ending
send_loop tries whole rest given [] = none
send_loop tries whole rest given (sent k ∷ rs) =
    let more = send_loop tries whole (drop k rest) (given ++ take k rest) rs in
    if k == 0
    then some (record { status = network_error; given = given; disconnected = true })
    else if is_nil (drop k rest)
    then some (record { status = success; given = given ++ take k rest; disconnected = false })
    else more
send_loop tries whole rest given (interrupted ∷ rs) = send_loop tries whole rest given rs
send_loop tries whole rest given (would_block ∷ rs) = send_loop tries whole rest given rs
send_loop tries whole rest given (broken ∷ rs) =
    some (record { status = network_error; given = given; disconnected = true })
send_loop zero whole rest given (failed ∷ rs) =
    some (record { status = network_error; given = given; disconnected = false })
send_loop (suc tries) whole rest given (failed ∷ rs) = send_loop tries whole whole given rs

abbrev pub slot_of : Sender → ℕ → NodeSlot
slot_of s dest = get_or s.nodes dest (record { connected = false; is_failed = false })

abbrev pub refused : Status → Ending
refused code = record { status = code; given = []; disconnected = false }

abbrev pub numbered : Sender → Message → Message
numbered s m = record { header = record m.header { seq_num = s.next_seq_num }; payload = m.payload }

abbrev pub counted : Sender → Sender
counted s = record s { next_seq_num = s.next_seq_num + 1 }

-- A connection that breaks is marked.
abbrev pub marked : Sender → ℕ → Ending → Sender
marked s dest e =
    if e.disconnected
    then record s { nodes = set s.nodes dest (record (slot_of s dest) { connected = false }) }
    else s

pub network_send : Sender → (dest : ℕ) → Message → List SendResult → Option (Ending × Sender)
network_send s dest m rs =
    if leb max_nodes dest
    then some (refused invalid_argument, s)
    else if not (slot_of s dest).connected || (slot_of s dest).is_failed
    then some (refused network_error, counted s)
    else elim (frame (numbered s m)) [
      | none ↦ some (refused invalid_argument, counted s)
      | some f ↦ elim (send_loop 2 f f [] rs) [
        | none ↦ none
        | some e ↦ some (e, marked (counted s) dest e)
      ]
    ]

is_nil-false : (xs : List ℕ) → 0 < length xs → is_nil xs ≡ false
is_nil-false [] h = absurd (omega arith)
is_nil-false (x ∷ xs) h = refl

is_nil-true : (xs : List ℕ) → length xs ≡ 0 → is_nil xs ≡ true
is_nil-true [] h = refl
is_nil-true (x ∷ xs) h = absurd (omega arith)

take_whole : (k : ℕ) (xs : List ℕ) → is_nil (drop k xs) ≡ true → take k xs ≡ xs
unfolding drop
take_whole zero [] h = refl
take_whole zero (x ∷ xs) h = cc
take_whole (suc k) [] h = refl
take_whole (suc k) (x ∷ xs) h = ap (λ ys. x ∷ ys) (take_whole k xs h)

-- No attempt ends in an error other than a broken connection.
abbrev pub IsSmooth : List SendResult → Type 0
IsSmooth rs = All (λ r. r ≢ failed) rs

-- A send in one attempt that succeeds, through whatever interruptions and partial writes, has given
-- the peer the bytes that were left, each once and in order, and has marked nothing.
pub send-whole :
    (tries : ℕ) (whole rest given : List ℕ) (rs : List SendResult) (e : Ending)
    → IsSmooth rs
    → send_loop tries whole rest given rs ≡ some e
    → e.status ≡ success
    → (e.given ≡ given ++ rest) × (e.disconnected ≡ false)
unfolding send_loop
send-whole tries whole rest given [] e smooth h ok = cc
send-whole tries whole rest given (sent k ∷ rs) e smooth h ok = elim (Bool-cases (k == 0)) [
  | inl zero_sent ↦ absurd (ground (arith, zero_sent, h, ok))
  | inr some_sent ↦ elim (Bool-cases (is_nil (drop k rest))) [
    | inl done ↦ ground (arith, some_sent, done, h, take_whole k rest done)
    | inr left ↦
        let later =
          send-whole tries whole (drop k rest) (given ++ take k rest) rs e smooth.1
            (simp (some_sent, left) at h) ok in
        (
          later.0
              ∙ append_assoc given (take k rest) (drop k rest)
              ∙ ap (λ xs. given ++ xs) (take_and_drop k rest),
          later.1,
        )
  ]
]
send-whole tries whole rest given (interrupted ∷ rs) e smooth h ok =
    send-whole tries whole rest given rs e smooth.1 h ok
send-whole tries whole rest given (would_block ∷ rs) e smooth h ok =
    send-whole tries whole rest given rs e smooth.1 h ok
send-whole tries whole rest given (broken ∷ rs) e smooth h ok = absurd (ground (arith, h, ok))
send-whole tries whole rest given (failed ∷ rs) e smooth h ok = absurd (smooth.0 refl)

-- An error in the middle of a message: after `k` bytes of a message and an error, the next attempt
-- starts at the first byte, so the peer gets the first `k` bytes twice, and the send succeeds.
pub resend_repeats :
    (tries k : ℕ) (whole : List ℕ)
    → 0 < k
    → k < length whole
    → send_loop (suc tries) whole whole [] (sent k ∷ failed ∷ sent (length whole) ∷ [])
      ≡ some (record { status = success; given = take k whole ++ whole; disconnected = false })
unfolding send_loop
resend_repeats tries k whole pos short =
    let left : is_nil (drop k whole) ≡ false =
      is_nil-false (drop k whole) (omega (arith, length-drop k whole, short)) in
    let done : is_nil (drop (length whole) whole) ≡ true =
      is_nil-true (drop (length whole) whole) (omega (arith, length-drop (length whole) whole)) in
    ground (arith, left, done, take_whole (length whole) whole done, short)
