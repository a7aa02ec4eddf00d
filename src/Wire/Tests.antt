-- ===== src/Wire/Tests.antt =====
-- src/network/network.c: each theorem on messages as bytes at one input.
use user_level_dsm.Wire.{
  Message, type_of, payload_size, serialize_message, node_leave, header_bytes, le_bytes,
}
use user_level_dsm.Prelude.{
  refl, ℕ, List, ◌∷◌, ◌≡◌, arith, replicate, [], suc, ◌≤◌, ◌++◌, some, zero, take, false,
}
use user_level_dsm.Wire.Framing.Delivery.{IsFlowing, recv-frame}
use user_level_dsm.Wire.Framing.{frame, network_recv, be_bytes, drop}
use user_level_dsm.Wire.Bytes.{IsHeader}
use user_level_dsm.Wire.Sending.{
  send_loop, SendResult, IsSmooth, Ending, interrupted, failed, resend_repeats,
}
use user_level_dsm.Wire.Sending.{SendResult, sent}
use user_level_dsm.Types.{success}

abbrev leave_message : Message
leave_message = record {
  header = record { magic = 3735928559; type = 13; length = 0; sender = 2; seq_num = 300 };
  payload = 2 ∷ 0 ∷ 0 ∷ 0 ∷ 9 ∷ [];
}

-- The bytes 2 and 300, lowest byte first, stand among those of the header.
abbrev leave_frame : List ℕ
leave_frame =
    0 ∷ 0 ∷ 0 ∷ 28 ∷ 239 ∷ 190 ∷ 173 ∷ 222 ∷ 13 ∷ 0 ∷ 0 ∷ 0 ∷ 0 ∷ 0 ∷ 0 ∷ 0 ∷ 2 ∷ 0 ∷ 0 ∷ 0 ∷ 44 ∷ 1
    ∷ 0 ∷ 0 ∷ 0 ∷ 0 ∷ 0 ∷ 0 ∷ 2 ∷ 0 ∷ 0 ∷ 0 ∷ []

leave-IsHeader : IsHeader leave_message.header
leave-IsHeader = record {
  magic_eq = refl;
  known = (omega arith, omega arith);
  length_lt = omega arith;
  sender_lt = omega arith;
  seq_num_lt = omega arith;
}

is_known : type_of 13 ≡ some node_leave
unfolding type_of
is_known = refl

is_framed : frame leave_message ≡ some leave_frame
unfolding frame serialize_message header_bytes le_bytes be_bytes payload_size type_of
is_framed = refl

-- Each call of `recv` has three bytes.
abbrev threes : List ℕ
threes = replicate 32 3

threes-IsFlowing : IsFlowing threes
threes-IsFlowing = go 32
  where
    go : (n : ℕ) → IsFlowing (replicate n 3)
    go zero = tt
    go (suc n) = (omega arith, go n)

recv-frame_example :
    (left : List ℕ) × (network_recv (record { bytes = leave_frame ++ 7 ∷ []; sizes = threes })
      ≡ some (
        record leave_message { payload = take (payload_size node_leave) leave_message.payload },
        record { bytes = 7 ∷ []; sizes = left },
      ))
recv-frame_example =
    recv-frame leave_message node_leave leave_frame (7 ∷ []) threes leave-IsHeader is_known
      is_framed threes-IsFlowing (omega arith)

payload_fits : payload_size node_leave ≤ 5
unfolding payload_size
payload_fits = omega arith

-- A write that is interrupted and cut in two.
abbrev smooth_results : List SendResult
smooth_results = sent 2 ∷ interrupted ∷ sent 1 ∷ []

smooth_results-IsSmooth : IsSmooth smooth_results
smooth_results-IsSmooth = (λ h. cc, (λ h. cc, (λ h. cc, tt)))

abbrev whole_ending : Ending
whole_ending = record { status = success; given = 5 ∷ 6 ∷ 7 ∷ []; disconnected = false }

is_sent : send_loop 2 (5 ∷ 6 ∷ 7 ∷ []) (5 ∷ 6 ∷ 7 ∷ []) [] smooth_results ≡ some whole_ending
unfolding send_loop drop
is_sent = refl

resend_repeats_example :
    send_loop 2 (5 ∷ 6 ∷ []) (5 ∷ 6 ∷ []) [] (sent 1 ∷ failed ∷ sent 2 ∷ [])
    ≡ some (record { status = success; given = 5 ∷ 5 ∷ 6 ∷ []; disconnected = false })
resend_repeats_example = resend_repeats 1 1 (5 ∷ 6 ∷ []) (omega arith) (omega arith)
