-- ===== src/Sender/Tests.antt =====
-- Uses of the theorems on the packet sender at concrete transfers.
use ridingthecode.Common.{
  ℕ, ◌*◌, none, replicate, ◌+◌, ◌≡◌, refl, List, [], ◌∷◌, arith, true, some, length, map,
}
use ridingthecode.Common.Int.{pos}
use ridingthecode.Common.Text.{Bytes, codes, same_bytes, before}
use ridingthecode.Common.Fault.{ok, ◌>>=◌}
use ridingthecode.Sender.Header.{header_size, flags, grab_header_info}
use ridingthecode.Sender.Header.RoundTrip.{grab_header_info-flags}
use ridingthecode.Sender.Server.{tcp, ack_text, SocketInformation, new_information, socket_events}
use ridingthecode.Sender.Server.Receiving.{sum}
use ridingthecode.Sender.Messages.{
  SocketMessage, select_error, accepted, readable, closed, socket_messages,
}
use ridingthecode.Sender.Messages.Transfer.{seen, transfer_by_reads}
use ridingthecode.Sender.Filler.{filler_transfer}
use ridingthecode.Sender.Client.{
  tcp_deliver_packets, filler_packets, Round, delivered, receive_acknowledge, send_each,
}
use ridingthecode.Sender.Client.Delivery.{acks, SentUntilAcked, send_each_lem}

grab_header_info-flags_example :
    (memory : Bytes) × (flags
        (record { total_size = pos 4100; packet_size = pos 1024; packets = pos 5; mode = pos 0 })
      ≡ ok memory)
    × (length memory ≡ header_size)
    × (grab_header_info memory
        ≡ ok (record {
          total_size = pos 4100;
          packet_size = pos 1024;
          packets = pos 5;
          mode = pos 0;
        }))
grab_header_info-flags_example =
    grab_header_info-flags 4100 1024 5 0 (omega arith) (omega arith) (omega arith) (omega arith)

abbrev two_buffers : List Bytes
two_buffers = (1 ∷ 2 ∷ []) ∷ (3 ∷ []) ∷ []

-- the second answer is none that acknowledges
abbrev rounds : List Round
rounds = (true, ack_text) ∷ (true, codes "?????") ∷ (true, ack_text) ∷ []

send_each_lem_example :
    (sends : List Bytes) × (lost : ℕ) × (rest : List Round) × (send_each two_buffers rounds
      ≡ delivered sends lost rest)
    × SentUntilAcked two_buffers rounds sends rest
    × (length sends ≡ 2 + lost)
    × (acks rounds ≡ acks rest + 2)
unfolding receive_acknowledge same_bytes before
send_each_lem_example = send_each_lem two_buffers rounds (refl, (refl, (refl, tt))) (omega arith)

abbrev waiting : SocketInformation
waiting = record {
  header = record { total_size = pos 5; packet_size = pos 4; packets = pos 2; mode = pos 1 };
  packets = pos 2;
  header_received = true;
  total_recv = 0;
  buffer = [];
}

-- The first connection breaks off, and another one goes on with its transfer.
abbrev reports : List SocketMessage
reports =
    accepted (some 5)
    ∷ readable (λ socket. some (7 ∷ 7 ∷ 7 ∷ []))
    ∷ select_error 10054
    ∷ accepted (some 6)
    ∷ readable (λ socket. elim socket [ none ↦ none | some d ↦ some (d ∷ 0 ∷ []) ])
    ∷ closed
    ∷ []

transfer_by_reads_example :
    seen (socket_messages tcp reports (record { server_socket = none; info = waiting }))
    ≡ socket_events tcp (some (7 ∷ 7 ∷ 7 ∷ []) ∷ some (6 ∷ 0 ∷ []) ∷ []) waiting
transfer_by_reads_example =
    transfer_by_reads tcp reports (record { server_socket = none; info = waiting })

filler_transfer_example :
    (header : Bytes) × (sends : List Bytes) × ((filler_packets 3 2
        >>= tcp_deliver_packets 3 (pos 1) [])
      ≡ ok (header ∷ sends))
    × (sum sends ≡ 3 * 2)
    × (socket_events tcp
          (map some (header ∷ (7 ∷ []) ∷ (7 ∷ 0 ∷ 7 ∷ 7 ∷ 0 ∷ []) ∷ []))
          (new_information [])
        ≡ ok (new_information (replicate (3 * 2) 0), []))
unfolding new_information
filler_transfer_example =
    filler_transfer 3 2 1 (7 ∷ []) ((7 ∷ 0 ∷ 7 ∷ 7 ∷ 0 ∷ []) ∷ []) (new_information [])
      (omega arith) (omega arith) (omega arith) (omega arith) (omega arith) refl (omega arith, tt)
      refl
