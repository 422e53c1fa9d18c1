-- ===== src/Client/Tests.antt =====
-- Uses of the laws of 7005_NVirt/Client on a transfer of three packets with a window of two.
use ridingthecode.Common.{
  ◌≡◌, ◌≢◌, refl, ap, [], ◌∷◌, true, false, some, arith, ◌⊎◌, length-replicate, none, replicate, ℕ,
}
use ridingthecode.Common.Int.{pos, ◌+ℤ◌}
use ridingthecode.Common.Text.{Bytes, codes}
use ridingthecode.Common.Fault.{ok}
use ridingthecode.Packet.{PacketHdr, IsPacket, ack, eot, to_bytes, from_bytes, p_size}
use ridingthecode.Packet.Layout.{from_bytes-to_bytes}
use ridingthecode.Client.Transfer.{TransferController, verify_ack, go_back, read_next_packet, ready}
use ridingthecode.Client.Transfer.Packets.{nth_packet}
use ridingthecode.Client.Transfer.Window.{View, InWindow, verify_ack_answer, go_back_lem}
use ridingthecode.Client.Transfer.Start.{made, made-View, start-InWindow}
use ridingthecode.Client.Node.{Node, Network, Sent, transmit_data, pop_front, new_node}
use ridingthecode.Client.Node.Acks.{Fronts, go_back_resends}
use ridingthecode.Client.Node.Delivery.{exchange, Progress, acked_by, acked_by-IsPacket}
use ridingthecode.Client.Node.Exchange.{exchange_lem}
use ridingthecode.Client.Socket.{datagram}
use ridingthecode.Client.Loop.{Input, next, turn}
use ridingthecode.Client.Loop.Turns.{turn_advances}
use ridingthecode.Client.Node.Completion.{exchanges, transfer_completes}

abbrev here : Bytes
here = codes "10.0.0.1"

abbrev there : Bytes
there = codes "10.0.0.2"

-- a new transfer of three packets, two at a time
abbrev fresh : TransferController
fresh = made here there 3 2

fresh-View : View fresh 3 2 0 1 1
fresh-View = made-View here there 3 2 (omega arith) (omega arith) (omega arith) (omega arith)

fresh-InWindow : InWindow 3 2 0 1 1
fresh-InWindow = start-InWindow 3 2 (omega arith)

-- the transfer once its first packet is sent and acknowledged
abbrev one_acked : TransferController
one_acked = record fresh { current_seq = pos 2; current_ack = pos 0 }

one_acked-View : View one_acked 3 2 1 2 1
unfolding ◌+ℤ◌
one_acked-View = record {
  next_seq = refl;
  acked = refl;
  window_no = refl;
  window_len = refl;
  packet_len = refl;
  total = fresh-View.total;
  sized = fresh-View.sized;
  dest_fits = omega arith;
  src_fits = omega arith;
  blocks = fresh-View.blocks;
}

one_acked-InWindow : InWindow 3 2 1 2 1
one_acked-InWindow = record {
  sent_all = omega arith;
  sent_in = omega arith;
  base_in = omega arith;
  base_recent = omega arith;
}

-- Every name resolves to itself, and every datagram is taken.
abbrev net : Network
net = record { resolve = λ name. some name; deliver = λ address raw. true }

abbrev idle : Node
idle = new_node (pos 0) false

abbrev sending : Node
sending = record {
  transfers = fresh ∷ [];
  server_ip = codes "localhost";
  num_packets = pos 30;
  window_size = pos 10;
  timer = pos 0;
  timer_enabled = false;
}

sending-Fronts : Fronts sending fresh
sending-Fronts = record { others = []; at_front = refl }

sending-Progress : Progress net sending 3 2 0
sending-Progress = record {
  reaches = record { address = codes "localhost"; found = refl; taken = λ raw. refl };
  t = fresh;
  k = 1;
  fronts = sending-Fronts;
  view = fresh-View;
  inside = fresh-InWindow;
}

-- an ack for packet number 6
abbrev late_ack : PacketHdr
late_ack = acked_by here 5

late_ack-IsPacket : IsPacket late_ack
late_ack-IsPacket = acked_by-IsPacket here 5 (omega arith)

late_type : (from_bytes (to_bytes late_ack)).ptype ≡ ack
unfolding acked_by
late_type = ap (λ p. p.ptype) (from_bytes-to_bytes late_ack-IsPacket)

late_value : (from_bytes (to_bytes late_ack)).ack_value ≡ pos 5
unfolding acked_by
late_value = ap (λ p. p.ack_value) (from_bytes-to_bytes late_ack-IsPacket)

late_other : (from_bytes (to_bytes late_ack)).ack_value ≢ pos 0
late_other h = ground (arith, late_value)

verify_ack_answer_example :
    ((late_ack.ack_value ≡ pos 0)
      × View (verify_ack fresh late_ack).1 3 2 1 1 1
      × ((verify_ack fresh late_ack).0 ≡ 1))
    ⊎ ((late_ack.ack_value ≢ pos 0) × (verify_ack fresh late_ack ≡ (0, fresh)))
verify_ack_answer_example = verify_ack_answer fresh late_ack 3 2 0 1 1 fresh-View (omega arith)

go_back_lem_example : View (go_back one_acked) 3 2 1 1 1 × InWindow 3 2 1 1 1
go_back_lem_example =
    go_back_lem one_acked 3 2 1 2 1 one_acked-View one_acked-InWindow (omega arith)

go_back_resends_example :
    (t' : TransferController) × (read_next_packet (go_back one_acked)
      ≡ ok (ready (to_bytes (nth_packet there here (pos 2) 0)) t'))
    × (verify_ack t' (nth_packet there here (pos 2) 0) ≡ (0, t'))
go_back_resends_example =
    go_back_resends one_acked (nth_packet there here (pos 2) 0) 3 2 0 1 2 one_acked-View
      one_acked-InWindow (omega arith) (omega arith) refl

exchange_lem_example :
    (s' : Node) × (exchange net (pos 0) here sending ≡ ok s') × Progress net s' 3 2 1
exchange_lem_example =
    exchange_lem net (pos 0) here sending 3 2 0 sending-Progress (omega arith) (omega arith)
      (omega arith) (omega arith)

transfer_completes_example :
    (s' : Node) × (m : Sent) × (exchanges 3 net (pos 0) here sending ≡ ok s')
    × (transmit_data net (pos 0) s' ≡ ok (pos 0, pop_front s', m ∷ []))
    × ((from_bytes m.content).ptype ≡ eot)
transfer_completes_example =
    transfer_completes net (pos 0) here sending 3 2 sending-Progress (omega arith) (omega arith)
      (omega arith)

-- a turn in which the ack for the first packet arrives
abbrev acked_turn : Input
acked_turn = record {
  line = none;
  host = here;
  writable = true;
  clock = pos 10;
  arrivals = datagram (to_bytes (acked_by here 0)) ∷ [];
  garbage = replicate p_size 3;
  later = pos 20;
}

turn_advances_example :
    (s' : Node) × (m : Sent) × (turn net acked_turn sending ≡ next s' (m ∷ []) [])
    × Progress net s' 3 2 1
turn_advances_example =
    turn_advances net acked_turn here sending 3 2 0 [] sending-Progress (omega arith) (omega arith)
      (omega arith) (omega arith) refl refl refl (length-replicate {A = ℕ} p_size 3)
