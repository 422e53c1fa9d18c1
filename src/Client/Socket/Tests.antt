-- ===== src/Client/Socket/Tests.antt =====
-- A use of the law of `recieve_data` on an error of the socket.
use ridingthecode.Common.{◌≡◌, [], ◌∷◌, false, some, replicate, length-replicate, ℕ}
use ridingthecode.Common.Int.{pos}
use ridingthecode.Packet.{p_size}
use ridingthecode.Client.Node.{Node, Network, new_node, check_packet}
use ridingthecode.Client.Socket.{recv_error, receive_data, checked}
use ridingthecode.Client.Socket.Arrivals.{receive_data-check_packet}

abbrev net : Network
net = record { resolve = λ name. some name; deliver = λ address raw. false }

abbrev idle : Node
idle = new_node (pos 0) false

receive_data-check_packet_example :
    receive_data net (replicate p_size 3) idle (recv_error ∷ [])
    ≡ checked [] (check_packet net idle (replicate p_size 3))
receive_data-check_packet_example =
    receive_data-check_packet net (replicate p_size 3) idle recv_error []
      (length-replicate {A = ℕ} p_size 3) tt
