-- ===== src/Chat/Client/Tests.antt =====
-- Uses of the theorems on the client.
use ridingthecode.Common.{◌≡◌, inl, refl, List, [], ◌∷◌, true, arith, length}
use ridingthecode.Common.Int.{pos}
use ridingthecode.Common.Text.{Bytes}
use ridingthecode.Common.Fault.{ok}
use ridingthecode.Packet.{int_bytes}
use ridingthecode.Chat.Stream.{Stream}
use ridingthecode.Chat.Stream.Receive.{bytes_of}
use ridingthecode.Chat.Packets.{
  client_join_pkt, channel_info_pkt, client_msg_pkt, write_packet, write_body, write_fields,
}
use ridingthecode.Chat.Channel.{acceptance}
use ridingthecode.Common.{copy_to}
use ridingthecode.Chat.Packets.{recieve_cjoin}
use ridingthecode.Chat.Client.{
  Client, sent, going, new_client, join_channel, joined_on, check_input_pipes,
}
use ridingthecode.Chat.Client.Answers.{join_answered}
use ridingthecode.Chat.Client.Asking.{message_turn}
use ridingthecode.Chat.Samples.{
  ann, blank, blank-length, join_packet, one_member, one_member-IsChannel, room, text,
}

abbrev idle : Client
idle = new_client ann (pos 3)

abbrev inside : Client
inside = record idle { in_channel = true; client_socket = pos 4 }

join_answered_example :
    (users : List Bytes) × (length users ≡ 1)
    × (join_channel blank
          (pos 0)
          (pos 4)
          (int_bytes channel_info_pkt ∷ acceptance (blank 2028) one_member 1 ∷ [])
          (join_packet ∷ [])
          idle
        ≡ ok (
          joined_on (pos 4) (record idle { channel_name = room; channel_users = users }),
          sent (pos 4) (
                write_packet client_join_pkt
                  (copy_to (recieve_cjoin blank (join_packet ∷ [])).0 0 ann))
              ∷ [],
          (recieve_cjoin blank (join_packet ∷ [])).1,
        ))
unfolding new_client write_packet write_body write_fields
join_answered_example =
    join_answered blank (pos 0) (pos 4) (int_bytes channel_info_pkt)
      (acceptance (blank 2028) one_member 1 ∷ []) [] blank-length (omega arith, (omega arith, tt))
      (omega arith) (ground arith) (join_packet ∷ []) idle true channel_info_pkt (blank 2028)
      one_member 1 (inl refl) one_member-IsChannel (omega arith) refl refl

message_turn_example :
    (pipe' : Stream) × (check_input_pipes blank
        (pos 0)
        (pos 4)
        []
        true
        (int_bytes client_msg_pkt ∷ text ∷ (5 ∷ []) ∷ [])
        inside
      ≡ going inside pipe' (sent (pos 4) (write_packet client_msg_pkt text) ∷ []))
    × (bytes_of pipe' ≡ 5 ∷ [])
unfolding new_client write_packet write_body
message_turn_example =
    message_turn blank (pos 0) (pos 4) [] (int_bytes client_msg_pkt) (text ∷ (5 ∷ []) ∷ []) (5 ∷ [])
      inside (omega arith, (omega arith, (omega arith, tt))) (omega arith) text blank-length refl
      refl
